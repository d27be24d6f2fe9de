-- ===== src/Parser/RoundTrip/Content.antt =====
-- Escaped text between tags and in attribute values: the parser reads back what was escaped.
use gloox.Base.{
  find_byte, ℕ, ◌≡◌, refl, sym, subst, ◌⊎◌, inl, inr, false, [], ◌∷◌, ◌++◌, append_assoc,
  append-nil, arith, Bytes, codes, equal, is_empty, ◌==◌,
}
use gloox.Parser.Decode.{decode, decode_found, entity, store}
use gloox.Parser.RoundTrip.Runs.{Runs, Runs-nil, Runs-append, Runs-byte, Runs-step}
use gloox.Parser.Step.{step_in, step_inter_tag, step_inside, step_value, after_decode}
use gloox.Parser.{Parser, State, inter_tag, tag_inside, tag_attribute_value, is_whitespace}
use gloox.Util.Escape.{escape, escape_byte, find_seq}

-- The parser between tags, with `d` collected since the last one.
abbrev pub content : Parser → State → Bytes → Bytes → Parser
content p st name d = record p { state = st; tag_name = name; cdata = d }

special :
    (c : ℕ)
    → (c ≡ b'&')
      ⊎ (c ≡ b'<')
      ⊎ (c ≡ b'>')
      ⊎ (c ≡ 0x27)
      ⊎ (c ≡ 0x22)
      ⊎ (((c == b'&') ≡ false)
          × ((c == b'<') ≡ false)
          × ((c == 0x27) ≡ false)
          × ((c == 0x22) ≡ false)
          × (escape_byte c ≡ c ∷ []))
unfolding escape_byte find_seq
special c = ground arith

module _ {ℓ} (P : ℕ → Bytes → Type ℓ) where
  escape_cases :
      P b'&' (codes "&amp;")
      → P b'<' (codes "&lt;")
      → P b'>' (codes "&gt;")
      → P 0x27 (codes "&apos;")
      → P 0x22 (codes "&quot;")
      → ((c : ℕ)
          → (c == b'&') ≡ false
          → (c == b'<') ≡ false
          → (c == 0x27) ≡ false
          → (c == 0x22) ≡ false
          → P c (c ∷ []))
      → (c : ℕ) → P c (escape_byte c)
  unfolding escape_byte find_seq
  escape_cases amp lt gt apos quot other c = elim (special c) [
    | inl e ↦ rw e amp
    | inr (inl e) ↦ rw e lt
    | inr (inr (inl e)) ↦ rw e gt
    | inr (inr (inr (inl e))) ↦ rw e apos
    | inr (inr (inr (inr (inl e)))) ↦ rw e quot
    | inr (inr (inr (inr (inr e)))) ↦ subst (P c) (sym e.4) (other c e.0 e.1 e.2 e.3)
  ]

module _ (p : Parser) (name d : Bytes) where
  pub Runs-inside_byte :
      (c : ℕ)
      → Runs (content p tag_inside name d) (escape_byte c) (content p tag_inside [] (d ++ (c ∷ [])))
  unfolding step_in step_inside after_decode decode decode_found find_byte entity store equal
  Runs-inside_byte =
      escape_cases
        (λ c xs. Runs (content p tag_inside name d) xs (content p tag_inside [] (d ++ (c ∷ []))))
        (Runs-step _ b'&' (codes "amp;") _ (λ cs. refl))
        (Runs-step _ b'&' (codes "lt;") _ (λ cs. refl))
        (Runs-step _ b'&' (codes "gt;") _ (λ cs. refl))
        (Runs-step _ b'&' (codes "apos;") _ (λ cs. refl))
        (Runs-step _ b'&' (codes "quot;") _ (λ cs. refl))
        (λ c amp lt apos quot. Runs-byte _ c _ (λ cs. rw (lt, amp)))

  Runs-inter_tag_byte :
      is_empty p.path ≡ false
      → (c : ℕ)
      → Runs (content p inter_tag name d) (escape_byte c) (content p tag_inside [] (d ++ (c ∷ [])))
  unfolding step_in step_inter_tag is_whitespace after_decode decode decode_found find_byte entity
      store equal
  Runs-inter_tag_byte h =
      escape_cases
        (λ c xs. Runs (content p inter_tag name d) xs (content p tag_inside [] (d ++ (c ∷ []))))
        (Runs-step _ b'&' (codes "amp;") _ (λ cs. refl))
        (Runs-step _ b'&' (codes "lt;") _ (λ cs. refl))
        (Runs-step _ b'&' (codes "gt;") _ (λ cs. refl))
        (Runs-step _ b'&' (codes "apos;") _ (λ cs. refl))
        (Runs-step _ b'&' (codes "quot;") _ (λ cs. refl))
        (λ c amp lt apos quot. Runs-byte _ c _ (λ cs. rw (h, amp, lt) (ground arith)))

-- A whole text between tags, behind the first byte of it.
Runs-inside :
    (s : Bytes) (p : Parser) (d : Bytes)
    → Runs (content p tag_inside [] d) (escape s) (content p tag_inside [] (d ++ s))
unfolding escape
Runs-inside [] p d =
    subst (λ (x : Bytes). Runs (content p tag_inside [] d) [] (content p tag_inside [] x))
      (sym (append-nil d)) (Runs-nil _)
Runs-inside (c ∷ s) p d = Runs-append (Runs-inside_byte p [] d c) (
    subst
      (λ (x : Bytes).
        Runs (content p tag_inside [] (d ++ (c ∷ []))) (escape s) (content p tag_inside [] x))
      (append_assoc d (c ∷ []) s) (Runs-inside s p (d ++ (c ∷ []))))

-- The states in which text may begin.
pub data IsBetween : State → Type 0 where
  opened : IsBetween tag_inside
  closed : IsBetween inter_tag

Runs-first :
    {st : State} (p : Parser) (name : Bytes) (c : ℕ)
    → IsBetween st
    → is_empty p.path ≡ false
    → Runs (content p st name []) (escape_byte c) (content p tag_inside [] (c ∷ []))
Runs-first p name c opened h = Runs-inside_byte p name [] c
Runs-first p name c closed h = Runs-inter_tag_byte p name [] h c

-- Text that is not empty, inside an open tag.
pub Runs-text :
    {st : State} (p : Parser) (name : Bytes) (c : ℕ) (s : Bytes)
    → IsBetween st
    → is_empty p.path ≡ false
    → Runs (content p st name []) (escape (c ∷ s)) (content p tag_inside [] (c ∷ s))
unfolding escape
Runs-text p name c s b h = Runs-append (Runs-first p name c b h) (Runs-inside s p (c ∷ []))

-- The parser in an attribute's value that was opened by an apostrophe.
abbrev pub valued : Parser → Bytes → Parser
valued p v = record p { state = tag_attribute_value; value = v; quote = false }

module _ (p : Parser) where
  Runs-value_byte :
      (v : Bytes) (c : ℕ) → Runs (valued p v) (escape_byte c) (valued p (v ++ (c ∷ [])))
  unfolding step_in step_value after_decode decode decode_found find_byte entity store equal
  Runs-value_byte v =
      escape_cases (λ c xs. Runs (valued p v) xs (valued p (v ++ (c ∷ []))))
        (Runs-step _ b'&' (codes "amp;") _ (λ cs. refl))
        (Runs-step _ b'&' (codes "lt;") _ (λ cs. refl))
        (Runs-step _ b'&' (codes "gt;") _ (λ cs. refl))
        (Runs-step _ b'&' (codes "apos;") _ (λ cs. refl))
        (Runs-step _ b'&' (codes "quot;") _ (λ cs. refl))
        (λ c amp lt apos quot. Runs-byte _ c _ (λ cs. rw (lt, apos, quot, amp)))

  pub Runs-value : (s v : Bytes) → Runs (valued p v) (escape s) (valued p (v ++ s))
  unfolding escape
  Runs-value [] v =
      subst (λ (x : Bytes). Runs (valued p v) [] (valued p x)) (sym (append-nil v)) (Runs-nil _)
  Runs-value (c ∷ s) v = Runs-append (Runs-value_byte v c) (
      subst (λ (x : Bytes). Runs (valued p (v ++ (c ∷ []))) (escape s) (valued p x))
        (append_assoc v (c ∷ []) s) (Runs-value s (v ++ (c ∷ []))))

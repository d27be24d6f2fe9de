-- ===== src/Parser/RoundTrip/Names.antt =====
-- Names of tags and attributes, and how the parser collects them.
use gloox.Base.{
  ℕ, ◌≡◌, refl, sym, subst, Bool, true, false, not, ◌&&◌, ◌||◌, [], ◌∷◌, ◌++◌, append_assoc,
  append-nil, arith, All, Bytes, is_empty, ◌==◌,
}
use gloox.Parser.RoundTrip.Runs.{Runs, Runs-nil, Runs-append, Runs-byte}
use gloox.Parser.Step.{
  step_in, step_name_collect, step_attribute, step_closing, step_closing_slash, step_tag_opening,
  step_name_complete,
}
use gloox.Parser.{
  Parser, tag_opening, tag_name_collect, tag_name_complete, tag_attribute, tag_closing,
  tag_closing_slash, is_whitespace,
}
use gloox.Util.Valid.{is_valid_byte, check_valid_xml_chars}

-- The bytes that have a meaning for some state that collects a name.
abbrev is_special : ℕ → Bool
is_special c =
    c == b'<'
    || c == b'>'
    || c == b'/'
    || c == b'?'
    || c == b'!'
    || c == b'&'
    || c == b'='
    || c == b':'

unfoldable pub is_plain : ℕ → Bool
is_plain c = not (is_whitespace c) && not (is_special c) && is_valid_byte c

abbrev pub ArePlain : Bytes → Type 0
ArePlain = All (λ c. is_plain c ≡ true)

pub record IsName (n : Bytes) : Type 0 where
  pub not_empty : is_empty n ≡ false
  pub plain : ArePlain n

pub ArePlain-valid : (n : Bytes) → ArePlain n → check_valid_xml_chars n ≡ true
unfolding check_valid_xml_chars is_plain
ArePlain-valid [] h = refl
ArePlain-valid (c ∷ n) h = ground (arith, ArePlain-valid n h.1)

abbrev pub naming : Parser → Bytes → Parser
naming p n = record p { state = tag_name_collect; tag_name = n }

abbrev pub attributing : Parser → Bytes → Parser
attributing p n = record p { state = tag_attribute; attrib = n }

abbrev pub closing : Parser → Bytes → Parser
closing p n = record p { state = tag_closing; tag_name = n }

module _ (p : Parser) (n : Bytes) (c : ℕ) (h : is_plain c ≡ true) where
  naming_byte : Runs (naming p n) (c ∷ []) (naming p (n ++ (c ∷ [])))
  unfolding step_in step_name_collect is_plain
  naming_byte = Runs-byte _ c _ (λ cs. ground arith)

  attributing_byte : Runs (attributing p n) (c ∷ []) (attributing p (n ++ (c ∷ [])))
  unfolding step_in step_attribute is_plain
  attributing_byte = Runs-byte _ c _ (λ cs. ground arith)

  closing_byte : Runs (closing p n) (c ∷ []) (closing p (n ++ (c ∷ [])))
  unfolding step_in step_closing is_plain
  closing_byte = Runs-byte _ c _ (λ cs. ground arith)

  first_naming : Runs (record p { state = tag_opening; tag_name = [] }) (c ∷ []) (naming p (c ∷ []))
  unfolding step_in step_tag_opening is_plain
  first_naming = Runs-byte _ c _ (λ cs. ground arith)

  first_attributing :
      Runs (record p { state = tag_name_complete; attrib = [] }) (c ∷ []) (attributing p (c ∷ []))
  unfolding step_in step_name_complete is_plain
  first_attributing = Runs-byte _ c _ (λ cs. ground arith)

  first_closing :
      Runs (record p { state = tag_closing_slash; tag_name = [] }) (c ∷ []) (closing p (c ∷ []))
  unfolding step_in step_closing_slash is_plain
  first_closing = Runs-byte _ c _ (λ cs. ground arith)

-- A loop that takes one byte at a time takes them all.
collects :
    (f : Bytes → Parser)
    → ((n : Bytes) (c : ℕ) → is_plain c ≡ true → Runs (f n) (c ∷ []) (f (n ++ (c ∷ []))))
    → (m n : Bytes) → ArePlain m
    → Runs (f n) m (f (n ++ m))
collects f one [] n h = subst (λ (x : Bytes). Runs (f n) [] (f x)) (sym (append-nil n)) (Runs-nil _)
collects f one (c ∷ m) n h = Runs-append (one n c h.0) (
    subst (λ (x : Bytes). Runs (f (n ++ (c ∷ []))) m (f x)) (append_assoc n (c ∷ []) m)
      (collects f one m (n ++ (c ∷ [])) h.1))

module _ (p : Parser) where
  pub Runs-naming : (m n : Bytes) → ArePlain m → Runs (naming p n) m (naming p (n ++ m))
  Runs-naming = collects (naming p) (naming_byte p)

  pub Runs-attributing :
      (m n : Bytes) → ArePlain m → Runs (attributing p n) m (attributing p (n ++ m))
  Runs-attributing = collects (attributing p) (attributing_byte p)

  pub Runs-closing : (m n : Bytes) → ArePlain m → Runs (closing p n) m (closing p (n ++ m))
  Runs-closing = collects (closing p) (closing_byte p)

  -- The same from the state before the first byte.
  pub Runs-tag_name :
      (n : Bytes) → IsName n → Runs (record p { state = tag_opening; tag_name = [] }) n (naming p n)
  Runs-tag_name [] h = cc h.not_empty
  Runs-tag_name (c ∷ n) h =
      Runs-append (first_naming p [] c h.plain.0) (Runs-naming n (c ∷ []) h.plain.1)

  pub Runs-attribute_name :
      (n : Bytes)
      → IsName n
      → Runs (record p { state = tag_name_complete; attrib = [] }) n (attributing p n)
  Runs-attribute_name [] h = cc h.not_empty
  Runs-attribute_name (c ∷ n) h =
      Runs-append (first_attributing p [] c h.plain.0) (Runs-attributing n (c ∷ []) h.plain.1)

  pub Runs-closing_name :
      (n : Bytes)
      → IsName n
      → Runs (record p { state = tag_closing_slash; tag_name = [] }) n (closing p n)
  Runs-closing_name [] h = cc h.not_empty
  Runs-closing_name (c ∷ n) h =
      Runs-append (first_closing p [] c h.plain.0) (Runs-closing n (c ∷ []) h.plain.1)

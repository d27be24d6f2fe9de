-- ===== src/Parser/Window.antt =====
-- One step of the parser sees of the bytes ahead only what decides it.
use gloox.Base.{
  ℕ, suc, ◌≤◌, ◌≡◌, refl, sym, ap, ◌∙◌, Bool, true, false, ◌||◌, [], ◌∷◌, ◌++◌, arith, ◌==◌,
  if◌then◌else◌, Bytes, codes, length, ==_iff,
}
use gloox.Parser.Buffer.{
  add_attribute-back_buffer, add_cdata-back_buffer, add_tag-back_buffer, close_tag-back_buffer,
}
use gloox.Parser.Build.{add_tag, close_tag}
use gloox.Parser.Decode.{Decoded, decode_valid, decode_invalid, decode_insufficient, decode}
use gloox.Parser.Lookahead.{Settled, decode-append, ScanSettled, forward_scan-append}
use gloox.Parser.Step.{
  Step, next, reject, wait, Scanned, forward_found, forward_not_found, forward_insufficient_size,
  forward_scan, step_in, step_initial, step_inter_tag, step_tag_opening, step_cdata,
  step_name_collect, step_inside, step_opening_slash, step_closing_slash, step_closing,
  step_name_complete, step_attribute, step_attribute_complete, step_attribute_equal, step_value,
  step_almost_complete, after_decode, after_close, after_cdata_scan, after_end_scan, step_colon,
  step_question, step_end, step_attribute_colon, step_value_end,
}
use gloox.Parser.{
  Parser, State, initial, inter_tag, tag_opening, tag_opening_slash, tag_opening_lt, tag_inside,
  tag_name_collect, tag_name_complete, tag_name_almost_complete, tag_attribute,
  tag_attribute_complete, tag_attribute_equal, tag_closing, tag_closing_slash, tag_value_apos,
  tag_attribute_value, tag_preamble, tag_cdata_section, cleanup, is_whitespace,
}

-- Steps that look at one byte only.
abbrev Plain : Bytes → Step → Type 0
Plain b (next q k) = (k ≡ 0) × (q.back_buffer ≡ b)
Plain b (reject q) = q.back_buffer ≡ b
Plain b (wait q) = ⊥

Plain-after_close : (b : Bytes) (r : Parser × Bool) → r.0.back_buffer ≡ b → Plain b (after_close r)
unfolding after_close cleanup
Plain-after_close b (p, true) h = (refl, h)
Plain-after_close b (p, false) h = h

Plain-initial : (p : Parser) (c : ℕ) → Plain p.back_buffer (step_initial p c)
unfolding step_initial cleanup
Plain-initial p c = ground (arith)

Plain-name_collect : (p : Parser) (c : ℕ) → Plain p.back_buffer (step_name_collect p c)
unfolding step_name_collect step_colon cleanup
Plain-name_collect p c = ground (arith, add_tag-back_buffer p)

Plain-opening_slash : (p : Parser) (c : ℕ) → Plain p.back_buffer (step_opening_slash p c)
unfolding step_opening_slash cleanup
Plain-opening_slash p c = ground (
  arith,
  Plain-after_close p.back_buffer (close_tag (add_tag p))
      (close_tag-back_buffer (add_tag p) ∙ add_tag-back_buffer p),
)

Plain-closing_slash : (p : Parser) (c : ℕ) → Plain p.back_buffer (step_closing_slash p c)
unfolding step_closing_slash cleanup
Plain-closing_slash p c = ground (arith)

Plain-closing : (p : Parser) (c : ℕ) → Plain p.back_buffer (step_closing p c)
unfolding step_closing step_colon cleanup
Plain-closing p c =
    ground (arith, Plain-after_close p.back_buffer (close_tag p) (close_tag-back_buffer p))

Plain-name_complete : (p : Parser) (c : ℕ) → Plain p.back_buffer (step_name_complete p c)
unfolding step_name_complete step_question step_end cleanup
Plain-name_complete p c = ground (arith, add_tag-back_buffer (record p { state = tag_inside }))

Plain-attribute : (p : Parser) (c : ℕ) → Plain p.back_buffer (step_attribute p c)
unfolding step_attribute step_attribute_colon cleanup
Plain-attribute p c = ground (arith)

Plain-attribute_complete : (p : Parser) (c : ℕ) → Plain p.back_buffer (step_attribute_complete p c)
unfolding step_attribute_complete cleanup
Plain-attribute_complete p c = ground (arith)

Plain-attribute_equal : (p : Parser) (c : ℕ) → Plain p.back_buffer (step_attribute_equal p c)
unfolding step_attribute_equal cleanup
Plain-attribute_equal p c = ground (arith)

Plain-almost_complete : (p : Parser) (c : ℕ) → Plain p.back_buffer (step_almost_complete p c)
unfolding step_almost_complete step_question step_end cleanup
Plain-almost_complete p c = ground (arith, add_tag-back_buffer (record p { state = tag_inside }))

-- What a parser that waits will start from: some states have cleared the name of the tag.
abbrev kept_name : State → Parser → Bytes
kept_name inter_tag p = []
kept_name tag_inside p = []
kept_name _ p = p.tag_name

abbrev pub waiting : State → Parser → Bytes → Parser
waiting st p text = record p { tag_name = kept_name st p; back_buffer = text }

-- The step `s` on the bytes `cs` ahead, beside the step `t` with more of them.
abbrev pub Sees : State → Parser → ℕ → Bytes → Step → Step → Type 0
Sees st p c cs (next q k) t = (t ≡ next q k) × (k ≤ length cs) × (q.back_buffer ≡ p.back_buffer)
Sees st p c cs (reject q) t = (t ≡ reject q) × (q.back_buffer ≡ p.back_buffer)
Sees st p c cs (wait q) t = q ≡ waiting st p (c ∷ cs)

module _ (st : State) (p : Parser) (c : ℕ) (cs : Bytes) where
  Sees-of_Plain : (s : Step) → Plain p.back_buffer s → Sees st p c cs s s
  Sees-of_Plain (next q k) h = (refl, rw (h.0) (omega arith), h.1)
  Sees-of_Plain (reject q) h = (refl, h)
  Sees-of_Plain (wait q) h = absurd h

  Sees-if :
      (b : Bool) (s s' t t' : Step)
      → (b ≡ true → Sees st p c cs s t)
      → Sees st p c cs s' t'
      → Sees st p c cs (if b then s else s') (if b then t else t')
  Sees-if true s s' t t' h k = h refl
  Sees-if false s s' t t' h k = k

  Sees-after_decode :
      (go : State) (q : Parser) (d d' : Decoded)
      → c ≡ b'&'
      → q ≡ record p { tag_name = kept_name st p }
      → Settled q cs d d'
      → Sees st p c cs (after_decode go q d) (after_decode go q d')
  unfolding after_decode cleanup
  Sees-after_decode go q (decode_valid r n) d' hc hq h =
      (rw (h.0), h.1, h.2 ∙ ap (λ (x : Parser). x.back_buffer) hq)
  Sees-after_decode go q decode_invalid d' hc hq h = (rw h, ap (λ (x : Parser). x.back_buffer) hq)
  Sees-after_decode go q (decode_insufficient r) d' hc hq h =
      h ∙ (λ i. record (hq i) { back_buffer = sym hc i ∷ cs })

  Sees-after_cdata_scan :
      (d d' : Scanned) (ys : Bytes)
      → kept_name st p ≡ p.tag_name
      → ScanSettled d d' 8 (suc (length cs))
      → Sees st p c cs (after_cdata_scan p c cs d) (after_cdata_scan p c (cs ++ ys) d')
  unfolding after_cdata_scan cleanup
  Sees-after_cdata_scan forward_found d' ys e h = (rw (h.0), omega arith, refl)
  Sees-after_cdata_scan forward_not_found d' ys e h = (rw h, refl)
  Sees-after_cdata_scan forward_insufficient_size d' ys e h =
      λ i. record p { tag_name = sym e i; back_buffer = c ∷ cs }

  Sees-after_end_scan :
      (d d' : Scanned) (ys : Bytes)
      → kept_name st p ≡ p.tag_name
      → ScanSettled d d' 3 (suc (length cs))
      → Sees st p c cs (after_end_scan p c cs d) (after_end_scan p c (cs ++ ys) d')
  unfolding after_end_scan
  Sees-after_end_scan forward_found d' ys e h = (rw (h.0), omega arith, refl)
  Sees-after_end_scan forward_not_found d' ys e h = (rw h, omega arith, refl)
  Sees-after_end_scan forward_insufficient_size d' ys e h =
      λ i. record p { tag_name = sym e i; back_buffer = c ∷ cs }

module _ (p : Parser) (c : ℕ) (cs ys : Bytes) where
  decodes :
      (go : State) (q : Parser) (st : State)
      → q ≡ record p { tag_name = kept_name st p }
      → (c == b'&') ≡ true
      → Sees st p c cs (after_decode go q (decode q cs)) (after_decode go q (decode q (cs ++ ys)))
  decodes go q st hq e =
      Sees-after_decode st p c cs go q (decode q cs) (decode q (cs ++ ys)) ((==_iff c b'&').0 e) hq
        (decode-append q cs ys)

  Sees-inter_tag : Sees inter_tag p c cs (step_inter_tag p c cs) (step_inter_tag p c (cs ++ ys))
  unfolding step_inter_tag
  Sees-inter_tag =
      Sees-if inter_tag p c cs (is_whitespace c) _ _ _ _ (λ _. (refl, omega arith, refl))
        (Sees-if inter_tag p c cs (c == b'&') _ _ _ _
          (decodes tag_inside (record p { tag_name = [] }) inter_tag refl)
          (Sees-of_Plain inter_tag p c cs _ (ground arith)))

  Sees-inside : Sees tag_inside p c cs (step_inside p c cs) (step_inside p c (cs ++ ys))
  unfolding step_inside
  Sees-inside =
      Sees-if tag_inside p c cs (c == b'<') _ _ _ _
        (λ _. (refl, omega arith, add_cdata-back_buffer (record p { tag_name = [] })))
        (Sees-if tag_inside p c cs (c == b'&') _ _ _ _
          (decodes tag_inside (record p { tag_name = [] }) tag_inside refl)
          (refl, omega arith, refl))

  Sees-value : Sees tag_attribute_value p c cs (step_value p c cs) (step_value p c (cs ++ ys))
  unfolding step_value step_value_end cleanup
  Sees-value =
      let sees = Sees-if tag_attribute_value p c cs in
      sees (c == b'<') _ _ _ _ (λ _. (refl, refl))
        (sees (c == 0x27) _ _ _ _
          (λ _.
            Sees-of_Plain tag_attribute_value p c cs _
              (ground (arith, add_attribute-back_buffer p)))
          (sees (c == 0x22) _ _ _ _ (λ _. (refl, omega arith, add_attribute-back_buffer p))
            (sees (c == b'&') _ _ _ _ (decodes tag_attribute_value p tag_attribute_value refl)
              (refl, omega arith, refl))))

  Sees-tag_opening :
      Sees tag_opening p c cs (step_tag_opening p c cs) (step_tag_opening p c (cs ++ ys))
  unfolding step_tag_opening cleanup
  Sees-tag_opening =
      let sees = Sees-if tag_opening p c cs in
      let more : ScanSettled (forward_scan (codes "![CDATA[") (c ∷ cs))
          (forward_scan (codes "![CDATA[") (c ∷ (cs ++ ys))) 8 (suc (length cs)) =
        forward_scan-append (codes "![CDATA[") (c ∷ cs) ys in
      sees (is_whitespace c) _ _ _ _ (λ _. (refl, omega arith, refl))
        (sees (c == b'<' || c == b'>' || c == b'&') _ _ _ _ (λ _. (refl, refl))
          (sees (c == b'/') _ _ _ _ (λ _. (refl, omega arith, refl))
            (sees (c == b'?') _ _ _ _ (λ _. (refl, omega arith, refl))
              (sees (c == b'!') _ _ _ _
                (λ _. Sees-after_cdata_scan tag_opening p c cs _ _ ys refl more)
                (refl, omega arith, refl)))))

  Sees-cdata : Sees tag_cdata_section p c cs (step_cdata p c cs) (step_cdata p c (cs ++ ys))
  unfolding step_cdata
  Sees-cdata =
      let more : ScanSettled (forward_scan (codes "]]>") (c ∷ cs))
          (forward_scan (codes "]]>") (c ∷ (cs ++ ys))) 3 (suc (length cs)) =
        forward_scan-append (codes "]]>") (c ∷ cs) ys in
      Sees-if tag_cdata_section p c cs (c == b']') _ _ _ _
        (λ _. Sees-after_end_scan tag_cdata_section p c cs _ _ ys refl more)
        (refl, omega arith, refl)

  plain : (st : State) (s : Step) → Plain p.back_buffer s → Sees st p c cs s s
  plain st = Sees-of_Plain st p c cs

-- A step that does not wait sees no more than it needs: more bytes ahead do not change it.
pub step_in-append :
    (st : State) (p : Parser) (c : ℕ) (cs ys : Bytes)
    → Sees st p c cs (step_in st p c cs) (step_in st p c (cs ++ ys))
unfolding step_in
step_in-append initial p c cs ys = plain p c cs ys initial _ (Plain-initial p c)
step_in-append inter_tag p c cs ys = Sees-inter_tag p c cs ys
step_in-append tag_opening p c cs ys = Sees-tag_opening p c cs ys
step_in-append tag_cdata_section p c cs ys = Sees-cdata p c cs ys
step_in-append tag_name_collect p c cs ys =
    plain p c cs ys tag_name_collect _ (Plain-name_collect p c)
step_in-append tag_inside p c cs ys = Sees-inside p c cs ys
step_in-append tag_opening_slash p c cs ys =
    plain p c cs ys tag_opening_slash _ (Plain-opening_slash p c)
step_in-append tag_closing_slash p c cs ys =
    plain p c cs ys tag_closing_slash _ (Plain-closing_slash p c)
step_in-append tag_closing p c cs ys = plain p c cs ys tag_closing _ (Plain-closing p c)
step_in-append tag_name_complete p c cs ys =
    plain p c cs ys tag_name_complete _ (Plain-name_complete p c)
step_in-append tag_attribute p c cs ys = plain p c cs ys tag_attribute _ (Plain-attribute p c)
step_in-append tag_attribute_complete p c cs ys =
    plain p c cs ys tag_attribute_complete _ (Plain-attribute_complete p c)
step_in-append tag_attribute_equal p c cs ys =
    plain p c cs ys tag_attribute_equal _ (Plain-attribute_equal p c)
step_in-append tag_attribute_value p c cs ys = Sees-value p c cs ys
step_in-append tag_name_almost_complete p c cs ys =
    plain p c cs ys tag_name_almost_complete _ (Plain-almost_complete p c)
step_in-append tag_opening_lt p c cs ys = (refl, omega arith, refl)
step_in-append tag_value_apos p c cs ys = (refl, omega arith, refl)
step_in-append tag_preamble p c cs ys = (refl, omega arith, refl)

-- A parser that waits takes the step again from what it has kept.
pub step_in-waiting :
    (st : State) (p : Parser) (c : ℕ) (cs : Bytes)
    → step_in st (record (waiting st p (c ∷ cs)) { back_buffer = p.back_buffer }) c cs
      ≡ step_in st p c cs
unfolding step_in step_inter_tag step_inside
step_in-waiting inter_tag p c cs = refl
step_in-waiting _ p c cs = refl

-- ===== src/Parser/Errors.antt =====
-- Refused text: what `Parser::feed` returns, and what it leaves behind.
use gloox.Base.{
  ℕ, zero, suc, ◌+◌, ◌<◌, ◌≡◌, refl, sym, subst, Bool, true, false, [], ◌∷◌, ◌++◌, Option, none,
  some, Bytes, length, arith, length-append, if◌then◌else◌,
}
use gloox.Parser.Chunks.{after_step, run_step}
use gloox.Parser.Decode.{Decoded, decode_valid, decode_invalid, decode_insufficient}
use gloox.Parser.Feed.{run, feed}
use gloox.Parser.Step.{
  Step, next, reject, wait, fail, Scanned, forward_found, forward_not_found,
  forward_insufficient_size, step_in, step_initial, step_inter_tag, step_tag_opening, step_cdata,
  after_cdata_scan, after_end_scan, step_colon, step_name_collect, step_inside, after_close,
  step_opening_slash, step_closing_slash, step_closing, step_question, step_end, step_name_complete,
  step_attribute_colon, step_attribute, step_attribute_complete, step_attribute_equal,
  step_value_end, step_value, step_almost_complete, after_decode,
}
use gloox.Parser.{
  Parser, State, initial, inter_tag, tag_opening, tag_opening_slash, tag_inside, tag_name_collect,
  tag_name_complete, tag_name_almost_complete, tag_attribute, tag_attribute_complete,
  tag_attribute_equal, tag_closing, tag_closing_slash, tag_attribute_value, tag_cdata_section,
  cleanup,
}

-- The parser is as a new one where the next document begins: at the start, with no open tag and
-- nothing collected.
pub record IsReset (p : Parser) : Type 0 where
  pub at_start : p.state ≡ initial
  pub no_tag : p.path ≡ []
  pub no_attributes : p.attribs ≡ []
  pub no_text : p.cdata ≡ []
  pub no_name : p.tag_name ≡ []

abbrev Resets : Step → Type 0
Resets (next q k) = Unit {0}
Resets (reject q) = IsReset q
Resets (wait q) = Unit {0}

fail-Resets : (p : Parser) → Resets (fail p)
unfolding cleanup
fail-Resets p = record {
  at_start = refl;
  no_tag = refl;
  no_attributes = refl;
  no_text = refl;
  no_name = refl;
}

Resets-if : (b : Bool) (s t : Step) → Resets s → Resets t → Resets (if b then s else t)
Resets-if true s t hs ht = hs
Resets-if false s t hs ht = ht

Resets-next : (p : Parser) (k : ℕ) → Resets (next p k)
Resets-next p k = Prim.tt

after_decode-Resets : (s : State) (p : Parser) (d : Decoded) → Resets (after_decode s p d)
unfolding after_decode
after_decode-Resets s p (decode_valid q n) = Prim.tt
after_decode-Resets s p decode_invalid = fail-Resets p
after_decode-Resets s p (decode_insufficient q) = Prim.tt

after_cdata_scan-Resets :
    (p : Parser) (c : ℕ) (cs : Bytes) (r : Scanned) → Resets (after_cdata_scan p c cs r)
unfolding after_cdata_scan
after_cdata_scan-Resets p c cs forward_found = Prim.tt
after_cdata_scan-Resets p c cs forward_not_found = fail-Resets p
after_cdata_scan-Resets p c cs forward_insufficient_size = Prim.tt

after_end_scan-Resets :
    (p : Parser) (c : ℕ) (cs : Bytes) (r : Scanned) → Resets (after_end_scan p c cs r)
unfolding after_end_scan
after_end_scan-Resets p c cs forward_found = Prim.tt
after_end_scan-Resets p c cs forward_not_found = Prim.tt
after_end_scan-Resets p c cs forward_insufficient_size = Prim.tt

after_close-Resets : (r : Parser × Bool) → Resets (after_close r)
unfolding after_close
after_close-Resets (p, true) = Prim.tt
after_close-Resets (p, false) = fail-Resets p

ruleset resetting = (
  Resets-if, fail-Resets, Resets-next, after_decode-Resets, after_cdata_scan-Resets,
  after_end_scan-Resets, after_close-Resets,
)

step-Resets : (s : State) (p : Parser) (c : ℕ) (cs : Bytes) → Resets (step_in s p c cs)
unfolding step_in step_initial step_inter_tag step_tag_opening step_cdata step_name_collect
    step_colon step_inside step_opening_slash step_closing_slash step_closing step_question step_end
    step_name_complete step_attribute_colon step_attribute step_attribute_complete
    step_attribute_equal step_value_end step_value step_almost_complete
step-Resets initial p c cs = search resetting depth 12
step-Resets inter_tag p c cs = search resetting depth 12
step-Resets tag_opening p c cs = search resetting depth 12
step-Resets tag_opening_slash p c cs = search resetting depth 12
step-Resets tag_inside p c cs = search resetting depth 12
step-Resets tag_name_collect p c cs = search resetting depth 12
step-Resets tag_name_complete p c cs = search resetting depth 12
step-Resets tag_name_almost_complete p c cs = search resetting depth 12
step-Resets tag_attribute p c cs = search resetting depth 12
step-Resets tag_attribute_complete p c cs = search resetting depth 12
step-Resets tag_attribute_equal p c cs = search resetting depth 12
step-Resets tag_closing p c cs = search resetting depth 12
step-Resets tag_closing_slash p c cs = search resetting depth 12
step-Resets tag_attribute_value p c cs = search resetting depth 12
step-Resets tag_cdata_section p c cs = search resetting depth 12
step-Resets s p c cs = Prim.tt

-- What the result says: a refusal names a byte of the text of length `n` and leaves the parser
-- reset.
abbrev pub Refusal : ℕ → Parser × Option ℕ → Type 0
Refusal n (q, none) = Unit {0}
Refusal n (q, some i) = IsReset q × (i < n)

Refusal-more : {m n : ℕ} (r : Parser × Option ℕ) → m ≡ n → Refusal m r → Refusal n r
Refusal-more r e h = subst (λ (k : ℕ). Refusal k r) e h

after_step-Refusal :
    (s : Step) (i : ℕ) (cs : Bytes)
    → Resets s
    → ((q : Parser) (k : ℕ) → Refusal (i + 1 + length cs) (run q (i + 1) k cs))
    → Refusal (i + suc (length cs)) (after_step s i cs)
after_step-Refusal (next q k) i cs h ih = Refusal-more (run q (i + 1) k cs) (omega arith) (ih q k)
after_step-Refusal (reject q) i cs h ih = (h, omega arith)
after_step-Refusal (wait q) i cs h ih = Prim.tt

run-Refusal : (xs : Bytes) (p : Parser) (i skip : ℕ) → Refusal (i + length xs) (run p i skip xs)
unfolding run
run-Refusal [] p i skip = Prim.tt
run-Refusal (c ∷ cs) p i (suc k) =
    Refusal-more (run p (i + 1) k cs) (omega arith) (run-Refusal cs p (i + 1) k)
run-Refusal (c ∷ cs) p i zero =
    subst (Refusal (i + suc (length cs))) (sym (run_step p i c cs (step_in p.state p c cs) refl)) (
      after_step-Refusal (step_in p.state p c cs) i cs (step-Resets p.state p c cs)
        (λ q k. run-Refusal cs q (i + 1) k))

-- `feed` either returns -1, or it returns the place of a byte, counted over what it had kept back and
-- the text, and the parser is back at its start: in the state `Initial`, with no open tag, no
-- attributes, no text and no name.
pub feed-Refusal :
    (p : Parser) (xs : Bytes) → Refusal (length p.back_buffer + length xs) (feed p xs)
unfolding feed
feed-Refusal p xs =
    Refusal-more (feed p xs) (omega (arith, length-append p.back_buffer xs))
      (run-Refusal (p.back_buffer ++ xs) (record p { back_buffer = [] }) 0 0)

-- ===== src/Parser/RoundTrip/Runs.antt =====
-- Runs over a piece of text with any text behind it, and how they compose.
use gloox.Base.{
  ℕ, ◌+◌, ◌≡◌, ap, ◌∙◌, [], ◌∷◌, ◌++◌, append_assoc, arith, Bytes, length, length-append,
}
use gloox.Parser.Feed.{run}
use gloox.Parser.Step.{next, step_in}
use gloox.Parser.{Parser}

-- From `p` the text `xs` leads to `q`.
pub record Runs (p : Parser) (xs : Bytes) (q : Parser) : Type 0 where
  pub leads : (rest : Bytes) (i : ℕ) → run p i 0 (xs ++ rest) ≡ run q (i + length xs) 0 rest

pub Runs-nil : (p : Parser) → Runs p [] p
Runs-nil p = record { leads = λ rest i. ap (λ (n : ℕ). run p n 0 rest) (omega arith) }

module _ {p q r : Parser} where
  pub Runs-append : {xs ys : Bytes} → Runs p xs q → Runs q ys r → Runs p (xs ++ ys) r
  Runs-append {xs} {ys} h k = record {
    leads = λ rest i.
        ap (run p i 0) (append_assoc xs ys rest)
        ∙ h.leads (ys ++ rest) i
        ∙ k.leads rest (i + length xs)
        ∙ ap (λ (n : ℕ). run r n 0 rest) (omega (arith, length-append xs ys));
  }

skip_over :
    (q : Parser) (xs rest : Bytes) (i : ℕ)
    → run q i (length xs) (xs ++ rest) ≡ run q (i + length xs) 0 rest
unfolding run
skip_over q [] rest i = ap (λ (n : ℕ). run q n 0 rest) (omega arith)
skip_over q (x ∷ xs) rest i =
    skip_over q xs rest (i + 1) ∙ ap (λ (n : ℕ). run q n 0 rest) (omega arith)

-- One byte that takes the bytes `xs` behind it along.
pub Runs-step :
    (p : Parser) (c : ℕ) (xs : Bytes) (q : Parser)
    → ((cs : Bytes) → step_in p.state p c (xs ++ cs) ≡ next q (length xs))
    → Runs p (c ∷ xs) q
unfolding run
Runs-step p c xs q h = record {
  leads = λ rest i.
      rw (h rest, run) (skip_over q xs rest (i + 1) ∙ ap (λ (n : ℕ). run q n 0 rest) (omega arith));
}

-- One byte that the step looks at alone.
pub Runs-byte :
    (p : Parser) (c : ℕ) (q : Parser)
    → ((cs : Bytes) → step_in p.state p c cs ≡ next q 0)
    → Runs p (c ∷ []) q
Runs-byte p c q h = Runs-step p c [] q h

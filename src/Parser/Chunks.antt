-- ===== src/Parser/Chunks.antt =====
-- However a text is cut into pieces, feeding the pieces is feeding the text.
use gloox.Base.{
  ℕ, zero, suc, ◌+◌, ◌-◌, ◌≤◌, ◌≡◌, refl, sym, ap, subst, ◌∙◌, [], ◌∷◌, ◌++◌, append_assoc, Option,
  none, some, arith, Bytes, length, length-append,
}
use gloox.Parser.Feed.{run, feed}
use gloox.Parser.Step.{Step, next, reject, wait, step_in}
use gloox.Parser.Window.{Sees, waiting, step_in-append, step_in-waiting}
use gloox.Parser.{Parser}

-- A result at a place `n` further on.
abbrev pub shift : ℕ → Parser × Option ℕ → Parser × Option ℕ
shift n (p, none) = (p, none)
shift n (p, some i) = (p, some (i + n))

abbrev pub after_step : Step → ℕ → Bytes → Parser × Option ℕ
after_step (next q k) i cs = run q (i + 1) k cs
after_step (reject q) i cs = (q, some i)
after_step (wait q) i cs = (q, none)

pub run_step :
    (p : Parser) (i c : ℕ) (cs : Bytes) (s : Step)
    → step_in p.state p c cs ≡ s
    → run p i 0 (c ∷ cs) ≡ after_step s i cs
unfolding run
run_step p i c cs (next q k) e = rw (e, run)
run_step p i c cs (reject q) e = rw (e, run)
run_step p i c cs (wait q) e = rw (e, run)

run_end : (p : Parser) (i skip : ℕ) → run p i skip [] ≡ (p, none)
unfolding run
run_end p i skip = refl

run_skip : (p : Parser) (i k c : ℕ) (cs : Bytes) → run p i (suc k) (c ∷ cs) ≡ run p (i + 1) k cs
unfolding run
run_skip p i k c cs = refl

shift-shift : (m n : ℕ) (r : Parser × Option ℕ) → shift m (shift n r) ≡ shift (n + m) r
shift-shift m n (p, none) = refl
shift-shift m n (p, some i) = ap (λ (k : ℕ). (p, some k)) (omega arith)

after_step-shift :
    (s : Step) (i : ℕ) (cs : Bytes)
    → ((q : Parser) (j k : ℕ) → run q j k cs ≡ shift j (run q 0 k cs))
    → after_step s i cs ≡ shift i (after_step s 0 cs)
after_step-shift (next q k) i cs ih =
    ih q (i + 1) k
    ∙ sym (shift-shift i 1 (run q 0 k cs) ∙ ap (λ (n : ℕ). shift n (run q 0 k cs)) (omega arith))
    ∙ ap (shift i) (sym (ih q 1 k))
after_step-shift (reject q) i cs ih = ap (λ (n : ℕ). (q, some n)) (omega arith)
after_step-shift (wait q) i cs ih = refl

-- The index only shows in the result.
pub run-shift : (xs : Bytes) (p : Parser) (i skip : ℕ) → run p i skip xs ≡ shift i (run p 0 skip xs)
unfolding run
run-shift [] p i skip = refl
run-shift (c ∷ cs) p i zero =
    run_step p i c cs _ refl
    ∙ after_step-shift (step_in p.state p c cs) i cs (run-shift cs)
    ∙ ap (shift i) (sym (run_step p 0 c cs _ refl))
run-shift (c ∷ cs) p i (suc k) =
    run-shift cs p (i + 1) k
    ∙ sym (shift-shift i 1 (run p 0 k cs) ∙ ap (λ (n : ℕ). shift n (run p 0 k cs)) (omega arith))
    ∙ ap (shift i) (sym (run-shift cs p 1 k))

abbrev pub resumed : Parser → Parser
resumed q = record q { back_buffer = [] }

-- What running over `a ++ b` gives, from what running over `a` gives.
abbrev Continues : Parser → ℕ → ℕ → Bytes → Bytes → Parser × Option ℕ → Type 0
Continues p i skip a b (q, some n) = run p i skip (a ++ b) ≡ (q, some n)
Continues p i skip a b (q, none) =
    (length q.back_buffer ≤ length a)
    × (run p i skip (a ++ b)
        ≡ run (resumed q) (i + length a - length q.back_buffer) 0 (q.back_buffer ++ b))

resumed_eq : (p : Parser) → p.back_buffer ≡ [] → resumed p ≡ p
resumed_eq p e = λ i. record p { back_buffer = sym e i }

module _ (b : Bytes) where
  Continues-next :
      (p : Parser) (i : ℕ) (c : ℕ) (cs : Bytes) (q : Parser) (j k : ℕ) (skip : ℕ)
      → run p i skip ((c ∷ cs) ++ b) ≡ run q (i + 1) k (cs ++ b)
      → (r : Parser × Option ℕ) → Continues q (i + 1) k cs b r
      → Continues p i skip (c ∷ cs) b r
  Continues-next p i c cs q j k skip e (u, some n) h = e ∙ h
  Continues-next p i c cs q j k skip e (u, none) h = (
    omega (arith, h.0),
    e ∙ h.1 ∙ ap (λ (n : ℕ). run (resumed u) n 0 (u.back_buffer ++ b)) (omega arith),
  )

  again :
      (p : Parser) (c : ℕ) (cs : Bytes)
      → p.back_buffer ≡ []
      → step_in p.state (resumed (waiting p.state p (c ∷ cs))) c (cs ++ b)
        ≡ step_in p.state p c (cs ++ b)
  again p c cs e =
      ap
        (λ (text : Bytes).
          step_in p.state (record (waiting p.state p (c ∷ cs)) { back_buffer = text }) c (cs ++ b))
        (sym e)
      ∙ step_in-waiting p.state p c (cs ++ b)

  step-Continues :
      (p : Parser) (i c : ℕ) (cs : Bytes) (s : Step)
      → p.back_buffer ≡ []
      → step_in p.state p c cs ≡ s
      → Sees p.state p c cs s (step_in p.state p c (cs ++ b))
      → ((q : Parser) (j k : ℕ)
          → q.back_buffer ≡ []
          → k ≤ length cs
          → Continues q j k cs b (run q j k cs))
      → Continues p i 0 (c ∷ cs) b (after_step s i cs)
  step-Continues p i c cs (next q k) e es (t, le, kept) ih =
      Continues-next p i c cs q 0 k 0 (run_step p i c (cs ++ b) (next q k) t) (run q (i + 1) k cs)
        (ih q (i + 1) k (kept ∙ e) le)
  step-Continues p i c cs (reject q) e es (t, kept) ih = run_step p i c (cs ++ b) (reject q) t
  step-Continues p i c cs (wait q) e es h ih =
      subst (λ (u : Parser). Continues p i 0 (c ∷ cs) b (u, none)) (sym h)
        (
          omega arith,
          run_step p i c (cs ++ b) _ refl
              ∙ ap (λ (t : Step). after_step t i (cs ++ b)) (sym (again p c cs e))
              ∙ sym (run_step (resumed (waiting p.state p (c ∷ cs))) i c (cs ++ b) _ refl)
              ∙ ap (λ (n : ℕ). run (resumed (waiting p.state p (c ∷ cs))) n 0 (c ∷ (cs ++ b)))
                  (omega arith),
        )

  run-append :
      (a : Bytes) (p : Parser) (i skip : ℕ)
      → p.back_buffer ≡ []
      → skip ≤ length a
      → Continues p i skip a b (run p i skip a)
  run-append [] p i zero e h = subst (Continues p i 0 [] b) (sym (run_end p i 0)) (
    rw e (omega arith),
    ap (λ (q : Parser). run q i 0 b) (sym (resumed_eq p e))
        ∙ rw e (ap (λ (n : ℕ). run (resumed p) n 0 b) (omega arith)),
  )
  run-append [] p i (suc k) e h = elim h [ ]
  run-append (c ∷ cs) p i zero e h = rw (run_step p i c cs (step_in p.state p c cs) refl) (
      step-Continues p i c cs (step_in p.state p c cs) e refl (step_in-append p.state p c cs b)
        (run-append cs))
  run-append (c ∷ cs) p i (suc k) e h =
      subst (Continues p i (suc k) (c ∷ cs) b) (sym (run_skip p i k c cs)) (
        Continues-next p i c cs p 0 k (suc k) (run_skip p i k c (cs ++ b)) (run p (i + 1) k cs)
          (run-append cs p (i + 1) k e (omega arith)))

-- What the result for a first piece `a` becomes when `b` is fed next: a refusal stands, and otherwise
-- a place in `b`, which counts from what is kept back, is moved behind the bytes that are done.
abbrev pub fed_on : Parser → Bytes → Bytes → Parser × Option ℕ → Parser × Option ℕ
fed_on p a b (q, some n) = (q, some n)
fed_on p a b (q, none) = shift (length p.back_buffer + length a - length q.back_buffer) (feed q b)

-- For every parser, in whatever state, and every two texts: feeding `a ++ b` in one call gives the
-- parser and the result of feeding `a` and then, if that was accepted, `b`.
pub feed-append : (p : Parser) (a b : Bytes) → feed p (a ++ b) ≡ fed_on p a b (feed p a)
unfolding feed
feed-append p a b =
    go (run (resumed p) 0 0 (p.back_buffer ++ a))
      (run-append b (p.back_buffer ++ a) (resumed p) 0 0 refl (omega arith))
  where
    go :
        (r : Parser × Option ℕ)
        → Continues (resumed p) 0 0 (p.back_buffer ++ a) b r
        → run (resumed p) 0 0 (p.back_buffer ++ (a ++ b)) ≡ fed_on p a b r
    go (q, some n) h = rw (← append_assoc) h
    go (q, none) h = rw (← append_assoc) (
        h.1
        ∙ run-shift _ _ _ _
        ∙ ap (λ (n : ℕ). shift n (feed q b)) (omega (arith, length-append p.back_buffer a)))

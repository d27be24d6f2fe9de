-- ===== src/Parser/Feed.antt =====
-- `Parser::feed`: the loop over the text. `i` is the index of the next byte, and `skip` counts the
-- bytes that `decode` or `forwardScan` has moved `i` over.
use gloox.Base.{ℕ, zero, suc, ◌+◌, [], ◌∷◌, ◌++◌, Option, none, some, Bytes}
use gloox.Parser.Step.{next, reject, wait, step_in}
use gloox.Parser.{Parser}

-- The parser afterwards, and the result: `none` for -1.
unfoldable pub run : Parser → ℕ → ℕ → Bytes → Parser × Option ℕ
run p i skip [] = (p, none)
run p i zero (c ∷ cs) = elim (step_in p.state p c cs) [
  | next q k ↦ run q (i + 1) k cs
  | reject q ↦ (q, some i)
  | wait q ↦ (q, none)
]
run p i (suc k) (c ∷ cs) = run p (i + 1) k cs

unfoldable pub feed : Parser → Bytes → Parser × Option ℕ
feed p text = run (record p { back_buffer = [] }) 0 0 (p.back_buffer ++ text)

-- ===== src/Parser/Pieces.antt =====
-- The text of a connection as it arrives: `Parser::feed` for one piece after the other.
use gloox.Base.{ℕ, ◌≡◌, sym, ap, ◌∙◌, List, [], ◌∷◌, ◌++◌, append-nil, Bytes, Option, none, some}
use gloox.Parser.Chunks.{feed-append, fed_on, shift}
use gloox.Parser.Feed.{feed}
use gloox.Parser.{Parser}

abbrev pub concat : List Bytes → Bytes
concat [] = []
concat (b ∷ bs) = b ++ concat bs

-- Pieces are fed as long as they are accepted.
unfoldable pub feed_next : Parser × Option ℕ → (Parser → Parser × Option ℕ) → Parser × Option ℕ
feed_next (q, some n) on = (q, some n)
feed_next (q, none) on = on q

unfoldable pub feed_pieces : Parser → Bytes → List Bytes → Parser × Option ℕ
feed_pieces p a [] = feed p a
feed_pieces p a (b ∷ bs) = feed_next (feed p a) (λ q. feed_pieces q b bs)

shift-none : (n : ℕ) (r : Parser × Option ℕ) (q : Parser) → shift n r ≡ (q, none) → r ≡ (q, none)
shift-none n (u, none) q e = e
shift-none n (u, some m) q e = cc

feed_next_lem :
    (p q : Parser) (a rest : Bytes) (on : Parser → Parser × Option ℕ) (r : Parser × Option ℕ)
    → ((u : Parser) → feed u rest ≡ (q, none) → on u ≡ (q, none))
    → fed_on p a rest r ≡ (q, none)
    → feed_next r on ≡ (q, none)
unfolding feed_next
feed_next_lem p q a rest on (u, some n) ih h = cc
feed_next_lem p q a rest on (u, none) ih h = ih u (shift-none _ _ q h)

-- A text that is accepted whole is accepted in any pieces, and leads to the same parser.
pub fed_pieces :
    (p q : Parser) (a : Bytes) (bs : List Bytes)
    → feed p (a ++ concat bs) ≡ (q, none)
    → feed_pieces p a bs ≡ (q, none)
unfolding feed_pieces
fed_pieces p q a [] e = ap (feed p) (sym (append-nil a)) ∙ e
fed_pieces p q a (b ∷ bs) e =
    feed_next_lem p q a (b ++ concat bs) (λ u. feed_pieces u b bs) (feed p a)
      (λ u h. fed_pieces u q b bs h) (sym (feed-append p a (b ++ concat bs)) ∙ e)

-- ===== src/Jid/Escape.antt =====
-- `JID::escapeNode` and `JID::unescapeNode`: ten replacements, one after the other.
use gloox.Base.{
  ℕ, ◌≡◌, refl, ◌∙◌, ap, false, [], ◌∷◌, List, Bytes, codes, ◌==◌, if◌then◌else◌, inl, inr, subst,
  sym, Bool-cases, append-nil, ==_iff,
}
use gloox.Util.Replace.{
  replace_all, replace_all-byte, replace_all-pieces, spread, spread-spread, spread-pointwise,
  spread_self, swap_byte, swap_piece, IsPiece, plain, coded,
}

unfoldable pub escape_node : Bytes → Bytes
escape_node node =
    let a = replace_all node (codes "\\") (codes "\\5c") in
    let b = replace_all a (codes " ") (codes "\\20") in
    let c = replace_all b (codes "\"") (codes "\\22") in
    let d = replace_all c (codes "&") (codes "\\26") in
    let e = replace_all d (codes "'") (codes "\\27") in
    let f = replace_all e (codes "/") (codes "\\2f") in
    let g = replace_all f (codes ":") (codes "\\3a") in
    let h = replace_all g (codes "<") (codes "\\3c") in
    let i = replace_all h (codes ">") (codes "\\3e") in replace_all i (codes "@") (codes "\\40")

unfoldable pub unescape_node : Bytes → Bytes
unescape_node node =
    let a = replace_all node (codes "\\20") (codes " ") in
    let b = replace_all a (codes "\\22") (codes "\"") in
    let c = replace_all b (codes "\\26") (codes "&") in
    let d = replace_all c (codes "\\27") (codes "'") in
    let e = replace_all d (codes "\\2f") (codes "/") in
    let f = replace_all e (codes "\\3a") (codes ":") in
    let g = replace_all f (codes "\\3c") (codes "<") in
    let h = replace_all g (codes "\\3e") (codes ">") in
    let i = replace_all h (codes "\\40") (codes "@") in replace_all i (codes "\\5c") (codes "\\")

-- The escapes of XEP-0106.
abbrev pub node_escapes : List (ℕ × Bytes)
node_escapes =
    (b'\\', codes "\\5c")
    ∷ (b' ', codes "\\20")
    ∷ (0x22, codes "\\22")
    ∷ (b'&', codes "\\26")
    ∷ (0x27, codes "\\27")
    ∷ (b'/', codes "\\2f")
    ∷ (b':', codes "\\3a")
    ∷ (b'<', codes "\\3c")
    ∷ (b'>', codes "\\3e")
    ∷ (b'@', codes "\\40")
    ∷ []

-- The piece of a table that stands for one byte.
abbrev pub piece_of : List (ℕ × Bytes) → ℕ → Bytes
piece_of [] c = c ∷ []
piece_of ((b, piece) ∷ table) c = if c == b then piece else piece_of table c

module _ {ℓ} (P : ℕ → Bytes → Type ℓ) where
  abbrev OfEntries : List (ℕ × Bytes) → Type ℓ
  OfEntries [] = Unit
  OfEntries ((b, piece) ∷ table) = P b piece × OfEntries table

abbrev IsOther : ℕ → List (ℕ × Bytes) → Type 0
IsOther c [] = Unit
IsOther c ((b, piece) ∷ table) = ((c == b) ≡ false) × IsOther c table

-- A byte stands in the table, or it is another one.
piece_cases {ℓ} :
    (P : ℕ → Bytes → Type ℓ) (table : List (ℕ × Bytes)) (c : ℕ)
    → OfEntries P table
    → (IsOther c table → P c (c ∷ []))
    → P c (piece_of table c)
piece_cases P [] c h k = k tt
piece_cases P ((b, piece) ∷ table) c h k = elim (Bool-cases (c == b)) [
  | inl e ↦ rw e (subst (λ (d : ℕ). P d piece) (sym ((==_iff c b).0 e)) h.0)
  | inr e ↦ rw e (piece_cases P table c h.1 (λ o. k (e, o)))
]

-- Several bytes replaced one after the other, and what becomes of one byte.
abbrev replace_bytes : List (ℕ × Bytes) → Bytes → Bytes
replace_bytes [] s = s
replace_bytes ((b, rep) ∷ table) s = replace_bytes table (replace_all s (b ∷ []) rep)

abbrev byte_through : List (ℕ × Bytes) → ℕ → Bytes
byte_through [] c = c ∷ []
byte_through ((b, rep) ∷ table) c = spread (byte_through table) (swap_byte b rep c)

replace_bytes-spread :
    (table : List (ℕ × Bytes)) (s : Bytes) → replace_bytes table s ≡ spread (byte_through table) s
replace_bytes-spread [] s = sym (spread_self s)
replace_bytes-spread ((b, rep) ∷ table) s =
    ap (replace_bytes table) (replace_all-byte s b rep)
    ∙ replace_bytes-spread table (spread (swap_byte b rep) s)
    ∙ spread-spread (byte_through table) (swap_byte b rep) s

byte_through-IsOther :
    (table : List (ℕ × Bytes)) (c : ℕ) → IsOther c table → byte_through table c ≡ c ∷ []
byte_through-IsOther [] c h = refl
byte_through-IsOther ((b, rep) ∷ table) c h =
    rw (h.0) (append-nil (byte_through table c) ∙ byte_through-IsOther table c h.1)

byte_through-piece : (c : ℕ) → byte_through node_escapes c ≡ piece_of node_escapes c
byte_through-piece c =
    piece_cases (λ d piece. byte_through node_escapes d ≡ piece) node_escapes c
      (refl, (refl, (refl, (refl, (refl, (refl, (refl, (refl, (refl, (refl, tt))))))))))
      (byte_through-IsOther node_escapes c)

-- The ten replacements give what the table gives for each byte on its own: no escape is escaped again.
pub escape_node-spread : (s : Bytes) → escape_node s ≡ spread (piece_of node_escapes) s
unfolding escape_node
escape_node-spread s =
    replace_bytes-spread node_escapes s
    ∙ spread-pointwise (byte_through node_escapes) (piece_of node_escapes) s byte_through-piece

-- Several pieces replaced one after the other, and what becomes of one piece.
abbrev Swap : Type 0
Swap = ℕ × ℕ × Bytes

abbrev replace_pieces : List Swap → Bytes → Bytes
replace_pieces [] s = s
replace_pieces ((u, v, rep) ∷ swaps) s =
    replace_pieces swaps (replace_all s (b'\\' ∷ u ∷ v ∷ []) rep)

abbrev piece_through : List Swap → Bytes → Bytes
piece_through [] piece = piece
piece_through ((u, v, rep) ∷ swaps) piece = piece_through swaps (swap_piece u v rep piece)

-- On its way a piece stays one.
abbrev StaysPiece : List Swap → Bytes → Type 0
StaysPiece [] piece = Unit
StaysPiece ((u, v, rep) ∷ swaps) piece = IsPiece piece × StaysPiece swaps (swap_piece u v rep piece)

replace_pieces-spread :
    (swaps : List Swap) (f : ℕ → Bytes) (s : Bytes)
    → ((c : ℕ) → StaysPiece swaps (f c))
    → replace_pieces swaps (spread f s) ≡ spread (λ c. piece_through swaps (f c)) s
replace_pieces-spread [] f s h = refl
replace_pieces-spread ((u, v, rep) ∷ swaps) f s h =
    ap (replace_pieces swaps) (replace_all-pieces u v rep f s (λ c. (h c).0))
    ∙ replace_pieces-spread swaps (λ c. swap_piece u v rep (f c)) s (λ c. (h c).1)

abbrev node_swaps : List Swap
node_swaps =
    (b'2', b'0', b' ' ∷ [])
    ∷ (b'2', b'2', 0x22 ∷ [])
    ∷ (b'2', b'6', b'&' ∷ [])
    ∷ (b'2', b'7', 0x27 ∷ [])
    ∷ (b'2', b'f', b'/' ∷ [])
    ∷ (b'3', b'a', b':' ∷ [])
    ∷ (b'3', b'c', b'<' ∷ [])
    ∷ (b'3', b'e', b'>' ∷ [])
    ∷ (b'4', b'0', b'@' ∷ [])
    ∷ (b'5', b'c', b'\\' ∷ [])
    ∷ []

abbrev Reads : ℕ → Bytes → Type 0
Reads c piece = StaysPiece node_swaps piece × (piece_through node_swaps piece ≡ c ∷ [])

node_piece-Reads : (c : ℕ) → Reads c (piece_of node_escapes c)
node_piece-Reads c =
    piece_cases Reads node_escapes c (search (plain, coded, refl))
      (λ o. let p = plain c o.0 in ((p, (p, (p, (p, (p, (p, (p, (p, (p, (p, tt)))))))))), refl))

-- `unescapeNode` reads back what `escapeNode` wrote, for every text.
pub unescape_node-escape_node : (s : Bytes) → unescape_node (escape_node s) ≡ s
unfolding unescape_node
unescape_node-escape_node s =
    ap (replace_pieces node_swaps) (escape_node-spread s)
    ∙ replace_pieces-spread node_swaps (piece_of node_escapes) s (λ c. (node_piece-Reads c).0)
    ∙ spread-pointwise (λ c. piece_through node_swaps (piece_of node_escapes c)) (λ c. c ∷ []) s
        (λ c. (node_piece-Reads c).1)
    ∙ spread_self s

-- ===== src/Parser/Decode.antt =====
-- `Parser::decode`: character references, from the '&' up to the next ';'.
use gloox.Base.{
  find_byte, ℕ, suc, ◌+◌, ◌-◌, ◌*◌, ◌/◌, ◌%◌, ◌^◌, Bool, true, false, not, ◌&&◌, ◌||◌, [], ◌∷◌,
  ◌++◌, Option, none, some, leb, ltb, ◌==◌, if◌then◌else◌, Bytes, codes, equal, take,
}
use gloox.Parser.{Parser, State, inter_tag, tag_inside, tag_attribute_value}

-- `strtol`: white space, a sign, "0x" before a hexadecimal digit in base 16, then digits.
abbrev pub is_space : ℕ → Bool
is_space c = c == 0x20 || (leb 0x09 c && leb c 0x0d)

abbrev pub digit_value : ℕ → ℕ
digit_value c =
    if leb b'0' c && leb c b'9'
    then c - b'0'
    else if leb b'a' c && leb c b'f'
    then c - b'a' + 10
    else if leb b'A' c && leb c b'F'
    then c - b'A' + 10
    else 16

-- The value of the digits, and what stands behind them.
unfoldable pub digits_from : ℕ → ℕ → Bytes → ℕ × Bytes
digits_from base n [] = (n, [])
digits_from base n (c ∷ cs) =
    let more = digits_from base (n * base + digit_value c) cs in
    if ltb (digit_value c) base then more else (n, c ∷ cs)

abbrev pub starts_digit : ℕ → Bytes → Bool
starts_digit base [] = false
starts_digit base (c ∷ cs) = ltb (digit_value c) base

-- Behind the sign.
unfoldable pub strip_0x : ℕ → Bytes → Bytes
strip_0x base (c ∷ d ∷ cs) =
    if base == 16 && c == b'0' && (d == b'x' || d == b'X') && starts_digit base cs
    then cs
    else c ∷ d ∷ cs
strip_0x base s = s

unfoldable pub strip_space : Bytes → Bytes
strip_space [] = []
strip_space (c ∷ cs) = let more = strip_space cs in if is_space c then more else c ∷ cs

pub record Number : Type 0 where
  pub negative : Bool
  pub magnitude : ℕ
  pub rest : Bytes

unfoldable pub magnitude_of : Bool → ℕ → Bytes → Bytes → Number
magnitude_of negative base whole s =
    if starts_digit base s
    then record {
      negative = negative;
      magnitude = (digits_from base 0 s).0;
      rest = (digits_from base 0 s).1;
    }
    else record { negative = false; magnitude = 0; rest = whole }

unfoldable pub signed : ℕ → Bytes → Bytes → Number
signed base whole [] = magnitude_of false base whole []
signed base whole (c ∷ cs) =
    if c == b'-'
    then magnitude_of true base whole (strip_0x base cs)
    else if c == b'+'
    then magnitude_of false base whole (strip_0x base cs)
    else magnitude_of false base whole (strip_0x base (c ∷ cs))

unfoldable pub strtol : ℕ → Bytes → Number
strtol base s = signed base s (strip_space s)

-- The bytes that stand for the number `val`, or the refusal of it.
unfoldable pub utf8 : ℕ → Option Bytes
utf8 val =
    if val == 0x9 || val == 0xa || val == 0xd || (leb 0x20 val && leb val 0x7f)
    then some (val ∷ [])
    else if leb 0x80 val && leb val 0x7ff
    then some ((192 + val / 2 ^ 6) ∷ (128 + val % 64) ∷ [])
    else if (leb 0x800 val && leb val 0xd7ff) || (leb 0xe000 val && leb val 0xfffd)
    then some ((224 + val / 2 ^ 12) ∷ (128 + val / 2 ^ 6 % 64) ∷ (128 + val % 64) ∷ [])
    else if leb 0x100000 val && ltb val 0x10ffff
    then some (
        (240 + val / 2 ^ 18)
        ∷ (128 + val / 2 ^ 12 % 64)
        ∷ (128 + val / 2 ^ 6 % 64)
        ∷ (128 + val % 64)
        ∷ [])
    else none

-- `*end != ';' || val < 0`: the digits must end at the ';', before which the text here ends.
unfoldable pub accepted : Number → Option Bytes
accepted n = elim n.rest [
  | [] ↦ if n.negative && not (n.magnitude == 0) then none else utf8 n.magnitude
  | c ∷ cs ↦ none
]

-- `case '#'`, on the bytes behind it.
unfoldable pub char_ref : Bytes → Option Bytes
char_ref [] = none
char_ref (d ∷ rest) =
    if d == b'x' || d == b'X' then accepted (strtol 16 rest) else accepted (strtol 10 (d ∷ rest))

-- What stands between '&' and ';', where `diff` is one more than its length.
unfoldable pub entity : ℕ → Bytes → Option Bytes
entity diff [] = none
entity diff (c ∷ body) =
    if c == b'#'
    then char_ref body
    else if c == b'l'
    then if diff == 3 && equal body (codes "t") then some (b'<' ∷ []) else none
    else if c == b'g'
    then if diff == 3 && equal body (codes "t") then some (b'>' ∷ []) else none
    else if c == b'a'
    then if diff == 5 && equal body (codes "pos")
      then some (0x27 ∷ [])
      else if diff == 4 && equal body (codes "mp")
      then some (b'&' ∷ [])
      else none
    else if c == b'q'
    then if diff == 5 && equal body (codes "uot") then some (0x22 ∷ []) else none
    else none

-- The second switch: where the bytes go.
unfoldable pub store : State → Bytes → Parser → Parser
store inter_tag rep p = record p { cdata = p.cdata ++ rep }
store tag_inside rep p = record p { cdata = p.cdata ++ rep }
store tag_attribute_value rep p = record p { value = p.value ++ rep }
store _ rep p = p

-- `DecodeState`, with the distance that `pos` moves.
pub data Decoded : Type 0 where
  decode_valid : Parser → ℕ → Decoded
  decode_invalid : Decoded
  decode_insufficient : Parser → Decoded

-- Where the ';' stands `diff` bytes behind the '&', before the bytes `cs`.
unfoldable pub decode_found : Parser → Bytes → ℕ → Decoded
decode_found p cs diff =
    if ltb diff 3 || ltb 9 diff then decode_invalid else elim (entity diff (take (diff - 1) cs)) [
      | none ↦ decode_invalid
      | some rep ↦ decode_valid (store p.state rep p) diff
    ]

-- At the byte '&', with the bytes `cs` behind it.
unfoldable pub decode : Parser → Bytes → Decoded
decode p cs = elim (find_byte b';' cs) [
  | none ↦ decode_insufficient (record p { back_buffer = b'&' ∷ cs })
  | some n ↦ decode_found p cs (suc n)
]

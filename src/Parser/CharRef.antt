-- ===== src/Parser/CharRef.antt =====
-- The bytes of a character reference against the definition of UTF-8.
use gloox.Base.{
  ℕ, ◌+◌, ◌-◌, ◌*◌, ◌≡◌, ◌<◌, ◌&&◌, not, Bool, [], ◌∷◌, Option, none, some, leb, ltb, if◌then◌else◌,
  Bytes, All, arith,
}
use gloox.Parser.Decode.{utf8}

-- A byte behind the first one: two bits that mark it and six bits of the number.
abbrev is_tail : ℕ → Bool
is_tail c = leb 128 c && ltb c 192

abbrev in_surrogates : ℕ → Bool
in_surrogates n = leb 0xd800 n && leb n 0xdfff

abbrev number2 : ℕ → ℕ → ℕ
number2 a b = (a - 192) * 64 + (b - 128)

abbrev number3 : ℕ → ℕ → ℕ → ℕ
number3 a b c = (a - 224) * 4096 + (b - 128) * 64 + (c - 128)

abbrev number4 : ℕ → ℕ → ℕ → ℕ → ℕ
number4 a b c d = (a - 240) * 262144 + (b - 128) * 4096 + (c - 128) * 64 + (d - 128)

-- The code point of one encoded character, as RFC 3629 has it: by the first byte, with tail bytes
-- behind it, in no more bytes than the number needs, no surrogate and nothing above 10FFFF.
abbrev pub code_point : Bytes → Option ℕ
code_point (a ∷ []) = if ltb a 128 then some a else none
code_point (a ∷ b ∷ []) =
    if leb 192 a && ltb a 224 && is_tail b && leb 0x80 (number2 a b)
    then some (number2 a b)
    else none
code_point (a ∷ b ∷ c ∷ []) =
    if leb 224 a
      && ltb a 240
      && is_tail b
      && is_tail c
      && leb 0x800 (number3 a b c)
      && not (in_surrogates (number3 a b c))
    then some (number3 a b c)
    else none
code_point (a ∷ b ∷ c ∷ d ∷ []) =
    if leb 240 a
      && ltb a 248
      && is_tail b
      && is_tail c
      && is_tail d
      && leb 0x10000 (number4 a b c d)
      && leb (number4 a b c d) 0x10ffff
    then some (number4 a b c d)
    else none
code_point _ = none

utf8-bytes : (n : ℕ) (bs : Bytes) → utf8 n ≡ some bs → All (λ c. c < 256) bs
unfolding utf8
utf8-bytes n bs e = ground arith

-- The bytes that are stored for an accepted number are bytes and a well-formed UTF-8 encoding of it, in
-- no more bytes than it needs: the code point that they encode is that number, which is no surrogate and
-- not above 10FFFF.
pub code_point-utf8 :
    (n : ℕ) (bs : Bytes) → utf8 n ≡ some bs → (code_point bs ≡ some n) × All (λ c. c < 256) bs
unfolding utf8
code_point-utf8 n bs e = (ground arith, utf8-bytes n bs e)

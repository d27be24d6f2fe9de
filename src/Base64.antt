-- ===== src/Base64.antt =====
-- src/base64.cpp. A `char` is the number below 256 with its bits: shifts are products and quotients by
-- powers of two, masks of the low bits are remainders, and `|` of bits that are apart is a sum.
pub mod RoundTrip
pub mod Tests
use gloox.Base.{
  ℕ, ◌+◌, ◌-◌, ◌*◌, ◌/◌, ◌%◌, Bool, ◌||◌, List, [], ◌∷◌, if◌then◌else◌, Bytes, codes, get_or, ltb,
  ◌==◌,
}

abbrev pub alphabet64 : Bytes
alphabet64 = codes "ABCDEFGHIJKLMNOPQRSTUVWXYZabcdefghijklmnopqrstuvwxyz0123456789+/"

-- `pad` and `np`: all bits of `np` are set.
abbrev pub pad : ℕ
pad = b'='

abbrev pub np : ℕ
np = 255

abbrev pub table64vals : List ℕ
table64vals =
    62 ∷ np ∷ np ∷ np ∷ 63 ∷ 52 ∷ 53 ∷ 54 ∷ 55 ∷ 56 ∷ 57 ∷ 58 ∷ 59 ∷ 60 ∷ 61 ∷ np ∷ np ∷ np ∷ np
    ∷ np ∷ np ∷ np ∷ 0 ∷ 1 ∷ 2 ∷ 3 ∷ 4 ∷ 5 ∷ 6 ∷ 7 ∷ 8 ∷ 9 ∷ 10 ∷ 11 ∷ 12 ∷ 13 ∷ 14 ∷ 15 ∷ 16 ∷ 17
    ∷ 18 ∷ 19 ∷ 20 ∷ 21 ∷ 22 ∷ 23 ∷ 24 ∷ 25 ∷ np ∷ np ∷ np ∷ np ∷ np ∷ np ∷ 26 ∷ 27 ∷ 28 ∷ 29 ∷ 30
    ∷ 31 ∷ 32 ∷ 33 ∷ 34 ∷ 35 ∷ 36 ∷ 37 ∷ 38 ∷ 39 ∷ 40 ∷ 41 ∷ 42 ∷ 43 ∷ 44 ∷ 45 ∷ 46 ∷ 47 ∷ 48 ∷ 49
    ∷ 50 ∷ 51 ∷ []

unfoldable pub table64 : ℕ → ℕ
table64 c = if ltb c 43 || ltb 122 c then np else get_or table64vals (c - 43) np

-- `alphabet64[c]` for `c` below 64.
unfoldable pub letter : ℕ → ℕ
letter c = get_or alphabet64 c 0

-- One round of the loop takes three bytes, or what is left of them.
unfoldable pub encode64 : Bytes → Bytes
unfolding letter
encode64 [] = []
encode64 (a ∷ []) = letter (a / 4 % 64) ∷ letter (a * 16 % 64) ∷ pad ∷ pad ∷ []
encode64 (a ∷ b ∷ []) =
    letter (a / 4 % 64) ∷ letter (a * 16 % 64 + b / 16 % 16) ∷ letter (b * 4 % 64) ∷ pad ∷ []
encode64 (a ∷ b ∷ c ∷ rest) =
    letter (a / 4 % 64)
    ∷ letter (a * 16 % 64 + b / 16 % 16)
    ∷ letter (b * 4 % 64 + c / 64 % 4)
    ∷ letter (c % 64)
    ∷ encode64 rest

-- The three bytes of four values; the last `|` joins bits that are apart, or all bits.
abbrev pub first_byte : ℕ → ℕ → ℕ
first_byte c d = c * 4 % 256 + d / 16 % 4

abbrev pub second_byte : ℕ → ℕ → ℕ
second_byte d c = d * 16 % 256 + c / 4 % 16

abbrev pub third_byte : ℕ → ℕ → ℕ
third_byte c d = if d == np then np else c * 64 % 256 + d

-- One round takes four letters, or what is left of them; behind the last one stands the NUL of the
-- string. A `pad` ends the loop.
unfoldable pub decode64 : Bytes → Bytes
unfolding table64
decode64 [] = []
decode64 (x ∷ []) = first_byte (table64 x) (table64 0) ∷ []
decode64 (x ∷ y ∷ []) = first_byte (table64 x) (table64 y) ∷ []
decode64 (x ∷ y ∷ z ∷ []) =
    first_byte (table64 x) (table64 y)
    ∷ (if z == pad then [] else second_byte (table64 y) (table64 z) ∷ [])
decode64 (x ∷ y ∷ z ∷ w ∷ rest) =
    let more = decode64 rest in
    first_byte (table64 x) (table64 y)
    ∷ (if z == pad
        then []
        else second_byte (table64 y) (table64 z)
          ∷ (if w == pad then [] else third_byte (table64 z) (table64 w) ∷ more))

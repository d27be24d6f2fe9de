-- ===== src/Sha/Fips.antt =====
-- The compression of one block as FIPS 180-1 describes it, in sections 3 to 7: by the number `t` of the
-- word and the round.
use Prim.Native.Nat.{bit_and, bit_or, bit_xor}
use gloox.Base.{
  ℕ, zero, suc, ◌+◌, ◌-◌, ◌*◌, ◌/◌, ◌%◌, ◌^◌, List, [], ◌∷◌, ◌++◌, if◌then◌else◌, Bytes, length,
  get_or, ltb,
}
use gloox.Sha.{Hash}

-- The circular left shift of a word, `S^n(X)`.
unfoldable pub rotate_left : ℕ → ℕ → ℕ
rotate_left n x = bit_or ((x * 2 ^ n) % 2 ^ 32) (x / 2 ^ (32 - n))

-- The word `t` of a block: four bytes, the first one the highest.
unfoldable pub word_of : Bytes → ℕ → ℕ
word_of block t =
    bit_or
      (bit_or (bit_or (get_or block (4 * t) 0 * 2 ^ 24) (get_or block (4 * t + 1) 0 * 2 ^ 16))
        (get_or block (4 * t + 2) 0 * 2 ^ 8))
      (get_or block (4 * t + 3) 0)

-- `n` words of a block from `t` on.
unfoldable pub words_from : Bytes → ℕ → ℕ → List ℕ
unfolding word_of
words_from block t zero = []
words_from block t (suc n) = word_of block t ∷ words_from block (suc t) n

-- `W(t)`, where `ws` holds the words before it.
unfoldable pub next_word : List ℕ → ℕ
unfolding rotate_left
next_word ws =
    let t = length ws in
    rotate_left 1 (
      bit_xor (bit_xor (bit_xor (get_or ws (t - 3) 0) (get_or ws (t - 8) 0)) (get_or ws (t - 14) 0))
        (get_or ws (t - 16) 0))

unfoldable pub more_words : ℕ → List ℕ → List ℕ
unfolding next_word
more_words zero ws = ws
more_words (suc n) ws = more_words n (ws ++ next_word ws ∷ [])

-- `W(0)` to `W(79)`.
unfoldable pub all_words : Bytes → List ℕ
unfolding words_from more_words
all_words block = more_words 64 (words_from block 0 16)

-- `f(t; B, C, D)`.
abbrev ch : ℕ → ℕ → ℕ → ℕ
ch b c d = bit_or (bit_and b c) (bit_and (bit_xor b 0xFFFFFFFF) d)

abbrev par : ℕ → ℕ → ℕ → ℕ
par b c d = bit_xor (bit_xor b c) d

abbrev maj : ℕ → ℕ → ℕ → ℕ
maj b c d = bit_or (bit_or (bit_and b c) (bit_and b d)) (bit_and c d)

abbrev pub function_at : ℕ → ℕ → ℕ → ℕ → ℕ
function_at t = if ltb t 20 then ch else if ltb t 40 then par else if ltb t 60 then maj else par

-- `K(t)`.
abbrev pub constant_at : ℕ → ℕ
constant_at t =
    if ltb t 20
    then 0x5A827999
    else if ltb t 40
    then 0x6ED9EBA1
    else if ltb t 60
    then 0x8F1BBCDC
    else 0xCA62C1D6

-- Step d of section 7, for the word `w`.
unfoldable pub fips_round : ℕ → Hash → ℕ → Hash
unfolding rotate_left
fips_round t h w = record {
  a = (rotate_left 5 h.a + function_at t h.b h.c h.d + h.e + w + constant_at t) % 2 ^ 32;
  b = h.a;
  c = rotate_left 30 h.b;
  d = h.c;
  e = h.d;
}

-- The rounds from `t` on, one for each word.
unfoldable pub rounds_from : ℕ → Hash → List ℕ → Hash
unfolding fips_round
rounds_from t h [] = h
rounds_from t h (w ∷ ws) = rounds_from (suc t) (fips_round t h w) ws

-- The hash after a block.
unfoldable pub fips_compress : Hash → Bytes → Hash
unfolding rounds_from all_words
fips_compress h block =
    let r = rounds_from 0 h (all_words block) in
    record {
      a = (h.a + r.a) % 2 ^ 32;
      b = (h.b + r.b) % 2 ^ 32;
      c = (h.c + r.c) % 2 ^ 32;
      d = (h.d + r.d) % 2 ^ 32;
      e = (h.e + r.e) % 2 ^ 32;
    }

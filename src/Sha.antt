-- ===== src/Sha.antt =====
-- Class `SHA` of src/sha.cpp. `message_block` is the filled part of `Message_Block`, so that
-- `Message_Block_Index` is its length: what stands behind it is not read before it is written. The
-- sums are of 32-bit `unsigned`.
pub mod Reference
pub mod Stream
pub mod Digest
pub mod Fips
pub mod Words
pub mod Rounds
pub mod Tests
use Prim.Native.Nat.{bit_and, bit_or, bit_xor}
use gloox.Base.{
  ℕ, zero, suc, ◌+◌, ◌-◌, ◌*◌, ◌/◌, ◌%◌, ◌^◌, Bool, true, false, not, ◌&&◌, ◌||◌, List, [], ◌∷◌,
  ◌++◌, if◌then◌else◌, Bytes, is_empty, length, take, drop, get_or, ◌==◌, ltb, map,
}

-- `H[5]`, and the variables A to E of `process`.
pub record Hash : Type 0 where
  pub a : ℕ
  pub b : ℕ
  pub c : ℕ
  pub d : ℕ
  pub e : ℕ

pub record Sha : Type 0 where
  pub hash : Hash
  pub length_low : ℕ
  pub length_high : ℕ
  pub message_block : Bytes
  pub finished : Bool
  pub corrupted : Bool

abbrev pub initial_hash : Hash
initial_hash = record {
  a = 0x67452301;
  b = 0xEFCDAB89;
  c = 0x98BADCFE;
  d = 0x10325476;
  e = 0xC3D2E1F0;
}

-- `init`, of the constructor and of `reset`.
abbrev pub init : Sha
init = record {
  hash = initial_hash;
  length_low = 0;
  length_high = 0;
  message_block = [];
  finished = false;
  corrupted = false;
}

unfoldable pub shift : ℕ → ℕ → ℕ
shift bits word = bit_or ((word * 2 ^ bits) % 2 ^ 32) (word / 2 ^ (32 - bits))

-- `W[0]` to `W[15]`: four bytes each.
unfoldable pub block_words : Bytes → List ℕ
block_words (w ∷ x ∷ y ∷ z ∷ rest) =
    bit_or (bit_or (bit_or (w * 2 ^ 24) (x * 2 ^ 16)) (y * 2 ^ 8)) z ∷ block_words rest
block_words _ = []

-- The words from `W[16]` on, `n` of them, each from those before it; the last word stands first.
unfoldable pub extend : ℕ → List ℕ → List ℕ
unfolding shift
extend zero ws = ws
extend (suc n) ws = extend n (
    shift 1 (
      bit_xor (bit_xor (bit_xor (get_or ws 2 0) (get_or ws 7 0)) (get_or ws 13 0)) (get_or ws 15 0))
    ∷ ws)

abbrev pub reverse_onto : List ℕ → List ℕ → List ℕ
reverse_onto [] acc = acc
reverse_onto (x ∷ xs) acc = reverse_onto xs (x ∷ acc)

unfoldable pub schedule : Bytes → List ℕ
unfolding block_words extend
schedule block = reverse_onto (extend 64 (reverse_onto (block_words block) [])) []

-- `~b` on 32 bits.
abbrev pub complement : ℕ → ℕ
complement b = bit_xor b 0xFFFFFFFF

abbrev pub choose : ℕ → ℕ → ℕ → ℕ
choose b c d = bit_or (bit_and b c) (bit_and (complement b) d)

abbrev pub parity : ℕ → ℕ → ℕ → ℕ
parity b c d = bit_xor (bit_xor b c) d

abbrev pub majority : ℕ → ℕ → ℕ → ℕ
majority b c d = bit_or (bit_or (bit_and b c) (bit_and b d)) (bit_and c d)

-- The body of the four loops.
unfoldable pub round : (ℕ → ℕ → ℕ → ℕ) → ℕ → Hash → ℕ → Hash
unfolding shift
round f k h w = record {
  a = (shift 5 h.a + f h.b h.c h.d + h.e + w + k) % 2 ^ 32;
  b = h.a;
  c = shift 30 h.b;
  d = h.c;
  e = h.d;
}

unfoldable pub rounds : (ℕ → ℕ → ℕ → ℕ) → ℕ → Hash → List ℕ → Hash
unfolding round
rounds f k h [] = h
rounds f k h (w ∷ ws) = rounds f k (round f k h w) ws

abbrev pub add_hash : Hash → Hash → Hash
add_hash h k = record {
  a = (h.a + k.a) % 2 ^ 32;
  b = (h.b + k.b) % 2 ^ 32;
  c = (h.c + k.c) % 2 ^ 32;
  d = (h.d + k.d) % 2 ^ 32;
  e = (h.e + k.e) % 2 ^ 32;
}

-- What `process` makes of `H` and the block.
unfoldable pub compress : Hash → Bytes → Hash
unfolding schedule rounds
compress h block =
    let ws = schedule block in
    let h1 = rounds choose 0x5A827999 h (take 20 ws) in
    let h2 = rounds parity 0x6ED9EBA1 h1 (take 20 (drop 20 ws)) in
    let h3 = rounds majority 0x8F1BBCDC h2 (take 20 (drop 40 ws)) in
    let h4 = rounds parity 0xCA62C1D6 h3 (take 20 (drop 60 ws)) in add_hash h h4

unfoldable pub process : Sha → Sha
process s = record s { hash = compress s.hash s.message_block; message_block = [] }

-- `if( Message_Block_Index == 64 ) process();`
unfoldable pub process_full : Sha → Sha
process_full s = if length s.message_block == 64 then process s else s

-- The count of bits in two words.
unfoldable pub count_bits : Sha → Sha
count_bits s =
    let low = (s.length_low + 8) % 2 ^ 32 in
    let high = (s.length_high + 1) % 2 ^ 32 in
    if not (low == 0)
    then record s { length_low = low }
    else if high == 0
    then record s { length_low = low; length_high = high; corrupted = true }
    else record s { length_low = low; length_high = high }

-- The body of the loop in `feed`.
unfoldable pub feed_byte : Sha → ℕ → Sha
feed_byte s byte =
    process_full (count_bits (record s { message_block = s.message_block ++ (byte % 256 ∷ []) }))

unfoldable pub feed_loop : Sha → Bytes → Sha
feed_loop s [] = s
feed_loop s (byte ∷ bytes) =
    let rest = feed_loop (feed_byte s byte) bytes in if s.corrupted then s else rest

-- `feed`, of fewer than 2^32 bytes.
unfoldable pub feed : Sha → Bytes → Sha
feed s bytes =
    if is_empty bytes
    then s
    else if s.finished || s.corrupted
    then record s { corrupted = true }
    else feed_loop s bytes

abbrev pub zero_bytes : ℕ → Bytes
zero_bytes zero = []
zero_bytes (suc n) = 0 ∷ zero_bytes n

-- Zeros up to the place `n` of the block.
abbrev pub fill : ℕ → Sha → Sha
fill n s = record s { message_block = s.message_block ++ zero_bytes (n - length s.message_block) }

abbrev pub word_bytes : ℕ → Bytes
word_bytes w = (w / 2 ^ 24) % 256 ∷ (w / 2 ^ 16) % 256 ∷ (w / 2 ^ 8) % 256 ∷ w % 256 ∷ []

abbrev pub with_length : Sha → Sha
with_length s = record s {
  message_block = s.message_block ++ (word_bytes s.length_high ++ word_bytes s.length_low);
}

-- `if( Message_Block_Index > 56 ) { ... process(); }`
unfoldable pub with_room : Sha → Sha
with_room s = if ltb 56 (length s.message_block) then process (fill 64 s) else s

unfoldable pub pad : Sha → Sha
pad s = process (
    with_length (fill 56 (with_room (record s { message_block = s.message_block ++ (0x80 ∷ []) }))))

unfoldable pub finalize : Sha → Sha
finalize s = if s.finished then s else record (pad s) { finished = true }

abbrev pub hash_bytes : Hash → Bytes
hash_bytes h =
    word_bytes h.a ++ (word_bytes h.b ++ (word_bytes h.c ++ (word_bytes h.d ++ word_bytes h.e)))

unfoldable pub binary : Sha → Sha × Bytes
binary s = (finalize s, hash_bytes ((finalize s).hash))

abbrev pub hex_digit : ℕ → ℕ
hex_digit n = if ltb n 10 then b'0' + n else b'a' + (n - 10)

-- `sprintf( ..., "%02x", byte )`.
abbrev pub hex_bytes : Bytes → Bytes
hex_bytes [] = []
hex_bytes (byte ∷ bytes) = hex_digit (byte / 16) ∷ hex_digit (byte % 16) ∷ hex_bytes bytes

unfoldable pub hex : Sha → Sha × Bytes
hex s = if s.corrupted then (s, []) else (finalize s, hex_bytes (hash_bytes ((finalize s).hash)))

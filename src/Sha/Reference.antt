-- ===== src/Sha/Reference.antt =====
-- SHA-1 as FIPS 180 defines it on a whole message: padding, blocks of 64 bytes, and the hash of one
-- block after the other.
use gloox.Base.{
  ℕ, zero, suc, ◌-◌, ◌*◌, ◌/◌, ◌%◌, ◌^◌, ◌∷◌, ◌++◌, if◌then◌else◌, Bytes, length, take, drop, ltb,
}
use gloox.Sha.{Hash, initial_hash, compress, zero_bytes, word_bytes, hash_bytes}

-- How many zeros stand between the byte 0x80 and the length, so that the last block is full.
abbrev pub gap : ℕ → ℕ
gap n = if ltb (n % 64) 56 then 55 - n % 64 else 119 - n % 64

-- The number of bits in eight bytes.
abbrev pub length_bytes : ℕ → Bytes
length_bytes n = word_bytes (n * 8 / 2 ^ 32) ++ word_bytes ((n * 8) % 2 ^ 32)

unfoldable pub padded : Bytes → Bytes
padded message =
    message ++ (0x80 ∷ (zero_bytes (gap (length message)) ++ length_bytes (length message)))

unfoldable pub hash_blocks : ℕ → Hash → Bytes → Hash
hash_blocks zero h bytes = h
hash_blocks (suc n) h bytes = hash_blocks n (compress h (take 64 bytes)) (drop 64 bytes)

-- The digest of a message.
unfoldable pub sha1 : Bytes → Bytes
sha1 message = hash_bytes (hash_blocks (length (padded message) / 64) initial_hash (padded message))

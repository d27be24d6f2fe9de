-- ===== src/Sha/Digest.antt =====
-- The padding of the last block, and the digest.
use gloox.Base.{
  ℕ, zero, suc, ◌+◌, ◌-◌, ◌*◌, ◌/◌, ◌%◌, ◌^◌, ◌≤◌, ◌<◌, ◌≡◌, refl, sym, ap, ap₂, subst, ◌∙◌, Bool,
  true, false, ◌||◌, List, [], ◌∷◌, ◌++◌, append-nil, append_assoc, Bytes, is_empty, length,
  length-append, arith, Bool-cases, inl, inr, All, ltb, lt→ltb, ltb→lt,
}
use gloox.Sha.{
  Hash, Sha, init, initial_hash, compress, process, with_room, feed, zero_bytes, fill, word_bytes,
  with_length, pad, finalize, binary, hex, hash_bytes,
}
use gloox.Sha.Reference.{gap, length_bytes, padded, hash_blocks, sha1}
use gloox.Sha.Stream.{Represents, Holds, hash_blocks-block, init-Represents, feed-Holds}

length-zero_bytes : (n : ℕ) → length (zero_bytes n) ≡ n
length-zero_bytes zero = refl
length-zero_bytes (suc n) = omega (arith, length-zero_bytes n)

zero_add : (n : ℕ) → n ≡ 0 + n
zero_add n = omega arith

suc_add : (m n : ℕ) → suc (m + n) ≡ suc m + n
suc_add m n = omega arith

zero_bytes-append : (m n : ℕ) → zero_bytes m ++ zero_bytes n ≡ zero_bytes (m + n)
zero_bytes-append zero n = ap zero_bytes (zero_add n)
zero_bytes-append (suc m) n = ap (◌∷◌ 0) (zero_bytes-append m n) ∙ ap zero_bytes (suc_add m n)

hash_blocks-last :
    (h : Hash) (block : Bytes) → length block ≡ 64 → hash_blocks 1 h block ≡ compress h block
unfolding hash_blocks
hash_blocks-last h block e =
    subst (λ (x : Bytes). hash_blocks 1 h x ≡ compress h block) (append-nil block)
      (hash_blocks-block 0 h block [] e)

with_room-kept : (s : Sha) → length s.message_block ≤ 56 → with_room s ≡ s
unfolding with_room
with_room-kept s h = ground arith

with_room-processed : (s : Sha) → 56 < length s.message_block → with_room s ≡ process (fill 64 s)
unfolding with_room
with_room-processed s h = rw (lt→ltb 56 (length s.message_block) h) refl

append-marked : (b z l : Bytes) → ((b ++ (0x80 ∷ [])) ++ z) ++ l ≡ b ++ (0x80 ∷ (z ++ l))
append-marked b z l = append_assoc (b ++ (0x80 ∷ [])) z l ∙ append_assoc b (0x80 ∷ []) (z ++ l)

module _ (k : ℕ) (s : Sha) (message : Bytes) (r : Represents k s message) where
  -- The length in the last block is that of the message.
  same_length : word_bytes s.length_high ++ word_bytes s.length_low ≡ length_bytes (length message)
  same_length =
      ap₂ (λ (h l : ℕ). word_bytes h ++ word_bytes l) (omega (arith, r.count, r.low, r.high))
        (omega (arith, r.count, r.low, r.high))

  offset : length message % 64 ≡ length s.message_block
  offset = omega (arith, r.size, r.room)

  tail_of : Bytes
  tail_of = 0x80 ∷ (zero_bytes (gap (length message)) ++ length_bytes (length message))

  length-padded : length (padded message) ≡ length message + (9 + gap (length message))
  unfolding padded
  length-padded = omega (
    arith,
    length-append message
        (0x80 ∷ (zero_bytes (gap (length message)) ++ length_bytes (length message))),
    length-append (zero_bytes (gap (length message))) (length_bytes (length message)),
    length-zero_bytes (gap (length message)),
  )

  marked : Sha
  marked = record s { message_block = s.message_block ++ (0x80 ∷ []) }

  length-marked : length (s.message_block ++ (0x80 ∷ [])) ≡ suc (length s.message_block)
  length-marked = omega (arith, length-append s.message_block (0x80 ∷ []))

  -- The last blocks: those of what is in the object and the tail of the padded message.
  hash-padded :
      (n : ℕ)
      → length message + (9 + gap (length message)) ≡ 64 * (k + n)
      → hash_blocks (length (padded message) / 64) initial_hash (padded message)
        ≡ hash_blocks n s.hash (s.message_block ++ tail_of)
  unfolding padded tail_of
  hash-padded n e =
      r.blocks (length (padded message) / 64) n tail_of (omega (arith, length-padded, e))

  length-rest :
      length (s.message_block ++ tail_of) ≡ length s.message_block + (9 + gap (length message))
  unfolding tail_of
  length-rest = omega (
    arith,
    length-append s.message_block
        (0x80 ∷ (zero_bytes (gap (length message)) ++ length_bytes (length message))),
    length-append (zero_bytes (gap (length message))) (length_bytes (length message)),
    length-zero_bytes (gap (length message)),
  )

  pad-one :
      length s.message_block < 56
      → (pad s).hash ≡ hash_blocks (length (padded message) / 64) initial_hash (padded message)
  unfolding pad process tail_of marked
  pad-one h =
      ap (λ (t : Sha). (process (with_length (fill 56 t))).hash)
        (with_room-kept marked (omega (arith, length-marked, h)))
      ∙ ap (compress s.hash) last
      ∙ sym (
          hash-padded 1 (omega (arith, gap_one, r.size, h, length-marked))
          ∙ hash_blocks-last s.hash (s.message_block ++ tail_of)
              (omega (arith, gap_one, length-rest, length-marked, h)))
    where
      gap_one : gap (length message) ≡ 56 - length (s.message_block ++ (0x80 ∷ []))
      gap_one = ground (arith, offset, length-marked, h)

      last :
          ((s.message_block ++ (0x80 ∷ []))
              ++ zero_bytes (56 - length (s.message_block ++ (0x80 ∷ []))))
            ++ (word_bytes s.length_high ++ word_bytes s.length_low)
          ≡ s.message_block ++ tail_of
      last =
          append-marked s.message_block (zero_bytes (56 - length (s.message_block ++ (0x80 ∷ []))))
            (word_bytes s.length_high ++ word_bytes s.length_low)
          ∙ ap₂ (λ (n : ℕ) (l : Bytes). s.message_block ++ (0x80 ∷ (zero_bytes n ++ l)))
              (sym gap_one) same_length

  pad-two :
      56 ≤ length s.message_block
      → (pad s).hash ≡ hash_blocks (length (padded message) / 64) initial_hash (padded message)
  unfolding pad process tail_of marked
  pad-two h =
      ap (λ (t : Sha). (process (with_length (fill 56 t))).hash)
        (with_room-processed marked (omega (arith, length-marked, h)))
      ∙ sym (
          hash-padded 2 (omega (arith, gap_two, r.size, h, length-marked, r.room))
          ∙ ap (hash_blocks 2 s.hash) both
          ∙ hash_blocks-block 1 s.hash first second length-first
          ∙ hash_blocks-last (compress s.hash first) second refl)
    where
      left : ℕ
      left = 64 - length (s.message_block ++ (0x80 ∷ []))

      first : Bytes
      first = (s.message_block ++ (0x80 ∷ [])) ++ zero_bytes left

      second : Bytes
      second = zero_bytes 56 ++ (word_bytes s.length_high ++ word_bytes s.length_low)

      gap_two : gap (length message) ≡ left + 56
      gap_two = ground (arith, offset, length-marked, h, r.room)

      length-first : length first ≡ 64
      length-first = omega (
        arith,
        length-append (s.message_block ++ (0x80 ∷ [])) (zero_bytes left),
        length-zero_bytes left,
        length-marked,
        r.room,
      )

      both : s.message_block ++ tail_of ≡ first ++ second
      both =
          ap₂ (λ (n : ℕ) (l : Bytes). s.message_block ++ (0x80 ∷ (zero_bytes n ++ l))) gap_two
            (sym same_length)
          ∙ ap
              (λ (z : Bytes).
                s.message_block
                ++ (0x80 ∷ (z ++ (word_bytes s.length_high ++ word_bytes s.length_low))))
              (sym (zero_bytes-append left 56))
          ∙ ap (λ (z : Bytes). s.message_block ++ (0x80 ∷ z))
              (append_assoc (zero_bytes left) (zero_bytes 56)
                (word_bytes s.length_high ++ word_bytes s.length_low))
          ∙ sym (append-marked s.message_block (zero_bytes left) second)

hash-pad :
    (s : Sha) (message : Bytes)
    → Holds s message
    → (pad s).hash ≡ hash_blocks (length (padded message) / 64) initial_hash (padded message)
hash-pad s message (k, r) = elim (Bool-cases (ltb (length s.message_block) 56)) [
  | inl e ↦ pad-one k s message r (ltb→lt _ 56 e)
  | inr e ↦ pad-two k s message r (ground (arith, e))
]

-- The pieces of a message, fed one after the other.
unfoldable pub feed_all : Sha → List Bytes → Sha
feed_all s [] = s
feed_all s (piece ∷ pieces) = feed_all (feed s piece) pieces

abbrev pub concat : List Bytes → Bytes
concat [] = []
concat (piece ∷ pieces) = piece ++ concat pieces

feed_all-Holds :
    (s : Sha) (message : Bytes) (pieces : List Bytes)
    → Holds s message
    → All (All (λ b. b < 256)) pieces
    → 8 * (length message + length (concat pieces)) < 2 ^ 64
    → Holds (feed_all s pieces) (message ++ concat pieces)
unfolding feed_all
feed_all-Holds s message [] h k l = rw (append-nil message) h
feed_all-Holds s message (piece ∷ pieces) h k l =
    subst (λ (m : Bytes). Holds (feed_all (feed s piece) pieces) m)
      (append_assoc message piece (concat pieces))
      (feed_all-Holds (feed s piece) (message ++ piece) pieces
        (feed-Holds s message piece h k.0 (omega (arith, length-append piece (concat pieces), l)))
        k.1 (omega (arith, length-append piece (concat pieces), length-append message piece, l)))

-- However a message of bytes is cut into pieces, a new object that is fed with them has the digest that
-- FIPS 180 defines for the whole message. The message has fewer than 2^64 bits.
pub binary-feed_all :
    (pieces : List Bytes)
    → All (All (λ b. b < 256)) pieces
    → 8 * length (concat pieces) < 2 ^ 64
    → (binary (feed_all init pieces)).1 ≡ sha1 (concat pieces)
unfolding binary finalize sha1
binary-feed_all pieces h l =
    let k = feed_all-Holds init [] pieces (0, init-Represents) h (omega (arith, l)) in
    simp (k.1.unfinished) (ap hash_bytes (hash-pad (feed_all init pieces) (concat pieces) k))

feed-corrupted : (s : Sha) (piece : Bytes) → s.corrupted ≡ true → (feed s piece).corrupted ≡ true
unfolding feed
feed-corrupted s [] h = h
feed-corrupted s (b ∷ piece) h = rw (h, or_true s.finished) refl
  where
    or_true : (x : Bool) → (x || true) ≡ true
    or_true true = refl
    or_true false = refl

feed_all-corrupted :
    (s : Sha) (pieces : List Bytes) → s.corrupted ≡ true → (feed_all s pieces).corrupted ≡ true
unfolding feed_all
feed_all-corrupted s [] h = h
feed_all-corrupted s (piece ∷ pieces) h =
    feed_all-corrupted (feed s piece) pieces (feed-corrupted s piece h)

feed-finalize : (s : Sha) (b : ℕ) (bytes : Bytes) → (feed (finalize s) (b ∷ bytes)).corrupted ≡ true
unfolding feed finalize
feed-finalize s b bytes = elim (Bool-cases s.finished) [ inl f ↦ rw f refl | inr f ↦ rw f refl ]

-- An object that is fed with a text after `finalize` gives no digest in hexadecimal any more, whatever
-- else it is fed with.
pub hex-feed_finalized :
    (s : Sha) (bytes : Bytes) (pieces : List Bytes)
    → is_empty bytes ≡ false
    → (hex (feed_all (feed (finalize s) bytes) pieces)).1 ≡ []
unfolding hex
hex-feed_finalized s [] pieces e = cc
hex-feed_finalized s (b ∷ bytes) pieces e =
    simp (feed_all-corrupted (feed (finalize s) (b ∷ bytes)) pieces (feed-finalize s b bytes))

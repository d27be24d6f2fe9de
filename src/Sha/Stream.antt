-- ===== src/Sha/Stream.antt =====
-- A message that is fed in pieces has the digest of the whole.
use gloox.Base.{
  ℕ, zero, suc, ◌+◌, ◌*◌, ◌%◌, ◌^◌, ◌<◌, ◌≡◌, refl, sym, ap, subst, ◌∙◌, false, List, [], ◌∷◌, ◌++◌,
  append-nil, append_assoc, Bytes, length, length-append, take, drop, arith, Bool-cases, inl, inr,
  All, ◌==◌, ==_iff,
}
use gloox.Sha.{
  Hash, Sha, init, initial_hash, compress, process, process_full, count_bits, feed_byte, feed_loop,
  feed,
}
use gloox.Sha.Reference.{hash_blocks}

-- The object has taken in `message`, of which `k` blocks are processed.
pub record Represents (k : ℕ) (s : Sha) (message : Bytes) : Type 0 where
  pub unfinished : s.finished ≡ false
  pub sound : s.corrupted ≡ false
  pub room : length s.message_block < 64
  pub size : length message ≡ 64 * k + length s.message_block
  pub low : s.length_low < 2 ^ 32
  pub high : s.length_high < 2 ^ 32
  pub count : s.length_low + 2 ^ 32 * s.length_high ≡ 8 * length message
  pub blocks :
      (t n : ℕ) (rest : Bytes)
      → t ≡ k + n
      → hash_blocks t initial_hash (message ++ rest)
        ≡ hash_blocks n s.hash (s.message_block ++ rest)

pub init-Represents : Represents 0 init []
init-Represents = record {
  unfinished = refl;
  sound = refl;
  room = omega arith;
  size = refl;
  low = omega arith;
  high = omega arith;
  count = refl;
  blocks = λ t n rest e. ap (λ (x : ℕ). hash_blocks x initial_hash rest) (omega (arith, e));
}

count_bits-Counts :
    (s : Sha) (n : ℕ)
    → s.corrupted ≡ false
    → s.length_low < 2 ^ 32
    → s.length_high < 2 ^ 32
    → s.length_low + 2 ^ 32 * s.length_high ≡ 8 * n
    → 8 * n + 8 < 2 ^ 64
    → ((count_bits s).corrupted ≡ false)
      × ((count_bits s).length_low < 2 ^ 32)
      × ((count_bits s).length_high < 2 ^ 32)
      × ((count_bits s).length_low + 2 ^ 32 * (count_bits s).length_high ≡ 8 * suc n)
unfolding count_bits
count_bits-Counts s n c l h e b = ground arith

take-append {ℓ} : {A : Type ℓ} (n : ℕ) (xs ys : List A) → length xs ≡ n → take n (xs ++ ys) ≡ xs
take-append zero [] ys e = refl
take-append zero (x ∷ xs) ys e = absurd (omega arith)
take-append (suc n) [] ys e = absurd (omega arith)
take-append (suc n) (x ∷ xs) ys e = ap (◌∷◌ x) (take-append n xs ys (omega arith))

drop-append {ℓ} : {A : Type ℓ} (n : ℕ) (xs ys : List A) → length xs ≡ n → drop n (xs ++ ys) ≡ ys
drop-append zero [] ys e = refl
drop-append zero (x ∷ xs) ys e = absurd (omega arith)
drop-append (suc n) [] ys e = absurd (omega arith)
drop-append (suc n) (x ∷ xs) ys e = drop-append n xs ys (omega arith)

pub hash_blocks-block :
    (n : ℕ) (h : Hash) (block rest : Bytes)
    → length block ≡ 64
    → hash_blocks (suc n) h (block ++ rest) ≡ hash_blocks n (compress h block) rest
unfolding hash_blocks
hash_blocks-block n h block rest e =
    rw (take-append 64 block rest e, drop-append 64 block rest e) refl

small_byte : (b : ℕ) → b < 256 → b % 256 ≡ b
small_byte b h = omega arith

-- The object with one more byte and its count, before a full block is processed.
abbrev appended : Sha → ℕ → Sha
appended s b = count_bits (record s { message_block = s.message_block ++ (b ∷ []) })

count_bits-keeps :
    (s : Sha)
    → ((count_bits s).hash ≡ s.hash)
      × ((count_bits s).message_block ≡ s.message_block)
      × ((count_bits s).finished ≡ s.finished)
unfolding count_bits
count_bits-keeps s = ground arith

module _ (k : ℕ) (s : Sha) (message : Bytes) (b : ℕ) (r : Represents k s message)
    (l : 8 * length message + 8 < 2 ^ 64) where
  grown : (appended s b).message_block ≡ s.message_block ++ (b ∷ [])
  grown = (count_bits-keeps (record s { message_block = s.message_block ++ (b ∷ []) })).1

  same_hash : (appended s b).hash ≡ s.hash
  same_hash = (count_bits-keeps (record s { message_block = s.message_block ++ (b ∷ []) })).0

  counted :
      ((appended s b).corrupted ≡ false)
      × ((appended s b).length_low < 2 ^ 32)
      × ((appended s b).length_high < 2 ^ 32)
      × ((appended s b).length_low + 2 ^ 32 * (appended s b).length_high ≡ 8 * suc (length message))
  counted =
      count_bits-Counts (record s { message_block = s.message_block ++ (b ∷ []) }) (length message)
        r.sound r.low r.high r.count l

  longer : length (message ++ (b ∷ [])) ≡ suc (length message)
  longer = omega (arith, length-append message (b ∷ []))

  more_blocks :
      (t n : ℕ) (rest : Bytes)
      → t ≡ k + n
      → hash_blocks t initial_hash ((message ++ (b ∷ [])) ++ rest)
        ≡ hash_blocks n s.hash ((s.message_block ++ (b ∷ [])) ++ rest)
  more_blocks t n rest e =
      rw (append_assoc message (b ∷ []) rest, append_assoc s.message_block (b ∷ []) rest)
        (r.blocks t n (b ∷ rest) e)

  feed_byte-kept : length s.message_block < 63 → Represents k (appended s b) (message ++ (b ∷ []))
  feed_byte-kept h = record {
    unfinished =
        (count_bits-keeps (record s { message_block = s.message_block ++ (b ∷ []) })).2
        ∙ r.unfinished;
    sound = counted.0;
    room = rw grown (omega (arith, length-append s.message_block (b ∷ [])));
    size = rw grown (omega (arith, longer, length-append s.message_block (b ∷ []), r.size));
    low = counted.1;
    high = counted.2;
    count = counted.3 ∙ ap (λ (n : ℕ). 8 * n) (sym longer);
    blocks = λ t n rest e. rw (grown, same_hash) (more_blocks t n rest e);
  }

  feed_byte-processed :
      length s.message_block ≡ 63
      → Represents (suc k) (process (appended s b)) (message ++ (b ∷ []))
  unfolding process
  feed_byte-processed h = record {
    unfinished =
        (count_bits-keeps (record s { message_block = s.message_block ++ (b ∷ []) })).2
        ∙ r.unfinished;
    sound = counted.0;
    room = omega arith;
    size = omega (arith, longer, r.size);
    low = counted.1;
    high = counted.2;
    count = counted.3 ∙ ap (λ (n : ℕ). 8 * n) (sym longer);
    blocks = λ t n rest e.
        rw (grown, same_hash)
          (more_blocks t (suc n) rest (omega (arith, e))
            ∙ hash_blocks-block n s.hash (s.message_block ++ (b ∷ [])) rest
                (omega (arith, h, length-append s.message_block (b ∷ []))));
  }

-- A state that represents a message, with some number of blocks.
abbrev pub Holds : Sha → Bytes → Type 0
Holds s message = (k : ℕ) × Represents k s message

feed_byte-Holds :
    (s : Sha) (message : Bytes) (b : ℕ)
    → Holds s message
    → b < 256
    → 8 * length message + 8 < 2 ^ 64
    → Holds (feed_byte s b) (message ++ (b ∷ []))
unfolding feed_byte process_full
feed_byte-Holds s message b (k, r) h l =
    rw (small_byte b h) (elim (Bool-cases (length (appended s b).message_block == 64)) [
      | inl e ↦
          rw e
            (suc k, feed_byte-processed k s message b r l (omega (arith, size, (==_iff _ 64).0 e)))
      | inr e ↦ rw e (k, feed_byte-kept k s message b r l (kept e))
    ])
  where
    size : length (appended s b).message_block ≡ suc (length s.message_block)
    size =
        ap length (grown k s message b r l) ∙ omega (arith, length-append s.message_block (b ∷ []))

    kept : (length (appended s b).message_block == 64) ≡ false → length s.message_block < 63
    kept e = ground (arith, r.room, size, e)

feed_loop-Holds :
    (s : Sha) (message bytes : Bytes)
    → Holds s message
    → All (λ b. b < 256) bytes
    → 8 * (length message + length bytes) < 2 ^ 64
    → Holds (feed_loop s bytes) (message ++ bytes)
unfolding feed_loop
feed_loop-Holds s message [] h k l = rw (append-nil message) h
feed_loop-Holds s message (b ∷ bytes) h k l = simp (h.1.sound) (
    subst (λ (m : Bytes). Holds (feed_loop (feed_byte s b) bytes) m)
      (append_assoc message (b ∷ []) bytes)
      (feed_loop-Holds (feed_byte s b) (message ++ (b ∷ [])) bytes
        (feed_byte-Holds s message b h k.0 (omega arith)) k.1
        (omega (arith, length-append message (b ∷ []), l))))

pub feed-Holds :
    (s : Sha) (message bytes : Bytes)
    → Holds s message
    → All (λ b. b < 256) bytes
    → 8 * (length message + length bytes) < 2 ^ 64
    → Holds (feed s bytes) (message ++ bytes)
unfolding feed
feed-Holds s message [] h k l = rw (append-nil message) h
feed-Holds s message (b ∷ bytes) h k l =
    simp (h.1.unfinished, h.1.sound) (feed_loop-Holds s message (b ∷ bytes) h k l)

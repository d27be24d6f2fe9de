-- ===== src/Sha/Words.antt =====
-- The words of a block: the array `W` of `process` holds those of FIPS 180-1.
use Prim.Native.Nat.{bit_or, bit_xor}
use gloox.Base.{
  ℕ, zero, suc, ◌+◌, ◌-◌, ◌*◌, ◌^◌, ◌≤◌, ◌<◌, ◌≡◌, refl, sym, ap, ap₂, ◌∙◌, List, [], ◌∷◌, ◌++◌,
  append-nil, append_assoc, Bytes, length, length-append, get_or, arith,
}
use gloox.Sha.{shift, block_words, extend, reverse_onto, schedule}
use gloox.Sha.Fips.{rotate_left, word_of, words_from, next_word, more_words, all_words}

get_or-append : (pre b : List ℕ) (i : ℕ) → get_or (pre ++ b) (length pre + i) 0 ≡ get_or b i 0
get_or-append [] b i = ap (λ (n : ℕ). get_or b n 0) (omega arith)
get_or-append (x ∷ pre) b i =
    ap (λ (n : ℕ). get_or (x ∷ (pre ++ b)) n 0) (shift_suc (length pre) i) ∙ get_or-append pre b i
  where
    shift_suc : (m i : ℕ) → suc m + i ≡ suc (m + i)
    shift_suc m i = omega arith

byte_at :
    (pre b : Bytes) (k i n : ℕ)
    → length pre ≡ 4 * k
    → n ≡ 4 * k + i
    → get_or (pre ++ b) n 0 ≡ get_or b i 0
byte_at pre b k i n e q =
    ap (λ (m : ℕ). get_or (pre ++ b) m 0) (omega (arith, e, q)) ∙ get_or-append pre b i

word_of-append :
    (pre : Bytes) (k w x y z : ℕ) (b : Bytes)
    → length pre ≡ 4 * k
    → word_of (pre ++ (w ∷ x ∷ y ∷ z ∷ b)) k
      ≡ bit_or (bit_or (bit_or (w * 2 ^ 24) (x * 2 ^ 16)) (y * 2 ^ 8)) z
unfolding word_of
word_of-append pre k w x y z b e =
    let at0 = byte_at pre (w ∷ x ∷ y ∷ z ∷ b) k 0 (4 * k) e (omega arith) in
    let at1 = byte_at pre (w ∷ x ∷ y ∷ z ∷ b) k 1 (4 * k + 1) e refl in
    let at2 = byte_at pre (w ∷ x ∷ y ∷ z ∷ b) k 2 (4 * k + 2) e refl in
    let at3 = byte_at pre (w ∷ x ∷ y ∷ z ∷ b) k 3 (4 * k + 3) e refl in rw (at0, at1, at2, at3) refl

block_words-words_from :
    (pre : Bytes) (k n : ℕ) (b : Bytes)
    → length pre ≡ 4 * k
    → length b ≡ 4 * n
    → block_words b ≡ words_from (pre ++ b) k n
unfolding block_words words_from
block_words-words_from pre k zero [] e f = refl
block_words-words_from pre k (suc n) [] e f = absurd (omega (arith, f))
block_words-words_from pre k n (w ∷ []) e f = absurd (omega (arith, f))
block_words-words_from pre k n (w ∷ x ∷ []) e f = absurd (omega (arith, f))
block_words-words_from pre k n (w ∷ x ∷ y ∷ []) e f = absurd (omega (arith, f))
block_words-words_from pre k zero (w ∷ x ∷ y ∷ z ∷ b) e f = absurd (omega (arith, f))
block_words-words_from pre k (suc n) (w ∷ x ∷ y ∷ z ∷ b) e f =
    ap₂ (λ (v : ℕ) (vs : List ℕ). v ∷ vs) (sym (word_of-append pre k w x y z b e))
      (block_words-words_from (pre ++ (w ∷ x ∷ y ∷ z ∷ [])) (suc k) n b
          (omega (arith, e, length-append pre (w ∷ x ∷ y ∷ z ∷ []))) (omega (arith, f))
        ∙ ap (λ (c : Bytes). words_from c (suc k) n) (append_assoc pre (w ∷ x ∷ y ∷ z ∷ []) b))

reverse_onto-append : (xs acc : List ℕ) → reverse_onto xs acc ≡ reverse_onto xs [] ++ acc
reverse_onto-append [] acc = refl
reverse_onto-append (x ∷ xs) acc =
    reverse_onto-append xs (x ∷ acc)
    ∙ sym (append_assoc (reverse_onto xs []) (x ∷ []) acc)
    ∙ ap (λ (l : List ℕ). l ++ acc) (sym (reverse_onto-append xs (x ∷ [])))

reverse_onto-twice :
    (xs acc bcc : List ℕ) → reverse_onto (reverse_onto xs acc) bcc ≡ reverse_onto acc (xs ++ bcc)
reverse_onto-twice [] acc bcc = refl
reverse_onto-twice (x ∷ xs) acc bcc = reverse_onto-twice xs (x ∷ acc) bcc

pub length-reverse_onto : (xs acc : List ℕ) → length (reverse_onto xs acc) ≡ length xs + length acc
length-reverse_onto [] acc = omega arith
length-reverse_onto (x ∷ xs) acc = omega (arith, length-reverse_onto xs (x ∷ acc))

get_or-behind :
    (xs acc : List ℕ) (n i : ℕ)
    → n ≡ length xs + i
    → get_or (reverse_onto xs acc) n 0 ≡ get_or acc i 0
get_or-behind [] acc n i e = ap (λ (m : ℕ). get_or acc m 0) (omega (arith, e))
get_or-behind (x ∷ xs) acc n i e = get_or-behind xs (x ∷ acc) n (suc i) (omega (arith, e))

-- A reversed list, read from its end.
get_or-reverse_onto :
    (xs acc : List ℕ) (n i : ℕ)
    → n + suc i ≡ length xs
    → get_or (reverse_onto xs acc) n 0 ≡ get_or xs i 0
get_or-reverse_onto [] acc n i e = absurd (omega (arith, e))
get_or-reverse_onto (x ∷ xs) acc n zero e = get_or-behind xs (x ∷ acc) n 0 (omega (arith, e))
get_or-reverse_onto (x ∷ xs) acc n (suc i) e =
    get_or-reverse_onto xs (x ∷ acc) n i (omega (arith, e))

next_word-reverse :
    (ws : List ℕ)
    → 16 ≤ length ws
    → next_word (reverse_onto ws [])
      ≡ shift 1 (
          bit_xor
            (bit_xor (bit_xor (get_or ws 2 0) (get_or ws 7 0)) (get_or ws 13 0))
            (get_or ws 15 0))
unfolding next_word rotate_left shift
next_word-reverse ws h =
    let len = length-reverse_onto ws [] in
    let at : (k i : ℕ)
        → k ≡ suc i
        → i < 16
        → get_or (reverse_onto ws []) (length (reverse_onto ws []) - k) 0 ≡ get_or ws i 0 =
      λ k i q l.
        get_or-reverse_onto ws [] (length (reverse_onto ws []) - k) i (omega (arith, len, q)) in
    rw
      (
        at 3 2 refl (omega arith),
        at 8 7 refl (omega arith),
        at 14 13 refl (omega arith),
        at 16 15 refl (omega arith),
      )
      refl

reverse_onto-extend :
    (n : ℕ) (ws : List ℕ)
    → 16 ≤ length ws
    → reverse_onto (extend n ws) [] ≡ more_words n (reverse_onto ws [])
unfolding extend more_words
reverse_onto-extend zero ws h = refl
reverse_onto-extend (suc n) ws h =
    reverse_onto-extend n _ (omega arith)
    ∙ ap (more_words n) (
        reverse_onto-append ws (_ ∷ [])
        ∙ ap (λ (w : ℕ). reverse_onto ws [] ++ (w ∷ [])) (sym (next_word-reverse ws h)))

length-block_words : (n : ℕ) (b : Bytes) → length b ≡ 4 * n → length (block_words b) ≡ n
unfolding block_words
length-block_words n [] e = omega (arith, e)
length-block_words n (w ∷ []) e = absurd (omega (arith, e))
length-block_words n (w ∷ x ∷ []) e = absurd (omega (arith, e))
length-block_words n (w ∷ x ∷ y ∷ []) e = absurd (omega (arith, e))
length-block_words zero (w ∷ x ∷ y ∷ z ∷ b) e = absurd (omega (arith, e))
length-block_words (suc n) (w ∷ x ∷ y ∷ z ∷ b) e =
    ap suc (length-block_words n b (omega (arith, e)))

length-extend : (n : ℕ) (ws : List ℕ) → length (extend n ws) ≡ n + length ws
unfolding extend
length-extend zero ws = omega arith
length-extend (suc n) ws = length-extend n _ ∙ omega arith

pub length-schedule : (block : Bytes) → length block ≡ 64 → length (schedule block) ≡ 80
unfolding schedule
length-schedule block e = omega (
  arith,
  length-reverse_onto (extend 64 (reverse_onto (block_words block) [])) [],
  length-extend 64 (reverse_onto (block_words block) []),
  length-reverse_onto (block_words block) [],
  length-block_words 16 block e,
)

-- The array `W` of `process` for a block of 64 bytes.
pub schedule-all_words : (block : Bytes) → length block ≡ 64 → schedule block ≡ all_words block
unfolding schedule all_words
schedule-all_words block e =
    reverse_onto-extend 64 (reverse_onto (block_words block) [])
      (omega (arith, length-reverse_onto (block_words block) [], length-block_words 16 block e))
    ∙ ap (more_words 64) (
        reverse_onto-twice (block_words block) [] []
        ∙ append-nil (block_words block)
        ∙ block_words-words_from [] 0 16 block (omega arith) e)

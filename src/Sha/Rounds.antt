-- ===== src/Sha/Rounds.antt =====
-- The four loops of `process` against the 80 rounds of FIPS 180-1.
use gloox.Base.{
  ℕ, zero, suc, ◌+◌, ◌≤◌, ◌<◌, ◌≡◌, refl, sym, ap, ap₂, ◌∙◌, false, List, [], ◌∷◌, ◌++◌, Bytes,
  length, take, drop, length-take, length-drop, take-append-drop, arith, ltb, lt→ltb,
}
use gloox.Sha.Fips.{function_at, constant_at, rotate_left, fips_round, rounds_from, fips_compress}
use gloox.Sha.Words.{schedule-all_words, length-schedule}
use gloox.Sha.{shift, Hash, choose, parity, majority, round, rounds, add_hash, schedule, compress}

-- A round of the loops is one of FIPS 180-1.
fips_round-round :
    (t : ℕ) (h : Hash) (w : ℕ) → fips_round t h w ≡ round (function_at t) (constant_at t) h w
unfolding fips_round round rotate_left shift
fips_round-round t h w = refl

rounds_from-append :
    (t : ℕ) (h : Hash) (xs ys : List ℕ)
    → rounds_from t h (xs ++ ys) ≡ rounds_from (t + length xs) (rounds_from t h xs) ys
unfolding rounds_from
rounds_from-append t h [] ys = ap (λ (n : ℕ). rounds_from n h ys) (omega arith)
rounds_from-append t h (w ∷ xs) ys =
    rounds_from-append (suc t) (fips_round t h w) xs ys
    ∙ ap (λ (n : ℕ). rounds_from n (rounds_from (suc t) (fips_round t h w) xs) ys) (omega arith)

-- A stretch of rounds with one function and constant.
rounds_from-rounds :
    (f : ℕ → ℕ → ℕ → ℕ) (k low high t : ℕ) (h : Hash) (ws : List ℕ)
    → ((u : ℕ) → low ≤ u → u < high → (function_at u ≡ f) × (constant_at u ≡ k))
    → low ≤ t
    → t + length ws ≤ high
    → rounds_from t h ws ≡ rounds f k h ws
unfolding rounds_from rounds
rounds_from-rounds f k low high t h [] c l e = refl
rounds_from-rounds f k low high t h (w ∷ ws) c l e =
    let at = c t l (omega (arith, e)) in
    ap (λ (r : Hash). rounds_from (suc t) r ws)
      (fips_round-round t h w ∙ ap₂ (λ (g : ℕ → ℕ → ℕ → ℕ) (j : ℕ). round g j h w) at.0 at.1)
    ∙ (rounds_from-rounds f k low high (suc t) (round f k h w) ws c (omega arith)
        (omega (arith, e)))

drop-nil : (n : ℕ) → drop {A = ℕ} n [] ≡ []
drop-nil zero = refl
drop-nil (suc n) = refl

drop-drop : (m n : ℕ) (xs : List ℕ) → drop n (drop m xs) ≡ drop (m + n) xs
drop-drop zero n xs = ap (λ (k : ℕ). drop k xs) (omega arith)
drop-drop (suc m) n [] = drop-nil n ∙ sym (drop-nil (suc m + n))
drop-drop (suc m) n (x ∷ xs) = drop-drop m n xs ∙ ap (λ (k : ℕ). drop k (x ∷ xs)) (suc_add m n)
  where
    suc_add : (m n : ℕ) → suc (m + n) ≡ suc m + n
    suc_add m n = omega arith

length-take_full : (n : ℕ) (xs : List ℕ) → n ≤ length xs → length (take n xs) ≡ n
length-take_full zero xs e = refl
length-take_full (suc n) [] e = absurd (omega (arith, e))
length-take_full (suc n) (x ∷ xs) e = ap suc (length-take_full n xs (omega (arith, e)))

take-all : (n : ℕ) (xs : List ℕ) → length xs ≡ n → take n xs ≡ xs
take-all zero [] e = refl
take-all zero (x ∷ xs) e = absurd (omega (arith, e))
take-all (suc n) [] e = refl
take-all (suc n) (x ∷ xs) e = ap (◌∷◌ x) (take-all n xs (omega (arith, e)))

-- Twenty rounds of the words, then the others.
stretch :
    (f : ℕ → ℕ → ℕ → ℕ) (k low : ℕ) (h : Hash) (ws : List ℕ)
    → ((u : ℕ) → low ≤ u → u < low + 20 → (function_at u ≡ f) × (constant_at u ≡ k))
    → 20 ≤ length ws
    → rounds_from low h ws ≡ rounds_from (low + 20) (rounds f k h (take 20 ws)) (drop 20 ws)
stretch f k low h ws c e =
    ap (rounds_from low h) (sym (take-append-drop 20 ws))
    ∙ rounds_from-append low h (take 20 ws) (drop 20 ws)
    ∙ ap (λ (n : ℕ). rounds_from (low + n) (rounds_from low h (take 20 ws)) (drop 20 ws))
        (length-take_full 20 ws e)
    ∙ ap (λ (r : Hash). rounds_from (low + 20) r (drop 20 ws))
        (rounds_from-rounds f k low (low + 20) low h (take 20 ws) c (omega arith)
          (omega (arith, length-take_full 20 ws e)))

at_20 : (u : ℕ) → 0 ≤ u → u < 0 + 20 → (function_at u ≡ choose) × (constant_at u ≡ 0x5A827999)
at_20 u l h = rw (lt→ltb u 20 (omega arith)) (refl, refl)

not_below : (u n : ℕ) → n ≤ u → ltb u n ≡ false
not_below u n h = ground arith

at_40 : (u : ℕ) → 20 ≤ u → u < 20 + 20 → (function_at u ≡ parity) × (constant_at u ≡ 0x6ED9EBA1)
at_40 u l h = rw (not_below u 20 l, lt→ltb u 40 (omega arith)) (refl, refl)

at_60 : (u : ℕ) → 40 ≤ u → u < 40 + 20 → (function_at u ≡ majority) × (constant_at u ≡ 0x8F1BBCDC)
at_60 u l h =
    rw (not_below u 20 (omega arith), not_below u 40 l, lt→ltb u 60 (omega arith)) (refl, refl)

at_80 : (u : ℕ) → 60 ≤ u → u < 60 + 20 → (function_at u ≡ parity) × (constant_at u ≡ 0xCA62C1D6)
at_80 u l h =
    rw (not_below u 20 (omega arith), not_below u 40 (omega arith), not_below u 60 l) (refl, refl)

rounds_from-four :
    (h : Hash) (ws : List ℕ)
    → length ws ≡ 80
    → rounds_from 0 h ws
      ≡ rounds parity 0xCA62C1D6
          (rounds majority 0x8F1BBCDC
            (rounds parity 0x6ED9EBA1
              (rounds choose 0x5A827999 h (take 20 ws))
              (take 20 (drop 20 ws)))
            (take 20 (drop 40 ws)))
          (take 20 (drop 60 ws))
rounds_from-four h ws e =
    stretch choose 0x5A827999 0 h ws at_20 (omega (arith, e))
    ∙ stretch parity 0x6ED9EBA1 20 _ (drop 20 ws) at_40 (omega (arith, e, length-drop 20 ws))
    ∙ ap (rounds_from 40 _) (drop-drop 20 20 ws)
    ∙ stretch majority 0x8F1BBCDC 40 _ (drop 40 ws) at_60 (omega (arith, e, length-drop 40 ws))
    ∙ ap (rounds_from 60 _) (drop-drop 40 20 ws)
    ∙ ap (rounds_from 60 _) (sym (take-all 20 (drop 60 ws) (omega (arith, e, length-drop 60 ws))))
    ∙ rounds_from-rounds parity 0xCA62C1D6 60 80 60 _ (take 20 (drop 60 ws)) at_80 (omega arith)
        (omega (arith, length-take 20 (drop 60 ws)))

-- What `process` makes of a hash and a block of 64 bytes is what FIPS 180-1 says: the 80 words from the
-- block, a round for each with the function and the constant of its number, and the sums with the hash.
pub compress-fips_compress :
    (h : Hash) (block : Bytes) → length block ≡ 64 → compress h block ≡ fips_compress h block
unfolding compress fips_compress
compress-fips_compress h block e = ap (add_hash h) (
    sym (rounds_from-four h (schedule block) (length-schedule block e))
    ∙ ap (rounds_from 0 h) (schedule-all_words block e))

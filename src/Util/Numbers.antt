-- ===== src/Util/Numbers.antt =====
-- `long2string` and `int2string` of src/util.h, in base ten, and `atoi` that reads them.
use gloox.Base.{
  ℕ, zero, suc, ◌+◌, ◌-◌, ◌*◌, ◌/◌, ◌%◌, ◌≤◌, ◌<◌, ◌≡◌, refl, sym, ap, ◌∙◌, true, false, [], ◌∷◌,
  if◌then◌else◌, Bytes, ◌==◌, ==_iff, Bool-cases, inl, inr, arith,
}
use gloox.Base.Int.{ℤ, pos, negsuc}
use gloox.Connection.{atoi, digits_from, is_digit, negate}

-- The loop that puts a digit in front while the value is above 0; each round makes the value smaller.
unfoldable pub digits_onto : ℕ → ℕ → Bytes → Bytes
digits_onto zero n output = output
digits_onto (suc fuel) n output =
    let more = digits_onto fuel (n / 10) ((n % 10 + b'0') ∷ output) in
    if n == 0 then output else more

-- `long2string( value )`, above the least `long`, whose `-value` no `long` holds.
unfoldable pub long2string : ℤ → Bytes
long2string (pos n) = if n == 0 then b'0' ∷ [] else digits_onto n n []
long2string (negsuc n) = b'-' ∷ digits_onto (suc n) (suc n) []

is_digit_lem : (d : ℕ) → d < 10 → is_digit (d + b'0') ≡ true
is_digit_lem d h = ground arith

-- The digits in front stand for the number.
digits_from-digits_onto :
    (fuel n : ℕ) (output : Bytes)
    → n ≤ fuel
    → digits_from 0 (digits_onto fuel n output) ≡ digits_from n output
unfolding digits_onto
digits_from-digits_onto zero n output h = ap (λ (x : ℕ). digits_from x output) (sym (none_left n h))
  where
    none_left : (n : ℕ) → n ≤ 0 → n ≡ 0
    none_left n h = omega arith
digits_from-digits_onto (suc fuel) n output h = elim (Bool-cases (n == 0)) [
  | inl e ↦ rw (e, (==_iff n 0).0 e) refl
  | inr e ↦ rw e (
      digits_from-digits_onto fuel (n / 10) ((n % 10 + b'0') ∷ output) (ground (arith, h, e))
      ∙ rw (is_digit_lem (n % 10) (omega arith)) (ap (λ (x : ℕ). digits_from x output) (back n)))
]
  where
    back : (n : ℕ) → n / 10 * 10 + ((n % 10 + b'0') - b'0') ≡ n
    back n = omega arith

abbrev StartsDigit : Bytes → Type 0
StartsDigit [] = ⊥
StartsDigit (c ∷ cs) = is_digit c ≡ true

digits_onto-StartsDigit :
    (fuel n : ℕ) (output : Bytes) → StartsDigit output → StartsDigit (digits_onto fuel n output)
unfolding digits_onto
digits_onto-StartsDigit zero n output h = h
digits_onto-StartsDigit (suc fuel) n output h = elim (Bool-cases (n == 0)) [
  | inl e ↦ rw e h
  | inr e ↦ rw e (
      digits_onto-StartsDigit fuel (n / 10) ((n % 10 + b'0') ∷ output)
        (is_digit_lem (n % 10) (omega arith)))
]

suc_not_zero : (n : ℕ) → (suc n == 0) ≡ false
suc_not_zero n = ground arith

digits_onto_starts : (n : ℕ) → StartsDigit (digits_onto (suc n) (suc n) [])
unfolding digits_onto
digits_onto_starts n = rw (suc_not_zero n) (
    digits_onto-StartsDigit n (suc n / 10) ((suc n % 10 + b'0') ∷ [])
      (is_digit_lem (suc n % 10) (omega arith)))

atoi-StartsDigit : (s : Bytes) → StartsDigit s → atoi s ≡ pos (digits_from 0 s)
unfolding atoi
atoi-StartsDigit [] h = elim h [ ]
atoi-StartsDigit (c ∷ cs) h = ground arith

atoi_zero : atoi (b'0' ∷ []) ≡ pos 0
unfolding atoi
atoi_zero = refl

atoi_minus : (s : Bytes) → atoi (b'-' ∷ s) ≡ negate (digits_from 0 s)
unfolding atoi
atoi_minus s = refl

read_back : (z : ℤ) → atoi (long2string z) ≡ z
unfolding long2string
read_back (pos zero) = atoi_zero
read_back (pos (suc n)) = rw (suc_not_zero n) (
    atoi-StartsDigit (digits_onto (suc n) (suc n) []) (digits_onto_starts n)
    ∙ ap pos (digits_from-digits_onto (suc n) (suc n) [] (omega arith)))
read_back (negsuc n) =
    atoi_minus (digits_onto (suc n) (suc n) [])
    ∙ ap negate (digits_from-digits_onto (suc n) (suc n) [] (omega arith))

-- A number whose absolute value an `int` and a `long` of 32 bits hold.
abbrev pub IsInt : ℤ → Type 0
IsInt (pos n) = n < 2147483648
IsInt (negsuc n) = n < 2147483647

-- `atoi` reads back every `int` above the least one that `long2string` writes in base ten.
pub atoi-long2string : (z : ℤ) → IsInt z → atoi (long2string z) ≡ z
atoi-long2string z h = read_back z

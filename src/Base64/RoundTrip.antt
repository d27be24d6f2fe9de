-- ===== src/Base64/RoundTrip.antt =====
-- What `encode64` gives, `decode64` reads back.
use gloox.Base.{
  ℕ, ◌+◌, ◌*◌, ◌/◌, ◌%◌, ◌<◌, ◌≡◌, refl, ap, ap₂, Bool, true, false, not, ◌&&◌, [], ◌∷◌, Bytes,
  ◌==◌, All, all_below, all_below_sound, arith,
}
use gloox.Base64.{letter, table64, encode64, decode64, pad, first_byte, second_byte, third_byte}

is_letter : ℕ → Bool
is_letter n = (table64 (letter n) == n) && not (letter n == pad)

all_letters : all_below 64 is_letter ≡ true
unfolding all_below is_letter letter table64
all_letters = refl

letter_lem : (n : ℕ) → n < 64 → (table64 (letter n) ≡ n) × ((letter n == pad) ≡ false)
unfolding is_letter
letter_lem n h = go (all_below_sound 64 is_letter n all_letters h)
  where
    go : is_letter n ≡ true → (table64 (letter n) ≡ n) × ((letter n == pad) ≡ false)
    go e = ground arith

first_byte_lem : (a b : ℕ) → a < 256 → first_byte (a / 4 % 64) (a * 16 % 64 + b / 16 % 16) ≡ a
first_byte_lem a b h = omega arith

second_byte_lem :
    (a b c : ℕ) → b < 256 → second_byte (a * 16 % 64 + b / 16 % 16) (b * 4 % 64 + c / 64 % 4) ≡ b
second_byte_lem a b c h = omega arith

third_byte_lem : (b c : ℕ) → c < 256 → third_byte (b * 4 % 64 + c / 64 % 4) (c % 64) ≡ c
third_byte_lem b c h = ground arith

last_first : (a : ℕ) → a < 256 → first_byte (a / 4 % 64) (a * 16 % 64) ≡ a
last_first a h = omega arith

last_second : (a b : ℕ) → b < 256 → second_byte (a * 16 % 64 + b / 16 % 16) (b * 4 % 64) ≡ b
last_second a b h = omega arith

value : (n : ℕ) → n < 64 → table64 (letter n) ≡ n
value n h = (letter_lem n h).0

no_pad : (n : ℕ) → n < 64 → (letter n == pad) ≡ false
no_pad n h = (letter_lem n h).1

-- A text of bytes, of any length, is what `decode64` makes of what `encode64` made of it.
pub decode64-encode64 : (s : Bytes) → All (λ c. c < 256) s → decode64 (encode64 s) ≡ s
unfolding decode64 encode64
decode64-encode64 [] h = refl
decode64-encode64 (a ∷ []) h =
    rw (value (a / 4 % 64) (omega arith), value (a * 16 % 64) (omega arith))
      (ap (λ (x : ℕ). x ∷ []) (last_first a h.0))
decode64-encode64 (a ∷ b ∷ []) h =
    rw
      (
        value (a / 4 % 64) (omega arith),
        value (a * 16 % 64 + b / 16 % 16) (omega arith),
        value (b * 4 % 64) (omega arith),
        no_pad (b * 4 % 64) (omega arith),
      )
      (ap₂ (λ (x y : ℕ). x ∷ y ∷ []) (first_byte_lem a b h.0) (last_second a b h.1.0))
decode64-encode64 (a ∷ b ∷ c ∷ rest) h =
    rw
      (
        value (a / 4 % 64) (omega arith),
        value (a * 16 % 64 + b / 16 % 16) (omega arith),
        value (b * 4 % 64 + c / 64 % 4) (omega arith),
        value (c % 64) (omega arith),
        no_pad (b * 4 % 64 + c / 64 % 4) (omega arith),
        no_pad (c % 64) (omega arith),
        decode64-encode64 rest h.1.1.1,
      )
      (ap₂ (λ (x : ℕ) (xs : Bytes). x ∷ xs) (first_byte_lem a b h.0)
        (ap₂ (λ (x y : ℕ). x ∷ y ∷ rest) (second_byte_lem a b c h.1.0)
          (third_byte_lem b c h.1.1.0)))

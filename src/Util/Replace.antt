-- ===== src/Util/Replace.antt =====
-- `util::replaceAll`: every occurrence of a text, from the left, and none inside what was put in.
use gloox.Base.{
  ℕ, zero, suc, ◌-◌, ◌≡◌, refl, sym, ap, ap₂, ◌∙◌, Bool, true, false, ◌&&◌, [], ◌∷◌, ◌++◌, List,
  append_assoc, Bytes, ◌==◌, if◌then◌else◌, is_empty, length, Bool-cases, inl, inr,
}

unfoldable pub starts_with : Bytes → Bytes → Bool
starts_with [] s = true
starts_with (b ∷ find) [] = false
starts_with (b ∷ find) (c ∷ s) = c == b && starts_with find s

-- The loop over `index`; the bytes of an occurrence that has been found are skipped.
unfoldable pub replace_from : Bytes → Bytes → ℕ → Bytes → Bytes
unfolding starts_with
replace_from find rep skip [] = []
replace_from find rep (suc n) (c ∷ s) = replace_from find rep n s
replace_from find rep zero (c ∷ s) =
    let found = rep ++ replace_from find rep (length find - 1) s in
    let other = c ∷ replace_from find rep 0 s in if starts_with find (c ∷ s) then found else other

unfoldable pub replace_all : Bytes → Bytes → Bytes → Bytes
unfolding replace_from
replace_all target find rep = if is_empty find then target else replace_from find rep 0 target

-- A text put together of one piece for each entry.
abbrev pub spread {ℓ} : {A : Type ℓ} → (A → Bytes) → List A → Bytes
spread f [] = []
spread f (a ∷ rest) = f a ++ spread f rest

pub spread-append {ℓ} :
    {A : Type ℓ} (f : A → Bytes) (xs ys : List A) → spread f (xs ++ ys) ≡ spread f xs ++ spread f ys
spread-append f [] ys = refl
spread-append f (a ∷ xs) ys =
    ap (λ (t : Bytes). f a ++ t) (spread-append f xs ys)
    ∙ sym (append_assoc (f a) (spread f xs) (spread f ys))

pub spread-spread {ℓ} :
    {A : Type ℓ} (g : ℕ → Bytes) (f : A → Bytes) (xs : List A)
    → spread g (spread f xs) ≡ spread (λ a. spread g (f a)) xs
spread-spread g f [] = refl
spread-spread g f (a ∷ xs) =
    spread-append g (f a) (spread f xs)
    ∙ ap (λ (t : Bytes). spread g (f a) ++ t) (spread-spread g f xs)

pub spread-pointwise {ℓ} :
    {A : Type ℓ} (f g : A → Bytes) (xs : List A) → ((a : A) → f a ≡ g a) → spread f xs ≡ spread g xs
spread-pointwise f g [] h = refl
spread-pointwise f g (a ∷ xs) h = ap₂ (λ (t u : Bytes). t ++ u) (h a) (spread-pointwise f g xs h)

pub spread_self : (s : Bytes) → spread (λ c. c ∷ []) s ≡ s
spread_self [] = refl
spread_self (c ∷ s) = ap (λ (t : Bytes). c ∷ t) (spread_self s)

-- What stands for one byte when the byte `b` is replaced.
abbrev pub swap_byte : ℕ → Bytes → ℕ → Bytes
swap_byte b rep c = if c == b then rep else c ∷ []

pub replace_all-byte :
    (s : Bytes) (b : ℕ) (rep : Bytes) → replace_all s (b ∷ []) rep ≡ spread (swap_byte b rep) s
unfolding replace_all replace_from starts_with
replace_all-byte [] b rep = refl
replace_all-byte (c ∷ s) b rep = elim (Bool-cases (c == b)) [
  | inl e ↦ rw e (ap (λ (t : Bytes). rep ++ t) (replace_all-byte s b rep))
  | inr e ↦ rw e (ap (λ (t : Bytes). c ∷ t) (replace_all-byte s b rep))
]

-- A piece of a text in which each '\' begins three bytes that hold no other one.
pub data IsPiece : Bytes → Type 0 where
  plain : (c : ℕ) → (c == b'\\') ≡ false → IsPiece (c ∷ [])
  coded : (x y : ℕ) → (x == b'\\') ≡ false → (y == b'\\') ≡ false → IsPiece (b'\\' ∷ x ∷ y ∷ [])

-- What stands for a piece when the three bytes '\', `u` and `v` are replaced.
abbrev pub swap_piece : ℕ → ℕ → Bytes → Bytes → Bytes
swap_piece u v rep (b ∷ x ∷ y ∷ []) = if x == u && y == v then rep else b ∷ x ∷ y ∷ []
swap_piece u v rep piece = piece

module _ (u v : ℕ) (rep : Bytes) where
  abbrev pub find : Bytes
  find = b'\\' ∷ u ∷ v ∷ []

  replace_from-piece :
      {piece : Bytes} (s : Bytes)
      → IsPiece piece
      → replace_from find rep 0 (piece ++ s) ≡ swap_piece u v rep piece ++ replace_from find rep 0 s
  unfolding replace_from starts_with
  replace_from-piece s (plain c e) = rw e refl
  replace_from-piece s (coded x y ex ey) = elim (Bool-cases (x == u)) [
    | inl e ↦ elim (Bool-cases (y == v)) [ inl k ↦ rw (e, k) refl | inr k ↦ rw (e, k, ex, ey) refl ]
    | inr e ↦ rw (e, ex, ey) refl
  ]

  -- A text in such pieces is replaced piece by piece.
  pub replace_all-pieces {ℓ} :
      {A : Type ℓ} (f : A → Bytes) (xs : List A)
      → ((a : A) → IsPiece (f a))
      → replace_all (spread f xs) find rep ≡ spread (λ a. swap_piece u v rep (f a)) xs
  unfolding replace_all
  replace_all-pieces {A} f xs h = go xs
    where
      go :
          (ys : List A)
          → replace_from find rep 0 (spread f ys) ≡ spread (λ a. swap_piece u v rep (f a)) ys
      go [] = unfold replace_from in refl
      go (a ∷ ys) =
          replace_from-piece (spread f ys) (h a)
          ∙ ap (λ (t : Bytes). swap_piece u v rep (f a) ++ t) (go ys)

-- ===== src/Map.antt =====
-- `std::map` with `std::string` keys: a list sorted by its keys.
use gloox.StringMap.{less}
use gloox.Base.{
  ◌≡◌, refl, List, [], ◌∷◌, Option, none, some, arith, if◌then◌else◌, Bytes, equal, equal_iff,
  Bool-cases, inl, inr,
}

abbrev pub Map {ℓ} : Type ℓ → Type ℓ
Map A = List (Bytes × A)

module _ {ℓ} {A : Type ℓ} where
  unfoldable pub find_key : Bytes → Map A → Option A
  find_key k [] = none
  find_key k ((j, v) ∷ m) = if equal j k then some v else find_key k m

  -- `map[k] = v`.
  unfoldable pub put : Bytes → A → Map A → Map A
  put k v [] = (k, v) ∷ []
  put k v ((j, w) ∷ m) =
      let rest = put k v m in
      if equal j k then (j, v) ∷ m else if less k j then (k, v) ∷ (j, w) ∷ m else (j, w) ∷ rest

  -- `map.erase( k )`.
  unfoldable pub erase : Bytes → Map A → Map A
  erase k [] = []
  erase k ((j, v) ∷ m) = let rest = erase k m in if equal j k then rest else (j, v) ∷ rest

  -- `map.insert( make_pair( k, v ) )`, which leaves a key that is there as it is.
  unfoldable pub insert_pair : Bytes → A → Map A → Map A
  insert_pair k v m = elim (find_key k m) [ none ↦ put k v m | some w ↦ m ]

  pub find_key-put :
      (k j : Bytes) (v : A) (m : Map A)
      → find_key j (put k v m) ≡ (if equal k j then some v else find_key j m)
  unfolding find_key put
  find_key-put k j v [] = refl
  find_key-put k j v ((i, w) ∷ m) =
      ground (arith, equal_iff k j, equal_iff i k, equal_iff i j, find_key-put k j v m)

  pub find_key-erase :
      (k j : Bytes) (m : Map A)
      → find_key j (erase k m) ≡ (if equal k j then none else find_key j m)
  unfolding find_key erase
  find_key-erase k j [] = elim (Bool-cases (equal k j)) [ inl e ↦ rw e refl | inr e ↦ rw e refl ]
  find_key-erase k j ((i, w) ∷ m) =
      ground (arith, equal_iff k j, equal_iff i k, equal_iff i j, find_key-erase k j m)

-- ===== src/EventDispatcher/Order.antt =====
-- The handlers of a context are called in the order of their registration.
use gloox.Base.{
  ℕ, ◌≡◌, refl, sym, ap, ap₂, subst, ◌∙◌, true, false, List, [], ◌∷◌, ◌++◌, append-nil, Bytes,
  equal, equal_iff, All, Bool-cases, inl, inr,
}
use gloox.Capabilities.Sorting.{less_between, less_asym}
use gloox.EventDispatcher.{insert_multi, range_of}
use gloox.StringMap.{less}

-- No entry stands behind one with a greater key.
abbrev pub Ordered : List (Bytes × ℕ) → Type 0
Ordered [] = Unit
Ordered ((k, h) ∷ m) = All (λ (e : Bytes × ℕ). less e.0 k ≡ false) m × Ordered m

less_after : (k j i : Bytes) → less k j ≡ true → less i j ≡ false → less k i ≡ true
less_after k j i a b = elim (Bool-cases (less k i)) [
  | inl c ↦ c
  | inr c ↦ let d = less_between k j i a c in absurd (cc)
]

All-less :
    (k j : Bytes) (m : List (Bytes × ℕ))
    → less k j ≡ true
    → All (λ (e : Bytes × ℕ). less e.0 j ≡ false) m
    → All (λ (e : Bytes × ℕ). less k e.0 ≡ true) m
All-less k j [] a h = tt
All-less k j (e ∷ m) a (h, hs) = (less_after k j e.0 a h, All-less k j m a hs)

All-asym :
    (k : Bytes) (m : List (Bytes × ℕ))
    → All (λ (e : Bytes × ℕ). less k e.0 ≡ true) m
    → All (λ (e : Bytes × ℕ). less e.0 k ≡ false) m
All-asym k [] h = tt
All-asym k (e ∷ m) (h, hs) = (less_asym k e.0 h, All-asym k m hs)

not-equal : (k j : Bytes) → less k j ≡ true → equal j k ≡ false
not-equal k j h = elim (Bool-cases (equal j k)) [
  | inl e ↦
      let p = (equal_iff j k).0 e in
      let f : true ≡ false = sym h ∙ ap₂ less (sym p) p ∙ less_asym k j h in absurd (cc)
  | inr e ↦ e
]

range_of-none :
    (k : Bytes) (m : List (Bytes × ℕ))
    → All (λ (e : Bytes × ℕ). less k e.0 ≡ true) m
    → range_of k m ≡ []
unfolding range_of
range_of-none k [] h = refl
range_of-none k ((j, w) ∷ m) (h, hs) = rw (not-equal k j h) (range_of-none k m hs)

pub range_of-append :
    (c : Bytes) (m n : List (Bytes × ℕ)) → range_of c (m ++ n) ≡ range_of c m ++ range_of c n
unfolding range_of
range_of-append c [] n = refl
range_of-append c ((j, w) ∷ m) n = elim (Bool-cases (equal j c)) [
  | inl e ↦ rw e (ap (◌∷◌ w) (range_of-append c m n))
  | inr e ↦ rw e (range_of-append c m n)
]

-- An inserted entry counts as the last of its key.
pub range_of-insert_multi :
    (c k : Bytes) (v : ℕ) (m : List (Bytes × ℕ))
    → Ordered m
    → range_of c (insert_multi k v m) ≡ range_of c m ++ range_of c ((k, v) ∷ [])
unfolding range_of insert_multi
range_of-insert_multi c k v [] o = refl
range_of-insert_multi c k v ((j, w) ∷ m) (o, os) = elim (Bool-cases (less k j)) [
  | inl e ↦ rw e (in_front e)
  | inr e ↦ rw e (elim (Bool-cases (equal j c)) [
    | inl f ↦ rw f (ap (◌∷◌ w) (range_of-insert_multi c k v m os))
    | inr f ↦ rw f (range_of-insert_multi c k v m os)
  ])
]
  where
    none_there : less k j ≡ true → equal k c ≡ true → range_of c ((j, w) ∷ m) ≡ []
    none_there e f =
        subst (λ (i : Bytes). range_of i ((j, w) ∷ m) ≡ []) ((equal_iff k c).0 f)
          (range_of-none k ((j, w) ∷ m) (e, All-less k j m e o))

    in_front :
        less k j ≡ true
        → range_of c ((k, v) ∷ (j, w) ∷ m) ≡ range_of c ((j, w) ∷ m) ++ range_of c ((k, v) ∷ [])
    in_front e = elim (Bool-cases (equal k c)) [
      | inl f ↦ simp (f, none_there e f)
      | inr f ↦ simp f (sym (append-nil (range_of c ((j, w) ∷ m))))
    ]

All-insert_multi :
    (j k : Bytes) (v : ℕ) (m : List (Bytes × ℕ))
    → less k j ≡ false
    → All (λ (e : Bytes × ℕ). less e.0 j ≡ false) m
    → All (λ (e : Bytes × ℕ). less e.0 j ≡ false) (insert_multi k v m)
unfolding insert_multi
All-insert_multi j k v [] h a = (h, tt)
All-insert_multi j k v ((i, w) ∷ m) h (a, more) = elim (Bool-cases (less k i)) [
  | inl e ↦ rw e (h, (a, more))
  | inr e ↦ rw e (a, All-insert_multi j k v m h more)
]

pub insert_multi-Ordered :
    (k : Bytes) (v : ℕ) (m : List (Bytes × ℕ)) → Ordered m → Ordered (insert_multi k v m)
unfolding insert_multi
insert_multi-Ordered k v [] o = (tt, tt)
insert_multi-Ordered k v ((j, w) ∷ m) (o, os) = elim (Bool-cases (less k j)) [
  | inl e ↦ rw e ((less_asym k j e, All-asym k m (All-less k j m e o)), (o, os))
  | inr e ↦ rw e (All-insert_multi j k v m e o, insert_multi-Ordered k v m os)
]

-- ===== src/Capabilities/Sorting.antt =====
-- The order of strings, and that sorting forgets the order of a list.
use mathlib.Core.List.{Perm, Permᴰ}
use mathlib.Core.Logic.{∥∥₁_elim}
use gloox.Base.{
  ◌≡◌, refl, sym, ap, ap₂, ◌∙◌, true, false, List, [], ◌∷◌, Bytes, Bool-cases, inl, inr, arith,
  if◌then◌else◌,
}
use gloox.StringMap.{less}
use gloox.Capabilities.{insert_sorted, sort}

-- A string that is not below `b` but below `a` puts `b` below `a`.
pub less_between : (y a b : Bytes) → less y a ≡ true → less y b ≡ false → less b a ≡ true
unfolding less
less_between [] [] b h k = cc
less_between [] (a ∷ xs) [] h k = refl
less_between [] (a ∷ xs) (b ∷ zs) h k = cc
less_between (y ∷ ys) [] b h k = cc
less_between (y ∷ ys) (a ∷ xs) [] h k = refl
less_between (y ∷ ys) (a ∷ xs) (b ∷ zs) h k = ground (arith, less_between ys xs zs)

pub less_asym : (a b : Bytes) → less a b ≡ true → less b a ≡ false
unfolding less
less_asym [] [] h = cc
less_asym [] (b ∷ zs) h = refl
less_asym (a ∷ xs) [] h = cc
less_asym (a ∷ xs) (b ∷ zs) h = ground (arith, less_asym xs zs)

less_total : (a b : Bytes) → less a b ≡ false → less b a ≡ false → a ≡ b
unfolding less
less_total [] [] h k = refl
less_total [] (b ∷ zs) h k = cc
less_total (a ∷ xs) [] h k = cc
less_total (a ∷ xs) (b ∷ zs) h k = ground (arith, less_total xs zs)

insert_sorted_comm :
    (a b : Bytes) (l : List Bytes)
    → insert_sorted a (insert_sorted b l) ≡ insert_sorted b (insert_sorted a l)
unfolding insert_sorted
insert_sorted_comm a b [] = elim (Bool-cases (less a b)) [
  | inl p ↦ rw (p, less_asym a b p) refl
  | inr p ↦ elim (Bool-cases (less b a)) [
    | inl q ↦ rw (p, q) refl
    | inr q ↦
        rw (p, q)
          (ap₂ (λ (x y : Bytes). x ∷ y ∷ []) (less_total a b p q) (sym (less_total a b p q)))
  ]
]
insert_sorted_comm a b (y ∷ ys) = elim (Bool-cases (less y a)) [
  | inl p ↦ elim (Bool-cases (less y b)) [
    | inl q ↦ simp (p, q) (ap (λ (l : List Bytes). y ∷ l) (insert_sorted_comm a b ys))
    | inr q ↦ simp (p, q, less_between y a b p q)
  ]
  | inr p ↦ elim (Bool-cases (less y b)) [
    | inl q ↦ simp (p, q, less_between y b a q p)
    | inr q ↦ simp (p, q) front
  ]
]
  where
    front :
        (if less b a then b ∷ a ∷ y ∷ ys else a ∷ b ∷ y ∷ ys)
        ≡ (if less a b then a ∷ b ∷ y ∷ ys else b ∷ a ∷ y ∷ ys)
    front = elim (Bool-cases (less a b)) [
      | inl r ↦ simp (r, less_asym a b r)
      | inr r ↦ elim (Bool-cases (less b a)) [
        | inl t ↦ simp (r, t)
        | inr t ↦
            simp (r, t)
              (ap₂ (λ (x z : Bytes). x ∷ z ∷ y ∷ ys) (less_total a b r t)
                (sym (less_total a b r t)))
      ]
    ]

sort-Permᴰ : {xs ys : List Bytes} → Permᴰ xs ys → sort xs ≡ sort ys
unfolding sort
sort-Permᴰ Permᴰ.nil = refl
sort-Permᴰ (Permᴰ.cons e d) = ap₂ insert_sorted e (sort-Permᴰ d)
sort-Permᴰ (Permᴰ.swap {a} {b} {a' = c} {b' = d} {l = l} e f) =
    insert_sorted_comm a b (sort l)
    ∙ ap₂ (λ (x y : Bytes). insert_sorted x (insert_sorted y (sort l))) f e
sort-Permᴰ (Permᴰ.trans d e) = sort-Permᴰ d ∙ sort-Permᴰ e

equation_prop : (xs ys : List Bytes) → IsProp (xs ≡ ys)
equation_prop xs ys = hlevel

-- Lists with the same strings in any order are sorted alike.
pub sort-Perm : {xs ys : List Bytes} → Perm xs ys → sort xs ≡ sort ys
sort-Perm {xs} {ys} p = ∥∥₁_elim p (equation_prop (sort xs) (sort ys)) sort-Permᴰ

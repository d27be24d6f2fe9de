-- ===== src/Roster/Highest.antt =====
-- `highestResource` gives the resource with the highest priority.
use gloox.Base.{
  ◌≡◌, refl, sym, subst, true, false, [], ◌∷◌, Option, none, some, Bytes, Bool-cases, inl, inr, ◌⊎◌,
  arith,
}
use gloox.Base.Int.{ℤ, pos, negsuc, less_ℤ}
use gloox.Map.{Map}
use gloox.Roster.{Resource, RosterItem, highest_from, highest_resource}

-- A resource stands in the map under some name.
abbrev pub IsIn : Resource → Map Resource → Type 0
IsIn r [] = ⊥
IsIn r ((name, s) ∷ m) = (r ≡ s) ⊎ IsIn r m

-- No resource has a priority above this one.
abbrev pub Tops : ℤ → Map Resource → Type 0
Tops z [] = Unit
Tops z ((name, s) ∷ m) = (less_ℤ z s.priority ≡ false) × Tops z m

-- A resource of the map that none exceeds, or none, where all have a priority of -255 or below.
abbrev pub IsHighest : Map Resource → Option Resource → Type 0
IsHighest m none = Tops (negsuc 254) m
IsHighest m (some r) = IsIn r m × Tops r.priority m

not_less_of : (x y z : ℤ) → less_ℤ x y ≡ true → less_ℤ x z ≡ false → less_ℤ y z ≡ false
not_less_of (pos x) (pos y) (pos z) a b = ground arith
not_less_of (pos x) (pos y) (negsuc z) a b = refl
not_less_of (pos x) (negsuc y) z a b = cc
not_less_of (negsuc x) y (pos z) a b = cc
not_less_of (negsuc x) (pos y) (negsuc z) a b = refl
not_less_of (negsuc x) (negsuc y) (negsuc z) a b = ground arith

less_ℤ_irrefl : (x : ℤ) → less_ℤ x x ≡ false
less_ℤ_irrefl (pos n) = ground arith
less_ℤ_irrefl (negsuc n) = ground arith

less_ℤ_trans : (x y z : ℤ) → less_ℤ x y ≡ true → less_ℤ y z ≡ true → less_ℤ x z ≡ true
less_ℤ_trans (pos x) (pos y) (pos z) a b = ground arith
less_ℤ_trans (pos x) (pos y) (negsuc z) a b = cc
less_ℤ_trans (pos x) (negsuc y) z a b = cc
less_ℤ_trans (negsuc x) (pos y) (pos z) a b = refl
less_ℤ_trans (negsuc x) (pos y) (negsuc z) a b = cc
less_ℤ_trans (negsuc x) (negsuc y) (pos z) a b = refl
less_ℤ_trans (negsuc x) (negsuc y) (negsuc z) a b = ground arith

-- What the loop gives from a bound and what was found for it.
data Finds (highest : ℤ) (best : Option Resource) (m : Map Resource) (o : Option Resource)
    : Type 0 where
  kept : o ≡ best → Tops highest m → Finds highest best m o
  found :
      (r : Resource)
      → o ≡ some r
      → IsIn r m
      → Tops r.priority m
      → less_ℤ highest r.priority ≡ true
      → Finds highest best m o

Finds-better :
    (highest : ℤ) (best : Option Resource) (name : Bytes) (s : Resource) (m : Map Resource)
    (o : Option Resource)
    → less_ℤ highest s.priority ≡ true
    → Finds s.priority (some s) m o
    → Finds highest best ((name, s) ∷ m) o
Finds-better highest best name s m o h (kept e t) =
    found s e (inl refl) (less_ℤ_irrefl s.priority, t) h
Finds-better highest best name s m o h (found r e i t l) =
    found r e (inr i) (not_less_of s.priority r.priority s.priority l (less_ℤ_irrefl s.priority), t)
      (less_ℤ_trans highest s.priority r.priority h l)

Finds-rest :
    (highest : ℤ) (best : Option Resource) (name : Bytes) (s : Resource) (m : Map Resource)
    (o : Option Resource)
    → less_ℤ highest s.priority ≡ false
    → Finds highest best m o
    → Finds highest best ((name, s) ∷ m) o
Finds-rest highest best name s m o h (kept e t) = kept e (h, t)
Finds-rest highest best name s m o h (found r e i t l) =
    found r e (inr i) (not_less_of highest r.priority s.priority l h, t) l

highest_from-Finds :
    (highest : ℤ) (best : Option Resource) (m : Map Resource)
    → Finds highest best m (highest_from highest best m)
unfolding highest_from
highest_from-Finds highest best [] = kept refl tt
highest_from-Finds highest best ((name, r) ∷ m) = elim (Bool-cases (less_ℤ highest r.priority)) [
  | inl e ↦ rw e (Finds-better highest best name r m _ e (highest_from-Finds r.priority (some r) m))
  | inr e ↦ rw e (Finds-rest highest best name r m _ e (highest_from-Finds highest best m))
]

IsHighest-Finds :
    (m : Map Resource) (o : Option Resource) → Finds (negsuc 254) none m o → IsHighest m o
IsHighest-Finds m none (kept e t) = t
IsHighest-Finds m none (found r e i t l) = cc
IsHighest-Finds m (some s) (kept e t) = cc
IsHighest-Finds m (some s) (found r e i t l) =
    subst (λ (o : Option Resource). IsHighest m o) (sym e) (i, t)

-- `highestResource` gives a resource of the contact that no other exceeds in priority, and none just
-- where all priorities are -255 or below.
pub highest_resource-IsHighest : (i : RosterItem) → IsHighest i.resources (highest_resource i)
unfolding highest_resource
highest_resource-IsHighest i =
    IsHighest-Finds i.resources _ (highest_from-Finds (negsuc 254) none i.resources)

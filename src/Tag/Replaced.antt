-- ===== src/Tag/Replaced.antt =====
-- Which attributes a new one with a name and a value only replaces.
use gloox.Base.{
  ◌≡◌, refl, ap₂, ◌⊎◌, ◌∙◌, Bool, true, false, ◌||◌, List, [], ◌∷◌, Bytes, equal, equal_iff, All,
  Bool-cases, inl, inr,
}
use gloox.Tag.{Attribute, Head}
use gloox.Tag.Attributes.{replaces, attr_xmlns, attr_prefix, prefix_of}

-- An attribute with a name and a value only.
pub record IsPlain (a : Attribute) : Type 0 where
  pub unowned : a.owned ≡ false
  pub no_xmlns : a.xmlns ≡ []
  pub no_prefix : a.prefix ≡ []

-- An attribute with no prefix of its own, whose namespace is its own, if it has one, or not looked up;
-- or with no namespace, of its own or looked up. A parsed attribute without a prefix is of the first kind.
pub data IsOpen : Attribute → Type 0 where
  no_prefix_here : {a : Attribute} → a.prefix ≡ [] → (a.owned ≡ false) ⊎ (a.xmlns ≡ []) → IsOpen a
  no_xmlns_here : {a : Attribute} → a.owned ≡ false → a.xmlns ≡ [] → IsOpen a

attr_xmlns-none :
    (h : Head) (up : List Head) (a : Attribute)
    → a.owned ≡ false
    → a.xmlns ≡ []
    → attr_xmlns h up a ≡ []
unfolding attr_xmlns
attr_xmlns-none h up a p q = simp (p, q)

attr_prefix-none :
    (h : Head) (a : Attribute)
    → a.prefix ≡ []
    → (a.owned ≡ false) ⊎ (a.xmlns ≡ [])
    → attr_prefix h a ≡ []
unfolding attr_prefix prefix_of
attr_prefix-none h a p (inl q) = simp (p, q)
attr_prefix-none h a p (inr q) =
    simp (p, q) (elim (Bool-cases a.owned) [ inl e ↦ rw e refl | inr e ↦ rw e refl ])

-- An attribute with a name and a value only replaces one of the same name.
pub replaces-IsPlain :
    (h : Head) (up : List Head) (new old : Attribute)
    → IsPlain new
    → (old.name ≡ new.name → IsOpen old)
    → replaces h up new old ≡ equal old.name new.name
unfolding replaces equal
replaces-IsPlain h up new old p q = elim (Bool-cases (equal old.name new.name)) [
  | inr e ↦ rw e refl
  | inl e ↦ rw e (go (q ((equal_iff old.name new.name).0 e)))
]
  where
    new_xmlns : attr_xmlns h up new ≡ []
    new_xmlns = attr_xmlns-none h up new p.unowned p.no_xmlns

    new_prefix : attr_prefix h new ≡ []
    new_prefix = attr_prefix-none h new p.no_prefix (inl p.unowned)

    or_true : (b : Bool) → (b || true) ≡ true
    or_true true = refl
    or_true false = refl

    go :
        IsOpen old
        → (equal (attr_xmlns h up old) (attr_xmlns h up new)
            || equal (attr_prefix h old) (attr_prefix h new))
          ≡ true
    go (no_prefix_here r s) =
        ap₂ (λ (x y : Bytes). equal (attr_xmlns h up old) (attr_xmlns h up new) || equal x y)
          (attr_prefix-none h old r s) new_prefix
        ∙ or_true (equal (attr_xmlns h up old) (attr_xmlns h up new))
    go (no_xmlns_here r s) =
        ap₂ (λ (x y : Bytes). equal x y || equal (attr_prefix h old) (attr_prefix h new))
          (attr_xmlns-none h up old r s) new_xmlns

-- An attribute that is open if it has the name.
abbrev pub IsOpenAt : Bytes → Attribute → Type 0
IsOpenAt name a = a.name ≡ name → IsOpen a

IsPlain-IsOpen : {a : Attribute} → IsPlain a → IsOpen a
IsPlain-IsOpen p = no_xmlns_here p.unowned p.no_xmlns

pub All-IsOpenAt : (name : Bytes) (old : List Attribute) → All IsPlain old → All (IsOpenAt name) old
All-IsOpenAt name [] p = tt
All-IsOpenAt name (a ∷ old) (p, ps) = ((λ e. IsPlain-IsOpen p), All-IsOpenAt name old ps)

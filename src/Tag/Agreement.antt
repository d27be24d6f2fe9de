-- ===== src/Tag/Agreement.antt =====
-- What `Tag::operator==` decides: how much of the right tag agrees with the left one.
use gloox.Base.{
  ◌≡◌, refl, ◌↔◌, Bool, true, false, ◌&&◌, ◌||◌, List, [], ◌∷◌, Bytes, equal_iff, if◌then◌else◌,
}
use gloox.Tag.Children.{children}
use gloox.Tag.Equality.{
  attribute_equal, attributes_equal, texts, texts_equal, heads_equal, has, listed, tag_equal,
  children_equal,
}
use gloox.Tag.{Attribute, Head, Tag, tag, Nodes, nil, child, text, head, nodes}

-- Each entry of the left list agrees with the one at its place in the right list, which may be longer.
abbrev pub Starts : {A : Type 0} → (A → A → Type 0) → List A → List A → Type 0
Starts R [] ys = Unit
Starts R (x ∷ xs) [] = ⊥
Starts R (x ∷ xs) (y ∷ ys) = R x y × Starts R xs ys

-- A part that both have or both lack, and that agrees where they have it.
abbrev pub Shared : Bool → Bool → Type 0 → Type 0
Shared a b P = (a ≡ b) × (a ≡ true → P)

abbrev pub SameAttribute : Attribute → Attribute → Type 0
SameAttribute a b = ((a.name ≡ b.name) × (a.value ≡ b.value)) × (a.xmlns ≡ b.xmlns)

-- The names, the namespaces, the texts and the attributes.
abbrev pub HeadsAgree : Head → List Bytes → Head → List Bytes → Type 0
HeadsAgree h ts g us =
    (((h.name ≡ g.name) × (h.xmlns ≡ g.xmlns))
      × Shared h.has_cdata g.has_cdata (Starts (λ s u. s ≡ u) ts us))
    × Shared (has h.attribs) (has g.attribs)
        (Starts SameAttribute (listed h.attribs) (listed g.attribs))

unfoldable mutual
  -- The heads agree, and the children, each with the one at its place.
  pub Agrees : Tag → Tag → Type 0
  Agrees (tag h ns) t =
      Shared h.has_children (head t).has_children (ChildrenAgree ns (children (nodes t)))
      × HeadsAgree h (texts ns) (head t) (texts (nodes t))

  pub ChildrenAgree : Nodes → List Tag → Type 0
  ChildrenAgree nil us = Unit
  ChildrenAgree (text s ns) us = ChildrenAgree ns us
  ChildrenAgree (child t ns) [] = ⊥
  ChildrenAgree (child t ns) (u ∷ us) = Agrees t u × ChildrenAgree ns us

and_iff :
    {a b : Bool} {P Q : Type 0} → ((a ≡ true) ↔ P) → ((b ≡ true) ↔ Q) → ((a && b) ≡ true) ↔ (P × Q)
and_iff {a = true} {b = b} p q = ((λ e. (p.0 refl, q.0 e)), (λ r. q.1 r.1))
and_iff {a = false} {b = b} p q = ((λ e. cc), (λ r. p.1 r.0))

shared_iff :
    (a b : Bool) {same : Bool} {P : Type 0}
    → ((same ≡ true) ↔ P)
    → ((if a && b then same else if a || b then false else true) ≡ true) ↔ Shared a b P
shared_iff true true p = ((λ e. (refl, (λ q. p.0 e))), (λ r. p.1 (r.1 refl)))
shared_iff true false p = ((λ e. cc), (λ r. let q = r.0 in cc))
shared_iff false true p = ((λ e. cc), (λ r. let q = r.0 in cc))
shared_iff false false p = ((λ e. (refl, (λ q. cc))), (λ r. refl))

texts_equal_iff : (xs ys : List Bytes) → (texts_equal xs ys ≡ true) ↔ Starts (λ s u. s ≡ u) xs ys
unfolding texts_equal
texts_equal_iff [] ys = ((λ e. tt), (λ r. refl))
texts_equal_iff (x ∷ xs) [] = ((λ e. cc), (λ r. absurd r))
texts_equal_iff (x ∷ xs) (y ∷ ys) = and_iff (equal_iff x y) (texts_equal_iff xs ys)

attributes_equal_iff :
    (xs ys : List Attribute) → (attributes_equal xs ys ≡ true) ↔ Starts SameAttribute xs ys
unfolding attributes_equal attribute_equal
attributes_equal_iff [] ys = ((λ e. tt), (λ r. refl))
attributes_equal_iff (x ∷ xs) [] = ((λ e. cc), (λ r. absurd r))
attributes_equal_iff (x ∷ xs) (y ∷ ys) =
    and_iff
      (and_iff (and_iff (equal_iff x.name y.name) (equal_iff x.value y.value))
        (equal_iff x.xmlns y.xmlns))
      (attributes_equal_iff xs ys)

heads_equal_iff :
    (h : Head) (ts : List Bytes) (g : Head) (us : List Bytes)
    → (heads_equal h ts g us ≡ true) ↔ HeadsAgree h ts g us
unfolding heads_equal
heads_equal_iff h ts g us =
    and_iff
      (and_iff (and_iff (equal_iff h.name g.name) (equal_iff h.xmlns g.xmlns))
        (shared_iff h.has_cdata g.has_cdata (texts_equal_iff ts us)))
      (shared_iff (has h.attribs) (has g.attribs)
        (attributes_equal_iff (listed h.attribs) (listed g.attribs)))

mutual
  unfolding tag_equal children_equal Agrees ChildrenAgree

  tag_iff : (t u : Tag) → (tag_equal t u ≡ true) ↔ Agrees t u
  tag_iff (tag h ns) u =
      and_iff
        (shared_iff h.has_children (head u).has_children (children_iff ns (children (nodes u))))
        (heads_equal_iff h (texts ns) (head u) (texts (nodes u)))

  children_iff : (ns : Nodes) (us : List Tag) → (children_equal ns us ≡ true) ↔ ChildrenAgree ns us
  children_iff nil us = ((λ e. tt), (λ r. refl))
  children_iff (text s ns) us = children_iff ns us
  children_iff (child t ns) [] = ((λ e. cc), (λ r. absurd r))
  children_iff (child t ns) (u ∷ us) = and_iff (tag_iff t u) (children_iff ns us)

-- `operator==` holds just where the names and namespaces are the same, both tags or none have texts,
-- attributes and children, and each text, attribute (by name, value and namespace) and child of the left
-- tag agrees with the one at its place in the right tag, which may have more of them behind.
pub tag_equal_iff : (t u : Tag) → (tag_equal t u ≡ true) ↔ Agrees t u
tag_equal_iff = tag_iff

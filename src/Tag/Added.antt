-- ===== src/Tag/Added.antt =====
-- Attributes that are added one after the other.
use gloox.Base.{
  ◌≡◌, refl, sym, ap, ◌∙◌, Bool, true, false, ◌||◌, List, [], ◌∷◌, some, if◌then◌else◌, Bytes,
  equal, equal_iff, equal_refl, is_empty, is_empty_eq, All, Bool-cases, inl, inr,
}
use gloox.Tag.{Attribute, Head}
use gloox.Tag.Attributes.{
  attributes, new_attribute, find_named, find_attribute, replaces, put, add_attribute_value,
  no_attribute,
}
use gloox.Util.Valid.{check_valid_xml_chars}
use gloox.Tag.Replaced.{replaces-IsPlain, IsOpenAt, IsPlain, All-IsOpenAt}

find_named-put :
    (h : Head) (up : List Head) (new : Attribute) (k : Bytes) (old : List Attribute)
    → IsPlain new
    → All (IsOpenAt new.name) old
    → find_named k (put h up new old) ≡ (if equal new.name k then some new else find_named k old)
unfolding find_named put
find_named-put h up new k [] p q = refl
find_named-put h up new k (a ∷ old) p (q, qs) =
    rw (replaces-IsPlain h up new a p q) (elim (Bool-cases (equal a.name new.name)) [
      | inl e ↦ simp e (found ((equal_iff a.name new.name).0 e))
      | inr e ↦ simp e (passed e (find_named-put h up new k old p qs))
    ])
  where
    other :
        equal a.name k ≡ false
        → (if equal a.name k then some a else find_named k old) ≡ find_named k old
    other g = rw g refl

    differs : equal a.name new.name ≡ false → equal a.name k ≡ true → equal new.name k ≡ false
    differs e f = elim (Bool-cases (equal new.name k)) [
      | inl g ↦
          let h : equal a.name new.name ≡ true =
            (equal_iff a.name new.name).1
              ((equal_iff a.name k).0 f ∙ sym ((equal_iff new.name k).0 g)) in
          absurd (cc)
      | inr g ↦ g
    ]

    found :
        a.name ≡ new.name
        → (if equal new.name k then some new else find_named k old) ≡ (
            if equal new.name k
            then some new
            else if equal a.name k
            then some a
            else find_named k old)
    found e = elim (Bool-cases (equal new.name k)) [
      | inl f ↦ rw f refl
      | inr f ↦ rw f (sym (other (ap (λ (n : Bytes). equal n k) e ∙ f)))
    ]

    passed :
        equal a.name new.name ≡ false
        → find_named k (put h up new old)
          ≡ (if equal new.name k then some new else find_named k old)
        → (if equal a.name k then some a else find_named k (put h up new old)) ≡ (
            if equal new.name k
            then some new
            else if equal a.name k
            then some a
            else find_named k old)
    passed e ih = elim (Bool-cases (equal a.name k)) [
      | inl f ↦ rw (f, differs e f) refl
      | inr f ↦ rw f ih
    ]

put-IsPlain :
    (h : Head) (up : List Head) (new : Attribute) (old : List Attribute)
    → IsPlain new
    → All IsPlain old
    → All IsPlain (put h up new old)
unfolding put
put-IsPlain h up new [] p q = (p, tt)
put-IsPlain h up new (a ∷ old) p (q, qs) = elim (Bool-cases (replaces h up new a)) [
  | inl e ↦ simp e (p, qs)
  | inr e ↦ simp e (q, put-IsPlain h up new old p qs)
]

-- A tag whose attributes have a name and a value only.
abbrev pub AllPlain : Head → Type 0
AllPlain h = All IsPlain (attributes h)

new_attribute-IsPlain : (name value : Bytes) → IsPlain (new_attribute name value [])
unfolding new_attribute check_valid_xml_chars
new_attribute-IsPlain name value = elim (Bool-cases (check_valid_xml_chars value)) [
  | inl e ↦
      rw e
        (elim (Bool-cases (check_valid_xml_chars name)) [ inl f ↦ rw f plain | inr f ↦ rw f plain ])
  | inr e ↦ rw e plain
]
  where
    plain :
        {n v : Bytes}
        → IsPlain (record { owned = false; name = n; value = v; xmlns = []; prefix = [] })
    plain = record { unowned = refl; no_xmlns = refl; no_prefix = refl }

pub add_attribute_value-AllPlain :
    (h : Head) (up : List Head) (name value : Bytes)
    → AllPlain h
    → AllPlain (add_attribute_value h up name value).0
unfolding add_attribute_value
add_attribute_value-AllPlain h up name value p =
    elim (Bool-cases (is_empty name || is_empty value)) [
      | inl e ↦ rw e p
      | inr e ↦ rw e (elim (Bool-cases (is_empty (new_attribute name value []).name)) [
        | inl f ↦ rw f p
        | inr f ↦ rw f (
            put-IsPlain h up (new_attribute name value []) (attributes h)
              (new_attribute-IsPlain name value) p)
      ])
    ]

new_attribute_valid :
    (name value : Bytes)
    → check_valid_xml_chars name ≡ true
    → check_valid_xml_chars value ≡ true
    → new_attribute name value [] ≡ record no_attribute { value = value; name = name }
unfolding new_attribute check_valid_xml_chars
new_attribute_valid name value e f = rw (f, e) refl

-- `addAttribute` of a valid name and value, both not empty, makes that the value of the name, and leaves
-- the values of all other names, where each attribute that the tag has of that name is of one of two
-- kinds: its prefix is not set, and its owner or its namespace is not; or its owner and its namespace are
-- not set.
pub find_attribute-add_attribute_value :
    (h : Head) (up : List Head) (name value k : Bytes)
    → All (IsOpenAt name) (attributes h)
    → check_valid_xml_chars name ≡ true
    → check_valid_xml_chars value ≡ true
    → is_empty name ≡ false
    → is_empty value ≡ false
    → find_attribute k (add_attribute_value h up name value).0
      ≡ (if equal name k then value else find_attribute k h)
unfolding find_attribute add_attribute_value
find_attribute-add_attribute_value h up name value k p e f m n =
    simp
      (
        m,
        n,
        new_attribute_valid name value e f,
        find_named-put h up (record no_attribute { value = value; name = name }) k (attributes h)
            (record { unowned = refl; no_xmlns = refl; no_prefix = refl }) p,
      )
      (elim (Bool-cases (equal name k)) [ inl q ↦ rw q refl | inr q ↦ rw q refl ])

add_attribute_value-empty :
    (h : Head) (up : List Head) (name value : Bytes)
    → is_empty value ≡ true
    → add_attribute_value h up name value ≡ (h, false)
unfolding add_attribute_value
add_attribute_value-empty h up name value n = elim (Bool-cases (is_empty name)) [
  | inl m ↦ rw (m) refl
  | inr m ↦ rw (m, n) refl
]

add_attribute_value-invalid :
    (h : Head) (up : List Head) (name value : Bytes)
    → check_valid_xml_chars value ≡ false
    → add_attribute_value h up name value ≡ (h, false)
unfolding add_attribute_value new_attribute check_valid_xml_chars
add_attribute_value-invalid h up name value f =
    elim (Bool-cases (is_empty name || is_empty value)) [
      | inl m ↦ rw m refl
      | inr m ↦ rw (m, f) refl
    ]

-- The same for the values of other names, whatever the value is.
pub find_attribute-add_other :
    (h : Head) (up : List Head) (name value k : Bytes)
    → AllPlain h
    → check_valid_xml_chars name ≡ true
    → is_empty name ≡ false
    → equal name k ≡ false
    → find_attribute k (add_attribute_value h up name value).0 ≡ find_attribute k h
find_attribute-add_other h up name value k p e m q = elim (Bool-cases (is_empty value)) [
  | inl n ↦
      ap (λ (r : Head × Bool). find_attribute k r.0) (add_attribute_value-empty h up name value n)
  | inr n ↦ elim (Bool-cases (check_valid_xml_chars value)) [
    | inl f ↦
        find_attribute-add_attribute_value h up name value k (All-IsOpenAt name (attributes h) p) e
          f m n
        ∙ rw q refl
    | inr f ↦
        ap (λ (r : Head × Bool). find_attribute k r.0)
          (add_attribute_value-invalid h up name value f)
  ]
]

-- And for the value of the name itself, also where it is empty, on a tag that has none.
pub find_attribute-add_new :
    (h : Head) (up : List Head) (name value : Bytes)
    → AllPlain h
    → check_valid_xml_chars name ≡ true
    → check_valid_xml_chars value ≡ true
    → is_empty name ≡ false
    → find_attribute name h ≡ []
    → find_attribute name (add_attribute_value h up name value).0 ≡ value
find_attribute-add_new h up name value p e f m q = elim (Bool-cases (is_empty value)) [
  | inl n ↦
      ap (λ (r : Head × Bool). find_attribute name r.0)
        (add_attribute_value-empty h up name value n)
      ∙ q
      ∙ sym (is_empty_eq value n)
  | inr n ↦
      find_attribute-add_attribute_value h up name value name (All-IsOpenAt name (attributes h) p) e
        f m n
      ∙ rw (equal_refl name) refl
]

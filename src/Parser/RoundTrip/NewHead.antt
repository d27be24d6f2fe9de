-- ===== src/Parser/RoundTrip/NewHead.antt =====
-- `addTag` gives the new tag the name, the prefix and the attributes that were read.
use gloox.Base.{
  ◌≡◌, refl, ap, subst, ◌∙◌, ◌⊎◌, inl, inr, Bool, true, false, List, [], ◌∷◌, map, All, Bytes,
  equal, is_empty, if◌then◌else◌, Bool-cases, Option, none, some,
}
use gloox.Parser.Build.{new_head, take_attributes, take_xmlnss, stream_name}
use gloox.Parser.RoundTrip.Attributes.{IsReadable, plain_attribute}
use gloox.Parser.RoundTrip.Heads.{
  Declares, IsReadableHead, plain_head, all_xmlns, Names, all_xmlns-cases, default_attribute,
  map-plain-own, map-plain-put,
}
use gloox.Parser.RoundTrip.Names.{IsName, ArePlain-valid}
use gloox.Parser.{Parser}
use gloox.StringMap.{StringMap}
use gloox.Tag.Attributes.{
  xmlns_name, attributes, add_attribute_value, add_attribute, find_attribute, find_named, own, put,
  new_attribute, set_xmlns, set_attributes,
}
use gloox.Tag.{Attribute, Head, no_head, head, new_tag, set_prefix, add_cdata}
use gloox.Util.Valid.{check_valid_xml_chars}

abbrev named_head : Bytes → Bytes → Head
named_head n x = record no_head { name = n; prefix = x }

new_tag_named : (n : Bytes) → check_valid_xml_chars n ≡ true → head (new_tag n []) ≡ named_head n []
unfolding new_tag add_cdata
new_tag_named n h = rw h

set_prefix_valid :
    (n x : Bytes)
    → check_valid_xml_chars x ≡ true
    → (set_prefix x (named_head n [])).0 ≡ named_head n x
unfolding set_prefix
set_prefix_valid n x h = rw h

abbrev filled : List Attribute → StringMap → Bytes → Bytes → Head
filled attribs m n x = take_xmlnss m (take_attributes attribs (named_head n x))

record IsFilled (attribs : List Attribute) (n x : Bytes) (h : Head) : Type 0 where
  name_is : h.name ≡ n
  prefix_is : h.prefix ≡ x
  attribs_are : attributes h ≡ own attribs

filled-IsFilled :
    (attribs : List Attribute) (m : StringMap) (n x : Bytes)
    → IsFilled attribs n x (filled attribs m n x)
unfolding own set_attributes
filled-IsFilled [] [] n x = record { name_is = refl; prefix_is = refl; attribs_are = refl }
filled-IsFilled (a ∷ attribs) [] n x = record {
  name_is = refl;
  prefix_is = refl;
  attribs_are = refl;
}
filled-IsFilled [] (e ∷ m) n x = record { name_is = refl; prefix_is = refl; attribs_are = refl }
filled-IsFilled (a ∷ attribs) (e ∷ m) n x = record {
  name_is = refl;
  prefix_is = refl;
  attribs_are = refl;
}

-- `setXmlns` with a valid text.
set_xmlns_none : (h : Head) (up : List Head) → (set_xmlns h up [] []).0 ≡ record h { xmlns = [] }
unfolding set_xmlns add_attribute_value check_valid_xml_chars
set_xmlns_none h up = refl

set_xmlns-some :
    (h : Head) (up : List Head) (v : Bytes)
    → check_valid_xml_chars v ≡ true
    → is_empty v ≡ false
    → (set_xmlns h up v []).0 ≡ record h {
      xmlns = v;
      attribs = some (put (record h { xmlns = v }) up (default_attribute v) (attributes h));
    }
unfolding set_xmlns add_attribute_value add_attribute new_attribute check_valid_xml_chars
set_xmlns-some h up v hv he = rw (hv, he)

find_named-All :
    (P : Attribute → Type 0) (n : Bytes) (attribs : List Attribute) (a : Attribute)
    → All P attribs
    → find_named n attribs ≡ some a
    → P a
unfolding find_named
find_named-All P n [] a h e = cc
find_named-All P n (b ∷ rest) a h e = elim (Bool-cases (equal b.name n)) [
  | inl same ↦
      subst P (ap (λ (o : Option Attribute). elim o [ none ↦ b | some c ↦ c ]) (rw same at e)) h.0
  | inr other ↦ find_named-All P n rest a h.1 (rw other at e)
]

module _ (bs : List Attribute) (n x : Bytes) where
  abbrev read : Head
  read = record no_head { name = n; prefix = x; attribs = some (map plain_attribute bs) }

  plain_filled : (h : Head) → IsFilled (map plain_attribute bs) n x h → plain_head h ≡ read
  plain_filled h f = λ i. record no_head {
    name = f.name_is i;
    prefix = f.prefix_is i;
    attribs = some ((ap (map plain_attribute) f.attribs_are ∙ map-plain-own bs) i);
  }

  plain_put :
      (h : Head) (up : List Head) (v : Bytes)
      → IsFilled (map plain_attribute bs) n x h
      → Declares v bs
      → Names bs
      → plain_head (record h {
        xmlns = v;
        attribs = some (put (record h { xmlns = v }) up (default_attribute v) (attributes h));
      })
        ≡ read
  plain_put h up v f d e = λ i. record no_head {
    name = f.name_is i;
    prefix = f.prefix_is i;
    attribs = some (
        (ap
              (λ (l : List Attribute).
                map plain_attribute (put (record h { xmlns = v }) up (default_attribute v) l))
              f.attribs_are
            ∙ map-plain-put (record h { xmlns = v }) up v bs d e)
          i);
  }

  plain_set_xmlns :
      (h : Head) (up : List Head) (v : Bytes)
      → IsFilled (map plain_attribute bs) n x h
      → Declares v bs
      → check_valid_xml_chars v ≡ true
      → Names bs
      → plain_head (set_xmlns h up v []).0 ≡ read
  plain_set_xmlns h up [] f d c e = rw (set_xmlns_none h up) (plain_filled h f)
  plain_set_xmlns h up (b ∷ v) f d c e =
      rw (set_xmlns-some h up (b ∷ v) c refl) (plain_put h up (b ∷ v) f d e)

prefix-valid :
    (x : Bytes)
    → (x ≡ []) ⊎ (IsName x × (equal x stream_name ≡ false))
    → check_valid_xml_chars x ≡ true
unfolding check_valid_xml_chars
prefix-valid x (inl e) = rw e
prefix-valid x (inr h) = ArePlain-valid x h.0.plain

-- The tag's head before its namespaces.
abbrev prefixed : Bool → Bytes → Bytes → Head
prefixed has n px = if has then (set_prefix px (head (new_tag n []))).0 else head (new_tag n [])

prefixed_lem :
    (has : Bool) (n px : Bytes)
    → check_valid_xml_chars n ≡ true
    → check_valid_xml_chars px ≡ true ⊎ (has ≡ false)
    → prefixed has n px ≡ named_head n (if has then px else [])
prefixed_lem true n px hn (inl hp) = rw (new_tag_named n hn) (set_prefix_valid n px hp)
prefixed_lem true n px hn (inr e) = cc
prefixed_lem false n px hn hp = new_tag_named n hn

module _ (h : Head) (r : IsReadableHead h) where
  default-valid :
      (a : Attribute)
      → find_named xmlns_name (attributes h) ≡ some a
      → check_valid_xml_chars (find_attribute xmlns_name h) ≡ true
  unfolding find_attribute
  default-valid a found =
      rw found (find_named-All IsReadable xmlns_name (attributes h) a r.attribs_ok found).value_ok

  plain_xmlns :
      (m : StringMap) (up : List Head) (w : Bytes)
      → w ≡ all_xmlns (attributes h) []
      → plain_head
          (set_xmlns (filled (map plain_attribute (attributes h)) m h.name h.prefix) up w []).0
        ≡ plain_head h
  plain_xmlns m up w e =
      let fill = filled-IsFilled (map plain_attribute (attributes h)) m h.name h.prefix in
      elim (all_xmlns-cases (find_attribute xmlns_name h) (attributes h) [] r.declares) [
        | inl none' ↦
            rw (e ∙ none', set_xmlns_none) (plain_filled (attributes h) h.name h.prefix _ fill)
        | inr (some', (a, found)) ↦ rw (e ∙ some') (
            plain_set_xmlns (attributes h) h.name h.prefix _ up (find_attribute xmlns_name h) fill
              r.declares (default-valid a found) (a, found))
      ]

  pub new_head-plain :
      (q : Parser)
      → q.tag_name ≡ h.name
      → (if q.have_tag_prefix then q.tag_prefix else []) ≡ h.prefix
      → q.attribs ≡ map plain_attribute (attributes h)
      → q.xmlns ≡ all_xmlns (attributes h) []
      → plain_head (new_head q) ≡ plain_head h
  unfolding new_head
  new_head-plain q en ep ea ex =
      ap (λ (z : Head). at z q.attribs)
        (prefixed_lem q.have_tag_prefix q.tag_name q.tag_prefix
            (rw en (ArePlain-valid h.name r.name_ok.plain)) (px (Bool-cases q.have_tag_prefix))
          ∙ (λ i. named_head (en i) (ep i)))
      ∙ ap (at (named_head h.name h.prefix)) ea
      ∙ plain_xmlns q.xmlnss (map head q.path) q.xmlns ex
    where
      at : Head → List Attribute → Head
      at z attribs =
          plain_head
            (set_xmlns (take_xmlnss q.xmlnss (take_attributes attribs z)) (map head q.path) q.xmlns
              []).0

      px :
          (q.have_tag_prefix ≡ true) ⊎ (q.have_tag_prefix ≡ false)
          → check_valid_xml_chars q.tag_prefix ≡ true ⊎ (q.have_tag_prefix ≡ false)
      px (inl e) = inl (rw (rw e at ep) (prefix-valid h.prefix r.prefix_ok))
      px (inr e) = inr e

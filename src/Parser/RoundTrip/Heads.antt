-- ===== src/Parser/RoundTrip/Heads.antt =====
-- The head of the tag that `addTag` builds, against the head whose text was read.
use gloox.Base.{
  ◌≡◌, refl, sym, ap, subst, ◌∙◌, ◌⊎◌, inl, inr, true, false, List, [], ◌∷◌, ◌++◌, map,
  append_assoc, append-nil, arith, All, Bytes, equal, equal_iff, Bool-cases, some,
}
use gloox.Parser.Build.{stream_name}
use gloox.Parser.RoundTrip.Attributes.{
  IsReadable, IsNamed, complete, plain_attribute, collected, more_xmlnss, more_xmlns,
  Runs-attribute,
}
use gloox.Parser.RoundTrip.Names.{IsName}
use gloox.Parser.RoundTrip.Runs.{Runs, Runs-nil, Runs-append}
use gloox.Parser.{Parser, State, tag_name_almost_complete}
use gloox.StringMap.{StringMap}
use gloox.Tag.Attributes.{
  xmlns_name, attributes, attr_prefix, prefix_of, find_attribute, find_named, own, put, replaces,
}
use gloox.Tag.Printer.{attributes_xml}
use gloox.Tag.{Attribute, Head, no_head}

-- Attributes that declare no default namespace but `v`.
abbrev pub Declares : Bytes → List Attribute → Type 0
Declares v = All (λ a. equal a.name xmlns_name ≡ true → (a.prefix ≡ []) × (a.value ≡ v))

pub record IsReadableHead (h : Head) : Type 0 where
  pub name_ok : IsName h.name
  pub not_stream : equal h.name stream_name ≡ false
  pub prefix_ok : (h.prefix ≡ []) ⊎ (IsName h.prefix × (equal h.prefix stream_name ≡ false))
  pub attribs_ok : All IsReadable (attributes h)
  pub declares : Declares (find_attribute xmlns_name h) (attributes h)

-- What a reader of a tag sees of its head.
abbrev pub plain_head : Head → Head
plain_head h = record no_head {
  name = h.name;
  prefix = h.prefix;
  attribs = some (map plain_attribute (attributes h));
}

abbrev pub all_xmlnss : List Attribute → StringMap → StringMap
all_xmlnss [] m = m
all_xmlnss (a ∷ rest) m = all_xmlnss rest (more_xmlnss a m)

abbrev pub all_xmlns : List Attribute → Bytes → Bytes
all_xmlns [] v = v
all_xmlns (a ∷ rest) v = all_xmlns rest (more_xmlns a v)

abbrev pub behind : State → List Attribute → State
behind st [] = st
behind st (a ∷ rest) = tag_name_almost_complete

behind_complete :
    (attribs : List Attribute) → behind tag_name_almost_complete attribs ≡ tag_name_almost_complete
behind_complete [] = refl
behind_complete (a ∷ rest) = refl

pub behind-IsNamed :
    {st : State} (attribs : List Attribute) → IsNamed st → IsNamed (behind st attribs)
behind-IsNamed [] h = h
behind-IsNamed (a ∷ rest) h = complete

pub Runs-attributes :
    {st : State} (attribs : List Attribute) (p : Parser) (done : List Attribute) (m : StringMap)
    (v : Bytes)
    → IsNamed st
    → All IsReadable attribs
    → Runs (collected p st done m v) (attributes_xml attribs) (
        collected p
          (behind st attribs)
          (done ++ map plain_attribute attribs)
          (all_xmlnss attribs m)
          (all_xmlns attribs v))
unfolding attributes_xml
Runs-attributes {st} [] p done m v h r =
    subst (λ (l : List Attribute). Runs (collected p st done m v) [] (collected p st l m v))
      (sym (append-nil done)) (Runs-nil _)
Runs-attributes {st} (a ∷ rest) p done m v h r = Runs-append (Runs-attribute p done m v a h r.0) (
    subst (Runs from (attributes_xml rest))
      (λ i.
        to (behind_complete rest i)
          (append_assoc done (plain_attribute a ∷ []) (map plain_attribute rest) i))
      (Runs-attributes rest p (done ++ (plain_attribute a ∷ [])) (more_xmlnss a m) (more_xmlns a v)
        complete r.1))
  where
    from : Parser
    from =
        collected p tag_name_almost_complete (done ++ (plain_attribute a ∷ [])) (more_xmlnss a m)
          (more_xmlns a v)

    to : State → List Attribute → Parser
    to s l = collected p s l (all_xmlnss rest (more_xmlnss a m)) (all_xmlns rest (more_xmlns a v))

-- The default namespace that the parser has collected: none, or the one that the list declares.
abbrev pub Names : List Attribute → Type 0
Names attribs = (a : Attribute) × (find_named xmlns_name attribs ≡ some a)

pub all_xmlns-cases :
    (v : Bytes) (attribs : List Attribute) (w : Bytes)
    → Declares v attribs
    → (all_xmlns attribs w ≡ w) ⊎ ((all_xmlns attribs w ≡ v) × Names attribs)
unfolding find_named
all_xmlns-cases v [] w h = inl refl
all_xmlns-cases v (a ∷ rest) w h = elim (Bool-cases (equal a.name xmlns_name)) [
  | inl same ↦
      let more : more_xmlns a w ≡ v = rw ((h.0 same).0, same) (unfold equal in (h.0 same).1) in
      let found : Names (a ∷ rest) = (a, rw same) in
      elim (all_xmlns-cases v rest (more_xmlns a w) h.1) [
        | inl e ↦ inr (e ∙ more, found)
        | inr e ↦ inr (e.0, found)
      ]
  | inr other ↦
      let more : more_xmlns a w ≡ w = rw other (ground arith) in
      elim (all_xmlns-cases v rest (more_xmlns a w) h.1) [
        | inl e ↦ inl (e ∙ more)
        | inr e ↦ inr (e.0, (e.1.0, rw other e.1.1))
      ]
]

-- The attribute that `setXmlns` adds takes the place of the one that was read.
abbrev pub default_attribute : Bytes → Attribute
default_attribute v = record {
  owned = false;
  name = xmlns_name;
  value = v;
  xmlns = [];
  prefix = [];
}

pub map-plain-own :
    (attribs : List Attribute)
    → map plain_attribute (own (map plain_attribute attribs)) ≡ map plain_attribute attribs
unfolding own
map-plain-own [] = refl
map-plain-own (a ∷ rest) = ap (◌∷◌ (plain_attribute a)) (map-plain-own rest)

replaces_default :
    (h : Head) (up : List Head) (v : Bytes) (a : Attribute)
    → equal a.name xmlns_name ≡ true
    → a.prefix ≡ []
    → replaces h up (default_attribute v) (record a { owned = true; xmlns = [] }) ≡ true
unfolding replaces attr_prefix prefix_of
replaces_default h up v a same e = rw (same, e) (unfold equal in ground arith)

replaces_other :
    (h : Head) (up : List Head) (v : Bytes) (a : Attribute)
    → equal a.name xmlns_name ≡ false
    → replaces h up (default_attribute v) (record a { owned = true; xmlns = [] }) ≡ false
unfolding replaces
replaces_other h up v a other = rw other

pub map-plain-put :
    (h : Head) (up : List Head) (v : Bytes) (attribs : List Attribute)
    → Declares v attribs
    → Names attribs
    → map plain_attribute (put h up (default_attribute v) (own (map plain_attribute attribs)))
      ≡ map plain_attribute attribs
unfolding put own find_named
map-plain-put h up v [] d (a, e) = cc
map-plain-put h up v (a ∷ rest) d n = elim (Bool-cases (equal a.name xmlns_name)) [
  | inl same ↦ rw (replaces_default h up v a same (d.0 same).0) (λ i.
      record {
        owned = false;
        name = sym ((equal_iff a.name xmlns_name).0 same) i;
        value = sym (d.0 same).1 i;
        xmlns = [];
        prefix = sym (d.0 same).0 i;
      }
      ∷ map-plain-own rest i)
  | inr other ↦
      rw (replaces_other h up v a other)
        (ap (◌∷◌ (plain_attribute a)) (map-plain-put h up v rest d.1 (n.0, rw other at n.1)))
]

-- ===== src/Parser/RoundTrip/Attributes.antt =====
-- The text of an attribute, and what the parser collects from it.
use gloox.Base.{
  ◌≡◌, refl, sym, subst, ◌⊎◌, inl, inr, true, false, List, [], ◌∷◌, ◌++◌, append_assoc, arith,
  Bytes, equal, equal_iff, is_empty, if◌then◌else◌, Bool-cases,
}
use gloox.Parser.Build.{add_attribute}
use gloox.Parser.RoundTrip.Content.{valued, Runs-value}
use gloox.Parser.RoundTrip.Names.{
  IsName, ArePlain-valid, is_plain, attributing, Runs-attribute_name, Runs-attributing,
}
use gloox.Parser.RoundTrip.Runs.{Runs, Runs-append, Runs-byte}
use gloox.Parser.Step.{
  next, step_in, step_name_collect, step_almost_complete, step_attribute, step_attribute_colon,
  step_attribute_equal, step_value, step_value_end,
}
use gloox.Parser.{
  Parser, State, tag_name_collect, tag_name_complete, tag_name_almost_complete, tag_attribute_equal,
  tag_attribute_value, is_whitespace,
}
use gloox.StringMap.{StringMap, insert}
use gloox.Tag.Attributes.{xmlns_name, new_attribute, set_attr_prefix}
use gloox.Tag.Printer.{attribute_xml, qualified}
use gloox.Tag.{Attribute}
use gloox.Util.Escape.{append_escaped-escape, escape}
use gloox.Util.Valid.{check_valid_xml_chars, is_valid_byte}

-- An attribute whose text can be read back.
pub record IsReadable (a : Attribute) : Type 0 where
  pub name_ok : IsName a.name
  pub prefix_ok : (a.prefix ≡ []) ⊎ IsName a.prefix
  pub value_ok : check_valid_xml_chars a.value ≡ true

-- What the parser holds of it: no namespace of its own and no owner.
abbrev pub plain_attribute : Attribute → Attribute
plain_attribute a = record a { owned = false; xmlns = [] }

-- The parser behind a name or a value, with what it has collected.
abbrev pub collected : Parser → State → List Attribute → StringMap → Bytes → Parser
collected p st attribs xmlnss xmlns = record p {
  state = st;
  attribs = attribs;
  xmlnss = xmlnss;
  xmlns = xmlns;
  attrib = [];
  value = [];
  attrib_prefix = [];
  have_attrib_prefix = false;
  attrib_is_xmlns = false;
  quote = false;
}

-- What a further attribute does to the maps.
abbrev pub more_xmlnss : Attribute → StringMap → StringMap
more_xmlnss a m = if equal a.prefix xmlns_name then insert a.name a.value m else m

abbrev pub more_xmlns : Attribute → Bytes → Bytes
more_xmlns a v =
    if equal a.prefix xmlns_name then v else if equal a.name xmlns_name then a.value else v

-- Before the text of an attribute.
pub data IsNamed : State → Type 0 where
  collecting : IsNamed tag_name_collect
  complete : IsNamed tag_name_almost_complete

Runs-space :
    {st : State} (p : Parser) (attribs : List Attribute) (m : StringMap) (v : Bytes)
    → IsNamed st
    → Runs (collected p st attribs m v) (b' ' ∷ []) (collected p tag_name_complete attribs m v)
unfolding step_in step_name_collect step_almost_complete is_whitespace
Runs-space p attribs m v collecting = Runs-byte _ b' ' _ (λ cs. refl)
Runs-space p attribs m v complete = Runs-byte _ b' ' _ (λ cs. refl)

-- The value of the attribute, from the equals sign to the apostrophe that ends it.
Runs-quoted :
    (p : Parser) (n s : Bytes)
    → p.value ≡ []
    → p.quote ≡ false
    → Runs
        (attributing p n)
        ((b'=' ∷ 0x27 ∷ []) ++ (escape s ++ (0x27 ∷ [])))
        (record (add_attribute (valued (attributing p n) s)) {
          state = tag_name_almost_complete;
          quote = false;
        })
unfolding step_in step_attribute step_attribute_equal step_value step_value_end is_whitespace
Runs-quoted p n s hv hq =
    Runs-append
      (Runs-append
        (Runs-byte _ b'=' (record p { state = tag_attribute_equal; attrib = n }) (λ cs. refl))
        (Runs-byte _ 0x27 (valued (attributing p n) []) (λ cs i.
          next
            (record (attributing p n) { state = tag_attribute_value; value = hv i; quote = hq i })
            0)))
      (Runs-append (Runs-value (attributing p n) s []) (Runs-byte _ 0x27 _ (λ cs. refl)))

new_attribute_valid :
    (n s : Bytes)
    → check_valid_xml_chars n ≡ true
    → check_valid_xml_chars s ≡ true
    → new_attribute n s [] ≡ record { owned = false; name = n; value = s; xmlns = []; prefix = [] }
unfolding new_attribute check_valid_xml_chars
new_attribute_valid n s hn hs = rw (hs, hn)

set_attr_prefix_valid :
    (a : Attribute) (x : Bytes)
    → check_valid_xml_chars x ≡ true
    → (set_attr_prefix x a).0 ≡ record a { prefix = x }
unfolding set_attr_prefix
set_attr_prefix_valid a x h = rw h

xmlns_IsName : IsName xmlns_name
unfolding is_plain is_whitespace is_valid_byte
xmlns_IsName = record { not_empty = refl; plain = (refl, (refl, (refl, (refl, (refl, tt))))) }

-- The three forms that a name can have: alone, behind a prefix, and behind "xmlns:".
module _ (p : Parser) (attribs : List Attribute) (m : StringMap) (v : Bytes) (n s : Bytes)
    (hn : IsName n) (hs : check_valid_xml_chars s ≡ true) where
  base : Parser
  base = collected p tag_name_complete attribs m v

  ended : Parser → Parser
  ended q = record (add_attribute (valued (attributing q n) s)) {
    state = tag_name_almost_complete;
    quote = false;
  }

  plain_named : Bytes → Attribute
  plain_named x = record { owned = false; name = n; value = s; xmlns = []; prefix = x }

  made : new_attribute n s [] ≡ plain_named []
  unfolding plain_named
  made = new_attribute_valid n s (ArePlain-valid n hn.plain) hs

  ended_alone :
      ended base
      ≡ collected p tag_name_almost_complete
          (attribs ++ (plain_named [] ∷ []))
          m
          (more_xmlns (plain_named []) v)
  unfolding base ended plain_named add_attribute equal
  ended_alone = rw (← made) (ground arith)

  ended_xmlns :
      ended (record base { attrib_is_xmlns = true })
      ≡ collected p tag_name_almost_complete
          (attribs ++ (plain_named xmlns_name ∷ []))
          (insert n s m)
          v
  unfolding base ended plain_named add_attribute check_valid_xml_chars
  ended_xmlns = rw (set_attr_prefix_valid _ xmlns_name refl, made)

  ended_prefixed :
      (x : Bytes)
      → IsName x
      → equal x xmlns_name ≡ false
      → ended (record base { attrib_prefix = x; have_attrib_prefix = true })
        ≡ collected p tag_name_almost_complete
            (attribs ++ (plain_named x ∷ []))
            (more_xmlnss (plain_named x) m)
            (more_xmlns (plain_named x) v)
  unfolding base ended plain_named add_attribute
  ended_prefixed x hx ne =
      rw (hx.not_empty, ne, set_attr_prefix_valid _ x (ArePlain-valid x hx.plain), made)

  -- From the space to the end of the value, once the name has been read.
  from_name :
      {st : State} (q : Parser) (x : Bytes)
      → IsNamed st
      → q.value ≡ []
      → q.quote ≡ false
      → Runs base x (attributing q n)
      → Runs
          (collected p st attribs m v)
          ((b' ' ∷ []) ++ (x ++ ((b'=' ∷ 0x27 ∷ []) ++ (escape s ++ (0x27 ∷ [])))))
          (ended q)
  unfolding base ended
  from_name q x h hv hq r =
      Runs-append (Runs-space p attribs m v h) (Runs-append r (Runs-quoted q n s hv hq))

  read_alone : Runs base n (attributing base n)
  unfolding base
  read_alone = Runs-attribute_name base n hn

  read_prefixed :
      (x : Bytes)
      → IsName x
      → equal x xmlns_name ≡ false
      → Runs base
          (x ++ (b':' ∷ n))
          (attributing (record base { attrib_prefix = x; have_attrib_prefix = true }) n)
  unfolding base step_in step_attribute step_attribute_colon is_whitespace
  read_prefixed x hx ne = Runs-append (Runs-attribute_name base x hx) (
      Runs-append
        (Runs-byte (attributing base x) b':'
          (attributing (record base { attrib_prefix = x; have_attrib_prefix = true }) [])
          (λ cs. rw ne))
        (Runs-attributing (record base { attrib_prefix = x; have_attrib_prefix = true }) n []
          hn.plain))

  read_xmlns :
      Runs base (xmlns_name ++ (b':' ∷ n)) (attributing (record base { attrib_is_xmlns = true }) n)
  unfolding base step_in step_attribute step_attribute_colon is_whitespace equal is_plain
  read_xmlns = Runs-append (Runs-attribute_name base xmlns_name xmlns_IsName) (
      Runs-append
        (Runs-byte (attributing base xmlns_name) b':'
          (attributing (record base { attrib_is_xmlns = true }) []) (λ cs. refl))
        (Runs-attributing (record base { attrib_is_xmlns = true }) n [] hn.plain))

-- The text of an attribute, cut at its name and at its value.
attribute_xml_lem :
    (a : Attribute)
    → is_empty a.name ≡ false
    → attribute_xml a
      ≡ (b' ' ∷ [])
        ++ (qualified a.prefix a.name ++ ((b'=' ∷ 0x27 ∷ []) ++ (escape a.value ++ (0x27 ∷ []))))
unfolding attribute_xml
attribute_xml_lem a h = rw h (rw append_escaped-escape (simp append_assoc))

-- What is shown of an attribute with the prefix `x`.
abbrev ReadsAttribute :
    Parser → State → List Attribute → StringMap → Bytes → Bytes → Bytes → Bytes → Type 0
ReadsAttribute p st attribs m v n s x =
    let a : Attribute = record { owned = false; name = n; value = s; xmlns = []; prefix = x } in
    Runs (collected p st attribs m v)
      ((b' ' ∷ []) ++ (qualified x n ++ ((b'=' ∷ 0x27 ∷ []) ++ (escape s ++ (0x27 ∷ [])))))
      (collected p tag_name_almost_complete (attribs ++ (a ∷ [])) (more_xmlnss a m)
        (more_xmlns a v))

module _ {st : State} (p : Parser) (attribs : List Attribute) (m : StringMap) (v : Bytes)
    (n s : Bytes) (h : IsNamed st) (hn : IsName n) (hs : check_valid_xml_chars s ≡ true) where
  reads_alone : ReadsAttribute p st attribs m v n s []
  unfolding base ended plain_named qualified equal
  reads_alone = subst (Runs (collected p st attribs m v) _) (ended_alone p attribs m v n s hn hs) (
      from_name p attribs m v n s hn hs (base p attribs m v n s hn hs) n h refl refl
        (read_alone p attribs m v n s hn hs))

  reads_xmlns : ReadsAttribute p st attribs m v n s xmlns_name
  unfolding base ended plain_named qualified equal
  reads_xmlns = subst (Runs (collected p st attribs m v) _) (ended_xmlns p attribs m v n s hn hs) (
      from_name p attribs m v n s hn hs
        (record (base p attribs m v n s hn hs) { attrib_is_xmlns = true })
        (xmlns_name ++ (b':' ∷ n)) h refl refl (read_xmlns p attribs m v n s hn hs))

  reads_prefixed :
      (x : Bytes) → IsName x → equal x xmlns_name ≡ false → ReadsAttribute p st attribs m v n s x
  unfolding base ended plain_named qualified
  reads_prefixed x hx ne = rw (hx.not_empty) (
      subst (Runs (collected p st attribs m v) _) (ended_prefixed p attribs m v n s hn hs x hx ne) (
        from_name p attribs m v n s hn hs
          (record (base p attribs m v n s hn hs) { attrib_prefix = x; have_attrib_prefix = true })
          (x ++ (b':' ∷ n)) h refl refl (read_prefixed p attribs m v n s hn hs x hx ne)))

  reads_attribute : (x : Bytes) → (x ≡ []) ⊎ IsName x → ReadsAttribute p st attribs m v n s x
  reads_attribute x (inl e) = subst (ReadsAttribute p st attribs m v n s) (sym e) reads_alone
  reads_attribute x (inr hx) = elim (Bool-cases (equal x xmlns_name)) [
    | inl same ↦
        subst (ReadsAttribute p st attribs m v n s) (sym ((equal_iff x xmlns_name).0 same))
          reads_xmlns
    | inr other ↦ reads_prefixed x hx other
  ]

pub Runs-attribute :
    {st : State} (p : Parser) (attribs : List Attribute) (m : StringMap) (v : Bytes) (a : Attribute)
    → IsNamed st
    → IsReadable a
    → Runs (collected p st attribs m v) (attribute_xml a) (
        collected p tag_name_almost_complete
          (attribs ++ (plain_attribute a ∷ []))
          (more_xmlnss a m)
          (more_xmlns a v))
Runs-attribute p attribs m v a h r =
    rw (attribute_xml_lem a r.name_ok.not_empty)
      (reads_attribute p attribs m v a.name a.value h r.name_ok r.value_ok a.prefix r.prefix_ok)

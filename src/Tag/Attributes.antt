-- ===== src/Tag/Attributes.antt =====
-- `Tag::Attribute`, and the operations of `Tag` on attributes and namespaces.
-- A namespace is looked up through `m_parent`; `up` holds the heads of the tags above, the
-- nearest first.
use gloox.Base.{
  Bool, true, false, not, ◌&&◌, ◌||◌, List, [], ◌∷◌, ◌++◌, Option, none, some, if◌then◌else◌, Bytes,
  codes, equal, is_empty,
}
use gloox.StringMap.{StringMap, find, insert}
use gloox.Tag.{Attribute, Head}
use gloox.Util.Valid.{check_valid_xml_chars}

-- `XMLNS` of src/gloox.cpp.
abbrev pub xmlns_name : Bytes
xmlns_name = codes "xmlns"

abbrev pub no_attribute : Attribute
no_attribute = record { owned = false; name = []; value = []; xmlns = []; prefix = [] }

-- `Attribute( name, value, xmlns )`: `init` stops at the first text that is refused.
unfoldable pub new_attribute : Bytes → Bytes → Bytes → Attribute
new_attribute name value xmlns =
    if not (check_valid_xml_chars xmlns)
    then no_attribute
    else if not (check_valid_xml_chars value)
    then record no_attribute { xmlns = xmlns }
    else if not (check_valid_xml_chars name)
    then record no_attribute { xmlns = xmlns; value = value }
    else record no_attribute { xmlns = xmlns; value = value; name = name }

unfoldable pub set_value : Bytes → Attribute → Attribute × Bool
set_value value a =
    if not (check_valid_xml_chars value) then (a, false) else (record a { value = value }, true)

unfoldable pub set_attr_xmlns : Bytes → Attribute → Attribute × Bool
set_attr_xmlns xmlns a =
    if not (check_valid_xml_chars xmlns) then (a, false) else (record a { xmlns = xmlns }, true)

unfoldable pub set_attr_prefix : Bytes → Attribute → Attribute × Bool
set_attr_prefix prefix a =
    if not (check_valid_xml_chars prefix) then (a, false) else (record a { prefix = prefix }, true)

unfoldable pub find_named : Bytes → List Attribute → Option Attribute
find_named name [] = none
find_named name (a ∷ rest) = if equal a.name name then some a else find_named name rest

-- The list, empty where `m_attribs` is null.
abbrev pub attributes : Head → List Attribute
attributes h = elim h.attribs [ none ↦ [] | some rest ↦ rest ]

abbrev value_of : Option Attribute → Bytes
value_of none = []
value_of (some a) = a.value

abbrev value_fits : Bytes → Option Attribute → Bool
value_fits value none = false
value_fits value (some a) = is_empty value || equal a.value value

-- `Tag::findAttribute`.
unfoldable pub find_attribute : Bytes → Head → Bytes
find_attribute name h = value_of (find_named name (attributes h))

-- `Tag::hasAttribute`.
unfoldable pub has_attribute : Bytes → Bytes → Head → Bool
has_attribute name value h =
    if is_empty name then false else value_fits value (find_named name (attributes h))

-- `Tag::xmlns( prefix )` of the tag `h` below the tags `up`.
abbrev default_xmlns : Head → Bytes
default_xmlns h = if has_attribute xmlns_name [] h then find_attribute xmlns_name h else h.xmlns

unfoldable pub xmlns_of : Bytes → Head → List Head → Bytes
xmlns_of prefix h [] =
    if is_empty prefix
    then default_xmlns h
    else elim (find prefix h.xmlnss) [ some v ↦ v | none ↦ [] ]
xmlns_of prefix h (g ∷ up) =
    let above = xmlns_of prefix g up in
    if is_empty prefix
    then default_xmlns h
    else elim (find prefix h.xmlnss) [ some v ↦ v | none ↦ above ]

-- `Tag::xmlns()`.
abbrev pub tag_xmlns : Head → List Head → Bytes
tag_xmlns h up = xmlns_of h.prefix h up

-- The loop of `Tag::prefix( xmlns )`.
unfoldable pub key_of : Bytes → StringMap → Bytes
key_of xmlns [] = []
key_of xmlns ((k, v) ∷ m) = if equal v xmlns then k else key_of xmlns m

unfoldable pub prefix_of : Bytes → Head → Bytes
unfolding key_of
prefix_of xmlns h = if is_empty xmlns then [] else key_of xmlns h.xmlnss

-- `Attribute::xmlns()` and `Attribute::prefix()`.
unfoldable pub attr_xmlns : Head → List Head → Attribute → Bytes
attr_xmlns h up a =
    if not (is_empty a.xmlns) then a.xmlns else if a.owned then xmlns_of a.prefix h up else []

unfoldable pub attr_prefix : Head → Attribute → Bytes
attr_prefix h a =
    if not (is_empty a.prefix) then a.prefix else if a.owned then prefix_of a.xmlns h else []

-- The test of `Tag::addAttribute` for an attribute that the new one replaces.
unfoldable pub replaces : Head → List Head → Attribute → Attribute → Bool
replaces h up new old =
    equal old.name new.name
    && (equal (attr_xmlns h up old) (attr_xmlns h up new)
        || equal (attr_prefix h old) (attr_prefix h new))

unfoldable pub put : Head → List Head → Attribute → List Attribute → List Attribute
put h up new [] = new ∷ []
put h up new (a ∷ rest) = if replaces h up new a then new ∷ rest else a ∷ put h up new rest

-- `Tag::addAttribute( attr )`; an attribute with no name is deleted.
unfoldable pub add_attribute : Head → List Head → Attribute → Head × Bool
add_attribute h up new =
    if is_empty new.name
    then (h, false)
    else (record h { attribs = some (put h up new (attributes h)) }, true)

-- `Tag::addAttribute( name, value )`.
unfoldable pub add_attribute_value : Head → List Head → Bytes → Bytes → Head × Bool
unfolding add_attribute
add_attribute_value h up name value =
    if is_empty name || is_empty value
    then (h, false)
    else add_attribute h up (new_attribute name value [])

-- `Tag::setAttributes`: the list is taken over, and each entry gets `m_parent`.
unfoldable pub own : List Attribute → List Attribute
own [] = []
own (a ∷ rest) = record a { owned = true } ∷ own rest

unfoldable pub set_attributes : List Attribute → Head → Head
unfolding own
set_attributes rest h = record h { attribs = some (own rest) }

-- `Tag::setXmlns( xmlns, prefix )`.
unfoldable pub set_xmlns : Head → List Head → Bytes → Bytes → Head × Bool
unfolding add_attribute_value
set_xmlns h up xmlns prefix =
    if not (check_valid_xml_chars xmlns) || not (check_valid_xml_chars prefix)
    then (h, false)
    else if is_empty prefix
    then add_attribute_value (record h { xmlns = xmlns }) up xmlns_name xmlns
    else add_attribute_value (record h { xmlnss = insert prefix xmlns h.xmlnss }) up
        (xmlns_name ++ (b':' ∷ prefix)) xmlns

-- `Tag::removeAttribute`: the loop drops every attribute that fits.
removable : Head → List Head → Bytes → Bytes → Bytes → Attribute → Bool
removable h up name value xmlns a =
    equal a.name name
    && (is_empty value || equal a.value value)
    && (is_empty xmlns || equal (attr_xmlns h up a) xmlns)

-- `done` is what the loop has kept so far; it stands in the list that the namespaces are read from.
unfoldable pub remove_loop :
    Head → List Head → Bytes → Bytes → Bytes → List Attribute → List Attribute → List Attribute
unfolding removable
remove_loop h up name value xmlns done [] = done
remove_loop h up name value xmlns done (a ∷ rest) =
    remove_loop h up name value xmlns
      (if removable (record h { attribs = some (done ++ (a ∷ rest)) }) up name value xmlns a
        then done
        else done ++ (a ∷ []))
      rest

unfoldable pub remove_attribute : Head → List Head → Bytes → Bytes → Bytes → Head
unfolding remove_loop
remove_attribute h up name value xmlns = if is_empty name then h else elim h.attribs [
  | none ↦ h
  | some rest ↦ record h { attribs = some (remove_loop h up name value xmlns [] rest) }
]

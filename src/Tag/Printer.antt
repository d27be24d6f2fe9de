-- ===== src/Tag/Printer.antt =====
-- `Tag::xml` and `Attribute::xml`.
use gloox.Base.{Bool, true, false, List, [], ◌∷◌, ◌++◌, if◌then◌else◌, Bytes, is_empty}
use gloox.Tag.Attributes.{attributes}
use gloox.Tag.{Attribute, Head, Tag, tag, Nodes, nil, child, text}
use gloox.Util.Escape.{append_escaped}

-- `prefix:name`, or the name alone.
unfoldable pub qualified : Bytes → Bytes → Bytes
qualified prefix name = if is_empty prefix then name else prefix ++ (b':' ∷ name)

unfoldable pub attribute_xml : Attribute → Bytes
unfolding qualified
attribute_xml a =
    if is_empty a.name
    then []
    else append_escaped ((b' ' ∷ qualified a.prefix a.name) ++ (b'=' ∷ 0x27 ∷ [])) a.value
      ++ (0x27 ∷ [])

unfoldable pub attributes_xml : List Attribute → Bytes
unfolding attribute_xml
attributes_xml [] = []
attributes_xml (a ∷ rest) = attribute_xml a ++ attributes_xml rest

abbrev no_nodes : Nodes → Bool
no_nodes nil = true
no_nodes (child t ns) = false
no_nodes (text s ns) = false

-- What stands around the nodes.
unfoldable pub open_xml : Head → Bytes
unfolding qualified attributes_xml
open_xml h = b'<' ∷ (qualified h.prefix h.name ++ attributes_xml (attributes h))

unfoldable pub close_xml : Head → Bytes
unfolding qualified
close_xml h = b'<' ∷ b'/' ∷ (qualified h.prefix h.name ++ (b'>' ∷ []))

-- A tag with no name has no text, and a tag with no nodes is closed at once.
unfoldable pub around : Head → Nodes → Bytes → Bytes
unfolding open_xml close_xml
around h ns inner =
    if is_empty h.name
    then []
    else if no_nodes ns
    then open_xml h ++ (b'/' ∷ b'>' ∷ [])
    else open_xml h ++ (b'>' ∷ (inner ++ close_xml h))

unfoldable mutual
  unfolding around

  pub xml : Tag → Bytes
  xml (tag h ns) = around h ns (nodes_xml ns)

  pub nodes_xml : Nodes → Bytes
  nodes_xml nil = []
  nodes_xml (child t ns) = xml t ++ nodes_xml ns
  nodes_xml (text s ns) = append_escaped [] s ++ nodes_xml ns

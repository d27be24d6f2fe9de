-- ===== src/Tag.antt =====
-- The data of src/tag.h, and the constructors, tests and small accessors of class `Tag`.
-- A `Tag` is a `Head`, which holds all that is not a child, and its nodes in document order.
-- `m_children` and `m_cdata` repeat the `TypeTag` and the `TypeString` entries of `m_nodes`;
-- here they are read off the nodes, and `has_children` and `has_cdata` tell whether the source's
-- pointer has been set. `m_xmlnss` is null where the map here is empty.
pub mod Replaced
pub mod Added
pub mod Attributes
pub mod Children
pub mod Equality
pub mod Printer
pub mod Agreement
pub mod Removal
pub mod Tests
use gloox.Base.{
  Bool, true, false, not, List, [], ◌∷◌, ◌++◌, Option, none, some, if◌then◌else◌, Bytes, is_empty,
}
use gloox.StringMap.{StringMap}
use gloox.Util.Valid.{check_valid_xml_chars}

-- `Tag::Attribute`. `owned` says that `m_parent` is set, to the tag that holds the attribute.
pub record Attribute : Type 0 where
  pub owned : Bool
  pub name : Bytes
  pub value : Bytes
  pub xmlns : Bytes
  pub prefix : Bytes

pub record Head : Type 0 where
  pub name : Bytes
  pub xmlns : Bytes
  pub xmlnss : StringMap
  pub prefix : Bytes
  pub attribs : Option (List Attribute)
  pub has_children : Bool
  pub has_cdata : Bool

mutual
  pub data Tag : Type 0 where
    tag : Head → Nodes → Tag

  -- `NodeList`, with `TypeTag` and `TypeString`.
  pub data Nodes : Type 0 where
    nil : Nodes
    child : Tag → Nodes → Nodes
    text : Bytes → Nodes → Nodes

abbrev pub head : Tag → Head
head (tag h ns) = h

abbrev pub nodes : Tag → Nodes
nodes (tag h ns) = ns

-- `push_back` on the list of nodes.
unfoldable pub append : Nodes → Nodes → Nodes
append nil ms = ms
append (child t ns) ms = child t (append ns ms)
append (text s ns) ms = text s (append ns ms)

abbrev pub no_head : Head
no_head = record {
  name = [];
  xmlns = [];
  xmlnss = [];
  prefix = [];
  attribs = none;
  has_children = false;
  has_cdata = false;
}

-- `Tag::addCData`, on the head and the nodes of a tag.
unfoldable pub add_cdata : Bytes → Tag → Tag × Bool
add_cdata s (tag h ns) =
    if is_empty s
    then (tag h ns, false)
    else if not (check_valid_xml_chars s)
    then (tag h ns, false)
    else (tag (record h { has_cdata = true }) (append ns (text s nil)), true)

-- `m_name = name` behind the check, as the constructors have it.
abbrev pub set_name : Bytes → Tag → Tag
set_name name (tag h ns) =
    if check_valid_xml_chars name then tag (record h { name = name }) ns else tag h ns

-- `Tag( name, cdata )`.
unfoldable pub new_tag : Bytes → Bytes → Tag
unfolding add_cdata
new_tag name cdata = set_name name (add_cdata cdata (tag no_head nil)).0

-- `Tag::setPrefix`.
unfoldable pub set_prefix : Bytes → Head → Head × Bool
set_prefix prefix h =
    if check_valid_xml_chars prefix then (record h { prefix = prefix }, true) else (h, false)

-- `Tag::addChild` with a child that is not null.
unfoldable pub add_child : Tag → Tag → Tag
add_child c (tag h ns) = tag (record h { has_children = true }) (append ns (child c nil))

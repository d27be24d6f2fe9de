-- ===== src/Tag/Children.antt =====
-- The operations of `Tag` on its child tags and its character data.
-- A child that the source finds by its address is found here by its place among the nodes.
use gloox.Base.{
  ℕ, zero, suc, Bool, true, false, not, ◌&&◌, ◌||◌, List, [], ◌∷◌, ◌++◌, Option, none, some,
  if◌then◌else◌, Bytes, equal, is_empty,
}
use gloox.Tag.Attributes.{has_attribute, tag_xmlns}
use gloox.Tag.{Head, Tag, tag, Nodes, nil, child, text, head, nodes, add_cdata}
use gloox.Util.Valid.{check_valid_xml_chars}

-- `m_children` and `m_cdata`, in order.
unfoldable pub children : Nodes → List Tag
children nil = []
children (child t ns) = t ∷ children ns
children (text s ns) = children ns

unfoldable pub cdata : Nodes → Bytes
cdata nil = []
cdata (child t ns) = cdata ns
cdata (text s ns) = s ++ cdata ns

-- The first tag of a list that passes a test.
unfoldable pub first : (Tag → Bool) → List Tag → Option Tag
first p [] = none
first p (t ∷ ts) = if p t then some t else first p ts

-- `Tag::findChild( name )`.
unfoldable pub find_child : Bytes → Tag → Option Tag
unfolding first
find_child name (tag h ns) = first (λ t. equal (head t).name name) (children ns)

-- `Tag::findChild( name, attr, value )`.
unfoldable pub find_child_with : Bytes → Bytes → Bytes → Tag → Option Tag
unfolding first
find_child_with name attr value (tag h ns) =
    if is_empty name
    then none
    else first (λ t. equal (head t).name name && has_attribute attr value (head t)) (children ns)

abbrev is_some : Option Tag → Bool
is_some none = false
is_some (some t) = true

-- `Tag::hasChild`.
unfoldable pub has_child : Bytes → Bytes → Bytes → Tag → Bool
unfolding find_child find_child_with
has_child name attr value t =
    if is_empty attr
    then is_some (find_child name t)
    else is_some (find_child_with name attr value t)

-- `Tag::findChildWithAttrib`.
unfoldable pub find_child_with_attrib : Bytes → Bytes → Tag → Option Tag
unfolding first
find_child_with_attrib attr value (tag h ns) =
    if is_empty attr then none else first (λ t. has_attribute attr value (head t)) (children ns)

-- `Tag::hasChildWithCData`.
unfoldable pub has_child_with_cdata : Bytes → Bytes → Tag → Bool
unfolding first
has_child_with_cdata name data' (tag h ns) =
    if is_empty name || is_empty data'
    then false
    else is_some
        (first (λ t. equal (head t).name name && equal (cdata (nodes t)) data') (children ns))

-- The test of `Tag::findChildren`; the children stand below `h` and the tags `up`.
unfoldable pub selects : Bytes → Bytes → List Head → Tag → Bool
selects name xmlns up t =
    equal (head t).name name && (is_empty xmlns || equal (tag_xmlns (head t) up) xmlns)

unfoldable pub keep : (Tag → Bool) → List Tag → List Tag
keep p [] = []
keep p (t ∷ ts) = if p t then t ∷ keep p ts else keep p ts

unfoldable pub find_children : Bytes → Bytes → List Head → Tag → List Tag
unfolding keep
find_children name xmlns up (tag h ns) = keep (selects name xmlns (h ∷ up)) (children ns)

-- `Tag::removeChild( name, xmlns )`: every child that `findChildren` gives leaves both lists.
unfoldable pub drop_children : (Tag → Bool) → Nodes → Nodes
drop_children p nil = nil
drop_children p (child t ns) = if p t then drop_children p ns else child t (drop_children p ns)
drop_children p (text s ns) = text s (drop_children p ns)

unfoldable pub remove_child : Bytes → Bytes → List Head → Tag → Tag
unfolding drop_children
remove_child name xmlns up (tag h ns) =
    if is_empty name then tag h ns else tag h (drop_children (selects name xmlns (h ∷ up)) ns)

-- `Tag::removeChild( tag )` for the child at place `n` among the children.
unfoldable pub remove_nth : ℕ → Nodes → Nodes
remove_nth n nil = nil
remove_nth zero (child t ns) = ns
remove_nth (suc n) (child t ns) = child t (remove_nth n ns)
remove_nth n (text s ns) = text s (remove_nth n ns)

-- `Tag::setCData`.
unfoldable pub drop_text : Nodes → Nodes
drop_text nil = nil
drop_text (child t ns) = child t (drop_text ns)
drop_text (text s ns) = drop_text ns

unfoldable pub set_cdata : Bytes → Tag → Tag × Bool
unfolding drop_text
set_cdata s (tag h ns) =
    if is_empty s
    then (tag h ns, false)
    else if not (check_valid_xml_chars s)
    then (tag h ns, false)
    else add_cdata s (tag (record h { has_cdata = true }) (drop_text ns))

-- ===== src/Privacy.antt =====
-- Privacy lists: src/privacyitem.h and class `PrivacyManager::Query` of src/privacymanager.cpp, to a tag
-- and from one.
pub mod Attributes
pub mod Items
pub mod RoundTrip
pub mod Tests
use Prim.Native.Nat.{bit_and, bit_or}
use gloox.Base.{
  ℕ, suc, ◌+◌, Bool, true, false, not, List, [], ◌∷◌, ◌++◌, Option, none, some, if◌then◌else◌,
  Bytes, codes, equal, is_empty, ◌==◌, map,
}
use gloox.Base.Int.{ℤ, pos}
use gloox.Tag.{Tag, tag, nil, Head, head, nodes, new_tag, add_child}
use gloox.Tag.Attributes.{add_attribute_value, find_attribute, set_xmlns}
use gloox.Tag.Children.{children}
use gloox.Util.Numbers.{long2string}

-- `PrivacyItem::ItemType` and `PrivacyItem::ItemAction`.
pub data ItemType : Type 0 where
  type_undefined type_jid type_group type_subscription : ItemType

pub data ItemAction : Type 0 where
  action_allow action_deny : ItemAction

-- `packet_type` has the bits 1 for messages, 2 and 4 for incoming and outgoing presences, 8 for IQs.
pub record PrivacyItem : Type 0 where
  pub type_of : ItemType
  pub action : ItemAction
  pub packet_type : ℕ
  pub value : Bytes

-- `PrivacyManager::IdType`.
pub data IdType : Type 0 where
  pl_request_names pl_request_list pl_activate pl_default pl_unset_activate pl_unset_default
        pl_remove pl_store :
      IdType

pub record Query : Type 0 where
  pub default_list : Bytes
  pub active : Bytes
  pub names : List Bytes
  pub items : List PrivacyItem

abbrev empty_query : Query
empty_query = record { default_list = []; active = []; names = []; items = [] }

abbrev pub xmlns_privacy : Bytes
xmlns_privacy = codes "jabber:iq:privacy"

-- `addAttribute` on a tag below the tags `up`.
unfoldable pub with_attribute : List Head → Bytes → Bytes → Tag → Tag
with_attribute up name value (tag h ns) = tag (add_attribute_value h up name value).0 ns

abbrev pub with_type : List Head → ItemType → Tag → Tag
with_type up type_undefined t = t
with_type up type_jid t = with_attribute up (codes "type") (codes "jid") t
with_type up type_group t = with_attribute up (codes "type") (codes "group") t
with_type up type_subscription t = with_attribute up (codes "type") (codes "subscription") t

abbrev pub action_text : ItemAction → Bytes
action_text action_allow = codes "allow"
action_text action_deny = codes "deny"

-- `if( pType & bit ) new Tag( i, name );`
unfoldable pub with_packet : ℕ → ℕ → Bytes → Tag → Tag
with_packet packet_type bit name t =
    if bit_and packet_type bit == 0 then t else add_child (new_tag name []) t

unfoldable pub with_packets : ℕ → Tag → Tag
with_packets p t =
    if p == 15
    then t
    else with_packet p 8 (codes "iq") (
        with_packet p 4 (codes "presence-out")
          (with_packet p 2 (codes "presence-in") (with_packet p 1 (codes "message") t)))

-- The tag of an item, the `count`th, below the tags `up`.
unfoldable pub item_tag : List Head → ℕ → PrivacyItem → Tag
item_tag up count i = with_attribute up (codes "order") (long2string (pos count)) (
    with_attribute up (codes "value") i.value (
      with_packets i.packet_type (
        with_attribute up (codes "action") (action_text i.action)
          (with_type up i.type_of (new_tag (codes "item") [])))))

-- The loop over the items, each a child of `c`.
unfoldable pub with_items : List Head → ℕ → List PrivacyItem → Tag → Tag
with_items up count [] c = c
with_items up count (i ∷ is) c =
    with_items up (suc count) is
      (add_child (item_tag (record (head c) { has_children = true } ∷ up) (suc count) i) c)

abbrev pub child_name : IdType → Option Bytes
child_name pl_request_names = none
child_name pl_request_list = some (codes "list")
child_name pl_activate = some (codes "active")
child_name pl_default = some (codes "default")
child_name pl_unset_activate = some (codes "active")
child_name pl_unset_default = some (codes "default")
child_name pl_remove = some (codes "list")
child_name pl_store = some (codes "list")

abbrev pub with_name : List Head → List Bytes → Tag → Tag
with_name up [] c = c
with_name up (name ∷ names) c = with_attribute up (codes "name") name c

abbrev pub query_head : Head
unfolding set_xmlns
query_head = (set_xmlns (head (new_tag (codes "query") [])) [] xmlns_privacy []).0

abbrev pub with_child : Option Bytes → Query → Tag → Tag
with_child none q t = t
with_child (some name) q t =
    let up = record (head t) { has_children = true } ∷ [] in
    add_child (with_items up 0 q.items (with_name up q.names (new_tag name []))) t

-- `Query( context, name, list )` and its `tag()`.
unfoldable pub query_tag : IdType → Bytes → List PrivacyItem → Tag
query_tag context name items =
    with_child (child_name context) (record empty_query { names = name ∷ []; items = items })
      (tag query_head nil)

abbrev pub read_type : Bytes → ItemType
read_type t =
    if equal t (codes "jid")
    then type_jid
    else if equal t (codes "group")
    then type_group
    else if equal t (codes "subscription")
    then type_subscription
    else type_undefined

abbrev pub read_action : Bytes → ItemAction
read_action a =
    if equal a (codes "allow")
    then action_allow
    else if equal a (codes "deny")
    then action_deny
    else action_allow

abbrev pub packet_bit : Bytes → ℕ
packet_bit name =
    if equal name (codes "iq")
    then 8
    else if equal name (codes "presence-out")
    then 4
    else if equal name (codes "presence-in")
    then 2
    else if equal name (codes "message")
    then 1
    else 0

unfoldable pub read_packets : ℕ → List Tag → ℕ
read_packets p [] = p
read_packets p (t ∷ ts) = read_packets (bit_or p (packet_bit (head t).name)) ts

unfoldable pub read_item : Tag → PrivacyItem
read_item t = record {
  type_of = read_type (find_attribute (codes "type") (head t));
  action = read_action (find_attribute (codes "action") (head t));
  packet_type = read_packets 0 (children (nodes t));
  value = find_attribute (codes "value") (head t);
}

-- The body of the loop over the children.
unfoldable pub read_child : Query → Tag → Query
read_child q t =
    let name = find_attribute (codes "name") (head t) in
    if equal (head t).name (codes "default")
    then record q { default_list = name }
    else if equal (head t).name (codes "active")
    then record q { active = name }
    else if equal (head t).name (codes "list")
    then record q {
      names = q.names ++ (name ∷ []);
      items = q.items ++ map read_item (children (nodes t));
    }
    else q

unfoldable pub read_children : Query → List Tag → Query
read_children q [] = q
read_children q (t ∷ ts) = read_children (read_child q t) ts

-- `Query( tag )`.
unfoldable pub read_query : Tag → Query
read_query t = read_children empty_query (children (nodes t))

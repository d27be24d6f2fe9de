-- ===== src/Privacy/Items.antt =====
-- The tag of an item is read back as the item.
use gloox.Base.{
  ℕ, ◌<◌, ◌≡◌, refl, ap, ap₂, ◌∙◌, true, false, List, Bytes, codes, equal, ◌==◌, ==_iff, all_below,
  all_below_sound,
}
use gloox.Base.Int.{pos}
use gloox.Tag.{Tag, tag, nil, Nodes, Head, head, nodes, new_tag, add_child, append}
use gloox.Tag.Added.{AllPlain}
use gloox.Tag.Attributes.{find_attribute}
use gloox.Tag.Children.{children}
use gloox.Util.Valid.{check_valid_xml_chars}
use gloox.Util.Numbers.{long2string}
use gloox.Privacy.{
  PrivacyItem, ItemType, ItemAction, type_undefined, type_jid, type_group, type_subscription,
  action_allow, action_deny, with_attribute, with_type, with_packet, with_packets, action_text,
  item_tag, read_item, read_packets, read_type, read_action,
}
use gloox.Privacy.Attributes.{
  with_packets-SameAttributes, with_attribute-AllPlain, with_attribute_other, type-IsName,
  action-IsName, value-IsName, order-IsName, bare-AllPlain, find-bare, with_type-AllPlain,
  find-with_type, bare, SameAttributes, with_attribute_new, nodes-with_attribute,
}

read_type_lem :
    (up : List Head) (y : ItemType)
    → read_type (find_attribute (codes "type") (head (with_type up y bare))) ≡ y
unfolding check_valid_xml_chars equal
read_type_lem up type_undefined = ap read_type (find-bare (codes "type"))
read_type_lem up type_jid = ap read_type (
    with_attribute_new up (codes "type") (codes "jid") bare type-IsName bare-AllPlain refl
      (find-bare (codes "type")))
read_type_lem up type_group = ap read_type (
    with_attribute_new up (codes "type") (codes "group") bare type-IsName bare-AllPlain refl
      (find-bare (codes "type")))
read_type_lem up type_subscription = ap read_type (
    with_attribute_new up (codes "type") (codes "subscription") bare type-IsName bare-AllPlain refl
      (find-bare (codes "type")))

read_action_lem :
    (a : ItemAction)
    → (read_action (action_text a) ≡ a) × (check_valid_xml_chars (action_text a) ≡ true)
unfolding equal check_valid_xml_chars
read_action_lem action_allow = (refl, refl)
read_action_lem action_deny = (refl, refl)

-- All sets of packets but that of all.
packets_table :
    (h : Head)
    → all_below 15 (λ p. read_packets 0 (children (nodes (with_packets p (tag h nil)))) == p) ≡ true
unfolding all_below read_packets with_packets with_packet children add_child append new_tag
    check_valid_xml_chars equal
packets_table h = refl

read_packets-with_packets :
    (h : Head) (p : ℕ) → p < 15 → read_packets 0 (children (nodes (with_packets p (tag h nil)))) ≡ p
read_packets-with_packets h p l = (==_iff _ p).0 (
    all_below_sound 15 (λ p. read_packets 0 (children (nodes (with_packets p (tag h nil)))) == p) p
      (packets_table h) l)

nodes-with_type : (up : List Head) (y : ItemType) → nodes (with_type up y bare) ≡ nil
unfolding new_tag with_attribute check_valid_xml_chars
nodes-with_type up type_undefined = refl
nodes-with_type up type_jid = refl
nodes-with_type up type_group = refl
nodes-with_type up type_subscription = refl

tag_eta : (t : Tag) → t ≡ tag (head t) (nodes t)
tag_eta (tag h ns) = refl

abbrev item : ItemType → ItemAction → ℕ → Bytes → PrivacyItem
item y a p v = record { type_of = y; action = a; packet_type = p; value = v }

ap-item :
    {y y2 : ItemType} {a a2 : ItemAction} {p p2 : ℕ} {v v2 : Bytes}
    → y ≡ y2
    → a ≡ a2
    → p ≡ p2
    → v ≡ v2
    → item y a p v ≡ item y2 a2 p2 v2
ap-item {y2 = y2} {a2 = a2} {p = p} {v = v} e f g h =
    ap₂ (λ (y : ItemType) (a : ItemAction). item y a p v) e f ∙ ap₂ (item y2 a2) g h

module _ (up : List Head) (count : ℕ) (i : PrivacyItem) (l : i.packet_type < 15)
    (v : check_valid_xml_chars i.value ≡ true) where
  typed : Tag
  typed = with_type up i.type_of bare

  acted : Tag
  acted = with_attribute up (codes "action") (action_text i.action) typed

  packed : Tag
  packed = with_packets i.packet_type acted

  valued : Tag
  valued = with_attribute up (codes "value") i.value packed

  acted-AllPlain : AllPlain (head acted)
  unfolding acted typed
  acted-AllPlain =
      with_attribute-AllPlain up (codes "action") (action_text i.action) _
        (with_type-AllPlain up i.type_of)

  packed-SameAttributes : SameAttributes acted packed
  unfolding packed
  packed-SameAttributes = with_packets-SameAttributes i.packet_type acted

  packed-AllPlain : AllPlain (head packed)
  packed-AllPlain = packed-SameAttributes.plain acted-AllPlain

  valued-AllPlain : AllPlain (head valued)
  unfolding valued
  valued-AllPlain = with_attribute-AllPlain up (codes "value") i.value packed packed-AllPlain

  order_text : Bytes
  order_text = long2string (pos count)

  -- Names that are not touched by the value and the order.
  find-outer :
      (k : Bytes)
      → equal (codes "value") k ≡ false
      → equal (codes "order") k ≡ false
      → find_attribute k (head (with_attribute up (codes "order") order_text valued))
        ≡ find_attribute k (head acted)
  unfolding valued
  find-outer k e f =
      with_attribute_other up (codes "order") order_text k valued order-IsName valued-AllPlain f
      ∙ with_attribute_other up (codes "value") i.value k packed value-IsName packed-AllPlain e
      ∙ packed-SameAttributes.found k

  find-type :
      read_type
        (find_attribute (codes "type") (head (with_attribute up (codes "order") order_text valued)))
      ≡ i.type_of
  unfolding acted typed equal
  find-type =
      ap read_type (
        find-outer (codes "type") refl refl
        ∙ with_attribute_other up (codes "action") (action_text i.action) (codes "type") typed
            action-IsName (with_type-AllPlain up i.type_of) refl)
      ∙ read_type_lem up i.type_of

  find-action :
      read_action (
        find_attribute
          (codes "action")
          (head (with_attribute up (codes "order") order_text valued)))
      ≡ i.action
  unfolding acted typed equal
  find-action =
      ap read_action (
        find-outer (codes "action") refl refl
        ∙ with_attribute_new up (codes "action") (action_text i.action) typed action-IsName
            (with_type-AllPlain up i.type_of) (read_action_lem i.action).1
            (find-with_type up i.type_of (codes "action") refl))
      ∙ (read_action_lem i.action).0

  find-value :
      find_attribute (codes "value") (head (with_attribute up (codes "order") order_text valued))
      ≡ i.value
  unfolding valued acted typed equal
  find-value =
      with_attribute_other up (codes "order") order_text (codes "value") valued order-IsName
        valued-AllPlain refl
      ∙ with_attribute_new up (codes "value") i.value packed value-IsName packed-AllPlain v (
          packed-SameAttributes.found (codes "value")
          ∙ with_attribute_other up (codes "action") (action_text i.action) (codes "value") typed
              action-IsName (with_type-AllPlain up i.type_of) refl
          ∙ find-with_type up i.type_of (codes "value") refl)

  nodes-acted : nodes acted ≡ nil
  unfolding acted typed
  nodes-acted =
      nodes-with_attribute up (codes "action") (action_text i.action) typed
      ∙ nodes-with_type up i.type_of

  nodes-item : nodes (with_attribute up (codes "order") order_text valued) ≡ nodes packed
  unfolding valued
  nodes-item =
      nodes-with_attribute up (codes "order") order_text valued
      ∙ nodes-with_attribute up (codes "value") i.value packed

  read-packets :
      read_packets 0 (children (nodes (with_attribute up (codes "order") order_text valued)))
      ≡ i.packet_type
  unfolding packed
  read-packets =
      ap (λ (ns : Nodes). read_packets 0 (children ns)) nodes-item
      ∙ ap (λ (t : Tag). read_packets 0 (children (nodes (with_packets i.packet_type t))))
          (tag_eta acted ∙ ap (tag (head acted)) nodes-acted)
      ∙ read_packets-with_packets (head acted) i.packet_type l

  -- The tag of an item, at any place, is read back as the item, if it is not for all packets at once.
  pub read_item-item_tag : read_item (item_tag up count i) ≡ i
  unfolding read_item item_tag valued packed acted typed order_text
  read_item-item_tag = ap-item find-type find-action read-packets find-value

-- ===== src/Privacy/Attributes.antt =====
-- What the steps that build the tag of an item do to its attributes.
use Prim.Native.Nat.{bit_and}
use gloox.Base.{
  ℕ, ◌≡◌, refl, ◌∙◌, true, false, List, [], Bytes, codes, equal, is_empty, ◌==◌, Bool-cases, inl,
  inr,
}
use gloox.Tag.{Tag, tag, Head, head, nodes, new_tag, add_child}
use gloox.Tag.Added.{
  AllPlain, add_attribute_value-AllPlain, find_attribute-add_other, find_attribute-add_new,
}
use gloox.Tag.Attributes.{add_attribute_value, find_attribute, find_named}
use gloox.Util.Valid.{check_valid_xml_chars}
use gloox.Privacy.{
  ItemType, type_undefined, type_jid, type_group, type_subscription, with_attribute, with_type,
  with_packet, with_packets,
}

-- The tags with the same attributes.
pub record SameAttributes (t u : Tag) : Type 0 where
  pub plain : AllPlain (head t) → AllPlain (head u)
  pub found : (k : Bytes) → find_attribute k (head u) ≡ find_attribute k (head t)

SameAttributes-trans : {t u v : Tag} → SameAttributes t u → SameAttributes u v → SameAttributes t v
SameAttributes-trans a b = record {
  plain = λ p. b.plain (a.plain p);
  found = λ k. b.found k ∙ a.found k;
}

add_child-SameAttributes : (c t : Tag) → SameAttributes t (add_child c t)
unfolding add_child find_attribute
add_child-SameAttributes c (tag h ns) = record { plain = λ p. p; found = λ k. refl }

with_packet-SameAttributes :
    (p b : ℕ) (name : Bytes) (t : Tag) → SameAttributes t (with_packet p b name t)
unfolding with_packet
with_packet-SameAttributes p b name t = elim (Bool-cases (bit_and p b == 0)) [
  | inl e ↦ rw e (record { plain = λ p. p; found = λ k. refl })
  | inr e ↦ rw e (add_child-SameAttributes (new_tag name []) t)
]

pub with_packets-SameAttributes : (p : ℕ) (t : Tag) → SameAttributes t (with_packets p t)
unfolding with_packets
with_packets-SameAttributes p t = elim (Bool-cases (p == 15)) [
  | inl e ↦ rw e (record { plain = λ p. p; found = λ k. refl })
  | inr e ↦ rw e (
      SameAttributes-trans
        (SameAttributes-trans (with_packet-SameAttributes p 1 (codes "message") t)
          (with_packet-SameAttributes p 2 (codes "presence-in") _))
        (SameAttributes-trans (with_packet-SameAttributes p 4 (codes "presence-out") _)
          (with_packet-SameAttributes p 8 (codes "iq") _)))
]

pub head-with_attribute :
    (up : List Head) (name value : Bytes) (t : Tag)
    → head (with_attribute up name value t) ≡ (add_attribute_value (head t) up name value).0
unfolding with_attribute
head-with_attribute up name value (tag h ns) = refl

pub nodes-with_attribute :
    (up : List Head) (name value : Bytes) (t : Tag)
    → nodes (with_attribute up name value t) ≡ nodes t
unfolding with_attribute
nodes-with_attribute up name value (tag h ns) = refl

pub with_attribute-AllPlain :
    (up : List Head) (name value : Bytes) (t : Tag)
    → AllPlain (head t)
    → AllPlain (head (with_attribute up name value t))
unfolding with_attribute
with_attribute-AllPlain up name value (tag h ns) p = add_attribute_value-AllPlain h up name value p

-- A name that is valid and not empty.
abbrev pub IsName : Bytes → Type 0
IsName name = (check_valid_xml_chars name ≡ true) × (is_empty name ≡ false)

pub with_attribute_other :
    (up : List Head) (name value k : Bytes) (t : Tag)
    → IsName name
    → AllPlain (head t)
    → equal name k ≡ false
    → find_attribute k (head (with_attribute up name value t)) ≡ find_attribute k (head t)
unfolding with_attribute
with_attribute_other up name value k (tag h ns) n p q =
    find_attribute-add_other h up name value k p n.0 n.1 q

pub with_attribute_new :
    (up : List Head) (name value : Bytes) (t : Tag)
    → IsName name
    → AllPlain (head t)
    → check_valid_xml_chars value ≡ true
    → find_attribute name (head t) ≡ []
    → find_attribute name (head (with_attribute up name value t)) ≡ value
unfolding with_attribute
with_attribute_new up name value (tag h ns) n p v q =
    find_attribute-add_new h up name value p n.0 v n.1 q

pub type-IsName : IsName (codes "type")
unfolding check_valid_xml_chars
type-IsName = (refl, refl)

pub action-IsName : IsName (codes "action")
unfolding check_valid_xml_chars
action-IsName = (refl, refl)

pub value-IsName : IsName (codes "value")
unfolding check_valid_xml_chars
value-IsName = (refl, refl)

pub order-IsName : IsName (codes "order")
unfolding check_valid_xml_chars
order-IsName = (refl, refl)

abbrev pub bare : Tag
bare = new_tag (codes "item") []

pub bare-AllPlain : AllPlain (head bare)
unfolding new_tag check_valid_xml_chars
bare-AllPlain = tt

pub find-bare : (k : Bytes) → find_attribute k (head bare) ≡ []
unfolding new_tag find_attribute check_valid_xml_chars find_named
find-bare k = refl

pub with_type-AllPlain : (up : List Head) (y : ItemType) → AllPlain (head (with_type up y bare))
with_type-AllPlain up type_undefined = bare-AllPlain
with_type-AllPlain up type_jid =
    with_attribute-AllPlain up (codes "type") (codes "jid") bare bare-AllPlain
with_type-AllPlain up type_group =
    with_attribute-AllPlain up (codes "type") (codes "group") bare bare-AllPlain
with_type-AllPlain up type_subscription =
    with_attribute-AllPlain up (codes "type") (codes "subscription") bare bare-AllPlain

pub find-with_type :
    (up : List Head) (y : ItemType) (k : Bytes)
    → equal (codes "type") k ≡ false
    → find_attribute k (head (with_type up y bare)) ≡ []
find-with_type up type_undefined k e = find-bare k
find-with_type up type_jid k e =
    with_attribute_other up (codes "type") (codes "jid") k bare type-IsName bare-AllPlain e
    ∙ find-bare k
find-with_type up type_group k e =
    with_attribute_other up (codes "type") (codes "group") k bare type-IsName bare-AllPlain e
    ∙ find-bare k
find-with_type up type_subscription k e =
    with_attribute_other up (codes "type") (codes "subscription") k bare type-IsName bare-AllPlain e
    ∙ find-bare k

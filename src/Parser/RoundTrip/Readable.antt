-- ===== src/Parser/RoundTrip/Readable.antt =====
-- Tags whose text can be read back, and what a reader sees of a tag.
use gloox.Base.{◌≡◌, refl, ap, Bool, true, false, is_empty}
use gloox.Parser.RoundTrip.Heads.{IsReadableHead, plain_head}
use gloox.Tag.{Tag, tag, Nodes, nil, child, text, append}
use gloox.Util.Valid.{check_valid_xml_chars}

-- The flag says that no text stands directly before: two texts in a row are read as one.
abbrev mutual
  pub IsReadableTag : Tag → Type 0
  IsReadableTag (tag h ns) = IsReadableHead h × AreReadable true ns

  pub AreReadable : Bool → Nodes → Type 0
  AreReadable apart nil = Unit {0}
  AreReadable apart (child t ns) = IsReadableTag t × AreReadable true ns
  AreReadable apart (text s ns) =
      (apart ≡ true)
      × (is_empty s ≡ false)
      × (check_valid_xml_chars s ≡ true)
      × AreReadable false ns

-- Names, prefixes, attributes and nodes; not the owner of an attribute, the tables of namespaces
-- and the flags.
abbrev mutual
  pub plain_tag : Tag → Tag
  plain_tag (tag h ns) = tag (plain_head h) (plain_nodes ns)

  pub plain_nodes : Nodes → Nodes
  plain_nodes nil = nil
  plain_nodes (child t ns) = child (plain_tag t) (plain_nodes ns)
  plain_nodes (text s ns) = text s (plain_nodes ns)

pub append-nil_nodes : (ns : Nodes) → append ns nil ≡ ns
unfolding append
append-nil_nodes nil = refl
append-nil_nodes (child t ns) = ap (child t) (append-nil_nodes ns)
append-nil_nodes (text s ns) = ap (text s) (append-nil_nodes ns)

pub append_assoc_nodes : (ls ms ns : Nodes) → append (append ls ms) ns ≡ append ls (append ms ns)
unfolding append
append_assoc_nodes nil ms ns = refl
append_assoc_nodes (child t ls) ms ns = ap (child t) (append_assoc_nodes ls ms ns)
append_assoc_nodes (text s ls) ms ns = ap (text s) (append_assoc_nodes ls ms ns)

pub plain-append :
    (ms ns : Nodes) → plain_nodes (append ms ns) ≡ append (plain_nodes ms) (plain_nodes ns)
unfolding append
plain-append nil ns = refl
plain-append (child t ms) ns = ap (child (plain_tag t)) (plain-append ms ns)
plain-append (text s ms) ns = ap (text s) (plain-append ms ns)

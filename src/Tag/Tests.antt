-- ===== src/Tag/Tests.antt =====
-- The theorems of the tags on a tag with two kinds of children.
use gloox.Base.{◌≡◌, refl, true, [], codes}
use gloox.Base.{if◌then◌else◌, equal, equal_iff, Bool, not, filter, ◌∷◌, some, ◌↔◌, inr}
use gloox.Tag.Attributes.{find_attribute, add_attribute_value, no_attribute}
use gloox.Tag.Replaced.{no_prefix_here}
use gloox.Tag.Added.{find_attribute-add_attribute_value}
use gloox.Tag.Children.{find_children, remove_child, set_cdata, cdata, children}
use gloox.Tag.Equality.{tag_equal}
use gloox.Tag.Agreement.{Agrees, tag_equal_iff}
use gloox.Tag.Removal.{is_asked, find-remove_child, cdata-set_cdata}
use gloox.Tag.{Tag, tag, no_head, Head, nil, child, text, head, nodes}
use gloox.Util.Valid.{check_valid_xml_chars, is_valid_byte}

abbrev query : Tag
query =
    tag
      (record no_head {
        name = codes "query";
        xmlns = codes "jabber:iq:roster";
        has_children = true;
        has_cdata = true;
      })
      (text (codes "a") (
        child (tag (record no_head { name = codes "item" }) (text (codes "b") nil))
          (child (tag (record no_head { name = codes "group" }) nil) (text (codes "c") nil))))

-- The name of an item in the namespace of a roster.
abbrev asked : Tag → Bool
asked = is_asked (codes "item") (codes "jabber:iq:roster") (head query ∷ [])

find-remove_child_example :
    (find_children (codes "item") (codes "jabber:iq:roster") [] query
      ≡ filter asked (children (nodes query)))
    × (children (nodes (remove_child (codes "item") (codes "jabber:iq:roster") [] query))
        ≡ filter (λ c. not (asked c)) (children (nodes query)))
    × (find_children
          (codes "item")
          (codes "jabber:iq:roster")
          []
          (remove_child (codes "item") (codes "jabber:iq:roster") [] query)
        ≡ [])
    × (cdata (nodes (remove_child (codes "item") (codes "jabber:iq:roster") [] query))
        ≡ cdata (nodes query))
find-remove_child_example =
    find-remove_child (codes "item") (codes "jabber:iq:roster") [] query refl

cdata-set_cdata_example :
    ((set_cdata (codes "d") query).1 ≡ true)
    × (cdata (nodes (set_cdata (codes "d") query).0) ≡ codes "d")
    × (children (nodes (set_cdata (codes "d") query).0) ≡ children (nodes query))
unfolding check_valid_xml_chars is_valid_byte
cdata-set_cdata_example = cdata-set_cdata (codes "d") query refl refl

-- The same with another name.
abbrev renamed : Tag
renamed = tag (record (head query) { name = codes "list" }) (nodes query)

tag_equal_iff_example : (tag_equal query renamed ≡ true) ↔ Agrees query renamed
tag_equal_iff_example = tag_equal_iff query renamed

-- A parsed attribute, and one of another name with a namespace and a prefix.
abbrev parsed : Head
parsed = record no_head {
  name = codes "iq";
  attribs = some (
      record no_attribute { owned = true; name = codes "id"; value = codes "a0" }
      ∷ record no_attribute {
        name = codes "type";
        value = codes "get";
        xmlns = codes "urn:x";
        prefix = codes "x";
      }
      ∷ []);
}

find_attribute-add_attribute_value_example :
    find_attribute (codes "id") (add_attribute_value parsed [] (codes "id") (codes "a1")).0
    ≡ (if equal (codes "id") (codes "id") then codes "a1" else find_attribute (codes "id") parsed)
unfolding check_valid_xml_chars is_valid_byte equal
find_attribute-add_attribute_value_example =
    find_attribute-add_attribute_value parsed [] (codes "id") (codes "a1") (codes "id")
      (
        (λ e. no_prefix_here refl (inr refl)),
        ((λ e. let f = (equal_iff (codes "type") (codes "id")).1 e in cc), tt),
      )
      refl refl refl refl

-- ===== src/Tag/Equality.antt =====
-- `Tag::operator==`.
use gloox.Base.{
  Bool, true, false, ◌&&◌, ◌||◌, List, [], ◌∷◌, Option, none, some, if◌then◌else◌, Bytes, equal,
}
use gloox.Tag.Children.{children}
use gloox.Tag.{Attribute, Head, Tag, tag, Nodes, nil, child, text, head, nodes}

-- `Attribute::operator==`.
unfoldable pub attribute_equal : Attribute → Attribute → Bool
attribute_equal a b = equal a.name b.name && equal a.value b.value && equal a.xmlns b.xmlns

-- The loops run while both lists have an entry and the entries are equal. Then only the left list
-- is looked at: `false` if it is not at its end.
unfoldable pub attributes_equal : List Attribute → List Attribute → Bool
unfolding attribute_equal
attributes_equal [] bs = true
attributes_equal (a ∷ rest) [] = false
attributes_equal (a ∷ rest) (b ∷ bs) = attribute_equal a b && attributes_equal rest bs

-- The same over `m_cdata`.
unfoldable pub texts : Nodes → List Bytes
texts nil = []
texts (child t ns) = texts ns
texts (text s ns) = s ∷ texts ns

unfoldable pub texts_equal : List Bytes → List Bytes → Bool
texts_equal [] bs = true
texts_equal (a ∷ rest) [] = false
texts_equal (a ∷ rest) (b ∷ bs) = equal a b && texts_equal rest bs

-- A part that both tags have is compared; a part that one of them has makes them differ.
abbrev both : Bool → Bool → Bool → Bool
both a b same = if a && b then same else if a || b then false else true

abbrev pub has : Option (List Attribute) → Bool
has none = false
has (some rest) = true

abbrev pub listed : Option (List Attribute) → List Attribute
listed none = []
listed (some rest) = rest

-- All but the children.
unfoldable pub heads_equal : Head → List Bytes → Head → List Bytes → Bool
heads_equal h ts g us =
    equal h.name g.name
    && equal h.xmlns g.xmlns
    && both h.has_cdata g.has_cdata (texts_equal ts us)
    && both (has h.attribs) (has g.attribs) (attributes_equal (listed h.attribs) (listed g.attribs))

unfoldable mutual
  pub tag_equal : Tag → Tag → Bool
  tag_equal (tag h ns) t =
      both h.has_children (head t).has_children (children_equal ns (children (nodes t)))
      && heads_equal h (texts ns) (head t) (texts (nodes t))

  -- The loop over `m_children` of the left tag, and over those of the right.
  pub children_equal : Nodes → List Tag → Bool
  children_equal nil us = true
  children_equal (text s ns) us = children_equal ns us
  children_equal (child t ns) [] = false
  children_equal (child t ns) (u ∷ us) = tag_equal t u && children_equal ns us

-- ===== src/Privacy/RoundTrip.antt =====
-- A list that is stored is read back as it was.
use gloox.Base.{
  ℕ, suc, ◌<◌, ◌≡◌, refl, sym, ap, ◌∙◌, true, ◌||◌, List, [], ◌∷◌, ◌++◌, append-nil, append_assoc,
  map, All, Bytes, codes, equal, is_empty, Bool-cases, inl, inr,
}
use gloox.Tag.{Tag, tag, nil, child, text, Nodes, Head, head, nodes, new_tag, add_child, append}
use gloox.Tag.Added.{AllPlain}
use gloox.Tag.Attributes.{
  add_attribute, add_attribute_value, find_attribute, find_named, new_attribute,
}
use gloox.Tag.Children.{children}
use gloox.Util.Valid.{check_valid_xml_chars}
use gloox.Privacy.{
  PrivacyItem, empty_query, with_attribute, with_items, item_tag, query_tag, query_head, pl_store,
  read_item, read_child, read_children, read_query,
}
use gloox.Privacy.Attributes.{IsName, with_attribute_new, head-with_attribute}
use gloox.Privacy.Items.{read_item-item_tag}

-- An item that the tag can hold: not for all packets at once, and with a valid value.
pub record IsStorable (i : PrivacyItem) : Type 0 where
  pub some_packets : i.packet_type < 15
  pub valid_value : check_valid_xml_chars i.value ≡ true

children-append :
    (ns : Nodes) (t : Tag) → children (append ns (child t nil)) ≡ children ns ++ (t ∷ [])
unfolding children append
children-append nil t = refl
children-append (child u ns) t = ap (◌∷◌ u) (children-append ns t)
children-append (text s ns) t = children-append ns t

map-append : (xs ys : List Tag) → map read_item (xs ++ ys) ≡ map read_item xs ++ map read_item ys
map-append [] ys = refl
map-append (x ∷ xs) ys = ap (◌∷◌ (read_item x)) (map-append xs ys)

children-add_child : (t c : Tag) → children (nodes (add_child t c)) ≡ children (nodes c) ++ (t ∷ [])
unfolding add_child
children-add_child t (tag h ns) = children-append ns t

-- The items of a list come back in order.
read_items :
    (up : List Head) (count : ℕ) (is : List PrivacyItem) (c : Tag)
    → All IsStorable is
    → map read_item (children (nodes (with_items up count is c)))
      ≡ map read_item (children (nodes c)) ++ is
unfolding with_items
read_items up count [] c h = sym (append-nil _)
read_items up count (i ∷ is) c (h, hs) =
    read_items up (suc count) is (add_child t c) hs
    ∙ ap (λ (xs : List PrivacyItem). xs ++ is)
        (ap (map read_item) (children-add_child t c)
          ∙ map-append (children (nodes c)) (t ∷ [])
          ∙ ap (λ (x : PrivacyItem). map read_item (children (nodes c)) ++ (x ∷ []))
              (read_item-item_tag (record (head c) { has_children = true } ∷ up) (suc count) i
                h.some_packets h.valid_value))
    ∙ append_assoc (map read_item (children (nodes c))) (i ∷ []) is
  where
    t : Tag
    t = item_tag (record (head c) { has_children = true } ∷ up) (suc count) i

-- The list's own tag keeps its name and its attributes.
head-with_items :
    (up : List Head) (count : ℕ) (is : List PrivacyItem) (c : Tag)
    → ((head (with_items up count is c)).name ≡ (head c).name)
      × (find_attribute (codes "name") (head (with_items up count is c))
          ≡ find_attribute (codes "name") (head c))
unfolding with_items add_child find_attribute
head-with_items up count [] c = (refl, refl)
head-with_items up count (i ∷ is) (tag h ns) = head-with_items up (suc count) is _

name-add_attribute_value :
    (h : Head) (up : List Head) (name value : Bytes)
    → ((add_attribute_value h up name value).0).name ≡ h.name
unfolding add_attribute_value add_attribute
name-add_attribute_value h up name value = elim (Bool-cases (is_empty name || is_empty value)) [
  | inl e ↦ rw e refl
  | inr e ↦ rw e (elim (Bool-cases (is_empty (new_attribute name value []).name)) [
    | inl f ↦ rw f refl
    | inr f ↦ rw f refl
  ])
]

abbrev fresh_list : Tag
fresh_list = new_tag (codes "list") []

fresh_list_lem :
    AllPlain (head fresh_list)
    × (find_attribute (codes "name") (head fresh_list) ≡ [])
    × ((head fresh_list).name ≡ codes "list")
unfolding new_tag check_valid_xml_chars find_attribute find_named
fresh_list_lem = (tt, refl, refl)

no_items :
    (up : List Head) (name : Bytes)
    → children (nodes (with_attribute up (codes "name") name fresh_list)) ≡ []
unfolding with_attribute new_tag check_valid_xml_chars children
no_items up name = refl

key-IsName : IsName (codes "name")
unfolding check_valid_xml_chars
key-IsName = (refl, refl)

-- A child `list` of a query gives its name and its items.
read_child-list :
    (t : Tag) (name : Bytes) (items : List PrivacyItem)
    → (head t).name ≡ codes "list"
    → find_attribute (codes "name") (head t) ≡ name
    → map read_item (children (nodes t)) ≡ items
    → read_child empty_query t ≡ record empty_query { names = name ∷ []; items = items }
unfolding read_child equal
read_child-list t name items e f g = rw (e, f, g) refl

-- The query that stores a list under a name is read back with that name and with the items in their
-- order. The name and the values are valid texts, and no item is for all packets at once.
pub read_query-query_tag :
    (name : Bytes) (items : List PrivacyItem)
    → check_valid_xml_chars name ≡ true
    → All IsStorable items
    → read_query (query_tag pl_store name items)
      ≡ record empty_query { names = name ∷ []; items = items }
unfolding read_query query_tag read_children add_child append children
read_query-query_tag name items v h =
    read_child-list (with_items up 0 items named) name items
      ((head-with_items up 0 items named).0
        ∙ ap (λ (g : Head). g.name) (head-with_attribute up (codes "name") name fresh_list)
        ∙ name-add_attribute_value (head fresh_list) up (codes "name") name
        ∙ fresh_list_lem.2)
      ((head-with_items up 0 items named).1
        ∙ with_attribute_new up (codes "name") name fresh_list key-IsName fresh_list_lem.0 v
            fresh_list_lem.1)
      (read_items up 0 items named h
        ∙ ap (λ (ts : List Tag). map read_item ts ++ items) (no_items up name))
  where
    up : List Head
    up = record query_head { has_children = true } ∷ []

    named : Tag
    named = with_attribute up (codes "name") name fresh_list

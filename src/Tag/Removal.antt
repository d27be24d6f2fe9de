-- ===== src/Tag/Removal.antt =====
-- What removing children and setting the character data leave of a tag.
use gloox.Base.{
  ◌≡◌, refl, ap, Bool, true, false, List, [], ◌∷◌, ◌++◌, append-nil, Bytes, is_empty, Bool-cases,
  inl, inr, not, ◌&&◌, ◌||◌, filter, equal,
}
use gloox.Tag.Attributes.{tag_xmlns}
use gloox.Tag.Children.{
  children, cdata, keep, find_children, drop_children, remove_child, selects, set_cdata, drop_text,
}
use gloox.Tag.{Head, Tag, tag, Nodes, nil, child, text, head, nodes, append, add_cdata}
use gloox.Util.Valid.{check_valid_xml_chars}

-- The child tags that a test refuses, with all that is not a child tag, in their order.
keep-drop : (p : Tag → Bool) (ns : Nodes) → keep p (children (drop_children p ns)) ≡ []
unfolding keep drop_children children
keep-drop p nil = refl
keep-drop p (text s ns) = keep-drop p ns
keep-drop p (child t ns) = elim (Bool-cases (p t)) [
  | inl e ↦ rw e (keep-drop p ns)
  | inr e ↦ rw (e, e) (keep-drop p ns)
]

cdata-drop : (p : Tag → Bool) (ns : Nodes) → cdata (drop_children p ns) ≡ cdata ns
unfolding drop_children cdata
cdata-drop p nil = refl
cdata-drop p (text s ns) = ap (λ (x : Bytes). s ++ x) (cdata-drop p ns)
cdata-drop p (child t ns) = elim (Bool-cases (p t)) [
  | inl e ↦ rw e (cdata-drop p ns)
  | inr e ↦ rw e (cdata-drop p ns)
]

keep-filter : (p : Tag → Bool) (ts : List Tag) → keep p ts ≡ filter p ts
unfolding keep
keep-filter p [] = refl
keep-filter p (t ∷ ts) = elim (Bool-cases (p t)) [
  | inl e ↦ rw e (ap (λ (us : List Tag). t ∷ us) (keep-filter p ts))
  | inr e ↦ rw e (keep-filter p ts)
]

children-drop :
    (p : Tag → Bool) (ns : Nodes)
    → children (drop_children p ns) ≡ filter (λ t. not (p t)) (children ns)
unfolding drop_children children
children-drop p nil = refl
children-drop p (text s ns) = children-drop p ns
children-drop p (child t ns) = elim (Bool-cases (p t)) [
  | inl e ↦ rw e (children-drop p ns)
  | inr e ↦ rw e (ap (λ (us : List Tag). t ∷ us) (children-drop p ns))
]

-- A child below the tags `up` with the name, and with the namespace if one is asked for.
abbrev pub is_asked : Bytes → Bytes → List Head → Tag → Bool
is_asked name xmlns up c =
    equal (head c).name name && (is_empty xmlns || equal (tag_xmlns (head c) up) xmlns)

-- For a name that is not empty, `findChildren( name, xmlns )` gives just the children with that name
-- and, if `xmlns` is not empty, that namespace; `removeChild` with the same two leaves just the other
-- children, in their order, so that `findChildren` finds nothing then, and leaves the character data.
pub find-remove_child :
    (name xmlns : Bytes) (up : List Head) (t : Tag)
    → is_empty name ≡ false
    → (find_children name xmlns up t
        ≡ filter (is_asked name xmlns (head t ∷ up)) (children (nodes t)))
      × (children (nodes (remove_child name xmlns up t))
          ≡ filter (λ c. not (is_asked name xmlns (head t ∷ up) c)) (children (nodes t)))
      × (find_children name xmlns up (remove_child name xmlns up t) ≡ [])
      × (cdata (nodes (remove_child name xmlns up t)) ≡ cdata (nodes t))
unfolding find_children remove_child selects
find-remove_child name xmlns up (tag h ns) e = rw e (
  keep-filter (selects name xmlns (h ∷ up)) (children ns),
  children-drop (selects name xmlns (h ∷ up)) ns,
  keep-drop (selects name xmlns (h ∷ up)) ns,
  cdata-drop (selects name xmlns (h ∷ up)) ns,
)

children-append_text :
    (ns : Nodes) (s : Bytes) → children (append (drop_text ns) (text s nil)) ≡ children ns
unfolding append drop_text children
children-append_text nil s = refl
children-append_text (child t ns) s = ap (λ (us : List Tag). t ∷ us) (children-append_text ns s)
children-append_text (text u ns) s = children-append_text ns s

cdata-append_text : (ns : Nodes) (s : Bytes) → cdata (append (drop_text ns) (text s nil)) ≡ s
unfolding append drop_text cdata
cdata-append_text nil s = append-nil s
cdata-append_text (child t ns) s = cdata-append_text ns s
cdata-append_text (text u ns) s = cdata-append_text ns s

-- `setCData` with a text that is not empty and valid succeeds; then the text is the whole of the
-- character data, and the child tags are what they were.
pub cdata-set_cdata :
    (s : Bytes) (t : Tag)
    → is_empty s ≡ false
    → check_valid_xml_chars s ≡ true
    → ((set_cdata s t).1 ≡ true)
      × (cdata (nodes (set_cdata s t).0) ≡ s)
      × (children (nodes (set_cdata s t).0) ≡ children (nodes t))
unfolding set_cdata add_cdata
cdata-set_cdata s (tag h ns) e v =
    rw (e, v) (refl, cdata-append_text ns s, children-append_text ns s)

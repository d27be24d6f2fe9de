-- ===== src/Roster/Pushes.antt =====
-- Pushes against an abstract roster: a function from addresses to contacts.
use gloox.Base.{
  ◌≡◌, refl, sym, ap, subst, ◌∙◌, Bool, true, false, not, List, [], ◌∷◌, ◌++◌, Option, none, some,
  if◌then◌else◌, Bytes, equal, equal_iff, equal_refl, Bool-cases, inl, inr,
}
use gloox.Map.{Map, find_key, insert_pair, find_key-put, find_key-erase}
use gloox.Roster.{RosterItem, RosterItemData, item_of_data, set_data}
use gloox.Roster.Manager.{
  Manager, Notice, item_added, item_removed, push_found, push_item, merge_push,
}

-- What a pushed item makes of the contact with address `j`.
unfoldable pub changed_by : Bytes → RosterItemData → Option RosterItem → Option RosterItem
changed_by j d o =
    if not (equal d.jid.full j)
    then o
    else if d.remove
    then none
    else elim o [ none ↦ some (item_of_data d) | some i ↦ some (set_data d i) ]

-- The same for a list of them, in order.
unfoldable pub changed_by_all : Bytes → List RosterItemData → Option RosterItem → Option RosterItem
changed_by_all j [] o = o
changed_by_all j (d ∷ ds) o = changed_by_all j ds (changed_by j d o)

find_key-insert_pair :
    (k j : Bytes) (v : RosterItem) (m : Map RosterItem)
    → find_key k m ≡ none
    → find_key j (insert_pair k v m) ≡ (if equal k j then some v else find_key j m)
unfolding insert_pair
find_key-insert_pair k j v m e = rw (e, insert_pair) (find_key-put k j v m)

push_found-roster :
    (j : Bytes) (m : Manager) (d : RosterItemData) (o : Option RosterItem)
    → find_key d.jid.full m.roster ≡ o
    → find_key j ((push_found m d o).0.roster)
      ≡ (if equal d.jid.full j then changed_by d.jid.full d o else find_key j m.roster)
unfolding push_found changed_by
push_found-roster j m d (some i) e = elim (Bool-cases d.remove) [
  | inl r ↦ simp (r, equal_refl d.jid.full) (find_key-erase d.jid.full j m.roster)
  | inr r ↦ simp (r, equal_refl d.jid.full) (find_key-put d.jid.full j (set_data d i) m.roster)
]
push_found-roster j m d none e = elim (Bool-cases d.remove) [
  | inl r ↦
      simp (r, equal_refl d.jid.full)
        (elim (Bool-cases (equal d.jid.full j)) [
          | inl q ↦
              simp q
                (subst (λ (k : Bytes). find_key k m.roster ≡ none) ((equal_iff d.jid.full j).0 q) e)
          | inr q ↦ simp q
        ])
  | inr r ↦
      simp (r, equal_refl d.jid.full)
        (find_key-insert_pair d.jid.full j (item_of_data d) m.roster e)
]

changed_by-other :
    (j : Bytes) (d : RosterItemData) (o : Option RosterItem)
    → equal d.jid.full j ≡ false
    → changed_by j d o ≡ o
unfolding changed_by
changed_by-other j d o q = simp q

find_key-push_item :
    (j : Bytes) (m : Manager) (d : RosterItemData)
    → find_key j ((push_item m d).0.roster) ≡ changed_by j d (find_key j m.roster)
unfolding push_item
find_key-push_item j m d = push_found-roster j m d (find_key d.jid.full m.roster) refl ∙ same
  where
    same :
        (if equal d.jid.full j
          then changed_by d.jid.full d (find_key d.jid.full m.roster)
          else find_key j m.roster)
        ≡ changed_by j d (find_key j m.roster)
    same = elim (Bool-cases (equal d.jid.full j)) [
      | inl q ↦
          rw q (
            ap (λ (k : Bytes). changed_by k d (find_key k m.roster)) ((equal_iff d.jid.full j).0 q))
      | inr q ↦ rw q (sym (changed_by-other j d (find_key j m.roster) q))
    ]

-- Whether a contact is there, as a listener knows it that follows what it is told: it notes the address
-- of an added item, and drops that of a removed one.
abbrev pub note : Bytes → Notice → Bool → Bool
note j (item_added k) known = if equal k j then true else known
note j (item_removed k) known = if equal k j then false else known
note j n known = known

unfoldable pub follow : Bytes → List Notice → Bool → Bool
follow j [] known = known
follow j (n ∷ ns) known = follow j ns (note j n known)

abbrev pub is_some : Option RosterItem → Bool
is_some none = false
is_some (some i) = true

follow-append :
    (j : Bytes) (ns ms : List Notice) (b : Bool)
    → follow j (ns ++ ms) b ≡ follow j ms (follow j ns b)
unfolding follow
follow-append j [] ms b = refl
follow-append j (n ∷ ns) ms b = follow-append j ns ms (note j n b)

-- One item: the notice says what happens to the contact.
follow-push_found :
    (j : Bytes) (m : Manager) (d : RosterItemData) (o : Option RosterItem)
    → m.has_listener ≡ true
    → (equal d.jid.full j ≡ true → find_key j m.roster ≡ o)
    → follow j (push_found m d o).1 (is_some (find_key j m.roster))
      ≡ is_some (changed_by j d (find_key j m.roster))
unfolding follow push_found changed_by
follow-push_found j m d (some i) l e = elim (Bool-cases (equal d.jid.full j)) [
  | inl q ↦ elim (Bool-cases d.remove) [ inl r ↦ simp (q, r, l) | inr r ↦ simp (q, r, l, e q) ]
  | inr q ↦ elim (Bool-cases d.remove) [ inl r ↦ simp (q, r, l) | inr r ↦ simp (q, r, l) ]
]
follow-push_found j m d none l e = elim (Bool-cases (equal d.jid.full j)) [
  | inl q ↦ elim (Bool-cases d.remove) [ inl r ↦ simp (q, r, l, e q) | inr r ↦ simp (q, r, l, e q) ]
  | inr q ↦ elim (Bool-cases d.remove) [ inl r ↦ simp (q, r, l) | inr r ↦ simp (q, r, l) ]
]

push_item-listener :
    (m : Manager) (d : RosterItemData)
    → m.has_listener ≡ true
    → (push_item m d).0.has_listener ≡ true
unfolding push_item push_found
push_item-listener m d l = go (find_key d.jid.full m.roster)
  where
    go : (o : Option RosterItem) → (push_found m d o).0.has_listener ≡ true
    go (some i) = elim (Bool-cases d.remove) [ inl r ↦ simp (r, l) | inr r ↦ simp (r, l) ]
    go none = elim (Bool-cases d.remove) [ inl r ↦ simp (r, l) | inr r ↦ simp (r, l) ]

-- A listener that follows what it is told in a push of any items knows of every address whether the
-- roster has it, if it knew before.
pub follow-merge_push :
    (j : Bytes) (m : Manager) (ds : List RosterItemData)
    → m.has_listener ≡ true
    → follow j (merge_push m ds).1 (is_some (find_key j m.roster))
      ≡ is_some (find_key j ((merge_push m ds).0.roster))
unfolding merge_push follow push_item
follow-merge_push j m [] l = refl
follow-merge_push j m (d ∷ ds) l =
    follow-append j (push_item m d).1 (merge_push ((push_item m d).0) ds).1
      (is_some (find_key j m.roster))
    ∙ ap (follow j (merge_push ((push_item m d).0) ds).1) (
        follow-push_found j m d (find_key d.jid.full m.roster) l same
        ∙ ap is_some (sym (find_key-push_item j m d)))
    ∙ follow-merge_push j ((push_item m d).0) ds (push_item-listener m d l)
  where
    same : equal d.jid.full j ≡ true → find_key j m.roster ≡ find_key d.jid.full m.roster
    same q = ap (λ (k : Bytes). find_key k m.roster) (sym ((equal_iff d.jid.full j).0 q))

-- ===== src/Roster/Presences.antt =====
-- What a presence stanza changes: one resource of one contact.
use gloox.Base.{
  ◌≡◌, subst, Bool, true, false, not, ◌&&◌, Option, none, some, if◌then◌else◌, Bytes, equal,
  equal_iff, equal_refl, Bool-cases, inl, inr, Option-cases,
}
use gloox.Base.Int.{ℤ}
use gloox.Map.{find_key, find_key-put, find_key-erase}
use gloox.Roster.{
  RosterItem, Resource, PresenceType, resource, set_presence, set_status, set_priority,
  remove_resource, on_resource,
}
use gloox.Jid.{Prep}
use gloox.Roster.Manager.{
  Manager, Presence, is_error, is_unavailable, with_presence, handle_presence, is_self,
}

-- What a presence says of the resource that it comes from.
abbrev pub offered : Presence → Option Resource
offered pres =
    if is_unavailable pres.subtype
    then none
    else some (record { priority = pres.priority; message = pres.status; presence = pres.subtype })

resource-on_resource :
    (name other : Bytes) (fresh : Resource) (change : Resource → Resource) (i : RosterItem)
    → resource other (on_resource name fresh change i) ≡ (
        if equal name other
        then some (elim (resource name i) [ none ↦ fresh | some r ↦ change r ])
        else resource other i)
unfolding resource on_resource
resource-on_resource name other fresh change i = find_key-put name other _ i.resources

-- The three changes of an available presence, at its own resource and at others.
resource-set_same :
    (n s : Bytes) (t : PresenceType) (p : ℤ) (i : RosterItem)
    → resource n (set_priority n p (set_status n s (set_presence n t i)))
      ≡ some (record { priority = p; message = s; presence = t })
unfolding set_presence set_status set_priority
resource-set_same n s t p i = elim (Option-cases (resource n i)) [
  | inl e ↦ simp (resource-on_resource, equal_refl n, e)
  | inr (r, e) ↦ simp (resource-on_resource, equal_refl n, e)
]

resource-set_other :
    (n r s : Bytes) (t : PresenceType) (p : ℤ) (i : RosterItem)
    → equal n r ≡ false
    → resource r (set_priority n p (set_status n s (set_presence n t i))) ≡ resource r i
unfolding set_presence set_status set_priority
resource-set_other n r s t p i e = simp (resource-on_resource, e)

resource-remove :
    (n r : Bytes) (i : RosterItem)
    → resource r (remove_resource n i) ≡ (if equal n r then none else resource r i)
unfolding resource remove_resource
resource-remove n r i = find_key-erase n r i.resources

resource-with_presence :
    (pres : Presence) (i : RosterItem) (r : Bytes)
    → resource r (with_presence pres i)
      ≡ (if equal pres.from.resource r then offered pres else resource r i)
unfolding with_presence
resource-with_presence pres i r = elim (Bool-cases (is_unavailable pres.subtype)) [
  | inl u ↦ simp u (resource-remove pres.from.resource r i)
  | inr u ↦ elim (Bool-cases (equal pres.from.resource r)) [
    | inl e ↦
        simp (u, e)
          (subst
            (λ (x : Bytes).
              resource x (
                set_priority pres.from.resource pres.priority (
                  set_status pres.from.resource pres.status
                    (set_presence pres.from.resource pres.subtype i)))
              ≡ some (record {
                priority = pres.priority;
                message = pres.status;
                presence = pres.subtype;
              }))
            ((equal_iff pres.from.resource r).0 e)
            (resource-set_same pres.from.resource pres.status pres.subtype pres.priority i))
    | inr e ↦
        simp (u, e)
          (resource-set_other pres.from.resource r pres.status pres.subtype pres.priority i e)
  ]
]

-- What the roster knows of a resource of a contact.
abbrev pub of_item : Bytes → Option RosterItem → Option Resource
of_item r none = none
of_item r (some i) = resource r i

unfoldable pub seen : Bytes → Bytes → Manager → Option Resource
seen j r m = of_item r (find_key j m.roster)

abbrev pub is_known : Option RosterItem → Bool
is_known none = false
is_known (some i) = true

-- A presence of a contact changes exactly its resource: an unavailable one drops it, any other but an
-- error sets its priority, status and type. What is known of all other resources and contacts stays,
-- and a presence of someone else, or an error, changes nothing of the contacts.
pub seen-handle_presence :
    (p : Prep) (m : Manager) (pres : Presence) (j r : Bytes)
    → seen j r (handle_presence p m pres).0 ≡ (
        if not (is_error pres.subtype)
          && is_known (find_key pres.from.bare m.roster)
          && equal pres.from.bare j
          && equal pres.from.resource r
        then offered pres
        else seen j r m)
unfolding handle_presence seen
seen-handle_presence p m pres j r = elim (Bool-cases (is_error pres.subtype)) [
  | inl e ↦ simp e
  | inr e ↦ elim (Option-cases (find_key pres.from.bare m.roster)) [
    | inl f ↦ elim (Bool-cases (is_self p m pres.from)) [
      | inl s ↦ simp (e, f, s)
      | inr s ↦ simp (e, f, s)
    ]
    | inr (i, f) ↦
        simp (e, f, find_key-put pres.from.bare j (with_presence pres i) m.roster) (of_contact i f)
  ]
]
  where
    of_contact :
        (i : RosterItem)
        → find_key pres.from.bare m.roster ≡ some i
        → of_item r
            (if equal pres.from.bare j then some (with_presence pres i) else find_key j m.roster)
          ≡ (if equal pres.from.bare j && equal pres.from.resource r
              then offered pres
              else of_item r (find_key j m.roster))
    of_contact i f = elim (Bool-cases (equal pres.from.bare j)) [
      | inl q ↦
          let g : find_key j m.roster ≡ some i =
            subst (λ (k : Bytes). find_key k m.roster ≡ some i) ((equal_iff pres.from.bare j).0 q)
              f in
          simp (q, g) (resource-with_presence pres i r)
      | inr q ↦ simp q
    ]

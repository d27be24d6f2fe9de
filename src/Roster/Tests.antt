-- ===== src/Roster/Tests.antt =====
-- The theorems of the roster on a roster with one contact.
use gloox.Base.{◌≡◌, refl, true, not, ◌&&◌, some, [], ◌∷◌, List, Bytes, codes, equal, if◌then◌else◌}
use gloox.Base.Int.{pos}
use gloox.Jid.{Jid, empty_jid, without_libidn}
use gloox.Map.{find_key}
use gloox.Roster.{
  RosterItem, RosterItemData, new_data, removal, item_of_data, available, away, chat,
  highest_resource, highest_from,
}
use gloox.Roster.Highest.{IsHighest, highest_resource-IsHighest}
use gloox.Roster.Manager.{Manager, Presence, new_manager, merge_push, handle_presence, is_error}
use gloox.Roster.Presences.{seen, offered, is_known, seen-handle_presence}
use gloox.Roster.Pushes.{follow, is_some, follow-merge_push}

abbrev jid_of : Bytes → Bytes → Jid
jid_of bare resource = record empty_jid {
  bare = bare;
  full = bare;
  resource = resource;
  valid = true;
}

abbrev ann : Bytes
ann = codes "ann@x"

abbrev bob : Bytes
bob = codes "bob@x"

abbrev with_two : RosterItem
with_two = record (item_of_data (new_data (jid_of ann []) (codes "Ann") [])) {
  resources =
      (codes "home", record { priority = pos 1; message = []; presence = away })
      ∷ (codes "work", record { priority = pos 5; message = []; presence = chat })
      ∷ [];
}

highest_resource-IsHighest_example : IsHighest with_two.resources (highest_resource with_two)
highest_resource-IsHighest_example = highest_resource-IsHighest with_two

highest :
    highest_resource with_two ≡ some (record { priority = pos 5; message = []; presence = chat })
unfolding highest_resource highest_from
highest = refl

abbrev manager : Manager
manager = record (new_manager without_libidn (codes "me@x")) {
  roster = (ann, with_two) ∷ [];
  has_listener = true;
}

abbrev items : List RosterItemData
items = removal (jid_of ann []) ∷ new_data (jid_of bob []) (codes "Bob") [] ∷ []

follow-merge_push_example :
    follow ann (merge_push manager items).1 (is_some (find_key ann manager.roster))
    ≡ is_some (find_key ann ((merge_push manager items).0.roster))
follow-merge_push_example = follow-merge_push ann manager items refl

abbrev presence : Presence
presence = record {
  from = jid_of ann (codes "home");
  subtype = available;
  status = codes "back";
  priority = pos 7;
}

seen-handle_presence_example :
    seen ann (codes "home") (handle_presence without_libidn manager presence).0 ≡ (
      if not (is_error presence.subtype)
        && is_known (find_key presence.from.bare manager.roster)
        && equal presence.from.bare ann
        && equal presence.from.resource (codes "home")
      then offered presence
      else seen ann (codes "home") manager)
seen-handle_presence_example =
    seen-handle_presence without_libidn manager presence ann (codes "home")

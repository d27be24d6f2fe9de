-- ===== src/Roster.antt =====
-- Contacts and their resources: src/rosteritembase.h, src/rosteritemdata.h, src/resource.h and
-- src/rosteritem.cpp. `m_data` is not null, and the stanza extensions of a resource are left out.
pub mod Manager
pub mod Highest
pub mod Pushes
pub mod Presences
pub mod Tests
use gloox.Base.{
  ℕ, Bool, true, false, not, ◌&&◌, List, [], ◌∷◌, Option, none, some, if◌then◌else◌, Bytes, codes,
  equal, is_empty, ltb,
}
use gloox.Base.Int.{ℤ, pos, negsuc, less_ℤ}
use gloox.Jid.{Jid, Prep, empty_jid, set_jid}
use gloox.Map.{Map, find_key, put, erase}

-- `SubscriptionType`.
pub data SubscriptionType : Type 0 where
  s10n_none s10n_none_out s10n_none_in s10n_none_out_in s10n_to s10n_to_in s10n_from s10n_from_out
        s10n_both :
      SubscriptionType

-- `RosterItemBase` and `RosterItemData`.
pub record RosterItemData : Type 0 where
  pub jid : Jid
  pub name : Bytes
  pub groups : List Bytes
  pub changed : Bool
  pub subscription : SubscriptionType
  pub sub : Bytes
  pub ask : Bytes
  pub remove : Bool

-- The constructor for an item, and that for the removal of one.
abbrev pub new_data : Jid → Bytes → List Bytes → RosterItemData
new_data jid name groups = record {
  jid = jid;
  name = name;
  groups = groups;
  changed = false;
  subscription = s10n_none;
  sub = [];
  ask = [];
  remove = false;
}

abbrev pub removal : Jid → RosterItemData
removal jid = record {
  jid = jid;
  name = [];
  groups = [];
  changed = false;
  subscription = s10n_none;
  sub = [];
  ask = [];
  remove = true;
}

-- The copy constructor, which leaves `m_sub` and `m_ask` empty.
unfoldable pub copy_data : RosterItemData → RosterItemData
copy_data d = record d { sub = []; ask = [] }

abbrev pub subscription_of : Bytes → Bytes → SubscriptionType → SubscriptionType
subscription_of subscription ask before =
    if equal subscription (codes "from") && is_empty ask
    then s10n_from
    else if equal subscription (codes "from") && not (is_empty ask)
    then s10n_from_out
    else if equal subscription (codes "to") && is_empty ask
    then s10n_to
    else if equal subscription (codes "to") && not (is_empty ask)
    then s10n_to_in
    else if equal subscription (codes "none") && is_empty ask
    then s10n_none
    else if equal subscription (codes "none") && not (is_empty ask)
    then s10n_none_out
    else if equal subscription (codes "both")
    then s10n_both
    else before

abbrev pub set_subscription : Bytes → Bytes → RosterItemData → RosterItemData
set_subscription subscription ask d = record d {
  sub = subscription;
  ask = ask;
  subscription = subscription_of subscription ask d.subscription;
}

-- `Presence::PresenceType`.
pub data PresenceType : Type 0 where
  available chat away dnd xa unavailable probe error invalid : PresenceType

pub record Resource : Type 0 where
  pub priority : ℤ
  pub message : Bytes
  pub presence : PresenceType

pub record RosterItem : Type 0 where
  pub data_of : RosterItemData
  pub resources : Map Resource

-- The constructors of `RosterItem`.
unfoldable pub item_of_data : RosterItemData → RosterItem
item_of_data d = record { data_of = copy_data d; resources = [] }

unfoldable pub item_of_jid : Prep → Bytes → Bytes → RosterItem
item_of_jid p jid name = record {
  data_of = new_data ((set_jid p jid empty_jid).0) name [];
  resources = [];
}

abbrev pub set_name : Bytes → RosterItem → RosterItem
set_name name i = record i { data_of = record (i.data_of) { name = name; changed = true } }

abbrev pub set_groups : List Bytes → RosterItem → RosterItem
set_groups groups i = record i { data_of = record (i.data_of) { groups = groups; changed = true } }

abbrev pub set_synchronized : RosterItem → RosterItem
set_synchronized i = record i { data_of = record (i.data_of) { changed = false } }

unfoldable pub set_data : RosterItemData → RosterItem → RosterItem
set_data d i = record i { data_of = copy_data d }

-- A change of the resource with a name, which is made if it is missing.
unfoldable pub on_resource : Bytes → Resource → (Resource → Resource) → RosterItem → RosterItem
on_resource name fresh change i = record i {
  resources =
      put name (elim (find_key name i.resources) [ none ↦ fresh | some r ↦ change r ]) i.resources;
}

unfoldable pub set_presence : Bytes → PresenceType → RosterItem → RosterItem
set_presence name presence =
    on_resource name (record { priority = pos 0; message = []; presence = presence })
      (λ r. record r { presence = presence })

unfoldable pub set_status : Bytes → Bytes → RosterItem → RosterItem
set_status name message =
    on_resource name (record { priority = pos 0; message = message; presence = unavailable })
      (λ r. record r { message = message })

unfoldable pub set_priority : Bytes → ℤ → RosterItem → RosterItem
set_priority name priority =
    on_resource name (record { priority = priority; message = []; presence = unavailable })
      (λ r. record r { priority = priority })

unfoldable pub remove_resource : Bytes → RosterItem → RosterItem
remove_resource name i = record i { resources = erase name i.resources }

unfoldable pub online : RosterItem → Bool
online i = not (is_empty i.resources)

unfoldable pub resource : Bytes → RosterItem → Option Resource
resource name i = find_key name i.resources

-- The loop of `highestResource`.
unfoldable pub highest_from : ℤ → Option Resource → Map Resource → Option Resource
highest_from highest best [] = best
highest_from highest best ((name, r) ∷ m) =
    let rest = highest_from highest best m in
    let better = highest_from r.priority (some r) m in
    if less_ℤ highest r.priority then better else rest

unfoldable pub highest_resource : RosterItem → Option Resource
highest_resource i = highest_from (negsuc 254) none i.resources

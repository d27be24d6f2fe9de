-- ===== src/Roster/Manager.antt =====
-- Class `RosterManager` of src/rostermanager.cpp. An operation returns the manager and what it does, in
-- order: the calls of the listener, and what it hands to the client to be sent. The answers of the
-- listener are an argument. The ids of stanzas are left to the client.
use gloox.Base.{
  Bool, true, false, not, ◌&&◌, List, [], ◌∷◌, ◌++◌, Option, none, some, if◌then◌else◌, Bytes,
  equal, is_empty,
}
use gloox.Base.Int.{ℤ}
use gloox.Jid.{Jid, Prep, empty_jid, set_jid}
use gloox.Map.{Map, find_key, put, erase, insert_pair}
use gloox.Roster.{
  RosterItem, RosterItemData, PresenceType, unavailable, error, new_data, removal, item_of_data,
  item_of_jid, set_data, set_presence, set_status, set_priority, remove_resource,
}

-- `Subscription::S10nType`.
pub data S10nType : Type 0 where
  subscribe_type subscribed_type unsubscribe_type unsubscribed_type invalid_type : S10nType

-- A presence stanza and a subscription stanza, as far as they are read.
pub record Presence : Type 0 where
  pub from : Jid
  pub subtype : PresenceType
  pub status : Bytes
  pub priority : ℤ

pub record Subscription : Type 0 where
  pub from : Jid
  pub subtype : S10nType
  pub status : Bytes

-- `RosterContext`.
pub data RosterContext : Type 0 where
  request_roster add_roster_item remove_roster_item synchronize_roster : RosterContext

pub data Notice : Type 0 where
  -- calls of the listener
  item_added item_updated item_removed : Bytes → Notice
  handle_roster : Map RosterItem → Notice
  handle_roster_error : Notice
  roster_presence self_presence : RosterItem → Bytes → PresenceType → Bytes → Notice
  nonroster_presence : Presence → Notice
  subscription_request unsubscription_request : Jid → Bytes → Notice
  item_subscribed item_unsubscribed : Jid → Notice
  item_exchange : Jid → Notice
  -- calls of the client
  request_delimiter : Notice
  request_query : RosterContext → Notice
  send_query : RosterItemData → RosterContext → Notice
  send_subscription : S10nType → Jid → Bytes → Notice
  send_result : Bytes → Notice
  roster_filled : Notice

pub record Manager : Type 0 where
  pub roster : Map RosterItem
  pub self : RosterItem
  pub has_listener : Bool
  pub sync_subscribe_req : Bool

-- `if( m_rosterListener ) ...`
abbrev pub tell : Manager → Notice → List Notice
tell m n = if m.has_listener then n ∷ [] else []

-- The constructor, with the JID of the client.
unfoldable pub new_manager : Prep → Bytes → Manager
new_manager p bare = record {
  roster = [];
  self = item_of_jid p bare [];
  has_listener = false;
  sync_subscribe_req = false;
}

abbrev pub register_roster_listener : Bool → Bool → Manager → Manager
register_roster_listener given sync m = record m { has_listener = given; sync_subscribe_req = sync }

abbrev pub remove_roster_listener : Manager → Manager
remove_roster_listener m = record m { has_listener = false; sync_subscribe_req = false }

unfoldable pub fill : Manager → Manager × List Notice
fill m = (record m { roster = [] }, request_delimiter ∷ request_query request_roster ∷ [])

-- The body of the loop in `mergePush`, with what `find` gives for the item.
unfoldable pub push_found : Manager → RosterItemData → Option RosterItem → Manager × List Notice
push_found m d (some i) =
    if d.remove
    then (record m { roster = erase d.jid.full m.roster }, tell m (item_removed d.jid.full))
    else (
      record m { roster = put d.jid.full (set_data d i) m.roster },
      tell m (item_updated d.jid.full),
    )
push_found m d none = if d.remove then (m, []) else (
  record m { roster = insert_pair d.jid.full (item_of_data d) m.roster },
  tell m (item_added d.jid.full),
)

unfoldable pub push_item : Manager → RosterItemData → Manager × List Notice
push_item m d = push_found m d (find_key d.jid.full m.roster)

unfoldable pub merge_push : Manager → List RosterItemData → Manager × List Notice
merge_push m [] = (m, [])
merge_push m (d ∷ ds) =
    let first = push_item m d in let rest = merge_push first.0 ds in (rest.0, first.1 ++ rest.1)

unfoldable pub merge_roster : Manager → List RosterItemData → Manager
merge_roster m [] = m
merge_roster m (d ∷ ds) =
    merge_roster (record m { roster = insert_pair d.jid.full (item_of_data d) m.roster }) ds

-- An IQ, with the items of its `Query` and whether it has a `RosterX`.
pub data IqType : Type 0 where
  iq_get iq_set iq_result iq_error : IqType

pub record Iq : Type 0 where
  pub subtype : IqType
  pub from : Jid
  pub id : Bytes
  pub query : Option (List RosterItemData)
  pub has_roster_x : Bool

abbrev pub is_set : IqType → Bool
is_set iq_get = false
is_set iq_set = true
is_set iq_result = false
is_set iq_error = false

abbrev pub pushed : Manager → Option (List RosterItemData) → Manager × List Notice
pushed m none = (m, [])
pushed m (some items) = if is_empty items then (m, []) else merge_push m items

-- `handleIq`.
unfoldable pub handle_iq : Manager → Iq → Manager × List Notice × Bool
handle_iq m iq =
    let after = pushed m iq.query in
    if is_set iq.subtype
    then (
      after.0,
      after.1
          ++ ((if iq.has_roster_x then tell m (item_exchange iq.from) else [])
              ++ (send_result iq.id ∷ [])),
      true,
    )
    else (m, [], false)

abbrev pub is_request : RosterContext → Bool
is_request request_roster = true
is_request add_roster_item = false
is_request remove_roster_item = false
is_request synchronize_roster = false

abbrev pub merged : Manager → Option (List RosterItemData) → Manager
merged m none = m
merged m (some items) = merge_roster m items

-- `handleIqID`.
unfoldable pub handle_iq_id :
    Manager → IqType → Option (List RosterItemData) → RosterContext → Manager × List Notice
handle_iq_id m iq_get query context = (m, [])
handle_iq_id m iq_set query context = (m, [])
handle_iq_id m iq_result query context =
    let n = merged m query in
    (n, if is_request context then roster_filled ∷ tell n (handle_roster n.roster) else [])
handle_iq_id m iq_error query context =
    (m, (if is_request context then roster_filled ∷ [] else []) ++ tell m handle_roster_error)

abbrev pub is_error : PresenceType → Bool
is_error t = elim t [ error ↦ true | _ ↦ false ]

abbrev pub is_unavailable : PresenceType → Bool
is_unavailable t = elim t [ unavailable ↦ true | _ ↦ false ]

-- What a presence does to the item it is for.
unfoldable pub with_presence : Presence → RosterItem → RosterItem
with_presence pres i =
    if is_unavailable pres.subtype
    then remove_resource pres.from.resource i
    else set_priority pres.from.resource pres.priority
        (set_status pres.from.resource pres.status (set_presence pres.from.resource pres.subtype i))

module _ (p : Prep) where
  -- `JID::bareJID`.
  abbrev pub bare_jid : Jid → Jid
  bare_jid j = (set_jid p j.bare empty_jid).0

  abbrev pub is_self : Manager → Jid → Bool
  is_self m from = equal (bare_jid from).full m.self.data_of.jid.full

  -- `handlePresence`.
  unfoldable pub handle_presence : Manager → Presence → Manager × List Notice
  handle_presence m pres =
      if is_error pres.subtype then (m, []) else elim (find_key pres.from.bare m.roster) [
        | some i ↦ (
          record m { roster = put pres.from.bare (with_presence pres i) m.roster },
          tell m
              (roster_presence (with_presence pres i) pres.from.resource pres.subtype pres.status),
        )
        | none ↦
            if is_self m pres.from
            then (
              record m { self = with_presence pres m.self },
              tell m (
                  self_presence (with_presence pres m.self) pres.from.resource pres.subtype
                    pres.status),
            )
            else (m, tell m (nonroster_presence pres))
      ]

  unfoldable pub add : Jid → Bytes → List Bytes → List Notice
  add jid name groups =
      if not jid.valid then [] else send_query (new_data jid name groups) add_roster_item ∷ []

  unfoldable pub subscribe : Jid → Bytes → List Bytes → Bytes → List Notice
  subscribe jid name groups msg =
      if not jid.valid
      then []
      else add jid name groups ++ (send_subscription subscribe_type (bare_jid jid) msg ∷ [])

  unfoldable pub unsubscribe : Jid → Bytes → List Notice
  unsubscribe jid msg = send_subscription unsubscribe_type (bare_jid jid) msg ∷ []

  unfoldable pub cancel : Jid → Bytes → List Notice
  cancel jid msg = send_subscription unsubscribed_type (bare_jid jid) msg ∷ []

  unfoldable pub remove : Jid → List Notice
  remove jid = if not jid.valid then [] else send_query (removal jid) remove_roster_item ∷ []

  unfoldable pub ack_subscription_request : Jid → Bool → List Notice
  ack_subscription_request to ack =
      send_subscription (if ack then subscribed_type else unsubscribed_type) (bare_jid to) [] ∷ []

  -- `handleSubscription`, with the listener's answer; a string is made a JID for `remove`.
  unfoldable pub handle_subscription : Manager → Bool → Subscription → List Notice
  handle_subscription m answer s = if not m.has_listener then [] else on_type s.subtype
    where
      on_type : S10nType → List Notice
      on_type subscribe_type =
          subscription_request s.from s.status
          ∷ (if m.sync_subscribe_req then ack_subscription_request s.from answer else [])
      on_type subscribed_type = item_subscribed s.from ∷ []
      on_type unsubscribe_type =
          send_subscription unsubscribed_type (bare_jid s.from) []
          ∷ unsubscription_request s.from s.status
          ∷ (if m.sync_subscribe_req && answer then remove (bare_jid s.from) else [])
      on_type unsubscribed_type = item_unsubscribed s.from ∷ []
      on_type invalid_type = []

  -- `getRosterItem`.
  unfoldable pub get_roster_item : Manager → Jid → Option RosterItem
  get_roster_item m jid = find_key jid.bare m.roster

-- `synchronize`: the loop over the items.
unfoldable pub synchronize : Map RosterItem → List Notice
synchronize [] = []
synchronize ((key, i) ∷ m) =
    let rest = synchronize m in
    if i.data_of.changed
    then send_query (new_data i.data_of.jid i.data_of.name i.data_of.groups) synchronize_roster
      ∷ rest
    else rest

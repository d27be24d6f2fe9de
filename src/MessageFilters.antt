-- ===== src/MessageFilters.antt =====
-- Classes `ChatStateFilter` of src/chatstatefilter.cpp and `MessageEventFilter` of
-- src/messageeventfilter.cpp. A message is what the filters read of it; an operation returns the filter
-- and what it does: a call of its handler, or a message that it sends.
pub mod ChatStates
pub mod Requests
pub mod EventRuns
pub mod Events
pub mod Tests
use Prim.Native.Nat.{bit_and, bit_xor}
use gloox.Base.{
  ℕ, zero, suc, Bool, true, false, not, ◌&&◌, ◌||◌, List, [], ◌∷◌, Option, none, some,
  if◌then◌else◌, Bytes, is_empty, ◌==◌,
}

-- `ChatStateType`.
pub data ChatStateType : Type 0 where
  active composing paused inactive gone invalid : ChatStateType

-- The values of the enumeration.
abbrev pub state_code : ChatStateType → ℕ
state_code active = 1
state_code composing = 2
state_code paused = 4
state_code inactive = 8
state_code gone = 16
state_code invalid = 32

abbrev pub same_state : ChatStateType → ChatStateType → Bool
same_state s t = state_code s == state_code t

pub record ChatMessage : Type 0 where
  pub from : Bytes
  pub body : Bytes
  pub chat_state : Option ChatStateType

pub record ChatStateFilter : Type 0 where
  pub has_handler : Bool
  pub last_sent : ChatStateType
  pub enable_chat_states : Bool

abbrev pub new_chat_state_filter : ChatStateFilter
new_chat_state_filter = record { has_handler = false; last_sent = gone; enable_chat_states = true }

pub data ChatEffect : Type 0 where
  handle_chat_state : Bytes → ChatStateType → ChatEffect
  send_chat_state : ChatStateType → ChatEffect
  -- The state that is added to a message of the session.
  add_chat_state : ChatStateType → ChatEffect

unfoldable pub filter_state :
    ChatStateFilter → ChatMessage → ChatStateType → ChatStateFilter × List ChatEffect
filter_state f msg state =
    let enabled = not (same_state state invalid) in
    (
      record f { enable_chat_states = enabled },
      if enabled && is_empty msg.body then handle_chat_state msg.from state ∷ [] else [],
    )

-- `ChatStateFilter::filter`.
unfoldable pub filter_chat : ChatStateFilter → ChatMessage → ChatStateFilter × List ChatEffect
filter_chat f msg =
    if f.enable_chat_states && f.has_handler
    then elim (msg.chat_state) [ none ↦ (f, []) | some state ↦ filter_state f msg state ]
    else (f, [])

unfoldable pub set_chat_state : ChatStateFilter → ChatStateType → ChatStateFilter × List ChatEffect
set_chat_state f state =
    if not f.enable_chat_states || same_state state f.last_sent || same_state state invalid
    then (f, [])
    else (record f { last_sent = state }, send_chat_state state ∷ [])

-- `ChatStateFilter::decorate`; `m_lastSent` stays as it is.
unfoldable pub decorate_chat : ChatStateFilter → List ChatEffect
decorate_chat f = if f.enable_chat_states then add_chat_state active ∷ [] else []

abbrev pub register_chat_state_handler : Bool → ChatStateFilter → ChatStateFilter
register_chat_state_handler given f = record f { has_handler = given }

-- `MessageEventType`.
pub data MessageEventType : Type 0 where
  event_offline event_delivered event_displayed event_composing event_invalid event_cancel :
      MessageEventType

abbrev pub event_code : MessageEventType → ℕ
event_code event_offline = 1
event_code event_delivered = 2
event_code event_displayed = 4
event_code event_composing = 8
event_code event_invalid = 16
event_code event_cancel = 32

-- A message: whether it is an error and of what kind, and the bits of its event extension.
pub data ErrorKind : Type 0 where
  no_error_given feature_not_implemented other_error : ErrorKind

pub record EventMessage : Type 0 where
  pub from : Bytes
  pub id : Bytes
  pub body : Bytes
  pub is_error : Bool
  pub error : ErrorKind
  pub event : Option ℕ

pub record MessageEventFilter : Type 0 where
  pub has_handler : Bool
  pub last_id : Bytes
  pub requested_events : ℕ
  pub last_sent : MessageEventType
  pub disable : Bool

abbrev pub new_message_event_filter : MessageEventFilter
new_message_event_filter = record {
  has_handler = false;
  last_id = [];
  requested_events = 0;
  last_sent = event_cancel;
  disable = false;
}

pub data EventEffect : Type 0 where
  handle_message_event : Bytes → ℕ → EventEffect
  send_event : MessageEventType → Bytes → EventEffect

abbrev pub is_not_implemented : ErrorKind → Bool
is_not_implemented no_error_given = false
is_not_implemented feature_not_implemented = true
is_not_implemented other_error = false

abbrev pub filter_event :
    MessageEventFilter → EventMessage → Option ℕ → MessageEventFilter × List EventEffect
filter_event f msg none = (record f { requested_events = 0; last_id = [] }, [])
filter_event f msg (some e) =
    if is_empty msg.body
    then (f, handle_message_event msg.from e ∷ [])
    else (record f { last_id = msg.id; requested_events = e }, [])

-- `MessageEventFilter::filter`.
unfoldable pub filter_message :
    MessageEventFilter → EventMessage → MessageEventFilter × List EventEffect
filter_message f msg =
    if f.disable || not f.has_handler
    then (f, [])
    else if msg.is_error
    then (if is_not_implemented msg.error then record f { disable = true } else f, [])
    else filter_event f msg msg.event

abbrev pub same_event : MessageEventType → MessageEventType → Bool
same_event e d = event_code e == event_code d

-- `m_requestedEvents &= ~event`, on 32 bits.
abbrev pub without_event : ℕ → MessageEventType → ℕ
without_event requested e = bit_and requested (bit_xor (event_code e) 0xFFFFFFFF)

-- The message that is sent behind the switch.
abbrev pub sending : MessageEventFilter → MessageEventType → MessageEventFilter × List EventEffect
sending f e = (record f { last_sent = e }, send_event e f.last_id ∷ [])

-- The switch of `raiseMessageEvent`.
abbrev pub raise_allowed :
    MessageEventFilter → MessageEventType → MessageEventFilter × List EventEffect
raise_allowed f event_offline =
    sending (record f { requested_events = without_event f.requested_events event_offline })
      event_offline
raise_allowed f event_delivered =
    sending (record f { requested_events = without_event f.requested_events event_delivered })
      event_delivered
raise_allowed f event_displayed =
    sending (record f { requested_events = without_event f.requested_events event_displayed })
      event_displayed
raise_allowed f event_composing =
    if same_event f.last_sent event_composing then (f, []) else sending f event_composing
raise_allowed f event_invalid = sending f event_invalid
raise_allowed f event_cancel = sending f event_cancel

unfoldable pub raise_message_event :
    MessageEventFilter → MessageEventType → MessageEventFilter × List EventEffect
raise_message_event f e =
    if f.disable
      || ((bit_and f.requested_events (event_code e) == 0) && not (same_event e event_cancel))
    then (f, [])
    else raise_allowed f e

-- `MessageEventFilter::decorate`: the extension that is added, and the filter.
unfoldable pub decorate_message : MessageEventFilter → MessageEventFilter × Option ℕ
decorate_message f =
    if f.disable then (f, none) else (record f { last_sent = event_cancel }, some 15)

abbrev pub register_message_event_handler : Bool → MessageEventFilter → MessageEventFilter
register_message_event_handler given f = record f { has_handler = given }

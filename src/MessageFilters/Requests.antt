-- ===== src/MessageFilters/Requests.antt =====
-- Which of the states that are set a filter sends.
use gloox.Base.{
  ◌≡◌, refl, ap, Bool, false, ◌&&◌, List, [], ◌∷◌, ◌++◌, Option, none, some, if◌then◌else◌,
}
use gloox.MessageFilters.{
  ChatStateType, ChatStateFilter, ChatEffect, handle_chat_state, send_chat_state, add_chat_state,
  invalid, same_state,
}
use gloox.MessageFilters.ChatStates.{ChatOp, filters, sets, decorates, registers}

-- The states of the messages that are sent for them.
abbrev pub sent : List ChatEffect → List ChatStateType
sent [] = []
sent (handle_chat_state from state ∷ es) = sent es
sent (add_chat_state state ∷ es) = sent es
sent (send_chat_state state ∷ es) = state ∷ sent es

-- The valid states that are set in a run.
abbrev pub requested : List ChatOp → List ChatStateType
requested [] = []
requested (sets state ∷ ops) =
    let rest = requested ops in if same_state state invalid then rest else state ∷ rest
requested (filters msg ∷ ops) = requested ops
requested (decorates ∷ ops) = requested ops
requested (registers given ∷ ops) = requested ops

abbrev pub is_refusal : Option ChatStateType → Bool
is_refusal none = false
is_refusal (some state) = same_state state invalid

-- The calls before a message with an invalid state arrives while a handler is registered.
abbrev pub until_refused : Bool → List ChatOp → List ChatOp
until_refused handler [] = []
until_refused handler (filters msg ∷ ops) =
    let rest = until_refused handler ops in
    if handler && is_refusal msg.chat_state then [] else filters msg ∷ rest
until_refused handler (registers given ∷ ops) = registers given ∷ until_refused given ops
until_refused handler (sets state ∷ ops) = sets state ∷ until_refused handler ops
until_refused handler (decorates ∷ ops) = decorates ∷ until_refused handler ops

-- The states that differ from the one kept before.
abbrev pub without_repeats : ChatStateType → List ChatStateType → List ChatStateType
without_repeats last [] = []
without_repeats last (state ∷ states) =
    let same = without_repeats last states in
    let next = state ∷ without_repeats state states in if same_state state last then same else next

abbrev chat_filter : Bool → ChatStateType → Bool → ChatStateFilter
chat_filter handler last enabled = record {
  has_handler = handler;
  last_sent = last;
  enable_chat_states = enabled;
}

sent-append : (es ds : List ChatEffect) → sent (es ++ ds) ≡ sent es ++ sent ds
sent-append [] ds = refl
sent-append (handle_chat_state from state ∷ es) ds = sent-append es ds
sent-append (add_chat_state state ∷ es) ds = sent-append es ds
sent-append (send_chat_state state ∷ es) ds = ap (◌∷◌ state) (sent-append es ds)

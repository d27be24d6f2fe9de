-- ===== src/MessageFilters/ChatStates.antt =====
-- The chat states that a filter sends in a run of its operations.
use gloox.Base.{
  ◌≡◌, refl, Bool, true, false, not, ◌&&◌, ◌||◌, List, [], ◌∷◌, ◌++◌, Option, none, some, is_empty,
  Bool-cases, inl, inr,
}
use gloox.MessageFilters.{
  ChatStateType, ChatStateFilter, ChatMessage, ChatEffect, handle_chat_state, send_chat_state,
  add_chat_state, decorate_chat, invalid, same_state, filter_state, filter_chat, set_chat_state,
  register_chat_state_handler,
}

-- A call of the filter.
pub data ChatOp : Type 0 where
  filters : ChatMessage → ChatOp
  sets : ChatStateType → ChatOp
  decorates : ChatOp
  registers : Bool → ChatOp

unfoldable pub chat_step : ChatStateFilter → ChatOp → ChatStateFilter × List ChatEffect
chat_step f (filters msg) = filter_chat f msg
chat_step f (sets state) = set_chat_state f state
chat_step f decorates = (f, decorate_chat f)
chat_step f (registers given) = (register_chat_state_handler given f, [])

-- What a run of calls does, in order.
unfoldable pub chat_run : ChatStateFilter → List ChatOp → List ChatEffect
chat_run f [] = []
chat_run f (op ∷ ops) = (chat_step f op).1 ++ chat_run (chat_step f op).0 ops

-- The states that are sent in messages of their own are valid and all differ from the one that was sent
-- so before, which is `last` at first. The states that are added to other messages do not count.
unfoldable pub Alternates : ChatStateType → List ChatEffect → Type 0
Alternates last [] = Unit
Alternates last (handle_chat_state from state ∷ es) = Alternates last es
Alternates last (add_chat_state state ∷ es) = Alternates last es
Alternates last (send_chat_state state ∷ es) =
    (same_state state last ≡ false) × (same_state state invalid ≡ false) × Alternates state es

-- One call keeps to this, if what follows does so from the state that it leaves.
abbrev Keeps : ChatStateFilter → ChatStateFilter × List ChatEffect → Type 0
Keeps f r =
    (rest : List ChatEffect) → Alternates r.0.last_sent rest → Alternates f.last_sent (r.1 ++ rest)

or_false : (a b c : Bool) → (a || b || c) ≡ false → (a ≡ false) × (b ≡ false) × (c ≡ false)
or_false true b c e = cc
or_false false true c e = cc
or_false false false c e = (refl, refl, e)

set_chat_state-Keeps :
    (f : ChatStateFilter) (state : ChatStateType) → Keeps f (set_chat_state f state)
unfolding set_chat_state Alternates
set_chat_state-Keeps f state =
    elim (Bool-cases
      (not f.enable_chat_states || same_state state f.last_sent || same_state state invalid)) [
        | inl e ↦ simp e (λ rest a. a)
        | inr e ↦
            let o =
              or_false (not f.enable_chat_states) (same_state state f.last_sent)
                (same_state state invalid) e in
            simp e (λ rest a. (o.1, o.2, a))
      ]

filter_state-Keeps :
    (f : ChatStateFilter) (msg : ChatMessage) (state : ChatStateType)
    → Keeps f (filter_state f msg state)
unfolding filter_state Alternates
filter_state-Keeps f msg state rest a =
    elim (Bool-cases (not (same_state state invalid) && is_empty msg.body)) [
      | inl e ↦ rw e a
      | inr e ↦ rw e a
    ]

filter_chat-Keeps : (f : ChatStateFilter) (msg : ChatMessage) → Keeps f (filter_chat f msg)
unfolding filter_chat
filter_chat-Keeps f msg = elim (Bool-cases (f.enable_chat_states && f.has_handler)) [
  | inl e ↦ simp e (go msg.chat_state)
  | inr e ↦ simp e (λ rest a. a)
]
  where
    go :
        (o : Option ChatStateType)
        → Keeps f (elim o [ none ↦ (f, []) | some state ↦ filter_state f msg state ])
    go none = λ rest a. a
    go (some state) = filter_state-Keeps f msg state

decorate_chat-Keeps : (f : ChatStateFilter) → Keeps f (f, decorate_chat f)
unfolding decorate_chat Alternates
decorate_chat-Keeps f rest a = elim (Bool-cases f.enable_chat_states) [
  | inl e ↦ rw e a
  | inr e ↦ rw e a
]

chat_step-Keeps : (f : ChatStateFilter) (op : ChatOp) → Keeps f (chat_step f op)
unfolding chat_step
chat_step-Keeps f (filters msg) = filter_chat-Keeps f msg
chat_step-Keeps f (sets state) = set_chat_state-Keeps f state
chat_step-Keeps f decorates = decorate_chat-Keeps f
chat_step-Keeps f (registers given) = λ rest a. a

-- In every run of calls `setChatState` never sends the state again that it sent last, and never the
-- invalid one; a new filter does not begin with `gone`. The state that `decorate` adds to a message of
-- the session does not count: the filter does not keep it.
pub chat_run-Alternates :
    (f : ChatStateFilter) (ops : List ChatOp) → Alternates f.last_sent (chat_run f ops)
unfolding chat_run Alternates
chat_run-Alternates f [] = tt
chat_run-Alternates f (op ∷ ops) =
    chat_step-Keeps f op (chat_run (chat_step f op).0 ops)
      (chat_run-Alternates (chat_step f op).0 ops)

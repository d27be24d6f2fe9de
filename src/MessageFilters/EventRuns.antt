-- ===== src/MessageFilters/EventRuns.antt =====
-- Runs of a message event filter, and what raising an event does to the events that are asked for.
use Prim.Native.Nat.{bit_and}
use gloox.Base.{
  ℕ, ◌<◌, ◌≡◌, refl, sym, ap, subst, ◌∙◌, Bool, true, false, not, ◌&&◌, ◌||◌, List, [], ◌∷◌, ◌++◌,
  Option, none, some, Bool-cases, inl, inr, all_below, all_below_sound, ◌==◌, ==_iff, ltb, ltb→lt,
  All, is_empty,
}
use gloox.MessageFilters.{
  MessageEventFilter, MessageEventType, EventMessage, EventEffect, handle_message_event, send_event,
  event_offline, event_delivered, event_displayed, event_composing, event_invalid, event_cancel,
  event_code, same_event, without_event, raise_allowed, raise_message_event, filter_message,
  decorate_message, register_message_event_handler,
}

-- The events that are reported once for a message.
pub data IsReceipt : MessageEventType → Type 0 where
  offline : IsReceipt event_offline
  delivered : IsReceipt event_delivered
  displayed : IsReceipt event_displayed

-- A call of the filter.
pub data EventOp : Type 0 where
  filters : EventMessage → EventOp
  raises : MessageEventType → EventOp
  decorates_message : EventOp
  registers : Bool → EventOp

unfoldable pub event_step : MessageEventFilter → EventOp → MessageEventFilter × List EventEffect
event_step f (filters msg) = filter_message f msg
event_step f (raises e) = raise_message_event f e
event_step f decorates_message = ((decorate_message f).0, [])
event_step f (registers given) = (register_message_event_handler given f, [])

-- What a run of calls does, in order; what `decorate` adds to a message is no effect here.
unfoldable pub event_run : MessageEventFilter → List EventOp → List EventEffect
event_run f [] = []
event_run f (op ∷ ops) = (event_step f op).1 ++ event_run (event_step f op).0 ops

abbrev pub is_some : Option ℕ → Bool
is_some none = false
is_some (some e) = true

-- Another message with a text arrives that asks for events.
unfoldable pub asks : EventOp → Bool
asks (filters msg) = not (is_empty msg.body) && is_some msg.event
asks (raises e) = false
asks decorates_message = false
asks (registers given) = false

-- The effect is not that the event is sent.
abbrev pub IsNotSent : MessageEventType → EventEffect → Type 0
IsNotSent e (handle_message_event from events) = Unit
IsNotSent e (send_event d id) = same_event d e ≡ false

-- The event is not asked for, and the bits fit into six.
pub record IsCleared (e : MessageEventType) (f : MessageEventFilter) : Type 0 where
  pub clear : (bit_and f.requested_events (event_code e) == 0) ≡ true
  pub small : f.requested_events < 64

abbrev implies : Bool → Bool → Bool
implies a b = not a || b

implies_lem : {a b : Bool} → implies a b ≡ true → a ≡ true → b ≡ true
implies_lem {a = true} {b = b} h e = h
implies_lem {a = false} {b = b} h e = cc

and_both : {a b : Bool} → a && b ≡ true → (a ≡ true) × (b ≡ true)
and_both {a = true} {b = b} e = (refl, e)
and_both {a = false} {b = b} e = cc

-- Dropping the bit of `d` drops it, keeps the number small and keeps the bit of `e` out.
abbrev drops : MessageEventType → ℕ → Bool
drops d x = (bit_and (without_event x d) (event_code d) == 0) && ltb (without_event x d) 64

abbrev stays : MessageEventType → MessageEventType → ℕ → Bool
stays e d x =
    implies (bit_and x (event_code e) == 0) (bit_and (without_event x d) (event_code e) == 0)

drops_table : {d : MessageEventType} → IsReceipt d → all_below 64 (drops d) ≡ true
unfolding all_below
drops_table offline = refl
drops_table delivered = refl
drops_table displayed = refl

stays_table : {e d : MessageEventType} → IsReceipt e → IsReceipt d → all_below 64 (stays e d) ≡ true
unfolding all_below
stays_table offline offline = refl
stays_table offline delivered = refl
stays_table offline displayed = refl
stays_table delivered offline = refl
stays_table delivered delivered = refl
stays_table delivered displayed = refl
stays_table displayed offline = refl
stays_table displayed delivered = refl
stays_table displayed displayed = refl

pub drops_lem :
    {d : MessageEventType}
    → IsReceipt d
    → (f g : MessageEventFilter) → g.requested_events ≡ without_event f.requested_events d
    → f.requested_events < 64
    → IsCleared d g
drops_lem {d = d} r f g q h =
    let both = and_both (all_below_sound 64 (drops d) f.requested_events (drops_table r) h) in
    record {
      clear = ap (λ (n : ℕ). bit_and n (event_code d) == 0) q ∙ both.0;
      small = subst (λ (n : ℕ). n < 64) (sym q) (ltb→lt _ 64 both.1);
    }

stays_lem :
    {e d : MessageEventType}
    → IsReceipt e
    → IsReceipt d
    → (f g : MessageEventFilter) → g.requested_events ≡ without_event f.requested_events d
    → IsCleared e f
    → IsCleared e g
stays_lem {e = e} {d = d} r s f g q h = record {
  clear =
      ap (λ (n : ℕ). bit_and n (event_code e) == 0) q
      ∙ implies_lem (all_below_sound 64 (stays e d) f.requested_events (stays_table r s) h.small)
          h.clear;
  small = (drops_lem s f g q h.small).small;
}

-- The test of `raiseMessageEvent`.
abbrev pub refused : MessageEventFilter → MessageEventType → Bool
refused f e =
    f.disable
    || ((bit_and f.requested_events (event_code e) == 0) && not (same_event e event_cancel))

pub raise_refused :
    (f : MessageEventFilter) (e : MessageEventType)
    → refused f e ≡ true
    → raise_message_event f e ≡ (f, [])
unfolding raise_message_event
raise_refused f e c = simp c

pub raise_taken :
    (f : MessageEventFilter) (e : MessageEventType)
    → refused f e ≡ false
    → raise_message_event f e ≡ raise_allowed f e
unfolding raise_message_event
raise_taken f e c = simp c

-- The bit of the event stays out, and the event is not sent.
abbrev Silent : MessageEventType → MessageEventFilter × List EventEffect → Type 0
Silent e r = IsCleared e r.0 × All (IsNotSent e) r.1

same-code : (d e : MessageEventType) → same_event d e ≡ true → event_code d ≡ event_code e
same-code d e h = (==_iff (event_code d) (event_code e)).0 h

or_true : (b : Bool) → (b || true) ≡ true
or_true true = refl
or_true false = refl

receipt_no_cancel : {e : MessageEventType} → IsReceipt e → same_event e event_cancel ≡ false
receipt_no_cancel offline = refl
receipt_no_cancel delivered = refl
receipt_no_cancel displayed = refl

refused_of :
    (f : MessageEventFilter) {e : MessageEventType}
    → IsReceipt e
    → IsCleared e f
    → refused f e ≡ true
refused_of f r c = rw (c.clear, receipt_no_cancel r) (or_true f.disable)

-- An event that is taken is another one.
taken_differs :
    (f : MessageEventFilter) {e : MessageEventType} (d : MessageEventType)
    → IsReceipt e
    → IsCleared e f
    → refused f d ≡ false
    → same_event d e ≡ false
taken_differs f {e = e} d r c n = elim (Bool-cases (same_event d e)) [
  | inr s ↦ s
  | inl s ↦
      let a : refused f d ≡ true =
        ap (λ (n : ℕ). f.disable || ((bit_and f.requested_events n == 0) && not (n == 32)))
          (same-code d e s)
        ∙ refused_of f r c in
      absurd (cc)
]

raise_allowed-Silent :
    (f : MessageEventFilter) {e : MessageEventType} (d : MessageEventType)
    → IsReceipt e
    → IsCleared e f
    → same_event d e ≡ false
    → Silent e (raise_allowed f d)
raise_allowed-Silent f event_offline r c n = (stays_lem r offline f _ refl c, (n, tt))
raise_allowed-Silent f event_delivered r c n = (stays_lem r delivered f _ refl c, (n, tt))
raise_allowed-Silent f event_displayed r c n = (stays_lem r displayed f _ refl c, (n, tt))
raise_allowed-Silent f event_composing r c n =
    elim (Bool-cases (same_event f.last_sent event_composing)) [
      | inl q ↦ rw q (c, tt)
      | inr q ↦ rw q (record { clear = c.clear; small = c.small }, (n, tt))
    ]
raise_allowed-Silent f event_invalid r c n = (record { clear = c.clear; small = c.small }, (n, tt))
raise_allowed-Silent f event_cancel r c n = (record { clear = c.clear; small = c.small }, (n, tt))

pub raise-Silent :
    (f : MessageEventFilter) {e : MessageEventType} (d : MessageEventType)
    → IsReceipt e
    → IsCleared e f
    → Silent e (raise_message_event f d)
raise-Silent f {e = e} d r c = elim (Bool-cases (refused f d)) [
  | inl q ↦ subst (Silent e) (sym (raise_refused f d q)) (c, tt)
  | inr q ↦
      subst (Silent e) (sym (raise_taken f d q))
        (raise_allowed-Silent f d r c (taken_differs f d r c q))
]

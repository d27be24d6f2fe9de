-- ===== src/MessageFilters/Events.antt =====
-- The events that a filter sends once for a message.
use Prim.Native.Nat.{bit_and}
use gloox.Base.{
  ℕ, ◌<◌, ◌≡◌, refl, sym, ap, subst, ◌∙◌, Bool, true, false, not, ◌&&◌, ◌||◌, List, [], ◌∷◌, ◌++◌,
  Option, none, some, Bool-cases, inl, inr, ◌==◌, All, is_empty, ◌⊎◌, arith,
}
use gloox.MessageFilters.{
  MessageEventFilter, MessageEventType, EventMessage, EventEffect, event_code, raise_allowed,
  raise_message_event, filter_message, filter_event, decorate_message, is_not_implemented,
}
use gloox.MessageFilters.EventRuns.{
  IsReceipt, EventOp, event_step, event_run, is_some, asks, IsNotSent, IsCleared, drops_lem,
  refused, raise_refused, raise_taken, raise-Silent, offline, delivered, displayed, filters, raises,
  decorates_message, registers,
}

-- Nothing more can be sent of the event: the filter is disabled, or it is not asked for.
abbrev IsDone : MessageEventType → MessageEventFilter → Type 0
IsDone e f = (f.disable ≡ true) ⊎ IsCleared e f

abbrev Ends : MessageEventType → MessageEventFilter × List EventEffect → Type 0
Ends e r = IsDone e r.0 × All (IsNotSent e) r.1

raise-Ends :
    (f : MessageEventFilter) {e : MessageEventType} (d : MessageEventType)
    → IsReceipt e
    → IsDone e f
    → Ends e (raise_message_event f d)
raise-Ends f {e = e} d r (inl q) = subst (Ends e) (sym (raise_refused f d (rw q refl))) (inl q, tt)
raise-Ends f {e = e} d r (inr c) = let s = raise-Silent f d r c in (inr s.0, s.1)

zero_clear : {e : MessageEventType} → IsReceipt e → (bit_and 0 (event_code e) == 0) ≡ true
zero_clear offline = refl
zero_clear delivered = refl
zero_clear displayed = refl

filter_event-Ends :
    (f : MessageEventFilter) {e : MessageEventType} (msg : EventMessage) (o : Option ℕ)
    → IsReceipt e
    → IsCleared e f
    → (not (is_empty msg.body) && is_some o) ≡ false
    → Ends e (filter_event f msg o)
filter_event-Ends f msg none r c n =
    (inr (record { clear = zero_clear r; small = omega arith }), tt)
filter_event-Ends f msg (some events) r c n = elim (Bool-cases (is_empty msg.body)) [
  | inl q ↦ rw q (inr c, (tt, tt))
  | inr q ↦ let a : true ≡ false = ap (λ (b : Bool). not b && true) (sym q) ∙ n in absurd (cc)
]

filter-Ends :
    (f : MessageEventFilter) {e : MessageEventType} (msg : EventMessage)
    → IsReceipt e
    → IsDone e f
    → (not (is_empty msg.body) && is_some msg.event) ≡ false
    → Ends e (filter_message f msg)
unfolding filter_message
filter-Ends f msg r (inl q) n = simp q (inl refl, tt)
filter-Ends f {e = e} msg r (inr c) n = elim (Bool-cases (f.disable || not f.has_handler)) [
  | inl q ↦ rw q (inr c, tt)
  | inr q ↦ rw q (elim (Bool-cases msg.is_error) [
    | inl p ↦ rw p (elim (Bool-cases (is_not_implemented msg.error)) [
      | inl i ↦ rw i (inl refl, tt)
      | inr i ↦ rw i (inr c, tt)
    ])
    | inr p ↦ rw p (filter_event-Ends f msg msg.event r c n)
  ])
]

decorate-IsDone :
    (f : MessageEventFilter) {e : MessageEventType} → IsDone e f → IsDone e (decorate_message f).0
unfolding decorate_message
decorate-IsDone f d = elim (Bool-cases f.disable) [
  | inl q ↦ simp q (inl refl)
  | inr q ↦ simp q (elim d [
    | inl p ↦ let a : true ≡ false = sym p ∙ q in absurd (cc)
    | inr c ↦ inr (record { clear = c.clear; small = c.small })
  ])
]

step-Ends :
    (f : MessageEventFilter) {e : MessageEventType} (op : EventOp)
    → IsReceipt e
    → IsDone e f
    → asks op ≡ false
    → Ends e (event_step f op)
unfolding event_step asks
step-Ends f (filters msg) r d n = filter-Ends f msg r d n
step-Ends f (raises e2) r d n = raise-Ends f e2 r d
step-Ends f decorates_message r d n = (decorate-IsDone f d, tt)
step-Ends f (registers given) r (inl q) n = (inl q, tt)
step-Ends f (registers given) r (inr c) n = (inr (record { clear = c.clear; small = c.small }), tt)

All-append :
    (P : EventEffect → Type 0) (es ds : List EventEffect) → All P es → All P ds → All P (es ++ ds)
All-append P [] ds a b = b
All-append P (e ∷ es) ds (a, more) b = (a, All-append P es ds more b)

run-NotSent :
    (f : MessageEventFilter) {e : MessageEventType} (ops : List EventOp)
    → IsReceipt e
    → IsDone e f
    → All (λ op. asks op ≡ false) ops
    → All (IsNotSent e) (event_run f ops)
unfolding event_run
run-NotSent f [] r d a = tt
run-NotSent f (op ∷ ops) r d (a, more) =
    let s = step-Ends f op r d a in
    All-append _ (event_step f op).1 (event_run (event_step f op).0 ops) s.1
      (run-NotSent (event_step f op).0 ops r s.0 more)

raised-IsDone :
    (f : MessageEventFilter) {e : MessageEventType}
    → IsReceipt e
    → f.requested_events < 64
    → IsDone e (raise_message_event f e).0
raised-IsDone f {e = e} r h = elim (Bool-cases (refused f e)) [
  | inl q ↦
      subst (λ (p : MessageEventFilter × List EventEffect). IsDone e p.0)
        (sym (raise_refused f e q)) (refused-IsDone f r h q)
  | inr q ↦
      subst (λ (p : MessageEventFilter × List EventEffect). IsDone e p.0) (sym (raise_taken f e q))
        (inr (allowed-IsCleared f r h))
]
  where
    allowed-IsCleared :
        (f : MessageEventFilter) {e : MessageEventType}
        → IsReceipt e
        → f.requested_events < 64
        → IsCleared e (raise_allowed f e).0
    allowed-IsCleared f offline h = drops_lem offline f _ refl h
    allowed-IsCleared f delivered h = drops_lem delivered f _ refl h
    allowed-IsCleared f displayed h = drops_lem displayed f _ refl h

    refused-IsDone :
        (f : MessageEventFilter) {e : MessageEventType}
        → IsReceipt e
        → f.requested_events < 64
        → refused f e ≡ true
        → IsDone e f
    refused-IsDone f {e = e} r h q = elim (Bool-cases f.disable) [
      | inl p ↦ inl p
      | inr p ↦ inr (record { clear = go p; small = h })
    ]
      where
        go : f.disable ≡ false → (bit_and f.requested_events (event_code e) == 0) ≡ true
        go p = elim (Bool-cases (bit_and f.requested_events (event_code e) == 0)) [
          | inl z ↦ z
          | inr z ↦ let a : false ≡ true = rw_off p z ∙ q in absurd (cc)
        ]
          where
            rw_off :
                f.disable ≡ false
                → (bit_and f.requested_events (event_code e) == 0) ≡ false
                → false ≡ refused f e
            rw_off p z = rw (p, z) refl

-- A filter that has raised one of the events offline, delivered and displayed, whether it sent it or not,
-- does not send that event again in any run of calls, until a message with a text arrives that asks
-- for events. The bits of the events that were asked for fit into six.
pub raise_message_event_once :
    (f : MessageEventFilter) (e : MessageEventType)
    → IsReceipt e
    → (ops : List EventOp) → f.requested_events < 64
    → All (λ op. asks op ≡ false) ops
    → All (IsNotSent e) (event_run (raise_message_event f e).0 ops)
raise_message_event_once f e r ops h a =
    run-NotSent (raise_message_event f e).0 ops r (raised-IsDone f r h) a

-- ===== src/EventDispatcher/Queue.antt =====
-- A dispatcher as a queue: entries in the order of their registration, whatever their contexts are.
use gloox.Base.{
  ℕ, ◌≡◌, refl, sym, ap, ap₂, ◌∙◌, Bool, true, false, List, [], ◌∷◌, ◌++◌, Option, none, some,
  if◌then◌else◌, Bytes, equal, equal_iff, is_empty, All, Bool-cases, inl, inr, arith, ◌==◌, not,
  map, filter,
}
use gloox.EventDispatcher.{
  EventDispatcher, new_dispatcher, register_event_handler, range_of, erase_range, dispatch_context,
  erase_handler, remove_event_handler,
}
use gloox.EventDispatcher.Order.{
  Ordered, range_of-append, range_of-insert_multi, insert_multi-Ordered,
}
use gloox.StringMap.{less}

range_of-erase_range :
    (c k : Bytes) (m : List (Bytes × ℕ))
    → range_of c (erase_range k m) ≡ (if equal k c then [] else range_of c m)
unfolding range_of erase_range
range_of-erase_range c k [] = elim (Bool-cases (equal k c)) [
  | inl e ↦ rw e refl
  | inr e ↦ rw e refl
]
range_of-erase_range c k ((j, w) ∷ m) =
    ground (arith, equal_iff j k, equal_iff k c, equal_iff j c, range_of-erase_range c k m)

unfoldable without : ℕ → List ℕ → List ℕ
without h [] = []
without h (g ∷ gs) = let rest = without h gs in if g == h then rest else g ∷ rest

range_of-erase_handler :
    (c : Bytes) (h : ℕ) (m : List (Bytes × ℕ))
    → range_of c (erase_handler h m) ≡ without h (range_of c m)
unfolding range_of erase_handler without
range_of-erase_handler c h [] = refl
range_of-erase_handler c h ((j, w) ∷ m) = elim (Bool-cases (w == h)) [
  | inl e ↦ elim (Bool-cases (equal j c)) [
    | inl f ↦ simp (e, f) (range_of-erase_handler c h m)
    | inr f ↦ simp (e, f) (range_of-erase_handler c h m)
  ]
  | inr e ↦ elim (Bool-cases (equal j c)) [
    | inl f ↦ simp (e, f) (ap (◌∷◌ w) (range_of-erase_handler c h m))
    | inr f ↦ simp (e, f) (range_of-erase_handler c h m)
  ]
]

All-erase_range :
    (P : Bytes × ℕ → Type 0) (k : Bytes) (m : List (Bytes × ℕ)) → All P m → All P (erase_range k m)
unfolding erase_range
All-erase_range P k [] a = tt
All-erase_range P k ((j, w) ∷ m) (a, more) = elim (Bool-cases (equal j k)) [
  | inl e ↦ rw e (All-erase_range P k m more)
  | inr e ↦ rw e (a, All-erase_range P k m more)
]

All-erase_handler :
    (P : Bytes × ℕ → Type 0) (h : ℕ) (m : List (Bytes × ℕ)) → All P m → All P (erase_handler h m)
unfolding erase_handler
All-erase_handler P h [] a = tt
All-erase_handler P h ((j, w) ∷ m) (a, more) = elim (Bool-cases (w == h)) [
  | inl e ↦ rw e (All-erase_handler P h m more)
  | inr e ↦ rw e (a, All-erase_handler P h m more)
]

erase_range-Ordered : (k : Bytes) (m : List (Bytes × ℕ)) → Ordered m → Ordered (erase_range k m)
unfolding erase_range
erase_range-Ordered k [] o = tt
erase_range-Ordered k ((j, w) ∷ m) (o, os) = elim (Bool-cases (equal j k)) [
  | inl e ↦ rw e (erase_range-Ordered k m os)
  | inr e ↦
      rw e
        (All-erase_range (λ (e : Bytes × ℕ). less e.0 j ≡ false) k m o, erase_range-Ordered k m os)
]

erase_handler-Ordered : (h : ℕ) (m : List (Bytes × ℕ)) → Ordered m → Ordered (erase_handler h m)
unfolding erase_handler
erase_handler-Ordered h [] o = tt
erase_handler-Ordered h ((j, w) ∷ m) (o, os) = elim (Bool-cases (w == h)) [
  | inl e ↦ rw e (erase_handler-Ordered h m os)
  | inr e ↦ rw e (
    All-erase_handler (λ (e : Bytes × ℕ). less e.0 j ≡ false) h m o,
    erase_handler-Ordered h m os,
  )
]

-- The loops of the dispatcher, as filters.
range_of-filter :
    (c : Bytes) (m : List (Bytes × ℕ))
    → range_of c m ≡ map (λ (e : Bytes × ℕ). e.1) (filter (λ (e : Bytes × ℕ). equal e.0 c) m)
unfolding range_of
range_of-filter c [] = refl
range_of-filter c ((j, w) ∷ m) = elim (Bool-cases (equal j c)) [
  | inl e ↦ rw e (ap (◌∷◌ w) (range_of-filter c m))
  | inr e ↦ rw e (range_of-filter c m)
]

erase_range-filter :
    (c : Bytes) (m : List (Bytes × ℕ))
    → erase_range c m ≡ filter (λ (e : Bytes × ℕ). not (equal e.0 c)) m
unfolding erase_range
erase_range-filter c [] = refl
erase_range-filter c ((j, w) ∷ m) = elim (Bool-cases (equal j c)) [
  | inl e ↦ rw e (erase_range-filter c m)
  | inr e ↦ rw e (ap (◌∷◌ (j, w)) (erase_range-filter c m))
]

erase_handler-filter :
    (h : ℕ) (m : List (Bytes × ℕ))
    → erase_handler h m ≡ filter (λ (e : Bytes × ℕ). not (e.1 == h)) m
unfolding erase_handler
erase_handler-filter h [] = refl
erase_handler-filter h ((j, w) ∷ m) = elim (Bool-cases (w == h)) [
  | inl e ↦ rw e (erase_handler-filter h m)
  | inr e ↦ rw e (ap (◌∷◌ (j, w)) (erase_handler-filter h m))
]

-- A call of the dispatcher.
pub data DispatcherOp : Type 0 where
  registers : Option ℕ → Bytes → DispatcherOp
  dispatches : Bytes → Bool → DispatcherOp
  removes : ℕ → DispatcherOp

unfoldable pub step : EventDispatcher → DispatcherOp → EventDispatcher × List ℕ
step d (registers handler context) = (register_event_handler handler context d, [])
step d (dispatches context remove) = dispatch_context context remove d
step d (removes handler) = (remove_event_handler handler d, [])

-- The handlers that each call of a run calls.
unfoldable pub run : EventDispatcher → List DispatcherOp → List (List ℕ)
run d [] = []
run d (op ∷ ops) = (step d op).1 ∷ run (step d op).0 ops

-- The same on a queue of the registrations: a dispatch looks at all of them.
unfoldable pub queue_step : List (Bytes × ℕ) → DispatcherOp → List (Bytes × ℕ) × List ℕ
queue_step q (registers none context) = (q, [])
queue_step q (registers (some handler) context) =
    (if is_empty context then q else q ++ ((context, handler) ∷ []), [])
queue_step q (dispatches context remove) = (
  if remove then filter (λ e. not (equal e.0 context)) q else q,
  map (λ e. e.1) (filter (λ e. equal e.0 context) q),
)
queue_step q (removes handler) = (filter (λ e. not (e.1 == handler)) q, [])

unfoldable pub queue_run : List (Bytes × ℕ) → List DispatcherOp → List (List ℕ)
queue_run q [] = []
queue_run q (op ∷ ops) = (queue_step q op).1 ∷ queue_run (queue_step q op).0 ops

-- The dispatcher holds the entries of the queue, each context's in the same order.
record Holds (d : EventDispatcher) (q : List (Bytes × ℕ)) : Type 0 where
  ordered : Ordered d.context_handlers
  same : (c : Bytes) → range_of c d.context_handlers ≡ range_of c q

step-Holds :
    (d : EventDispatcher) (q : List (Bytes × ℕ)) (op : DispatcherOp)
    → Holds d q
    → ((step d op).1 ≡ (queue_step q op).1) × Holds (step d op).0 (queue_step q op).0
unfolding step queue_step register_event_handler dispatch_context remove_event_handler
step-Holds d q (registers none context) h = (refl, h)
step-Holds d q (registers (some handler) context) h = elim (Bool-cases (is_empty context)) [
  | inl e ↦ simp e (refl, h)
  | inr e ↦ simp e (
    refl,
    record {
      ordered = insert_multi-Ordered context handler d.context_handlers h.ordered;
      same = λ c.
          range_of-insert_multi c context handler d.context_handlers h.ordered
          ∙ ap (λ (l : List ℕ). l ++ range_of c ((context, handler) ∷ [])) (h.same c)
          ∙ sym (range_of-append c q ((context, handler) ∷ []));
    },
  )
]
step-Holds d q (dispatches context true) h = (
  h.same context ∙ range_of-filter context q,
  record {
    ordered = erase_range-Ordered context d.context_handlers h.ordered;
    same = λ c.
        range_of-erase_range c context d.context_handlers
        ∙ ap (λ (l : List ℕ). if equal context c then [] else l) (h.same c)
        ∙ sym (range_of-erase_range c context q)
        ∙ ap (range_of c) (erase_range-filter context q);
  },
)
step-Holds d q (dispatches context false) h = (h.same context ∙ range_of-filter context q, h)
step-Holds d q (removes handler) h = (
  refl,
  record {
    ordered = erase_handler-Ordered handler d.context_handlers h.ordered;
    same = λ c.
        range_of-erase_handler c handler d.context_handlers
        ∙ ap (without handler) (h.same c)
        ∙ sym (range_of-erase_handler c handler q)
        ∙ ap (range_of c) (erase_handler-filter handler q);
  },
)

run-Holds :
    (d : EventDispatcher) (q : List (Bytes × ℕ)) (ops : List DispatcherOp)
    → Holds d q
    → run d ops ≡ queue_run q ops
unfolding run queue_run
run-Holds d q [] h = refl
run-Holds d q (op ∷ ops) h =
    let k = step-Holds d q op h in
    ap₂ (λ (c : List ℕ) (cs : List (List ℕ)). c ∷ cs) k.0
      (run-Holds (step d op).0 (queue_step q op).0 ops k.1)

-- In every run of registrations, removals and dispatches from a new dispatcher, each dispatch calls the
-- handlers that a queue would: those registered for its context and not removed since, in the order of
-- their registration.
pub run-queue_run : (ops : List DispatcherOp) → run new_dispatcher ops ≡ queue_run [] ops
run-queue_run ops = run-Holds new_dispatcher [] ops (record { ordered = tt; same = λ c. refl })

-- ===== src/EventDispatcher.antt =====
-- Class `EventDispatcher` of src/eventdispatcher.cpp. A handler is a number, which stands for its address,
-- and an event is not looked at but for its type. Handlers do not call the dispatcher back.
pub mod Order
pub mod Queue
pub mod Tests
use gloox.Base.{
  ℕ, Bool, true, false, not, List, [], ◌∷◌, ◌++◌, Option, none, some, if◌then◌else◌, Bytes, equal,
  is_empty, ◌==◌,
}
use gloox.StringMap.{less}

-- `m_contextHandlers` and `m_typeHandlers`, sorted by their keys.
pub record EventDispatcher : Type 0 where
  pub context_handlers : List (Bytes × ℕ)
  pub type_handlers : List (ℕ × ℕ)

abbrev pub new_dispatcher : EventDispatcher
new_dispatcher = record { context_handlers = []; type_handlers = [] }

-- `std::multimap::insert`: behind all entries with the same key.
unfoldable pub insert_multi : Bytes → ℕ → List (Bytes × ℕ) → List (Bytes × ℕ)
insert_multi k v [] = (k, v) ∷ []
insert_multi k v ((j, w) ∷ m) =
    let rest = insert_multi k v m in if less k j then (k, v) ∷ (j, w) ∷ m else (j, w) ∷ rest

-- `registerEventHandler`, with a handler that may be null.
unfoldable pub register_event_handler : Option ℕ → Bytes → EventDispatcher → EventDispatcher
register_event_handler none context d = d
register_event_handler (some handler) context d =
    if is_empty context
    then d
    else record d { context_handlers = insert_multi context handler d.context_handlers }

-- The handlers of the entries in `equal_range( context )`.
unfoldable pub range_of : Bytes → List (Bytes × ℕ) → List ℕ
range_of context [] = []
range_of context ((k, handler) ∷ m) =
    let rest = range_of context m in if equal k context then handler ∷ rest else rest

unfoldable pub erase_range : Bytes → List (Bytes × ℕ) → List (Bytes × ℕ)
erase_range context [] = []
erase_range context ((k, handler) ∷ m) =
    let rest = erase_range context m in if equal k context then rest else (k, handler) ∷ rest

-- `dispatch( event, context, remove )`, and the handlers that are called, in order.
unfoldable pub dispatch_context : Bytes → Bool → EventDispatcher → EventDispatcher × List ℕ
dispatch_context context remove d = (
  if remove then record d { context_handlers = erase_range context d.context_handlers } else d,
  range_of context d.context_handlers,
)

-- `dispatch( event )`, with the type of the event.
unfoldable pub dispatch_type : ℕ → List (ℕ × ℕ) → List ℕ
dispatch_type event_type [] = []
dispatch_type event_type ((k, handler) ∷ m) =
    let rest = dispatch_type event_type m in if k == event_type then handler ∷ rest else rest

unfoldable pub erase_handler : ℕ → List (Bytes × ℕ) → List (Bytes × ℕ)
erase_handler handler [] = []
erase_handler handler ((k, h) ∷ m) =
    let rest = erase_handler handler m in if h == handler then rest else (k, h) ∷ rest

unfoldable pub remove_event_handler : ℕ → EventDispatcher → EventDispatcher
remove_event_handler handler d = record d {
  context_handlers = erase_handler handler d.context_handlers;
}

-- ===== src/MessageFilters/Tests.antt =====
-- The theorems of the filters on short runs.
use gloox.Base.{refl, All, false, none, [], ◌∷◌, List, codes, arith}
use gloox.MessageFilters.ChatStates.{ChatOp, sets, decorates}
use gloox.MessageFilters.Events.{raise_message_event_once}
use gloox.MessageFilters.EventRuns.{
  EventOp, filters, raises, decorates_message, displayed, IsNotSent, asks, event_run,
}
use gloox.MessageFilters.{
  composing, paused, MessageEventFilter, new_message_event_filter, event_displayed, event_delivered,
  no_error_given, raise_message_event,
}

abbrev ops : List ChatOp
ops = sets composing ∷ decorates ∷ sets composing ∷ sets paused ∷ []

abbrev asked : MessageEventFilter
asked = record new_message_event_filter { requested_events = 12; last_id = codes "m1" }

-- Another receipt, a message without an event, and the same receipt.
abbrev later : List EventOp
later =
    raises event_delivered
    ∷ decorates_message
    ∷ raises event_displayed
    ∷ filters (record {
      from = codes "a@b";
      id = codes "m2";
      body = [];
      is_error = false;
      error = no_error_given;
      event = none;
    })
    ∷ raises event_displayed
    ∷ []

raise_message_event_once_example :
    All (IsNotSent event_displayed) (event_run (raise_message_event asked event_displayed).0 later)
unfolding asks
raise_message_event_once_example =
    raise_message_event_once asked event_displayed displayed later (omega arith)
      (refl, (refl, (refl, (refl, (refl, tt)))))

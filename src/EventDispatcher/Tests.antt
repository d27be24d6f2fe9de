-- ===== src/EventDispatcher/Tests.antt =====
-- The theorem of the dispatcher on a run with two contexts.
use gloox.Base.{◌≡◌, true, some, [], ◌∷◌, List, codes}
use gloox.EventDispatcher.Queue.{
  DispatcherOp, registers, dispatches, removes, run, queue_run, run-queue_run,
}
use gloox.EventDispatcher.{new_dispatcher}

abbrev ops : List DispatcherOp
ops =
    registers (some 1) (codes "b")
    ∷ registers (some 2) (codes "a")
    ∷ registers (some 3) (codes "b")
    ∷ removes 1
    ∷ dispatches (codes "b") true
    ∷ dispatches (codes "b") true
    ∷ []

run-queue_run_example : run new_dispatcher ops ≡ queue_run [] ops
run-queue_run_example = run-queue_run ops

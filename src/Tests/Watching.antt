-- ===== src/Tests/Watching.antt =====
-- The event queue of watch.go at concrete inputs.
use distributed_system_proje.Prelude.{
  ℕ, ◌-◌, ◌≡◌, refl, none, some, List, [], ◌∷◌, arith, replicate,
}
use distributed_system_proje.Watch.{Event, watch_action_put, new_watcher, put_event, get_event, run}
use distributed_system_proje.Watch.Spec
use distributed_system_proje.Watch.Spec.{Op, put_op, get_op}
use distributed_system_proje.Watch.Run.{new_watcher_refines, tiny_watcher_loses_all, takes}

abbrev event : ℕ → Event
event n = record { action = watch_action_put; key = n ∷ []; value = n ∷ []; batch_id = n }

-- Three events into a queue that holds one, then one into it empty
abbrev ops : List (Op Event)
ops =
    put_op (event 1)
    ∷ put_op (event 2)
    ∷ put_op (event 3)
    ∷ get_op
    ∷ get_op
    ∷ put_op (event 4)
    ∷ get_op
    ∷ []

ops-run : run (new_watcher 3) ops ≡ some (some (event 3) ∷ none ∷ some (event 4) ∷ [])
unfolding run new_watcher put_event get_event
ops-run = refl

new_watcher_refines_example : run (new_watcher 3) ops ≡ some (Spec.run (3 - 2) [] ops)
new_watcher_refines_example = new_watcher_refines 3 ops (omega arith) (omega arith)

tiny_watcher_loses_all_example : run (new_watcher 2) ops ≡ some (replicate (takes ops) none)
tiny_watcher_loses_all_example = tiny_watcher_loses_all 2 ops (omega arith) (omega arith)

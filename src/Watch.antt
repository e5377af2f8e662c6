-- ===== src/Watch.antt =====
-- watch.go: the bounded queue of change events that a commit fills and the sender goroutine drains.
-- A run-time panic (an index out of range, a division by a zero capacity) is `none`.
pub mod Spec
pub mod Ring
pub mod Refine
pub mod Run
use distributed_system_proje.Prelude.{
  ℕ, ◌+◌, ◌%◌, ◌^◌, Bytes, Bool, Option, none, some, List, ◌==◌, ltb, if◌then◌else◌, [], ◌∷◌,
  get_elem?, set, length, replicate,
}
use distributed_system_proje.Watch.Spec.{Op, put_op, get_op}

-- `WatchActionType`
pub data WatchActionType : Type 0 where
  watch_action_put watch_action_delete : WatchActionType

-- `Event`
pub record Event : Type 0 where
  pub action : WatchActionType
  pub key : Bytes
  pub value : Bytes
  pub batch_id : ℕ

-- `eventQueue`; a slot that was never written holds Go's nil.
pub record EventQueue : Type 0 where
  pub events : List (Option Event)
  pub capacity : ℕ
  pub front : ℕ
  pub back : ℕ

-- The sum of two `uint64`.
abbrev pub add_uint64 : ℕ → ℕ → ℕ
add_uint64 a b = (a + b) % 2 ^ 64

-- `NewWatcher`: an empty queue over `capacity` nil slots, as many as the allocator can serve
unfoldable pub new_watcher : ℕ → EventQueue
new_watcher capacity = record {
  events = replicate capacity none;
  capacity = capacity;
  front = 0;
  back = 0;
}

-- `(i + 1) % eq.Capacity`; a capacity of 0 makes the division panic.
abbrev pub advance : EventQueue → ℕ → Option ℕ
advance q i = if q.capacity == 0 then none else some (add_uint64 i 1 % q.capacity)

-- `push` writes the slot before it moves the write point.
unfoldable pub push : EventQueue → Event → Option EventQueue
push q e =
    if ltb q.back (length q.events)
    then (elim (advance q q.back) [
      | none ↦ none
      | some back' ↦ some (record q { events = set q.events q.back (some e); back = back' })
    ])
    else none

unfoldable pub front_take_a_step : EventQueue → Option EventQueue
front_take_a_step q = elim (advance q q.front) [
  | none ↦ none
  | some front' ↦ some (record q { front = front' })
]

unfoldable pub pop : EventQueue → Option (Option Event × EventQueue)
unfolding front_take_a_step
pop q = elim (get_elem? q.events q.front) [
  | none ↦ none
  | some e ↦ (elim (front_take_a_step q) [ none ↦ none | some q' ↦ some (e, q') ])
]

unfoldable pub is_full : EventQueue → Option Bool
is_full q = elim (advance q q.back) [ none ↦ none | some next ↦ some (next == q.front) ]

unfoldable pub is_empty : EventQueue → Bool
is_empty q = q.back == q.front

-- `putEvent`: where the write point catches up with the read point the oldest event is dropped.
unfoldable pub put_event : EventQueue → Event → Option EventQueue
unfolding push is_full front_take_a_step
put_event q e = elim (push q e) [
  | none ↦ none
  | some q' ↦ (elim (is_full q') [
    | none ↦ none
    | some full ↦ if full then front_take_a_step q' else some q'
  ])
]

-- `getEvent`: nil on an empty queue
unfoldable pub get_event : EventQueue → Option (Option Event × EventQueue)
unfolding is_empty pop
get_event q = if is_empty q then some (none, q) else pop q

-- The calls of a sequence of users, one after the other as the mutex orders them, and what each
-- `getEvent` returns.
unfoldable pub run : EventQueue → List (Op Event) → Option (List (Option Event))
run q [] = some []
run q (put_op e ∷ ops) = elim (put_event q e) [ none ↦ none | some q' ↦ run q' ops ]
run q (get_op ∷ ops) = elim (get_event q) [
  | none ↦ none
  | some (answer, q') ↦ (elim (run q' ops) [ none ↦ none | some answers ↦ some (answer ∷ answers) ])
]

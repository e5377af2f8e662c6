-- ===== src/Watch/Refine.antt =====
-- The ring of watch.go against the list of Watch/Spec.
use distributed_system_proje.Prelude.{
  Bool, not, false, get_elem?-eq-get_or, ◌+◌, ◌-◌, ◌%◌, ◌^◌, ◌∙◌, ap, ap₂, sym, if◌then◌else◌, ltb,
  ◌<◌, ◌≡◌, none, some, [], ◌∷◌, ◌++◌, arith, inl, inr, Bool-cases, ltb→lt, ◌==◌, get_or, set,
  length, length-set,
}
use distributed_system_proje.Watch.{
  Event, EventQueue, add_uint64, push, is_full, front_take_a_step, pop, is_empty, put_event,
  get_event,
}
use distributed_system_proje.Watch.Spec
use distributed_system_proje.Watch.Spec.{tail}
use native.Mathlib.Numerals.{add-one}
use distributed_system_proje.Watch.Ring.{
  IsValid, slots_from, next_index, steps_back, waiting, contents, length-slots_from, slots_from-set,
  slots_from-pos,
}

-- The state after a push alone, before the drop.
abbrev pushed : EventQueue → Event → EventQueue
pushed q e = record q {
  events = set q.events q.back (some e);
  back = add_uint64 q.back 1 % q.capacity;
}

push_lem : (q : EventQueue) (e : Event) → IsValid q → push q e ≡ some (pushed q e)
unfolding push
push_lem q e v = ground arith

waiting-pushed :
    (q : EventQueue) (e : Event) → IsValid q → 1 < q.capacity → waiting (pushed q e) ≡ waiting q + 1
waiting-pushed q e v h = ground (arith, next_index q.capacity q.back)

contents-pushed :
    (q : EventQueue) (e : Event)
    → IsValid q
    → 1 < q.capacity
    → contents (pushed q e) ≡ contents q ++ (some e ∷ [])
contents-pushed q e v h =
    ap (slots_from (pushed q e).events q.capacity q.front)
      (waiting-pushed q e v h ∙ add-one (waiting q))
    ∙ slots_from-set q.events q.capacity (waiting q) q.front q.back (some e) (omega arith)
        (omega arith) (omega arith) (steps_back q.capacity q.front q.back v.front_in v.back_in)

-- The queue after the oldest event was dropped.
abbrev pub stepped : EventQueue → EventQueue
stepped q = record q { front = add_uint64 q.front 1 % q.capacity }

waiting-stepped :
    (q : EventQueue)
    → q.front < q.capacity
    → q.back < q.capacity
    → q.capacity < 2 ^ 64
    → 0 < waiting q
    → waiting (stepped q) ≡ waiting q - 1
waiting-stepped q hf hb hs h = ground (arith, next_index q.capacity q.front)

pub contents-stepped :
    (q : EventQueue)
    → q.front < q.capacity
    → q.back < q.capacity
    → q.capacity < 2 ^ 64
    → 0 < waiting q
    → contents q ≡ get_or q.events q.front none ∷ contents (stepped q)
contents-stepped q hf hb hs h =
    slots_from-pos q.events q.capacity q.front (waiting q) h
    ∙ ap₂ (λ i n. get_or q.events q.front none ∷ slots_from q.events q.capacity i n) fits
        (sym (waiting-stepped q hf hb hs h))
  where
    fits : (q.front + 1) % q.capacity ≡ add_uint64 q.front 1 % q.capacity
    fits = ap (λ k. k % q.capacity) (omega arith)

-- Full after a push: the write point would catch up with the read point.
abbrev catches_up : EventQueue → Bool
catches_up q = (add_uint64 q.back 1 % q.capacity) == q.front

abbrev after_put : EventQueue → Event → EventQueue
after_put q e = if catches_up (pushed q e) then stepped (pushed q e) else pushed q e

put_event_lem : (q : EventQueue) (e : Event) → IsValid q → put_event q e ≡ some (after_put q e)
unfolding put_event push is_full front_take_a_step
put_event_lem q e v = ground arith

catches_up-pushed :
    (q : EventQueue) (e : Event)
    → IsValid q
    → catches_up (pushed q e) ≡ not (ltb (waiting q) (q.capacity - 2))
catches_up-pushed q e v =
    ground (arith, next_index q.capacity q.back, next_index q.capacity (pushed q e).back)

-- The queue keeps its invariant when an event is put, whether or not the oldest is dropped.
pub after_put-IsValid : (q : EventQueue) (e : Event) → IsValid q → IsValid (after_put q e)
after_put-IsValid q e v = ground (
  arith,
  length-set q.events q.back (some e),
  next_index q.capacity q.back,
  next_index q.capacity q.front,
  next_index q.capacity (pushed q e).back,
)

pub length-contents : (q : EventQueue) → length (contents q) ≡ waiting q
length-contents q = length-slots_from q.events q.capacity q.front (waiting q)

contents-stepped-pushed :
    (q : EventQueue) (e : Event)
    → IsValid q
    → 1 < q.capacity
    → contents (stepped (pushed q e)) ≡ tail (contents q ++ (some e ∷ []))
contents-stepped-pushed q e v h =
    ap tail (
      sym (
        contents-stepped (pushed q e) v.front_in (ground (arith, next_index q.capacity q.back))
          v.small (omega (arith, waiting-pushed q e v h))))
    ∙ ap tail (contents-pushed q e v h)

contents-nil : (q : EventQueue) → waiting q ≡ 0 → contents q ≡ []
contents-nil q h = ap (slots_from q.events q.capacity q.front) h

capacity-after_put : (q : EventQueue) (e : Event) → (after_put q e).capacity ≡ q.capacity
capacity-after_put q e = ground arith

tiny_waiting : (q : EventQueue) → IsValid q → ltb 1 q.capacity ≡ false → waiting q ≡ 0
tiny_waiting q v h = ground arith

contents-after_put :
    (q : EventQueue) (e : Event)
    → IsValid q
    → contents (after_put q e) ≡ Spec.put (q.capacity - 2) (contents q) (some e)
contents-after_put q e v = elim (Bool-cases (ltb 1 q.capacity)) [
  | inl big ↦ elim (Bool-cases (ltb (waiting q) (q.capacity - 2))) [
    | inl fits ↦
        rw (catches_up-pushed q e v, fits)
          (contents-pushed q e v (ltb→lt _ _ big)
            ∙ sym (Spec.put_fits _ (contents q) (some e) (rw (length-contents q) fits)))
    | inr drops ↦
        rw (catches_up-pushed q e v, drops)
          (contents-stepped-pushed q e v (ltb→lt _ _ big)
            ∙ sym (Spec.put_drops _ (contents q) (some e) (rw (length-contents q) drops)))
  ]
  | inr one ↦
      contents-nil (after_put q e)
        (tiny_waiting (after_put q e) (after_put-IsValid q e v) (rw (capacity-after_put q e) one))
      ∙ sym (
          ap (λ l. Spec.put (q.capacity - 2) l (some e)) (contents-nil q (tiny_waiting q v one))
          ∙ Spec.put-nil (q.capacity - 2) (some e) (ground arith))
]

-- On a valid queue a put does not panic, keeps the invariant and the capacity, and leaves the
-- waiting events of the list of bound `capacity - 2`.
pub put_event_refines :
    (q : EventQueue) (e : Event)
    → IsValid q
    → (q' : EventQueue) × (put_event q e ≡ some q')
      × IsValid q'
      × (q'.capacity ≡ q.capacity)
      × (contents q' ≡ Spec.put (q.capacity - 2) (contents q) (some e))
put_event_refines q e v = (
  after_put q e,
  put_event_lem q e v,
  after_put-IsValid q e v,
  capacity-after_put q e,
  contents-after_put q e v,
)

pub stepped-IsValid : (q : EventQueue) → IsValid q → 0 < waiting q → IsValid (stepped q)
stepped-IsValid q v h = ground (arith, next_index q.capacity q.front)

pub get_event-nil : (q : EventQueue) → IsValid q → waiting q ≡ 0 → get_event q ≡ some (none, q)
unfolding get_event is_empty
get_event-nil q v h = ground arith

pub get_event-pos :
    (q : EventQueue)
    → IsValid q
    → 0 < waiting q
    → get_event q ≡ some (get_or q.events q.front none, stepped q)
unfolding get_event is_empty pop front_take_a_step
get_event-pos q v h = ground (arith, get_elem?-eq-get_or q.events q.front none)

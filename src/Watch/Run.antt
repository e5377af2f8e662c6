-- ===== src/Watch/Run.antt =====
-- Whole runs of the event queue against the list of Watch/Spec, and what a small capacity means.
use distributed_system_proje.Prelude.{
  ℕ, suc, ◌-◌, ◌^◌, ◌≤◌, ◌<◌, ◌∙◌, ap, sym, ◌≡◌, refl, Option, none, some, List, [], ◌∷◌, ◌++◌,
  arith, inl, inr, Bool-cases, ltb, length, length-map, map, replicate,
}
use distributed_system_proje.Watch.{Event, EventQueue, new_watcher, put_event, get_event, run}
use distributed_system_proje.Watch.Spec
use distributed_system_proje.Watch.Spec.{Op, put_op, get_op, tail}
use distributed_system_proje.Watch.Ring.{IsValid, contents, waiting, new_watcher-IsValid}
use distributed_system_proje.Watch.Refine.{
  put_event_refines, get_event-nil, get_event-pos, stepped, stepped-IsValid, contents-stepped,
  length-contents,
}
use mathlib.Core.List.{map-append}

map-tail {ℓ κ} :
    {A : Type ℓ} {B : Type κ} (f : A → B) (l : List A) → map f (tail l) ≡ tail (map f l)
map-tail f [] = refl
map-tail f (x ∷ l) = refl

map-put {ℓ κ} :
    {A : Type ℓ} {B : Type κ} (f : A → B) (n : ℕ) (l : List A) (e : A)
    → Spec.put n (map f l) (f e) ≡ map f (Spec.put n l e)
unfolding Spec.put
map-put f n l e = elim (Bool-cases (ltb (length l) n)) [
  | inl h ↦ rw (length-map l f, h) (sym (map-append f l (e ∷ [])))
  | inr h ↦
      rw (length-map l f, h)
        (ap tail (sym (map-append f l (e ∷ []))) ∙ sym (map-tail f (l ++ (e ∷ []))))
]

-- The first answer of a valid queue and the queue behind it, against the list that it holds.
get_event_refines :
    (q : EventQueue) (l : List Event)
    → IsValid q
    → contents q ≡ map some l
    → (q' : EventQueue) × (get_event q ≡ some ((Spec.get l).0, q'))
      × IsValid q'
      × (q'.capacity ≡ q.capacity)
      × (contents q' ≡ map some (Spec.get l).1)
unfolding Spec.get
get_event_refines q [] v h =
    (q, get_event-nil q v (sym (length-contents q) ∙ ap length h), v, refl, h)
get_event_refines q (e ∷ l) v h =
    let some_wait : 0 < waiting q = omega (arith, length-contents q, ap length h) in
    let split = contents-stepped q v.front_in v.back_in v.small some_wait in
    (
      stepped q,
      cc (get_event-pos q v some_wait, split, h),
      stepped-IsValid q v some_wait,
      refl,
      cc (split, h),
    )

run-put :
    (q q' : EventQueue) (e : Event) (ops : List (Op Event))
    → put_event q e ≡ some q'
    → run q (put_op e ∷ ops) ≡ run q' ops
unfolding run
run-put q q' e ops h = rw (h, run)

run-get :
    (q q' : EventQueue) (a : Option Event) (ops : List (Op Event)) (answers : List (Option Event))
    → get_event q ≡ some (a, q')
    → run q' ops ≡ some answers
    → run q (get_op ∷ ops) ≡ some (a ∷ answers)
unfolding run
run-get q q' a ops answers h k = rw (h, run) (rw (k, run))

-- No sequence of puts and takes makes a valid queue panic or tells it from the list that it holds.
pub run_refines :
    (ops : List (Op Event)) (q : EventQueue) (l : List Event)
    → IsValid q
    → contents q ≡ map some l
    → run q ops ≡ some (Spec.run (q.capacity - 2) l ops)
unfolding Spec.run
run_refines [] q l v h = unfold run in refl
run_refines (put_op e ∷ ops) q l v h =
    let (q', e1, v', c, e2) = put_event_refines q e v in
    run-put q q' e ops e1
    ∙ run_refines ops q' (Spec.put (q.capacity - 2) l e) v'
        (e2 ∙ ap (λ x. Spec.put (q.capacity - 2) x (some e)) h ∙ map-put some (q.capacity - 2) l e)
    ∙ ap (λ n. some (Spec.run (n - 2) (Spec.put (q.capacity - 2) l e) ops)) c
run_refines (get_op ∷ ops) q l v h =
    let (q', e1, v', c, e2) = get_event_refines q l v h in
    run-get q q' (Spec.get l).0 ops _ e1 (run_refines ops q' (Spec.get l).1 v' e2)
    ∙ ap (λ n. some ((Spec.get l).0 ∷ Spec.run (n - 2) (Spec.get l).1 ops)) c

-- A fresh watcher of any capacity from 1 on answers every sequence of puts and takes without a
-- panic, as the list that holds the last `capacity - 2` events.
pub new_watcher_refines :
    (capacity : ℕ) (ops : List (Op Event))
    → 0 < capacity
    → capacity < 2 ^ 64
    → run (new_watcher capacity) ops ≡ some (Spec.run (capacity - 2) [] ops)
new_watcher_refines capacity ops h k =
    run_refines ops (new_watcher capacity) [] (new_watcher-IsValid capacity h k)
      (unfold new_watcher in refl)
    ∙ (unfold new_watcher in refl)

-- How many takes a sequence of operations holds.
abbrev pub takes : List (Op Event) → ℕ
takes [] = 0
takes (put_op e ∷ ops) = takes ops
takes (get_op ∷ ops) = suc (takes ops)

run_without_room : (ops : List (Op Event)) → Spec.run 0 [] ops ≡ replicate (takes ops) none
unfolding Spec.run Spec.put Spec.get
run_without_room [] = refl
run_without_room (put_op e ∷ ops) = run_without_room ops
run_without_room (get_op ∷ ops) = ap (◌∷◌ none) (run_without_room ops)

-- A watch queue of size 1 or 2 delivers no event at all: every take of every run answers nil.
pub tiny_watcher_loses_all :
    (capacity : ℕ) (ops : List (Op Event))
    → 0 < capacity
    → capacity ≤ 2
    → run (new_watcher capacity) ops ≡ some (replicate (takes ops) none)
tiny_watcher_loses_all capacity ops h k =
    new_watcher_refines capacity ops h (omega arith)
    ∙ ap (λ n. some (Spec.run n [] ops)) none_fit
    ∙ ap some (run_without_room ops)
  where
    none_fit : capacity - 2 ≡ 0
    none_fit = omega arith

-- ===== src/Watch/Ring.antt =====
-- The slots of the event ring from the read point on, and the invariant of the queue.
use distributed_system_proje.Prelude.{
  ℕ, zero, suc, ◌+◌, ◌-◌, ◌%◌, ◌^◌, ◌≤◌, ◌<◌, ◌≡◌, ◌≢◌, refl, ap, ap₂, ◌∙◌, Option, none, List, [],
  ◌∷◌, ◌++◌, arith, inl, inr, Bool-cases, leb, leb→le, ◌==◌, ==_iff, if◌then◌else◌, get_or, set,
  length, replicate, length-replicate,
}
use distributed_system_proje.Watch.{add_uint64, Event, EventQueue, new_watcher}
use native.Mathlib.Nat.{mod-add-mod, mod-eq_of_lt, mod-eq-sub-mod, add-zero}
use native.Mathlib.Decide.{dec_lt}

abbrev pub Slots : Type 0
Slots = List (Option Event)

-- The `n` slots from index `i` on, going round at `size`.
abbrev pub slots_from : Slots → ℕ → ℕ → ℕ → Slots
slots_from ev size i zero = []
slots_from ev size i (suc n) = get_or ev i none ∷ slots_from ev size ((i + 1) % size) n

-- The steps from one index of a ring to another.
abbrev pub steps : ℕ → ℕ → ℕ → ℕ
steps n i j = if leb i j then j - i else j + n - i

-- How many events wait in the queue.
abbrev pub waiting : EventQueue → ℕ
waiting q = steps q.capacity q.front q.back

-- The index that follows `i`: no wrap of uint64, and back to 0 at the end of the ring.
pub next_index :
    (n i : ℕ) → i < n → n < 2 ^ 64 → add_uint64 i 1 % n ≡ (if (i + 1) == n then 0 else i + 1)
next_index n i h k = elim (Bool-cases ((i + 1) == n)) [
  | inl e ↦ rw e (ap (λ k. k % n) (omega (arith, (==_iff (i + 1) n).0 e)) ∙ mod_self n)
  | inr e ↦ rw e (ap (λ k. k % n) fits ∙ mod-eq_of_lt {n = i + 1} {m = n} (ground arith))
]
  where
    fits : add_uint64 i 1 ≡ i + 1
    fits = omega arith

    mod_self : (m : ℕ) → m % m ≡ 0
    mod_self m = grind arith

pub steps_back : (n i j : ℕ) → i < n → j < n → j ≡ (i + steps n i j) % n
steps_back n i j h k = elim (Bool-cases (leb i j)) [
  | inl e ↦ rw e (
      omega
        (arith, leb→le i j e, mod-eq_of_lt {n = i + (j - i)} {m = n} (omega (arith, leb→le i j e))))
  | inr e ↦ rw e (grind arith)
]

-- The waiting events, oldest first.
abbrev pub contents : EventQueue → Slots
contents q = slots_from q.events q.capacity q.front (waiting q)

pub length-slots_from : (ev : Slots) (size i n : ℕ) → length (slots_from ev size i n) ≡ n
length-slots_from ev size i zero = refl
length-slots_from ev size i (suc n) = ap suc (length-slots_from ev size ((i + 1) % size) n)

pub record IsValid (q : EventQueue) : Type 0 where
  pub slots : length q.events ≡ q.capacity
  pub small : q.capacity < 2 ^ 64
  pub front_in : q.front < q.capacity
  pub back_in : q.back < q.capacity
  pub room : waiting q ≤ q.capacity - 2

pub new_watcher-IsValid : (size : ℕ) → 0 < size → size < 2 ^ 64 → IsValid (new_watcher size)
unfolding new_watcher
new_watcher-IsValid size h k = ground (arith, slots)
  where
    empty_slot : Option Event
    empty_slot = none

    slots : length (replicate size empty_slot) ≡ size
    slots = length-replicate size empty_slot

-- Fewer than `size` steps round the ring do not come back to the start.
mod-ne : (size i k : ℕ) → i < size → suc k < size → (i + suc k) % size ≢ i
mod-ne size i k hi hk = elim (dec_lt (i + suc k) size) [
  | yes p ↦ omega (arith, mod-eq_of_lt p)
  | no p ↦ omega (
    arith,
    mod-eq-sub-mod {n = i + suc k} {m = size} (omega arith),
    mod-eq_of_lt {n = i + suc k - size} {m = size} (omega arith),
  )
]

get_or-set_other :
    (ev : Slots) (i j : ℕ) (v : Option Event)
    → i ≢ j
    → get_or (set ev i v) j none ≡ get_or ev j none
get_or-set_other [] i j v h = refl
get_or-set_other (x ∷ ev) zero zero v h = absurd (h refl)
get_or-set_other (x ∷ ev) zero (suc j) v h = refl
get_or-set_other (x ∷ ev) (suc i) zero v h = refl
get_or-set_other (x ∷ ev) (suc i) (suc j) v h = get_or-set_other ev i j v (λ e. h (ap suc e))

get_or-set_same :
    (ev : Slots) (i : ℕ) (v : Option Event) → i < length ev → get_or (set ev i v) i none ≡ v
get_or-set_same [] i v h = absurd (omega arith)
get_or-set_same (x ∷ ev) zero v h = refl
get_or-set_same (x ∷ ev) (suc i) v h = get_or-set_same ev i v (omega arith)

-- Writing the slot behind the last waiting event appends it.
pub slots_from-set :
    (ev : Slots) (size n i j : ℕ) (v : Option Event)
    → size ≤ length ev
    → i < size
    → n < size
    → j ≡ (i + n) % size
    → slots_from (set ev j v) size i (suc n) ≡ slots_from ev size i n ++ (v ∷ [])
slots_from-set ev size zero i j v hs hi hn e =
    rw (e, add-zero, mod-eq_of_lt hi, get_or-set_same ev i v (omega arith))
slots_from-set ev size (suc n) i j v hs hi hn e =
    ap₂ ◌∷◌ (get_or-set_other ev j i v (rw e (mod-ne size i n hi hn)))
      (slots_from-set ev size n ((i + 1) % size) j v hs (omega arith) (omega arith) (e ∙ shift))
  where
    shift : (i + suc n) % size ≡ ((i + 1) % size + n) % size
    shift = rw mod-add-mod (ap (λ k. k % size) (omega arith))

-- Where something waits, the first slot is split off.
pub slots_from-pos :
    (ev : Slots) (size i n : ℕ)
    → 0 < n
    → slots_from ev size i n ≡ get_or ev i none ∷ slots_from ev size ((i + 1) % size) (n - 1)
slots_from-pos ev size i zero p = absurd (omega arith)
slots_from-pos ev size i (suc n) p = ap (λ k. slots_from ev size i (suc k)) (omega arith)

-- ===== src/Watch/Spec.antt =====
-- What the event queue shows its two users: a list of at most `bound` events, oldest first, that
-- forgets the oldest one when a new one does not fit.
use distributed_system_proje.Prelude.{
  ℕ, ◌≡◌, true, false, Option, none, some, List, [], ◌∷◌, ◌++◌, ltb, if◌then◌else◌, length,
}

abbrev pub tail {ℓ} : {A : Type ℓ} → List A → List A
tail [] = []
tail (x ∷ xs) = xs

module _ {ℓ} {A : Type ℓ} where
  unfoldable pub put : ℕ → List A → A → List A
  put bound l e = if ltb (length l) bound then l ++ (e ∷ []) else tail (l ++ (e ∷ []))

  unfoldable pub get : List A → Option A × List A
  get [] = (none, [])
  get (e ∷ l) = (some e, l)

  -- With no room for any event, nothing is kept.
  pub put-nil : (bound : ℕ) (e : A) → bound ≡ 0 → put bound [] e ≡ []
  unfolding put
  put-nil bound e h = rw h

  pub put_fits :
      (bound : ℕ) (l : List A) (e : A) → ltb (length l) bound ≡ true → put bound l e ≡ l ++ (e ∷ [])
  unfolding put
  put_fits bound l e h = rw h

  pub put_drops :
      (bound : ℕ) (l : List A) (e : A)
      → ltb (length l) bound ≡ false
      → put bound l e ≡ tail (l ++ (e ∷ []))
  unfolding put
  put_drops bound l e h = rw h

-- What the two users of the queue do: a commit puts an event, the sender takes one.
pub data Op {ℓ} (A : Type ℓ) : Type ℓ where
  put_op : A → Op A
  get_op : Op A

module _ {ℓ} {A : Type ℓ} where
  -- The answers to the takes of a sequence of operations, in order.
  unfoldable pub run : ℕ → List A → List (Op A) → List (Option A)
  run bound l [] = []
  run bound l (put_op e ∷ ops) = run bound (put bound l e) ops
  run bound l (get_op ∷ ops) = let (answer, l') = get l in answer ∷ run bound l' ops

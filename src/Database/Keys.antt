-- ===== src/Database/Keys.antt =====
-- The key iterations of the database (db.go), with the filter of expired keys.
use distributed_system_proje.Prelude.{
  ◌>>=◌, ◌≡◌, refl, ap, sym, ◌∙◌, Bytes, Bool, true, false, Option, none, some, List, [], ◌∷◌, All,
  if◌then◌else◌, inl, inr, Bool-cases,
}
use distributed_system_proje.Prelude.Int.{ℤ}
use distributed_system_proje.Errors.{Error}
use distributed_system_proje.Index.Item.{Item, visit, keep}
use distributed_system_proje.Index.Sorted.{All-reverse}
use distributed_system_proje.Index.Api.{Handler, visitor}
use distributed_system_proje.Store.{Env, Db, Reply, ok, err}
use distributed_system_proje.Database.Iterate.{
  KeyHandler, ValueHandler, value_handler, key_handler, matcher, ascend_keys, descend_keys,
}
use distributed_system_proje.Database.Held.{IsReady}
use distributed_system_proje.Database.Walk.{
  pair_visitor, live_pairs, Placed, visit_step, visit_values,
}
use distributed_system_proje.Database.Scan.{HasPositions, entries-Placed, read_unlocked, All-keep}
use mathlib.Core.List.{reverse}

-- A handler of keys that is given the value too
abbrev pub drop_value : {S : Type 0} → KeyHandler S → ValueHandler S
drop_value f key value s = f key s

module _ (env : Env) {S : Type 0} (db : Db env) (clock : Bytes → ℤ) (matches : Bytes → Bool)
    (f : KeyHandler S) where
  abbrev key_step : Item → Option S → Bool × Option S
  key_step = visitor (key_handler env db clock matches true f)

  abbrev value_step : Item → Option S → Bool × Option S
  value_step = visitor (value_handler env db clock false (drop_value f))

  step-matches :
      (x : Item) (s : S) → matches x.key ≡ true → key_step x (some s) ≡ value_step x (some s)
  unfolding visitor key_handler value_handler
  step-matches x s e = rw e refl

  step-other : (x : Item) (s : S) → matches x.key ≡ false → key_step x (some s) ≡ (true, some s)
  unfolding visitor key_handler
  step-other x s e = rw e refl

  both : (go : Bool) (a b c : Option S) → a ≡ b → (if go then a else c) ≡ (if go then b else c)
  both true a b c e = e
  both false a b c e = refl

  stays_panicked : (xs : List Item) → visit value_step xs none ≡ none
  stays_panicked [] = unfold visit in refl
  stays_panicked (x ∷ xs) =
      visit_step value_step x xs none none false (unfold visitor value_handler in refl)

  -- The walk over the keys is the walk over the values of the items that match.
  visit_matching :
      (xs : List Item) (t : Option S)
      → visit key_step xs t ≡ visit value_step (keep (λ x. matches x.key) xs) t
  visit_matching [] t = unfold visit keep in refl
  visit_matching (x ∷ xs) none =
      visit_step key_step x xs none none false (unfold visitor key_handler in refl)
      ∙ sym (stays_panicked (keep (λ x. matches x.key) (x ∷ xs)))
  visit_matching (x ∷ xs) (some s) = elim (Bool-cases (matches x.key)) [
    | inl hit ↦
        visit_step key_step x xs (some s) _ _ (step-matches x s hit)
        ∙ both (value_step x (some s)).0 _ _ _ (visit_matching xs (value_step x (some s)).1)
        ∙ sym (visit_step value_step x (keep (λ x. matches x.key) xs) (some s) _ _ refl)
        ∙ ap (λ l. visit value_step l (some s)) (unfold keep in rw hit refl)
    | inr miss ↦
        visit_step key_step x xs (some s) (some s) true (step-other x s miss)
        ∙ visit_matching xs (some s)
        ∙ ap (λ l. visit value_step l (some s)) (unfold keep in rw miss refl)
  ]

-- What a key iteration answers, by what becomes of its pattern
abbrev pub key_answer :
    (env : Env) {S : Type 0}
    → Db env
    → (Bytes → ℤ)
    → KeyHandler S
    → S
    → List Item
    → Reply (Bytes → Bool)
    → Option (Option Error × S)
key_answer env db clock f s xs (err e) = some (some e, s)
key_answer env db clock f s xs (ok matches) = some (
  none,
  visit (pair_visitor (drop_value f)) (live_pairs env db clock (keep (λ x. matches x.key) xs)) s,
)

key_answer_lem :
    (env : Env) {S : Type 0} (db : Db env) (clock : Bytes → ℤ) (f : KeyHandler S) (s : S)
    (xs : List Item) (walk : Handler (Option S) → Option S → Option S) (c : Reply (Bytes → Bool))
    → IsReady env db
    → All (Placed env db) xs
    → ((g : Handler (Option S)) (t : Option S) → walk g t ≡ visit (visitor g) xs t)
    → (elim c [
      | err e ↦ some (some e, s)
      | ok matches ↦ (do
        s ← walk (key_handler env db clock matches true f) (some s)
        some (none, s))
    ])
      ≡ key_answer env db clock f s xs c
key_answer_lem env db clock f s xs walk (err e) ready h w = refl
key_answer_lem env {S} db clock f s xs walk (ok matches) ready h w =
    ap (λ (o : Option S). o >>= (λ s. some (none, s)))
      (w (key_handler env db clock matches true f) (some s)
        ∙ visit_matching env db clock matches f xs (some s)
        ∙ visit_values env db clock false (drop_value f) ready.sound (keep (λ x. matches x.key) xs)
            s (All-keep (Placed env db) (λ x. matches x.key) xs h))

-- On a ready database whose entries have positions, with the filter of expired keys and a pattern that
-- compiles, AscendKeys and DescendKeys do not panic, return no error, and hand their caller, until it
-- stops or errs, the keys that match and that a Get finds at the time of the visit, in the order of the
-- keys and against it. A pattern that does not compile is returned as the error, and nothing is visited.
pub key_iterations_visit_live_keys :
    (env : Env) {S : Type 0} (db : Db env) (clock : Bytes → ℤ)
    (compile : Bytes → Reply (Bytes → Bool)) (pattern : Bytes) (f : KeyHandler S) (s : S)
    → IsReady env db
    → HasPositions env db
    → (ascend_keys env db clock compile pattern true f s
        ≡ key_answer env db clock f s (env.indexer.entries db.index) (matcher compile pattern))
      × (descend_keys env db clock compile pattern true f s
          ≡ key_answer env db clock f s
              (reverse (env.indexer.entries db.index))
              (matcher compile pattern))
unfolding ascend_keys descend_keys
key_iterations_visit_live_keys env {S} db clock compile pattern f s ready h =
    let up = entries-Placed env db h in
    let down = All-reverse (Placed env db) (env.indexer.entries db.index) up in
    (
      read_unlocked db.mu _ ready.unlocked
          ∙ key_answer_lem env db clock f s _ _ (matcher compile pattern) ready up
              (env.indexer.ascend-entries (Option S) db.index),
      read_unlocked db.mu _ ready.unlocked
          ∙ key_answer_lem env db clock f s _ _ (matcher compile pattern) ready down
              (env.indexer.descend-entries (Option S) db.index),
    )

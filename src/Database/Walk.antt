-- ===== src/Database/Walk.antt =====
-- What the value iterations of the database (db.go) visit.
use distributed_system_proje.Prelude.{
  ◌≡◌, refl, ap, sym, ◌∙◌, Bytes, Bool, true, false, Option, none, some, List, [], ◌∷◌, arith, All,
  if◌then◌else◌, inl, inr, Bool-cases,
}
use distributed_system_proje.Prelude.Int.{ℤ}
use distributed_system_proje.Record.{ChunkPosition}
use distributed_system_proje.Index.Item.{Item, visit}
use distributed_system_proje.Index.Api.{visitor, goes_on}
use distributed_system_proje.Store.{Env, Db, ok, err}
use distributed_system_proje.Batch.Methods.{is_gone}
use distributed_system_proje.Batch.Sound.{IsSound, stored_reply}
use distributed_system_proje.Batch.Replies.{reply-live}
use distributed_system_proje.Database.Iterate.{
  ValueHandler, check_value, with_value, value_handler, handled,
}

-- A caller that is handed a list of pairs, until it stops or errs
abbrev pub pair_visitor : {S : Type 0} → ValueHandler S → Bytes × Bytes → S → Bool × S
pair_visitor f (key, value) s = let (a, s') = f key value s in (goes_on a, s')

pub visit_step {ℓ κ} :
    {A : Type ℓ} {T : Type κ} (g : A → T → Bool × T) (x : A) (xs : List A) (t t' : T) (go : Bool)
    → g x t ≡ (go, t')
    → visit g (x ∷ xs) t ≡ (if go then visit g xs t' else t')
unfolding visit
visit_step g x xs t t' true e =
    let goes : (g x t).0 ≡ true = ap (λ r. r.0) e in
    let state : (g x t).1 ≡ t' = ap (λ r. r.1) e in rw (goes, state, visit) refl
visit_step g x xs t t' false e =
    let stops : (g x t).0 ≡ false = ap (λ r. r.0) e in
    let state : (g x t).1 ≡ t' = ap (λ r. r.1) e in rw (stops, visit) state

module _ (env : Env) where
  -- The pairs of the items that a Get finds, in the order of the items
  unfoldable pub live_pairs : Db env → (Bytes → ℤ) → List Item → List (Bytes × Bytes)
  live_pairs db clock [] = []
  live_pairs db clock (x ∷ xs) =
      let rest = live_pairs db clock xs in
      elim (stored_reply env db x.key (clock x.key)) [
        | none ↦ rest
        | some r ↦ (elim r [ ok value ↦ (x.key, value) ∷ rest | err e ↦ rest ])
      ]

  -- An item stands where a Get of its key looks.
  abbrev pub Placed : Db env → Item → Type 0
  Placed db x = (p : ChunkPosition) × (x.pos ≡ some p) × (env.indexer.get db.index x.key ≡ some p)

  module _ {S : Type 0} (db : Db env) (clock : Bytes → ℤ) (quiet : Bool) (f : ValueHandler S)
      (sound : IsSound env db) where
    abbrev step : Item → Option S → Bool × Option S
    step = visitor (value_handler env db clock quiet f)

    handler-Placed :
        (x : Item) (p : ChunkPosition) (s : S)
        → x.pos ≡ some p
        → (e : env.indexer.get db.index x.key ≡ some p)
        → value_handler env db clock quiet f x.key x.pos (some s) ≡ (
            if is_gone (sound.live x.key p e).content (clock x.key)
            then ((true, none), some s)
            else handled (f x.key (sound.live x.key p e).content.value s))
    unfolding value_handler with_value check_value
    handler-Placed x p s pe e =
        let l = sound.live x.key p e in
        ground (arith, env.wal.read-chunks db.data_files l.before p l.chunk l.after l.at, l.decoded)

    -- An item that is gone is passed over, and one that is live is handed to the caller.
    visit_gone :
        (x : Item) (xs : List Item) (s : S) (p : ChunkPosition)
        → x.pos ≡ some p
        → (e : env.indexer.get db.index x.key ≡ some p)
        → is_gone (sound.live x.key p e).content (clock x.key) ≡ true
        → (visit step (x ∷ xs) (some s) ≡ visit step xs (some s))
          × (live_pairs db clock (x ∷ xs) ≡ live_pairs db clock xs)
    unfolding visitor live_pairs
    visit_gone x xs s p pe e gone =
        let handler : value_handler env db clock quiet f x.key x.pos (some s)
            ≡ ((true, none), some s) =
          handler-Placed x p s pe e ∙ rw gone refl in
        (
          visit_step step x xs (some s) (some s) true (ap (λ r. (goes_on r.0, r.1)) handler),
          rw (reply-live env db x.key p (clock x.key) e (sound.live x.key p e), gone, live_pairs)
              refl,
        )

    visit_alive :
        (x : Item) (xs : List Item) (s : S) (p : ChunkPosition)
        → x.pos ≡ some p
        → (e : env.indexer.get db.index x.key ≡ some p)
        → is_gone (sound.live x.key p e).content (clock x.key) ≡ false
        → (visit step (x ∷ xs) (some s) ≡ (
            if goes_on (f x.key (sound.live x.key p e).content.value s).0
            then visit step xs (some (f x.key (sound.live x.key p e).content.value s).1)
            else some (f x.key (sound.live x.key p e).content.value s).1))
          × (live_pairs db clock (x ∷ xs)
              ≡ (x.key, (sound.live x.key p e).content.value) ∷ live_pairs db clock xs)
    unfolding visitor live_pairs
    visit_alive x xs s p pe e alive =
        let handler : value_handler env db clock quiet f x.key x.pos (some s)
            ≡ handled (f x.key (sound.live x.key p e).content.value s) =
          handler-Placed x p s pe e ∙ rw alive refl in
        (
          visit_step step x xs (some s) _ _ (ap (λ r. (goes_on r.0, r.1)) handler),
          rw (reply-live env db x.key p (clock x.key) e (sound.live x.key p e), alive, live_pairs)
              refl,
        )

    next_pair :
        (go : Bool) (s : S) (xs : List Item)
        → visit step xs (some s) ≡ some (visit (pair_visitor f) (live_pairs db clock xs) s)
        → (if go then visit step xs (some s) else some s)
          ≡ some (if go then visit (pair_visitor f) (live_pairs db clock xs) s else s)
    next_pair true s xs e = e
    next_pair false s xs e = refl

    pub visit_values :
        (xs : List Item) (s : S)
        → All (Placed db) xs
        → visit step xs (some s) ≡ some (visit (pair_visitor f) (live_pairs db clock xs) s)
    visit_values [] s h = unfold visit live_pairs in refl
    visit_values (x ∷ xs) s ((p, pe, e), h) =
        elim (Bool-cases (is_gone (sound.live x.key p e).content (clock x.key))) [
          | inl gone ↦
              (let (walked, pairs) = visit_gone x xs s p pe e gone in
                rw (walked, pairs) (visit_values xs s h))
          | inr alive ↦
              (let (walked, pairs) = visit_alive x xs s p pe e alive in
                let value : Bytes = (sound.live x.key p e).content.value in
                walked
                ∙ next_pair (goes_on (f x.key value s).0) _ xs
                    (visit_values xs (f x.key value s).1 h)
                ∙ ap some (
                    sym (
                      visit_step (pair_visitor f) (x.key, value) (live_pairs db clock xs) s _ _
                        refl))
                ∙ ap (λ l. some (visit (pair_visitor f) l s)) (sym pairs))
        ]

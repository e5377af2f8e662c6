-- ===== src/Iterator/Walk.antt =====
-- iterator.go: a walk with the iterator of the database yields the pairs that Gets find.
use distributed_system_proje.Database.Scan.{HasPositions, entries-Placed}
use distributed_system_proje.Index.Sorted.{All-reverse}
use distributed_system_proje.Prelude.{
  ◌>>=◌, length-reverse, ℕ, zero, suc, ◌<◌, ◌≤◌, ◌≡◌, ◌⊎◌, refl, ◌∙◌, Bytes, Bool, true, false,
  Option, none, some, List, [], ◌∷◌, inl, inr, Bool-cases, arith, length, if◌then◌else◌, All,
}
use distributed_system_proje.Prelude.Int.{ℤ}
use distributed_system_proje.Record.{ChunkPosition, LogRecord}
use distributed_system_proje.Index.Item.{Item, keep}
use distributed_system_proje.Index.Api.{IndexIterator}
use distributed_system_proje.Store.{Env, Db}
use distributed_system_proje.Batch.Methods.{is_gone}
use distributed_system_proje.Batch.Sound.{IsSound}
use distributed_system_proje.Batch.Replies.{reply-live}
use distributed_system_proje.Database.Walk.{live_pairs, Placed}
use distributed_system_proje.Iterator.Prefix.{starts_with, has_prefix, has_no_prefix}
use distributed_system_proje.Iterator.{
  IteratorOptions, Iterator, lacks_prefix, skip_loop, skip_to_next, new_iterator, next, valid,
  drain,
}
use mathlib.Core.List.{reverse}

module _ (env : Env) (ii : IndexIterator env.indexer) (db : Db env) (clock : Bytes → ℤ)
    (sound : IsSound env db) where
  -- The pairs of the items with the prefix that Gets find
  abbrev pub selected : IteratorOptions → List Item → List (Bytes × Bytes)
  selected o xs = live_pairs env db clock (keep (λ x. starts_with o.prefix x.key) xs)

  at_end :
      (fuel : ℕ) (it : Iterator env ii) (iter : ii.Iter)
      → ii.Left iter []
      → skip_loop env ii (suc fuel) db clock it iter ≡ some (record it { index_iter = some iter })
  unfolding skip_loop
  at_end fuel it iter l = rw (ii.valid_at_end iter l) refl

  pass_prefix :
      (fuel : ℕ) (it : Iterator env ii) (iter iter' : ii.Iter) (x : Item) (xs : List Item)
      → ii.Left iter (x ∷ xs)
      → ii.next iter ≡ some iter'
      → lacks_prefix it.options.prefix x.key ≡ true
      → skip_loop env ii (suc fuel) db clock it iter ≡ skip_loop env ii fuel db clock it iter'
  unfolding skip_loop
  pass_prefix fuel it iter iter' x xs l n p =
      rw (skip_loop, ii.valid_before iter x xs l, ii.key-Left iter x xs l, p, n) refl

  module _ (fuel : ℕ) (it : Iterator env ii) (iter : ii.Iter) (x : Item) (xs : List Item)
      (q : ChunkPosition) (l : ii.Left iter (x ∷ xs)) (pe : x.pos ≡ some q)
      (e : env.indexer.get db.index x.key ≡ some q)
      (p : lacks_prefix it.options.prefix x.key ≡ false) where
    abbrev content : LogRecord
    content = (sound.live x.key q e).content

    pass_gone :
        (iter' : ii.Iter)
        → ii.next iter ≡ some iter'
        → is_gone content (clock x.key) ≡ true
        → skip_loop env ii (suc fuel) db clock it iter ≡ skip_loop env ii fuel db clock it iter'
    unfolding skip_loop
    pass_gone iter' n gone =
        let live = sound.live x.key q e in
        rw
          (
            skip_loop,
            ii.valid_before iter x xs l,
            ii.key-Left iter x xs l,
            p,
            ii.value-Left iter x xs l,
            pe,
            env.wal.read-chunks db.data_files live.before q live.chunk live.after live.at,
            live.decoded,
            gone,
            n,
          )
          refl

    stop_live :
        is_gone content (clock x.key) ≡ false
        → skip_loop env ii (suc fuel) db clock it iter
          ≡ some (record it { index_iter = some iter; current_item = some (x.key, content.value) })
    unfolding skip_loop
    stop_live alive =
        let live = sound.live x.key q e in
        rw
          (
            skip_loop,
            ii.valid_before iter x xs l,
            ii.key-Left iter x xs l,
            p,
            ii.value-Left iter x xs l,
            pe,
            env.wal.read-chunks db.data_files live.before q live.chunk live.after live.at,
            live.decoded,
            alive,
            live.same_key,
          )
          refl

    selected_gone :
        is_gone content (clock x.key) ≡ true → selected it.options (x ∷ xs) ≡ selected it.options xs
    unfolding keep live_pairs
    selected_gone gone =
        rw
          (
            has_prefix it.options.prefix x.key p,
            keep,
            reply-live env db x.key q (clock x.key) e (sound.live x.key q e),
            gone,
            live_pairs,
          )
          refl

    selected_alive :
        is_gone content (clock x.key) ≡ false
        → selected it.options (x ∷ xs) ≡ (x.key, content.value) ∷ selected it.options xs
    unfolding keep live_pairs
    selected_alive alive =
        rw
          (
            has_prefix it.options.prefix x.key p,
            keep,
            reply-live env db x.key q (clock x.key) e (sound.live x.key q e),
            alive,
            live_pairs,
          )
          refl

  -- Where skipToNext ends: behind the items, with no pair left, or on the item of the next pair
  abbrev Skipped : Iterator env ii → List Item → Option (Iterator env ii) → Type 0
  Skipped it xs out =
      ((iter : ii.Iter) × (out ≡ some (record it { index_iter = some iter }))
        × ii.Left iter []
        × (selected it.options xs ≡ []))
      ⊎ ((iter : ii.Iter) × ((x : Item) × ((ys : List Item) × ((value : Bytes) × (out
                  ≡ some (record it { index_iter = some iter; current_item = some (x.key, value) }))
                × ii.Left iter (x ∷ ys)
                × All (Placed env db) ys
                × (length ys < length xs)
                × (selected it.options xs ≡ (x.key, value) ∷ selected it.options ys)))))

  -- An item that is passed over changes nothing of where the walk ends.
  passed :
      (it : Iterator env ii) (x : Item) (xs : List Item) (out out' : Option (Iterator env ii))
      → out ≡ out'
      → selected it.options (x ∷ xs) ≡ selected it.options xs
      → Skipped it xs out'
      → Skipped it (x ∷ xs) out
  passed it x xs out out' same pairs (inl (iter, o, l, s)) = inl (iter, same ∙ o, l, pairs ∙ s)
  passed it x xs out out' same pairs (inr (iter, (y, (ys, (value, o, l, h, le, s))))) =
      inr (iter, (y, (ys, (value, same ∙ o, l, h, omega (arith, le), pairs ∙ s))))

  selected_other :
      (o : IteratorOptions) (x : Item) (xs : List Item)
      → lacks_prefix o.prefix x.key ≡ true
      → selected o (x ∷ xs) ≡ selected o xs
  unfolding keep
  selected_other o x xs p = rw (has_no_prefix o.prefix x.key p, keep) refl

  skip_loop-Skipped :
      (fuel : ℕ) (it : Iterator env ii) (iter : ii.Iter) (xs : List Item)
      → ii.Left iter xs
      → All (Placed env db) xs
      → length xs < fuel
      → Skipped it xs (skip_loop env ii fuel db clock it iter)
  unfolding keep live_pairs
  skip_loop-Skipped zero it iter xs l h le = absurd (omega arith)
  skip_loop-Skipped (suc fuel) it iter [] l h le = inl (iter, at_end fuel it iter l, l, refl)
  skip_loop-Skipped (suc fuel) it iter (x ∷ xs) l ((q, pe, e), h) le =
      let (iter', n, l') = ii.next-Left iter x xs l in
      let rest = skip_loop-Skipped fuel it iter' xs l' h (omega arith) in
      elim (Bool-cases (lacks_prefix it.options.prefix x.key)) [
        | inl p ↦
            passed it x xs _ _ (pass_prefix fuel it iter iter' x xs l n p)
              (selected_other it.options x xs p) rest
        | inr p ↦ elim (Bool-cases (is_gone (sound.live x.key q e).content (clock x.key))) [
          | inl gone ↦
              passed it x xs _ _ (pass_gone fuel it iter x xs q l pe e p iter' n gone)
                (selected_gone fuel it iter x xs q l pe e p gone) rest
          | inr alive ↦ inr (
            iter,
            (
              x,
              (
                xs,
                (
                  (sound.live x.key q e).content.value,
                  stop_live fuel it iter x xs q l pe e p alive,
                  l,
                  h,
                  omega arith,
                  selected_alive fuel it iter x xs q l pe e p alive,
                ),
              ),
            ),
          )
        ]
      ]

  -- Reading on behind a step
  then_drain :
      (rounds fuel : ℕ) (o : Option (Iterator env ii)) (pair : Bytes × Bytes)
      (pairs : List (Bytes × Bytes))
      → (o >>= (λ it. drain env ii rounds fuel db clock it)) ≡ some pairs
      → (o >>= (λ it. drain env ii rounds fuel db clock it >>= (λ rest. some (pair ∷ rest))))
        ≡ some (pair ∷ pairs)
  then_drain rounds fuel none pair pairs e = absurd (cc)
  then_drain rounds fuel (some it) pair pairs e = rw e refl

  drain-Skipped :
      (rounds fuel : ℕ) (it : Iterator env ii) (xs : List Item) (out : Option (Iterator env ii))
      → Skipped it xs out
      → length xs < rounds
      → length xs ≤ fuel
      → (out >>= (λ it'. drain env ii rounds fuel db clock it')) ≡ some (selected it.options xs)
  unfolding drain next valid
  drain-Skipped zero fuel it xs out s r f = absurd (omega arith)
  drain-Skipped (suc rounds) fuel it xs out (inl (iter, o, l, none_left)) r f =
      rw (o, ii.valid_at_end iter l, none_left) refl
  drain-Skipped (suc rounds) fuel it xs out (inr (iter, (x, (ys, (value, o, l, h, le, pairs))))) r
        f =
      let (iter', n, l') = ii.next-Left iter x ys l in
      let it' : Iterator env ii = record it { index_iter = some iter'; current_item = none } in
      let rest =
        drain-Skipped rounds fuel it' ys (skip_loop env ii fuel db clock it' iter')
          (skip_loop-Skipped fuel it' iter' ys l' h (omega arith)) (omega arith) (omega arith) in
      rw (o, ii.valid_before iter x ys l, pairs, n, skip_to_next)
        (then_drain rounds fuel _ (x.key, value) _ rest)

  -- The items in the order of a walk
  abbrev pub ordered : Bool → List Item
  ordered backwards =
      if backwards then reverse (env.indexer.entries db.index) else env.indexer.entries db.index

  in_order :
      (backwards : Bool)
      → HasPositions env db
      → All (Placed env db) (ordered backwards)
        × (length (ordered backwards) ≡ length (env.indexer.entries db.index))
  in_order true h = (
    All-reverse (Placed env db) (env.indexer.entries db.index) (entries-Placed env db h),
    length-reverse (env.indexer.entries db.index),
  )
  in_order false h = (entries-Placed env db h, refl)

  -- On a sound database whose entries have positions, a walk that reads Item and calls Next while the
  -- iterator is valid ends without a panic, and yields from a fresh iterator, in the order of the keys
  -- or against it, the pairs with the prefix of the options that Gets find at the time of the visit.
  pub drain-selected :
      (rounds fuel : ℕ) (options : IteratorOptions)
      → HasPositions env db
      → length (env.indexer.entries db.index) < rounds
      → length (env.indexer.entries db.index) < fuel
      → (new_iterator env ii fuel db clock options >>= (λ it. drain env ii rounds fuel db clock it))
        ≡ some (selected options (ordered options.reverse))
  unfolding new_iterator skip_to_next
  drain-selected rounds fuel options h r f =
      let start : Iterator env ii = record {
        index_iter = some (ii.iterator db.index options.reverse);
        options = options;
        last_error = none;
        current_item = none;
      } in
      let (placed, same) = in_order options.reverse h in
      drain-Skipped rounds fuel start _ _
        (skip_loop-Skipped fuel start (ii.iterator db.index options.reverse) _
          (ii.iterator-Left db.index options.reverse) placed (omega (arith, same)))
        (omega (arith, same)) (omega (arith, same))

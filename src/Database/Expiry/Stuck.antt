-- ===== src/Database/Expiry/Stuck.antt =====
-- DeleteExpiredKeys (db.go) where the greatest key has not expired: each scan finds that key again.
use distributed_system_proje.Prelude.{
  All-both, ℕ, zero, suc, ◌≡◌, refl, ap, sym, ◌∙◌, subst, Bytes, true, false, Option, none, some,
  List, ◌∷◌, All, All-map, take, bytes_equal, bytes_equal-eq, bytes_less, inl, inr, Bool-cases,
  Option-cases,
}
use distributed_system_proje.Prelude.Int.{ℤ}
use distributed_system_proje.Record.{LogRecord, ChunkPosition, is_expired}
use distributed_system_proje.Index.Item.{Item, find_item, position_of}
use distributed_system_proje.Index.Sorted.{delete_item-All}
use distributed_system_proje.Store.{Env, Db, Batch, lock, writing}
use distributed_system_proje.Batch.Methods.{stored_record, found}
use distributed_system_proje.Batch.Sound.{IsSound, stored_record-live, stored_record-absent}
use distributed_system_proje.Database.Held.{IsReady, with_lock, with_lock-IsSound}
use distributed_system_proje.Database.Walk.{Placed}
use distributed_system_proje.Database.Scan.{HasPositions, entries-Placed, All-keep}
use distributed_system_proje.Database.Expiry.{
  expiry_reply, still_running, scan_positions, expire_positions, expire_loop, delete_expired_keys,
}
use distributed_system_proje.Database.Expiry.Pass.{
  from, from-find_item, positions_of, with_index, Expirable, Keeps, expire_positions-Keeps,
  scan_positions_lem, expire_loop_pass, delete_expired_keys-expire_loop, All-take,
}

-- A position comes from an item.
found_item :
    (o : Option Item) (p : ChunkPosition) → position_of o ≡ some p → (it : Item) × (o ≡ some it)
found_item none p e = absurd (cc)
found_item (some it) p e = (it, refl)

module _ (env : Env) (db : Db env) (now : ℤ) (top : Bytes) (r : LogRecord) (sound : IsSound env db)
    (stored : stored_record env db top ≡ some (found r)) (fresh : is_expired r now ≡ false) where
  -- The entries are of the database, none behind `top`, and `top` is one of them.
  abbrev Topped : env.indexer.Index → Type 0
  Topped i =
      All (λ y. Placed env db y × (bytes_less top y.key ≡ false)) (env.indexer.entries i)
      × ((p : ChunkPosition) × (env.indexer.get i top ≡ some p))

  abbrev Below : Bytes → Type 0
  Below key = bytes_less top key ≡ false

  -- An expired record is not that of `top`.
  other_key :
      (key : Bytes) (p : ChunkPosition)
      → (e : env.indexer.get db.index key ≡ some p)
      → is_expired (sound.live key p e).content now ≡ true
      → bytes_equal top key ≡ false
  other_key key p e old = elim (Bool-cases (bytes_equal top key)) [
    | inr other ↦ other
    | inl same ↦
        (let here : stored_record env db top ≡ some (found (sound.live key p e).content) =
            subst (λ k. stored_record env db k ≡ some (found (sound.live key p e).content))
              (sym (bytes_equal-eq top key same))
              (stored_record-live env db key p e (sound.live key p e)) in
          absurd (cc (here, stored, old, fresh)))
  ]

  topped :
      (key : Bytes) (i : env.indexer.Index)
      → bytes_equal top key ≡ false
      → Topped i
      → Topped (env.indexer.delete i key).0
  topped key i other (all, (p, e)) = (
    rw (env.indexer.entries-delete i key) (delete_item-All _ key _ all),
    (p, env.indexer.get-delete i key top ∙ rw other e),
  )

  Topped-Expirable :
      (y : Item)
      → Placed env db y × (bytes_less top y.key ≡ false)
      → Expirable env db now Topped Below y
  Topped-Expirable y ((p, placed, e), below) =
      let l = sound.live y.key p e in
      record {
        at = p;
        placed = placed;
        chunk = l.chunk;
        reads = env.wal.read-chunks db.data_files l.before p l.chunk l.after l.at;
        content = l.content;
        decodes = l.decoded;
        wanted = subst Below (sym l.same_key) below;
        kept = λ i old j.
            subst (λ k. Topped (env.indexer.delete i k).0) (sym l.same_key)
              (topped y.key i (other_key y.key p e old) j);
      }

  pass :
      (i : env.indexer.Index) (cursor : Bytes)
      → Topped i
      → Below cursor
      → Keeps env db now Topped Below (
          expire_positions env
            (with_index env i db)
            now
            cursor
            (scan_positions env (with_index env i db) cursor))
  pass i cursor t below = rw (scan_positions_lem env (with_index env i db) cursor) (
      expire_positions-Keeps env db now Topped Below
        (take 100 (from cursor (env.indexer.entries i))) i cursor
        (All-take _ 100 _ (All-keep _ _ _ (All-map _ _ _ Topped-Expirable t.0))) t below)

  -- A scan from `top`, or from before it, finds something.
  scans :
      (i : env.indexer.Index) (cursor : Bytes)
      → Topped i
      → Below cursor
      → (pos : Option ChunkPosition) × ((rest : List (Option ChunkPosition)) × (scan_positions env
              (with_index env i db)
              cursor
            ≡ pos ∷ rest))
  scans i cursor (all, (p, e)) below =
      let (it, at) =
        found_item (find_item top (env.indexer.entries i)) p
          (sym (env.indexer.get-entries i top) ∙ e) in
      let (y, (ys, more)) = from-find_item top cursor (env.indexer.entries i) it at below in
      (
        y.pos,
        (
          positions_of (take 99 ys),
          scan_positions_lem env (with_index env i db) cursor
              ∙ ap (λ xs. positions_of (take 100 xs)) more,
        ),
      )

  loop_runs :
      (fuel : ℕ) (i : env.indexer.Index) (cursor : Bytes)
      → Topped i
      → Below cursor
      → (i' : env.indexer.Index) × ((cursor' : Bytes) × (expire_loop env fuel
              (with_index env i db)
              now
              cursor
            ≡ still_running (with_index env i' db) cursor'))
  loop_runs zero i cursor t below = (i, (cursor, unfold expire_loop in refl))
  loop_runs (suc fuel) i cursor t below =
      let (pos, (rest, more)) = scans i cursor t below in
      let (i', (cursor', run, t', below')) = pass i cursor t below in
      let (last, (end, runs)) = loop_runs fuel i' cursor' t' below' in
      (
        last,
        (
          end,
          expire_loop_pass env fuel (with_index env i db) (with_index env i' db) now cursor cursor'
                pos rest more run
              ∙ runs,
        ),
      )

  entries-Topped :
      HasPositions env db
      → All (λ y. bytes_less top y.key ≡ false) (env.indexer.entries db.index)
      → Topped db.index
  entries-Topped positions greatest = (
    All-both _ _ _ (entries-Placed env db positions) greatest,
    elim (Option-cases (env.indexer.get db.index top)) [
      | inl e ↦ absurd (cc (stored_record-absent env db top e, stored))
      | inr e ↦ e
    ],
  )

-- On a ready database whose entries have positions and whose greatest key has a record that has not
-- expired, DeleteExpiredKeys does not end, from no cursor behind that key: after any number of scans
-- it still runs and holds the lock, so that the call waits for its timeout and no batch can begin.
pub delete_expired_keys-never_ends :
    (env : Env) (fuel : ℕ) (db : Db env) (now : ℤ) (cursor top : Bytes) (r : LogRecord) (b : Batch)
    → IsReady env db
    → HasPositions env db
    → All (λ y. bytes_less top y.key ≡ false) (env.indexer.entries db.index)
    → stored_record env db top ≡ some (found r)
    → is_expired r now ≡ false
    → bytes_less top cursor ≡ false
    → (db' : Db env) × ((cursor' : Bytes) × (delete_expired_keys env fuel db now cursor
          ≡ still_running db' cursor')
        × (expiry_reply env false (still_running db' cursor') ≡ none)
        × (lock env b db' ≡ none))
unfolding lock expiry_reply stored_record
delete_expired_keys-never_ends env fuel db now cursor top r b ready positions greatest stored fresh
      below =
    let held : Db env = with_lock env writing db in
    let sound : IsSound env held = with_lock-IsSound env writing db ready.sound in
    let stored' : stored_record env held top ≡ some (found r) = stored in
    let (i, (end, runs)) =
      loop_runs env held now top r sound stored' fresh fuel held.index cursor
        (entries-Topped env held now top r sound stored' fresh positions greatest) below in
    (
      with_index env i held,
      (
        end,
        delete_expired_keys-expire_loop env fuel db now cursor ready.unlocked ∙ runs,
        refl,
        refl,
      ),
    )

-- ===== src/Database/Expiry/Quiet.antt =====
-- DeleteExpiredKeys (db.go) as Gets see it: it takes out of the index what is expired, and no reply
-- changes.
use distributed_system_proje.Prelude.{
  ℕ, zero, suc, ◌≡◌, refl, sym, ◌∙◌, subst, Bytes, true, Option, none, some, List, [], ◌∷◌,
  append-nil, arith, All, All-map, take, bytes_equal, bytes_equal-eq, inl, inr, Bool-cases,
}
use distributed_system_proje.Prelude.Int.{ℤ, ◌≤ℤ◌}
use distributed_system_proje.Errors.{err_key_not_found}
use distributed_system_proje.Record.{ChunkPosition, is_expired}
use distributed_system_proje.Index.Item.{Item}
use distributed_system_proje.Index.Sorted.{delete_item-All}
use distributed_system_proje.Store.{Env, Db, err, free, writing}
use distributed_system_proje.Batch.Sound.{IsSound, stored_reply}
use distributed_system_proje.Batch.Replies.{is_gone_mono, reply-live, reply-absent}
use distributed_system_proje.Batch.Atomic.{grown}
use distributed_system_proje.Database.Held.{
  IsReady, with_lock, with_lock-IsSound, stored_reply-with_lock,
}
use distributed_system_proje.Database.Walk.{Placed}
use distributed_system_proje.Database.Scan.{HasPositions, entries-Placed, All-keep}
use distributed_system_proje.Database.Expiry.{
  RwLock, Progress, finished, still_running, waiting, panicked, scan_positions, expire_positions,
  expire_loop, delete_expired_keys,
}
use distributed_system_proje.Database.Expiry.Pass.{
  expire_loop_pass, delete_expired_keys-expire_loop, expire_loop_end, from, with_index, Expirable,
  Keeps, expire_positions-Keeps, All-take, scan_positions_lem,
}

module _ (env : Env) where
  -- A sound database whose entries have positions, and on which every Get from `now` on replies what
  -- it does on `db`
  pub record Undisturbed (db : Db env) (now : ℤ) (db' : Db env) : Type 0 where
    pub sound : IsSound env db'
    pub positions : HasPositions env db'
    pub replies :
        (key : Bytes) (later : ℤ)
        → now ≤ℤ later
        → stored_reply env db' key later ≡ stored_reply env db key later

  -- What a run of DeleteExpiredKeys may come to: it ends without an error, with the cursor reset and
  -- the lock free, or it runs on and holds the lock.
  unfoldable pub IsQuiet : Db env → ℤ → Progress env → Type 0
  IsQuiet db now (finished e db' cursor) =
      (e ≡ none)
      × (cursor ≡ [])
      × (db'.mu ≡ free)
      × (db'.closed ≡ db.closed)
      × Undisturbed db now db'
  IsQuiet db now (still_running db' cursor) = (db'.mu ≡ writing) × Undisturbed db now db'
  IsQuiet db now waiting = ⊥
  IsQuiet db now panicked = ⊥

  module _ (db : Db env) (now : ℤ) (sound : IsSound env db) where
    -- What holds of the index throughout
    abbrev Trimmed : env.indexer.Index → Type 0
    Trimmed i =
        All (Placed env db) (env.indexer.entries i)
        × IsSound env (with_index env i db)
        × ((key : Bytes) (later : ℤ)
            → now ≤ℤ later
            → stored_reply env (with_index env i db) key later ≡ stored_reply env db key later)

    -- The entry of an expired record is taken out: its key was not found before.
    trimmed :
        (key : Bytes) (p : ChunkPosition) (i : env.indexer.Index)
        → (e : env.indexer.get db.index key ≡ some p)
        → is_expired (sound.live key p e).content now ≡ true
        → Trimmed i
        → Trimmed (env.indexer.delete i key).0
    trimmed key p i e old (placed, s, same) = (
      rw (env.indexer.entries-delete i key) (delete_item-All _ key _ placed),
      record {
        cached = s.cached;
        watched = s.watched;
        live = λ other q h. s.live other q (ground (arith, env.indexer.get-delete i key other, h));
      },
      λ other later le. elim (Bool-cases (bytes_equal other key)) [
        | inl here ↦
            reply-absent env _ other later (env.indexer.get-delete i key other ∙ rw here refl)
            ∙ sym (
                subst (λ k. stored_reply env db k later ≡ some (err err_key_not_found))
                  (sym (bytes_equal-eq other key here))
                  (reply-live env db key p later e (sound.live key p e)
                    ∙ rw (is_gone_mono (sound.live key p e).content now later le (ground arith))
                        refl))
        | inr elsewhere ↦
            grown env (with_index env i db) _ [] s (sym (append-nil (env.wal.chunks db.data_files)))
              other later (env.indexer.get-delete i key other ∙ rw elsewhere refl)
            ∙ same other later le
      ],
    )

    Placed-Expirable : (x : Item) → Placed env db x → Expirable env db now Trimmed (λ k. Unit) x
    Placed-Expirable x (p, placed, e) =
        let l = sound.live x.key p e in
        record {
          at = p;
          placed = placed;
          chunk = l.chunk;
          reads = env.wal.read-chunks db.data_files l.before p l.chunk l.after l.at;
          content = l.content;
          decodes = l.decoded;
          wanted = tt;
          kept = λ i old j.
              subst (λ k. Trimmed (env.indexer.delete i k).0) (sym l.same_key)
                (trimmed x.key p i e old j);
        }

    -- One pass over the scanned positions
    pass :
        (i : env.indexer.Index) (cursor : Bytes)
        → Trimmed i
        → Keeps env db now Trimmed
            (λ k. Unit)
            (expire_positions env
              (with_index env i db)
              now
              cursor
              (scan_positions env (with_index env i db) cursor))
    pass i cursor t = rw (scan_positions_lem env (with_index env i db) cursor) (
        expire_positions-Keeps env db now Trimmed (λ k. Unit)
          (take 100 (from cursor (env.indexer.entries i))) i cursor
          (All-take _ 100 _ (All-keep _ _ _ (All-map _ _ _ Placed-Expirable t.0))) t tt)

    -- `db` under an index that has been trimmed, its lock set to `mu`
    undisturbed :
        (mu : RwLock) (i : env.indexer.Index)
        → Trimmed i
        → Undisturbed db now (with_lock env mu (with_index env i db))
    undisturbed mu i (placed, s, same) = record {
      sound = with_lock-IsSound env mu (with_index env i db) s;
      positions = All-map _ _ _ (λ x h. (h.0, h.1)) placed;
      replies = λ key later le.
          stored_reply-with_lock env mu (with_index env i db) key later s ∙ same key later le;
    }

    -- The loop behind one scan, where the loop behind the next ones is quiet
    scanned-IsQuiet :
        (fuel : ℕ) (i : env.indexer.Index) (cursor : Bytes)
        (positions : List (Option ChunkPosition))
        → scan_positions env (with_index env i db) cursor ≡ positions
        → Trimmed i
        → ((i : env.indexer.Index) (cursor : Bytes)
            → Trimmed i
            → IsQuiet db now (expire_loop env fuel (with_index env i db) now cursor))
        → IsQuiet db now (expire_loop env (suc fuel) (with_index env i db) now cursor)
    unfolding IsQuiet
    scanned-IsQuiet fuel i cursor [] e t next =
        rw (expire_loop_end env fuel (with_index env i db) now cursor e)
          (refl, refl, refl, refl, undisturbed free i t)
    scanned-IsQuiet fuel i cursor (pos ∷ rest) e t next =
        let (i', (cursor', run, t', u)) = pass i cursor t in
        rw (expire_loop_pass env fuel (with_index env i db) _ now cursor cursor' pos rest e run)
          (next i' cursor' t')

    loop-IsQuiet :
        (fuel : ℕ) (i : env.indexer.Index) (cursor : Bytes)
        → db.mu ≡ writing
        → Trimmed i
        → IsQuiet db now (expire_loop env fuel (with_index env i db) now cursor)
    unfolding expire_loop IsQuiet
    loop-IsQuiet zero i cursor held (placed, s, same) = (
      held,
      record { sound = s; positions = All-map _ _ _ (λ x h. (h.0, h.1)) placed; replies = same },
    )
    loop-IsQuiet (suc fuel) i cursor held t =
        scanned-IsQuiet fuel i cursor _ refl t (λ i cursor t. loop-IsQuiet fuel i cursor held t)

  Undisturbed-with_lock :
      (mu : RwLock) (db : Db env) (now : ℤ) (db' : Db env)
      → IsSound env db
      → Undisturbed (with_lock env mu db) now db'
      → Undisturbed db now db'
  Undisturbed-with_lock mu db now db' s u = record {
    sound = u.sound;
    positions = u.positions;
    replies = λ key later le. u.replies key later le ∙ stored_reply-with_lock env mu db key later s;
  }

  -- The lock is nothing that the state of a run depends on.
  held-IsQuiet :
      (mu : RwLock) (db : Db env) (now : ℤ) (progress : Progress env)
      → IsSound env db
      → IsQuiet (with_lock env mu db) now progress
      → IsQuiet db now progress
  unfolding IsQuiet
  held-IsQuiet mu db now (finished e db' cursor) s (none', reset, free', closed, u) =
      (none', reset, free', closed, Undisturbed-with_lock mu db now db' s u)
  held-IsQuiet mu db now (still_running db' cursor) s (held, u) =
      (held, Undisturbed-with_lock mu db now db' s u)
  held-IsQuiet mu db now waiting s h = h
  held-IsQuiet mu db now panicked s h = h

  -- On a ready database whose entries have positions, DeleteExpiredKeys neither panics nor fails,
  -- whatever its cursor and however far it comes: it takes the lock and holds it until it ends, with
  -- the cursor reset and the database ready, and at every step each Get from its clock on replies
  -- what it did before.
  pub delete_expired_keys-IsQuiet :
      (fuel : ℕ) (db : Db env) (now : ℤ) (cursor : Bytes)
      → IsReady env db
      → HasPositions env db
      → IsQuiet db now (delete_expired_keys env fuel db now cursor)
  delete_expired_keys-IsQuiet fuel db now cursor ready positions =
      let held : Db env = with_lock env writing db in
      let sound : IsSound env held = with_lock-IsSound env writing db ready.sound in
      rw (delete_expired_keys-expire_loop env fuel db now cursor ready.unlocked) (
        held-IsQuiet writing db now _ ready.sound (
          loop-IsQuiet held now sound fuel held.index cursor refl
            (entries-Placed env held positions, sound, λ key later le. refl)))

-- ===== src/Database/Reads.antt =====
-- Get of the database (db.go): it replies what is stored, and changes no reply.
use distributed_system_proje.Prelude.{
  append-nil, inr, bytes_equal-eq, inl, Option-cases, Bool-cases, ◌<◌, ◌≡◌, refl, sym, ◌∙◌, subst,
  Bytes, true, false, Option, some, [], arith, length, bytes_equal,
}
use distributed_system_proje.Prelude.Int.{ℤ, ◌≤ℤ◌}
use distributed_system_proje.Errors.{err_key_not_found}
use distributed_system_proje.Record.{ChunkPosition, is_expired}
use distributed_system_proje.Store.{Env, Db, Reply, ok, err, free, reading, lock, unlock}
use distributed_system_proje.Batch.Methods
use distributed_system_proje.Batch.Methods.{get_with, pending_record}
use distributed_system_proje.Batch.{lookup_pending_writes}
use distributed_system_proje.Batch.Commit.{commit, commit_body}
use distributed_system_proje.Batch.Methods.{drop_key, is_gone, get_stored}
use distributed_system_proje.Batch.Sound.{
  IsSound, stored_reply, stored_record-live, stored_record-absent,
}
use distributed_system_proje.Batch.Replies.{is_gone_mono, reply-live, reply-absent}
use distributed_system_proje.Batch.Atomic.{grown}
use distributed_system_proje.Database.{get, fresh_batch, init, end_read}
use distributed_system_proje.Database.Held.{
  IsReady, with_lock, with_lock-IsSound, stored_reply-with_lock,
}

module _ (env : Env) where
  -- `db` without the entry of an expired record: nothing that a Get at `now` or later replies changes.
  dropped :
      (db : Db env) (key : Bytes) (p : ChunkPosition) (now : ℤ)
      → (s : IsSound env db) → (e : env.indexer.get db.index key ≡ some p)
      → is_gone (s.live key p e).content now ≡ true
      → IsSound env (drop_key env db key)
        × ((other : Bytes) (later : ℤ)
            → now ≤ℤ later
            → stored_reply env (drop_key env db key) other later ≡ stored_reply env db other later)
  dropped db key p now s e gone = (
    record {
      cached = s.cached;
      watched = s.watched;
      live = λ other q h. s.live other q (kept other q h);
    },
    same,
  )
    where
      kept :
          (other : Bytes) (q : ChunkPosition)
          → env.indexer.get (drop_key env db key).index other ≡ some q
          → env.indexer.get db.index other ≡ some q
      kept other q h = ground (arith, env.indexer.get-delete db.index key other)

      same :
          (other : Bytes) (later : ℤ)
          → now ≤ℤ later
          → stored_reply env (drop_key env db key) other later ≡ stored_reply env db other later
      same other later le = elim (Bool-cases (bytes_equal other key)) [
        | inl here ↦
            reply-absent env (drop_key env db key) other later
              (env.indexer.get-delete db.index key other ∙ rw here refl)
            ∙ sym (
                subst (λ k. stored_reply env db k later ≡ some (err err_key_not_found))
                  (sym (bytes_equal-eq other key here))
                  (reply-live env db key p later e (s.live key p e)
                    ∙ rw (is_gone_mono (s.live key p e).content now later le gone) refl))
        | inr elsewhere ↦
            grown env db (drop_key env db key) [] s
              (sym (append-nil (env.wal.chunks db.data_files))) other later
              (env.indexer.get-delete db.index key other ∙ rw elsewhere refl)
      ]

  -- What a Get does: it replies what is stored, and neither the replies nor what it needs change.
  abbrev Gets : Db env → Bytes → ℤ → Option (Reply Bytes × Db env) → Type 0
  Gets db key now out =
      (r : Reply Bytes) × ((db' : Db env) × (out ≡ some (r, db'))
        × (stored_reply env db key now ≡ some r)
        × IsSound env db'
        × (db'.mu ≡ db.mu)
        × (db'.closed ≡ db.closed)
        × ((other : Bytes) (later : ℤ)
            → now ≤ℤ later
            → stored_reply env db' other later ≡ stored_reply env db other later))

  get_stored-Gets :
      (db : Db env) (key : Bytes) (now : ℤ)
      → IsSound env db
      → Gets db key now (get_stored env db key now)
  unfolding get_stored
  get_stored-Gets db key now s = elim (Option-cases (env.indexer.get db.index key)) [
    | inl e ↦ (
      err err_key_not_found,
      (
        db,
        rw (stored_record-absent env db key e) refl,
        reply-absent env db key now e,
        s,
        refl,
        refl,
        λ other later le. refl,
      ),
    )
    | inr (p, e) ↦ elim (Bool-cases (is_expired (s.live key p e).content now)) [
      | inr fresh ↦ (
        ok (s.live key p e).content.value,
        (
          db,
          rw
              (
                stored_record-live env db key p e (s.live key p e),
                (s.live key p e).not_deleted,
                fresh,
              )
              refl,
          reply-live env db key p now e (s.live key p e)
              ∙ rw ((s.live key p e).not_deleted, fresh) refl,
          s,
          refl,
          refl,
          λ other later le. refl,
        ),
      )
      | inl old ↦
          (let l = s.live key p e in
            let gone : is_gone l.content now ≡ true = ground arith in
            let (s', same) = dropped db key p now s e gone in
            (
              err err_key_not_found,
              (
                drop_key env db key,
                rw (stored_record-live env db key p e l, l.not_deleted, old, l.same_key) refl,
                reply-live env db key p now e l ∙ rw gone refl,
                s',
                refl,
                refl,
                same,
              ),
            ))
    ]
  ]

  started :
      (db : Db env)
      → IsReady env db
      → init env true false db ≡ some (fresh_batch true false, with_lock env (reading 1) db)
  unfolding init lock fresh_batch
  started db ready = ground (arith, ready.unlocked)

  get_fresh :
      (db : Db env) (key : Bytes) (now : ℤ)
      → 0 < length key
      → db.closed ≡ false
      → Methods.get env (fresh_batch true false) db key now ≡ get_stored env db key now
  unfolding Methods.get get_with pending_record lookup_pending_writes fresh_batch
  get_fresh db key now h k = ground arith

  released :
      (r : Reply Bytes) (db : Db env) (now : ℤ)
      → db.closed ≡ false
      → db.mu ≡ reading 1
      → end_read env r (fresh_batch true false) db now ≡ some (r, with_lock env free db)
  unfolding end_read commit commit_body unlock fresh_batch
  released r db now k m = ground arith

  -- Get on a ready database, of a nonempty key, returns the stored reply and leaves a ready database,
  -- on which every Get from then on replies what it did before.
  pub get_atomic :
      (db : Db env) (key other : Bytes) (now later : ℤ)
      → IsReady env db
      → 0 < length key
      → now ≤ℤ later
      → (r : Reply Bytes) × ((db' : Db env) × (get env db key now ≡ some (r, db'))
          × (stored_reply env db key now ≡ some r)
          × IsReady env db'
          × (stored_reply env db' other later ≡ stored_reply env db other later))
  unfolding get
  get_atomic db key other now later ready h le =
      let held : Db env = with_lock env (reading 1) db in
      let sound : IsSound env held = with_lock-IsSound env (reading 1) db ready.sound in
      let (r, (db', run, replies, s, mu, closed, same)) = get_stored-Gets held key now sound in
      let open_db : db'.closed ≡ false = closed ∙ ready.not_closed in
      (
        r,
        (
          with_lock env free db',
          rw (started db ready, get_fresh held key now h ready.not_closed, run)
              (released r db' now open_db mu),
          sym (stored_reply-with_lock env (reading 1) db key now ready.sound) ∙ replies,
          record {
            sound = with_lock-IsSound env free db' s;
            unlocked = refl;
            not_closed = open_db;
          },
          stored_reply-with_lock env free db' other later s
              ∙ same other later le
              ∙ stored_reply-with_lock env (reading 1) db other later ready.sound,
        ),
      )

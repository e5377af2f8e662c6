-- ===== src/Batch/AllOrNothing.antt =====
-- Commit (batch.go) as one atomic step on what Gets reply.
use distributed_system_proje.Prelude.{
  ℕ, ◌+◌, ◌<◌, ◌≡◌, refl, ap, sym, ◌∙◌, subst, Bytes, true, false, not, ◌&&◌, ◌==◌, Option, none,
  some, List, [], ◌∷◌, ◌++◌, append-nil, arith, length, length-append, zip, All, ◌⊎◌, inl, inr,
  ==_iff, Bool-cases, Option-cases,
}
use distributed_system_proje.Prelude.Int.{ℤ, ◌≤ℤ◌}
use distributed_system_proje.Errors.{Error}
use distributed_system_proje.Record.{LogRecord, ChunkPosition}
use distributed_system_proje.Record.RoundTrip.{IsEncodable}
use distributed_system_proje.Store.{Env, Db, Batch, Reply}
use distributed_system_proje.Store.Log.{Chunks, LogReply, answer, failed}
use distributed_system_proje.Batch.Pending.{IsValid, IsDistinct}
use distributed_system_proje.Batch.Commit.{
  finish_commit, stamp, end_record, flush_and_finish, after_write, write_batch, commit_body,
}
use distributed_system_proje.Batch.IndexLoop.{encoded, cache_writes_lem}
use distributed_system_proje.Batch.Committed.{
  keys-stamp, length-stamp, length-encoded, finish_commit_lem,
}
use distributed_system_proje.Batch.Sound.{LiveChunk-grown, IsSound, stored_reply}
use distributed_system_proje.Batch.Replies.{batch_reply}
use distributed_system_proje.Batch.Atomic.{grown, IsWritten, written-IsSound, written_reply}

LogReply-cases {ℓ} :
    {A : Type ℓ} (r : LogReply A) → ((a : A) × (r ≡ answer a)) ⊎ ((e : Error) × (r ≡ failed e))
LogReply-cases (answer a) = inl (a, refl)
LogReply-cases (failed e) = inr (e, refl)

module _ (env : Env) where
  -- What a commit with the answer `e` did, on the replies before and after it
  abbrev pub Committed : Option Error → Batch → Db env → ℤ → Db env → Type 0
  Committed none b db now db' =
      (key : Bytes) (later : ℤ)
      → 0 < length key
      → now ≤ℤ later
      → stored_reply env db' key later ≡ batch_reply env b db key later
  Committed (some e) b db now db' =
      (key : Bytes) (later : ℤ) → stored_reply env db' key later ≡ stored_reply env db key later

  -- What a Get replies behind a commit with the answer `e`
  abbrev pub reply_after : Option Error → Batch → Db env → Bytes → ℤ → Option (Reply Bytes)
  reply_after none b db key later = batch_reply env b db key later
  reply_after (some e) b db key later = stored_reply env db key later

  -- An error leaves the index and the chunks as they were, but for more chunks at the end.
  unchanged :
      (e : Error) (b : Batch) (db : Db env) (now : ℤ) (log : env.wal.Log) (more : Chunks)
      → IsSound env db
      → env.wal.pending log ≡ []
      → env.wal.chunks log ≡ env.wal.chunks db.data_files ++ more
      → IsSound env (record db { data_files = log })
        × Committed (some e) b db now (record db { data_files = log })
  unchanged e b db now log more s p c = (
    record {
      cached = p;
      watched = s.watched;
      live = λ key q h.
          (LiveChunk-grown (env.wal.chunks db.data_files) (env.wal.chunks log) more key q c
            (s.live key q h)).0;
    },
    λ key later. grown env db (record db { data_files = log }) more s c key later refl,
  )

  -- What a commit never changes
  abbrev pub Kept : Batch → Db env → Batch → Db env → Type 0
  Kept b db b' db' = (b'.read_only ≡ b.read_only) × (db'.mu ≡ db.mu) × (db'.closed ≡ db.closed)

  abbrev pub Outcome : Batch → Db env → ℤ → Option (Option Error × Batch × Db env) → Type 0
  Outcome b db now out =
      (e : Option Error) × ((b' : Batch) × ((db' : Db env) × (out ≡ some (e, b', db'))
          × IsSound env db'
          × Committed e b db now db'
          × Kept b db b' db'))

  module _ (b : Batch) (db : Db env) (now : ℤ) (id : ℕ) (valid : IsValid env b)
      (sound : IsSound env db) (open_db : db.closed ≡ false)
      (fits : All IsEncodable
        (stamp id b.pending_writes ++ (end_record (env.id_bytes id) ∷ []))) where
    abbrev rs : List LogRecord
    rs = stamp id b.pending_writes

    abbrev all : List LogRecord
    all = rs ++ (end_record (env.id_bytes id) ∷ [])

    finish-Outcome :
        (log : env.wal.Log) (ps : List ChunkPosition)
        → env.wal.pending log ≡ []
        → env.wal.chunks log ≡ env.wal.chunks db.data_files ++ zip ps (encoded all)
        → length ps ≡ length rs + 1
        → Outcome b db now (finish_commit env b (record db { data_files = log }) now rs ps)
    finish-Outcome log ps p c n =
        let (index, (q, e, vq, g)) =
          finish_commit_lem env b (record db { data_files = log }) now rs ps sound.watched
            (omega (arith, n))
            (subst IsDistinct (sym (keys-stamp id b.pending_writes)) valid.distinct) in
        let db' : Db env = record db { data_files = log; index = index; watcher = q } in
        let w : IsWritten env b db now id (end_record (env.id_bytes id)) ps db' = record {
          fits = fits;
          enough = omega (arith, n, length-stamp id b.pending_writes);
          chunks = c;
          cached = p;
          watched = vq;
          indexed = g;
        } in
        (
          none,
          (
            _,
            (
              db',
              e,
              written-IsSound env b db now id (end_record (env.id_bytes id)) ps db' sound w,
              written_reply env b db now id (end_record (env.id_bytes id)) ps db' sound w valid
                  open_db,
              (refl, refl, refl),
            ),
          ),
        )

    flush-Outcome :
        (log : env.wal.Log) (ps : List ChunkPosition)
        → env.wal.pending log ≡ []
        → env.wal.chunks log ≡ env.wal.chunks db.data_files ++ zip ps (encoded all)
        → length ps ≡ length rs + 1
        → Outcome b db now (flush_and_finish env b (record db { data_files = log }) now rs ps)
    unfolding flush_and_finish
    flush-Outcome log ps p c n = elim (Bool-cases (b.sync && not db.sync)) [
      | inr lazy ↦ rw lazy (finish-Outcome log ps p c n)
      | inl flush ↦
          (let log' : env.wal.Log = (env.wal.sync log).0 in
            let p' : env.wal.pending log' ≡ [] = env.wal.pending-sync log ∙ p in
            let c' = env.wal.chunks-sync log ∙ c in
            elim (Option-cases (env.wal.sync log).1) [
              | inl fine ↦ rw (flush, fine) (finish-Outcome log' ps p' c' n)
              | inr (e, failing) ↦
                  (let (s', same) = unchanged e b db now log' _ sound p' c' in
                    rw (flush, failing)
                      (
                        some e,
                        (_, (record db { data_files = log' }, refl, s', same, (refl, refl, refl))),
                      ))
            ])
    ]

    written_chunks :
        (log log' : env.wal.Log) (ps : List ChunkPosition)
        → env.wal.pending log ≡ encoded all
        → env.wal.chunks log ≡ env.wal.chunks db.data_files
        → env.wal.write_all log ≡ (log', answer ps)
        → (env.wal.chunks log' ≡ env.wal.chunks db.data_files ++ zip ps (encoded all))
          × (length ps ≡ length rs + 1)
          × (env.wal.pending log' ≡ [])
    written_chunks log log' ps p c e =
        let (chunks', counts, empty) = env.wal.chunks-write_all log log' ps e in
        (
          cc (chunks', p, c),
          counts
              ∙ ap (λ x. length x) p
              ∙ length-encoded all
              ∙ length-append rs (end_record (env.id_bytes id) ∷ []),
          empty,
        )

    write-Outcome :
        (log : env.wal.Log)
        → env.wal.pending log ≡ encoded all
        → env.wal.chunks log ≡ env.wal.chunks db.data_files
        → Outcome b db now (
            after_write env b
              (record db { data_files = (env.wal.write_all log).0 })
              now
              rs
              (env.wal.write_all log).1)
    unfolding after_write
    write-Outcome log p c = elim (LogReply-cases (env.wal.write_all log).1) [
      | inl (ps, e) ↦
          (let (c', n, p') =
              written_chunks log (env.wal.write_all log).0 ps p c
                (ap (λ r. ((env.wal.write_all log).0, r)) e) in
            let fit : (length ps == (length rs + 1)) ≡ true =
              (==_iff (length ps) (length rs + 1)).1 n in
            rw (e, fit) (flush-Outcome (env.wal.write_all log).0 ps p' c' n))
      | inr (e, failing) ↦
          (let log' : env.wal.Log = env.wal.clear_pending_writes (env.wal.write_all log).0 in
            let c' : env.wal.chunks log' ≡ env.wal.chunks db.data_files =
              env.wal.chunks-clear (env.wal.write_all log).0
              ∙ env.wal.chunks-write_all_failed log (env.wal.write_all log).0 e
                  (ap (λ r. ((env.wal.write_all log).0, r)) failing)
              ∙ c in
            let (s', same) =
              unchanged e b db now log' [] sound (env.wal.pending-clear (env.wal.write_all log).0)
                (c' ∙ sym (append-nil _)) in
            rw failing
              (some e, (_, (record db { data_files = log' }, refl, s', same, (refl, refl, refl)))))
    ]

    batch-Outcome : Outcome b db now (write_batch env b db now id)
    unfolding write_batch
    batch-Outcome =
        let (log, e, p, c) = cache_writes_lem env db.data_files all fits in
        rw e (write-Outcome log (p ∙ ap (λ x. x ++ encoded all) sound.cached) c)

    pub Committed-reply :
        (e : Option Error) (db' : Db env) (key : Bytes) (later : ℤ)
        → 0 < length key
        → now ≤ℤ later
        → Committed e b db now db'
        → stored_reply env db' key later ≡ reply_after e b db key later
    Committed-reply none db' key later h le c = c key later h le
    Committed-reply (some e) db' key later h le c = c key later

    -- The outcome of Commit, of a batch that has something to write
    pub commit_body-Outcome :
        b.read_only ≡ false
        → 0 < length b.pending_writes
        → b.committed ≡ false
        → b.rollbacked ≡ false
        → Outcome b db now (commit_body env b db now id)
    unfolding commit_body
    commit_body-Outcome writable some_pending not_committed not_rollbacked =
        subst (λ out. Outcome b db now out) (sym (ground arith)) batch-Outcome

    -- Commit of a valid batch that may write and has pending records, all encodable, on an open
    -- database whose every index entry leads to a readable live record: it does not panic, leaves such
    -- a database, and is atomic on replies. Where it returns no error, a Get of a nonempty key from
    -- then on replies as a Get on the batch did. Where it returns an error, a Get replies as it did
    -- before.
    pub commit_body_atomic :
        (key : Bytes) (later : ℤ)
        → b.read_only ≡ false
        → 0 < length b.pending_writes
        → b.committed ≡ false
        → b.rollbacked ≡ false
        → 0 < length key
        → now ≤ℤ later
        → (e : Option Error) × ((b' : Batch) × ((db' : Db env) × (commit_body env b db now id
                ≡ some (e, b', db'))
              × IsSound env db'
              × (stored_reply env db' key later ≡ reply_after e b db key later)))
    commit_body_atomic key later writable some_pending not_committed not_rollbacked h le =
        let (e, (b', (db', run, s, c, _))) =
          commit_body-Outcome writable some_pending not_committed not_rollbacked in
        (e, (b', (db', run, s, Committed-reply e db' key later h le c)))

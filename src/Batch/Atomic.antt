-- ===== src/Batch/Atomic.antt =====
-- Commit as one atomic step: it makes stored what the batch showed, or it changes no reply at all.
use distributed_system_proje.Prelude.{
  ℕ, ◌≤◌, ◌<◌, ◌≡◌, refl, ap, sym, ◌∙◌, Bytes, true, false, Option, none, some, List, [], ◌∷◌, ◌++◌,
  arith, if◌then◌else◌, length, zip, get_elem?, All, inl, inr, Bool-cases, Option-cases,
}
use distributed_system_proje.Prelude.Int.{ℤ, ◌≤ℤ◌}
use distributed_system_proje.Errors.{err_key_not_found}
use distributed_system_proje.Record.{LogRecord, ChunkPosition}
use distributed_system_proje.Record.RoundTrip.{IsEncodable}
use distributed_system_proje.Store.{Env, Db, Batch, Reply, ok, err}
use distributed_system_proje.Store.Log.{Chunks}
use distributed_system_proje.Watch.Ring
use distributed_system_proje.Batch.Methods.{is_gone}
use distributed_system_proje.Batch.Pending.{IsValid, find_at, get_elem?-find_at}
use distributed_system_proje.Batch.Commit.{stamp}
use distributed_system_proje.Batch.IndexLoop.{encoded, position_in}
use distributed_system_proje.Batch.Committed.{find_at-stamp, stamped}
use distributed_system_proje.Batch.Sound.{LiveChunk, LiveChunk-grown, IsSound, stored_reply}
use distributed_system_proje.Batch.Replies.{
  live_at, is_gone_mono, is_gone-not_deleted, get_elem?-left, get_elem?-lt, get_elem?-some,
  is_gone_stamped, reply-live, reply-absent, batch_reply, batch_reply-pending, batch_reply-stored,
}

-- The reply to a Get of a record
abbrev reply_to : LogRecord → ℤ → Option (Reply Bytes)
reply_to r later = some (if is_gone r later then err err_key_not_found else ok r.value)

reply_to-stamped :
    (r : LogRecord) (id : ℕ) (later : ℤ)
    → reply_to (record r { batch_id = id }) later ≡ reply_to r later
reply_to-stamped r id later = rw (is_gone_stamped r id later) refl

module _ (env : Env) where
  -- A longer log under the same index changes no reply.
  pub grown :
      (db db' : Db env) (more : Chunks)
      → IsSound env db
      → env.wal.chunks db'.data_files ≡ env.wal.chunks db.data_files ++ more
      → (key : Bytes) (later : ℤ) → env.indexer.get db'.index key ≡ env.indexer.get db.index key
      → stored_reply env db' key later ≡ stored_reply env db key later
  grown db db' more s c key later i = elim (Option-cases (env.indexer.get db.index key)) [
    | inl e ↦ reply-absent env db' key later (i ∙ e) ∙ sym (reply-absent env db key later e)
    | inr (q, e) ↦
        (let l = s.live key q e in
          let (l', same) =
            LiveChunk-grown (env.wal.chunks db.data_files) (env.wal.chunks db'.data_files) more key
              q c l in
          reply-live env db' key q later (i ∙ e) l'
          ∙ ap (λ r. reply_to r later) same
          ∙ sym (reply-live env db key q later e l))
  ]

  -- What holds of a database behind the loops of Commit, over a log with the records of the batch
  pub record IsWritten (b : Batch) (db : Db env) (now : ℤ) (id : ℕ) (last : LogRecord)
      (ps : List ChunkPosition) (db' : Db env) : Type 0 where
    pub fits : All IsEncodable (stamp id b.pending_writes ++ (last ∷ []))
    pub enough : length b.pending_writes ≤ length ps
    pub chunks :
        env.wal.chunks db'.data_files
        ≡ env.wal.chunks db.data_files
          ++ zip ps (encoded (stamp id b.pending_writes ++ (last ∷ [])))
    pub cached : env.wal.pending db'.data_files ≡ []
    pub watched : Ring.IsValid db'.watcher
    pub indexed :
        (key : Bytes)
        → env.indexer.get db'.index key
          ≡ position_in now
              (env.indexer.get db.index key)
              ps
              (find_at key (stamp id b.pending_writes))

  module _ (b : Batch) (db : Db env) (now : ℤ) (id : ℕ) (last : LogRecord) (ps : List ChunkPosition)
      (db' : Db env) (sound : IsSound env db) (w : IsWritten b db now id last ps db') where
    get-other_key :
        (key : Bytes)
        → find_at key b.pending_writes ≡ none
        → env.indexer.get db'.index key ≡ env.indexer.get db.index key
    get-other_key key f =
        w.indexed key
        ∙ ap (position_in now (env.indexer.get db.index key) ps)
            (find_at-stamp id key b.pending_writes ∙ ap (stamped id) f)

    get-pending :
        (key : Bytes) (i : ℕ) (r : LogRecord)
        → find_at key b.pending_writes ≡ some (i, r)
        → env.indexer.get db'.index key ≡ (if is_gone r now then none else get_elem? ps i)
    get-pending key i r f =
        w.indexed key
        ∙ ap (position_in now (env.indexer.get db.index key) ps)
            (find_at-stamp id key b.pending_writes ∙ ap (stamped id) f)
        ∙ ap (λ x. if x then none else get_elem? ps i) (is_gone_stamped r id now)

    get-gone :
        (key : Bytes) (i : ℕ) (r : LogRecord)
        → find_at key b.pending_writes ≡ some (i, r)
        → is_gone r now ≡ true
        → env.indexer.get db'.index key ≡ none
    get-gone key i r f gone =
        get-pending key i r f ∙ ap (λ x. if x then none else get_elem? ps i) gone

    get-alive :
        (key : Bytes) (i : ℕ) (r : LogRecord)
        → find_at key b.pending_writes ≡ some (i, r)
        → is_gone r now ≡ false
        → env.indexer.get db'.index key ≡ get_elem? ps i
    get-alive key i r f alive =
        get-pending key i r f ∙ ap (λ x. if x then none else get_elem? ps i) alive

    -- Under the key of a pending record that is not gone stands its chunk.
    new_live :
        (key : Bytes) (i : ℕ) (r : LogRecord) (p : ChunkPosition)
        → find_at key b.pending_writes ≡ some (i, r)
        → is_gone r now ≡ false
        → get_elem? ps i ≡ some p
        → (l : LiveChunk (env.wal.chunks db'.data_files) key p) × (l.content
            ≡ record r { batch_id = id })
    new_live key i r p f alive hp =
        let r' : LogRecord = record r { batch_id = id } in
        let (at, same_key) =
          get_elem?-find_at key (stamp id b.pending_writes) i r'
            (find_at-stamp id key b.pending_writes ∙ ap (stamped id) f) in
        live_at (stamp id b.pending_writes ++ (last ∷ [])) ps (env.wal.chunks db.data_files)
          (env.wal.chunks db'.data_files) i r' key p w.chunks w.fits
          (get_elem?-left _ (last ∷ []) i r' at) same_key hp (is_gone-not_deleted r now alive)

    pub written-IsSound : IsSound env db'
    written-IsSound = record {
      cached = w.cached;
      watched = w.watched;
      live = λ key p e. elim (Option-cases (find_at key b.pending_writes)) [
        | inl f ↦
            (LiveChunk-grown (env.wal.chunks db.data_files) (env.wal.chunks db'.data_files) _ key p
              w.chunks (sound.live key p (sym (get-other_key key f) ∙ e))).0
        | inr ((i, r), f) ↦ elim (Bool-cases (is_gone r now)) [
          | inl gone ↦ absurd (cc (sym e ∙ get-gone key i r f gone))
          | inr alive ↦ (new_live key i r p f alive (sym (get-alive key i r f alive) ∙ e)).0
        ]
      ];
    }

    pub written_reply :
        IsValid env b
        → db.closed ≡ false
        → (key : Bytes) (later : ℤ) → 0 < length key
        → now ≤ℤ later
        → stored_reply env db' key later ≡ batch_reply env b db key later
    written_reply v open_db key later h le = elim (Option-cases (find_at key b.pending_writes)) [
      | inl f ↦
          grown db db' _ sound w.chunks key later (get-other_key key f)
          ∙ sym (batch_reply-stored env b db key later v h open_db f)
      | inr ((i, r), f) ↦ elim (Bool-cases (is_gone r now)) [
        | inl gone ↦
            reply-absent env db' key later (get-gone key i r f gone)
            ∙ sym (
                batch_reply-pending env b db key later i r v h open_db f
                ∙ rw (is_gone_mono r now later le gone) refl)
        | inr alive ↦
            (let below =
                get_elem?-lt b.pending_writes i r
                  (get_elem?-find_at key b.pending_writes i r f).0 in
              let (p, hp) = get_elem?-some ps i (omega (arith, below, w.enough)) in
              let (l, same) = new_live key i r p f alive hp in
              reply-live env db' key p later (get-alive key i r f alive ∙ hp) l
              ∙ ap (λ x. reply_to x later) same
              ∙ reply_to-stamped r id later
              ∙ sym (batch_reply-pending env b db key later i r v h open_db f))
      ]
    ]

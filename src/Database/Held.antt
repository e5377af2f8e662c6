-- ===== src/Database/Held.antt =====
-- A write of one record (db.go), from the lock to the unlock.
use distributed_system_proje.Prelude.{
  inr, inl, Bool-cases, if◌then◌else◌, bytes_equal, ℕ, ◌<◌, ◌≡◌, refl, sym, ◌∙◌, Bytes, false,
  Option, none, some, [], ◌∷◌, append-nil, arith, All, length,
}
use distributed_system_proje.Prelude.Int.{ℤ, ◌≤ℤ◌}
use distributed_system_proje.Errors.{Error, err_key_not_found}
use distributed_system_proje.Record.{LogRecord}
use distributed_system_proje.Record.RoundTrip.{IsEncodable}
use distributed_system_proje.Store.{ok, err, Env, Db, Batch, Reply, RwLock, free, writing, unlock}
use distributed_system_proje.Batch.{append_pending_writes, map_entries, find_entry}
use distributed_system_proje.Batch.Methods.{is_gone}
use distributed_system_proje.Batch.Commit.{stamp, commit, commit_body, end_record}
use distributed_system_proje.Batch.Pending.{IsValid, find_at}
use distributed_system_proje.Batch.Lookup.{append-IsValid}
use distributed_system_proje.Batch.Sound.{IsSound, stored_reply}
use distributed_system_proje.Batch.Replies.{batch_reply, batch_reply-pending, batch_reply-stored}
use distributed_system_proje.Batch.Atomic.{grown}
use distributed_system_proje.Batch.AllOrNothing.{Committed, Outcome, commit_body-Outcome}
use distributed_system_proje.Database.{Bool, true, fresh_batch, end_write}

-- The reply behind a write: the new one under its key, unless it failed
abbrev pub reply_if :
    Option Error → Bool → Reply Bytes → Option (Reply Bytes) → Option (Reply Bytes)
reply_if none same new old = if same then some new else old
reply_if (some e) same new old = old

module _ (env : Env) where
  -- A database between its operations: sound, open, and nobody holds its lock
  pub record IsReady (db : Db env) : Type 0 where
    pub sound : IsSound env db
    pub unlocked : db.mu ≡ free
    pub not_closed : db.closed ≡ false

  abbrev pub with_lock : RwLock → Db env → Db env
  with_lock mu db = record db { mu = mu }

  pub with_lock-IsSound :
      (mu : RwLock) (db : Db env) → IsSound env db → IsSound env (with_lock mu db)
  with_lock-IsSound mu db s = record { cached = s.cached; watched = s.watched; live = s.live }

  -- The lock is nothing that a reply depends on.
  pub stored_reply-with_lock :
      (mu : RwLock) (db : Db env) (key : Bytes) (later : ℤ)
      → IsSound env db
      → stored_reply env (with_lock mu db) key later ≡ stored_reply env db key later
  stored_reply-with_lock mu db key later s =
      grown env db (with_lock mu db) [] s (sym (append-nil (env.wal.chunks db.data_files))) key
        later refl

  pub fresh_batch-IsValid : IsValid env (fresh_batch false false)
  unfolding fresh_batch find_entry map_entries find_at
  fresh_batch-IsValid = record { entries_found = λ key. refl; distinct = tt; in_range = λ h. tt }

  -- A fresh batch with one record
  abbrev pub single : LogRecord → Batch
  single r = append_pending_writes env (fresh_batch false false) r.key r

  single-IsValid : (r : LogRecord) → IsValid env (single r)
  unfolding find_at fresh_batch
  single-IsValid r = append-IsValid env (fresh_batch false false) r fresh_batch-IsValid refl

  single_found :
      (r : LogRecord) (key : Bytes)
      → bytes_equal r.key key ≡ true
      → find_at key (single r).pending_writes ≡ some (0, r)
  unfolding find_at append_pending_writes fresh_batch
  single_found r key same = rw same refl

  single_absent :
      (r : LogRecord) (key : Bytes)
      → bytes_equal r.key key ≡ false
      → find_at key (single r).pending_writes ≡ none
  unfolding find_at append_pending_writes fresh_batch
  single_absent r key other = rw other refl

  -- What a Get replies behind a write of one record that ended with `e`
  abbrev pub reply_behind : Option Error → LogRecord → Db env → Bytes → ℤ → Option (Reply Bytes)
  reply_behind e r db key later =
      reply_if e (bytes_equal r.key key)
        (if is_gone r later then err err_key_not_found else ok r.value)
        (stored_reply env db key later)

  module _ (r : LogRecord) (db : Db env) (now : ℤ) (id : ℕ) (ready : IsReady db)
      (some_key : 0 < length r.key)
      (fits : All IsEncodable
        (record r { batch_id = id } ∷ end_record (env.id_bytes id) ∷ [])) where
    abbrev held : Db env
    held = with_lock writing db

    held-Outcome : Outcome env (single r) held now (commit_body env (single r) held now id)
    unfolding append_pending_writes fresh_batch stamp
    held-Outcome =
        commit_body-Outcome env (single r) held now id (single-IsValid r)
          (with_lock-IsSound writing db ready.sound) ready.not_closed fits refl (omega arith) refl
          refl

    -- The batch shows its record under its key, and what is stored under any other.
    single_reply :
        (key : Bytes) (later : ℤ)
        → 0 < length key
        → batch_reply env (single r) held key later ≡ reply_behind none r db key later
    single_reply key later h = elim (Bool-cases (bytes_equal r.key key)) [
      | inl same ↦
          batch_reply-pending env (single r) held key later 0 r (single-IsValid r) h
            ready.not_closed (single_found r key same)
          ∙ rw same refl
      | inr other ↦
          batch_reply-stored env (single r) held key later (single-IsValid r) h ready.not_closed
            (single_absent r key other)
          ∙ stored_reply-with_lock writing db key later ready.sound
          ∙ rw other refl
    ]

    behind :
        (e : Option Error) (db' : Db env) (key : Bytes) (later : ℤ)
        → 0 < length key
        → now ≤ℤ later
        → Committed env e (single r) held now db'
        → stored_reply env db' key later ≡ reply_behind e r db key later
    behind none db' key later h le c = c key later h le ∙ single_reply key later h
    behind (some e) db' key later h le c =
        c key later ∙ stored_reply-with_lock writing db key later ready.sound

    released :
        (b' : Batch) (db' : Db env)
        → b'.read_only ≡ false
        → db'.mu ≡ writing
        → unlock env b' db' ≡ some (with_lock free db')
    unfolding unlock
    released b' db' w m = ground arith

    -- A write of one record on a ready database returns, leaves a ready database, and is atomic.
    pub write_one :
        (e : Option Error) × ((db' : Db env) × (end_write env none (single r) held now id
            ≡ some (e, db'))
          × IsReady db'
          × ((key : Bytes) (later : ℤ)
              → 0 < length key
              → now ≤ℤ later
              → stored_reply env db' key later ≡ reply_behind e r db key later))
    unfolding end_write commit append_pending_writes fresh_batch
    write_one =
        let (e, (b', (db', run, s, c, (mode, mu, closed)))) = held-Outcome in
        (
          e,
          (
            with_lock free db',
            rw (run, released b' db' mode mu) refl,
            record {
              sound = with_lock-IsSound free db' s;
              unlocked = refl;
              not_closed = closed ∙ ready.not_closed;
            },
            λ key later h le.
                stored_reply-with_lock free db' key later s ∙ behind e db' key later h le c,
          ),
        )

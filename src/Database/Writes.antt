-- ===== src/Database/Writes.antt =====
-- Put, PutWithTTL and Delete of the database (db.go) as atomic steps on what Gets reply.
use distributed_system_proje.Prelude.{
  ℕ, ◌<◌, ◌≡◌, refl, ◌∙◌, Bytes, false, ◌&&◌, Option, none, some, arith, length, bytes_equal,
  if◌then◌else◌,
}
use distributed_system_proje.Prelude.Int.{ℤ, zero_ℤ, ltb_ℤ, leb_ℤ, ◌+ℤ◌, ◌≤ℤ◌}
use distributed_system_proje.Errors.{Error, err_key_not_found}
use distributed_system_proje.Record.{LogRecord, log_record_normal, is_expired}
use distributed_system_proje.Record.RoundTrip.{IsEncodable}
use distributed_system_proje.Store.{Env, Db, Reply, ok, err, writing, lock}
use distributed_system_proje.Batch
use distributed_system_proje.Batch.{append_pending_writes, put_record, lookup_pending_writes}
use distributed_system_proje.Batch.Methods.{is_gone}
use distributed_system_proje.Batch.Written.{tombstone}
use distributed_system_proje.Batch.Commit.{end_record}
use distributed_system_proje.Batch.Sound.{stored_reply}
use distributed_system_proje.Database.{put, put_with_ttl, delete, fresh_batch, init, end_write}
use distributed_system_proje.Database.Held.{IsReady, reply_if, single, with_lock, write_one}

module _ (env : Env) where
  started :
      (db : Db env)
      → IsReady env db
      → init env false false db ≡ some (fresh_batch false false, with_lock env writing db)
  unfolding init lock fresh_batch
  started db ready = ground (arith, ready.unlocked)

  -- What a write promises of its answer: it returns, leaves a ready database, and where it returns no
  -- error, a Get of its key replies `new` and of any other key as before; where it returns an error,
  -- every Get replies as before.
  abbrev pub Writes :
      Bytes → Reply Bytes → Db env → Bytes → ℤ → Option (Option Error × Db env) → Type 0
  Writes key new db other later out =
      (e : Option Error) × ((db' : Db env) × (out ≡ some (e, db'))
        × IsReady env db'
        × (stored_reply env db' other later
            ≡ reply_if e (bytes_equal key other) new (stored_reply env db other later)))

  batch_put_fresh :
      (db : Db env) (key value : Bytes)
      → 0 < length key
      → db.closed ≡ false
      → Batch.put env (fresh_batch false false) db key value
        ≡ some (
          none,
          single env (record {
            key = key;
            value = value;
            record_type = log_record_normal;
            batch_id = 0;
            expire = zero_ℤ;
          }),
        )
  unfolding Batch.put put_record lookup_pending_writes fresh_batch
  batch_put_fresh db key value h k = ground arith

  batch_put_with_ttl_fresh :
      (db : Db env) (key value : Bytes) (ttl now : ℤ)
      → 0 < length key
      → db.closed ≡ false
      → Batch.put_with_ttl env (fresh_batch false false) db key value ttl now
        ≡ some (
          none,
          single env (record {
            key = key;
            value = value;
            record_type = log_record_normal;
            batch_id = 0;
            expire = now +ℤ ttl;
          }),
        )
  unfolding Batch.put_with_ttl put_record lookup_pending_writes fresh_batch
  batch_put_with_ttl_fresh db key value ttl now h k = ground arith

  batch_delete_fresh :
      (db : Db env) (key : Bytes)
      → 0 < length key
      → db.closed ≡ false
      → Batch.delete env (fresh_batch false false) db key
        ≡ some (none, single env (tombstone env key))
  unfolding Batch.delete lookup_pending_writes fresh_batch
  batch_delete_fresh db key h k = ground arith

  module _ (db : Db env) (key other : Bytes) (now later : ℤ) (id : ℕ) (ready : IsReady env db)
      (some_key : 0 < length key) (some_other : 0 < length other) (le : now ≤ℤ later)
      (end_fits : IsEncodable (end_record (env.id_bytes id))) where
    abbrev held : Db env
    held = with_lock env writing db

    -- A write comes down to the end of its batch of one record.
    one :
        (r : LogRecord) (out : Option (Option Error × Db env))
        → 0 < length r.key
        → IsEncodable (record r { batch_id = id })
        → out ≡ end_write env none (single env r) held now id
        → Writes r.key
            (if is_gone r later then err err_key_not_found else ok r.value)
            db
            other
            later
            out
    one r out h fit run =
        let (e, (db', ends, ready', replies)) =
          write_one env r db now id ready h (fit, (end_fits, tt)) in
        (e, (db', run ∙ ends, ready', replies other later some_other le))

    -- Put on a ready database, of a nonempty key and a record that fits, returns and leaves a ready
    -- database. Where it returns no error, a Get from then on returns the value under its key, and of
    -- any other nonempty key what it did before; where it returns an error, it does so under every key.
    pub put_atomic :
        (value : Bytes)
        → IsEncodable (record {
          key = key;
          value = value;
          record_type = log_record_normal;
          batch_id = id;
          expire = zero_ℤ;
        })
        → Writes key (ok value) db other later (put env db key value now id)
    unfolding put is_expired
    put_atomic value fit = one r _ some_key fit (rw (started db ready, first) refl)
      where
        r : LogRecord
        r = record {
          key = key;
          value = value;
          record_type = log_record_normal;
          batch_id = 0;
          expire = zero_ℤ;
        }

        first : Batch.put env (fresh_batch false false) held key value ≡ some (none, single env r)
        first = batch_put_fresh held key value some_key ready.not_closed

    -- PutWithTTL likewise. The expiry is the int64 sum of the clock and the time to live: where it is
    -- positive and not after the clock of a later Get, that Get does not find the key.
    pub put_with_ttl_atomic :
        (value : Bytes) (ttl : ℤ) (start : ℤ)
        → IsEncodable (record {
          key = key;
          value = value;
          record_type = log_record_normal;
          batch_id = id;
          expire = start +ℤ ttl;
        })
        → Writes key
            (if ltb_ℤ zero_ℤ (start +ℤ ttl) && leb_ℤ (start +ℤ ttl) later
              then err err_key_not_found
              else ok value)
            db
            other
            later
            (put_with_ttl env db key value ttl start now id)
    unfolding put_with_ttl is_expired
    put_with_ttl_atomic value ttl start fit =
        one r _ some_key fit (rw (started db ready, first) refl)
      where
        r : LogRecord
        r = record {
          key = key;
          value = value;
          record_type = log_record_normal;
          batch_id = 0;
          expire = start +ℤ ttl;
        }

        first :
            Batch.put_with_ttl env (fresh_batch false false) held key value ttl start
            ≡ some (none, single env r)
        first = batch_put_with_ttl_fresh held key value ttl start some_key ready.not_closed

    -- Delete likewise: where it returns no error, a Get of its key from then on does not find it.
    pub delete_atomic :
        IsEncodable (record (tombstone env key) { batch_id = id })
        → Writes key (err err_key_not_found) db other later (delete env db key now id)
    unfolding delete
    delete_atomic fit = one (tombstone env key) _ some_key fit (rw (started db ready, first) refl)
      where
        first :
            Batch.delete env (fresh_batch false false) held key
            ≡ some (none, single env (tombstone env key))
        first = batch_delete_fresh held key some_key ready.not_closed

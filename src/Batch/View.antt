-- ===== src/Batch/View.antt =====
-- What a Get reads on a batch (batch.go) after a Put, a PutWithTTL and a Delete, and what TTL answers.
use distributed_system_proje.Prelude.{
  ◌<◌, ◌≡◌, refl, ◌∙◌, Bytes, false, ◌&&◌, none, some, arith, if◌then◌else◌, length, bytes_equal,
}
use distributed_system_proje.Prelude.Int.{ℤ, zero_ℤ, ltb_ℤ, leb_ℤ, ◌+ℤ◌}
use distributed_system_proje.Record.{LogRecord, log_record_normal, is_expired}
use distributed_system_proje.Errors.{err_key_not_found}
use distributed_system_proje.Store.{Env, Db, Batch, ok, err}
use distributed_system_proje.Batch.{put, put_with_ttl, delete}
use distributed_system_proje.Batch.Methods.{no_ttl, ttl, get}
use distributed_system_proje.Batch.Pending.{IsValid}
use distributed_system_proje.Batch.Written.{
  pending_record_lem, put_record_lem, get-other, get-written, tombstone, delete_lem,
}

module _ (env : Env) where
  -- In a valid batch that may write, with a nonempty key, Put does not panic, succeeds and keeps the
  -- invariant; a Get of the key then returns the value, and of any other key what it did before.
  pub get-put :
      (b : Batch) (db : Db env) (key value other : Bytes) (now : ℤ)
      → IsValid env b
      → 0 < length key
      → db.closed ≡ false
      → b.read_only ≡ false
      → bytes_equal key other ≡ false
      → (b' : Batch) × (put env b db key value ≡ some (none, b'))
        × IsValid env b'
        × (get env b' db key now ≡ some (ok value, db))
        × (get env b' db other now ≡ get env b db other now)
  unfolding put
  get-put b db key value other now v h k w ne =
      let r : LogRecord = record {
        key = key;
        value = value;
        record_type = log_record_normal;
        batch_id = 0;
        expire = zero_ℤ;
      } in
      let (b', e, wrote) = put_record_lem env b r v in
      (
        b',
        ground (arith, e),
        wrote.valid,
        get-written env b r b' db now wrote h k ∙ (unfold is_expired in refl),
        get-other env b b' db other now v wrote.valid (wrote.others other ne),
      )

  -- In a valid batch that may write, with a nonempty key, PutWithTTL does not panic, succeeds and keeps
  -- the invariant. The expiry is the int64 sum of the clock and the time to live: where it is positive
  -- and not after the clock of a later Get, that Get does not find the key; else it returns the value.
  -- A Get of any other key answers what it did before.
  pub get-put_with_ttl :
      (b : Batch) (db : Db env) (key value other : Bytes) (ttl now later : ℤ)
      → IsValid env b
      → 0 < length key
      → db.closed ≡ false
      → b.read_only ≡ false
      → bytes_equal key other ≡ false
      → (b' : Batch) × (put_with_ttl env b db key value ttl now ≡ some (none, b'))
        × IsValid env b'
        × (get env b' db key later
            ≡ some (
              if ltb_ℤ zero_ℤ (now +ℤ ttl) && leb_ℤ (now +ℤ ttl) later
                  then err err_key_not_found
                  else ok value,
              db,
            ))
        × (get env b' db other later ≡ get env b db other later)
  unfolding put_with_ttl
  get-put_with_ttl b db key value other ttl now later v h k w ne =
      let r : LogRecord = record {
        key = key;
        value = value;
        record_type = log_record_normal;
        batch_id = 0;
        expire = now +ℤ ttl;
      } in
      let (b', e, wrote) = put_record_lem env b r v in
      (
        b',
        ground (arith, e),
        wrote.valid,
        get-written env b r b' db later wrote h k ∙ (unfold is_expired in refl),
        get-other env b b' db other later v wrote.valid (wrote.others other ne),
      )

  -- In a valid batch that may write, with a nonempty key, Delete does not panic, succeeds and keeps
  -- the invariant; a Get of the key then finds none, and of any other key answers what it did before.
  pub get-delete :
      (b : Batch) (db : Db env) (key other : Bytes) (now : ℤ)
      → IsValid env b
      → 0 < length key
      → db.closed ≡ false
      → b.read_only ≡ false
      → bytes_equal key other ≡ false
      → (b' : Batch) × (delete env b db key ≡ some (none, b'))
        × IsValid env b'
        × (get env b' db key now ≡ some (err err_key_not_found, db))
        × (get env b' db other now ≡ get env b db other now)
  get-delete b db key other now v h k w ne =
      let (b', e, wrote) = delete_lem env b db key v h k w in
      (
        b',
        e,
        wrote.valid,
        get-written env b (tombstone env key) b' db now wrote h k,
        get-other env b b' db other now v wrote.valid (wrote.others other ne),
      )

  -- In a valid batch that may write, a TTL of a nonempty key that the same batch has just deleted
  -- answers -1 with no error, as for a key with no expiry, where a Get answers that there is none.
  pub ttl-delete :
      (b : Batch) (db : Db env) (key : Bytes) (now : ℤ)
      → IsValid env b
      → 0 < length key
      → db.closed ≡ false
      → b.read_only ≡ false
      → (b' : Batch) × (delete env b db key ≡ some (none, b'))
        × (ttl env b' db key now ≡ some (ok (no_ttl env), db))
        × (get env b' db key now ≡ some (err err_key_not_found, db))
  unfolding ttl
  ttl-delete b db key now v h k w =
      let (b', e, wrote) = delete_lem env b db key v h k w in
      (
        b',
        e,
        ground (arith, pending_record_lem env b' key wrote.valid, wrote.written),
        get-written env b (tombstone env key) b' db now wrote h k,
      )

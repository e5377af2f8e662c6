-- ===== src/Recovery/Expired.antt =====
-- loadIndexFromWAL (db.go) on a record that has expired and whose batch never ended.
use distributed_system_proje.Prelude.{
  ◌≡◌, ◌≢◌, refl, ◌∙◌, Bytes, true, false, none, some, [], ◌∷◌, ◌++◌, arith, bytes_equal,
  bytes_equal_refl,
}
use distributed_system_proje.Prelude.Int.{ℤ}
use distributed_system_proje.Record.{
  LogRecord, ChunkPosition, log_record_normal, is_expired, record_header,
}
use distributed_system_proje.Record.RoundTrip.{IsEncodable, decode-record_header}
use distributed_system_proje.Store.{Env, ok}
use distributed_system_proje.Recovery.{Waiting, load_record, merge_finished_batch_id}
use distributed_system_proje.Recovery.Replay.{replay, replay-step}

module _ (env : Env) where
  -- Loading a torn batch of one record, of a batch with an id and with an expiry that has passed,
  -- takes the key of the record out of the index, although no commit of the batch has ended; every
  -- other key stays as it is.
  pub torn_record_removes_key :
      (now : ℤ) (r : LogRecord) (p : ChunkPosition) (index : env.indexer.Index) (m : Waiting)
      (other : Bytes)
      → IsEncodable r
      → r.record_type ≡ log_record_normal
      → r.batch_id ≢ merge_finished_batch_id
      → is_expired r now ≡ true
      → bytes_equal other r.key ≡ false
      → (index' : env.indexer.Index) × (replay env now
            ((p, record_header r ++ (r.key ++ r.value)) ∷ [])
            (index, m)
          ≡ some (ok (index', m)))
        × (env.indexer.get index' r.key ≡ none)
        × (env.indexer.get index' other ≡ env.indexer.get index other)
  unfolding load_record replay
  torn_record_removes_key now r p index m other v t b x o =
      let loaded : load_record env now r p (index, m) ≡ ok ((env.indexer.delete index r.key).0, m) =
        ground arith in
      (
        (env.indexer.delete index r.key).0,
        replay-step env now p _ [] (index, m) ((env.indexer.delete index r.key).0, m) r
            (decode-record_header r v) loaded,
        env.indexer.get-delete index r.key r.key ∙ rw (bytes_equal_refl r.key) refl,
        env.indexer.get-delete index r.key other ∙ rw o refl,
      )

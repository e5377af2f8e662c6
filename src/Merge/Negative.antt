-- ===== src/Merge/Negative.antt =====
-- doMerge (merge.go) on a record whose expiry is negative, as the int64 sum of PutWithTTL can be.
use distributed_system_proje.Prelude.{◌≡◌, Bytes, true, false, none, some, arith}
use distributed_system_proje.Prelude.Int.{ℤ, leb_ℤ, zero_ℤ}
use distributed_system_proje.Record.{LogRecord, ChunkPosition, is_expired, decode_log_record}
use distributed_system_proje.Store.{Env}
use distributed_system_proje.Batch.Methods.{is_gone, is_deleted}
use distributed_system_proje.Merge.{MergeDb, is_valid_data, rewrite_chunk}
use distributed_system_proje.Merge.Files.{MergeWal}

dropped :
    (env : Env) (files : MergeWal env.wal) (index : env.indexer.Index) (now : ℤ) (p : ChunkPosition)
    (c : Bytes) (r : LogRecord) (m : MergeDb env files)
    → decode_log_record c ≡ some r
    → is_valid_data r now ≡ false
    → rewrite_chunk env files index now p c m ≡ some (none, m)
unfolding rewrite_chunk
dropped env files index now p c r m d v = ground arith

-- A chunk whose record is no deletion and has a negative expiry is dropped by a merge from 1970 on,
-- though a Get does not take the record for expired.
pub negative_expiry_is_dropped :
    (env : Env) (files : MergeWal env.wal) (index : env.indexer.Index) (now : ℤ) (p : ChunkPosition)
    (c : Bytes) (r : LogRecord) (m : MergeDb env files)
    → decode_log_record c ≡ some r
    → is_deleted r ≡ false
    → leb_ℤ zero_ℤ r.expire ≡ false
    → leb_ℤ zero_ℤ now ≡ true
    → (is_gone r now ≡ false) × (rewrite_chunk env files index now p c m ≡ some (none, m))
unfolding is_expired is_valid_data
negative_expiry_is_dropped env files index now p c r m d alive negative later =
    (ground arith, dropped env files index now p c r m d (ground arith))

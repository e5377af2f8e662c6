-- ===== src/Tests/Storing.antt =====
-- The operations of db.go at concrete inputs.
use distributed_system_proje.Prelude.{
  ◌&&◌, if◌then◌else◌, ◌≡◌, refl, ap, sym, ◌∙◌, subst, Bytes, ◌&&◌, if◌then◌else◌, false, Option,
  none, some, [], ◌∷◌, ◌++◌, arith, bytes_equal, bytes_equal-eq, inl, inr, Bool-cases,
}
use distributed_system_proje.Prelude.Int.{leb_ℤ, ◌+ℤ◌, zero_ℤ, ltb_ℤ, pos}
use distributed_system_proje.Errors.{err_key_not_found}
use distributed_system_proje.Record.{ChunkPosition, record_header}
use distributed_system_proje.Record.RoundTrip.{IsEncodable, decode-record_header}
use distributed_system_proje.Store.{Db, Reply, ok, err, free}
use distributed_system_proje.Watch.{new_watcher}
use distributed_system_proje.Watch.Ring.{new_watcher-IsValid}
use distributed_system_proje.Index.Item.{find_item}
use distributed_system_proje.Index.Btree
use distributed_system_proje.Index.Btree.Laws.{btree_indexer}
use distributed_system_proje.Batch.Sound.{stored_reply, LiveChunk, stored_record-live}
use distributed_system_proje.Batch.Methods.{stored_record, found}
use distributed_system_proje.Database.Held.{IsReady}
use distributed_system_proje.Database.Writes.{
  Writes, put_atomic, put_with_ttl_atomic, delete_atomic,
}
use distributed_system_proje.Database.Reads.{get_atomic}
use distributed_system_proje.Database.{put, put_with_ttl, delete, get}
use distributed_system_proje.Batch.Commit.{end_record}
use distributed_system_proje.Batch.Sound.{stored_reply}
use distributed_system_proje.Database.Scan.{HasPositions}
use distributed_system_proje.Tests.ListLog.{list_wal, place}
use distributed_system_proje.Tests.Engine.{test_env, one_record}

abbrev pub one_chunk : Bytes
one_chunk = record_header one_record ++ (one_record.key ++ one_record.value)

-- A database with one record, stored under the key [1]
unfoldable pub stored_db : Db test_env
unfolding btree_indexer new_watcher
stored_db = record {
  data_files = record { stored = one_chunk ∷ []; cache = [] };
  index = (record { key = 1 ∷ []; pos = some (place 0) } ∷ [], (tt, tt));
  watch_queue_size = 4;
  sync = false;
  mu = free;
  closed = false;
  watcher = new_watcher 4;
}

pub one_record-IsEncodable : IsEncodable one_record
one_record-IsEncodable = record { batch = omega arith; expiry = omega arith; size = omega arith }

-- The record under the key [1]
first_chunk : LiveChunk (list_wal.chunks stored_db.data_files) (1 ∷ []) (place 0)
unfolding stored_db
first_chunk = record {
  before = [];
  chunk = one_chunk;
  after = [];
  at = refl;
  content = one_record;
  decoded = decode-record_header one_record one_record-IsEncodable;
  same_key = refl;
  not_deleted = refl;
}

pub one_record_stored : stored_record test_env stored_db (1 ∷ []) ≡ some (found one_record)
unfolding stored_db first_chunk btree_indexer Btree.get find_item bytes_equal
one_record_stored = stored_record-live test_env stored_db (1 ∷ []) (place 0) refl first_chunk

abbrev position_or : Option ChunkPosition → ChunkPosition
position_or none = place 0
position_or (some p) = p

chunk_under :
    (key : Bytes) (p : ChunkPosition)
    → test_env.indexer.get stored_db.index key ≡ some p
    → LiveChunk (list_wal.chunks stored_db.data_files) key p
unfolding stored_db btree_indexer Btree.get find_item
chunk_under key p e = elim (Bool-cases (bytes_equal key (1 ∷ []))) [
  | inl same ↦
      (let here : test_env.indexer.get stored_db.index key ≡ some (place 0) = rw same refl in
        subst (λ q. LiveChunk (list_wal.chunks stored_db.data_files) key q)
          (ap position_or (sym here ∙ e))
          (subst (λ k. LiveChunk (list_wal.chunks stored_db.data_files) k (place 0))
            (sym (bytes_equal-eq key (1 ∷ []) same)) first_chunk))
  | inr other ↦
      (let nowhere : test_env.indexer.get stored_db.index key ≡ none = rw other refl in
        absurd (cc (nowhere, e)))
]

pub stored_db-IsReady : IsReady test_env stored_db
unfolding stored_db
stored_db-IsReady = record {
  sound = record {
    cached = refl;
    watched = new_watcher-IsValid 4 (omega arith) (omega arith);
    live = chunk_under;
  };
  unlocked = refl;
  not_closed = refl;
}

pub end_3-IsEncodable : IsEncodable (end_record (test_env.id_bytes 3))
unfolding end_record
end_3-IsEncodable = record { batch = omega arith; expiry = omega arith; size = omega arith }

put_atomic_example :
    Writes test_env
      (1 ∷ [])
      (ok (9 ∷ []))
      stored_db
      (1 ∷ [])
      (pos 9)
      (put test_env stored_db (1 ∷ []) (9 ∷ []) (pos 5) 3)
put_atomic_example =
    put_atomic test_env stored_db (1 ∷ []) (1 ∷ []) (pos 5) (pos 9) 3 stored_db-IsReady
      (omega arith) (omega arith) (omega arith) end_3-IsEncodable (9 ∷ [])
      (record { batch = omega arith; expiry = omega arith; size = omega arith })

put_with_ttl_atomic_example :
    Writes test_env
      (2 ∷ [])
      (if ltb_ℤ zero_ℤ (pos 4 +ℤ pos 10) && leb_ℤ (pos 4 +ℤ pos 10) (pos 20)
        then err err_key_not_found
        else ok (9 ∷ []))
      stored_db
      (1 ∷ [])
      (pos 20)
      (put_with_ttl test_env stored_db (2 ∷ []) (9 ∷ []) (pos 10) (pos 4) (pos 5) 3)
unfolding ◌+ℤ◌
put_with_ttl_atomic_example =
    put_with_ttl_atomic test_env stored_db (2 ∷ []) (1 ∷ []) (pos 5) (pos 20) 3 stored_db-IsReady
      (omega arith) (omega arith) (omega arith) end_3-IsEncodable (9 ∷ []) (pos 10) (pos 4)
      (record { batch = omega arith; expiry = omega arith; size = omega arith })

delete_atomic_example :
    Writes test_env
      (1 ∷ [])
      (err err_key_not_found)
      stored_db
      (1 ∷ [])
      (pos 9)
      (delete test_env stored_db (1 ∷ []) (pos 5) 3)
delete_atomic_example =
    delete_atomic test_env stored_db (1 ∷ []) (1 ∷ []) (pos 5) (pos 9) 3 stored_db-IsReady
      (omega arith) (omega arith) (omega arith) end_3-IsEncodable
      (record { batch = omega arith; expiry = omega arith; size = omega arith })

get_atomic_example :
    (r : Reply Bytes) × ((db' : Db test_env) × (get test_env stored_db (1 ∷ []) (pos 5)
        ≡ some (r, db'))
      × (stored_reply test_env stored_db (1 ∷ []) (pos 5) ≡ some r)
      × IsReady test_env db'
      × (stored_reply test_env db' (2 ∷ []) (pos 9)
          ≡ stored_reply test_env stored_db (2 ∷ []) (pos 9)))
get_atomic_example =
    get_atomic test_env stored_db (1 ∷ []) (2 ∷ []) (pos 5) (pos 9) stored_db-IsReady (omega arith)
      (omega arith)

pub stored_db-HasPositions : HasPositions test_env stored_db
unfolding stored_db
stored_db-HasPositions = ((place 0, refl), tt)

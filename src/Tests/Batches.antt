-- ===== src/Tests/Batches.antt =====
-- The batches of batch.go at concrete inputs.
use distributed_system_proje.Prelude.{
  Option, ◌≡◌, refl, Bytes, true, ◌&&◌, none, some, [], ◌∷◌, arith, if◌then◌else◌, bytes_equal,
}
use distributed_system_proje.Prelude.Int.{pos, zero_ℤ, ltb_ℤ, leb_ℤ, ◌+ℤ◌}
use distributed_system_proje.Errors.{Error, err_key_not_found}
use distributed_system_proje.Record.{ChunkPosition}
use distributed_system_proje.Record.RoundTrip.{IsEncodable}
use distributed_system_proje.Store.{Db, Batch, ok, err}
use distributed_system_proje.Watch.Ring.{new_watcher-IsValid}
use distributed_system_proje.Batch.{append_pending_writes, put, put_with_ttl, delete}
use distributed_system_proje.Batch.Methods.{get, ttl, no_ttl}
use distributed_system_proje.Batch.Pending.{IsValid}
use distributed_system_proje.Batch.View.{get-put, get-put_with_ttl, get-delete, ttl-delete}
use distributed_system_proje.Batch.Commit.{commit, rollback, commit_body, stamp, end_record}
use distributed_system_proje.Batch.Sound.{IsSound, stored_reply}
use distributed_system_proje.Batch.AllOrNothing.{reply_after, commit_body_atomic}
use distributed_system_proje.Index.Item.{find_item}
use distributed_system_proje.Index.Btree
use distributed_system_proje.Index.Btree.Laws.{btree_indexer}
use distributed_system_proje.Batch.Ended.{end_again, commit_again}
use distributed_system_proje.Tests.Engine.{
  test_env, test_db, one_record, one_batch, one_batch-IsValid,
}

get-put_example :
    (b' : Batch) × (put test_env one_batch test_db (1 ∷ []) (9 ∷ []) ≡ some (none, b'))
    × IsValid test_env b'
    × (get test_env b' test_db (1 ∷ []) (pos 5) ≡ some (ok (9 ∷ []), test_db))
    × (get test_env b' test_db (3 ∷ []) (pos 5) ≡ get test_env one_batch test_db (3 ∷ []) (pos 5))
unfolding bytes_equal test_db append_pending_writes
get-put_example =
    get-put test_env one_batch test_db (1 ∷ []) (9 ∷ []) (3 ∷ []) (pos 5) one_batch-IsValid
      (omega arith) refl refl refl

get-put_with_ttl_example :
    (b' : Batch) × (put_with_ttl test_env one_batch test_db (2 ∷ []) (9 ∷ []) (pos 10) (pos 5)
      ≡ some (none, b'))
    × IsValid test_env b'
    × (get test_env b' test_db (2 ∷ []) (pos 20)
        ≡ some (
          if ltb_ℤ zero_ℤ (pos 5 +ℤ pos 10) && leb_ℤ (pos 5 +ℤ pos 10) (pos 20)
              then err err_key_not_found
              else ok (9 ∷ []),
          test_db,
        ))
    × (get test_env b' test_db (3 ∷ []) (pos 20) ≡ get test_env one_batch test_db (3 ∷ []) (pos 20))
unfolding bytes_equal test_db append_pending_writes
get-put_with_ttl_example =
    get-put_with_ttl test_env one_batch test_db (2 ∷ []) (9 ∷ []) (3 ∷ []) (pos 10) (pos 5) (pos 20)
      one_batch-IsValid (omega arith) refl refl refl

get-delete_example :
    (b' : Batch) × (delete test_env one_batch test_db (1 ∷ []) ≡ some (none, b'))
    × IsValid test_env b'
    × (get test_env b' test_db (1 ∷ []) (pos 5) ≡ some (err err_key_not_found, test_db))
    × (get test_env b' test_db (3 ∷ []) (pos 5) ≡ get test_env one_batch test_db (3 ∷ []) (pos 5))
unfolding bytes_equal test_db append_pending_writes
get-delete_example =
    get-delete test_env one_batch test_db (1 ∷ []) (3 ∷ []) (pos 5) one_batch-IsValid (omega arith)
      refl refl refl

ttl-delete_example :
    (b' : Batch) × (delete test_env one_batch test_db (1 ∷ []) ≡ some (none, b'))
    × (ttl test_env b' test_db (1 ∷ []) (pos 5) ≡ some (ok (no_ttl test_env), test_db))
    × (get test_env b' test_db (1 ∷ []) (pos 5) ≡ some (err err_key_not_found, test_db))
unfolding test_db append_pending_writes
ttl-delete_example =
    ttl-delete test_env one_batch test_db (1 ∷ []) (pos 5) one_batch-IsValid (omega arith) refl refl

one_record-IsEncodable : IsEncodable one_record
one_record-IsEncodable = record { batch = omega arith; expiry = omega arith; size = omega arith }

abbrev place_0 : ChunkPosition
place_0 = record { segment_id = 0; block_number = 0; chunk_offset = pos 0; chunk_size = 0 }

no_entry : (key : Bytes) → test_env.indexer.get test_db.index key ≡ none
unfolding test_db btree_indexer Btree.get find_item
no_entry key = refl

test_db-IsSound : IsSound test_env test_db
unfolding test_db
test_db-IsSound = record {
  cached = refl;
  watched = new_watcher-IsValid 4 (omega arith) (omega arith);
  live = λ key p e. absurd (cc (e, no_entry key));
}

commit_body_atomic_example :
    (e : Option Error) × ((b' : Batch) × ((db' : Db test_env) × (commit_body test_env one_batch
            test_db
            (pos 5)
            3
          ≡ some (e, b', db'))
        × IsSound test_env db'
        × (stored_reply test_env db' (1 ∷ []) (pos 9)
            ≡ reply_after test_env e one_batch test_db (1 ∷ []) (pos 9))))
unfolding test_db append_pending_writes stamp end_record
commit_body_atomic_example =
    commit_body_atomic test_env one_batch test_db (pos 5) 3 one_batch-IsValid test_db-IsSound refl
      (
        record { batch = omega arith; expiry = omega arith; size = omega arith },
        (record { batch = omega arith; expiry = omega arith; size = omega arith }, tt),
      )
      (1 ∷ []) (pos 9) refl (omega arith) refl refl (omega arith) (omega arith)

abbrev ended_batch : Batch
ended_batch = record one_batch { committed = true }

commit_again_example :
    (commit test_env ended_batch test_db (pos 5) 3 ≡ end_again test_env ended_batch test_db)
    × (rollback test_env ended_batch test_db ≡ end_again test_env ended_batch test_db)
unfolding test_db append_pending_writes
commit_again_example =
    commit_again test_env ended_batch test_db (pos 5) 3 refl refl (omega arith) refl

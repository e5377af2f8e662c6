-- ===== src/Tests/Expiring.antt =====
-- DeleteExpiredKeys of db.go at a concrete database.
use distributed_system_proje.Prelude.{bytes_less, false, ◌≡◌, refl, Bytes, [], ◌∷◌, none}
use distributed_system_proje.Prelude.Int.{pos}
use distributed_system_proje.Record.{is_expired}
use distributed_system_proje.Store.{Db, lock}
use distributed_system_proje.Index.Btree.Laws.{btree_indexer}
use distributed_system_proje.Database.Expiry.{delete_expired_keys, still_running, expiry_reply}
use distributed_system_proje.Database.Expiry.Quiet.{IsQuiet, delete_expired_keys-IsQuiet}
use distributed_system_proje.Database.Expiry.Stuck.{delete_expired_keys-never_ends}
use distributed_system_proje.Tests.Engine.{test_env, one_record, empty_batch}
use distributed_system_proje.Tests.Storing.{
  stored_db, stored_db-IsReady, stored_db-HasPositions, one_record_stored,
}

delete_expired_keys-IsQuiet_example :
    IsQuiet test_env stored_db (pos 5) (delete_expired_keys test_env 3 stored_db (pos 5) [])
delete_expired_keys-IsQuiet_example =
    delete_expired_keys-IsQuiet test_env 3 stored_db (pos 5) [] stored_db-IsReady
      stored_db-HasPositions

delete_expired_keys-never_ends_example :
    (db' : Db test_env) × ((cursor' : Bytes) × (delete_expired_keys test_env 3 stored_db (pos 5) []
        ≡ still_running db' cursor')
      × (expiry_reply test_env false (still_running db' cursor') ≡ none)
      × (lock test_env empty_batch db' ≡ none))
unfolding stored_db is_expired btree_indexer bytes_less
delete_expired_keys-never_ends_example =
    delete_expired_keys-never_ends test_env 3 stored_db (pos 5) [] (1 ∷ []) one_record empty_batch
      stored_db-IsReady stored_db-HasPositions (refl, tt) one_record_stored refl refl

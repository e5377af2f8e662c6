-- ===== src/Errors.antt =====
-- errors.go: the errors that the database returns. `external` is an error of the file system, the
-- log or another package, told apart by a number.
use distributed_system_proje.Prelude.{ℕ}

pub data Error : Type 0 where
  err_key_is_empty err_key_not_found err_database_is_using err_read_only_batch : Error
  err_batch_committed err_batch_rollbacked err_db_closed err_merge_running err_watch_disabled :
      Error
  external : ℕ → Error

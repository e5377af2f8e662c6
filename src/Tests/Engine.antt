-- ===== src/Tests/Engine.antt =====
-- An engine, a database and batches for the tests.
use distributed_system_proje.Prelude.{ℕ, refl, Bytes, false, Option, none, some, [], ◌∷◌, length}
use distributed_system_proje.Prelude.Int.{zero_ℤ}
use distributed_system_proje.Record.{LogRecord, log_record_normal}
use distributed_system_proje.Store.{Env, Db, Batch, writing}
use distributed_system_proje.Watch.{new_watcher}
use distributed_system_proje.Index.Btree.Laws.{btree_indexer}
use distributed_system_proje.Batch.{append_pending_writes, map_entries, find_entry}
use distributed_system_proje.Batch.Pending.{IsValid, find_at}
use distributed_system_proje.Batch.Lookup.{append-IsValid}
use distributed_system_proje.Tests.ListTree.{list_tree}
use distributed_system_proje.Tests.ListLog.{list_wal, empty_log}

abbrev pub read_one : Bytes → Option ℕ
read_one [] = none
read_one (n ∷ rest) = some n

-- Keys of one length have one hash.
abbrev pub test_env : Env
test_env = record {
  wal = list_wal;
  indexer = btree_indexer list_tree;
  mem_hash = λ key. length key;
  id_bytes = λ n. n ∷ [];
  parse_id = read_one;
  parse_id-id_bytes = λ n. refl;
}

unfoldable pub test_db : Db test_env
unfolding btree_indexer new_watcher
test_db = record {
  data_files = empty_log;
  index = ([], tt);
  watch_queue_size = 4;
  sync = false;
  mu = writing;
  closed = false;
  watcher = new_watcher 4;
}

abbrev pub empty_batch : Batch
empty_batch = record {
  pending_writes = [];
  pending_writes_map = [];
  read_only = false;
  sync = false;
  committed = false;
  rollbacked = false;
}

pub empty_batch-IsValid : IsValid test_env empty_batch
unfolding find_entry map_entries find_at
empty_batch-IsValid = record { entries_found = λ key. refl; distinct = tt; in_range = λ h. tt }

abbrev pub one_record : LogRecord
one_record = record {
  key = 1 ∷ [];
  value = 7 ∷ [];
  record_type = log_record_normal;
  batch_id = 0;
  expire = zero_ℤ;
}

abbrev pub one_batch : Batch
one_batch = append_pending_writes test_env empty_batch (1 ∷ []) one_record

pub one_batch-IsValid : IsValid test_env one_batch
unfolding find_at
one_batch-IsValid = append-IsValid test_env empty_batch one_record empty_batch-IsValid refl

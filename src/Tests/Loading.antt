-- ===== src/Tests/Loading.antt =====
-- loadIndexFromWAL of db.go at a concrete log.
use distributed_system_proje.Prelude.{
  none, ◌≡◌, ◌⊎◌, refl, true, false, some, List, [], ◌∷◌, ◌++◌, bytes_equal, arith, inr,
}
use distributed_system_proje.Prelude.Int.{pos}
use distributed_system_proje.Errors.{Error}
use distributed_system_proje.Record.{record_header, LogRecord, is_expired}
use distributed_system_proje.Store.{ok, err}
use distributed_system_proje.Recovery.{load_index_from_wal}
use distributed_system_proje.Recovery.Reader.{WalReader, Segment, first_id, rest_of, next_of}
use distributed_system_proje.Recovery.History.{Logged, IsHistory, IsLogged, all_chunks, live_index}
use distributed_system_proje.Recovery.Expired.{torn_record_removes_key}
use distributed_system_proje.Recovery.Replay.{replay}
use distributed_system_proje.Tests.Storing.{stored_db}
use distributed_system_proje.Recovery.Segments.{load_index_from_wal-recovers}
use distributed_system_proje.Tests.Engine.{test_env, test_db, one_record}
use distributed_system_proje.Batch.Commit.{end_record}
use distributed_system_proje.Tests.ListLog.{place}

-- A reader of segments that never fails
abbrev pub list_reader : WalReader
list_reader = record {
  Reader = List Segment;
  segments = λ r. r;
  current_segment_id = first_id;
  skip_current_segment = rest_of;
  next = next_of;
  current-segments = λ r. refl;
  skip-segments = λ r. refl;
  next-segments = λ r. inr (refl, refl);
}

-- A whole batch of one record, and the same record torn in a later batch
abbrev pub first_batch : Logged
first_batch = record {
  id = 3;
  records = record one_record { batch_id = 3 } ∷ [];
  positions = place 0 ∷ place 1 ∷ [];
  committed_at = pos 5;
  whole = true;
}

abbrev pub torn_batch : Logged
torn_batch = record {
  id = 4;
  records = record one_record { batch_id = 4 } ∷ [];
  positions = place 2 ∷ place 3 ∷ [];
  committed_at = pos 6;
  whole = false;
}

abbrev pub a_history : List Logged
a_history = first_batch ∷ torn_batch ∷ []

first_batch-IsLogged : IsLogged test_env (pos 9) first_batch
unfolding is_expired end_record
first_batch-IsLogged = record {
  has_id = omega arith;
  plain = (
    (record { batch = omega arith; expiry = omega arith; size = omega arith }, refl, refl, refl),
    tt,
  );
  fresh = (refl, tt);
  placed = omega arith;
  end_fits = record { batch = omega arith; expiry = omega arith; size = omega arith };
}

torn_batch-IsLogged : IsLogged test_env (pos 9) torn_batch
unfolding is_expired end_record
torn_batch-IsLogged = record {
  has_id = omega arith;
  plain = (
    (record { batch = omega arith; expiry = omega arith; size = omega arith }, refl, refl, refl),
    tt,
  );
  fresh = (refl, tt);
  placed = omega arith;
  end_fits = record { batch = omega arith; expiry = omega arith; size = omega arith };
}

pub a_history-IsHistory : IsHistory test_env (pos 9) a_history
a_history-IsHistory =
    (first_batch-IsLogged, (λ e. omega (arith, e), tt), (torn_batch-IsLogged, tt, tt))

abbrev old_segment : Segment
old_segment = record { id = 1; chunks = [] }

abbrev new_segment : Segment
new_segment = record { id = 2; chunks = all_chunks test_env a_history }

load_index_from_wal-recovers_example :
    ((e : Error) × (load_index_from_wal test_env list_reader 9
          (pos 9)
          (ok 1)
          (old_segment ∷ new_segment ∷ [])
          test_db.index
        ≡ some (err e)))
    ⊎ ((index' : test_env.indexer.Index) × (live_index test_env a_history test_db.index
          ≡ some index')
        × (load_index_from_wal test_env list_reader 9
              (pos 9)
              (ok 1)
              (old_segment ∷ new_segment ∷ [])
              test_db.index
            ≡ some (ok index')))
load_index_from_wal-recovers_example =
    load_index_from_wal-recovers test_env list_reader 9 (pos 9) 1 (old_segment ∷ new_segment ∷ [])
      test_db.index (old_segment ∷ []) (new_segment ∷ []) a_history refl (omega arith, tt)
      (omega arith, tt) (omega arith) (omega arith) a_history-IsHistory refl

-- A record of a batch that never ended, expired at 9
abbrev expired_record : LogRecord
expired_record = record one_record { batch_id = 4; expire = pos 8 }

torn_record_removes_key_example :
    (index' : test_env.indexer.Index) × (replay test_env
        (pos 9)
        ((place 1, record_header expired_record ++ (expired_record.key ++ expired_record.value))
          ∷ [])
        (stored_db.index, [])
      ≡ some (ok (index', [])))
    × (test_env.indexer.get index' (1 ∷ []) ≡ none)
    × (test_env.indexer.get index' (2 ∷ []) ≡ test_env.indexer.get stored_db.index (2 ∷ []))
unfolding is_expired bytes_equal
torn_record_removes_key_example =
    torn_record_removes_key test_env (pos 9) expired_record (place 1) stored_db.index [] (2 ∷ [])
      (record { batch = omega arith; expiry = omega arith; size = omega arith }) refl
      (λ e. omega (arith, e)) refl refl

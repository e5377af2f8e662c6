-- ===== src/Merge.antt =====
-- merge.go: doMerge, which rewrites the live records to a log of its own with a hint file, and
-- loadIndexFromHintFile. `none` is a panic, a call that waits for the lock, or fuel that runs out.
pub mod Files
pub mod Rewrite
pub mod Loop
pub mod Hints
pub mod Survivors
pub mod Replies
pub mod Steps
pub mod Kept
pub mod Disk
pub mod Startup
pub mod Moved
pub mod Replaced
pub mod Opened
pub mod Restarted
pub mod Negative
use distributed_system_proje.Prelude.{
  ℕ, zero, suc, Bytes, Bool, true, false, ◌&&◌, ◌||◌, ◌==◌, Option, none, some, if◌then◌else◌,
  ◌>>=◌,
}
use distributed_system_proje.Prelude.Int.{ℤ, zero_ℤ, equal_ℤ, ltb_ℤ}
use distributed_system_proje.Errors.{Error, err_db_closed, err_merge_running}
use distributed_system_proje.Record.{
  LogRecord, ChunkPosition, log_record_normal, encode_log_record, decode_log_record,
  encode_hint_record, decode_hint_record, encode_merge_fin_record,
}
use distributed_system_proje.Store.{Env, Db, RwLock, Reply, ok, err, free, writing, reading}
use distributed_system_proje.Store.Log.{answer, failed}
use distributed_system_proje.Recovery.{merge_finished_batch_id}
use distributed_system_proje.Recovery.Reader.{chunk, end_of_log, broken}
use Files.{MergeWal}

-- `positionEquals`
unfoldable pub position_equals : ChunkPosition → ChunkPosition → Bool
position_equals a b =
    (a.segment_id == b.segment_id)
    && (a.block_number == b.block_number)
    && equal_ℤ a.chunk_offset b.chunk_offset

-- `indexPos != nil && positionEquals(indexPos, position)`
unfoldable pub points_to : Option ChunkPosition → ChunkPosition → Bool
unfolding position_equals
points_to none position = false
points_to (some index_pos) position = position_equals index_pos position

-- `record.Type == LogRecordNormal && (record.Expire == 0 || record.Expire > now)`
unfoldable pub is_valid_data : LogRecord → ℤ → Bool
is_valid_data r now =
    (r.record_type == log_record_normal) && (equal_ℤ r.expire zero_ℤ || ltb_ℤ now r.expire)

module _ (env : Env) (files : MergeWal env.wal) where
  open files use {reader}

  -- What doMerge writes of the merge database: its data files and its hint file
  pub record MergeDb : Type 0 where
    pub data_files : env.wal.Log
    pub hint_file : env.wal.Log

  -- A record goes to the data files with the batch id cleared, and its new position to the hint file.
  unfoldable pub rewrite_record : MergeDb → LogRecord → Option (Option Error × MergeDb)
  rewrite_record m r = do
    encoded ← encode_log_record (record r { batch_id = merge_finished_batch_id })
    let (data_files', written) = files.write m.data_files encoded
    elim written [
      | failed e ↦ some (some e, record m { data_files = data_files' })
      | answer new_position ↦ (do
        hint ← encode_hint_record r.key new_position
        let (hint_file', hinted) = files.write m.hint_file hint
        some (
          elim hinted [ failed e ↦ some e | answer p ↦ none ],
          record { data_files = data_files'; hint_file = hint_file' },
        ))
    ]

  -- The body of the loop, with the index as it is when the chunk is looked up
  unfoldable pub rewrite_chunk :
      env.indexer.Index → ℤ → ChunkPosition → Bytes → MergeDb → Option (Option Error × MergeDb)
  unfolding points_to is_valid_data rewrite_record
  rewrite_chunk index now position bytes m = elim (decode_log_record bytes) [
    | none ↦ none
    | some r ↦
        if is_valid_data r now && points_to (env.indexer.get index r.key) position
        then rewrite_record m r
        else some (none, m)
  ]

  -- The loop of doMerge over the older segments. The lock is not held: `index_at p` is the index that
  -- the loop finds where it looks up the chunk at `p`, whatever other goroutines have done by then.
  unfoldable pub rewrite_loop :
      ℕ
      → (ChunkPosition → env.indexer.Index)
      → ℤ
      → reader.Reader
      → MergeDb
      → Option (Option Error × MergeDb)
  unfolding rewrite_chunk
  rewrite_loop zero index_at now r m = none
  rewrite_loop (suc fuel) index_at now r m =
      let (r', result) = reader.next r in
      elim result [
        | end_of_log ↦ some (none, m)
        | broken e ↦ some (some e, m)
        | chunk position bytes ↦ (elim (rewrite_chunk (index_at position) now position bytes m) [
          | none ↦ none
          | some (some e, m') ↦ some (some e, m')
          | some (none, m') ↦ rewrite_loop fuel index_at now r' m'
        ])
      ]

  -- The state that doMerge changes: the database, its flag `mergeRunning`, and what it has written to
  -- the merge directory, where it came so far: the merge database, and the file that says that the
  -- merge has finished
  pub record Merging : Type 0 where
    pub db : Db env
    pub merge_running : Bool
    pub merge_db : Option MergeDb
    pub merge_fin : Option env.wal.Log

  -- The state at a return behind the guards, where the flag is reset
  abbrev pub at_return : Db env → Option MergeDb → Option env.wal.Log → Merging
  at_return db m fin = record { db = db; merge_running = false; merge_db = m; merge_fin = fin }

  -- What the file system answers: openMergeDB, openMergeFinishedFile, and Close of the latter
  pub record MergeDirectory : Type 0 where
    pub open_merge_db : Reply MergeDb
    pub open_merge_finished_file : Reply env.wal.Log
    pub close : env.wal.Log → Option Error

  -- The file that says that the merge has finished.
  unfoldable pub finish_merge : MergeDirectory → ℕ → Db env → MergeDb → Option Error × Merging
  finish_merge directory prev_active_seg_id db m =
      let ended : Option env.wal.Log → Merging = λ fin. at_return db (some m) fin in
      elim directory.open_merge_finished_file [
        | err e ↦ (some e, ended none)
        | ok file ↦
            (let (file', written) = files.write file (encode_merge_fin_record prev_active_seg_id) in
              elim written [
                | failed e ↦ (some e, ended (some file'))
                | answer p ↦ (directory.close file', ended (some file'))
              ])
      ]

  -- doMerge behind the rotation of the log, without the lock
  unfoldable pub merge_segments :
      ℕ
      → (ChunkPosition → env.indexer.Index)
      → ℤ
      → MergeDirectory
      → ℕ
      → Db env
      → Option (Option Error × Merging)
  unfolding rewrite_loop finish_merge
  merge_segments fuel index_at now directory prev_active_seg_id db = elim directory.open_merge_db [
    | err e ↦ some (some e, at_return db none none)
    | ok m ↦ (do
      (e, m') ←
          rewrite_loop fuel index_at now
            (files.new_reader_with_max db.data_files prev_active_seg_id) m
      some (elim e [
        | some e ↦ (some e, at_return db (some m') none)
        | none ↦ finish_merge directory prev_active_seg_id db m'
      ]))
  ]

  -- `doMerge`
  unfoldable pub do_merge :
      ℕ
      → (ChunkPosition → env.indexer.Index)
      → ℤ
      → MergeDirectory
      → Db env
      → Bool
      → Option (Option Error × Merging)
  unfolding merge_segments
  do_merge fuel index_at now directory db merge_running =
      let refused : Merging = record {
        db = db;
        merge_running = merge_running;
        merge_db = none;
        merge_fin = none;
      } in
      elim db.mu [
        | writing ↦ none
        | reading n ↦ none
        | free ↦
            if db.closed
            then some (some err_db_closed, refused)
            else if files.is_empty db.data_files
            then some (none, refused)
            else if merge_running
            then some (some err_merge_running, refused)
            else (let (data_files', failure) = files.open_new_active_segment db.data_files in
                let rotated : Db env = record db { data_files = data_files' } in
                elim failure [
                  | some e ↦ some (some e, at_return rotated none none)
                  | none ↦
                      merge_segments fuel index_at now directory
                        (files.active_segment_id db.data_files) rotated
                ])
      ]

  -- The loop of loadIndexFromHintFile
  unfoldable pub hint_loop :
      ℕ → reader.Reader → env.indexer.Index → Option (Option Error × env.indexer.Index)
  hint_loop zero r index = none
  hint_loop (suc fuel) r index =
      let (r', result) = reader.next r in
      elim result [
        | end_of_log ↦ some (none, index)
        | broken e ↦ some (some e, index)
        | chunk p bytes ↦ (elim (decode_hint_record bytes) [
          | none ↦ none
          | some (key, position) ↦ hint_loop fuel r' (env.indexer.put index key position).0
        ])
      ]

  -- `loadIndexFromHintFile`, given what opening the hint file answers
  unfoldable pub load_index_from_hint_file :
      ℕ → Reply env.wal.Log → env.indexer.Index → Option (Option Error × env.indexer.Index)
  unfolding hint_loop
  load_index_from_hint_file fuel (err e) index = some (some e, index)
  load_index_from_hint_file fuel (ok hint_file) index =
      hint_loop fuel (files.new_reader hint_file) index

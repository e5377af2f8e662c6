-- ===== src/Merge/Steps.antt =====
-- The steps of doMerge (merge.go): its guards, the rotation of the log, the loop, and the file that says
-- that the merge has finished.
use distributed_system_proje.Prelude.{ℕ, ◌≡◌, false, Option, none, some, arith, inl, inr}
use distributed_system_proje.Prelude.Int.{ℤ}
use distributed_system_proje.Errors.{Error}
use distributed_system_proje.Record.{ChunkPosition, encode_merge_fin_record}
use distributed_system_proje.Store.{Env, Db, ok, free}
use distributed_system_proje.Merge.{
  MergeDb, MergeDirectory, at_return, rewrite_loop, finish_merge, merge_segments, do_merge,
}
use distributed_system_proje.Recovery.Segments.{Reply-cases}
use distributed_system_proje.Merge.Files.{MergeWal}
use distributed_system_proje.Merge.Rewrite.{write-cases}

module _ (env : Env) (files : MergeWal env.wal) where
  -- What finish_merge leaves, whatever the file system answers
  pub finish_merge_lem :
      (directory : MergeDirectory env files) (n : ℕ) (db : Db env) (m : MergeDb env files)
      → (e : Option Error) × ((fin : Option env.wal.Log) × (finish_merge env files directory n db m
            ≡ (e, at_return env files db (some m) fin)))
  unfolding finish_merge
  finish_merge_lem directory n db m = elim (Reply-cases directory.open_merge_finished_file) [
    | inr (e, o) ↦ (some e, (none, ground (arith, o)))
    | inl (file, o) ↦ elim (write-cases (files.write file (encode_merge_fin_record n))) [
      | inl (file', (p, w)) ↦ (directory.close file', (some file', ground (arith, o, w)))
      | inr (file', (e, w)) ↦ (some e, (some file', ground (arith, o, w)))
    ]
  ]

  module _ (fuel : ℕ) (index_at : ChunkPosition → env.indexer.Index) (now : ℤ)
      (directory : MergeDirectory env files) (db : Db env) where
    pub passes_guards :
        (l : env.wal.Log)
        → db.mu ≡ free
        → db.closed ≡ false
        → files.is_empty db.data_files ≡ false
        → files.open_new_active_segment db.data_files ≡ (l, none)
        → do_merge env files fuel index_at now directory db false
          ≡ merge_segments env files fuel index_at now directory
              (files.active_segment_id db.data_files)
              (record db { data_files = l })
    unfolding do_merge
    passes_guards l u c n o = ground arith

    pub fails_to_rotate :
        (l : env.wal.Log) (x : Error)
        → db.mu ≡ free
        → db.closed ≡ false
        → files.is_empty db.data_files ≡ false
        → files.open_new_active_segment db.data_files ≡ (l, some x)
        → do_merge env files fuel index_at now directory db false
          ≡ some (some x, at_return env files (record db { data_files = l }) none none)
    unfolding do_merge
    fails_to_rotate l x u c n o = ground arith

    pub merge_failed :
        (n : ℕ) (m m' : MergeDb env files) (x : Error)
        → directory.open_merge_db ≡ ok m
        → rewrite_loop env files fuel index_at now (files.new_reader_with_max db.data_files n) m
          ≡ some (some x, m')
        → merge_segments env files fuel index_at now directory n db
          ≡ some (some x, at_return env files db (some m') none)
    unfolding merge_segments
    merge_failed n m m' x o run = ground arith

    pub merge_done :
        (n : ℕ) (m m' : MergeDb env files)
        → directory.open_merge_db ≡ ok m
        → rewrite_loop env files fuel index_at now (files.new_reader_with_max db.data_files n) m
          ≡ some (none, m')
        → merge_segments env files fuel index_at now directory n db
          ≡ some (finish_merge env files directory n db m')
    unfolding merge_segments
    merge_done n m m' o run = ground arith

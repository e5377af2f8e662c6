-- ===== src/Merge/Restarted.antt =====
-- loadIndex of db.go: the index that a database is opened with, from the hint file of the last merge
-- and the segments behind it.
use distributed_system_proje.Prelude.{
  ℕ, ◌+◌, ◌≤◌, ◌<◌, ◌≡◌, ◌∙◌, Option, none, some, List, ◌++◌, arith, All, map, length, ◌⊎◌, inl,
  inr, ◌>>=◌,
}
use distributed_system_proje.Prelude.Int.{ℤ}
use distributed_system_proje.Errors.{Error}
use distributed_system_proje.Store.{Env, Reply, ok, err}
use distributed_system_proje.Recovery.{load_index_from_wal}
use distributed_system_proje.Recovery.Reader.{Segment, chunks_in}
use distributed_system_proje.Recovery.History.{Logged, IsHistory, all_chunks, live_index}
use distributed_system_proje.Recovery.Segments.{load_index_from_wal-recovers}
use distributed_system_proje.Merge.{load_index_from_hint_file}
use distributed_system_proje.Merge.Files.{MergeWal}
use distributed_system_proje.Merge.Rewrite.{hints, hint_of}
use distributed_system_proje.Merge.Hints.{Placements, index_written, hint_loop-Loads}

module _ (env : Env) (files : MergeWal env.wal) where
  -- `loadIndex`, given what opening the hint file and getMergeFinSegmentId answer
  unfoldable pub load_index :
      ℕ
      → ℤ
      → Reply env.wal.Log
      → Reply ℕ
      → env.wal.Log
      → env.indexer.Index
      → Option (Reply env.indexer.Index)
  load_index fuel now hint_file merge_fin data_files index = do
    (e, index') ← load_index_from_hint_file env files fuel hint_file index
    elim e [
      | some e ↦ some (err e)
      | none ↦
          load_index_from_wal env files.reader fuel now merge_fin (files.new_reader data_files)
            index'
    ]

  module _ (fuel : ℕ) (now : ℤ) (hint_file data_files : env.wal.Log) (merge_fin : Reply ℕ)
      (index : env.indexer.Index) where
    hint_file_broken :
        (e : Error) (i : env.indexer.Index)
        → load_index_from_hint_file env files fuel (ok hint_file) index ≡ some (some e, i)
        → load_index fuel now (ok hint_file) merge_fin data_files index ≡ some (err e)
    unfolding load_index
    hint_file_broken e i run = ground arith

    hint_file_loaded :
        (i : env.indexer.Index)
        → load_index_from_hint_file env files fuel (ok hint_file) index ≡ some (none, i)
        → load_index fuel now (ok hint_file) merge_fin data_files index
          ≡ load_index_from_wal env files.reader fuel now merge_fin (files.new_reader data_files) i
    unfolding load_index
    hint_file_loaded i run = ground arith

  -- When a database is opened whose last merge ended with segment `fin` and left a hint file for some
  -- rewritten records, and whose segments behind `fin`, one at least, hold the chunks of a history of
  -- whole and torn batches, with distinct ids and with no record that has expired, loadIndex ends,
  -- with more fuel than there are hints, and than merged segments and chunks behind them: with the
  -- error of a read, or with the index that the commits of the whole batches leave of the one that has
  -- the rewritten records at their places.
  pub load_index-recovers :
      (fuel fin : ℕ) (now : ℤ) (hint_file data_files : env.wal.Log) (index : env.indexer.Index)
      (ws : Placements) (merged ss : List Segment) (history : List Logged)
      → length (env.wal.chunks hint_file) < fuel
      → hints (env.wal.chunks hint_file) ≡ map hint_of ws
      → files.reader.segments (files.new_reader data_files) ≡ merged ++ ss
      → All (λ s. s.id ≤ fin) merged
      → All (λ s. fin < s.id) ss
      → 0 < length ss
      → length merged + length (chunks_in ss) < fuel
      → IsHistory env now history
      → chunks_in ss ≡ all_chunks env history
      → ((e : Error) × (load_index fuel now (ok hint_file) (ok fin) data_files index
            ≡ some (err e)))
        ⊎ ((index' : env.indexer.Index) × (live_index env history (index_written env index ws)
              ≡ some index')
            × (load_index fuel now (ok hint_file) (ok fin) data_files index ≡ some (ok index')))
  unfolding load_index_from_hint_file
  load_index-recovers fuel fin now hint_file data_files index ws merged ss history le h s l g n f
        hist same =
      elim (hint_loop-Loads env files fuel (files.new_reader hint_file) (env.wal.chunks hint_file)
        ws index (files.new_reader-chunks hint_file) le h) [
          | inl (e, (i, run)) ↦
              inl (e, hint_file_broken fuel now hint_file data_files (ok fin) index e i run)
          | inr run ↦
              (let loaded = hint_file_loaded fuel now hint_file data_files (ok fin) index _ run in
                elim (load_index_from_wal-recovers env files.reader fuel now fin
                  (files.new_reader data_files) (index_written env index ws) merged ss history s l g
                  n f hist same) [
                    | inl (e, out) ↦ inl (e, loaded ∙ out)
                    | inr (index', live, out) ↦ inr (index', live, loaded ∙ out)
                  ])
        ]

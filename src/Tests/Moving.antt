-- ===== src/Tests/Moving.antt =====
-- loadMergeFiles of merge.go at concrete disks.
use distributed_system_proje.Prelude.{
  ◌≡◌, ◌⊎◌, refl, ◌&&◌, leb, none, some, [], ◌∷◌, arith, if◌then◌else◌,
}
use distributed_system_proje.Errors.{Error}
use distributed_system_proje.Record.Hint.{decode_uint32}
use distributed_system_proje.Merge.Disk.{
  original, merge_directory, data_suffix, hint_suffix, merge_fin_suffix,
}
use distributed_system_proje.Merge.Startup.{load_merge_files, get_merge_fin_segment_id}
use distributed_system_proje.Merge.Moved.{nonempty, first_of}
use distributed_system_proje.Merge.Opened.{
  load_merge_files-moves, unfinished_merge_replaces_hint_file,
}
use distributed_system_proje.Tests.Files.{MemoryDisk, memory_files, memory_files-IsReliable}

-- Two data files of the database, the hint file of an earlier merge, and an unfinished merge
abbrev unfinished_disk : MemoryDisk
unfinished_disk original data_suffix id = if leb id 2 then some (id ∷ []) else none
unfinished_disk original hint_suffix id = some (3 ∷ [])
unfinished_disk original merge_fin_suffix id = some (0 ∷ 0 ∷ 0 ∷ 0 ∷ 0 ∷ 0 ∷ 0 ∷ 1 ∷ 0 ∷ 0 ∷ 0 ∷ [])
unfinished_disk merge_directory data_suffix id = some (9 ∷ [])
unfinished_disk merge_directory hint_suffix id = some (4 ∷ [])
unfinished_disk merge_directory merge_fin_suffix id = none

-- The same with a merge of the first segment that has finished
abbrev finished_disk : MemoryDisk
finished_disk original s id = unfinished_disk original s id
finished_disk merge_directory data_suffix id = some (9 ∷ [])
finished_disk merge_directory hint_suffix id = some (4 ∷ [])
finished_disk merge_directory merge_fin_suffix id =
    some (0 ∷ 0 ∷ 0 ∷ 0 ∷ 0 ∷ 0 ∷ 0 ∷ 1 ∷ 0 ∷ 0 ∷ 0 ∷ [])

load_merge_files-moves_example :
    ((e : Error) × ((d' : MemoryDisk) × (load_merge_files memory_files 4 finished_disk
          ≡ some (some e, d'))))
    ⊎ ((d' : MemoryDisk) × ((load_merge_files memory_files 4 finished_disk ≡ some (none, d'))
          × (d' original data_suffix 1 ≡ (
              if leb 1 1 && leb 1 1
              then nonempty (finished_disk merge_directory data_suffix 1)
              else finished_disk original data_suffix 1))
          × (d' original merge_fin_suffix 1
              ≡ first_of
                  (finished_disk merge_directory merge_fin_suffix 1)
                  (finished_disk original merge_fin_suffix 1))
          × (d' original hint_suffix 1
              ≡ first_of
                  (finished_disk merge_directory hint_suffix 1)
                  (finished_disk original hint_suffix 1))))
unfolding get_merge_fin_segment_id decode_uint32
load_merge_files-moves_example =
    load_merge_files-moves memory_files memory_files-IsReliable 4 0 1 1 finished_disk refl refl
      (omega arith) (omega arith)

unfinished_merge_replaces_hint_file_example :
    (d' : MemoryDisk) × ((load_merge_files memory_files 4 unfinished_disk ≡ some (none, d'))
      × (d' original hint_suffix 1 ≡ some (4 ∷ []))
      × (d' original merge_fin_suffix 1 ≡ unfinished_disk original merge_fin_suffix 1)
      × (d' original data_suffix 1 ≡ unfinished_disk original data_suffix 1))
unfinished_merge_replaces_hint_file_example =
    unfinished_merge_replaces_hint_file memory_files memory_files-IsReliable 3 0 1 unfinished_disk
      (4 ∷ []) refl refl refl refl

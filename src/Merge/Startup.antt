-- ===== src/Merge/Startup.antt =====
-- merge.go: loadMergeFiles, which moves the files of a merge in when a database is opened. `none` is a
-- panic, or fuel that runs out.
use distributed_system_proje.Prelude.{
  ℕ, zero, suc, ◌+◌, ◌%◌, ◌^◌, Bool, true, false, not, ◌&&◌, ◌==◌, leb, Option, none, some,
  if◌then◌else◌, ◌>>=◌,
}
use distributed_system_proje.Errors.{Error}
use distributed_system_proje.Record.Hint.{decode_uint32}
use distributed_system_proje.Store.{Reply, ok, err}
use distributed_system_proje.Merge.Disk.{
  FileSystem, Directory, original, merge_directory, Suffix, data_suffix, hint_suffix,
  merge_fin_suffix, missing, sized, unknown,
}

module _ (fs : FileSystem) where
  open fs use {Disk}

  -- `copyFile`
  unfoldable pub copy_file : Disk → Suffix → ℕ → Bool → Option Disk
  copy_file d suffix file_id force = elim (fs.stat d merge_directory suffix file_id) [
    | missing ↦ some d
    | unknown e ↦ none
    | sized n ↦ if not force && (n == 0) then some d else some (fs.rename d suffix file_id).0
  ]

  -- `getMergeFinSegmentId`: 0 where the file cannot be opened
  unfoldable pub get_merge_fin_segment_id : Disk → Directory → Option (Reply ℕ)
  get_merge_fin_segment_id d dir = elim (fs.opens d dir merge_fin_suffix 1) [
    | false ↦ some (ok 0)
    | true ↦ (elim (fs.read_first d dir merge_fin_suffix 1) [
      | err e ↦ some (err e)
      | ok merge_fin_buf ↦ (do id ← decode_uint32 merge_fin_buf; some (ok id))
    ])
  ]

  -- The original data file is removed where Stat finds it.
  unfoldable pub remove_original : Disk → ℕ → Disk × Option Error
  remove_original d file_id = elim (fs.stat d original data_suffix file_id) [
    | missing ↦ (d, none)
    | unknown e ↦ (d, none)
    | sized n ↦ fs.remove_file d data_suffix file_id
  ]

  -- The loop over the merged segments, where fileId is a uint32
  unfoldable pub replace_files : ℕ → ℕ → ℕ → Disk → Option (Option Error × Disk)
  unfolding copy_file remove_original
  replace_files zero file_id fin d = none
  replace_files (suc fuel) file_id fin d = elim (leb file_id fin) [
    | false ↦ some (none, d)
    | true ↦
        (let (d', failure) = remove_original d file_id in
          elim failure [
            | some e ↦ some (some e, d')
            | none ↦ (elim (copy_file d' data_suffix file_id false) [
              | none ↦ none
              | some d'' ↦ replace_files fuel ((file_id + 1) % 2 ^ 32) fin d''
            ])
          ])
  ]

  -- `loadMergeFiles`. The merge directory is removed at every return behind the first Stat.
  unfoldable pub load_merge_files : ℕ → Disk → Option (Option Error × Disk)
  unfolding get_merge_fin_segment_id replace_files copy_file
  load_merge_files fuel d = elim (fs.stat_merge_directory d) [
    | missing ↦ some (none, d)
    | unknown e ↦ some (some e, d)
    | sized n ↦ (do
      fin ← get_merge_fin_segment_id d merge_directory
      elim fin [
        | err e ↦ some (some e, fs.remove_merge_directory d)
        | ok fin ↦ (do
          (e, d) ← replace_files fuel 1 fin d
          elim e [
            | some e ↦ some (some e, fs.remove_merge_directory d)
            | none ↦ (do
              d ← copy_file d merge_fin_suffix 1 true
              d ← copy_file d hint_suffix 1 true
              some (none, fs.remove_merge_directory d))
          ])
      ])
  ]

-- ===== src/Merge/Opened.antt =====
-- loadMergeFiles (merge.go): the files that a database is opened with.
use distributed_system_proje.Prelude.{
  ap₂, ℕ, suc, ◌^◌, ◌<◌, ◌≡◌, refl, ◌∙◌, Bytes, true, false, ◌&&◌, leb, none, some, arith,
  if◌then◌else◌, ◌⊎◌, inl, inr,
}
use distributed_system_proje.Errors.{Error}
use distributed_system_proje.Store.{ok}
use distributed_system_proje.Merge.Disk.{
  FileSystem, IsReliable, original, merge_directory, Suffix, data_suffix, hint_suffix,
  merge_fin_suffix, sized,
}
use distributed_system_proje.Merge.Startup.{
  copy_file, get_merge_fin_segment_id, replace_files, load_merge_files,
}
use distributed_system_proje.Merge.Moved.{nonempty, first_of, copied}
use distributed_system_proje.Merge.Replaced.{replace_files-ReplacesAll, loop_ends}

module _ (fs : FileSystem) (reliable : IsReliable fs) where
  open fs use {Disk}

  -- Behind the loop: the file that says that the merge has finished and the hint file are moved, where
  -- the merge has them, and the data files are left.
  abbrev MovesRest : Disk → Disk → Type 0
  MovesRest d d' =
      (fs.file d' original merge_fin_suffix 1
        ≡ first_of (fs.file d merge_directory merge_fin_suffix 1)
            (fs.file d original merge_fin_suffix 1))
      × (fs.file d' original hint_suffix 1
          ≡ first_of (fs.file d merge_directory hint_suffix 1) (fs.file d original hint_suffix 1))
      × ((id : ℕ) → fs.file d' original data_suffix id ≡ fs.file d original data_suffix id)

  rest_moved :
      (d : Disk)
      → (d1 : Disk) × ((d2 : Disk) × ((copy_file fs d merge_fin_suffix 1 true ≡ some d1)
            × (copy_file fs d1 hint_suffix 1 true ≡ some d2)
            × MovesRest d (fs.remove_merge_directory d2)))
  rest_moved d =
      let (d1, (run1, files1, left1)) = copied fs reliable d merge_fin_suffix 1 true _ refl in
      let (d2, (run2, files2, left2)) = copied fs reliable d1 hint_suffix 1 true _ refl in
      let last = λ (s : Suffix) (id : ℕ). fs.file-removed_directory d2 s id in
      (
        d1,
        (
          d2,
          (
            run1,
            run2,
            (
              last merge_fin_suffix 1 ∙ files2 merge_fin_suffix 1 ∙ files1 merge_fin_suffix 1,
              last hint_suffix 1
                  ∙ files2 hint_suffix 1
                  ∙ ap₂ first_of (left1 hint_suffix 1 refl) (files1 hint_suffix 1),
              λ id. last data_suffix id ∙ files2 data_suffix id ∙ files1 data_suffix id,
            ),
          ),
        ),
      )

  module _ (fuel n fin : ℕ) (d : Disk) (found : fs.stat_merge_directory d ≡ sized n)
      (ends_at : get_merge_fin_segment_id fs d merge_directory ≡ some (ok fin)) where
    load_steps :
        (d0 d1 d2 : Disk)
        → replace_files fs fuel 1 fin d ≡ some (none, d0)
        → copy_file fs d0 merge_fin_suffix 1 true ≡ some d1
        → copy_file fs d1 hint_suffix 1 true ≡ some d2
        → load_merge_files fs fuel d ≡ some (none, fs.remove_merge_directory d2)
    unfolding load_merge_files
    load_steps d0 d1 d2 r c1 c2 = ground arith

    load_fails :
        (d0 : Disk) (e : Error)
        → replace_files fs fuel 1 fin d ≡ some (some e, d0)
        → load_merge_files fs fuel d ≡ some (some e, fs.remove_merge_directory d0)
    unfolding load_merge_files
    load_fails d0 e r = ground arith

  -- With more fuel than merged segments, on a file system where Stat and Rename do not fail, loading
  -- the files of a merge whose last segment is `fin` ends: with an error of Remove, or with the data
  -- files up to `fin` replaced by those of the merge that are not empty, the data files above `fin`
  -- kept, and the hint file and the file that names `fin` replaced by those of the merge, where it has
  -- them.
  pub load_merge_files-moves :
      (fuel n fin id : ℕ) (d : Disk)
      → fs.stat_merge_directory d ≡ sized n
      → get_merge_fin_segment_id fs d merge_directory ≡ some (ok fin)
      → fin < fuel
      → suc fin < 2 ^ 32
      → ((e : Error) × ((d' : Disk) × (load_merge_files fs fuel d ≡ some (some e, d'))))
        ⊎ ((d' : Disk) × ((load_merge_files fs fuel d ≡ some (none, d'))
              × (fs.file d' original data_suffix id ≡ (
                  if leb 1 id && leb id fin
                  then nonempty (fs.file d merge_directory data_suffix id)
                  else fs.file d original data_suffix id))
              × (fs.file d' original merge_fin_suffix 1
                  ≡ first_of
                      (fs.file d merge_directory merge_fin_suffix 1)
                      (fs.file d original merge_fin_suffix 1))
              × (fs.file d' original hint_suffix 1
                  ≡ first_of
                      (fs.file d merge_directory hint_suffix 1)
                      (fs.file d original hint_suffix 1))))
  load_merge_files-moves fuel n fin id d found ends_at f k =
      elim (replace_files-ReplacesAll fs reliable fuel 1 fin d (omega arith) (omega arith) k) [
        | inl (e, (d0, r)) ↦
            inl (e, (fs.remove_merge_directory d0, load_fails fuel n fin d found ends_at d0 e r))
        | inr (d0, (r, files, others)) ↦
            (let (d1, (d2, (c1, c2, (fin_file, hint, data_files)))) = rest_moved d0 in
              let (fin_kept, fin_left) = others merge_fin_suffix 1 refl in
              let (hint_kept, hint_left) = others hint_suffix 1 refl in
              inr (
                fs.remove_merge_directory d2,
                (
                  load_steps fuel n fin d found ends_at d0 d1 d2 r c1 c2,
                  data_files id ∙ files id,
                  fin_file ∙ ap₂ first_of fin_left fin_kept,
                  hint ∙ ap₂ first_of hint_left hint_kept,
                ),
              ))
      ]

  -- On a file system where Stat and Rename do not fail, loading the files of a merge that has not
  -- finished, whose directory has a hint file and no file that says that it has finished, puts its
  -- hint file in the place of the original one. The data files, and the file that says which segments
  -- an earlier merge replaced, stay as they were.
  pub unfinished_merge_replaces_hint_file :
      (fuel n id : ℕ) (d : Disk) (hint : Bytes)
      → fs.stat_merge_directory d ≡ sized n
      → fs.opens d merge_directory merge_fin_suffix 1 ≡ false
      → fs.file d merge_directory merge_fin_suffix 1 ≡ none
      → fs.file d merge_directory hint_suffix 1 ≡ some hint
      → (d' : Disk) × ((load_merge_files fs (suc fuel) d ≡ some (none, d'))
          × (fs.file d' original hint_suffix 1 ≡ some hint)
          × (fs.file d' original merge_fin_suffix 1 ≡ fs.file d original merge_fin_suffix 1)
          × (fs.file d' original data_suffix id ≡ fs.file d original data_suffix id))
  unfolding get_merge_fin_segment_id
  unfinished_merge_replaces_hint_file fuel n id d hint found unfinished no_fin some_hint =
      let ends_at : get_merge_fin_segment_id fs d merge_directory ≡ some (ok 0) = ground arith in
      let (d1, (d2, (c1, c2, (fin_file, hint_file, data_files)))) = rest_moved d in
      (
        fs.remove_merge_directory d2,
        (
          load_steps (suc fuel) n 0 d found ends_at d d1 d2
              (loop_ends fs reliable fuel 1 0 d (omega arith)) c1 c2,
          hint_file ∙ rw some_hint refl,
          fin_file ∙ rw no_fin refl,
          data_files id,
        ),
      )

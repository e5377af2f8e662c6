-- ===== src/Merge/Replaced.antt =====
-- loadMergeFiles (merge.go): the loop over the segments of a merge.
use distributed_system_proje.Prelude.{
  ==_iff, ℕ, zero, suc, ◌+◌, ◌^◌, ◌≤◌, ◌<◌, ◌≡◌, refl, ap, ◌∙◌, true, false, ◌&&◌, ◌==◌, leb,
  Option, none, some, arith, if◌then◌else◌, ◌⊎◌, inl, inr, Bool-cases,
}
use distributed_system_proje.Errors.{Error}
use distributed_system_proje.Merge.Disk.{
  FileSystem, IsReliable, original, merge_directory, Suffix, data_suffix, suffix_number,
}
use distributed_system_proje.Merge.Startup.{copy_file, remove_original, replace_files}
use distributed_system_proje.Merge.Moved.{
  nonempty, Removes, Replaces, copied, remove_original-Removes, replaces,
}

module _ (fs : FileSystem) (reliable : IsReliable fs) where
  open fs use {Disk}

  -- How far the loop comes: an error, or the files from `n` to `fin` replaced and no others
  abbrev pub ReplacesAll : Disk → ℕ → ℕ → Option (Option Error × Disk) → Type 0
  ReplacesAll d n fin out =
      ((e : Error) × ((d' : Disk) × (out ≡ some (some e, d'))))
      ⊎ ((d' : Disk) × ((out ≡ some (none, d'))
            × ((id : ℕ)
                → fs.file d' original data_suffix id ≡ (
                    if leb n id && leb id fin
                    then nonempty (fs.file d merge_directory data_suffix id)
                    else fs.file d original data_suffix id))
            × ((t : Suffix) (id : ℕ)
                → (suffix_number t == 0) ≡ false
                → (fs.file d' original t id ≡ fs.file d original t id)
                  × (fs.file d' merge_directory t id ≡ fs.file d merge_directory t id))))

  pub loop_ends :
      (fuel n fin : ℕ) (d : Disk) → fin < n → replace_files fs (suc fuel) n fin d ≡ some (none, d)
  unfolding replace_files
  loop_ends fuel n fin d h = ground arith

  loop_fails :
      (fuel n fin : ℕ) (d d' : Disk) (e : Error)
      → n ≤ fin
      → remove_original fs d n ≡ (d', some e)
      → replace_files fs (suc fuel) n fin d ≡ some (some e, d')
  unfolding replace_files
  loop_fails fuel n fin d d' e h r = ground arith

  loop_goes_on :
      (fuel n fin : ℕ) (d d' d'' : Disk)
      → n ≤ fin
      → n + 1 < 2 ^ 32
      → remove_original fs d n ≡ (d', none)
      → copy_file fs d' data_suffix n false ≡ some d''
      → replace_files fs (suc fuel) n fin d ≡ replace_files fs fuel (suc n) fin d''
  unfolding replace_files
  loop_goes_on fuel n fin d d' d'' h k r c = ground arith

  Replaces-replace_files :
      (fuel n fin : ℕ) (d d' : Disk)
      → n ≤ fin
      → Replaces fs reliable d n d'
      → replace_files fs (suc fuel) n fin d ≡ replace_files fs fuel (suc n) fin d'
      → ReplacesAll d' (suc n) fin (replace_files fs fuel (suc n) fin d')
      → ReplacesAll d n fin (replace_files fs (suc fuel) n fin d)
  Replaces-replace_files fuel n fin d d' h (data_files, left, others) run (inl (e, (d'', out))) =
      inl (e, (d'', run ∙ out))
  Replaces-replace_files fuel n fin d d' h (data_files, left, others) run
        (inr (d'', (out, files, rest))) =
      inr (
        d'',
        (
          run ∙ out,
          (λ id. elim (Bool-cases (n == id)) [
            | inl same ↦
                (let at : n ≡ id = (==_iff n id).0 same in
                  let past : (leb (suc n) id && leb id fin) ≡ false = ground arith in
                  let inside : (leb n id && leb id fin) ≡ true = ground arith in
                  let kept : fs.file d'' original data_suffix id
                      ≡ fs.file d' original data_suffix id =
                    files id ∙ rw past refl in
                  let new : fs.file d' original data_suffix id
                      ≡ nonempty (fs.file d merge_directory data_suffix n) =
                    data_files id ∙ rw same refl in
                  kept
                  ∙ new
                  ∙ rw inside (ap (λ k. nonempty (fs.file d merge_directory data_suffix k)) at))
            | inr other ↦
                (let still : (leb (suc n) id && leb id fin) ≡ (leb n id && leb id fin) =
                    ground arith in
                  let old : fs.file d' original data_suffix id ≡ fs.file d original data_suffix id =
                    data_files id ∙ rw other refl in
                  files id ∙ rw (still, left id other, old) refl)
          ]),
          λ t id k. ((rest t id k).0 ∙ (others t id k).0, (rest t id k).1 ∙ (others t id k).1),
        ),
      )

  replaces_one :
      (fuel n fin : ℕ) (d : Disk)
      → n ≤ fin
      → suc fin < 2 ^ 32
      → (out : Disk × Option Error) → remove_original fs d n ≡ out
      → Removes fs reliable d n out
      → ((d' : Disk) → ReplacesAll d' (suc n) fin (replace_files fs fuel (suc n) fin d'))
      → ReplacesAll d n fin (replace_files fs (suc fuel) n fin d)
  replaces_one fuel n fin d h k (d', some e) r gone go =
      inl (e, (d', loop_fails fuel n fin d d' e h r))
  replaces_one fuel n fin d h k (d', none) r gone go =
      let c = copied fs reliable d' data_suffix n false _ refl in
      Replaces-replace_files fuel n fin d c.0 h (replaces fs reliable d d' n gone c)
        (loop_goes_on fuel n fin d d' c.0 h (omega arith) r c.1.0) (go c.0)

  -- With more fuel than segments, the loop ends.
  pub replace_files-ReplacesAll :
      (fuel n fin : ℕ) (d : Disk)
      → n ≤ suc fin
      → suc fin < fuel + n
      → suc fin < 2 ^ 32
      → ReplacesAll d n fin (replace_files fs fuel n fin d)
  replace_files-ReplacesAll zero n fin d b f k = absurd (omega arith)
  replace_files-ReplacesAll (suc fuel) n fin d b f k = elim (Bool-cases (leb n fin)) [
    | inr past ↦ inr (
      d,
      (
        loop_ends fuel n fin d (ground arith),
        (λ id. (let outside : (leb n id && leb id fin) ≡ false = ground arith in rw outside refl)),
        λ t id k. (refl, refl),
      ),
    )
    | inl inside ↦
        replaces_one fuel n fin d (ground arith) k _ refl
          (remove_original-Removes fs reliable d n _ refl)
          (λ d'. replace_files-ReplacesAll fuel (suc n) fin d' (ground arith) (omega arith) k)
  ]

-- ===== src/Merge/Moved.antt =====
-- loadMergeFiles (merge.go): copyFile, and the body of the loop over the segments.
use distributed_system_proje.Prelude.{
  ==_iff, ℕ, suc, ◌≡◌, refl, ap, sym, ◌∙◌, subst, Bytes, Bool, true, false, ◌==◌, Option, none,
  some, [], ◌∷◌, arith, if◌then◌else◌, length, inl, inr, Bool-cases,
}
use distributed_system_proje.Errors.{Error}
use distributed_system_proje.Merge.Disk.{
  FileSystem, IsReliable, original, merge_directory, Suffix, data_suffix, hint_suffix,
  merge_fin_suffix, suffix_number, same_name, missing, sized, stat_of,
}
use distributed_system_proje.Merge.Startup.{copy_file, remove_original}

-- A file that is not empty
abbrev pub nonempty : Option Bytes → Option Bytes
nonempty none = none
nonempty (some []) = none
nonempty (some (b ∷ bs)) = some (b ∷ bs)

-- A file of the merge, or else the original one
abbrev pub first_of : Option Bytes → Option Bytes → Option Bytes
first_of none old = old
first_of (some content) old = some content

-- The file that copyFile moves: with `force` any, else one that is not empty
abbrev pub moved : Bool → Option Bytes → Option Bytes
moved true o = o
moved false o = nonempty o

replaced_file :
    (same : Bool) (new old left : Option Bytes)
    → left ≡ (if same then none else old)
    → (if same then first_of new left else left) ≡ (if same then new else old)
replaced_file true none old left e = e
replaced_file true (some c) old left e = refl
replaced_file false new old left e = e

module _ (fs : FileSystem) (reliable : IsReliable fs) where
  open fs use {Disk}

  -- What copyFile does to the files
  abbrev pub Copies : Disk → Suffix → ℕ → Bool → Type 0
  Copies d s n force =
      (d' : Disk) × ((copy_file fs d s n force ≡ some d')
        × ((t : Suffix) (id : ℕ)
            → fs.file d' original t id ≡ (
                if same_name s n t id
                then first_of (moved force (fs.file d merge_directory s n))
                    (fs.file d original t id)
                else fs.file d original t id))
        × ((t : Suffix) (id : ℕ)
            → same_name s n t id ≡ false
            → fs.file d' merge_directory t id ≡ fs.file d merge_directory t id))

  stays :
      (d : Disk) (s : Suffix) (n : ℕ) (force : Bool)
      → copy_file fs d s n force ≡ some d
      → moved force (fs.file d merge_directory s n) ≡ none
      → Copies d s n force
  stays d s n force run m = (d, (run, (λ t id. rw m (ground arith)), λ t id k. refl))

  goes :
      (d : Disk) (s : Suffix) (n : ℕ) (force : Bool) (content : Bytes)
      → fs.file d merge_directory s n ≡ some content
      → copy_file fs d s n force ≡ some (fs.rename d s n).0
      → moved force (some content) ≡ some content
      → Copies d s n force
  goes d s n force content e run m =
      let renamed = λ (t : Suffix) (id : ℕ).
        fs.file-renamed d s t n id content e (reliable.renames d s n content e) in
      (
        (fs.rename d s n).0,
        (run, (λ t id. rw (e, m) (renamed t id).0), λ t id k. (renamed t id).1 ∙ rw k refl),
      )

  pub copied :
      (d : Disk) (s : Suffix) (n : ℕ) (force : Bool) (o : Option Bytes)
      → fs.file d merge_directory s n ≡ o
      → Copies d s n force
  unfolding copy_file
  copied d s n force none e =
      let st : fs.stat d merge_directory s n ≡ missing =
        reliable.stats d merge_directory s n ∙ ap stat_of e in
      stays d s n force (ground arith) (ap (moved force) e ∙ ground arith)
  copied d s n true (some content) e =
      let st : fs.stat d merge_directory s n ≡ sized (length content) =
        reliable.stats d merge_directory s n ∙ ap stat_of e in
      goes d s n true content e (ground arith) refl
  copied d s n false (some []) e =
      let st : fs.stat d merge_directory s n ≡ sized 0 =
        reliable.stats d merge_directory s n ∙ ap stat_of e in
      stays d s n false (ground arith) (ap nonempty e)
  copied d s n false (some (b ∷ bs)) e =
      let st : fs.stat d merge_directory s n ≡ sized (suc (length bs)) =
        reliable.stats d merge_directory s n ∙ ap stat_of e in
      goes d s n false (b ∷ bs) e (ground arith) refl

  -- Removing the original data file, where it does not fail
  abbrev pub Removes : Disk → ℕ → Disk × Option Error → Type 0
  Removes d n (d', some e) = Unit
  Removes d n (d', none) =
      ((t : Suffix) (id : ℕ)
        → fs.file d' original t id
          ≡ (if same_name data_suffix n t id then none else fs.file d original t id))
      × ((t : Suffix) (id : ℕ) → fs.file d' merge_directory t id ≡ fs.file d merge_directory t id)

  removed :
      (d : Disk) (n : ℕ) (out : Disk × Option Error)
      → fs.remove_file d data_suffix n ≡ out
      → Removes d n out
  removed d n (d', some e) h = tt
  removed d n (d', none) h =
      let gone = λ (t : Suffix) (id : ℕ). fs.file-removed d data_suffix t n id (ap (λ x. x.1) h) in
      let disk = ap (λ x. x.0) h in
      (
        (λ t id. ap (λ z. fs.file z original t id) (sym disk) ∙ (gone t id).0),
        λ t id. ap (λ z. fs.file z merge_directory t id) (sym disk) ∙ (gone t id).1,
      )

  missing_file :
      (d : Disk) (t : Suffix) (n id : ℕ)
      → fs.file d original data_suffix n ≡ none
      → fs.file d original t id
        ≡ (if same_name data_suffix n t id then none else fs.file d original t id)
  missing_file d hint_suffix n id e = ground arith
  missing_file d merge_fin_suffix n id e = ground arith
  missing_file d data_suffix n id e = elim (Bool-cases (n == id)) [
    | inl same ↦ rw same (ap (fs.file d original data_suffix) (sym ((==_iff n id).0 same)) ∙ e)
    | inr other ↦ rw other refl
  ]

  removes_nothing :
      (d : Disk) (n : ℕ)
      → fs.file d original data_suffix n ≡ none
      → remove_original fs d n ≡ (d, none)
  unfolding remove_original
  removes_nothing d n e =
      let st : fs.stat d original data_suffix n ≡ missing =
        reliable.stats d original data_suffix n ∙ ap stat_of e in
      ground arith

  removes_file :
      (d : Disk) (n : ℕ) (content : Bytes)
      → fs.file d original data_suffix n ≡ some content
      → remove_original fs d n ≡ fs.remove_file d data_suffix n
  unfolding remove_original
  removes_file d n content e =
      let st : fs.stat d original data_suffix n ≡ sized (length content) =
        reliable.stats d original data_suffix n ∙ ap stat_of e in
      ground arith

  pub remove_original-Removes :
      (d : Disk) (n : ℕ) (o : Option Bytes)
      → fs.file d original data_suffix n ≡ o
      → Removes d n (remove_original fs d n)
  remove_original-Removes d n none e =
      subst (Removes d n) (sym (removes_nothing d n e))
        ((λ t id. missing_file d t n id e), λ t id. refl)
  remove_original-Removes d n (some content) e =
      subst (Removes d n) (sym (removes_file d n content e))
        (removed d n (fs.remove_file d data_suffix n) refl)

  -- The body of the loop: an error, or the file is that of the merge, where this one is not empty,
  -- and nothing else changes.
  abbrev pub Replaces : Disk → ℕ → Disk → Type 0
  Replaces d n d' =
      ((id : ℕ)
        → fs.file d' original data_suffix id ≡ (
            if n == id
            then nonempty (fs.file d merge_directory data_suffix n)
            else fs.file d original data_suffix id))
      × ((id : ℕ)
          → (n == id) ≡ false
          → fs.file d' merge_directory data_suffix id ≡ fs.file d merge_directory data_suffix id)
      × ((t : Suffix) (id : ℕ)
          → (suffix_number t == 0) ≡ false
          → (fs.file d' original t id ≡ fs.file d original t id)
            × (fs.file d' merge_directory t id ≡ fs.file d merge_directory t id))

  pub replaces :
      (d d' : Disk) (n : ℕ)
      → Removes d n (d', none)
      → (c : Copies d' data_suffix n false) → Replaces d n c.0
  replaces d d' n (gone, left) (d'', (run, files, rest)) = (
    (λ id.
        files data_suffix id
        ∙ rw (left data_suffix n) (replaced_file (n == id) _ _ _ (gone data_suffix id))),
    (λ id k. rest data_suffix id (ground arith) ∙ left data_suffix id),
    λ t id k. ((files t id ∙ ground (arith, gone t id)), rest t id (ground arith) ∙ left t id),
  )

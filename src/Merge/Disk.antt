-- ===== src/Merge/Disk.antt =====
-- What merge.go uses of the file system (Go's package os) on the segment files of the database's
-- directory and of the merge directory beside it.
use distributed_system_proje.Prelude.{
  ℕ, ◌≡◌, Bytes, Bool, ◌&&◌, ◌==◌, Option, none, some, length, if◌then◌else◌,
}
use distributed_system_proje.Errors.{Error}
use distributed_system_proje.Store.{Reply}

-- The extensions dataFileNameSuffix, hintFileNameSuffix and mergeFinNameSuffix
pub data Suffix : Type 0 where
  data_suffix hint_suffix merge_fin_suffix : Suffix

-- The directory of the database, and the one of its merge
pub data Directory : Type 0 where
  original merge_directory : Directory

abbrev pub suffix_number : Suffix → ℕ
suffix_number data_suffix = 0
suffix_number hint_suffix = 1
suffix_number merge_fin_suffix = 2

abbrev pub same_name : Suffix → ℕ → Suffix → ℕ → Bool
same_name s id t id' = (suffix_number s == suffix_number t) && (id == id')

-- What os.Stat answers
pub data StatResult : Type 0 where
  missing : StatResult
  sized : ℕ → StatResult
  unknown : Error → StatResult

abbrev pub stat_of : Option Bytes → StatResult
stat_of none = missing
stat_of (some content) = sized (length content)

-- `file` is what a segment file holds, where there is one. Rename moves a file of the merge directory
-- to the same name in the original one, and Remove takes one of the original directory away.
pub record FileSystem : Type 1 where
  pub Disk : Type 0
  pub file : Disk → Directory → Suffix → ℕ → Option Bytes
  pub stat : Disk → Directory → Suffix → ℕ → StatResult
  pub stat_merge_directory : Disk → StatResult
  pub rename : Disk → Suffix → ℕ → Disk × Option Error
  pub remove_file : Disk → Suffix → ℕ → Disk × Option Error
  pub remove_merge_directory : Disk → Disk
  -- whether Open succeeds, and the four bytes that ReadAt finds behind the header of the first chunk
  pub opens : Disk → Directory → Suffix → ℕ → Bool
  pub read_first : Disk → Directory → Suffix → ℕ → Reply Bytes
  pub file-removed_directory :
      (d : Disk) (s : Suffix) (id : ℕ)
      → file (remove_merge_directory d) original s id ≡ file d original s id
  pub file-renamed :
      (d : Disk) (s t : Suffix) (n id : ℕ) (content : Bytes)
      → file d merge_directory s n ≡ some content
      → (rename d s n).1 ≡ none
      → (file (rename d s n).0 original t id
          ≡ (if same_name s n t id then some content else file d original t id))
        × (file (rename d s n).0 merge_directory t id
            ≡ (if same_name s n t id then none else file d merge_directory t id))
  pub file-removed :
      (d : Disk) (s t : Suffix) (n id : ℕ)
      → (remove_file d s n).1 ≡ none
      → (file (remove_file d s n).0 original t id
          ≡ (if same_name s n t id then none else file d original t id))
        × (file (remove_file d s n).0 merge_directory t id ≡ file d merge_directory t id)

-- Stat answers what there is, and Rename of a file that there is succeeds.
pub record IsReliable (fs : FileSystem) : Type 0 where
  pub stats :
      (d : fs.Disk) (dir : Directory) (s : Suffix) (id : ℕ)
      → fs.stat d dir s id ≡ stat_of (fs.file d dir s id)
  pub renames :
      (d : fs.Disk) (s : Suffix) (id : ℕ) (content : Bytes)
      → fs.file d merge_directory s id ≡ some content
      → (fs.rename d s id).1 ≡ none

-- ===== src/Tests/Files.antt =====
-- The files of a merge for the tests: a log with one reader, and a file system in memory.
use distributed_system_proje.Prelude.{
  ltb→lt, inl, subst, Bool-cases, ◌<◌, ◌^◌, ℕ, ◌≡◌, refl, ap, sym, ◌∙◌, Bytes, Bool, true, false,
  ◌==◌, ltb, Option, none, some, [], ◌∷◌, ◌++◌, append-nil, arith, if◌then◌else◌, length, take,
  drop, inr,
}
use distributed_system_proje.Errors.{external}
use distributed_system_proje.Record.{ChunkPosition}
use distributed_system_proje.Record.Hint.{IsPosition}
use distributed_system_proje.Store.{ok, err}
use distributed_system_proje.Store.Log.{LogReply, answer, failed}
use distributed_system_proje.Merge.Files.{MergeWal}
use distributed_system_proje.Merge.Disk.{
  FileSystem, IsReliable, Directory, original, merge_directory, Suffix, same_name, sized, stat_of,
}
use distributed_system_proje.Tests.ListLog.{ListLog, list_wal, place, numbered, numbered-append}
use distributed_system_proje.Tests.Loading.{list_reader}

-- Places are numbered below 2 ^ 32.
abbrev pub append_if : Bool → ListLog → Bytes → ListLog × LogReply ChunkPosition
append_if true l c = (record l { stored = l.stored ++ (c ∷ []) }, answer (place (length l.stored)))
append_if false l c = (l, failed (external 0))

abbrev pub append_one : ListLog → Bytes → ListLog × LogReply ChunkPosition
append_one l c = append_if (ltb (length l.stored) (2 ^ 32)) l c

abbrev position_in : LogReply ChunkPosition → ChunkPosition
position_in (answer p) = p
position_in (failed e) = place 0

appended :
    (l l' : ListLog) (c : Bytes) (p : ChunkPosition)
    → length l.stored < 2 ^ 32
    → l'.stored ≡ l.stored ++ (c ∷ [])
    → p ≡ place (length l.stored)
    → (numbered 0 l'.stored ≡ numbered 0 l.stored ++ ((p, c) ∷ [])) × IsPosition p
appended l l' c p h e at = (
  ap (numbered 0) e
      ∙ numbered-append 0 l.stored (c ∷ [])
      ∙ ap (λ q. numbered 0 l.stored ++ ((q, c) ∷ [])) (ap place (omega arith) ∙ sym at),
  subst IsPosition (sym at) (record {
    segment = h;
    block = omega arith;
    offset = (omega arith, omega arith);
    size = omega arith;
  }),
)

pub append_one_lem :
    (l l' : ListLog) (c : Bytes) (p : ChunkPosition)
    → append_one l c ≡ (l', answer p)
    → (numbered 0 l'.stored ≡ numbered 0 l.stored ++ ((p, c) ∷ [])) × IsPosition p
append_one_lem l l' c p e = elim (Bool-cases (ltb (length l.stored) (2 ^ 32))) [
  | inl small ↦
      (let e' = subst (λ b. append_if b l c ≡ (l', answer p)) small e in
        appended l l' c p (ltb→lt _ _ small) (ap (λ x. x.0.stored) (sym e'))
          (ap (λ x. position_in x.1) (sym e')))
  | inr large ↦
      (let e' = subst (λ b. append_if b l c ≡ (l', answer p)) large e in
        absurd (cc (ap (λ x. x.1) e')))
]

abbrev pub list_files : MergeWal list_wal
list_files = record {
  reader = list_reader;
  write = append_one;
  is_empty = λ l. length l.stored == 0;
  active_segment_id = λ l. 1;
  open_new_active_segment = λ l. (l, none);
  new_reader = λ l. record { id = 1; chunks = numbered 0 l.stored } ∷ [];
  new_reader_with_max = λ l n. record { id = 1; chunks = numbered 0 l.stored } ∷ [];
  chunks-write = append_one_lem;
  chunks-open_new = λ l. refl;
  pending-open_new = λ l. refl;
  new_reader-chunks = λ l. append-nil (numbered 0 l.stored);
  new_reader_with_max-chunks =
      λ l l' e. append-nil (numbered 0 l'.stored) ∙ ap (λ x. numbered 0 x.0.stored) (sym e);
}

-- A disk is what its files hold.
abbrev pub MemoryDisk : Type 0
MemoryDisk = Directory → Suffix → ℕ → Option Bytes

abbrev pub renamed : MemoryDisk → Suffix → ℕ → MemoryDisk
renamed d s n original t id = if same_name s n t id then d merge_directory s n else d original t id
renamed d s n merge_directory t id = if same_name s n t id then none else d merge_directory t id

abbrev pub removed : MemoryDisk → Suffix → ℕ → MemoryDisk
removed d s n original t id = if same_name s n t id then none else d original t id
removed d s n merge_directory t id = d merge_directory t id

abbrev pub without_merge : MemoryDisk → MemoryDisk
without_merge d original t id = d original t id
without_merge d merge_directory t id = none

abbrev pub is_some : Option Bytes → Bool
is_some none = false
is_some (some content) = true

abbrev pub memory_files : FileSystem
memory_files = record {
  Disk = MemoryDisk;
  file = λ d dir s id. d dir s id;
  stat = λ d dir s id. stat_of (d dir s id);
  stat_merge_directory = λ d. sized 0;
  rename = λ d s n. (renamed d s n, none);
  remove_file = λ d s n. (removed d s n, none);
  remove_merge_directory = without_merge;
  opens = λ d dir s id. is_some (d dir s id);
  read_first = λ d dir s id. elim (d dir s id) [
    | none ↦ err (external 0)
    | some content ↦ ok (take 4 (drop 7 content))
  ];
  file-removed_directory = λ d s id. refl;
  file-renamed = λ d s t n id content e done. (rw e refl, refl);
  file-removed = λ d s t n id done. (refl, refl);
}

pub memory_files-IsReliable : IsReliable memory_files
memory_files-IsReliable = record { stats = λ d dir s id. refl; renames = λ d s id content e. refl }

-- ===== src/Batch/Written.antt =====
-- What the writing methods of a batch (batch.go) do to its pending records, and what a Get reads of them.
use distributed_system_proje.Prelude.{
  ℕ, ◌<◌, ◌≡◌, refl, ap, sym, ◌∙◌, Bytes, false, none, some, List, [], ◌∷◌, arith, if◌then◌else◌,
  length, set, bytes_equal, bytes_equal_refl, bytes_equal_iff, inl, inr, Bool-cases, Option-cases,
}
use distributed_system_proje.Prelude.Int.{ℤ, zero_ℤ}
use distributed_system_proje.Record.{LogRecord, log_record_deleted, is_expired}
use distributed_system_proje.Errors.{err_key_not_found}
use distributed_system_proje.Store.{Env, Db, Batch, ok, err}
use distributed_system_proje.Batch.{append_pending_writes, set_pending, put_record, delete}
use distributed_system_proje.Batch.Methods.{pending_record, is_gone, get, get_with}
use distributed_system_proje.Batch.Pending.{IsValid, find_at, get_elem?-find_at, find_at-append}
use distributed_system_proje.Batch.Lookup.{lookup_lem, set_pending-IsValid, append-IsValid}

find_at-set :
    (k key : Bytes) (rs : List LogRecord) (i : ℕ) (old r : LogRecord)
    → find_at k rs ≡ some (i, old)
    → r.key ≡ k
    → find_at key (set rs i r) ≡ (if bytes_equal k key then some (i, r) else find_at key rs)
unfolding find_at
find_at-set k key [] i old r h e = absurd (cc)
find_at-set k key (x ∷ rs) i old r h e = elim (Bool-cases (bytes_equal x.key k)) [
  | inl same ↦
      ground (arith, bytes_equal_iff x.key k, bytes_equal_iff x.key key, bytes_equal_iff k key)
  | inr other ↦ elim (Option-cases (find_at k rs)) [
    | inl f ↦ ground arith
    | inr ((j, y), f) ↦ ground (
      arith,
      find_at-set k key rs j y r f e,
      bytes_equal_iff x.key k,
      bytes_equal_iff x.key key,
      bytes_equal_iff k key,
    )
  ]
]

module _ (env : Env) where
  -- In a valid batch the pending record of a key is the first one with the key.
  pub pending_record_lem :
      (b : Batch) (key : Bytes)
      → IsValid env b
      → pending_record env b key ≡ some (find_at key b.pending_writes)
  unfolding pending_record
  pending_record_lem b key v = elim (Option-cases (find_at key b.pending_writes)) [
    | inl f ↦ ground (arith, lookup_lem env b key v)
    | inr ((i, r), f) ↦
        ground (arith, lookup_lem env b key v, get_elem?-find_at key b.pending_writes i r f)
  ]

  -- `b'` is `b` with the record `r` written under its key; Commit assigns the batch id.
  pub record Wrote (b : Batch) (r : LogRecord) (b' : Batch) : Type 0 where
    pub valid : IsValid env b'
    pub others :
        (key : Bytes)
        → bytes_equal r.key key ≡ false
        → find_at key b'.pending_writes ≡ find_at key b.pending_writes
    pub at : ℕ
    pub id : ℕ
    pub written : find_at r.key b'.pending_writes ≡ some (at, record r { batch_id = id })
    pub same_mode : b'.read_only ≡ b.read_only

  append-Wrote :
      (b : Batch) (r : LogRecord)
      → IsValid env b
      → find_at r.key b.pending_writes ≡ none
      → Wrote b r (append_pending_writes env b r.key r)
  unfolding append_pending_writes
  append-Wrote b r v f = record {
    valid = append-IsValid env b r v f;
    others = λ key ne. find_at-append key b.pending_writes r ∙ ground (arith, ne);
    at = length b.pending_writes;
    id = r.batch_id;
    written = find_at-append r.key b.pending_writes r ∙ ground (arith, f, bytes_equal_refl r.key);
    same_mode = refl;
  }

  set-Wrote :
      (b : Batch) (r : LogRecord) (i : ℕ) (old : LogRecord)
      → IsValid env b
      → find_at r.key b.pending_writes ≡ some (i, old)
      → Wrote b r (set_pending b i (record r { batch_id = old.batch_id }))
  set-Wrote b r i old v f =
      let (found_old, same_key) = get_elem?-find_at r.key b.pending_writes i old f in
      let r' : LogRecord = record r { batch_id = old.batch_id } in
      record {
        valid = set_pending-IsValid env b i r' old v found_old (sym same_key);
        others = λ key ne. find_at-set r.key key b.pending_writes i old r' f refl ∙ rw ne refl;
        at = i;
        id = old.batch_id;
        written =
            find_at-set r.key r.key b.pending_writes i old r' f refl
            ∙ rw (bytes_equal_refl r.key) refl;
        same_mode = refl;
      }

  pub put_record_lem :
      (b : Batch) (r : LogRecord)
      → IsValid env b
      → (b' : Batch) × (put_record env b r ≡ some (none, b')) × Wrote b r b'
  unfolding put_record
  put_record_lem b r v = elim (Option-cases (find_at r.key b.pending_writes)) [
    | inl f ↦ (
      append_pending_writes env b r.key r,
      ground (arith, lookup_lem env b r.key v),
      append-Wrote b r v f,
    )
    | inr ((i, old), f) ↦ (
      set_pending b i (record r { batch_id = old.batch_id }),
      ground (arith, lookup_lem env b r.key v, get_elem?-find_at r.key b.pending_writes i old f),
      set-Wrote b r i old v f,
    )
  ]

  -- A Get looks at its batch only through the pending record of its key.
  pub get-other :
      (b b' : Batch) (db : Db env) (key : Bytes) (now : ℤ)
      → IsValid env b
      → IsValid env b'
      → find_at key b'.pending_writes ≡ find_at key b.pending_writes
      → get env b' db key now ≡ get env b db key now
  unfolding get
  get-other b b' db key now v v' e =
      ap (get_with env db key now)
        (pending_record_lem b' key v' ∙ ap some e ∙ sym (pending_record_lem b key v))

  pub get-written :
      (b : Batch) (r : LogRecord) (b' : Batch) (db : Db env) (now : ℤ)
      → Wrote b r b'
      → 0 < length r.key
      → db.closed ≡ false
      → get env b' db r.key now
        ≡ some (if is_gone r now then err err_key_not_found else ok r.value, db)
  unfolding get is_expired
  get-written b r b' db now w h k = ground (arith, pending_record_lem b' r.key w.valid, w.written)

  -- What Delete leaves under its key
  abbrev pub tombstone : Bytes → LogRecord
  tombstone key = record {
    key = key;
    value = [];
    record_type = log_record_deleted;
    batch_id = 0;
    expire = zero_ℤ;
  }

  pub delete_lem :
      (b : Batch) (db : Db env) (key : Bytes)
      → IsValid env b
      → 0 < length key
      → db.closed ≡ false
      → b.read_only ≡ false
      → (b' : Batch) × (delete env b db key ≡ some (none, b')) × Wrote b (tombstone key) b'
  unfolding delete
  delete_lem b db key v h k w = elim (Option-cases (find_at key b.pending_writes)) [
    | inl f ↦ (
      append_pending_writes env b key (tombstone key),
      ground (arith, lookup_lem env b key v),
      append-Wrote b (tombstone key) v f,
    )
    | inr ((i, old), f) ↦ (
      set_pending b i (record (tombstone key) { batch_id = old.batch_id }),
      ground (arith, lookup_lem env b key v, get_elem?-find_at key b.pending_writes i old f),
      set-Wrote b (tombstone key) i old v f,
    )
  ]

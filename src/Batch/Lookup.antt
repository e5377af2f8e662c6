-- ===== src/Batch/Lookup.antt =====
-- lookupPendingWrites and appendPendingWrites (batch.go) keep the map of the pending writes in step with
-- their list.
use distributed_system_proje.Prelude.{
  ℕ, ◌<◌, ◌≡◌, ap, sym, ◌∙◌, subst, Bytes, false, Option, none, some, List, [], ◌∷◌, ◌++◌, arith,
  ◌==◌, if◌then◌else◌, length, length-append, get_elem?, set, length-set, All, All-append, All-map,
  bytes_equal, bytes_equal-eq, inl, inr, Bool-cases,
}
use distributed_system_proje.Record.{LogRecord}
use distributed_system_proje.Store.{Env, Batch}
use distributed_system_proje.Batch.{
  map_entries, map_append, find_entry, lookup_pending_writes, append_pending_writes, set_pending,
}
use distributed_system_proje.Batch.Pending.{
  find_at, index_of, keys, find_index, IsDistinct, IsValid, map_entries-map_append,
  get_elem?-length, find_entry-append, find_entry-snoc, find_at-append, keys-set, find_key,
  find_entry-keys, find_at-keys, keys-append, IsDistinct-snoc,
}

module _ (env : Env) where
  lookup_cases :
      (rs : List LogRecord) (key : Bytes) (h : ℕ) (m : List (ℕ × List ℕ)) {out : Option (Option ℕ)}
      → find_entry rs key (map_entries h m) ≡ out
      → (if length m == 0 then some none else find_entry rs key (map_entries h m)) ≡ out
  unfolding find_entry map_entries
  lookup_cases rs key h [] e = e
  lookup_cases rs key h (x ∷ m) e = ground (arith, e)

  -- lookupPendingWrites does not panic, and finds the first record with the key, whatever the hash.
  pub lookup_lem :
      (b : Batch) (key : Bytes)
      → IsValid env b
      → lookup_pending_writes env b key ≡ some (index_of (find_at key b.pending_writes))
  unfolding lookup_pending_writes
  lookup_lem b key v =
      lookup_cases b.pending_writes key (env.mem_hash key) b.pending_writes_map
        (v.entries_found key)

  -- A change in place keeps the invariant.
  pub set_pending-IsValid :
      (b : Batch) (i : ℕ) (r old : LogRecord)
      → IsValid env b
      → get_elem? b.pending_writes i ≡ some old
      → r.key ≡ old.key
      → IsValid env (set_pending b i r)
  set_pending-IsValid b i r old v h e = record {
    entries_found = λ key.
        find_entry-keys _ key (map_entries (env.mem_hash key) b.pending_writes_map)
        ∙ ap (λ ks. find_key ks key (map_entries (env.mem_hash key) b.pending_writes_map))
            (keys-set b.pending_writes i r old h e)
        ∙ sym (
            find_entry-keys b.pending_writes key
              (map_entries (env.mem_hash key) b.pending_writes_map))
        ∙ v.entries_found key
        ∙ ap some (
            find_at-keys key b.pending_writes
            ∙ ap (find_index key) (sym (keys-set b.pending_writes i r old h e))
            ∙ sym (find_at-keys key (set b.pending_writes i r)));
    distinct = subst IsDistinct (sym (keys-set b.pending_writes i r old h e)) v.distinct;
    in_range = λ h'.
        All-map _ _ _ (λ x lt. omega (arith, lt, length-set b.pending_writes i r)) (v.in_range h');
  }

  append_in_range :
      (b : Batch) (r : LogRecord) (h : ℕ)
      → IsValid env b
      → All
          (λ e. e < length (b.pending_writes ++ (r ∷ [])))
          (map_entries h
            (map_append (env.mem_hash r.key) (length b.pending_writes) b.pending_writes_map))
  append_in_range b r h v =
      let n = length-append b.pending_writes (r ∷ []) in
      let old =
        All-map _ (λ e. e < length (b.pending_writes ++ (r ∷ []))) _ (λ x lt. omega (arith, lt, n))
          (v.in_range h) in
      rw
        (map_entries-map_append (env.mem_hash r.key) h (length b.pending_writes)
          b.pending_writes_map)
        (elim (Bool-cases (env.mem_hash r.key == h)) [
          | inl e ↦ rw e (All-append _ _ _ old (omega (arith, n), tt))
          | inr e ↦ rw e old
        ])

  last_entry :
      (rs : List LogRecord) (r : LogRecord) (key : Bytes)
      → find_entry (rs ++ (r ∷ [])) key (length rs ∷ [])
        ≡ (if bytes_equal r.key key then some (some (length rs)) else some none)
  unfolding find_entry
  last_entry rs r key = ground (arith, get_elem?-length rs r)

  other_hash :
      (k key : Bytes) → (env.mem_hash k == env.mem_hash key) ≡ false → bytes_equal k key ≡ false
  other_hash k key h = elim (Bool-cases (bytes_equal k key)) [
    | inl same ↦ ground (arith, ap env.mem_hash (bytes_equal-eq k key same))
    | inr other ↦ other
  ]

  append_found :
      (b : Batch) (r : LogRecord) (key : Bytes)
      → IsValid env b
      → find_entry (b.pending_writes ++ (r ∷ [])) key (
          map_entries
            (env.mem_hash key)
            (map_append (env.mem_hash r.key) (length b.pending_writes) b.pending_writes_map))
        ≡ some (index_of (find_at key (b.pending_writes ++ (r ∷ []))))
  append_found b r key v =
      let rs : List LogRecord = b.pending_writes in
      let es : List ℕ = map_entries (env.mem_hash key) b.pending_writes_map in
      let old : find_entry (rs ++ (r ∷ [])) key es ≡ some (index_of (find_at key rs)) =
        find_entry-append rs (r ∷ []) key es (v.in_range (env.mem_hash key))
        ∙ v.entries_found key in
      rw
        (map_entries-map_append (env.mem_hash r.key) (env.mem_hash key) (length rs)
          b.pending_writes_map)
        (elim (Bool-cases (env.mem_hash r.key == env.mem_hash key)) [
          | inl same ↦ rw same (
              ground (
                arith,
                find_entry-snoc (rs ++ (r ∷ [])) key es (length rs) (index_of (find_at key rs)) old,
                last_entry rs r key,
                find_at-append key rs r,
              ))
          | inr other ↦
              rw other (ground (arith, old, other_hash r.key key other, find_at-append key rs r))
        ])

  -- A record of a new key keeps the invariant.
  pub append-IsValid :
      (b : Batch) (r : LogRecord)
      → IsValid env b
      → find_at r.key b.pending_writes ≡ none
      → IsValid env (append_pending_writes env b r.key r)
  unfolding append_pending_writes
  append-IsValid b r v new = record {
    distinct = subst IsDistinct (sym (keys-append b.pending_writes r)) (
        IsDistinct-snoc (keys b.pending_writes) r.key v.distinct
          (sym (find_at-keys r.key b.pending_writes) ∙ ap index_of new));
    entries_found = λ key. append_found b r key v;
    in_range = λ h. append_in_range b r h v;
  }

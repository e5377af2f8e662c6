-- ===== src/Batch/Pending.antt =====
-- The pending writes of a batch as a map: lookupPendingWrites finds what a scan of the list finds.
use distributed_system_proje.Prelude.{
  ℕ, zero, suc, ◌<◌, ◌≡◌, refl, ap, Bytes, false, Option, none, some, List, [], ◌∷◌, ◌++◌, arith,
  ◌==◌, if◌then◌else◌, length, get_elem?, set, All, bytes_equal, bytes_equal-eq, bytes_equal_iff,
  inl, inr, Bool-cases, Option-cases,
}
use distributed_system_proje.Record.{LogRecord}
use distributed_system_proje.Store.{Env, Batch}
use distributed_system_proje.Batch.{map_entries, map_append, find_entry}

-- The first record with a key, and its index: what the lookup means
unfoldable pub find_at : Bytes → List LogRecord → Option (ℕ × LogRecord)
find_at key [] = none
find_at key (r ∷ rs) =
    let rest = find_at key rs in
    if bytes_equal r.key key
    then some (0, r)
    else elim rest [ none ↦ none | some (i, x) ↦ some (suc i, x) ]

abbrev pub index_of : Option (ℕ × LogRecord) → Option ℕ
index_of none = none
index_of (some (i, r)) = some i

-- Only the keys matter to a lookup, and a change in place keeps the key.
abbrev pub keys : List LogRecord → List Bytes
keys [] = []
keys (r ∷ rs) = r.key ∷ keys rs

-- The first index of a key
unfoldable pub find_index : Bytes → List Bytes → Option ℕ
find_index key [] = none
find_index key (k ∷ ks) =
    let rest = find_index key ks in
    if bytes_equal k key then some 0 else elim rest [ none ↦ none | some i ↦ some (suc i) ]

-- No key stands twice.
abbrev pub IsDistinct : List Bytes → Type 0
IsDistinct [] = Unit
IsDistinct (k ∷ ks) = (find_index k ks ≡ none) × IsDistinct ks

pub record IsValid (env : Env) (b : Batch) : Type 0 where
  pub entries_found :
      (key : Bytes)
      → find_entry b.pending_writes key (map_entries (env.mem_hash key) b.pending_writes_map)
        ≡ some (index_of (find_at key b.pending_writes))
  pub distinct : IsDistinct (keys b.pending_writes)
  pub in_range :
      (h : ℕ) → All (λ e. e < length b.pending_writes) (map_entries h b.pending_writes_map)

pub get_elem?-find_at :
    (key : Bytes) (rs : List LogRecord) (i : ℕ) (r : LogRecord)
    → find_at key rs ≡ some (i, r)
    → (get_elem? rs i ≡ some r) × (r.key ≡ key)
unfolding find_at
get_elem?-find_at key [] i r h = absurd (cc)
get_elem?-find_at key (x ∷ rs) i r h = elim (Bool-cases (bytes_equal x.key key)) [
  | inl e ↦ ground (arith, bytes_equal-eq x.key key)
  | inr e ↦ elim (Option-cases (find_at key rs)) [
    | inl f ↦ ground arith
    | inr ((j, y), f) ↦ ground (arith, get_elem?-find_at key rs j y f)
  ]
]

pub map_entries-map_append :
    (h h' e : ℕ) (m : List (ℕ × List ℕ))
    → map_entries h' (map_append h e m)
      ≡ (if h == h' then map_entries h' m ++ (e ∷ []) else map_entries h' m)
unfolding map_entries map_append
map_entries-map_append h h' e [] = refl
map_entries-map_append h h' e ((k, es) ∷ m) = ground (arith, map_entries-map_append h h' e m)

get_elem?-append :
    (rs ys : List LogRecord) (i : ℕ) → i < length rs → get_elem? (rs ++ ys) i ≡ get_elem? rs i
get_elem?-append [] ys i h = absurd (omega arith)
get_elem?-append (r ∷ rs) ys zero h = refl
get_elem?-append (r ∷ rs) ys (suc i) h = get_elem?-append rs ys i (omega arith)

pub get_elem?-length :
    (rs : List LogRecord) (r : LogRecord) → get_elem? (rs ++ (r ∷ [])) (length rs) ≡ some r
get_elem?-length [] r = refl
get_elem?-length (x ∷ rs) r = get_elem?-length rs r

-- The entries of a map that are in range find the same in a longer list.
pub find_entry-append :
    (rs ys : List LogRecord) (key : Bytes) (es : List ℕ)
    → All (λ e. e < length rs) es
    → find_entry (rs ++ ys) key es ≡ find_entry rs key es
unfolding find_entry
find_entry-append rs ys key [] h = refl
find_entry-append rs ys key (e ∷ es) h =
    ground (arith, get_elem?-append rs ys e, find_entry-append rs ys key es)

-- One more entry is looked at last.
pub find_entry-snoc :
    (rs : List LogRecord) (key : Bytes) (es : List ℕ) (e : ℕ) (i : Option ℕ)
    → find_entry rs key es ≡ some i
    → find_entry rs key (es ++ (e ∷ []))
      ≡ elim i [ none ↦ find_entry rs key (e ∷ []) | some j ↦ some (some j) ]
unfolding find_entry
find_entry-snoc rs key [] e i h = ground arith
find_entry-snoc rs key (x ∷ es) e none h = ground (arith, find_entry-snoc rs key es e none)
find_entry-snoc rs key (x ∷ es) e (some j) h = ground (arith, find_entry-snoc rs key es e (some j))

pub find_at-append :
    (key : Bytes) (rs : List LogRecord) (r : LogRecord)
    → find_at key (rs ++ (r ∷ [])) ≡ elim (find_at key rs) [
      | none ↦ if bytes_equal r.key key then some (length rs, r) else none
      | some x ↦ some x
    ]
unfolding find_at
find_at-append key [] r = ground arith
find_at-append key (x ∷ rs) r = ground (arith, find_at-append key rs r)

pub keys-set :
    (rs : List LogRecord) (i : ℕ) (r old : LogRecord)
    → get_elem? rs i ≡ some old
    → r.key ≡ old.key
    → keys (set rs i r) ≡ keys rs
keys-set [] i r old h e = refl
keys-set (x ∷ rs) zero r old h e = ground arith
keys-set (x ∷ rs) (suc i) r old h e = ap (◌∷◌ x.key) (keys-set rs i r old h e)

unfoldable pub find_key : List Bytes → Bytes → List ℕ → Option (Option ℕ)
find_key ks key [] = some none
find_key ks key (e ∷ es) =
    let rest = find_key ks key es in
    elim (get_elem? ks e) [
      | none ↦ none
      | some k ↦ if bytes_equal k key then some (some e) else rest
    ]

abbrev key_of : Option LogRecord → Option Bytes
key_of none = none
key_of (some r) = some r.key

get_elem?-keys : (rs : List LogRecord) (i : ℕ) → get_elem? (keys rs) i ≡ key_of (get_elem? rs i)
get_elem?-keys [] i = refl
get_elem?-keys (r ∷ rs) zero = refl
get_elem?-keys (r ∷ rs) (suc i) = get_elem?-keys rs i

pub find_entry-keys :
    (rs : List LogRecord) (key : Bytes) (es : List ℕ)
    → find_entry rs key es ≡ find_key (keys rs) key es
unfolding find_entry find_key
find_entry-keys rs key [] = refl
find_entry-keys rs key (e ∷ es) = ground (arith, get_elem?-keys rs e, find_entry-keys rs key es)

pub find_at-keys :
    (key : Bytes) (rs : List LogRecord) → index_of (find_at key rs) ≡ find_index key (keys rs)
unfolding find_at find_index
find_at-keys key [] = refl
find_at-keys key (r ∷ rs) = ground (arith, find_at-keys key rs)

pub length-keys : (rs : List LogRecord) → length (keys rs) ≡ length rs
length-keys [] = refl
length-keys (r ∷ rs) = ap suc (length-keys rs)

pub keys-append :
    (rs : List LogRecord) (r : LogRecord) → keys (rs ++ (r ∷ [])) ≡ keys rs ++ (r.key ∷ [])
keys-append [] r = refl
keys-append (x ∷ rs) r = ap (◌∷◌ x.key) (keys-append rs r)

find_index-other :
    (k j : Bytes) (ks : List Bytes)
    → find_index k ks ≡ none
    → bytes_equal j k ≡ false
    → find_index k (ks ++ (j ∷ [])) ≡ none
unfolding find_index
find_index-other k j [] h e = ground arith
find_index-other k j (x ∷ ks) h e = ground (arith, find_index-other k j ks)

pub IsDistinct-snoc :
    (ks : List Bytes) (j : Bytes)
    → IsDistinct ks
    → find_index j ks ≡ none
    → IsDistinct (ks ++ (j ∷ []))
unfolding find_index
IsDistinct-snoc [] j d h = (refl, tt)
IsDistinct-snoc (k ∷ ks) j d h = (
  find_index-other k j ks d.0 (ground (arith, bytes_equal_iff k j, bytes_equal_iff j k)),
  IsDistinct-snoc ks j d.1 (ground arith),
)

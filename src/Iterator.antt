-- ===== src/Iterator.antt =====
-- iterator.go: the iterator of the database, over that of the index. `none` is a panic. `clock key` is
-- the time at which a record is read.
pub mod Prefix
pub mod Walk
use distributed_system_proje.Prelude.{
  ℕ, zero, suc, ◌≡◌, Bytes, Bool, true, false, not, ◌||◌, ◌&&◌, Option, none, some, List, [], ◌∷◌,
  ltb, if◌then◌else◌, length, take, bytes_equal, ◌>>=◌,
}
use distributed_system_proje.Prelude.Int.{ℤ}
use distributed_system_proje.Errors.{Error}
use distributed_system_proje.Record.{ChunkPosition, LogRecord, decode_log_record}
use distributed_system_proje.Index.Item.{Item}
use distributed_system_proje.Index.Api.{IndexIterator}
use distributed_system_proje.Store.{Env, Db}
use distributed_system_proje.Store.Log.{answer, failed}
use distributed_system_proje.Batch.Methods.{is_gone}
use mathlib.Core.List.{reverse}

-- `IteratorOptions`
pub record IteratorOptions : Type 0 where
  pub prefix : Bytes
  pub reverse : Bool
  pub continue_on_error : Bool

-- `prefixLen > 0` and the two tests behind it: a key without the prefix is passed over.
unfoldable pub lacks_prefix : Bytes → Bytes → Bool
lacks_prefix prefix key =
    ltb 0 (length prefix)
    && (ltb (length key) (length prefix) || not (bytes_equal prefix (take (length prefix) key)))

abbrev key_or_nil : Option Bytes → Bytes
key_or_nil none = []
key_or_nil (some k) = k

module _ (env : Env) (ii : IndexIterator env.indexer) where
  -- `Iterator`, less the database: its index iterator is nil after Close, and then so is its database.
  pub record Iterator : Type 0 where
    pub index_iter : Option ii.Iter
    pub options : IteratorOptions
    pub last_error : Option Error
    pub current_item : Option (Bytes × Bytes)

  -- `Close`
  unfoldable pub close : Iterator → Option Iterator
  close it = elim it.index_iter [
    | none ↦ some it
    | some iter ↦ (do iter ← ii.close iter; some (record it { index_iter = none }))
  ]

  -- The loop of skipToNext, on fuel
  unfoldable pub skip_loop : ℕ → Db env → (Bytes → ℤ) → Iterator → ii.Iter → Option Iterator
  unfolding lacks_prefix close
  skip_loop zero db clock it iter = none
  skip_loop (suc fuel) db clock it iter =
      let here : Iterator = record it { index_iter = some iter } in
      let go_on : Iterator → Option Iterator =
        λ it. (do iter ← ii.next iter; skip_loop fuel db clock it iter) in
      if not (ii.valid iter) then some here else (do
        k ← ii.key iter
        let key = key_or_nil k
        if lacks_prefix it.options.prefix key then go_on it else (do
          position ← ii.value iter
          elim position [
            | none ↦ go_on it
            | some position ↦ (elim (env.wal.read db.data_files position) [
              | failed e ↦
                  let with_error : Iterator = record here { last_error = some e } in
                  if not it.options.continue_on_error then close with_error else go_on with_error
              | answer chunk ↦ (do
                r ← decode_log_record chunk
                if is_gone r (clock key)
                    then go_on it
                    else some (record here { current_item = some (r.key, r.value) }))
            ])
          ]))

  -- `skipToNext`, which needs the index iterator
  unfoldable pub skip_to_next : ℕ → Db env → (Bytes → ℤ) → Iterator → Option Iterator
  unfolding skip_loop
  skip_to_next fuel db clock it = elim it.index_iter [
    | none ↦ none
    | some iter ↦ skip_loop fuel db clock (record it { current_item = none }) iter
  ]

  -- `NewIterator`
  unfoldable pub new_iterator : ℕ → Db env → (Bytes → ℤ) → IteratorOptions → Option Iterator
  unfolding skip_to_next
  new_iterator fuel db clock options = skip_to_next fuel db clock (record {
    index_iter = some (ii.iterator db.index options.reverse);
    options = options;
    last_error = none;
    current_item = none;
  })

  -- `Rewind`
  unfoldable pub rewind : ℕ → Db env → (Bytes → ℤ) → Iterator → Option Iterator
  rewind fuel db clock it = elim it.index_iter [
    | none ↦ some it
    | some iter ↦ skip_to_next fuel db clock (record it { index_iter = some (ii.rewind iter) })
  ]

  -- `Seek`
  unfoldable pub seek : ℕ → Db env → (Bytes → ℤ) → Iterator → Bytes → Option Iterator
  seek fuel db clock it key = elim it.index_iter [
    | none ↦ some it
    | some iter ↦ skip_to_next fuel db clock (record it { index_iter = some (ii.seek iter key) })
  ]

  -- `Next`
  unfoldable pub next : ℕ → Db env → (Bytes → ℤ) → Iterator → Option Iterator
  unfolding skip_to_next
  next fuel db clock it = elim it.index_iter [
    | none ↦ some it
    | some iter ↦ (do
      iter ← ii.next iter
      skip_to_next fuel db clock (record it { index_iter = some iter }))
  ]

  -- `Valid`
  unfoldable pub valid : Iterator → Bool
  valid it = elim it.index_iter [ none ↦ false | some iter ↦ ii.valid iter ]

  -- `Item`
  abbrev pub item : Iterator → Option (Bytes × Bytes)
  item it = it.current_item

  -- `Err`
  abbrev pub err_of : Iterator → Option Error
  err_of it = it.last_error

  -- The loop of a user, `for ; it.Valid(); it.Next()`, that reads each Item; a nil item panics.
  unfoldable pub drain : ℕ → ℕ → Db env → (Bytes → ℤ) → Iterator → Option (List (Bytes × Bytes))
  unfolding next valid
  drain zero fuel db clock it = none
  drain (suc rounds) fuel db clock it = if not (valid it) then some [] else (do
    pair ← item it
    it ← next fuel db clock it
    rest ← drain rounds fuel db clock it
    some (pair ∷ rest))

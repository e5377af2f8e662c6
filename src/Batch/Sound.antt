-- ===== src/Batch/Sound.antt =====
-- What holds of a database between its operations: every position of the index is that of a readable
-- chunk, whose record has the key and is no deletion.
use distributed_system_proje.Prelude.{
  ℕ, zero, suc, ◌≡◌, refl, ap, ◌∙◌, Bytes, false, Option, none, some, List, [], ◌∷◌, ◌++◌,
  append_assoc, arith, zip, get_elem?,
}
use distributed_system_proje.Prelude.Int.{ℤ}
use distributed_system_proje.Record.{LogRecord, ChunkPosition, decode_log_record}
use distributed_system_proje.Store.{Env, Db, Reply}
use distributed_system_proje.Store.Log.{Chunks}
use distributed_system_proje.Watch.Ring
use distributed_system_proje.Batch.Methods.{found, absent, is_deleted, stored_record, get_stored}

-- A chunk of the log at a position, with the record that it holds
pub record LiveChunk (cs : Chunks) (key : Bytes) (p : ChunkPosition) : Type 0 where
  pub before : Chunks
  pub chunk : Bytes
  pub after : Chunks
  pub at : cs ≡ before ++ ((p, chunk) ∷ after)
  pub content : LogRecord
  pub decoded : decode_log_record chunk ≡ some content
  pub same_key : content.key ≡ key
  pub not_deleted : is_deleted content ≡ false

-- A longer log has the chunk still, with the same record.
pub LiveChunk-grown :
    (cs cs' more : Chunks) (key : Bytes) (p : ChunkPosition)
    → cs' ≡ cs ++ more
    → (l : LiveChunk cs key p) → (l' : LiveChunk cs' key p) × (l'.content ≡ l.content)
LiveChunk-grown cs cs' more key p e l = (
  record {
    before = l.before;
    chunk = l.chunk;
    after = l.after ++ more;
    at = e ∙ ap (λ z. z ++ more) l.at ∙ append_assoc l.before ((p, l.chunk) ∷ l.after) more;
    content = l.content;
    decoded = l.decoded;
    same_key = l.same_key;
    not_deleted = l.not_deleted;
  },
  refl,
)

-- The pair at an index of two lists side by side
pub zip-split :
    (ps : List ChunkPosition) (cs : List Bytes) (i : ℕ) (p : ChunkPosition) (c : Bytes)
    → get_elem? ps i ≡ some p
    → get_elem? cs i ≡ some c
    → (before : Chunks) × ((after : Chunks) × (zip ps cs ≡ before ++ ((p, c) ∷ after)))
zip-split [] cs i p c h k = absurd (cc)
zip-split (q ∷ ps) [] i p c h k = absurd (cc)
zip-split (q ∷ ps) (d ∷ cs) zero p c h k = ([], (zip ps cs, ground arith))
zip-split (q ∷ ps) (d ∷ cs) (suc i) p c h k =
    let (before, (after, e)) = zip-split ps cs i p c h k in
    ((q, d) ∷ before, (after, ap (◌∷◌ (q, d)) e))

module _ (env : Env) where
  pub record IsSound (db : Db env) : Type 0 where
    pub cached : env.wal.pending db.data_files ≡ []
    pub watched : Ring.IsValid db.watcher
    pub live :
        (key : Bytes) (p : ChunkPosition)
        → env.indexer.get db.index key ≡ some p
        → LiveChunk (env.wal.chunks db.data_files) key p

  -- What is stored under a key of the index: a readable record, which a Get does not panic on.
  pub stored_record-live :
      (db : Db env) (key : Bytes) (p : ChunkPosition)
      → env.indexer.get db.index key ≡ some p
      → (l : LiveChunk (env.wal.chunks db.data_files) key p)
      → stored_record env db key ≡ some (found l.content)
  unfolding stored_record
  stored_record-live db key p e l =
      ground
        (arith, e, env.wal.read-chunks db.data_files l.before p l.chunk l.after l.at, l.decoded)

  pub stored_record-absent :
      (db : Db env) (key : Bytes)
      → env.indexer.get db.index key ≡ none
      → stored_record env db key ≡ some absent
  unfolding stored_record
  stored_record-absent db key e = ground arith

  -- The reply of a Get that finds no pending record
  abbrev pub reply_of : Option (Reply Bytes × Db env) → Option (Reply Bytes)
  reply_of none = none
  reply_of (some (r, db)) = some r

  unfoldable pub stored_reply : Db env → Bytes → ℤ → Option (Reply Bytes)
  stored_reply db key now = reply_of (get_stored env db key now)

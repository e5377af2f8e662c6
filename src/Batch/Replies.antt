-- ===== src/Batch/Replies.antt =====
-- What a Get replies, of a live chunk of the log and of a record of a batch.
use distributed_system_proje.Prelude.{
  ℕ, zero, suc, ◌<◌, ◌≡◌, refl, ap, sym, ◌∙◌, subst, Bytes, true, false, Option, none, some, List,
  [], ◌∷◌, ◌++◌, append_assoc, arith, if◌then◌else◌, length, zip, get_elem?, All,
}
use distributed_system_proje.Prelude.Int.{ℤ, ◌≤ℤ◌}
use distributed_system_proje.Errors.{err_key_not_found}
use distributed_system_proje.Record.{LogRecord, ChunkPosition, is_expired, record_header}
use distributed_system_proje.Record.RoundTrip.{IsEncodable, decode-record_header}
use distributed_system_proje.Store.{Env, Db, Batch, Reply, ok, err}
use distributed_system_proje.Store.Log.{Chunks}
use distributed_system_proje.Batch.Methods.{is_gone, is_deleted, get, get_with, get_stored}
use distributed_system_proje.Batch.Pending.{IsValid, find_at}
use distributed_system_proje.Batch.Written.{pending_record_lem}
use distributed_system_proje.Batch.IndexLoop.{encoded}
use distributed_system_proje.Batch.Sound.{
  LiveChunk, zip-split, stored_record-live, stored_record-absent, stored_reply, reply_of,
}

get_elem?-encoded :
    (rs : List LogRecord) (i : ℕ) (r : LogRecord)
    → get_elem? rs i ≡ some r
    → get_elem? (encoded rs) i ≡ some (record_header r ++ (r.key ++ r.value))
get_elem?-encoded [] i r h = absurd (cc)
get_elem?-encoded (x ∷ rs) zero r h = ground arith
get_elem?-encoded (x ∷ rs) (suc i) r h = get_elem?-encoded rs i r h

All-get_elem? :
    (P : LogRecord → Type 0) (rs : List LogRecord) (i : ℕ) (r : LogRecord)
    → All P rs
    → get_elem? rs i ≡ some r
    → P r
All-get_elem? P [] i r h e = absurd (cc)
All-get_elem? P (x ∷ rs) zero r h e = subst P (cc) h.0
All-get_elem? P (x ∷ rs) (suc i) r h e = All-get_elem? P rs i r h.1 e

pub get_elem?-left :
    (rs ys : List LogRecord) (i : ℕ) (r : LogRecord)
    → get_elem? rs i ≡ some r
    → get_elem? (rs ++ ys) i ≡ some r
get_elem?-left [] ys i r h = absurd (cc)
get_elem?-left (x ∷ rs) ys zero r h = h
get_elem?-left (x ∷ rs) ys (suc i) r h = get_elem?-left rs ys i r h

-- A written record that is no deletion is a live chunk at its position.
pub live_at :
    (rs : List LogRecord) (ps : List ChunkPosition) (cs cs' : Chunks) (i : ℕ) (r : LogRecord)
    (key : Bytes) (p : ChunkPosition)
    → cs' ≡ cs ++ zip ps (encoded rs)
    → All IsEncodable rs
    → get_elem? rs i ≡ some r
    → r.key ≡ key
    → get_elem? ps i ≡ some p
    → is_deleted r ≡ false
    → (l : LiveChunk cs' key p) × (l.content ≡ r)
live_at rs ps cs cs' i r key p written all hr same hp alive =
    let (before, (after, e)) = zip-split ps (encoded rs) i p _ hp (get_elem?-encoded rs i r hr) in
    (
      record {
        before = cs ++ before;
        chunk = record_header r ++ (r.key ++ r.value);
        after = after;
        at = written ∙ ap (λ z. cs ++ z) e ∙ sym (append_assoc cs before _);
        content = r;
        decoded = decode-record_header r (All-get_elem? IsEncodable rs i r all hr);
        same_key = same;
        not_deleted = alive;
      },
      refl,
    )

-- The batch id of a record says nothing of its end.
pub is_gone_stamped :
    (r : LogRecord) (id : ℕ) (now : ℤ) → is_gone (record r { batch_id = id }) now ≡ is_gone r now
unfolding is_expired
is_gone_stamped r id now = refl

pub get_elem?-lt :
    (rs : List LogRecord) (i : ℕ) (r : LogRecord) → get_elem? rs i ≡ some r → i < length rs
get_elem?-lt [] i r h = absurd (cc)
get_elem?-lt (x ∷ rs) zero r h = omega arith
get_elem?-lt (x ∷ rs) (suc i) r h = omega (arith, get_elem?-lt rs i r h)

pub get_elem?-some :
    (ps : List ChunkPosition) (i : ℕ)
    → i < length ps
    → (p : ChunkPosition) × (get_elem? ps i ≡ some p)
get_elem?-some [] i h = absurd (omega arith)
get_elem?-some (p ∷ ps) zero h = (p, refl)
get_elem?-some (p ∷ ps) (suc i) h = get_elem?-some ps i (omega arith)

-- What is expired stays expired, and what is deleted stays deleted.
pub is_gone_mono :
    (r : LogRecord) (now later : ℤ) → now ≤ℤ later → is_gone r now ≡ true → is_gone r later ≡ true
unfolding is_expired
is_gone_mono r now later h e = ground arith

pub is_gone-not_deleted : (r : LogRecord) (now : ℤ) → is_gone r now ≡ false → is_deleted r ≡ false
is_gone-not_deleted r now e = ground arith

module _ (env : Env) where
  -- The reply of a Get of a live record
  pub reply-live :
      (db : Db env) (key : Bytes) (p : ChunkPosition) (later : ℤ)
      → env.indexer.get db.index key ≡ some p
      → (l : LiveChunk (env.wal.chunks db.data_files) key p)
      → stored_reply env db key later
        ≡ some (if is_gone l.content later then err err_key_not_found else ok l.content.value)
  unfolding stored_reply get_stored
  reply-live db key p later e l = ground (arith, stored_record-live env db key p e l, l.not_deleted)

  pub reply-absent :
      (db : Db env) (key : Bytes) (later : ℤ)
      → env.indexer.get db.index key ≡ none
      → stored_reply env db key later ≡ some (err err_key_not_found)
  unfolding stored_reply get_stored
  reply-absent db key later e = ground (arith, stored_record-absent env db key e)

  -- The reply of a Get on a batch: that of its pending record, or the stored one
  abbrev pub batch_reply : Batch → Db env → Bytes → ℤ → Option (Reply Bytes)
  batch_reply b db key later = reply_of env (get env b db key later)

  pub batch_reply-pending :
      (b : Batch) (db : Db env) (key : Bytes) (later : ℤ) (i : ℕ) (r : LogRecord)
      → IsValid env b
      → 0 < length key
      → db.closed ≡ false
      → find_at key b.pending_writes ≡ some (i, r)
      → batch_reply b db key later
        ≡ some (if is_gone r later then err err_key_not_found else ok r.value)
  unfolding get get_with
  batch_reply-pending b db key later i r v h k f = ground (arith, pending_record_lem env b key v, f)

  pub batch_reply-stored :
      (b : Batch) (db : Db env) (key : Bytes) (later : ℤ)
      → IsValid env b
      → 0 < length key
      → db.closed ≡ false
      → find_at key b.pending_writes ≡ none
      → batch_reply b db key later ≡ stored_reply env db key later
  unfolding get get_with stored_reply
  batch_reply-stored b db key later v h k f = ground (arith, pending_record_lem env b key v, f)

-- ===== src/Merge/Survivors.antt =====
-- The records that doMerge (merge.go) keeps of a sound database while nobody writes: the live ones.
use distributed_system_proje.Prelude.{
  ◌≡◌, refl, ap, sym, ◌∙◌, subst, Bytes, true, false, Option, none, some, List, [], ◌∷◌, ◌++◌,
  append_assoc, arith, All, bytes_equal, bytes_equal-eq, inl, inr, Bool-cases, Option-cases,
}
use distributed_system_proje.Prelude.Int.{ℤ, leb_ℤ, zero_ℤ}
use distributed_system_proje.Record.{
  LogRecord, ChunkPosition, log_record_normal, is_expired, decode_log_record,
}
use distributed_system_proje.Store.{Env, Db}
use distributed_system_proje.Store.Log.{Chunks, LogReply, answer, failed}
use distributed_system_proje.Batch.Methods.{is_gone}
use distributed_system_proje.Batch.Sound.{IsSound}
use distributed_system_proje.Merge.{position_equals, points_to, is_valid_data}
use distributed_system_proje.Merge.Rewrite.{cleared, survives, survivor, survivors}

-- A record of a Put whose expiry, if any, is not before 1970
pub record IsPlain (r : LogRecord) : Type 0 where
  pub normal : r.record_type ≡ log_record_normal
  pub expiry : leb_ℤ zero_ℤ r.expire ≡ true

-- doMerge keeps a plain record exactly where IsExpired says that it has not expired.
pub plain-is_valid_data :
    (r : LogRecord) (now : ℤ) → IsPlain r → is_gone r now ≡ false → is_valid_data r now ≡ true
unfolding is_expired is_valid_data
plain-is_valid_data r now plain e = ground (arith, plain.normal, plain.expiry)

pub position_equals_refl : (p : ChunkPosition) → position_equals p p ≡ true
unfolding position_equals
position_equals_refl p = ground arith

-- Chunks at places that positionEquals does not tell apart have the same position.
abbrev pub HasPlaces : Chunks → Type 0
HasPlaces cs =
    (p q : ChunkPosition) (b b' a a' : Chunks) (c d : Bytes)
    → cs ≡ b ++ ((p, c) ∷ a)
    → cs ≡ b' ++ ((q, d) ∷ a')
    → position_equals p q ≡ true
    → p ≡ q

answer_of : {A : Type 0} → A → LogReply A → A
answer_of a (answer b) = b
answer_of a (failed e) = a

survivor-append :
    (env : Env) (index_at : ChunkPosition → env.indexer.Index) (now : ℤ) (o : Option LogRecord)
    (p : ChunkPosition) (xs ys : List LogRecord)
    → survivor env index_at now o p (xs ++ ys) ≡ survivor env index_at now o p xs ++ ys
survivor-append env index_at now none p xs ys = refl
survivor-append env index_at now (some r) p xs ys =
    elim (Bool-cases (survives env index_at now p r)) [ inl e ↦ rw e refl | inr e ↦ rw e refl ]

module _ (env : Env) (index_at : ChunkPosition → env.indexer.Index) (now : ℤ) where
  pub survivors-append :
      (cs ds : Chunks)
      → survivors env index_at now (cs ++ ds)
        ≡ survivors env index_at now cs ++ survivors env index_at now ds
  unfolding survivors
  survivors-append [] ds = refl
  survivors-append ((p, c) ∷ cs) ds =
      ap (survivor env index_at now (decode_log_record c) p) (survivors-append cs ds)
      ∙ survivor-append env index_at now (decode_log_record c) p _ _

  -- What holds of every chunk that survives holds of the survivors.
  pub survivors-All :
      (Q : LogRecord → Type 0) (all pre cs : Chunks)
      → all ≡ pre ++ cs
      → ((p : ChunkPosition) (c : Bytes) (r : LogRecord) (before after : Chunks)
          → all ≡ before ++ ((p, c) ∷ after)
          → decode_log_record c ≡ some r
          → survives env index_at now p r ≡ true
          → Q (cleared r))
      → All Q (survivors env index_at now cs)
  unfolding survivors
  survivors-All Q all pre [] e h = tt
  survivors-All Q all pre ((p, c) ∷ cs) e h =
      let rest =
        survivors-All Q all (pre ++ ((p, c) ∷ [])) cs (e ∙ sym (append_assoc pre ((p, c) ∷ []) cs))
          h in
      elim (Option-cases (decode_log_record c)) [
        | inl d ↦ rw d rest
        | inr (r, d) ↦ elim (Bool-cases (survives env index_at now p r)) [
          | inl s ↦ rw (d, s) (h p c r pre cs e d s, rest)
          | inr s ↦ rw (d, s) rest
        ]
      ]

module _ (env : Env) (db : Db env) (now : ℤ) (sound : IsSound env db)
    (places : HasPlaces (env.wal.chunks db.data_files)) where
  abbrev unchanged : ChunkPosition → env.indexer.Index
  unchanged p = db.index

  abbrev pub kept_records : List LogRecord
  kept_records = survivors env unchanged now (env.wal.chunks db.data_files)

  -- A chunk that the index points to is that of the live record.
  pointed_to :
      (key : Bytes) (p q : ChunkPosition) (c : Bytes) (r : LogRecord) (before after : Chunks)
      → (e : env.indexer.get db.index key ≡ some p)
      → env.wal.chunks db.data_files ≡ before ++ ((q, c) ∷ after)
      → decode_log_record c ≡ some r
      → position_equals p q ≡ true
      → r ≡ (sound.live key p e).content
  unfolding answer_of
  pointed_to key p q c r before after e at d same =
      let l = sound.live key p e in
      let here = places p q l.before before l.after after l.chunk c l.at at same in
      let reads = env.wal.read-chunks db.data_files l.before p l.chunk l.after l.at in
      let reads' = env.wal.read-chunks db.data_files before q c after at in
      let one : l.chunk ≡ c =
        ap (answer_of l.chunk) (sym reads ∙ ap (env.wal.read db.data_files) here ∙ reads') in
      cc (d, l.decoded, one)

  survives-points_to :
      (key : Bytes) (q : ChunkPosition) (r : LogRecord)
      → survives env unchanged now q r ≡ true
      → bytes_equal key r.key ≡ true
      → points_to (env.indexer.get db.index key) q ≡ true
  survives-points_to key q r s same =
      subst (λ k. points_to (env.indexer.get db.index k) q ≡ true)
        (sym (bytes_equal-eq key r.key same)) (ground arith)

  pub kept_of_live :
      (key : Bytes) (p : ChunkPosition)
      → (e : env.indexer.get db.index key ≡ some p)
      → All
          (λ r. bytes_equal key r.key ≡ true → r ≡ cleared (sound.live key p e).content)
          kept_records
  unfolding points_to
  kept_of_live key p e =
      survivors-All env unchanged now _ (env.wal.chunks db.data_files) [] _ refl
        (λ q c r before after at d s same. ap cleared (
          pointed_to key p q c r before after e at d
            (subst (λ o. points_to o q ≡ true) e (survives-points_to key q r s same))))

  pub kept_of_absent :
      (key : Bytes)
      → env.indexer.get db.index key ≡ none
      → All (λ r. bytes_equal key r.key ≡ false) kept_records
  unfolding points_to
  kept_of_absent key e =
      survivors-All env unchanged now _ (env.wal.chunks db.data_files) [] _ refl
        (λ q c r before after at d s. elim (Bool-cases (bytes_equal key r.key)) [
          | inr other ↦ other
          | inl same ↦
              absurd (cc (subst (λ o. points_to o q ≡ true) e (survives-points_to key q r s same)))
        ])

  first_survives :
      (p : ChunkPosition) (c : Bytes) (r : LogRecord) (cs : Chunks)
      → decode_log_record c ≡ some r
      → is_valid_data r now ≡ true
      → env.indexer.get db.index r.key ≡ some p
      → survivors env unchanged now ((p, c) ∷ cs) ≡ cleared r ∷ survivors env unchanged now cs
  unfolding survivors points_to
  first_survives p c r cs d v e = rw (d, v, e, position_equals_refl p) refl

  -- A live record that has not expired is kept.
  pub kept-live :
      (key : Bytes) (p : ChunkPosition)
      → (e : env.indexer.get db.index key ≡ some p) → IsPlain (sound.live key p e).content
      → is_gone (sound.live key p e).content now ≡ false
      → (xs : List LogRecord) × ((ys : List LogRecord) × (kept_records
            ≡ xs ++ (cleared (sound.live key p e).content ∷ ys)))
  kept-live key p e plain fresh =
      let l = sound.live key p e in
      let found : env.indexer.get db.index l.content.key ≡ some p =
        subst (λ k. env.indexer.get db.index k ≡ some p) (sym l.same_key) e in
      (
        survivors env unchanged now l.before,
        (
          survivors env unchanged now l.after,
          ap (survivors env unchanged now) l.at
              ∙ survivors-append env unchanged now l.before ((p, l.chunk) ∷ l.after)
              ∙ ap (λ z. survivors env unchanged now l.before ++ z)
                  (first_survives p l.chunk l.content l.after l.decoded
                    (plain-is_valid_data l.content now plain fresh) found),
        ),
      )

-- ===== src/Merge/Replies.antt =====
-- The data files and the hint file that a merge (merge.go) leaves, read back: the same replies.
use distributed_system_proje.Prelude.{
  ◌≡◌, refl, ap, sym, ◌∙◌, subst, Bytes, true, false, Option, none, some, List, [], ◌∷◌, ◌++◌, All,
  All-right, map, if◌then◌else◌, bytes_equal, bytes_equal_refl, inl, inr, Bool-cases, Option-cases,
}
use mathlib.Core.List.{map-append}
use distributed_system_proje.Prelude.Int.{ℤ, ◌≤ℤ◌}
use distributed_system_proje.Errors.{err_key_not_found}
use distributed_system_proje.Record.{ChunkPosition, record_header}
use distributed_system_proje.Record.RoundTrip.{IsEncodable, decode-record_header}
use distributed_system_proje.Store.{ok, Env, Db, err}
use distributed_system_proje.Batch.Methods.{is_gone}
use distributed_system_proje.Batch.Sound.{IsSound, LiveChunk, stored_reply}
use distributed_system_proje.Batch.Replies.{is_gone_mono, is_gone_stamped, reply-live, reply-absent}
use distributed_system_proje.Merge.Rewrite.{cleared, data_chunk}
use distributed_system_proje.Merge.Hints.{
  Placements, last_at, last_at-cases, index_written, get-index_written,
}
use distributed_system_proje.Merge.Survivors.{
  HasPlaces, IsPlain, kept_records, kept_of_live, kept_of_absent, kept-live,
}

All-under_map {ℓ κ μ} :
    {A : Type ℓ} {B : Type κ} (Q : B → Type μ) (f : A → B) (xs : List A) (ys : List B)
    → map f xs ≡ ys
    → All Q ys
    → All (λ x. Q (f x)) xs
All-under_map Q f [] ys e h = tt
All-under_map Q f (x ∷ xs) ys e h =
    let h' = subst (All Q) (sym e) h in (h'.0, All-under_map Q f xs (map f xs) refl h'.1)

All-over_map {ℓ κ μ} :
    {A : Type ℓ} {B : Type κ} (Q : B → Type μ) (f : A → B) (xs : List A)
    → All (λ x. Q (f x)) xs
    → All Q (map f xs)
All-over_map Q f [] h = tt
All-over_map Q f (x ∷ xs) h = (h.0, All-over_map Q f xs h.1)

last_at-absent :
    (key : Bytes) (ws : Placements) (old : Option ChunkPosition)
    → All (λ w. bytes_equal key w.1.key ≡ false) ws
    → last_at key ws old ≡ old
last_at-absent key [] old h = refl
last_at-absent key ((p, r) ∷ ws) old (h, hs) = rw h (last_at-absent key ws old hs)

module _ (env : Env) (db : Db env) (now : ℤ) (sound : IsSound env db)
    (places : HasPlaces (env.wal.chunks db.data_files)) where
  -- The database behind a merge: other data files, and the index that their hints give
  abbrev pub merged : env.wal.Log → Placements → Db env
  merged log ws = record db {
    data_files = log;
    index = index_written env env.indexer.new_indexer ws;
  }

  module _ (log : env.wal.Log) (ws : Placements)
      (kept : map (λ w. w.1) ws ≡ kept_records env db now sound places)
      (stored : env.wal.chunks log ≡ map data_chunk ws)
      (fits : All IsEncodable (kept_records env db now sound places)) where
    get_merged : (key : Bytes) → env.indexer.get (merged log ws).index key ≡ last_at key ws none
    get_merged key =
        get-index_written env ws env.indexer.new_indexer key
        ∙ ap (last_at key ws) (env.indexer.get-new key)

    -- A rewritten record at its new place
    rewritten-LiveChunk :
        (key : Bytes) (p q : ChunkPosition) (e : env.indexer.get db.index key ≡ some p)
        (before after : Placements)
        → ws ≡ before ++ ((q, cleared (sound.live key p e).content) ∷ after)
        → (l : LiveChunk (env.wal.chunks log) key q) × (l.content
            ≡ cleared (sound.live key p e).content)
    rewritten-LiveChunk key p q e before after split =
        let l = sound.live key p e in
        let v =
          subst (All (λ w. IsEncodable w.1)) split
            (All-under_map IsEncodable (λ w. w.1) ws _ kept fits) in
        (
          record {
            before = map data_chunk before;
            chunk = record_header (cleared l.content) ++ (l.content.key ++ l.content.value);
            after = map data_chunk after;
            at = stored ∙ ap (map data_chunk) split ∙ map-append data_chunk before _;
            content = cleared l.content;
            decoded =
                decode-record_header (cleared l.content)
                  (All-right (λ w. IsEncodable w.1) before _ v).0;
            same_key = l.same_key;
            not_deleted = l.not_deleted;
          },
          refl,
        )

    -- A live record that is not kept has expired.
    gone_unless_kept :
        (key : Bytes) (p : ChunkPosition) (e : env.indexer.get db.index key ≡ some p)
        → IsPlain (sound.live key p e).content
        → All (λ w. bytes_equal key w.1.key ≡ false) ws
        → is_gone (sound.live key p e).content now ≡ true
    gone_unless_kept key p e plain others =
        elim (Bool-cases (is_gone (sound.live key p e).content now)) [
          | inl gone ↦ gone
          | inr fresh ↦
              (let (xs, (ys, split)) = kept-live env db now sound places key p e plain fresh in
                let none_kept =
                  subst (All (λ r. bytes_equal key r.key ≡ false)) (kept ∙ split)
                    (All-over_map (λ r. bytes_equal key r.key ≡ false) (λ w. w.1) ws others) in
                let other = (All-right (λ r. bytes_equal key r.key ≡ false) xs _ none_kept).0 in
                absurd (cc (other, (sound.live key p e).same_key, bytes_equal_refl key)))
        ]

    pub merged-reply :
        (key : Bytes) (later : ℤ)
        → now ≤ℤ later
        → ((p : ChunkPosition) (e : env.indexer.get db.index key ≡ some p)
            → IsPlain (sound.live key p e).content)
        → stored_reply env (merged log ws) key later ≡ stored_reply env db key later
    merged-reply key later le plain = elim (Option-cases (env.indexer.get db.index key)) [
      | inl e ↦
          reply-absent env (merged log ws) key later (
            get_merged key
            ∙ last_at-absent key ws none (
                All-under_map _ (λ w. w.1) ws _ kept
                  (kept_of_absent env db now sound places key e)))
          ∙ sym (reply-absent env db key later e)
      | inr (p, e) ↦
          (let l = sound.live key p e in
            elim (last_at-cases key (cleared l.content) ws none (
              All-under_map _ (λ w. w.1) ws _ kept
                (kept_of_live env db now sound places key p e))) [
                  | inl (nothing, others) ↦
                      reply-absent env (merged log ws) key later (get_merged key ∙ nothing)
                      ∙ sym (
                          reply-live env db key p later e l
                          ∙ rw
                              (is_gone_mono l.content now later le
                                (gone_unless_kept key p e (plain p e) others))
                              refl)
                  | inr (q, (before, (after, here, split))) ↦
                      (let (l', same) = rewritten-LiveChunk key p q e before after split in
                        reply-live env (merged log ws) key q later (get_merged key ∙ here) l'
                        ∙ ap
                            (λ r.
                              some (if is_gone r later then err err_key_not_found else ok r.value))
                            same
                        ∙ rw (is_gone_stamped l.content 0 later) refl
                        ∙ sym (reply-live env db key p later e l))
                ])
    ]

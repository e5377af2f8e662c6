-- ===== src/Merge/Kept.antt =====
-- doMerge and loadIndexFromHintFile (merge.go) one behind the other, while nobody else writes.
use distributed_system_proje.Prelude.{
  ℕ, ◌≤◌, ◌<◌, ◌≡◌, refl, ap, sym, ◌∙◌, subst, Bytes, false, Option, none, some, List, [], ◌∷◌,
  ◌++◌, append-nil, arith, All, map, length, length-map, ◌⊎◌, inl, inr, Option-cases,
}
use distributed_system_proje.Prelude.Int.{ℤ, ◌≤ℤ◌}
use distributed_system_proje.Errors.{Error}
use distributed_system_proje.Record.{LogRecord, ChunkPosition, decode_log_record}
use distributed_system_proje.Record.RoundTrip.{IsEncodable}
use distributed_system_proje.Store.{Env, Db, ok}
use distributed_system_proje.Store.Log.{Chunks}
use distributed_system_proje.Batch.Sound.{IsSound, LiveChunk-grown, stored_reply}
use distributed_system_proje.Batch.Atomic.{grown}
use distributed_system_proje.Database.Held.{IsReady}
use distributed_system_proje.Merge.{
  decode_hint_record, suc, MergeDb, MergeDirectory, Merging, at_return, merge_segments, do_merge,
  load_index_from_hint_file,
}
use distributed_system_proje.Merge.Files.{MergeWal}
use distributed_system_proje.Merge.Rewrite.{
  data_chunk, Decodes, Rewritten, hints, hint_of, survivors, survivor,
}
use distributed_system_proje.Merge.Loop.{rewrite_loop-Rewrites}
use distributed_system_proje.Merge.Hints.{hint_loop-Loads}
use distributed_system_proje.Merge.Survivors.{HasPlaces, IsPlain, kept_records}
use distributed_system_proje.Merge.Steps.{
  finish_merge_lem, passes_guards, fails_to_rotate, merge_failed, merge_done,
}
use distributed_system_proje.Merge.Replies.{merged-reply}

-- No more records survive than there are chunks.
length-survivors :
    (env : Env) (index_at : ChunkPosition → env.indexer.Index) (now : ℤ) (cs : Chunks)
    → length (survivors env index_at now cs) ≤ length cs
unfolding survivors
length-survivors env index_at now [] = omega arith
length-survivors env index_at now ((p, c) ∷ cs) =
    survivor-le (decode_log_record c) p (survivors env index_at now cs)
      (length-survivors env index_at now cs)
  where
    survivor-le :
        (o : Option LogRecord) (p : ChunkPosition) (rest : List LogRecord)
        → length rest ≤ length cs
        → length (survivor env index_at now o p rest) ≤ suc (length cs)
    survivor-le none p rest h = omega arith
    survivor-le (some r) p rest h = ground arith

module _ (env : Env) (files : MergeWal env.wal) where
  -- What a merge relies on, of a sound database: each chunk of the log holds a record, at a place of
  -- its own; a live record is that of a Put, with no expiry before 1970; and the encoding of every
  -- record that is kept, without its batch id, is in range.
  pub record CanMerge (db : Db env) (now : ℤ) (sound : IsSound env db) : Type 0 where
    pub decodes : Decodes (env.wal.chunks db.data_files)
    pub places : HasPlaces (env.wal.chunks db.data_files)
    pub plain :
        (key : Bytes) (p : ChunkPosition) (e : env.indexer.get db.index key ≡ some p)
        → IsPlain (sound.live key p e).content
    pub fits : All IsEncodable (kept_records env db now sound places)

  rotated-IsReady :
      (db : Db env) (l : env.wal.Log)
      → IsReady env db
      → env.wal.chunks l ≡ env.wal.chunks db.data_files
      → env.wal.pending l ≡ env.wal.pending db.data_files
      → IsReady env (record db { data_files = l })
  rotated-IsReady db l ready c p = record {
    sound = record {
      cached = p ∙ ready.sound.cached;
      watched = ready.sound.watched;
      live = λ key q e.
          (LiveChunk-grown _ _ [] key q (c ∙ sym (append-nil _)) (ready.sound.live key q e)).0;
    };
    unlocked = ready.unlocked;
    not_closed = ready.not_closed;
  }

  -- Reading back the data files and the hint file: opening it, or a read of it, fails, or a Get on the
  -- index that results replies what it does on `db`.
  abbrev pub ReadsBack : ℕ → Db env → MergeDb env files → Bytes → ℤ → Type 0
  ReadsBack fuel db m key later =
      ((x : Error) × ((i : env.indexer.Index) × (load_index_from_hint_file env files fuel
              (ok m.hint_file) env.indexer.new_indexer
            ≡ some (some x, i))))
      ⊎ ((i : env.indexer.Index) × ((load_index_from_hint_file env files fuel (ok m.hint_file)
                env.indexer.new_indexer
              ≡ some (none, i))
            × (stored_reply env (record db { data_files = m.data_files; index = i }) key later
                ≡ stored_reply env db key later)))

  -- What doMerge comes to: it returns, the database is ready and replies what it did, the flag is
  -- reset, and there is an error or a merge database that can be read back.
  abbrev pub Merges : ℕ → Db env → Bytes → ℤ → Option (Option Error × Merging env files) → Type 0
  Merges fuel db key later out =
      (e : Option Error) × ((done : Merging env files) × (out ≡ some (e, done))
        × IsReady env done.db
        × (done.merge_running ≡ false)
        × (stored_reply env done.db key later ≡ stored_reply env db key later)
        × (((x : Error) × (e ≡ some x))
            ⊎ ((m : MergeDb env files) × ((done.merge_db ≡ some m)
                  × ReadsBack fuel db m key later))))

  module _ (fuel : ℕ) (db : Db env) (now : ℤ) (ready : IsReady env db)
      (can : CanMerge db now ready.sound) (enough : length (env.wal.chunks db.data_files) < fuel)
      (key : Bytes) (later : ℤ) (le : now ≤ℤ later) where
    abbrev kept : List LogRecord
    kept = kept_records env db now ready.sound can.places

    reads_back :
        (m m' : MergeDb env files)
        → env.wal.chunks m.data_files ≡ []
        → env.wal.chunks m.hint_file ≡ []
        → Rewritten env files m kept m'
        → ReadsBack fuel db m' key later
    unfolding load_index_from_hint_file
    reads_back m m' d h (ws, (rs, stored, hinted)) =
        let hints' : hints (env.wal.chunks m'.hint_file) ≡ map hint_of ws =
          hinted ∙ ap (λ cs. hints cs ++ map hint_of ws) h in
        let stored' = stored ∙ ap (λ cs. cs ++ map data_chunk ws) d in
        elim (hint_loop-Loads env files fuel (files.new_reader m'.hint_file)
          (env.wal.chunks m'.hint_file) ws env.indexer.new_indexer
          (files.new_reader-chunks m'.hint_file)
          (omega (
            arith,
            length-map (env.wal.chunks m'.hint_file) (λ x. decode_hint_record x.1),
            ap length hints',
            length-map ws hint_of,
            length-map ws (λ w. w.1),
            ap length rs,
            length-survivors env (λ p. db.index) now (env.wal.chunks db.data_files),
            enough,
          ))
          hints') [
            | inl failed_read ↦ inl failed_read
            | inr loaded ↦ inr (
              _,
              (
                loaded,
                merged-reply env db now ready.sound can.places m'.data_files ws rs stored' can.fits
                    key later le (can.plain key),
              ),
            )
          ]

    replies_on :
        (l : env.wal.Log)
        → env.wal.chunks l ≡ env.wal.chunks db.data_files
        → stored_reply env (record db { data_files = l }) key later ≡ stored_reply env db key later
    replies_on l c = grown env db _ [] ready.sound (c ∙ sym (append-nil _)) key later refl

    merge_segments-Merges :
        (directory : MergeDirectory env files) (m : MergeDb env files) (l : env.wal.Log)
        → files.open_new_active_segment db.data_files ≡ (l, none)
        → env.wal.chunks l ≡ env.wal.chunks db.data_files
        → env.wal.pending l ≡ env.wal.pending db.data_files
        → directory.open_merge_db ≡ ok m
        → env.wal.chunks m.data_files ≡ []
        → env.wal.chunks m.hint_file ≡ []
        → Merges fuel db key later (
            merge_segments env files fuel
              (λ p. db.index)
              now
              directory
              (files.active_segment_id db.data_files)
              (record db { data_files = l }))
    merge_segments-Merges directory m l rotation c p opened d h =
        let n = files.active_segment_id db.data_files in
        let after : Db env = record db { data_files = l } in
        let still = rotated-IsReady db l ready c p in
        let same = replies_on l c in
        elim (rewrite_loop-Rewrites env files (λ p. db.index) now fuel m
          (files.new_reader_with_max l n) (env.wal.chunks db.data_files)
          (files.new_reader_with_max-chunks db.data_files l rotation) enough can.decodes can.fits) [
            | inl (x, (m', run)) ↦ (
              some x,
              (
                at_return env files after (some m') none,
                merge_failed env files fuel (λ p. db.index) now directory after n m m' x opened run,
                still,
                refl,
                same,
                inl (x, refl),
              ),
            )
            | inr (m', (run, w)) ↦
                (let (e, (fin, finish)) = finish_merge_lem env files directory n after m' in
                  (
                    e,
                    (
                      at_return env files after (some m') fin,
                      merge_done env files fuel (λ p. db.index) now directory after n m m' opened
                            run
                          ∙ ap some finish,
                      still,
                      refl,
                      same,
                      inr (m', (refl, reads_back m m' d h w)),
                    ),
                  ))
          ]

    -- With more fuel than the log has chunks, a merge of a ready database with data, while none is
    -- running and nobody writes, returns, into a new merge directory. The database is ready behind it,
    -- the flag is reset, and every Get from then on replies what it did before. Either it returns an
    -- error, or the index that loadIndexFromHintFile makes of the hint file, over the data files of
    -- the merge, gives the same replies, unless the hint file cannot be read.
    pub do_merge-Merges :
        (directory : MergeDirectory env files) (m : MergeDb env files)
        → files.is_empty db.data_files ≡ false
        → directory.open_merge_db ≡ ok m
        → env.wal.chunks m.data_files ≡ []
        → env.wal.chunks m.hint_file ≡ []
        → Merges fuel db key later (do_merge env files fuel (λ p. db.index) now directory db false)
    do_merge-Merges directory m some_data opened d h =
        let rotated = files.open_new_active_segment db.data_files in
        let l = rotated.0 in
        let c : env.wal.chunks l ≡ env.wal.chunks db.data_files =
          files.chunks-open_new db.data_files in
        let p : env.wal.pending l ≡ env.wal.pending db.data_files =
          files.pending-open_new db.data_files in
        elim (Option-cases rotated.1) [
          | inl o ↦
              (let rotation : files.open_new_active_segment db.data_files ≡ (l, none) =
                  ap (λ x. (l, x)) o in
                subst (Merges fuel db key later)
                  (sym (
                    passes_guards env files fuel (λ p. db.index) now directory db l ready.unlocked
                      ready.not_closed some_data rotation))
                  (merge_segments-Merges directory m l rotation c p opened d h))
          | inr (x, o) ↦ (
            some x,
            (
              at_return env files (record db { data_files = l }) none none,
              fails_to_rotate env files fuel (λ p. db.index) now directory db l x ready.unlocked
                  ready.not_closed some_data (ap (λ x. (l, x)) o),
              rotated-IsReady db l ready c p,
              refl,
              replies_on l c,
              inl (x, refl),
            ),
          )
        ]

-- ===== src/Tests/Merging.antt =====
-- doMerge and loadIndex of merge.go and db.go at concrete inputs.
use distributed_system_proje.Prelude.{
  map, ◌≡◌, ◌⊎◌, refl, ap, sym, ◌∙◌, subst, Bytes, false, none, some, List, [], ◌∷◌, ◌++◌, arith,
}
use distributed_system_proje.Prelude.Int.{pos, negsuc}
use distributed_system_proje.Errors.{Error}
use distributed_system_proje.Record.{
  read_hint_uvarint, decode_hint_record, LogRecord, ChunkPosition, record_header, decode_log_record,
}
use distributed_system_proje.Record.Varint.{slice_from, uvarint}
use distributed_system_proje.Record.RoundTrip.{IsEncodable, decode-record_header}
use distributed_system_proje.Store.{ok, err}
use distributed_system_proje.Batch.Methods.{is_gone}
use distributed_system_proje.Recovery.History.{all_chunks, live_index}
use distributed_system_proje.Merge.{MergeDb, MergeDirectory, do_merge, rewrite_chunk}
use distributed_system_proje.Merge.Kept.{CanMerge, Merges, do_merge-Merges}
use distributed_system_proje.Merge.Survivors.{HasPlaces, IsPlain, survivors-All}
use distributed_system_proje.Merge.Hints.{Placements, index_written}
use distributed_system_proje.Merge.Restarted.{load_index, load_index-recovers}
use distributed_system_proje.Merge.Negative.{negative_expiry_is_dropped}
use distributed_system_proje.Tests.Engine.{test_db, test_env, one_record}
use distributed_system_proje.Tests.ListLog.{ListLog, list_wal, place, empty_log}
use distributed_system_proje.Tests.Files.{list_files}
use distributed_system_proje.Tests.Loading.{a_history, a_history-IsHistory}
use distributed_system_proje.Tests.Storing.{
  stored_db, stored_db-IsReady, one_chunk, one_record-IsEncodable,
}

-- The one element of a list, wherever it is cut
only_one {ℓ} :
    {A : Type ℓ} (x y : A) (before after : List A) → x ∷ [] ≡ before ++ (y ∷ after) → y ≡ x
only_one x y [] after e = cc
only_one x y (z ∷ []) after e = absurd (cc)
only_one x y (z ∷ w ∷ before) after e = absurd (cc)

-- What the chunk of the database decodes to
content_of :
    (p : ChunkPosition) (c : Bytes) (r : LogRecord) (before after : List (ChunkPosition × Bytes))
    → (place 0, one_chunk) ∷ [] ≡ before ++ ((p, c) ∷ after)
    → decode_log_record c ≡ some r
    → r ≡ one_record
content_of p c r before after e d =
    let same : c ≡ one_chunk = ap (λ x. x.1) (only_one _ _ before after e) in
    cc (d, ap decode_log_record same, decode-record_header one_record one_record-IsEncodable)

stored_db-HasPlaces : HasPlaces (list_wal.chunks stored_db.data_files)
unfolding stored_db
stored_db-HasPlaces p q b b' a a' c d e f same =
    ap (λ x. x.0) (only_one _ _ b a e ∙ sym (only_one _ _ b' a' f))

one_record-IsPlain : (r : LogRecord) → r ≡ one_record → IsPlain r
one_record-IsPlain r e = subst IsPlain (sym e) (record { normal = refl; expiry = refl })

stored_db-CanMerge : CanMerge test_env list_files stored_db (pos 5) stored_db-IsReady.sound
unfolding stored_db
stored_db-CanMerge = record {
  decodes = ((one_record, decode-record_header one_record one_record-IsEncodable), tt);
  places = stored_db-HasPlaces;
  plain = λ key p e.
      let l = stored_db-IsReady.sound.live key p e in
      one_record-IsPlain l.content (content_of p l.chunk l.content l.before l.after l.at l.decoded);
  fits =
      survivors-All test_env (λ p. stored_db.index) (pos 5) IsEncodable ((place 0, one_chunk) ∷ [])
        [] _ refl
        (λ p c r before after e d s.
          subst (λ r. IsEncodable (record r { batch_id = 0 }))
            (sym (content_of p c r before after e d))
            (record { batch = omega arith; expiry = omega arith; size = omega arith }));
}

abbrev new_merge_db : MergeDb test_env list_files
new_merge_db = record { data_files = empty_log; hint_file = empty_log }

abbrev new_directory : MergeDirectory test_env list_files
new_directory = record {
  open_merge_db = ok new_merge_db;
  open_merge_finished_file = ok empty_log;
  close = λ l. none;
}

do_merge-Merges_example :
    Merges test_env list_files 2 stored_db
      (1 ∷ [])
      (pos 9)
      (do_merge test_env list_files 2 (λ p. stored_db.index) (pos 5) new_directory stored_db false)
unfolding stored_db
do_merge-Merges_example =
    do_merge-Merges test_env list_files 2 stored_db (pos 5) stored_db-IsReady stored_db-CanMerge
      (omega arith) (1 ∷ []) (pos 9) (omega arith) new_directory new_merge_db refl refl refl refl

-- A hint of the key [2] at the place 9, and a log with the records of the history
abbrev one_hint : ListLog
one_hint = record { stored = (9 ∷ 0 ∷ 0 ∷ 0 ∷ 2 ∷ []) ∷ []; cache = [] }

abbrev rewritten : Placements
rewritten = (place 9, record one_record { key = 2 ∷ [] }) ∷ []

abbrev history_log : ListLog
history_log = record { stored = map (λ x. x.1) (all_chunks test_env a_history); cache = [] }

load_index-recovers_example :
    ((e : Error) × (load_index test_env list_files 9
          (pos 9)
          (ok one_hint)
          (ok 0)
          history_log
          test_db.index
        ≡ some (err e)))
    ⊎ ((index' : test_env.indexer.Index) × (live_index test_env a_history
            (index_written test_env test_db.index rewritten)
          ≡ some index')
        × (load_index test_env list_files 9 (pos 9) (ok one_hint) (ok 0) history_log test_db.index
            ≡ some (ok index')))
unfolding decode_hint_record read_hint_uvarint slice_from uvarint
load_index-recovers_example =
    load_index-recovers test_env list_files 9 0 (pos 9) one_hint history_log test_db.index rewritten
      [] (record { id = 1; chunks = all_chunks test_env a_history } ∷ []) a_history (omega arith)
      refl refl tt (omega arith, tt) (omega arith) (omega arith) a_history-IsHistory refl

-- A record whose expiry is -4
abbrev negative_record : LogRecord
negative_record = record one_record { expire = negsuc 3 }

negative_expiry_is_dropped_example :
    (is_gone negative_record (pos 5) ≡ false)
    × (rewrite_chunk test_env list_files stored_db.index
          (pos 5)
          (place 0)
          (record_header negative_record ++ (negative_record.key ++ negative_record.value))
          new_merge_db
        ≡ some (none, new_merge_db))
negative_expiry_is_dropped_example =
    negative_expiry_is_dropped test_env list_files stored_db.index (pos 5) (place 0)
      (record_header negative_record ++ (negative_record.key ++ negative_record.value))
      negative_record new_merge_db
      (decode-record_header negative_record
        (record { batch = omega arith; expiry = (omega arith, omega arith); size = omega arith }))
      refl refl refl

-- ===== src/Tests/Coding.antt =====
-- The encodings of record.go at concrete inputs.
use distributed_system_proje.Prelude.{◌≡◌, Bytes, some, [], ◌∷◌, ◌++◌, arith, length}
use distributed_system_proje.Prelude.Int.{pos}
use distributed_system_proje.Record.{
  LogRecord, ChunkPosition, log_record_normal, encode_log_record, decode_log_record,
  encode_hint_record, decode_hint_record,
}
use distributed_system_proje.Record.Varint.{put_uvarint, uvarint, uvarint-put_uvarint}
use distributed_system_proje.Record.RoundTrip.{IsEncodable, decode-encode}
use distributed_system_proje.Record.Hint.{IsPosition, decode_hint-encode_hint}

abbrev a_record : LogRecord
a_record = record {
  key = 97 ∷ 98 ∷ [];
  value = 1 ∷ [];
  record_type = log_record_normal;
  batch_id = 300;
  expire = pos 5;
}

a_record-IsEncodable : IsEncodable a_record
a_record-IsEncodable = record { batch = omega arith; expiry = omega arith; size = omega arith }

abbrev a_position : ChunkPosition
a_position = record { segment_id = 2; block_number = 200; chunk_offset = pos 70; chunk_size = 9 }

a_position-IsPosition : IsPosition a_position
a_position-IsPosition = record {
  segment = omega arith;
  block = omega arith;
  offset = omega arith;
  size = omega arith;
}

uvarint-put_uvarint_example :
    uvarint (put_uvarint 300 ++ (9 ∷ [])) ≡ (300, pos (length (put_uvarint 300)))
uvarint-put_uvarint_example = uvarint-put_uvarint 300 (9 ∷ []) (omega arith)

decode-encode_example :
    (chunk : Bytes) × (encode_log_record a_record ≡ some chunk)
    × (decode_log_record chunk ≡ some a_record)
decode-encode_example = decode-encode a_record a_record-IsEncodable

decode_hint-encode_hint_example :
    (chunk : Bytes) × (encode_hint_record (97 ∷ []) a_position ≡ some chunk)
    × (decode_hint_record chunk ≡ some (97 ∷ [], a_position))
decode_hint-encode_hint_example = decode_hint-encode_hint (97 ∷ []) a_position a_position-IsPosition

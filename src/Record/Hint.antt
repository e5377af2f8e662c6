-- ===== src/Record/Hint.antt =====
-- decodeHintRecord against encodeHintRecord.
use distributed_system_proje.Prelude.{
  ℕ, ◌+◌, ◌*◌, ◌%◌, ◌^◌, ◌<◌, ◌≡◌, ap, sym, ◌∙◌, Bytes, Option, none, some, [], ◌∷◌, ◌++◌,
  append_assoc, arith, length, length-append,
}
use distributed_system_proje.Prelude.Int.{ℤ, pos, negsuc, IsInt64, to_bits, of_bits}
use distributed_system_proje.Record.{
  ChunkPosition, encode_hint_record, decode_hint_record, read_hint_uvarint, encode_merge_fin_record,
}
use distributed_system_proje.Record.Varint.{
  put_uvarint, uvarint-put_uvarint, length-put_uvarint, slice_from, slice_from-append,
}

-- The fields of a position are in the range of their Go types.
pub record IsPosition (p : ChunkPosition) : Type 0 where
  pub segment : p.segment_id < 2 ^ 32
  pub block : p.block_number < 2 ^ 32
  pub offset : IsInt64 p.chunk_offset
  pub size : p.chunk_size < 2 ^ 32

of_bits-to_bits : (z : ℤ) → IsInt64 z → of_bits (to_bits z % 2 ^ 64) ≡ z
of_bits-to_bits (pos n) h = ground arith
of_bits-to_bits (negsuc n) h = ground arith

to_bits-lt : (z : ℤ) → to_bits z < 2 ^ 64
to_bits-lt (pos n) = omega arith
to_bits-lt (negsuc n) = omega arith

read_hint_uvarint-cut :
    (buf pre rest : Bytes) (v i : ℕ)
    → buf ≡ pre ++ (put_uvarint v ++ rest)
    → v < 2 ^ 64
    → i ≡ length pre
    → read_hint_uvarint buf i ≡ some (v, length (pre ++ put_uvarint v))
unfolding read_hint_uvarint
read_hint_uvarint-cut buf pre rest v i e h f =
    rw (e, f)
      (rw (slice_from-append pre (put_uvarint v ++ rest), uvarint-put_uvarint v rest h)
        (ap (λ n. some (v, n)) (sym (length-append pre (put_uvarint v)))))

slice_from-cut :
    (buf pre rest : Bytes) → buf ≡ pre ++ rest → slice_from buf (length pre) ≡ some rest
slice_from-cut buf pre rest e = rw e (slice_from-append pre rest)

decode_hint_steps :
    (buf key : Bytes) (s i1 b i2 o i3 z i4 : ℕ)
    → read_hint_uvarint buf 0 ≡ some (s, i1)
    → read_hint_uvarint buf i1 ≡ some (b, i2)
    → read_hint_uvarint buf i2 ≡ some (o, i3)
    → read_hint_uvarint buf i3 ≡ some (z, i4)
    → slice_from buf i4 ≡ some key
    → decode_hint_record buf
      ≡ some (
        key,
        record {
          segment_id = s % 2 ^ 32;
          block_number = b % 2 ^ 32;
          chunk_offset = of_bits (o % 2 ^ 64);
          chunk_size = z % 2 ^ 32;
        },
      )
unfolding decode_hint_record
decode_hint_steps buf key s i1 b i2 o i3 z i4 h1 h2 h3 h4 h5 = ground arith

-- The encoded hint cut at the places where decodeHintRecord reads.
module _ (a b c d k : Bytes) where
  abbrev hint : Bytes
  hint = (a ++ (b ++ (c ++ d))) ++ k

  hint_1 : hint ≡ a ++ (b ++ (c ++ (d ++ k)))
  hint_1 = simp append_assoc

  hint_2 : hint ≡ (a ++ b) ++ (c ++ (d ++ k))
  hint_2 = simp append_assoc

  hint_3 : hint ≡ ((a ++ b) ++ c) ++ (d ++ k)
  hint_3 = simp append_assoc

  hint_4 : hint ≡ (((a ++ b) ++ c) ++ d) ++ k
  hint_4 = simp append_assoc

hint_head :
    (a b c d : Bytes) → length (a ++ (b ++ (c ++ d))) ≡ length a + length b + length c + length d
hint_head a b c d =
    omega (arith, length-append a (b ++ (c ++ d)), length-append b (c ++ d), length-append c d)

module _ (key : Bytes) (p : ChunkPosition) (v : IsPosition p) where
  hint_bytes : Bytes
  hint_bytes =
      (put_uvarint p.segment_id
        ++ (put_uvarint p.block_number
            ++ (put_uvarint (to_bits p.chunk_offset) ++ put_uvarint p.chunk_size)))
      ++ key

  -- The four numbers fit the buffer of 25 bytes.
  encode_hint_lem : encode_hint_record key p ≡ some hint_bytes
  unfolding encode_hint_record hint_bytes
  encode_hint_lem = ground (
    arith,
    hint_head (put_uvarint p.segment_id) (put_uvarint p.block_number)
        (put_uvarint (to_bits p.chunk_offset)) (put_uvarint p.chunk_size),
    length-put_uvarint p.segment_id 4 (omega arith) (omega arith),
    length-put_uvarint p.block_number 4 (omega arith) (omega arith),
    length-put_uvarint (to_bits p.chunk_offset) 9 (omega (arith, to_bits-lt p.chunk_offset))
        (omega arith),
    length-put_uvarint p.chunk_size 4 (omega arith) (omega arith),
  )

  decode_hint_lem : decode_hint_record hint_bytes ≡ some (key, p)
  unfolding hint_bytes
  decode_hint_lem =
      decode_hint_steps _ key p.segment_id _ p.block_number _ (to_bits p.chunk_offset) _
        p.chunk_size _
        (read_hint_uvarint-cut _ [] _ p.segment_id 0 (hint_1 a b c d key) (omega arith)
          (omega arith))
        (read_hint_uvarint-cut _ a _ p.block_number _ (hint_1 a b c d key) (omega arith)
          (omega arith))
        (read_hint_uvarint-cut _ (a ++ b) _ (to_bits p.chunk_offset) _ (hint_2 a b c d key)
          (to_bits-lt p.chunk_offset) (omega arith))
        (read_hint_uvarint-cut _ ((a ++ b) ++ c) _ p.chunk_size _ (hint_3 a b c d key) (omega arith)
          (omega arith))
        (slice_from-cut _ (((a ++ b) ++ c) ++ d) key (hint_4 a b c d key))
      ∙ ground (arith, of_bits-to_bits p.chunk_offset v.offset)
    where
      a : Bytes
      a = put_uvarint p.segment_id

      b : Bytes
      b = put_uvarint p.block_number

      c : Bytes
      c = put_uvarint (to_bits p.chunk_offset)

      d : Bytes
      d = put_uvarint p.chunk_size

  -- decodeHintRecord gives back the key and the position that encodeHintRecord wrote, and neither
  -- of them panics, for every position whose fields are in the range of their Go types.
  pub decode_hint-encode_hint :
      (chunk : Bytes) × (encode_hint_record key p ≡ some chunk)
      × (decode_hint_record chunk ≡ some (key, p))
  decode_hint-encode_hint = (hint_bytes, encode_hint_lem, decode_hint_lem)

-- `binary.LittleEndian.Uint32` of the four bytes that getMergeFinSegmentId reads
unfoldable pub decode_uint32 : Bytes → Option ℕ
decode_uint32 (a ∷ b ∷ c ∷ d ∷ rest) = some (a + b * 2 ^ 8 + c * 2 ^ 16 + d * 2 ^ 24)
decode_uint32 _ = none

-- The segment id of a finished merge is read back as it was written.
pub decode_uint32-encode_merge_fin :
    (segment_id : ℕ)
    → segment_id < 2 ^ 32
    → decode_uint32 (encode_merge_fin_record segment_id) ≡ some segment_id
unfolding decode_uint32 encode_merge_fin_record
decode_uint32-encode_merge_fin segment_id h = ap some (omega arith)

-- ===== src/Record/RoundTrip.antt =====
-- decodeLogRecord against encodeLogRecord.
use distributed_system_proje.Prelude.{
  ℕ, ◌+◌, ◌-◌, ◌%◌, ◌^◌, ◌≤◌, ◌<◌, ◌≡◌, refl, ap, ◌∙◌, Bytes, some, [], ◌∷◌, ◌++◌, append-nil,
  append_assoc, arith, length, length-append, replicate,
}
use distributed_system_proje.Prelude.Int.{ℤ, pos, IsInt64}
use distributed_system_proje.Record.{
  LogRecord, record_header, max_log_record_header_size, encode_log_record, decode_log_record,
  read_uvarint, read_bytes, add_uint32, max_alloc,
}
use distributed_system_proje.Record.Varint.{
  put_uvarint, uvarint-put_uvarint, length-put_uvarint, to_zigzag, from_zigzag,
  from_zigzag-to_zigzag, to_zigzag-lt, slice_from-append, slice, slice-append,
}

-- What the code relies on of a record: its numbers are those of Go's types, and the whole record
-- is below 4 GB (decodeLogRecord indexes with uint32).
pub record IsEncodable (r : LogRecord) : Type 0 where
  pub batch : r.batch_id < 2 ^ 64
  pub expiry : IsInt64 r.expire
  pub size : length r.key + length r.value + max_log_record_header_size < 2 ^ 32

read_uvarint-put :
    (pre rest : Bytes) (v : ℕ)
    → v < 2 ^ 64
    → length pre + 10 < 2 ^ 32
    → read_uvarint (pre ++ (put_uvarint v ++ rest)) (length pre)
      ≡ some (v, length (pre ++ put_uvarint v))
unfolding read_uvarint
read_uvarint-put pre rest v h k =
    rw (slice_from-append pre (put_uvarint v ++ rest), uvarint-put_uvarint v rest h)
      (ap (λ n. some (v, n))
        (omega (
          arith,
          length-append pre (put_uvarint v),
          length-put_uvarint v 9 (omega arith) (omega arith),
        )))

read_bytes-put :
    (pre mid rest : Bytes)
    → length pre + length mid < 2 ^ 32
    → read_bytes (pre ++ (mid ++ rest)) (length pre) (pos (length mid))
      ≡ some (mid, length (pre ++ mid))
unfolding read_bytes
read_bytes-put pre mid rest h =
    rw (next, sliced) (ground (arith, length-append pre mid, small, padded))
  where
    next : add_uint32 (length pre) (length mid % 2 ^ 32) ≡ length pre + length mid
    next = omega arith

    sliced : slice (pre ++ (mid ++ rest)) (length pre) (length pre + length mid) ≡ some mid
    sliced = slice-append pre mid rest

    small : length mid ≤ max_alloc
    small = omega arith

    no_pad : length mid - length mid ≡ 0
    no_pad = omega arith

    padded : mid ++ replicate (length mid - length mid) 0 ≡ mid
    padded = ap (λ n. mid ++ replicate n 0) no_pad ∙ append-nil mid

header_parts :
    (a b c d : Bytes)
    → length (a ++ (b ++ (c ++ d))) ≡ length a + (length b + (length c + length d))
header_parts a b c d =
    omega (arith, length-append a (b ++ (c ++ d)), length-append b (c ++ d), length-append c d)

-- The header of a record whose fields are in the range of their Go types, and which is below 4 GB,
-- fits the header buffer of encodeLogRecord.
pub record_header_fits :
    (r : LogRecord) → IsEncodable r → length (record_header r) ≤ max_log_record_header_size
record_header_fits r v = omega (
  arith,
  header_parts (put_uvarint r.batch_id) (put_uvarint (to_zigzag (pos (length r.key))))
      (put_uvarint (to_zigzag (pos (length r.value)))) (put_uvarint (to_zigzag r.expire)),
  length-put_uvarint r.batch_id 9 (omega arith) (omega arith),
  length-put_uvarint (to_zigzag (pos (length r.key))) 4 (omega arith) (omega arith),
  length-put_uvarint (to_zigzag (pos (length r.value))) 4 (omega arith) (omega arith),
  length-put_uvarint (to_zigzag r.expire) 9 (omega (arith, to_zigzag-lt r.expire)) (omega arith),
)

pub encode_lem :
    (r : LogRecord)
    → IsEncodable r
    → encode_log_record r ≡ some (record_header r ++ (r.key ++ r.value))
unfolding encode_log_record
encode_lem r v = ground (arith, record_header_fits r v)

decode_steps :
    (t : ℕ) (rest key value : Bytes) (b i1 ks i2 vs i3 e i4 i5 i6 : ℕ)
    → read_uvarint (t ∷ rest) 1 ≡ some (b, i1)
    → read_uvarint (t ∷ rest) i1 ≡ some (ks, i2)
    → read_uvarint (t ∷ rest) i2 ≡ some (vs, i3)
    → read_uvarint (t ∷ rest) i3 ≡ some (e, i4)
    → read_bytes (t ∷ rest) i4 (from_zigzag ks) ≡ some (key, i5)
    → read_bytes (t ∷ rest) i5 (from_zigzag vs) ≡ some (value, i6)
    → decode_log_record (t ∷ rest)
      ≡ some (record {
        key = key;
        value = value;
        record_type = t;
        batch_id = b;
        expire = from_zigzag e;
      })
unfolding decode_log_record
decode_steps t rest key value b i1 ks i2 vs i3 e i4 i5 i6 h1 h2 h3 h4 h5 h6 = ground arith

-- The encoded record cut at the places where decodeLogRecord reads.
module _ (h a b c d k w : Bytes) where
  abbrev whole : Bytes
  whole = h ++ ((a ++ (b ++ (c ++ d))) ++ (k ++ w))

  cut_1 : whole ≡ h ++ (a ++ (b ++ (c ++ (d ++ (k ++ w)))))
  cut_1 = simp append_assoc

  cut_2 : whole ≡ (h ++ a) ++ (b ++ (c ++ (d ++ (k ++ w))))
  cut_2 = simp append_assoc

  cut_3 : whole ≡ ((h ++ a) ++ b) ++ (c ++ (d ++ (k ++ w)))
  cut_3 = simp append_assoc

  cut_4 : whole ≡ (((h ++ a) ++ b) ++ c) ++ (d ++ (k ++ w))
  cut_4 = simp append_assoc

  cut_5 : whole ≡ ((((h ++ a) ++ b) ++ c) ++ d) ++ (k ++ w)
  cut_5 = simp append_assoc

  cut_6 : whole ≡ (((((h ++ a) ++ b) ++ c) ++ d) ++ k) ++ (w ++ [])
  cut_6 = simp (append_assoc, append-nil)

cut_lengths :
    (h a b c d k : Bytes)
    → (length (h ++ a) ≡ length h + length a)
      × (length ((h ++ a) ++ b) ≡ length h + length a + length b)
      × (length (((h ++ a) ++ b) ++ c) ≡ length h + length a + length b + length c)
      × (length ((((h ++ a) ++ b) ++ c) ++ d)
          ≡ length h + length a + length b + length c + length d)
      × (length (((((h ++ a) ++ b) ++ c) ++ d) ++ k)
          ≡ length h + length a + length b + length c + length d + length k)
cut_lengths h a b c d k = omega (
  arith,
  length-append h a,
  length-append (h ++ a) b,
  length-append ((h ++ a) ++ b) c,
  length-append (((h ++ a) ++ b) ++ c) d,
  length-append ((((h ++ a) ++ b) ++ c) ++ d) k,
)

read_uvarint-cut :
    (buf pre rest : Bytes) (v : ℕ)
    → buf ≡ pre ++ (put_uvarint v ++ rest)
    → v < 2 ^ 64
    → length pre + 10 < 2 ^ 32
    → read_uvarint buf (length pre) ≡ some (v, length (pre ++ put_uvarint v))
read_uvarint-cut buf pre rest v e h k = rw e (read_uvarint-put pre rest v h k)

read_bytes-cut :
    (buf pre mid rest : Bytes) (z : ℤ)
    → buf ≡ pre ++ (mid ++ rest)
    → z ≡ pos (length mid)
    → length pre + length mid < 2 ^ 32
    → read_bytes buf (length pre) z ≡ some (mid, length (pre ++ mid))
read_bytes-cut buf pre mid rest z e f h = rw (e, f) (read_bytes-put pre mid rest h)

-- decodeLogRecord does not panic on what encodeLogRecord wrote, and gives back every field.
pub decode-record_header :
    (r : LogRecord)
    → IsEncodable r
    → decode_log_record (record_header r ++ (r.key ++ r.value)) ≡ some r
decode-record_header r v =
    decode_steps r.record_type (body ++ (r.key ++ r.value)) r.key r.value r.batch_id
      (length (h ++ a)) ks (length ((h ++ a) ++ b)) vs (length (((h ++ a) ++ b) ++ c)) ex
      (length ((((h ++ a) ++ b) ++ c) ++ d)) (length (((((h ++ a) ++ b) ++ c) ++ d) ++ r.key)) _
      (read_uvarint-cut _ h _ r.batch_id (cut_1 h a b c d r.key r.value) v.batch
        (omega (arith, lengths, cut_lengths h a b c d r.key)))
      (read_uvarint-cut _ (h ++ a) _ ks (cut_2 h a b c d r.key r.value)
        (to_zigzag-lt (pos (length r.key))) (omega (arith, lengths, cut_lengths h a b c d r.key)))
      (read_uvarint-cut _ ((h ++ a) ++ b) _ vs (cut_3 h a b c d r.key r.value)
        (to_zigzag-lt (pos (length r.value))) (omega (arith, lengths, cut_lengths h a b c d r.key)))
      (read_uvarint-cut _ (((h ++ a) ++ b) ++ c) _ ex (cut_4 h a b c d r.key r.value)
        (to_zigzag-lt r.expire) (omega (arith, lengths, cut_lengths h a b c d r.key)))
      (read_bytes-cut _ ((((h ++ a) ++ b) ++ c) ++ d) r.key r.value _
        (cut_5 h a b c d r.key r.value) (from_zigzag-to_zigzag (pos (length r.key)) (omega arith))
        (omega (arith, lengths, cut_lengths h a b c d r.key)))
      (read_bytes-cut _ (((((h ++ a) ++ b) ++ c) ++ d) ++ r.key) r.value [] _
        (cut_6 h a b c d r.key r.value) (from_zigzag-to_zigzag (pos (length r.value)) (omega arith))
        (omega (arith, lengths, cut_lengths h a b c d r.key)))
    ∙ ap (λ x. some (record r { expire = x })) (from_zigzag-to_zigzag r.expire v.expiry)
  where
    ks : ℕ
    ks = to_zigzag (pos (length r.key))

    vs : ℕ
    vs = to_zigzag (pos (length r.value))

    ex : ℕ
    ex = to_zigzag r.expire

    h : Bytes
    h = r.record_type ∷ []

    a : Bytes
    a = put_uvarint r.batch_id

    b : Bytes
    b = put_uvarint ks

    c : Bytes
    c = put_uvarint vs

    d : Bytes
    d = put_uvarint ex

    body : Bytes
    body = a ++ (b ++ (c ++ d))

    lengths :
        (length h ≡ 1)
        × (length h + length a + length b + length c + length d ≤ max_log_record_header_size)
    lengths = (refl, omega (arith, record_header_fits r v, header_parts a b c d))

-- decodeLogRecord gives back the record that encodeLogRecord wrote, and neither of them panics,
-- for every record whose fields are in the range of their Go types and which is below 4 GB.
pub decode-encode :
    (r : LogRecord)
    → IsEncodable r
    → (chunk : Bytes) × (encode_log_record r ≡ some chunk) × (decode_log_record chunk ≡ some r)
decode-encode r v =
    (record_header r ++ (r.key ++ r.value), encode_lem r v, decode-record_header r v)

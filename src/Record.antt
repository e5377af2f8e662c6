-- ===== src/Record.antt =====
-- record.go: the log records, and the bytes that they are on disk.
-- A run-time panic (a slice out of range, a negative length) is `none`.
pub mod Varint
pub mod RoundTrip
pub mod Hint
use distributed_system_proje.Prelude.{
  ℕ, ◌+◌, ◌-◌, ◌/◌, ◌%◌, ◌^◌, ◌≤◌, ◌<◌, Bytes, Bool, ◌&&◌, Option, none, some, List, [], ◌∷◌, ◌++◌,
  leb, ltb, if◌then◌else◌, length, replicate, ◌>>=◌,
}
use distributed_system_proje.Prelude.Int.{
  ℤ, pos, negsuc, zero_ℤ, to_bits, of_bits, ltb_ℤ, leb_ℤ, IsInt64,
}
use Varint.{put_uvarint, uvarint, to_zigzag, from_zigzag, slice_from, slice}

-- `LogRecordType`, a byte, and its three constants
abbrev pub log_record_normal : ℕ
log_record_normal = 0

abbrev pub log_record_deleted : ℕ
log_record_deleted = 1

abbrev pub log_record_batch_finished : ℕ
log_record_batch_finished = 2

-- `LogRecord`
pub record LogRecord : Type 0 where
  pub key : Bytes
  pub value : Bytes
  pub record_type : ℕ
  pub batch_id : ℕ
  pub expire : ℤ

-- `wal.ChunkPosition`, with the types of its fields: uint32, uint32, int64, uint32
pub record ChunkPosition : Type 0 where
  pub segment_id : ℕ
  pub block_number : ℕ
  pub chunk_offset : ℤ
  pub chunk_size : ℕ

-- `IndexRecord`
pub record IndexRecord : Type 0 where
  pub key : Bytes
  pub record_type : ℕ
  pub position : ChunkPosition

-- `IsExpired`
unfoldable pub is_expired : LogRecord → ℤ → Bool
is_expired lr now = ltb_ℤ zero_ℤ lr.expire && leb_ℤ lr.expire now

-- `binary.MaxVarintLen32*2 + binary.MaxVarintLen64*2 + 1`
abbrev pub max_log_record_header_size : ℕ
max_log_record_header_size = 5 + 5 + 10 + 10 + 1

-- What encodeLogRecord writes to the header buffer.
abbrev pub record_header : LogRecord → Bytes
record_header r =
    r.record_type
    ∷ (put_uvarint r.batch_id
        ++ (put_uvarint (to_zigzag (pos (length r.key)))
            ++ (put_uvarint (to_zigzag (pos (length r.value)))
                ++ put_uvarint (to_zigzag r.expire))))

-- A write past the end of the header buffer panics.
unfoldable pub encode_log_record : LogRecord → Option Bytes
encode_log_record r =
    if leb (length (record_header r)) max_log_record_header_size
    then some (record_header r ++ (r.key ++ r.value))
    else none

-- The sum of two `uint32`
abbrev pub add_uint32 : ℕ → ℕ → ℕ
add_uint32 a b = (a + b) % 2 ^ 32

-- `x, n := binary.Uvarint(buf[index:]); index += uint32(n)`
unfoldable pub read_uvarint : Bytes → ℕ → Option (ℕ × ℕ)
read_uvarint buf index = do
  rest ← slice_from buf index
  let (x, n) = uvarint rest
  some (x, add_uint32 index (to_bits n % 2 ^ 32))

-- The longest slice that the Go runtime allocates (`maxAlloc` on a 64-bit machine).
abbrev pub max_alloc : ℕ
max_alloc = 2 ^ 48

-- `make([]byte, n); copy(b, buf[index:index+uint32(n)])`: a length that is negative or past the
-- allocator's limit panics, and what the slice does not fill stays 0.
unfoldable pub read_bytes : Bytes → ℕ → ℤ → Option (Bytes × ℕ)
read_bytes buf index (negsuc n) = none
read_bytes buf index (pos n) = do
  let next = add_uint32 index (n % 2 ^ 32)
  b ← slice buf index next
  if leb n max_alloc then some (b ++ replicate (n - length b) 0, next) else none

-- `decodeLogRecord`
unfoldable pub decode_log_record : Bytes → Option LogRecord
decode_log_record [] = none
decode_log_record (record_type ∷ rest) = do
  let buf = record_type ∷ rest
  (batch_id, index) ← read_uvarint buf 1
  (key_size, index) ← read_uvarint buf index
  (value_size, index) ← read_uvarint buf index
  (expire, index) ← read_uvarint buf index
  (key, index) ← read_bytes buf index (from_zigzag key_size)
  (value, index) ← read_bytes buf index (from_zigzag value_size)
  some (record {
    key = key;
    value = value;
    record_type = record_type;
    batch_id = batch_id;
    expire = from_zigzag expire;
  })

-- `encodeHintRecord`. Its buffer of 25 bytes holds four numbers of their Go types.
unfoldable pub encode_hint_record : Bytes → ChunkPosition → Option Bytes
encode_hint_record key p =
    let head =
      put_uvarint p.segment_id
      ++ (put_uvarint p.block_number
          ++ (put_uvarint (to_bits p.chunk_offset) ++ put_uvarint p.chunk_size)) in
    if leb (length head) 25 then some (head ++ key) else none

-- `idx + n` for an index and a count, both Go ints. Every index is used for a slice next, which
-- panics where it is negative.
abbrev pub add_int : ℕ → ℤ → Option ℕ
add_int idx (pos n) = some (idx + n)
add_int idx (negsuc n) = if ltb n idx then some (idx - n - 1) else none

-- `x, n := binary.Uvarint(buf[idx:]); idx += n`, where idx is an int
unfoldable pub read_hint_uvarint : Bytes → ℕ → Option (ℕ × ℕ)
read_hint_uvarint buf idx = do
  rest ← slice_from buf idx
  let (x, n) = uvarint rest
  next ← add_int idx n
  some (x, next)

-- `decodeHintRecord`
unfoldable pub decode_hint_record : Bytes → Option (Bytes × ChunkPosition)
decode_hint_record buf = do
  (segment_id, idx) ← read_hint_uvarint buf 0
  (block_number, idx) ← read_hint_uvarint buf idx
  (chunk_offset, idx) ← read_hint_uvarint buf idx
  (chunk_size, idx) ← read_hint_uvarint buf idx
  key ← slice_from buf idx
  some (
    key,
    record {
      segment_id = segment_id % 2 ^ 32;
      block_number = block_number % 2 ^ 32;
      chunk_offset = of_bits (chunk_offset % 2 ^ 64);
      chunk_size = chunk_size % 2 ^ 32;
    },
  )

-- `encodeMergeFinRecord`: a uint32, lowest byte first
unfoldable pub encode_merge_fin_record : ℕ → Bytes
encode_merge_fin_record segment_id =
    (segment_id % 256)
    ∷ (segment_id / 2 ^ 8 % 256)
    ∷ (segment_id / 2 ^ 16 % 256)
    ∷ (segment_id / 2 ^ 24 % 256)
    ∷ []

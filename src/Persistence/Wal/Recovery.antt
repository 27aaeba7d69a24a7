-- ===== src/Persistence/Wal/Recovery.antt =====
-- open_and_recover of src/persistence/wal.cpp, on a log of whole records and what stands behind it.
use distributed_data_store.Prelude.{
  ℕ, ◌+◌, ◌-◌, ◌%◌, ◌^◌, ◌≤◌, ◌<◌, ◌≡◌, ◌++◌, append_assoc, arith, Bytes, length, take,
  length-append, length-take, take-append, take-length-append, drop-length-append, ltb, Bool-cases,
  inl, inr,
}
use distributed_data_store.Persistence.Result.{ok, undefined}
use distributed_data_store.Persistence.Binary.{append_u16, append_u32, append_u64, append_le}
use distributed_data_store.Persistence.Binary.RoundTrip.{
  read_u16-append, read_u32-append, read_u64-append, length-append_le,
}
use distributed_data_store.Persistence.Crc32.{crc32}
use distributed_data_store.Persistence.Crc32.Incremental.{crc32-lt}
use distributed_data_store.Persistence.Wal.{
  WalRecord, opcode_value, opcode_of, encode_record_body, encode_record, decode_body, accept, throw,
  check_crc, check_body, examine, stop, take_record,
}

-- A record whose fields fit the format, and whose length the reader's uint32_t sums can hold.
pub record IsRecord (r : WalRecord) : Type 0 where
  pub offset_fits : r.offset < 2 ^ 64
  pub opcode_fits : opcode_value r.opcode < 2 ^ 16
  pub opcode_known : opcode_of (opcode_value r.opcode) ≡ r.opcode
  pub payload_fits : length r.payload + 18 < 2 ^ 32

length-append_u32 : (v : ℕ) → length (append_u32 v) ≡ 4
unfolding append_u32
length-append_u32 v = length-append_le 4 v

abbrev body_of : WalRecord → Bytes
body_of r = encode_record_body r.offset r.opcode r.payload

length-body : (r : WalRecord) → length (body_of r) ≡ 10 + length r.payload
unfolding encode_record_body append_u64 append_u16
length-body r = omega (
  arith,
  length-append (append_le 8 r.offset) (append_le 2 (opcode_value r.opcode) ++ r.payload),
  length-append (append_le 2 (opcode_value r.opcode)) r.payload,
  length-append_le 8 r.offset,
  length-append_le 2 (opcode_value r.opcode),
)

pub length-encode_record : (r : WalRecord) → length (encode_record r) ≡ 18 + length r.payload
unfolding encode_record
length-encode_record r = omega (
  arith,
  length-append (append_u32 (length (body_of r) % 2 ^ 32))
      (body_of r ++ append_u32 (crc32 (body_of r))),
  length-append (body_of r) (append_u32 (crc32 (body_of r))),
  length-append_u32 (length (body_of r) % 2 ^ 32),
  length-append_u32 (crc32 (body_of r)),
  length-body r,
)

pub decode_body-encode : {r : WalRecord} → IsRecord r → decode_body (body_of r) ≡ ok r
unfolding decode_body encode_record_body
decode_body-encode {r} h = rw (
  read_u64-append r.offset (append_u16 (opcode_value r.opcode) ++ r.payload) h.offset_fits,
  read_u16-append (opcode_value r.opcode) r.payload h.opcode_fits,
  h.opcode_known,
)

-- A length field, then what it counts.
framed :
    (r : WalRecord) (rest : Bytes)
    → encode_record r ++ rest
      ≡ append_u32 (length (body_of r) % 2 ^ 32)
        ++ (body_of r ++ (append_u32 (crc32 (body_of r)) ++ rest))
unfolding encode_record
framed r rest = simp append_assoc

check_body-whole :
    (last : ℕ) (body rest : Bytes)
    → 10 ≤ length body
    → length body + 8 < 2 ^ 32
    → check_body last (ok (length body, body ++ (append_u32 (crc32 body) ++ rest)))
      ≡ accept last (length body + 8) (decode_body body)
unfolding check_body check_crc
check_body-whole last body rest lo hi =
    let long = length-append body (append_u32 (crc32 body) ++ rest) in
    let more = length-append (append_u32 (crc32 body)) rest in
    let four = length-append_u32 (crc32 body) in
    rw
      (
        take-length-append body (append_u32 (crc32 body) ++ rest),
        drop-length-append body (append_u32 (crc32 body) ++ rest),
        read_u32-append (crc32 body) rest (crc32-lt body),
      )
      (ground (arith, long, more, four))

-- The loop takes a whole record whose offset is above the last one.
pub examine-record :
    {r : WalRecord} (rest : Bytes) (last : ℕ)
    → IsRecord r
    → last < r.offset
    → examine (encode_record r ++ rest) last ≡ take_record r (length (encode_record r))
unfolding examine accept
examine-record {r} rest last h up =
    let size = length-body r in
    let four = length-append_u32 (length (body_of r) % 2 ^ 32) in
    let all = length-encode_record r in
    let small : length (body_of r) % 2 ^ 32 ≡ length (body_of r) = omega arith in
    rw
      (
        framed r rest,
        read_u32-append (length (body_of r) % 2 ^ 32)
            (body_of r ++ (append_u32 (crc32 (body_of r)) ++ rest)) (omega arith),
        small,
        check_body-whole last (body_of r) rest (omega arith) (omega arith),
        decode_body-encode h,
      )
      (ground (
        arith,
        length-append (append_u32 (length (body_of r)))
            (body_of r ++ (append_u32 (crc32 (body_of r)) ++ rest)),
        length-append_u32 (length (body_of r)),
      ))

check_body-short :
    (last len : ℕ) (probe : Bytes)
    → len + 4 < 2 ^ 32
    → length probe < len + 4
    → check_body last (ok (len, probe)) ≡ stop
unfolding check_body
check_body-short last len probe hi short = ground arith

examine-cut :
    (last n len : ℕ) (probe : Bytes)
    → len + 4 < 2 ^ 32
    → length probe ≤ len + 4
    → n < 4 + length probe
    → examine (take n (append_u32 len ++ probe)) last ≡ stop
unfolding examine
examine-cut last n len probe hi full short = elim (Bool-cases (ltb n 4)) [
  | inl few ↦ ground (arith, length-take n (append_u32 len ++ probe))
  | inr many ↦
      let four = length-append_u32 len in
      rw
        (
          take-append n (append_u32 len) probe (ground arith),
          read_u32-append len (take (n - length (append_u32 len)) probe) (omega arith),
          check_body-short last len (take (n - length (append_u32 len)) probe) hi
              (ground (arith, length-take (n - length (append_u32 len)) probe)),
        )
        (ground arith)
]

-- The loop stops at a record that was cut short, wherever the cut is.
pub examine-torn :
    {r : WalRecord} (n last : ℕ)
    → IsRecord r
    → n < length (encode_record r)
    → examine (take n (encode_record r)) last ≡ stop
unfolding encode_record
examine-torn {r} n last h short =
    let size = length-body r in
    let all = length-encode_record r in
    let tail = length-append (body_of r) (append_u32 (crc32 (body_of r))) in
    let four = length-append_u32 (crc32 (body_of r)) in
    examine-cut last n (length (body_of r) % 2 ^ 32) (body_of r ++ append_u32 (crc32 (body_of r)))
      (omega arith) (omega arith) (omega arith)

-- A length of 2^32 - 4 or more wraps in `length + 4U`, so the bound test passes.
pub examine-wrapped :
    (len last : ℕ) (junk : Bytes)
    → 2 ^ 32 - 4 ≤ len
    → len < 2 ^ 32
    → 3 ≤ length junk
    → length junk < len
    → examine (append_u32 len ++ junk) last ≡ throw undefined
unfolding examine check_body
examine-wrapped len last junk lo hi some_bytes short =
    rw (read_u32-append len junk hi)
      (ground (arith, length-append (append_u32 len) junk, length-append_u32 len))

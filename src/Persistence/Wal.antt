-- ===== src/Persistence/Wal.antt =====
-- src/persistence/wal.cpp: the write-ahead log. The file is its bytes; the descriptor stands at
-- their end between calls. `::write` answers from a list that the caller supplies.
pub mod Payload
pub mod Recovery
pub mod Torn
pub mod Append
use distributed_data_store.Prelude.{
  ℕ, zero, suc, ◌+◌, ◌*◌, ◌%◌, ◌^◌, Bool, true, false, ◌||◌, not, [], ◌∷◌, ◌++◌, List, Bytes, text,
  length, take, drop, ltb, leb, ◌==◌, eqb, if◌then◌else◌,
}
use distributed_data_store.Persistence.Result.{
  Result, ok, err, Error, truncated, unsupported_version, offsets_not_increasing, not_open,
  undefined, bind,
}
use distributed_data_store.Persistence.Binary.{
  append_u16, append_u32, append_u64, read_u16, read_u32, read_u64,
}
use distributed_data_store.Persistence.Crc32.{crc32}

-- enum class WalOpcode : uint16_t, which can hold any 16-bit value.
pub data WalOpcode : Type 0 where
  set del expire : WalOpcode
  other : ℕ → WalOpcode

unfoldable pub opcode_value : WalOpcode → ℕ
opcode_value set = 1
opcode_value del = 2
opcode_value expire = 3
opcode_value (other n) = n

unfoldable pub opcode_of : ℕ → WalOpcode
opcode_of n = if n == 1 then set else if n == 2 then del else if n == 3 then expire else other n

pub record WalRecord : Type 0 where
  pub offset : ℕ
  pub opcode : WalOpcode
  pub payload : Bytes

pub record WalWriter : Type 0 where
  pub is_open : Bool
  pub file : Bytes
  -- the content at the last fsync since the file was opened
  pub durable : Bytes
  pub last_offset : ℕ

-- What one call of `::write` answers.
pub data WriteResult : Type 0 where
  wrote : ℕ → WriteResult
  interrupted failed : WriteResult

-- How write_all ends: it returns, throws errno, throws "short write", or still waits for an answer.
pub data WriteStatus : Type 0 where
  written os_error short_write waiting : WriteStatus

-- The status, and the bytes that reached the file.
unfoldable pub write_all : List WriteResult → Bytes → WriteStatus × Bytes
write_all answers [] = (written, [])
write_all [] (b ∷ bytes) = (waiting, [])
write_all (interrupted ∷ answers) (b ∷ bytes) = write_all answers (b ∷ bytes)
write_all (failed ∷ answers) (b ∷ bytes) = (os_error, [])
write_all (wrote zero ∷ answers) (b ∷ bytes) = (short_write, [])
write_all (wrote (suc n) ∷ answers) (b ∷ bytes) =
    let (status, rest) = write_all answers (drop n bytes) in (status, b ∷ (take n bytes ++ rest))

unfoldable pub encode_record_body : ℕ → WalOpcode → Bytes → Bytes
encode_record_body offset opcode payload =
    append_u64 offset ++ (append_u16 (opcode_value opcode) ++ payload)

-- The bytes that `append` hands to write_all.
unfoldable pub encode_record : WalRecord → Bytes
encode_record r =
    let body = encode_record_body r.offset r.opcode r.payload in
    append_u32 (length body % 2 ^ 32) ++ (body ++ append_u32 (crc32 body))

abbrev pub magic : Bytes
magic = text "NCWAL" ++ (0 ∷ 0 ∷ 0 ∷ [])

abbrev pub version : ℕ
version = 1

-- write_header_unlocked
unfoldable pub header : Bytes
header = magic ++ (append_u32 version ++ append_u32 0)

-- One round of the loop in open_and_recover.
pub data Step : Type 0 where
  stop : Step
  throw : Error → Step
  take_record : WalRecord → ℕ → Step

-- `offset`, `opcode` and the rest of a body whose checksum is right.
unfoldable pub decode_body : Bytes → Result WalRecord
decode_body body = bind (read_u64 body) λ (offset, view).
    bind (read_u16 view)
      λ (code, payload). ok (record { offset = offset; opcode = opcode_of code; payload = payload })

unfoldable pub accept : ℕ → ℕ → Result WalRecord → Step
accept last consumed (err e) = throw e
accept last consumed (ok r) =
    if leb r.offset last then throw offsets_not_increasing else take_record r consumed

unfoldable pub check_crc : ℕ → ℕ → Bytes → Result (ℕ × Bytes) → Step
check_crc last consumed body (err e) = throw e
check_crc last consumed body (ok (expected, rest)) =
    if not (expected == crc32 body) then stop else accept last consumed (decode_body body)

-- `length + 4U` and `4U + length + 4U` are computed in uint32_t. Moving the view past its end is
-- undefined.
unfoldable pub check_body : ℕ → Result (ℕ × Bytes) → Step
check_body last (err e) = stop
check_body last (ok (len, probe)) =
    if ltb len 10 || ltb (length probe) ((len + 4) % 2 ^ 32)
    then stop
    else if ltb (length probe) len
    then throw undefined
    else let consumed = (4 + len + 4) % 2 ^ 32 in
      check_crc last consumed (take len probe) (read_u32 (drop len probe))

unfoldable pub examine : Bytes → ℕ → Step
examine cursor last = if ltb (length cursor) 4 then stop else check_body last (read_u32 cursor)

-- The records, `valid_end` and `last_offset_` at the end of the loop.
pub record Scan : Type 0 where
  pub records : List WalRecord
  pub valid_end : ℕ
  pub last_offset : ℕ

abbrev pub push_front : WalRecord → Scan → Scan
push_front r s = record s { records = r ∷ s.records }

-- Each round takes at least 18 bytes off the cursor, so its length is fuel enough.
unfoldable pub scan : ℕ → Bytes → ℕ → ℕ → Result Scan
scan zero cursor valid_end last =
    ok (record { records = []; valid_end = valid_end; last_offset = last })
scan (suc fuel) cursor valid_end last = elim (examine cursor last) [
  | stop ↦ ok (record { records = []; valid_end = valid_end; last_offset = last })
  | throw e ↦ err e
  | take_record r consumed ↦
      bind (scan fuel (drop consumed cursor) (valid_end + consumed) r.offset)
        λ s. ok (push_front r s)
]

abbrev reopened : Bytes → Bytes → ℕ → WalWriter
reopened file durable last = record {
  is_open = true;
  file = file;
  durable = durable;
  last_offset = last;
}

-- A torn tail is cut off, and the cut made durable.
unfoldable pub finish_open : Bytes → Scan → Result (List WalRecord × WalWriter)
finish_open file s =
    if length file == s.valid_end
    then ok (s.records, reopened file [] s.last_offset)
    else let kept = take s.valid_end file in ok (s.records, reopened kept kept s.last_offset)

abbrev starts_with : Bytes → Bytes → Bool
starts_with file prefix = eqb (take (length prefix) file) prefix

unfoldable pub recover_versioned : Bytes → Result (ℕ × Bytes) → Result (List WalRecord × WalWriter)
recover_versioned file (err e) = err e
recover_versioned file (ok (file_version, rest)) = bind (read_u32 rest) λ (reserved, cursor).
    if not (file_version == version)
    then err unsupported_version
    else bind (scan (length cursor) cursor 16 0) λ s. finish_open file s

-- A short file, or one with another magic, is replaced by an empty log.
unfoldable pub open_and_recover : Bytes → Result (List WalRecord × WalWriter)
open_and_recover file =
    if ltb (length file) 16 || not (starts_with file magic)
    then ok ([], reopened header [] 0)
    else recover_versioned file (read_u32 (drop 8 file))

-- The offset of the new record, or how `append` threw.
pub data AppendResult : Type 0 where
  appended : ℕ → AppendResult
  append_failed : WriteStatus → AppendResult
  append_not_open : AppendResult

-- What write_all wrote stays in the file, also when it throws; `last_offset_` then stays too.
unfoldable pub finish_append : WalWriter → ℕ → WriteStatus × Bytes → AppendResult × WalWriter
finish_append wal offset (written, bytes) =
    (appended offset, record wal { file = wal.file ++ bytes; last_offset = offset })
finish_append wal offset (status, bytes) =
    (append_failed status, record wal { file = wal.file ++ bytes })

abbrev pub next_record : WalWriter → WalOpcode → Bytes → WalRecord
next_record wal opcode payload = record {
  offset = (wal.last_offset + 1) % 2 ^ 64;
  opcode = opcode;
  payload = payload;
}

unfoldable pub append : List WriteResult → WalWriter → WalOpcode → Bytes → AppendResult × WalWriter
append answers wal opcode payload =
    if wal.is_open
    then finish_append wal (next_record wal opcode payload).offset
        (write_all answers (encode_record (next_record wal opcode payload)))
    else (append_not_open, wal)

unfoldable pub sync : WalWriter → Result WalWriter
sync wal = if wal.is_open then ok (record wal { durable = wal.file }) else err not_open

unfoldable pub truncate_after : ℕ → WalWriter → Result WalWriter
truncate_after last_included wal =
    if wal.is_open
    then ok (record wal { file = header; durable = header; last_offset = last_included })
    else err not_open

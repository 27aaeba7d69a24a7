-- ===== src/Persistence/Examples.antt =====
-- The theorems about the persistence at small logs and snapshots.
use distributed_data_store.Prelude.{◌≡◌, refl, some, List, [], ◌∷◌, ◌++◌, text, take, arith}
use distributed_data_store.Persistence.Result.{ok, err, undefined}
use distributed_data_store.Persistence.Binary.{append_le, append_u16, append_u32, append_u64}
use distributed_data_store.Persistence.Crc32.{crc32, crc32_update, crc_loop}
use distributed_data_store.Persistence.Crc32.Incremental.{}
use distributed_data_store.Persistence.Wal.{
  set, WalRecord, WalWriter, encode_record, WriteResult, wrote, interrupted, failed, write_all,
  open_and_recover, append, appended, next_record, opcode_value, opcode_of, finish_append,
  encode_record_body,
}
use distributed_data_store.Persistence.Wal.Recovery.{IsRecord, length-encode_record}
use distributed_data_store.Persistence.Wal.Torn.{
  Increasing, log_file, reopened_at, open_and_recover-log_file, open_and_recover-torn,
  open_and_recover-wrapped,
}
use distributed_data_store.Persistence.Wal.Append.{
  Outcome, write_all-Outcome, IsLog, surviving, recovered, append_crash_safe,
}

-- Two records, the second with a gap in the offsets before it.
abbrev first_record : WalRecord
first_record = record { offset = 1; opcode = set; payload = text "one" }

abbrev second_record : WalRecord
second_record = record { offset = 4; opcode = set; payload = text "two" }

first_record-IsRecord : IsRecord first_record
unfolding opcode_value opcode_of
first_record-IsRecord = record {
  offset_fits = omega arith;
  opcode_fits = omega arith;
  opcode_known = refl;
  payload_fits = omega arith;
}

second_record-IsRecord : IsRecord second_record
unfolding opcode_value opcode_of
second_record-IsRecord = record {
  offset_fits = omega arith;
  opcode_fits = omega arith;
  opcode_known = refl;
  payload_fits = omega arith;
}

abbrev one_record : List WalRecord
one_record = first_record ∷ []

one_record-Increasing : Increasing 0 one_record
one_record-Increasing = (omega arith, tt)

open_and_recover-log_file_example :
    open_and_recover (log_file (first_record ∷ second_record ∷ []))
    ≡ ok (
      first_record ∷ second_record ∷ [],
      reopened_at
          (log_file (first_record ∷ second_record ∷ []))
          []
          (first_record ∷ second_record ∷ []),
    )
open_and_recover-log_file_example =
    open_and_recover-log_file (first_record ∷ second_record ∷ [])
      (first_record-IsRecord, (second_record-IsRecord, tt)) (omega arith, (omega arith, tt))

open_and_recover-torn_example :
    open_and_recover (log_file one_record ++ take 20 (encode_record second_record))
    ≡ ok (one_record, reopened_at (log_file one_record) (log_file one_record) one_record)
open_and_recover-torn_example =
    open_and_recover-torn one_record second_record 20 (first_record-IsRecord, tt)
      one_record-Increasing second_record-IsRecord (omega arith)
      (omega (arith, length-encode_record second_record))

open_and_recover-wrapped_example :
    open_and_recover (log_file one_record ++ (append_u32 4294967295 ++ text "abc")) ≡ err undefined
open_and_recover-wrapped_example =
    open_and_recover-wrapped one_record 4294967295 (text "abc") (first_record-IsRecord, tt)
      one_record-Increasing (omega arith) (omega arith) (omega arith) (omega arith)

-- A signal, half of the bytes, and then an error.
abbrev answers : List WriteResult
answers = interrupted ∷ wrote 5 ∷ failed ∷ []

write_all-Outcome_example :
    Outcome
      (write_all answers (text "payload")).0
      (write_all answers (text "payload")).1
      (text "payload")
write_all-Outcome_example = write_all-Outcome answers (text "payload")

abbrev open_writer : WalWriter
open_writer = reopened_at (log_file one_record) [] one_record

open_writer-IsLog : IsLog open_writer one_record
open_writer-IsLog = record {
  opened = refl;
  content = refl;
  offsets = refl;
  fits = (first_record-IsRecord, tt);
  increasing = one_record-Increasing;
}

next-IsRecord : IsRecord (next_record open_writer set (text "two"))
unfolding opcode_value opcode_of
next-IsRecord = record {
  offset_fits = omega arith;
  opcode_fits = omega arith;
  opcode_known = refl;
  payload_fits = omega arith;
}

-- 21 bytes are written in two calls.
abbrev whole_write : List WriteResult
whole_write = wrote 20 ∷ wrote 1 ∷ []

append_two : (append whole_write open_writer set (text "two")).0 ≡ appended 2
unfolding append finish_append write_all encode_record encode_record_body append_u64 append_u32
    append_u16 append_le crc32 crc32_update crc_loop opcode_value
append_two = refl

append_crash_safe_example :
    recovered (open_and_recover (append answers open_writer set (text "two")).1.file)
    ≡ some (
        surviving
          (append answers open_writer set (text "two")).0
          one_record
          (next_record open_writer set (text "two")))
append_crash_safe_example =
    append_crash_safe open_writer one_record set (text "two") open_writer-IsLog (omega arith)
      next-IsRecord answers

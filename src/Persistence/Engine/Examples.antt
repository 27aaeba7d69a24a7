-- ===== src/Persistence/Engine/Examples.antt =====
-- The theorems about the engine at a small snapshot and a small log.
use distributed_data_store.Prelude.{
  ℕ, ◌≡◌, refl, none, some, Option, List, [], ◌∷◌, ◌++◌, text, length, arith, All, pos, negsuc,
}
use distributed_data_store.Store.{
  int_value, set_value, Entry, PersistedEntry, Store, Platform, Reading, find_entry,
}
use distributed_data_store.Persistence.Result.{ok, bind}
use distributed_data_store.Persistence.Binary.{
  append_le, append_u8, append_u16, append_u32, append_u64, append_i64, append_bytes,
}
use distributed_data_store.Persistence.Crc32.{crc32, crc32_update, crc_loop}
use distributed_data_store.Persistence.Wal.{
  WalWriter, encode_record, WriteResult, wrote, write_all, sync, append, opcode_value,
  finish_append, encode_record_body,
}
use distributed_data_store.Persistence.Wal.Torn.{log_file, reopened_at}
use distributed_data_store.Store.Read.{trunc_div}
use distributed_data_store.Persistence.Snapshot.{read, write, to_unix_ms}
use distributed_data_store.Persistence.Wal.Payload.{
  encode_set_payload, encode_expiry, encode_keys, encode_del_payload, encode_expire_payload,
}
use distributed_data_store.Persistence.Snapshot.RoundTrip.{IsEntry, rounded_entries, read-write}
use distributed_data_store.Persistence.Engine.{
  always, Engine, read_change, recover_into, loaded, snapshot_offset_of, entries_of,
}
use distributed_data_store.Persistence.Engine.Durable.{log_record, after_append, durability_action}
use distributed_data_store.Persistence.Engine.Replay.{
  Command, set_command, del_command, expire_command, opcode_for, payload_for, change_for,
  read_change-payload, IsSmall, records_from, records_from-IsRecord, from_snapshot,
}
use distributed_data_store.Persistence.Engine.View.{run_view, import_view, recover_into-run_view}
use distributed_data_store.Persistence.Engine.Restart.{
  IsSynced, HasCommands, log_record-HasCommands, log_of, recover_into-log_record, recover_into-lost,
}

-- A snapshot of a number, and of a set with a deadline.
abbrev entries : List PersistedEntry
entries =
    record { key = text "n"; value = int_value (negsuc 2); expiry_wall = none }
    ∷ record {
      key = text "s";
      value = set_value (text "x" ∷ text "y" ∷ []);
      expiry_wall = some (pos 1_999_999);
    }
    ∷ []

entries-IsEntry : All IsEntry entries
unfolding to_unix_ms trunc_div
entries-IsEntry = (
  record { key_fits = omega arith; value_fits = omega arith; deadline_fits = tt },
  (
    record {
      key_fits = omega arith;
      value_fits = (omega arith, (omega arith, (omega arith, tt)), (refl, (refl, tt)));
      deadline_fits = omega arith;
    },
    tt,
  ),
)

read-write_example : read (write 7 entries) ≡ some (7, rounded_entries entries)
read-write_example = read-write 7 entries (omega arith) (omega arith) entries-IsEntry

abbrev platform : Platform
platform = record { hash = length; entry_size = 64 }

abbrev empty_store : Store
empty_store = record { shards = [] ∷ [] ∷ []; approximate_memory = 0; expired_keys = 0 }

abbrev first_command : Command
first_command = set_command (text "a") (text "1")

abbrev second_command : Command
second_command = del_command (text "a" ∷ text "b" ∷ [])

abbrev third_command : Command
third_command = expire_command (text "c") (pos 1_000)

first_command-IsSmall : IsSmall first_command
unfolding payload_for encode_set_payload encode_expiry append_bytes append_u32 append_u8 append_le
first_command-IsSmall = ((omega arith, omega arith), omega arith)

second_command-IsSmall : IsSmall second_command
unfolding payload_for encode_del_payload encode_keys append_bytes append_u32 append_le
second_command-IsSmall = ((omega arith, (omega arith, (omega arith, tt))), omega arith)

third_command-IsSmall : IsSmall third_command
unfolding payload_for encode_expire_payload append_bytes append_u32 append_i64 append_u64 append_le
third_command-IsSmall = ((omega arith, omega arith), omega arith)

read_change-payload_example :
    read_change (opcode_for third_command) (payload_for third_command)
    ≡ ok (change_for third_command, [])
read_change-payload_example = read_change-payload third_command third_command-IsSmall.0

-- An engine whose snapshot was taken after one command.
abbrev engine : Engine
engine = record {
  fsync = always;
  snapshot_interval = 0;
  next_snapshot_at = pos 0;
  wal = none;
  snapshot = some (write 1 entries);
}

engine-offset : snapshot_offset_of (loaded engine.snapshot) ≡ 1
engine-offset = rw (read-write 1 entries (omega arith) (omega arith) entries-IsEntry) refl

abbrev import_clock : ℕ → Reading
import_clock t = record { now = pos 0; wall_now = pos 0 }

abbrev replay_clock : ℕ → Reading × Reading
replay_clock t =
    (record { now = pos t; wall_now = pos t }, record { now = pos t; wall_now = pos t })

recover_into-run_view_example :
    bind {B = Option Entry × Engine}
      (recover_into platform import_clock replay_clock
        (log_file (records_from 0 (first_command ∷ second_command ∷ [])))
        engine
        empty_store)
      (λ (s', e'). ok (find_entry platform (text "n") s', e'))
    ≡ ok (
      run_view platform replay_clock 1
          (second_command ∷ [])
          (import_view platform import_clock 0 (entries_of (loaded engine.snapshot)) (λ key. none))
          (text "n"),
      record engine {
        wal = some (
            reopened_at
              (log_file (records_from 0 (first_command ∷ second_command ∷ [])))
              []
              (records_from 0 (first_command ∷ second_command ∷ [])));
      },
    )
recover_into-run_view_example =
    recover_into-run_view platform import_clock replay_clock (first_command ∷ [])
      (second_command ∷ []) engine empty_store (text "n") (omega arith)
      (first_command-IsSmall, (second_command-IsSmall, tt)) (omega arith) engine-offset

abbrev logged : List Command
logged = first_command ∷ second_command ∷ []

abbrev writer : WalWriter
writer = reopened_at (log_file (records_from 0 logged)) [] (records_from 0 logged)

logged-IsSmall : All IsSmall logged
logged-IsSmall = (first_command-IsSmall, (second_command-IsSmall, tt))

writer-HasCommands : HasCommands writer logged
writer-HasCommands = record {
  opened = refl;
  content = refl;
  offsets = refl;
  fits = records_from-IsRecord 0 logged logged-IsSmall (omega arith);
  increasing = (omega arith, (omega arith, tt));
}

-- One call takes all the bytes.
abbrev one_call : List WriteResult
one_call = wrote 1000 ∷ []

log_record_third :
    (log_record one_call
      (opcode_for third_command)
      (payload_for third_command)
      engine
      (some writer)).0
    ≡ ok tt
unfolding log_record after_append durability_action sync append finish_append write_all
    encode_record encode_record_body append_u64 append_u32 append_u16 append_le crc32 crc32_update
    crc_loop opcode_value opcode_for payload_for encode_expire_payload append_bytes append_i64
log_record_third = refl

log_record-HasCommands_example :
    (w : WalWriter) × ((log_record one_call
        (opcode_for third_command)
        (payload_for third_command)
        engine
        (some writer)).1
      ≡ record engine { wal = some w })
    × HasCommands w (logged ++ third_command ∷ [])
    × IsSynced engine.fsync w
log_record-HasCommands_example =
    log_record-HasCommands one_call writer logged third_command writer-HasCommands (omega arith)
      third_command-IsSmall engine log_record_third

recover_into-log_record_example :
    bind
      (recover_into platform import_clock replay_clock
        (log_of
          (log_record one_call
            (opcode_for third_command)
            (payload_for third_command)
            engine
            (some writer)).1)
        (log_record one_call
          (opcode_for third_command)
          (payload_for third_command)
          engine
          (some writer)).1
        empty_store)
      (λ (s', e'). ok (find_entry platform (text "s") s'))
    ≡ ok (
        run_view platform replay_clock 1
          (second_command ∷ third_command ∷ [])
          (import_view platform import_clock 0 (rounded_entries entries) (λ key. none))
          (text "s"))
recover_into-log_record_example =
    recover_into-log_record platform import_clock replay_clock one_call writer (first_command ∷ [])
      (second_command ∷ []) third_command engine entries empty_store (text "s") (omega arith)
      writer-HasCommands
      (first_command-IsSmall, (second_command-IsSmall, (third_command-IsSmall, tt))) (omega arith)
      (refl, omega arith, omega arith, entries-IsEntry) log_record_third

log_record_again :
    (log_record one_call
      (opcode_for third_command)
      (payload_for third_command)
      engine
      (some (reopened_at (log_file []) [] []))).0
    ≡ ok tt
unfolding log_record after_append durability_action sync append finish_append write_all
    encode_record encode_record_body append_u64 append_u32 append_u16 append_le crc32 crc32_update
    crc_loop opcode_value opcode_for payload_for encode_expire_payload append_bytes append_i64
log_record_again = refl

recover_into-lost_example :
    bind
      (recover_into platform import_clock replay_clock
        (log_of
          (log_record one_call
            (opcode_for third_command)
            (payload_for third_command)
            engine
            (some (reopened_at (log_file []) [] []))).1)
        (log_record one_call
          (opcode_for third_command)
          (payload_for third_command)
          engine
          (some (reopened_at (log_file []) [] []))).1
        empty_store)
      (λ (s', e'). ok s')
    ≡ ok (from_snapshot platform import_clock engine empty_store)
recover_into-lost_example =
    recover_into-lost platform import_clock replay_clock one_call third_command engine empty_store
      third_command-IsSmall (omega (arith, engine-offset)) log_record_again

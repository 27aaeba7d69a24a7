-- ===== src/Persistence/Engine/Restart.antt =====
-- The logging of a command in src/persistence/engine.cpp, and the next recovery.
use distributed_data_store.Prelude.{
  ℕ, ◌+◌, ◌^◌, ◌<◌, ◌≡◌, refl, none, some, List, [], ◌∷◌, ◌++◌, append_assoc, Bytes, length, arith,
  All, ◌∙◌, ap, length-append,
}
use distributed_data_store.Store.{PersistedEntry, Store, Platform, Reading, find_entry}
use distributed_data_store.Store.Lookup.{HasShards}
use distributed_data_store.Persistence.Snapshot.RoundTrip.{rounded_entries}
use distributed_data_store.Persistence.Result.{ok, bind}
use distributed_data_store.Persistence.Wal.{
  WalRecord, WalWriter, WriteResult, AppendResult, appended, append_failed, append_not_open, append,
  sync, next_record,
}
use distributed_data_store.Persistence.Wal.Torn.{log_file, final_offset, reopened_at}
use distributed_data_store.Persistence.Wal.Append.{IsLog, append-IsLog}
use distributed_data_store.Persistence.Engine.{
  FsyncMode, always, everysec, never, Engine, recover_into, loaded, snapshot_offset_of,
}
use distributed_data_store.Persistence.Engine.Durable.{durability_action, after_append, log_record}
use distributed_data_store.Persistence.Engine.Replay.{
  Command, opcode_for, payload_for, IsSmall, records_from, records_from-IsRecord, IsSmall-drop,
  from_snapshot, recover_into-run_all, recover_into-skipped,
}
use distributed_data_store.Persistence.Engine.View.{
  run_view, import_view, run_all-Shows, import_clear-Shows, HasSnapshot, loaded-HasSnapshot,
}

-- The record of one command.
abbrev record_of : ℕ → Command → WalRecord
record_of offset c = record { offset = offset; opcode = opcode_for c; payload = payload_for c }

records_from-append :
    (start : ℕ) (cs : List Command) (c : Command)
    → records_from start (cs ++ c ∷ [])
      ≡ records_from start cs ++ record_of (start + length cs + 1) c ∷ []
records_from-append start [] c = ap (λ (n : ℕ). record_of n c ∷ []) (omega arith)
records_from-append start (q ∷ cs) c = rw (records_from-append (start + 1) cs c) (
    ap (λ (n : ℕ). record_of (start + 1) q ∷ (records_from (start + 1) cs ++ record_of n c ∷ []))
      (omega arith))

records_from-append_first :
    (cs : List Command) (c : Command)
    → records_from 0 (cs ++ c ∷ []) ≡ records_from 0 cs ++ record_of (length cs + 1) c ∷ []
records_from-append_first cs c =
    records_from-append 0 cs c
    ∙ ap (λ (n : ℕ). records_from 0 cs ++ record_of n c ∷ []) (omega arith)

final_offset-records_from :
    (start : ℕ) (cs : List Command) → final_offset start (records_from start cs) ≡ start + length cs
final_offset-records_from start [] = omega arith
final_offset-records_from start (c ∷ cs) = omega (arith, final_offset-records_from (start + 1) cs)

-- Whether the log of a writer is on the disk, as the mode of the engine wants it after a command.
abbrev pub IsSynced : FsyncMode → WalWriter → Type 0
IsSynced always wal = wal.durable ≡ wal.file
IsSynced _ wal = Unit

-- The writer of a log that holds the records of the commands.
abbrev pub HasCommands : WalWriter → List Command → Type 0
HasCommands wal cs = IsLog wal (records_from 0 cs)

module _ (answers : List WriteResult) (wal : WalWriter) (cs : List Command) (c : Command)
    (log : HasCommands wal cs) (room : length cs + 1 < 2 ^ 64) (small : IsSmall c) where
  next-record_of : next_record wal (opcode_for c) (payload_for c) ≡ record_of (length cs + 1) c
  next-record_of =
      ap (λ (n : ℕ). record_of n c) (omega (arith, log.offsets, final_offset-records_from 0 cs))

  append-HasCommands :
      (offset : ℕ)
      → (append answers wal (opcode_for c) (payload_for c)).0 ≡ appended offset
      → HasCommands (append answers wal (opcode_for c) (payload_for c)).1 (cs ++ c ∷ [])
  append-HasCommands offset h =
      let fits = records_from-IsRecord (length cs) (c ∷ []) (small, tt) (omega arith) in
      let bigger =
        append-IsLog wal (records_from 0 cs) (opcode_for c) (payload_for c) log
          (omega (arith, log.offsets, final_offset-records_from 0 cs)) (rw next-record_of fits.0)
          answers offset h in
      rw (records_from-append_first cs c) (rw next-record_of at bigger)

  after_append-HasCommands :
      (mode : FsyncMode) (result : AppendResult) (w : WalWriter)
      → ((offset : ℕ) → result ≡ appended offset → HasCommands w (cs ++ c ∷ []))
      → (after_append mode (result, w)).0 ≡ ok tt
      → HasCommands (after_append mode (result, w)).1 (cs ++ c ∷ [])
        × IsSynced mode (after_append mode (result, w)).1
  unfolding after_append durability_action sync
  after_append-HasCommands always (appended offset) w holds h =
      let log' = holds offset refl in
      simp log'.opened (
        record {
          opened = refl;
          content = log'.content;
          offsets = log'.offsets;
          fits = log'.fits;
          increasing = log'.increasing;
        },
        refl,
      )
  after_append-HasCommands everysec (appended offset) w holds h = (holds offset refl, tt)
  after_append-HasCommands never (appended offset) w holds h = (holds offset refl, tt)
  after_append-HasCommands mode (append_failed status) w holds h = cc
  after_append-HasCommands mode append_not_open w holds h = cc

  -- If the writer's log holds the records of the commands `cs`, fewer than 2^64 - 1, and logging a
  -- further command that fits its fields returns, then the engine has a writer whose log holds
  -- `cs` and that command, and in the mode `always` that log is on the disk.
  pub log_record-HasCommands :
      (e : Engine)
      → (log_record answers (opcode_for c) (payload_for c) e (some wal)).0 ≡ ok tt
      → (w : WalWriter) × ((log_record answers (opcode_for c) (payload_for c) e (some wal)).1
          ≡ record e { wal = some w })
        × HasCommands w (cs ++ c ∷ [])
        × IsSynced e.fsync w
  unfolding log_record
  log_record-HasCommands e h =
      let (holds, synced) =
        after_append-HasCommands e.fsync (append answers wal (opcode_for c) (payload_for c)).0
          (append answers wal (opcode_for c) (payload_for c)).1 append-HasCommands h in
      (
        (after_append e.fsync (append answers wal (opcode_for c) (payload_for c))).1,
        refl,
        holds,
        synced,
      )

empty-HasCommands : HasCommands (reopened_at (log_file []) [] []) []
empty-HasCommands = record {
  opened = refl;
  content = refl;
  offsets = refl;
  fits = tt;
  increasing = tt;
}

-- The bytes of the log on the disk once the process has ended.
abbrev pub log_of : Engine → Bytes
log_of e = elim e.wal [ none ↦ [] | some wal ↦ wal.file ]

module _ (platform : Platform) where
  -- A durable command that was logged is recovered: if the writer's log holds the records of the
  -- commands `old ++ new`, the engine's snapshot was written with the offset length old and with
  -- entries that fit their fields, or there is none and `old` and the entries are empty, the
  -- records of these commands and of `c` fit their fields, logging `c` returns and the store has a
  -- shard, then after a recovery from that log and snapshot each key has the entry that `new` and
  -- then `c`, in their order, make of the snapshot's entries, each deadline of these cut to its
  -- whole millisecond. What a command makes of the entries is run_command, a function of the keys.
  pub recover_into-log_record :
      (import_clock : ℕ → Reading) (clock : ℕ → Reading × Reading) (answers : List WriteResult)
      (wal : WalWriter) (old new : List Command) (c : Command) (e : Engine)
      (entries : List PersistedEntry) (s : Store) (j : Bytes)
      → HasShards s
      → HasCommands wal (old ++ new)
      → All IsSmall (old ++ (new ++ c ∷ []))
      → length (old ++ (new ++ c ∷ [])) < 2 ^ 64
      → HasSnapshot e.snapshot (length old) entries
      → (log_record answers (opcode_for c) (payload_for c) e (some wal)).0 ≡ ok tt
      → bind
          (recover_into platform import_clock clock
            (log_of (log_record answers (opcode_for c) (payload_for c) e (some wal)).1)
            (log_record answers (opcode_for c) (payload_for c) e (some wal)).1
            s)
          (λ (s', e'). ok (find_entry platform j s'))
        ≡ ok (
            run_view platform clock
              (length old)
              (new ++ c ∷ [])
              (import_view platform import_clock 0 (rounded_entries entries) (λ key. none))
              j)
  recover_into-log_record import_clock clock answers wal old new c e entries s j shards log small
        few written h =
      let (w, e_is, log', synced) =
        log_record-HasCommands answers wal (old ++ new) c log
          (omega (
            arith,
            length-append old (new ++ c ∷ []),
            length-append new (c ∷ []),
            length-append old new,
          ))
          (IsSmall-drop new (c ∷ []) (IsSmall-drop old (new ++ c ∷ []) small)).0 e h in
      let (at, read_back) = loaded-HasSnapshot e.snapshot (length old) entries written in
      let imported = import_clear-Shows platform import_clock (rounded_entries entries) s shards in
      let recovered = run_all-Shows platform clock (length old) (new ++ c ∷ []) _ _ imported in
      rw (
        e_is,
        log'.content,
        append_assoc old new,
        recover_into-run_all platform import_clock clock old (new ++ c ∷ [])
            (record e { wal = some w }) s small few at,
        read_back,
        recovered.shown j,
      )

  -- What a restart behind a snapshot loses: if the log is empty and its offset is 0, while the
  -- snapshot holds an offset above 0, and logging a command that fits its fields returns, then the
  -- next recovery gives the snapshot's store without that command.
  pub recover_into-lost :
      (import_clock : ℕ → Reading) (clock : ℕ → Reading × Reading) (answers : List WriteResult)
      (c : Command) (e : Engine) (s : Store)
      → IsSmall c
      → 0 < snapshot_offset_of (loaded e.snapshot)
      → (log_record answers
          (opcode_for c)
          (payload_for c)
          e
          (some (reopened_at (log_file []) [] []))).0
        ≡ ok tt
      → bind
          (recover_into platform import_clock clock
            (log_of
              (log_record answers
                (opcode_for c)
                (payload_for c)
                e
                (some (reopened_at (log_file []) [] []))).1)
            (log_record answers
              (opcode_for c)
              (payload_for c)
              e
              (some (reopened_at (log_file []) [] []))).1
            s)
          (λ (s', e'). ok s')
        ≡ ok (from_snapshot platform import_clock e s)
  recover_into-lost import_clock clock answers c e s small above h =
      let (w, e_is, log', synced) =
        log_record-HasCommands answers (reopened_at (log_file []) [] []) [] c empty-HasCommands
          (omega arith) small e h in
      rw (
        e_is,
        log'.content,
        recover_into-skipped platform import_clock clock (c ∷ []) (record e { wal = some w }) s
            (small, tt) (omega arith) (omega arith),
      )

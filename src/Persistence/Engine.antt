-- ===== src/Persistence/Engine.antt =====
-- include/novacache/persistence/engine.hpp and src/persistence/engine.cpp: write-ahead logging,
-- snapshots and recovery. The disk holds the log and, if one was written, the snapshot. `::write`
-- answers from a list; every other file operation succeeds.
pub mod Durable
pub mod Replay
pub mod View
pub mod Import
pub mod Restart
pub mod Shutdown
mod Examples
use distributed_data_store.Prelude.{
  ℕ, zero, suc, ◌+◌, Bool, true, false, Option, none, some, List, [], ◌∷◌, ◌++◌, Bytes, ltb, leb,
  if◌then◌else◌, ℤ, pos, ◌+ℤ◌, leb_ℤ, ltb_ℤ,
}
use distributed_data_store.Store.{Value, string_value, PersistedEntry, Store, Platform, Reading}
use distributed_data_store.Store.Update.{
  set_at, del_many, expire_at, import_snapshot_entry, clear, seconds,
}
use distributed_data_store.Store.Sweep.{export_snapshot_entries}
use distributed_data_store.Persistence.Result.{
  Result, ok, err, Error, truncated, unknown_opcode, not_open, Reader, pure, ◌>>=◌, ◌>>◌, bind,
}
use distributed_data_store.Persistence.Binary.{read_u8, read_u32, read_i64, read_bytes}
use distributed_data_store.Persistence.Wal
use distributed_data_store.Persistence.Wal.{
  WalOpcode, set, del, expire, other, WalRecord, WalWriter, WriteResult, AppendResult, appended,
  append_failed, append_not_open, open_and_recover,
}
use distributed_data_store.Persistence.Wal.Payload.{
  encode_set_payload, encode_del_payload, encode_expire_payload,
}
use distributed_data_store.Persistence.Snapshot
use distributed_data_store.Persistence.Snapshot.{
  to_unix_ms, from_unix_ms, read_items, read_deadline,
}

pub data FsyncMode : Type 0 where
  always everysec never : FsyncMode

-- The engine with its part of the disk. `wal` is `none` after `abandon`.
pub record Engine : Type 0 where
  pub fsync : FsyncMode
  pub snapshot_interval : ℕ
  pub next_snapshot_at : ℤ
  pub wal : Option WalWriter
  pub snapshot : Option Bytes

-- What a log record asks of the store.
pub data Change : Type 0 where
  set_change : Bytes → Bytes → Option ℤ → Change
  del_change : List Bytes → Change
  expire_change : Bytes → ℤ → Change

unfoldable pub read_set : Reader Change
read_set = do
  key ← read_bytes
  value ← read_bytes
  flag ← read_u8
  expiry ← read_deadline flag
  pure (set_change key value expiry)

unfoldable pub read_del : Reader Change
read_del = do count ← read_u32; keys ← read_items count; pure (del_change keys)

unfoldable pub read_expire : Reader Change
read_expire = do key ← read_bytes; millis ← read_i64; pure (expire_change key (from_unix_ms millis))

unfoldable pub read_change : WalOpcode → Reader Change
read_change set = read_set
read_change del = read_del
read_change expire = read_expire
read_change (other n) = λ input. err unknown_opcode

-- SnapshotStore::read of the file, or no file.
abbrev pub loaded : Option Bytes → Option (ℕ × List PersistedEntry)
loaded none = none
loaded (some file) = Snapshot.read file

abbrev pub snapshot_offset_of : Option (ℕ × List PersistedEntry) → ℕ
snapshot_offset_of none = 0
snapshot_offset_of (some (offset, entries)) = offset

abbrev pub entries_of : Option (ℕ × List PersistedEntry) → List PersistedEntry
entries_of none = []
entries_of (some (offset, entries)) = entries

module _ (platform : Platform) where
  -- `first` is read by the tests of expire_at, `r` by everything else.
  unfoldable pub apply_change : Reading → Reading → Change → Store → Store
  apply_change first r (set_change key value expiry) s =
      set_at platform r key (string_value value) expiry s
  apply_change first r (del_change keys) s = (del_many platform r.now keys s).1
  apply_change first r (expire_change key expiry) s =
      (expire_at platform first r key (some expiry) s).1

  unfoldable pub apply_record : Reading → Reading → WalRecord → Store → Result Store
  apply_record first r rec s =
      bind (read_change rec.opcode rec.payload) λ (change, rest). ok (apply_change first r change s)

  -- The readings of the clock for each record.
  unfoldable pub replay : (ℕ → Reading × Reading) → ℕ → ℕ → List WalRecord → Store → Result Store
  replay clock t snapshot_offset [] s = ok s
  replay clock t snapshot_offset (rec ∷ records) s =
      if leb rec.offset snapshot_offset
      then replay clock (suc t) snapshot_offset records s
      else bind (apply_record (clock t).0 (clock t).1 rec s)
          (replay clock (suc t) snapshot_offset records)

  unfoldable pub import_entries : (ℕ → Reading) → ℕ → List PersistedEntry → Store → Store
  import_entries clock t [] s = s
  import_entries clock t (entry ∷ entries) s =
      import_entries clock (suc t) entries (import_snapshot_entry platform (clock t) entry s)

  -- The first `clock` is read by the import, the second by the replay.
  unfoldable pub recover_into :
      (ℕ → Reading) → (ℕ → Reading × Reading) → Bytes → Engine → Store → Result (Store × Engine)
  recover_into import_clock replay_clock log e s =
      let snapshot = loaded e.snapshot in
      let restored = import_entries import_clock 0 (entries_of snapshot) (clear s) in
      bind (open_and_recover log) λ (records, wal).
        bind (replay replay_clock 0 (snapshot_offset_of snapshot) records restored)
          λ s'. ok (s', record e { wal = some wal })

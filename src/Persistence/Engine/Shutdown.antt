-- ===== src/Persistence/Engine/Shutdown.antt =====
-- write_snapshot of src/persistence/engine.cpp, and the recovery behind it.
mod Examples
use distributed_data_store.Prelude.{
  ℕ, suc, ◌∷◌, Bool, true, false, eqb, eqb_iff, subst, if◌then◌else◌, ◌<◌, ◌≤◌, ◌^◌, ◌+◌, ◌≡◌, refl,
  true, Option, some, none, List, [], ◌++◌, append-nil, Bytes, length, arith, All, ℤ, sym, ap, ◌∙◌,
}
use distributed_data_store.Store.{
  Value, Entry, PersistedEntry, Store, Platform, Reading, find_entry,
}
use distributed_data_store.Store.Lookup.{HasShards}
use distributed_data_store.Store.Update.{clear}
use distributed_data_store.Store.Sweep.{export_snapshot_entries}
use distributed_data_store.Persistence.Result.{Result, ok, err, bind}
use distributed_data_store.Persistence.Wal.{WalWriter, header, sync, truncate_after}
use distributed_data_store.Persistence.Wal.Torn.{log_file, reopened_at}
use distributed_data_store.Persistence.Snapshot
use distributed_data_store.Persistence.Snapshot.RoundTrip.{IsEntry, rounded_entries, read-write}
use distributed_data_store.Persistence.Engine.{
  FsyncMode, always, everysec, never, Engine, import_entries, loaded, recover_into,
}
use distributed_data_store.Persistence.Engine.Durable.{sync_unless_never, write_snapshot}
use distributed_data_store.Persistence.Engine.Replay.{from_snapshot, recover_into-skipped}
use distributed_data_store.Persistence.Engine.Restart.{log_of}
use distributed_data_store.Persistence.Engine.View.{import_view, import_clear-Shows}
use distributed_data_store.Store.View.{live}
use distributed_data_store.Store.View.Export.{IsPlaced}
use distributed_data_store.Persistence.Engine.Import.{Restored, import_view-Restored}

-- A sync keeps all but the durable content, so the new log is the same with or without one.
abbrev restarted : ℕ → WalWriter
restarted offset = record { is_open = true; file = header; durable = header; last_offset = offset }

truncate_after-sync :
    (mode : FsyncMode) (wal : WalWriter) (f : WalWriter → ℕ → Result (Engine × Store))
    → wal.is_open ≡ true
    → bind
        (sync_unless_never mode wal)
        (λ wal'. bind (truncate_after wal'.last_offset wal') (λ w. f w wal'.last_offset))
      ≡ f (restarted wal.last_offset) wal.last_offset
unfolding sync_unless_never sync truncate_after
truncate_after-sync always wal f h = simp h refl
truncate_after-sync everysec wal f h = simp h refl
truncate_after-sync never wal f h = simp h refl

-- The engine after write_snapshot.
abbrev snapshotted : ℤ → Engine → WalWriter → Store → Engine
snapshotted now e wal s = record e {
  wal = some (restarted wal.last_offset);
  snapshot = some (Snapshot.write wal.last_offset (export_snapshot_entries now s).0);
}

write_snapshot-eq-snapshotted :
    (now : ℤ) (e : Engine) (wal : WalWriter) (s : Store)
    → wal.is_open ≡ true
    → write_snapshot now e wal s ≡ ok (snapshotted now e wal s, (export_snapshot_entries now s).1)
unfolding write_snapshot
write_snapshot-eq-snapshotted now e wal s h =
    truncate_after-sync e.fsync wal
      (λ w offset. ok (
        record e {
          wal = some w;
          snapshot = some (Snapshot.write offset (export_snapshot_entries now s).0);
        },
        (export_snapshot_entries now s).1,
      ))
      h

module _ (platform : Platform) where
  recover_into-header :
      (import_clock : ℕ → Reading) (clock : ℕ → Reading × Reading) (e : Engine) (s : Store)
      → recover_into platform import_clock clock header e s
        ≡ ok (
          from_snapshot platform import_clock e s,
          record e { wal = some (reopened_at (log_file []) [] []) },
        )
  recover_into-header import_clock clock e s =
      sym
        (ap (λ (log : Bytes). recover_into platform import_clock clock log e s) (append-nil header))
      ∙ recover_into-skipped platform import_clock clock [] e s tt (omega arith) (omega arith)

  -- Snapshot and restart: after write_snapshot at `now` of a store in which every key stands once
  -- and in the shard of its hash, on an open log, when the offset, the number of entries and the
  -- entries fit their fields, a recovery into a store with a shard gives each key that was
  -- unexpired at `now` a new entry, made at one of the readings of the import, with its value and
  -- with its deadline cut to the whole millisecond, or none if that has passed by then; no other
  -- key has an entry. The log that it opens is empty and its offsets start at 0 again, whatever
  -- offset the snapshot holds.
  pub recover_into-write_snapshot :
      (import_clock : ℕ → Reading) (clock : ℕ → Reading × Reading) (now : ℤ) (e : Engine)
      (wal : WalWriter) (s t : Store) (j : Bytes)
      → IsPlaced platform s
      → HasShards t
      → wal.is_open ≡ true
      → wal.last_offset < 2 ^ 64
      → length (export_snapshot_entries now s).0 < 2 ^ 64
      → All IsEntry (export_snapshot_entries now s).0
      → (after : Option Entry) × Restored platform import_clock j (live platform now j s) after
        × (bind (write_snapshot now e wal s) (λ (e', s').
              bind {B = Option Entry × Option WalWriter}
                (recover_into platform import_clock clock (log_of e') e' t)
                (λ (t', e''). ok (find_entry platform j t', e''.wal)))
            ≡ ok (after, some (reopened_at (log_file []) [] [])))
  recover_into-write_snapshot import_clock clock now e wal s t j placed shards opened small few
        fit =
      let imported =
        import_clear-Shows platform import_clock (rounded_entries (export_snapshot_entries now s).0)
          t shards in
      (
        import_view platform import_clock 0 (rounded_entries (export_snapshot_entries now s).0)
            (λ key. none) j,
        import_view-Restored platform import_clock now j s placed,
        rw (
          write_snapshot-eq-snapshotted now e wal s opened,
          recover_into-header import_clock clock (snapshotted now e wal s) t,
          read-write wal.last_offset (export_snapshot_entries now s).0 small few fit,
          imported.shown j,
        ),
      )

-- ===== src/Persistence/Engine/Durable.antt =====
-- The operations of the engine on a running store: the durable commands, snapshots, shutdown.
-- A durable command returns its result or its exception, with the engine and the store as they are
-- then; a snapshot returns the engine and the store, or its exception.
use distributed_data_store.Prelude.{
  ℕ, zero, suc, Bool, Option, none, some, List, Bytes, if◌then◌else◌, ℤ, pos, ◌+ℤ◌, ltb_ℤ,
}
use distributed_data_store.Store.{string_value, Store, Platform, Reading}
use distributed_data_store.Store.Update.{set_value, del_many, expire_at, seconds}
use distributed_data_store.Store.Sweep.{export_snapshot_entries}
use distributed_data_store.Persistence.Result.{Result, ok, err, not_open, io_error, undefined, bind}
use distributed_data_store.Persistence.Wal.{
  WalOpcode, set, del, expire, WalWriter, WriteResult, AppendResult, appended, append_failed,
  append_not_open, append, sync, truncate_after,
}
use distributed_data_store.Persistence.Wal.Payload.{
  encode_set_payload, encode_del_payload, encode_expire_payload,
}
use distributed_data_store.Persistence.Snapshot
use distributed_data_store.Persistence.Snapshot.{to_unix_ms, from_unix_ms}
use distributed_data_store.Persistence.Engine.{FsyncMode, always, never, Engine}

-- The writer after a call of the log, or the exception beside the writer that it left.
abbrev pub Logged : Type 0
Logged = Result (Unit {0}) × WalWriter

abbrev synced : WalWriter → Result WalWriter → Logged
synced wal (ok wal') = (ok tt, wal')
synced wal (err e) = (err e, wal)

unfoldable pub durability_action : FsyncMode → WalWriter → Logged
durability_action always wal = synced wal (sync wal)
durability_action _ wal = (ok tt, wal)

unfoldable pub after_append : FsyncMode → AppendResult × WalWriter → Logged
after_append mode (appended offset, wal) = durability_action mode wal
after_append mode (append_failed status, wal) = (err io_error, wal)
after_append mode (append_not_open, wal) = (err not_open, wal)

-- append and durability_action. A call through a null `wal_` is undefined.
unfoldable pub log_record :
    List WriteResult → WalOpcode → Bytes → Engine → Option WalWriter → Result (Unit {0}) × Engine
log_record answers opcode payload e none = (err undefined, e)
log_record answers opcode payload e (some wal) =
    let (result, wal') = after_append e.fsync (append answers wal opcode payload) in
    (result, record e { wal = some wal' })

-- The command goes to the store only if the log returned.
abbrev pub if_logged :
    {A : Type 0} → Store → A × Store → Result (Unit {0}) × Engine → Result A × Engine × Store
if_logged s (answer, s') (ok _, e) = (ok answer, e, s')
if_logged s (answer, s') (err error, e) = (err error, e, s)

module _ (platform : Platform) where
  unfoldable pub durable_set :
      List WriteResult
      → Reading
      → Bytes
      → Bytes
      → Engine
      → Store
      → Result (Unit {0}) × Engine × Store
  durable_set answers r key value e s =
      if_logged s (tt, set_value platform r key (string_value value) s)
        (log_record answers set (encode_set_payload key value none) e e.wal)

  unfoldable pub durable_del :
      List WriteResult → ℤ → List Bytes → Engine → Store → Result ℕ × Engine × Store
  durable_del answers now keys e s =
      if_logged s (del_many platform now keys s)
        (log_record answers del (encode_del_payload keys) e e.wal)

  -- The deadline that is logged: `wall` is the engine's own reading of the wall clock.
  unfoldable pub deadline_ms : ℤ → ℤ → ℤ
  deadline_ms wall ttl =
      if ltb_ℤ (pos 0) ttl then to_unix_ms (wall +ℤ seconds ttl) else to_unix_ms wall

  unfoldable pub durable_expire :
      List WriteResult
      → ℤ
      → Reading
      → Reading
      → Bytes
      → ℤ
      → Engine
      → Store
      → Result Bool × Engine × Store
  durable_expire answers wall first second key ttl e s =
      let expiry_ms = deadline_ms wall ttl in
      if_logged s (expire_at platform first second key (some (from_unix_ms expiry_ms)) s)
        (log_record answers expire (encode_expire_payload key expiry_ms) e e.wal)

-- Shared by snapshot_now and shutdown: sync, export, write the snapshot, start the log anew.
unfoldable pub sync_unless_never : FsyncMode → WalWriter → Result WalWriter
sync_unless_never never wal = ok wal
sync_unless_never _ wal = sync wal

unfoldable pub write_snapshot : ℤ → Engine → WalWriter → Store → Result (Engine × Store)
write_snapshot now e wal s = bind (sync_unless_never e.fsync wal) λ wal'.
    let (entries, s') = export_snapshot_entries now s in
    let offset = wal'.last_offset in
    bind (truncate_after offset wal') λ wal''.
      ok (record e { wal = some wal''; snapshot = some (Snapshot.write offset entries) }, s')

unfoldable pub shutdown_with : ℤ → Engine → Option WalWriter → Store → Result (Engine × Store)
shutdown_with now e none s = ok (e, s)
shutdown_with now e (some wal) s = write_snapshot now e wal s

unfoldable pub shutdown : ℤ → Engine → Store → Result (Engine × Store)
shutdown now e s = shutdown_with now e e.wal s

-- The next snapshot is due an interval later, counted in seconds.
unfoldable pub snapshot_with : ℤ → ℤ → Engine → Option WalWriter → Store → Result (Engine × Store)
snapshot_with now steady e none s = err undefined
snapshot_with now steady e (some wal) s = bind (write_snapshot now e wal s) λ (e', s'). ok (
  elim e.snapshot_interval [
    | zero ↦ e'
    | suc n ↦ record e' { next_snapshot_at = steady +ℤ seconds (pos (suc n)) }
  ],
  s',
)

unfoldable pub snapshot_now : ℤ → ℤ → Engine → Store → Result (Engine × Store)
snapshot_now now steady e s = snapshot_with now steady e e.wal s

-- A non-positive interval is 0.
unfoldable pub maybe_snapshot : ℤ → ℤ → ℤ → Engine → Store → Result (Engine × Store)
maybe_snapshot tested now steady e s = elim e.snapshot_interval [
  | zero ↦ ok (e, s)
  | suc n ↦ if ltb_ℤ tested e.next_snapshot_at then ok (e, s) else snapshot_now now steady e s
]

-- The sync in `abandon`, whose exception is swallowed.
abbrev sync_quietly : FsyncMode → Option WalWriter → Option WalWriter
sync_quietly always (some wal) = some (elim (sync wal) [ ok wal' ↦ wal' | err e ↦ wal ])
sync_quietly _ wal = wal

-- `abandon` leaves the engine without its writer; what that left on the disk comes beside it.
unfoldable pub abandon : Engine → Option WalWriter × Engine
abandon e = (sync_quietly e.fsync e.wal, record e { wal = none })

unfoldable pub last_offset : Engine → ℕ
last_offset e = elim e.wal [ none ↦ 0 | some wal ↦ wal.last_offset ]

-- ===== src/Persistence/Engine/Shutdown/Examples.antt =====
-- A snapshot of a small store, and the restart behind it.
use distributed_data_store.Prelude.{
  ℕ, ◌<◌, ◌^◌, ◌≡◌, refl, true, Option, some, none, [], ◌∷◌, text, length, arith, All, pos,
}
use distributed_data_store.Store.Map
use distributed_data_store.Store.{
  string_value, Entry, Store, Platform, Reading, is_expired, find_entry,
}
use distributed_data_store.Store.Sweep.{
  export_snapshot_entries, export_shards, export_shard, sweep, sweep_shards, sweep_shard,
  count_entry,
}
use distributed_data_store.Persistence.Result.{ok, bind}
use distributed_data_store.Persistence.Wal.{WalWriter}
use distributed_data_store.Persistence.Wal.Torn.{log_file, reopened_at}
use distributed_data_store.Persistence.Snapshot.RoundTrip.{IsEntry}
use distributed_data_store.Persistence.Engine.{always, Engine, recover_into}
use distributed_data_store.Persistence.Engine.Durable.{write_snapshot}
use distributed_data_store.Persistence.Engine.Restart.{log_of}
use distributed_data_store.Store.View.{live}
use distributed_data_store.Store.View.Export.{IsPlaced}
use distributed_data_store.Persistence.Engine.Import.{Restored}
use distributed_data_store.Persistence.Engine.Shutdown.{recover_into-write_snapshot}

abbrev platform : Platform
platform = record { hash = length; entry_size = 64 }

abbrev small_store : Store
small_store = record {
  shards =
      []
      ∷ ((
        text "a",
        record {
          value = string_value (text "on");
          expires_at = none;
          expires_at_wall = none;
          stored_bytes = 67;
        },
      )
          ∷ [])
      ∷ [];
  approximate_memory = 67;
  expired_keys = 0;
}

-- A log of which seven records have been written.
abbrev writer : WalWriter
writer = record { is_open = true; file = []; durable = []; last_offset = 7 }

abbrev engine : Engine
engine = record {
  fsync = always;
  snapshot_interval = 0;
  next_snapshot_at = pos 0;
  wal = some writer;
  snapshot = none;
}

abbrev import_clock : ℕ → Reading
import_clock t = record { now = pos 0; wall_now = pos 0 }

abbrev replay_clock : ℕ → Reading × Reading
replay_clock t =
    (record { now = pos t; wall_now = pos t }, record { now = pos t; wall_now = pos t })

exported :
    (export_snapshot_entries (pos 0) small_store).0
    ≡ record { key = text "a"; value = string_value (text "on"); expiry_wall = none } ∷ []
unfolding export_snapshot_entries export_shards export_shard sweep sweep_shards sweep_shard
    count_entry is_expired
exported = refl

exported-IsEntry : All IsEntry (export_snapshot_entries (pos 0) small_store).0
exported-IsEntry =
    rw exported
      (record { key_fits = omega arith; value_fits = omega arith; deadline_fits = tt }, tt)

exported_few : length (export_snapshot_entries (pos 0) small_store).0 < 2 ^ 64
exported_few = rw exported (omega arith)

small_store-IsPlaced : IsPlaced platform small_store
unfolding Map.find
small_store-IsPlaced = record {
  on_shard = (tt, ((refl, tt), tt));
  distinct = (tt, ((refl, tt), tt));
}

recover_into-write_snapshot_example :
    (after : Option Entry) × Restored platform import_clock
      (text "a")
      (live platform (pos 0) (text "a") small_store)
      after
    × (bind (write_snapshot (pos 0) engine writer small_store) (λ (e', s').
          bind {B = Option Entry × Option WalWriter}
            (recover_into platform import_clock replay_clock (log_of e') e' small_store)
            (λ (t', e''). ok (find_entry platform (text "a") t', e''.wal)))
        ≡ ok (after, some (reopened_at (log_file []) [] [])))
recover_into-write_snapshot_example =
    recover_into-write_snapshot platform import_clock replay_clock (pos 0) engine writer small_store
      small_store (text "a") small_store-IsPlaced (omega arith) refl (omega arith) exported_few
      exported-IsEntry

-- ===== src/Persistence/Engine/View.antt =====
-- The recovery of src/persistence/engine.cpp on a function from keys to entries: what the import
-- of a snapshot and the replay of logged commands mean, without shards, counters and encodings.
use distributed_data_store.Prelude.{
  ℕ, suc, ◌*◌, ◌≡◌, refl, Option, none, some, List, [], ◌∷◌, ◌++◌, All, ◌<◌, ◌^◌, Bytes, eqb,
  length, if◌then◌else◌, arith, ℤ, pos, negsuc, ◌-ℤ◌, ap, zero-sub,
}
use distributed_data_store.Store.{
  string_value, Entry, PersistedEntry, Store, Platform, Reading, find_entry,
}
use distributed_data_store.Store.Update.{import_snapshot_entry, clear}
use distributed_data_store.Store.Lookup.{HasShards}
use distributed_data_store.Store.View.{alive, live}
use distributed_data_store.Store.View.Writes.{
  new_entry, listed, retimed, find-set_at, find-del_many, find-expire_at,
}
use distributed_data_store.Store.View.Shards.{
  length-set_at, length-del_many, length-expire_at, length-clear, find-clear,
}
use distributed_data_store.Persistence.Result.{ok, bind}
use distributed_data_store.Persistence.Wal.Torn.{log_file, reopened_at}
use distributed_data_store.Persistence.Snapshot.{from_unix_ms, write}
use distributed_data_store.Persistence.Snapshot.RoundTrip.{IsEntry, rounded_entries, read-write}
use distributed_data_store.Persistence.Engine.{
  apply_change, import_entries, Engine, loaded, snapshot_offset_of, entries_of, recover_into,
}
use distributed_data_store.Persistence.Engine.Replay.{
  Command, set_command, del_command, expire_command, change_for, run_all, IsSmall, records_from,
  recover_into-run_all,
}

-- The entry of each key.
abbrev pub View : Type 0
View = Bytes → Option Entry

abbrev pub update : Bytes → Option Entry → View → View
update key found f j = if eqb key j then found else f j

-- A deadline of so many milliseconds, in nanoseconds.
abbrev pub nanos : ℤ → ℤ
nanos (pos ms) = pos (1_000_000 * ms)
nanos (negsuc ms) = pos 0 -ℤ pos (1_000_000 * suc ms)

from_unix_ms-nanos : (ms : ℤ) → from_unix_ms ms ≡ nanos ms
unfolding from_unix_ms ◌-ℤ◌
from_unix_ms-nanos (pos ms) = ap pos (omega arith)
from_unix_ms-nanos (negsuc ms) =
    rw (zero-sub (1_000_000 * suc ms) (omega arith)) (ap negsuc (omega arith))

module _ (platform : Platform) where
  -- What a command does: SET gives its key a new string, DEL takes its keys away, and EXPIRE moves
  -- the deadline of its key, if that is live.
  abbrev pub run_command : Reading → Reading → Command → View → View
  run_command first r (set_command key value) f =
      update key (new_entry platform r key (string_value value) none) f
  run_command first r (del_command keys) f = λ j. if listed platform j keys then none else f j
  run_command first r (expire_command key ms) f =
      update key (retimed platform first r (some (nanos ms)) (alive first.now (f key))) f

  -- The commands in their order.
  abbrev pub run_view : (ℕ → Reading × Reading) → ℕ → List Command → View → View
  run_view clock t [] f = f
  run_view clock t (c ∷ cs) f = run_view clock (suc t) cs (run_command (clock t).0 (clock t).1 c f)

  -- The entries in their order, each a new one of its key.
  abbrev pub import_view : (ℕ → Reading) → ℕ → List PersistedEntry → View → View
  import_view clock t [] f = f
  import_view clock t (entry ∷ entries) f =
      import_view clock (suc t) entries
        (update entry.key (new_entry platform (clock t) entry.key entry.value entry.expiry_wall) f)

  -- The store has shards, and shows these entries.
  pub record Shows (s : Store) (f : View) : Type 0 where
    pub has_shards : HasShards s
    pub shown : (j : Bytes) → find_entry platform j s ≡ f j

  apply_change-Shows :
      (first r : Reading) (c : Command) (s : Store) (f : View)
      → Shows s f
      → Shows (apply_change platform first r (change_for c) s) (run_command first r c f)
  unfolding apply_change live
  apply_change-Shows first r (set_command key value) s f shows = record {
    has_shards =
        omega (arith, length-set_at platform r key (string_value value) none s, shows.has_shards);
    shown = λ j.
        rw (
          find-set_at platform r key j (string_value value) none s shows.has_shards,
          shows.shown j,
        );
  }
  apply_change-Shows first r (del_command keys) s f shows = record {
    has_shards = omega (arith, length-del_many platform r.now keys s, shows.has_shards);
    shown = λ j. rw (find-del_many platform r.now keys j s shows.has_shards, shows.shown j);
  }
  apply_change-Shows first r (expire_command key ms) s f shows = record {
    has_shards =
        omega (
          arith,
          length-expire_at platform first r key (some (from_unix_ms ms)) s,
          shows.has_shards,
        );
    shown = λ j. rw (
      find-expire_at platform first r key j (some (from_unix_ms ms)) s shows.has_shards,
      shows.shown key,
      shows.shown j,
      from_unix_ms-nanos ms,
    );
  }

  pub run_all-Shows :
      (clock : ℕ → Reading × Reading) (t : ℕ) (cs : List Command) (s : Store) (f : View)
      → Shows s f
      → Shows (run_all platform clock t cs s) (run_view clock t cs f)
  unfolding run_all
  run_all-Shows clock t [] s f shows = shows
  run_all-Shows clock t (c ∷ cs) s f shows =
      run_all-Shows clock (suc t) cs _ _ (apply_change-Shows (clock t).0 (clock t).1 c s f shows)

  import_snapshot_entry-Shows :
      (r : Reading) (entry : PersistedEntry) (s : Store) (f : View)
      → Shows s f
      → Shows
          (import_snapshot_entry platform r entry s)
          (update entry.key (new_entry platform r entry.key entry.value entry.expiry_wall) f)
  unfolding import_snapshot_entry
  import_snapshot_entry-Shows r entry s f shows = record {
    has_shards = omega (
      arith,
      length-set_at platform r entry.key entry.value entry.expiry_wall s,
      shows.has_shards,
    );
    shown = λ j. rw (
      find-set_at platform r entry.key j entry.value entry.expiry_wall s shows.has_shards,
      shows.shown j,
    );
  }

  import_entries-Shows :
      (clock : ℕ → Reading) (t : ℕ) (entries : List PersistedEntry) (s : Store) (f : View)
      → Shows s f
      → Shows (import_entries platform clock t entries s) (import_view clock t entries f)
  unfolding import_entries
  import_entries-Shows clock t [] s f shows = shows
  import_entries-Shows clock t (entry ∷ entries) s f shows =
      import_entries-Shows clock (suc t) entries _ _
        (import_snapshot_entry-Shows (clock t) entry s f shows)

  -- The import into a cleared store.
  pub import_clear-Shows :
      (clock : ℕ → Reading) (entries : List PersistedEntry) (s : Store)
      → HasShards s
      → Shows
          (import_entries platform clock 0 entries (clear s))
          (import_view clock 0 entries (λ j. none))
  import_clear-Shows clock entries s shards =
      import_entries-Shows clock 0 entries (clear s) (λ j. none)
        (record {
          has_shards = omega (arith, length-clear platform s, shards);
          shown = λ j. find-clear platform j s;
        })

  -- When the store has a shard, the log holds the records of the commands `old ++ new` in their
  -- order, fewer than 2^64 and each fitting its fields, and the snapshot has the offset length
  -- old, then after the recovery each key has the entry that exactly the commands `new`, in their
  -- order, make of the snapshot's entries, and the log is open behind its last record. What a
  -- command makes of the entries is run_command, a function of the keys.
  pub recover_into-run_view :
      (import_clock : ℕ → Reading) (clock : ℕ → Reading × Reading) (old new : List Command)
      (e : Engine) (s : Store) (j : Bytes)
      → HasShards s
      → All IsSmall (old ++ new)
      → length (old ++ new) < 2 ^ 64
      → snapshot_offset_of (loaded e.snapshot) ≡ length old
      → bind {B = Option Entry × Engine}
          (recover_into platform import_clock clock (log_file (records_from 0 (old ++ new))) e s)
          (λ (s', e'). ok (find_entry platform j s', e'))
        ≡ ok (
          run_view clock
              (length old)
              new
              (import_view import_clock 0 (entries_of (loaded e.snapshot)) (λ key. none))
              j,
          record e {
            wal = some (
                reopened_at
                  (log_file (records_from 0 (old ++ new)))
                  []
                  (records_from 0 (old ++ new)));
          },
        )
  recover_into-run_view import_clock clock old new e s j shards small few at =
      let imported = import_clear-Shows import_clock (entries_of (loaded e.snapshot)) s shards in
      let recovered = run_all-Shows clock (length old) new _ _ imported in
      rw (
        recover_into-run_all platform import_clock clock old new e s small few at,
        recovered.shown j,
      )

-- The snapshot file was written with this offset and these entries, which fit their fields, or
-- there is none.
abbrev pub HasSnapshot : Option Bytes → ℕ → List PersistedEntry → Type 0
HasSnapshot none offset entries = (offset ≡ 0) × (entries ≡ [])
HasSnapshot (some file) offset entries =
    (file ≡ write offset entries)
    × (offset < 2 ^ 64)
    × (length entries < 2 ^ 64)
    × All IsEntry entries

pub loaded-HasSnapshot :
    (snapshot : Option Bytes) (offset : ℕ) (entries : List PersistedEntry)
    → HasSnapshot snapshot offset entries
    → (snapshot_offset_of (loaded snapshot) ≡ offset)
      × (entries_of (loaded snapshot) ≡ rounded_entries entries)
loaded-HasSnapshot none offset entries h = rw (h.0, h.1) (refl, refl)
loaded-HasSnapshot (some file) offset entries h =
    rw (h.0, read-write offset entries h.1 h.2 h.3) (refl, refl)

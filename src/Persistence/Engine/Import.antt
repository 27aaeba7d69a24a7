-- ===== src/Persistence/Engine/Import.antt =====
-- What the recovery of src/persistence/engine.cpp imports of the entries that a store exported.
use distributed_data_store.Prelude.{
  ℕ, suc, ◌∷◌, Bool, true, false, eqb, eqb_iff, subst, if◌then◌else◌, ◌≡◌, refl, Option, some, none,
  List, [], Bytes, ℤ,
}
use distributed_data_store.Store.{Value, Entry, PersistedEntry, Store, Platform, Reading}
use distributed_data_store.Store.Sweep.{export_snapshot_entries}
use distributed_data_store.Store.View.{live}
use distributed_data_store.Store.View.Writes.{new_entry}
use distributed_data_store.Store.View.Export.{
  Persisted, persisted, or_else, last_of, IsPlaced, export-eq-live,
}
use distributed_data_store.Persistence.Snapshot.RoundTrip.{rounded, rounded_entries}
use distributed_data_store.Persistence.Engine.View.{View, update, import_view}

abbrev rounded_persisted : Option Persisted → Option Persisted
rounded_persisted none = none
rounded_persisted (some (value, wall)) = some (value, rounded wall)

last_of-rounded_entries :
    (j : Bytes) (entries : List PersistedEntry)
    → last_of j (rounded_entries entries) ≡ rounded_persisted (last_of j entries)
last_of-rounded_entries j [] = refl
last_of-rounded_entries j (entry ∷ entries) =
    rw (last_of-rounded_entries j entries)
      (here (last_of j entries) (eqb entry.key j) entry.value entry.expiry_wall)
  where
    here :
        (rest : Option Persisted) (hit : Bool) (value : Value) (wall : Option ℤ)
        → or_else (rounded_persisted rest) (if hit then some (value, rounded wall) else none)
          ≡ rounded_persisted (or_else rest (if hit then some (value, wall) else none))
    here none true value wall = refl
    here none false value wall = refl
    here (some x) hit value wall = refl

module _ (platform : Platform) where
  -- What the import makes of the last entry with a key, at one of the readings of its clock; or what
  -- stood there.
  abbrev Imported : (ℕ → Reading) → Bytes → Option Entry → Option Persisted → Option Entry → Type 0
  Imported clock j before none after = after ≡ before
  Imported clock j before (some (value, wall)) after =
      (t : ℕ) × (after ≡ new_entry platform (clock t) j value wall)

  import_one :
      (clock : ℕ → Reading) (t : ℕ) (j : Bytes) (entry : PersistedEntry)
      (before after : Option Entry) (rest : Option Persisted) (hit : Bool)
      → (hit ≡ true → entry.key ≡ j)
      → Imported clock j
          (if hit
            then new_entry platform (clock t) entry.key entry.value entry.expiry_wall
            else before)
          rest
          after
      → Imported clock j before
          (or_else rest (if hit then some (entry.value, entry.expiry_wall) else none))
          after
  import_one clock t j entry before after (some x) hit same h = h
  import_one clock t j entry before after none true same h = (
    t,
    subst (λ (k : Bytes). after ≡ new_entry platform (clock t) k entry.value entry.expiry_wall)
        (same refl) h,
  )
  import_one clock t j entry before after none false same h = h

  import_view-Imported :
      (clock : ℕ → Reading) (t : ℕ) (j : Bytes) (entries : List PersistedEntry) (f : View)
      → Imported clock j (f j) (last_of j entries) (import_view platform clock t entries f j)
  import_view-Imported clock t j [] f = refl
  import_view-Imported clock t j (entry ∷ entries) f =
      import_one clock t j entry (f j) _ (last_of j entries) (eqb entry.key j)
        (eqb_iff entry.key j).0
        (import_view-Imported clock (suc t) j entries (
          update entry.key (new_entry platform (clock t) entry.key entry.value entry.expiry_wall)
            f))

  -- What a restart gives a key whose entry was unexpired when the snapshot was written: a new one
  -- with its value and its deadline, cut to the whole millisecond; and no entry to any other key.
  abbrev pub Restored : (ℕ → Reading) → Bytes → Option Entry → Option Entry → Type 0
  Restored clock j none after = after ≡ none
  Restored clock j (some entry) after =
      (t : ℕ) × (after ≡ new_entry platform (clock t) j entry.value (rounded entry.expires_at_wall))

  Imported-Restored :
      (clock : ℕ → Reading) (j : Bytes) (before after : Option Entry)
      → Imported clock j none (rounded_persisted (persisted before)) after
      → Restored clock j before after
  Imported-Restored clock j none after h = h
  Imported-Restored clock j (some entry) after h = h

  pub import_view-Restored :
      (clock : ℕ → Reading) (now : ℤ) (j : Bytes) (s : Store)
      → IsPlaced platform s
      → Restored clock j (live platform now j s) (
          import_view platform clock 0
            (rounded_entries (export_snapshot_entries now s).0)
            (λ key. none)
            j)
  import_view-Restored clock now j s placed =
      let all =
        import_view-Imported clock 0 j (rounded_entries (export_snapshot_entries now s).0)
          (λ key. none) in
      Imported-Restored clock j (live platform now j s) _ (
        rw
          (
            last_of-rounded_entries j (export_snapshot_entries now s).0,
            export-eq-live platform now j s placed,
          )
          at all)

-- ===== src/Store/View/Export.antt =====
-- export_snapshot_entries of src/store/store.cpp, and the unexpired entries.
use distributed_data_store.Prelude.{
  ℕ, zero, suc, ◌+◌, ◌%◌, ◌<◌, ◌≡◌, ◌≢◌, refl, Option, none, some, List, [], ◌∷◌, ◌++◌, All, Bytes,
  eqb, eqb_iff, length, get_elem?, if◌then◌else◌, arith, ℤ, Bool-cases, inl, inr, subst,
}
use distributed_data_store.Store.Map
use distributed_data_store.Store.{
  Value, Entry, PersistedEntry, Shard, Store, Platform, is_expired, or_empty, find_entry, shard_for,
  shard_index,
}
use distributed_data_store.Store.Sweep.{
  Counters, count_entry, sweep_shard, sweep_shards, sweep, export_shard, export_shards,
  export_snapshot_entries,
}
use distributed_data_store.Store.Accounting.{Distinct}
use distributed_data_store.Store.View.{alive, live}

-- The value and the deadline of an entry.
abbrev pub Persisted : Type 0
Persisted = Value × Option ℤ

abbrev pub persisted : Option Entry → Option Persisted
persisted none = none
persisted (some entry) = some (entry.value, entry.expires_at_wall)

abbrev pub or_else : Option Persisted → Option Persisted → Option Persisted
or_else none y = y
or_else (some x) y = some x

-- What the last of the entries with the key holds.
abbrev pub last_of : Bytes → List PersistedEntry → Option Persisted
last_of j [] = none
last_of j (entry ∷ entries) =
    or_else (last_of j entries)
      (if eqb entry.key j then some (entry.value, entry.expiry_wall) else none)

or_else-none : (x : Option Persisted) → or_else x none ≡ x
or_else-none none = refl
or_else-none (some x) = refl

or_else_assoc : (x y z : Option Persisted) → or_else x (or_else y z) ≡ or_else (or_else x y) z
or_else_assoc none y z = refl
or_else_assoc (some x) y z = refl

last_of-append :
    (j : Bytes) (xs ys : List PersistedEntry)
    → last_of j (xs ++ ys) ≡ or_else (last_of j ys) (last_of j xs)
last_of-append j [] ys = rw (or_else-none (last_of j ys)) refl
last_of-append j (x ∷ xs) ys = rw (last_of-append j xs ys) (rw (or_else_assoc (last_of j ys)) refl)

last_of-sweep_shard :
    (now : ℤ) (j : Bytes) (shard : Shard) (c : Counters)
    → Distinct shard
    → last_of j (export_shard (sweep_shard now shard c).0)
      ≡ persisted (alive now (Map.find j shard))
unfolding sweep_shard export_shard Map.find alive
last_of-sweep_shard now j [] c distinct = refl
last_of-sweep_shard now j ((key, entry) ∷ shard) c distinct =
    elim (Bool-cases (is_expired entry now)) [
      | inl dead ↦
          let rest = last_of-sweep_shard now j shard (count_entry entry c) distinct.1 in
          elim (Bool-cases (eqb key j)) [
            | inl hit ↦
                let gone =
                  subst (λ (k : Bytes). Map.find k shard ≡ none) ((eqb_iff key j).0 hit)
                    distinct.0 in
                rw (dead, rest, hit, gone) (rw dead refl)
            | inr miss ↦ rw (dead, rest, miss) refl
          ]
      | inr lives ↦
          let rest = last_of-sweep_shard now j shard c distinct.1 in
          elim (Bool-cases (eqb key j)) [
            | inl hit ↦
                let gone =
                  subst (λ (k : Bytes). Map.find k shard ≡ none) ((eqb_iff key j).0 hit)
                    distinct.0 in
                rw (lives, rest, hit, gone) (rw lives refl)
            | inr miss ↦ rw (lives, rest, miss) (or_else-none _)
          ]
    ]

module _ (platform : Platform) where
  -- The keys of the shard have the hash that puts them there.
  abbrev pub OnShard : ℕ → ℕ → Shard → Type 0
  OnShard n i [] = Unit
  OnShard n i ((key, entry) ∷ shard) = (platform.hash key % n ≡ i) × OnShard n i shard

  abbrev pub AllOnShard : ℕ → ℕ → List Shard → Type 0
  AllOnShard n i [] = Unit
  AllOnShard n i (shard ∷ shards) = OnShard n i shard × AllOnShard n (suc i) shards

  -- Every key stands in its shard, and once.
  pub record IsPlaced (s : Store) : Type 0 where
    pub on_shard : AllOnShard (length s.shards) 0 s.shards
    pub distinct : All Distinct s.shards

  find-elsewhere :
      (n i : ℕ) (j : Bytes) (shard : Shard)
      → OnShard n i shard
      → platform.hash j % n ≢ i
      → Map.find j shard ≡ none
  unfolding Map.find
  find-elsewhere n i j [] on other = refl
  find-elsewhere n i j ((key, entry) ∷ shard) on other = elim (Bool-cases (eqb key j)) [
    | inl hit ↦
        absurd (other (subst (λ (k : Bytes). platform.hash k % n ≡ i) ((eqb_iff key j).0 hit) on.0))
    | inr miss ↦ rw miss (find-elsewhere n i j shard on.1 other)
  ]

  last_of-passed :
      (now : ℤ) (n i : ℕ) (j : Bytes) (shards : List Shard) (c : Counters)
      → AllOnShard n i shards
      → All Distinct shards
      → platform.hash j % n < i
      → last_of j (export_shards (sweep_shards now shards c).0) ≡ none
  unfolding sweep_shards export_shards alive
  last_of-passed now n i j [] c on distinct passed = refl
  last_of-passed now n i j (shard ∷ shards) c on distinct passed = rw (
    last_of-append j (export_shard (sweep_shard now shard c).0),
    last_of-passed now n (suc i) j shards (sweep_shard now shard c).1 on.1 distinct.1 (omega arith),
    last_of-sweep_shard now j shard c distinct.0,
    find-elsewhere n i j shard on.0 (omega arith),
  )

  last_of-sweep_shards :
      (now : ℤ) (n i k : ℕ) (j : Bytes) (shards : List Shard) (c : Counters)
      → AllOnShard n i shards
      → All Distinct shards
      → platform.hash j % n ≡ i + k
      → last_of j (export_shards (sweep_shards now shards c).0)
        ≡ persisted (alive now (Map.find j (or_empty (get_elem? shards k))))
  unfolding sweep_shards export_shards alive Map.find
  last_of-sweep_shards now n i k j [] c on distinct at = refl
  last_of-sweep_shards now n i zero j (shard ∷ shards) c on distinct at = rw (
    last_of-append j (export_shard (sweep_shard now shard c).0),
    last_of-passed now n (suc i) j shards (sweep_shard now shard c).1 on.1 distinct.1 (omega arith),
    last_of-sweep_shard now j shard c distinct.0,
  )
  last_of-sweep_shards now n i (suc k) j (shard ∷ shards) c on distinct at =
      rw
        (
          last_of-append j (export_shard (sweep_shard now shard c).0),
          last_of-sweep_shards now n (suc i) k j shards (sweep_shard now shard c).1 on.1 distinct.1
              (omega arith),
          last_of-sweep_shard now j shard c distinct.0,
          find-elsewhere n i j shard on.0 (omega arith),
        )
        (or_else-none _)

  -- The export has the unexpired entry of each key.
  pub export-eq-live :
      (now : ℤ) (j : Bytes) (s : Store)
      → IsPlaced s
      → last_of j (export_snapshot_entries now s).0 ≡ persisted (live platform now j s)
  unfolding export_snapshot_entries sweep live find_entry shard_for shard_index
  export-eq-live now j s placed =
      last_of-sweep_shards now (length s.shards) 0 (platform.hash j % length s.shards) j s.shards
        (record { memory = s.approximate_memory; expired = s.expired_keys }) placed.on_shard
        placed.distinct (omega arith)

-- ===== src/Store/Sweep.antt =====
-- The operations of src/store/store.cpp that walk the shards: keys, active_expire_cycle and
-- export_snapshot_entries.
pub mod Sort
use distributed_data_store.Prelude.{
  ℕ, zero, suc, ◌+◌, ◌-◌, ◌*◌, ◌/◌, ◌%◌, ◌^◌, min, Bool, true, false, not, Option, none, some, List,
  [], ◌∷◌, ◌++◌, map, Bytes, text, eqb, length, get_elem?, set, replicate, ltb, leb, ◌==◌,
  if◌then◌else◌, ℤ, pos, negsuc, ◌+ℤ◌, ◌-ℤ◌, leb_ℤ,
}
use distributed_data_store.Store.Map
use distributed_data_store.Store.{
  Value, Entry, PersistedEntry, Shard, Store, Platform, Reading, add_u64, sub_u64, is_expired,
  estimate_bytes, shard_for, find_entry, with_shard, erase_entry, count_expired,
  erase_expired_locked,
}
use distributed_data_store.Store.Sweep.Sort.{sort}

-- The counters that a walk changes.
pub record Counters : Type 0 where
  pub memory : ℕ
  pub expired : ℕ

unfoldable pub count_entry : Entry → Counters → Counters
count_entry entry c = record {
  memory = sub_u64 c.memory entry.stored_bytes;
  expired = add_u64 c.expired 1;
}

-- One shard: expired entries are erased and counted, the others stay.
unfoldable pub sweep_shard : ℤ → Shard → Counters → Shard × Counters
sweep_shard now [] c = ([], c)
sweep_shard now ((key, entry) ∷ shard) c =
    let dead = is_expired entry now in
    let (kept, c') = sweep_shard now shard (if dead then count_entry entry c else c) in
    (if dead then kept else (key, entry) ∷ kept, c')

unfoldable pub sweep_shards : ℤ → List Shard → Counters → List Shard × Counters
sweep_shards now [] c = ([], c)
sweep_shards now (shard ∷ shards) c =
    let (kept, c') = sweep_shard now shard c in
    let (rest, c'') = sweep_shards now shards c' in (kept ∷ rest, c'')

unfoldable pub sweep : ℤ → Store → Store
sweep now s =
    let (shards, c) =
      sweep_shards now s.shards
        (record { memory = s.approximate_memory; expired = s.expired_keys }) in
    record { shards = shards; approximate_memory = c.memory; expired_keys = c.expired }

unfoldable pub shard_keys : Shard → List Bytes
shard_keys [] = []
shard_keys ((key, entry) ∷ shard) = key ∷ shard_keys shard

unfoldable pub all_keys : List Shard → List Bytes
all_keys [] = []
all_keys (shard ∷ shards) = shard_keys shard ++ all_keys shards

pub data KeysResult : Type 0 where
  ok : List Bytes → KeysResult
  unsupported_pattern : KeysResult

unfoldable pub keys : ℤ → Bytes → Store → KeysResult × Store
keys now pattern s =
    if not (eqb pattern (text "*"))
    then (unsupported_pattern, s)
    else (ok (sort (all_keys (sweep now s).shards)), sweep now s)

unfoldable pub export_shard : Shard → List PersistedEntry
export_shard [] = []
export_shard ((key, entry) ∷ shard) =
    record { key = key; value = entry.value; expiry_wall = entry.expires_at_wall }
    ∷ export_shard shard

unfoldable pub export_shards : List Shard → List PersistedEntry
export_shards [] = []
export_shards (shard ∷ shards) = export_shard shard ++ export_shards shards

unfoldable pub export_snapshot_entries : ℤ → Store → List PersistedEntry × Store
export_snapshot_entries now s = (export_shards (sweep now s).shards, sweep now s)

-- `draw t n` is the number that the t-th call of the distribution over 0 … n - 1 returns.
-- `none` is an iterator moved past the end of the shard.
pub record Sampling : Type 0 where
  pub shard : Shard
  pub counters : Counters
  pub expired : ℕ

unfoldable pub sample_entry : ℤ → Bytes × Entry → Sampling → Sampling
sample_entry now (key, entry) s =
    if is_expired entry now
    then record {
      shard = Map.erase key s.shard;
      counters = count_entry entry s.counters;
      expired = suc s.expired;
    }
    else s

unfoldable pub sample_loop : (ℕ → ℕ → ℕ) → ℤ → ℕ → ℕ → Sampling → Option Sampling
sample_loop draw now zero t s = some s
sample_loop draw now (suc attempts) t s = elim (get_elem? s.shard (draw t (length s.shard))) [
  | none ↦ none
  | some found ↦ sample_loop draw now attempts (suc t) (sample_entry now found s)
]

-- The shards behind the first, with the number of draws made before.
unfoldable pub expire_shards :
    (ℕ → ℕ → ℕ) → ℤ → ℕ → ℕ → List Shard → Counters → Option (List Shard × Counters × ℕ)
expire_shards draw now samples t [] c = some ([], c, 0)
expire_shards draw now samples t (shard ∷ shards) c =
    let count = min samples (length shard) in
    elim (sample_loop draw now count t (record { shard = shard; counters = c; expired = 0 })) [
      | none ↦ none
      | some s ↦ elim (expire_shards draw now samples (t + count) shards s.counters) [
        | none ↦ none
        | some (rest, c', n) ↦ some (s.shard ∷ rest, c', s.expired + n)
      ]
    ]

unfoldable pub active_expire_cycle : (ℕ → ℕ → ℕ) → ℤ → ℕ → Store → Option (ℕ × Store)
active_expire_cycle draw now zero s = some (0, s)
active_expire_cycle draw now (suc samples) s =
    elim (expire_shards draw now (suc samples) 0 s.shards
      (record { memory = s.approximate_memory; expired = s.expired_keys })) [
        | none ↦ none
        | some (shards, c, n) ↦
            some (
              n,
              record { shards = shards; approximate_memory = c.memory; expired_keys = c.expired },
            )
      ]

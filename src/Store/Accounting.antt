-- ===== src/Store/Accounting.antt =====
-- The memory account of src/store/store.cpp: the sums behind approximate_memory_, and the predicate
-- on a store.
pub mod Totals
pub mod Steps
use distributed_data_store.Prelude.{ℕ, ◌+◌, ◌%◌, ◌^◌, ◌<◌, ◌≡◌, List, [], ◌∷◌, All, none}
use distributed_data_store.Store.Map
use distributed_data_store.Store.{Entry, Shard, Store}
use distributed_data_store.Store.Lookup.{HasShards}

abbrev pub total : Shard → ℕ
total [] = 0
total ((key, entry) ∷ shard) = entry.stored_bytes + total shard

abbrev pub total_all : List Shard → ℕ
total_all [] = 0
total_all (shard ∷ shards) = total shard + total_all shards

abbrev pub Distinct : Shard → Type 0
Distinct [] = Unit
Distinct ((key, entry) ∷ shard) = (Map.find key shard ≡ none) × Distinct shard

pub record IsAccounted (s : Store) : Type 0 where
  pub nonempty : HasShards s
  pub distinct : All Distinct s.shards
  pub memory : s.approximate_memory ≡ total_all s.shards % 2 ^ 64

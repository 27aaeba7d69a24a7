-- ===== src/Store.antt =====
-- include/novacache/store/store.hpp and src/store/store.cpp: the sharded store.
-- A time is a number of nanoseconds since the epoch of its clock, of either sign. Each operation
-- takes what it reads from the clock as arguments. std::hash and sizeof(Entry) are the platform's.
-- One call is one step on the whole store; where a call takes a shard's lock twice its two halves
-- are functions of their own.
pub mod Map
pub mod Lookup
pub mod View
pub mod Accounting
pub mod Update
pub mod Read
pub mod Sweep
mod Examples
use distributed_data_store.Prelude.{
  ℕ, zero, suc, ◌+◌, ◌-◌, ◌*◌, ◌/◌, ◌%◌, ◌^◌, min, Bool, true, false, not, Option, none, some, List,
  [], ◌∷◌, ◌++◌, map, Bytes, text, eqb, length, get_elem?, set, replicate, ltb, leb, ◌==◌,
  if◌then◌else◌, ℤ, pos, negsuc, ◌+ℤ◌, ◌-ℤ◌, leb_ℤ,
}
use distributed_data_store.Store.Map

-- std::variant<std::string, std::int64_t, StringList, StringSet>; a set as the list of its items in
-- the order in which it iterates.
pub data Value : Type 0 where
  string_value : Bytes → Value
  int_value : ℤ → Value
  list_value set_value : List Bytes → Value

pub record Entry : Type 0 where
  pub value : Value
  pub expires_at : Option ℤ
  pub expires_at_wall : Option ℤ
  pub stored_bytes : ℕ

pub record PersistedEntry : Type 0 where
  pub key : Bytes
  pub value : Value
  pub expiry_wall : Option ℤ

abbrev pub Shard : Type 0
Shard = Map.Map Entry

pub record Store : Type 0 where
  pub shards : List Shard
  pub approximate_memory : ℕ
  pub expired_keys : ℕ

-- std::hash<std::string_view> and sizeof(Entry).
pub record Platform : Type 0 where
  pub hash : Bytes → ℕ
  pub entry_size : ℕ

-- One reading of both clocks.
pub record Reading : Type 0 where
  pub now : ℤ
  pub wall_now : ℤ

-- fetch_add and fetch_sub of a std::atomic<std::uint64_t>
unfoldable pub add_u64 : ℕ → ℕ → ℕ
add_u64 a b = (a + b) % 2 ^ 64

unfoldable pub sub_u64 : ℕ → ℕ → ℕ
sub_u64 a b = (a + (2 ^ 64 - b % 2 ^ 64)) % 2 ^ 64

-- The constructor; `none` is std::invalid_argument.
unfoldable pub create : ℕ → Option Store
create zero = none
create (suc n) =
    some (record { shards = replicate (suc n) []; approximate_memory = 0; expired_keys = 0 })

unfoldable pub sum_sizes : List Bytes → ℕ
sum_sizes [] = 0
sum_sizes (item ∷ items) = length item + sum_sizes items

unfoldable pub value_bytes : Value → ℕ
value_bytes (string_value s) = length s
value_bytes (int_value n) = 8
value_bytes (list_value items) = sum_sizes items
value_bytes (set_value items) = sum_sizes items

unfoldable pub is_expired : Entry → ℤ → Bool
is_expired entry now = elim entry.expires_at [ none ↦ false | some t ↦ leb_ℤ t now ]

unfoldable pub count_expired : Store → Store
count_expired s = record s { expired_keys = add_u64 s.expired_keys 1 }

abbrev pub or_empty : Option Shard → Shard
or_empty none = []
or_empty (some shard) = shard

module _ (platform : Platform) where
  unfoldable pub estimate_bytes : Bytes → Value → ℕ
  estimate_bytes key value = (length key + platform.entry_size + value_bytes value) % 2 ^ 64

  unfoldable pub shard_index : Bytes → Store → ℕ
  shard_index key s = platform.hash key % length s.shards

  -- shard_for; the index is in range.
  unfoldable pub shard_for : Bytes → Store → Shard
  shard_for key s = or_empty (get_elem? s.shards (shard_index key s))

  -- shard.entries.find(key)
  unfoldable pub find_entry : Bytes → Store → Option Entry
  find_entry key s = Map.find key (shard_for key s)

  unfoldable pub with_shard : Bytes → Shard → Store → Store
  with_shard key shard s = record s { shards = set s.shards (shard_index key s) shard }

  -- fetch_sub of the entry's bytes, then shard.entries.erase(iterator).
  unfoldable pub erase_entry : Bytes → Entry → Store → Store
  erase_entry key entry s = record (with_shard key (Map.erase key (shard_for key s)) s) {
    approximate_memory = sub_u64 s.approximate_memory entry.stored_bytes;
  }

  unfoldable pub erase_expired_locked : Bytes → Entry → ℤ → Store → Bool × Store
  erase_expired_locked key entry now s =
      if is_expired entry now then (true, count_expired (erase_entry key entry s)) else (false, s)

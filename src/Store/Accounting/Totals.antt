-- ===== src/Store/Accounting/Totals.antt =====
-- The totals and the keys of a shard of src/store/store.cpp, with one entry erased or written.
use distributed_data_store.Prelude.{
  ℕ, zero, suc, ◌+◌, ◌%◌, ◌^◌, ◌<◌, ◌≡◌, refl, none, some, List, [], ◌∷◌, Bytes, eqb, eqb_iff,
  length, get_elem?, set, arith, All, subst, Bool-cases, inl, inr,
}
use distributed_data_store.Store.Map
use distributed_data_store.Store.{
  Entry, Shard, Store, Platform, sub_u64, add_u64, shard_for, shard_index, or_empty,
}
use distributed_data_store.Store.Lookup.{HasShards, shard_index-lt}
use distributed_data_store.Store.Accounting.{total, total_all, Distinct}

erase_absent : (key : Bytes) (m : Shard) → Map.find key m ≡ none → Map.erase key m ≡ m
unfolding Map.find Map.erase
erase_absent key [] h = refl
erase_absent key ((j, e) ∷ m) h = ground (arith, erase_absent key m)

pub total-erase :
    (key : Bytes) (entry : Entry) (m : Shard)
    → Distinct m
    → Map.find key m ≡ some entry
    → total (Map.erase key m) + entry.stored_bytes ≡ total m
unfolding Map.find Map.erase
total-erase key entry [] d found = cc
total-erase key entry ((j, e) ∷ m) d found = elim (Bool-cases (eqb j key)) [
  | inl hit ↦
      let absent : Map.find key m ≡ none = rw (← (eqb_iff j key).0 hit) d.0 in
      rw (hit, erase_absent key m absent) (ground arith)
  | inr miss ↦ ground (arith, total-erase key entry m d.1)
]

pub total-put_new :
    (key : Bytes) (entry : Entry) (m : Shard)
    → Map.find key m ≡ none
    → total (Map.put key entry m) ≡ total m + entry.stored_bytes
unfolding Map.find Map.put
total-put_new key entry [] found = omega arith
total-put_new key entry ((j, e) ∷ m) found = ground (arith, total-put_new key entry m)

pub total-put_old :
    (key : Bytes) (entry old : Entry) (m : Shard)
    → Map.find key m ≡ some old
    → total (Map.put key entry m) + old.stored_bytes ≡ total m + entry.stored_bytes
unfolding Map.find Map.put
total-put_old key entry old [] found = cc
total-put_old key entry old ((j, e) ∷ m) found = ground (arith, total-put_old key entry old m)

pub Distinct-erase : (key : Bytes) (m : Shard) → Distinct m → Distinct (Map.erase key m)
unfolding Map.erase
Distinct-erase key [] d = tt
Distinct-erase key ((j, e) ∷ m) d = elim (Bool-cases (eqb j key)) [
  | inl hit ↦ rw hit (Distinct-erase key m d.1)
  | inr miss ↦ rw miss (rw (Map.find-erase key j m) (ground (arith, d.0)), Distinct-erase key m d.1)
]

pub Distinct-put :
    (key : Bytes) (entry : Entry) (m : Shard) → Distinct m → Distinct (Map.put key entry m)
unfolding Map.put Map.find
Distinct-put key entry [] d = (refl, tt)
Distinct-put key entry ((j, e) ∷ m) d = elim (Bool-cases (eqb j key)) [
  | inl hit ↦ rw hit (rw (← (eqb_iff j key).0 hit) d.0, d.1)
  | inr miss ↦ rw miss (
    rw (Map.find-put key j entry m) (ground (arith, d.0, eqb_iff j key, eqb_iff key j)),
    Distinct-put key entry m d.1,
  )
]

pub total_all-set :
    (shards : List Shard) (i : ℕ) (old new : Shard)
    → get_elem? shards i ≡ some old
    → total_all (set shards i new) + total old ≡ total_all shards + total new
total_all-set [] i old new h = cc
total_all-set (x ∷ xs) zero old new h = ground arith
total_all-set (x ∷ xs) (suc i) old new h = omega (arith, total_all-set xs i old new h)

pub All-set :
    (shards : List Shard) (i : ℕ) (new : Shard)
    → All Distinct shards
    → Distinct new
    → All Distinct (set shards i new)
All-set [] i new all d = tt
All-set (x ∷ xs) zero new all d = (d, all.1)
All-set (x ∷ xs) (suc i) new all d = (all.0, All-set xs i new all.1 d)

pub All-get_elem? :
    (shards : List Shard) (i : ℕ) (shard : Shard)
    → All Distinct shards
    → get_elem? shards i ≡ some shard
    → Distinct shard
All-get_elem? [] i shard all h = cc
All-get_elem? (x ∷ xs) zero shard all h = subst Distinct (cc) all.0
All-get_elem? (x ∷ xs) (suc i) shard all h = All-get_elem? xs i shard all.1 h

get_elem?-total :
    (shards : List Shard) (i : ℕ)
    → i < length shards
    → get_elem? shards i ≡ some (or_empty (get_elem? shards i))
get_elem?-total [] i h = absurd (omega arith)
get_elem?-total (x ∷ xs) zero h = refl
get_elem?-total (x ∷ xs) (suc i) h = get_elem?-total xs i (omega arith)

-- The shard of a key is one of the shards.
pub get_elem?-shard_for :
    (platform : Platform) (key : Bytes) (s : Store)
    → HasShards s
    → get_elem? s.shards (shard_index platform key s) ≡ some (shard_for platform key s)
unfolding shard_for
get_elem?-shard_for platform key s h =
    get_elem?-total s.shards (shard_index platform key s) (shard_index-lt platform key s h)

-- The counter follows the total, wrap-around included.
pub sub_u64-total : (t t' b : ℕ) → t' + b ≡ t → sub_u64 (t % 2 ^ 64) b ≡ t' % 2 ^ 64
unfolding sub_u64
sub_u64-total t t' b h = omega arith

pub add_u64-total : (t b : ℕ) → add_u64 (t % 2 ^ 64) b ≡ (t + b) % 2 ^ 64
unfolding add_u64
add_u64-total t b = omega arith

pub replace_u64-total :
    (t t' old new : ℕ) → t' + old ≡ t + new → add_u64 (sub_u64 (t % 2 ^ 64) old) new ≡ t' % 2 ^ 64
unfolding add_u64 sub_u64
replace_u64-total t t' old new h = omega arith

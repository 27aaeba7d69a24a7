-- ===== src/Store/Lookup.antt =====
-- find_entry of src/store/store.cpp, and the writes of one shard.
use native.Mathlib.Nat.{mod-lt}
use distributed_data_store.Prelude.{
  ==_iff, ℕ, zero, suc, ◌%◌, ◌<◌, ◌≡◌, refl, Option, none, some, List, [], ◌∷◌, arith, Bytes, eqb,
  eqb_iff, length, length-set, get_elem?, set, if◌then◌else◌, ap, ◌==◌, Bool-cases, inl, inr,
}
use distributed_data_store.Store.Map
use distributed_data_store.Store.{
  Entry, Shard, Store, Platform, shard_index, shard_for, find_entry, with_shard, erase_entry,
  count_expired,
}

get_elem?-set {ℓ} :
    {A : Type ℓ} (xs : List A) (i j : ℕ) (v : A)
    → i < length xs
    → get_elem? (set xs i v) j ≡ (if i == j then some v else get_elem? xs j)
get_elem?-set [] i j v h = absurd (omega arith)
get_elem?-set (x ∷ xs) zero zero v h = refl
get_elem?-set (x ∷ xs) zero (suc j) v h = ground arith
get_elem?-set (x ∷ xs) (suc i) zero v h = ground arith
get_elem?-set (x ∷ xs) (suc i) (suc j) v h =
    rw (get_elem?-set xs i j v (omega arith)) (ground arith)

-- There is a shard.
abbrev pub HasShards : Store → Type 0
HasShards s = 0 < length s.shards

module _ (platform : Platform) where
  pub shard_index-lt :
      (key : Bytes) (s : Store) → HasShards s → shard_index platform key s < length s.shards
  unfolding shard_index
  shard_index-lt key s h = mod-lt (platform.hash key) h

  pub find-with_shard :
      (k j : Bytes) (shard : Shard) (s : Store)
      → HasShards s
      → find_entry platform j (with_shard platform k shard s) ≡ (
          if shard_index platform k s == shard_index platform j s
          then Map.find j shard
          else find_entry platform j s)
  unfolding find_entry shard_for with_shard shard_index
  find-with_shard k j shard s h =
      rw
        (
          length-set s.shards (platform.hash k % length s.shards) shard,
          get_elem?-set s.shards (platform.hash k % length s.shards)
              (platform.hash j % length s.shards) shard (mod-lt (platform.hash k) h),
        )
        (ground arith)

  shard_for-index :
      (k j : Bytes) (s : Store)
      → shard_index platform k s ≡ shard_index platform j s
      → shard_for platform k s ≡ shard_for platform j s
  unfolding shard_for
  shard_for-index k j s e = rw e

  -- Writing the shard of `k` back after a change that shows only at `k`.
  pub find-write :
      (k j : Bytes) (shard : Shard) (found : Option Entry) (s : Store)
      → HasShards s
      → Map.find j shard ≡ (if eqb k j then found else Map.find j (shard_for platform k s))
      → find_entry platform j (with_shard platform k shard s)
        ≡ (if eqb k j then found else find_entry platform j s)
  unfolding find_entry
  find-write k j shard found s h e = elim (Bool-cases (eqb k j)) [
    | inl same ↦
        let index = ap (λ (x : Bytes). shard_index platform x s) ((eqb_iff k j).0 same) in
        ground (arith, find-with_shard k j shard s h)
    | inr other ↦ elim (Bool-cases (shard_index platform k s == shard_index platform j s)) [
      | inl near ↦
          let shards = shard_for-index k j s ((==_iff _ _).0 near) in
          ground (arith, find-with_shard k j shard s h, ap (λ (m : Shard). Map.find j m) shards)
      | inr far ↦ ground (arith, find-with_shard k j shard s h)
    ]
  ]

  pub find-erase_entry :
      (k j : Bytes) (entry : Entry) (s : Store)
      → HasShards s
      → find_entry platform j (erase_entry platform k entry s)
        ≡ (if eqb k j then none else find_entry platform j s)
  unfolding erase_entry find_entry shard_for shard_index
  find-erase_entry k j entry s h =
      find-write k j (Map.erase k (shard_for platform k s)) none s h
        (Map.find-erase k j (shard_for platform k s))

  pub find-put_entry :
      (k j : Bytes) (entry : Entry) (s : Store)
      → HasShards s
      → find_entry platform j (with_shard platform k (Map.put k entry (shard_for platform k s)) s)
        ≡ (if eqb k j then some entry else find_entry platform j s)
  find-put_entry k j entry s h =
      find-write k j (Map.put k entry (shard_for platform k s)) (some entry) s h
        (Map.find-put k j entry (shard_for platform k s))

  pub find-count_expired :
      (j : Bytes) (s : Store) → find_entry platform j (count_expired s) ≡ find_entry platform j s
  unfolding find_entry shard_for shard_index count_expired
  find-count_expired j s = refl

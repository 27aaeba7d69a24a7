-- ===== src/Store/View/Shards.antt =====
-- The shards of src/store/store.cpp under the operations that write, and under `clear`.
use distributed_data_store.Prelude.{
  ℕ, zero, suc, ◌≡◌, refl, Option, none, some, List, [], ◌∷◌, map, Bytes, length, length-set,
  get_elem?, ℤ, leb_ℤ, Bool-cases, Option-cases, inl, inr, ap,
}
use distributed_data_store.Store.Map
use distributed_data_store.Store.{
  Value, Entry, Shard, Store, Platform, Reading, is_expired, or_empty, find_entry, shard_for,
  shard_index, with_shard, erase_expired_locked, count_expired,
}
use distributed_data_store.Store.Update.{
  store_entry, drop_entry, set_at, del, del_many, expire_entry, expire_found, expire_at, clear,
}
use distributed_data_store.Store.View.{length-erase_entry}
use distributed_data_store.Store.View.Writes.{length-del}

module _ (platform : Platform) where
  length-store_entry :
      (key : Bytes) (entry : Entry) (now : ℤ) (old : Option Entry) (s : Store)
      → length (store_entry platform key entry now old s).shards ≡ length s.shards
  unfolding store_entry with_shard
  length-store_entry key entry now none s = length-set s.shards _ _
  length-store_entry key entry now (some old) s = length-set s.shards _ _

  length-drop_entry :
      (key : Bytes) (old : Option Entry) (s : Store)
      → length (drop_entry platform key old s).shards ≡ length s.shards
  unfolding drop_entry count_expired
  length-drop_entry key none s = refl
  length-drop_entry key (some old) s = length-erase_entry platform key old s

  pub length-set_at :
      (r : Reading) (key : Bytes) (value : Value) (wall : Option ℤ) (s : Store)
      → length (set_at platform r key value wall s).shards ≡ length s.shards
  unfolding set_at
  length-set_at r key value none s = length-store_entry key _ r.now (find_entry platform key s) s
  length-set_at r key value (some wall) s = elim (Bool-cases (leb_ℤ wall r.wall_now)) [
    | inl passed ↦ rw passed (length-drop_entry key (find_entry platform key s) s)
    | inr ahead ↦ rw ahead (length-store_entry key _ r.now (find_entry platform key s) s)
  ]

  pub length-del_many :
      (now : ℤ) (keys : List Bytes) (s : Store)
      → length (del_many platform now keys s).1.shards ≡ length s.shards
  unfolding del_many
  length-del_many now [] s = refl
  length-del_many now (key ∷ keys) s =
      rw (length-del_many now keys (del platform now key s).1) (length-del platform now key s)

  length-expire_entry :
      (first second : Reading) (key : Bytes) (wall : Option ℤ) (entry : Entry) (s : Store)
      → length (expire_entry platform first second key wall entry s).1.shards ≡ length s.shards
  unfolding expire_entry with_shard
  length-expire_entry first second key none entry s = length-erase_entry platform key entry s
  length-expire_entry first second key (some wall) entry s =
      elim (Bool-cases (leb_ℤ wall first.wall_now)) [
        | inl passed ↦ rw passed (length-erase_entry platform key entry s)
        | inr ahead ↦ rw ahead (length-set s.shards _ _)
      ]

  pub length-expire_at :
      (first second : Reading) (key : Bytes) (wall : Option ℤ) (s : Store)
      → length (expire_at platform first second key wall s).1.shards ≡ length s.shards
  unfolding expire_at expire_found erase_expired_locked count_expired
  length-expire_at first second key wall s = elim (Option-cases (find_entry platform key s)) [
    | inl missing ↦ rw missing
    | inr (entry, found) ↦ elim (Bool-cases (is_expired entry first.now)) [
      | inl dead ↦ rw (found, dead, length-erase_entry platform key entry s)
      | inr lives ↦ rw (found, lives) (length-expire_entry first second key wall entry s)
    ]
  ]

  abbrev emptied : List Shard → List Shard
  emptied = map (λ shard. [])

  length-emptied : (shards : List Shard) → length (emptied shards) ≡ length shards
  length-emptied [] = refl
  length-emptied (shard ∷ shards) = ap suc (length-emptied shards)

  pub length-clear : (s : Store) → length (clear s).shards ≡ length s.shards
  unfolding clear
  length-clear s = length-emptied s.shards

  find-emptied :
      (j : Bytes) (shards : List Shard) (i : ℕ)
      → Map.find j (or_empty (get_elem? (emptied shards) i)) ≡ none
  unfolding Map.find
  find-emptied j [] i = refl
  find-emptied j (shard ∷ shards) zero = refl
  find-emptied j (shard ∷ shards) (suc i) = find-emptied j shards i

  -- A cleared store has no entry.
  pub find-clear : (j : Bytes) (s : Store) → find_entry platform j (clear s) ≡ none
  unfolding find_entry shard_for clear
  find-clear j s = find-emptied j s.shards (shard_index platform j (clear s))

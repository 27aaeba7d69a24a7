-- ===== src/Store/Accounting/Steps.antt =====
-- set, del, del_many and expire_at of src/store/store.cpp, and the memory account.
use distributed_data_store.Prelude.{
  ℕ, ◌+◌, ◌%◌, ◌^◌, ◌≡◌, refl, ap, ◌∙◌, Option, none, some, List, [], ◌∷◌, Bytes, length-set, arith,
  Bool-cases, Option-cases, inl, inr, ℤ, leb_ℤ,
}
use distributed_data_store.Store.Map
use distributed_data_store.Store.{
  Value, Entry, Shard, Store, Platform, Reading, sub_u64, add_u64, shard_for, shard_index,
  find_entry, with_shard, erase_entry, count_expired, is_expired, erase_expired_locked,
}
use distributed_data_store.Store.Update.{
  store_entry, drop_entry, set_at, del_entry, del, del_many, expire_entry, expire_found, expire_at,
}
use distributed_data_store.Store.Accounting.{total, total_all, Distinct, IsAccounted}
use distributed_data_store.Store.Accounting.Totals.{
  total-erase, total-put_new, total-put_old, Distinct-erase, Distinct-put, total_all-set, All-set,
  All-get_elem?, get_elem?-shard_for, sub_u64-total, replace_u64-total, add_u64-total,
}

pub count_expired-IsAccounted : {s : Store} → IsAccounted s → IsAccounted (count_expired s)
unfolding count_expired
count_expired-IsAccounted a = record {
  nonempty = a.nonempty;
  distinct = a.distinct;
  memory = a.memory;
}

module _ (platform : Platform) (key : Bytes) (s : Store) (a : IsAccounted s) where
  shard_Distinct : Distinct (shard_for platform key s)
  shard_Distinct =
      All-get_elem? s.shards (shard_index platform key s) (shard_for platform key s) a.distinct
        (get_elem?-shard_for platform key s a.nonempty)

  total-with_shard :
      (new : Shard)
      → total_all (with_shard platform key new s).shards + total (shard_for platform key s)
        ≡ total_all s.shards + total new
  unfolding with_shard
  total-with_shard new =
      total_all-set s.shards (shard_index platform key s) (shard_for platform key s) new
        (get_elem?-shard_for platform key s a.nonempty)

  -- A shard written back with distinct keys, beside a counter for its new total.
  written_back :
      (new : Shard) (memory expired : ℕ)
      → Distinct new
      → memory ≡ total_all (with_shard platform key new s).shards % 2 ^ 64
      → IsAccounted (record (with_shard platform key new s) {
        approximate_memory = memory;
        expired_keys = expired;
      })
  unfolding with_shard
  written_back new memory expired d m = record {
    nonempty = omega (arith, a.nonempty, length-set s.shards (shard_index platform key s) new);
    distinct = All-set s.shards (shard_index platform key s) new a.distinct d;
    memory = m;
  }

  pub erase_entry-IsAccounted :
      (entry : Entry)
      → find_entry platform key s ≡ some entry
      → IsAccounted (erase_entry platform key entry s)
  unfolding erase_entry find_entry
  erase_entry-IsAccounted entry found =
      written_back (Map.erase key (shard_for platform key s)) _ _
        (Distinct-erase key (shard_for platform key s) shard_Distinct)
        (ap (λ (m : ℕ). sub_u64 m entry.stored_bytes) a.memory
          ∙ sub_u64-total (total_all s.shards) _ entry.stored_bytes (
              omega (
                arith,
                total-with_shard (Map.erase key (shard_for platform key s)),
                total-erase key entry (shard_for platform key s) shard_Distinct found,
              )))

  pub store_entry-IsAccounted :
      (entry : Entry) (now : ℤ) (old : Option Entry)
      → find_entry platform key s ≡ old
      → IsAccounted (store_entry platform key entry now old s)
  unfolding store_entry find_entry
  store_entry-IsAccounted entry now none found =
      written_back (Map.put key entry (shard_for platform key s)) _ _
        (Distinct-put key entry (shard_for platform key s) shard_Distinct)
        (ap (λ (m : ℕ). add_u64 m entry.stored_bytes) a.memory
          ∙ add_u64-total (total_all s.shards) entry.stored_bytes
          ∙ ap (λ (m : ℕ). m % 2 ^ 64)
              (omega (
                arith,
                total-with_shard (Map.put key entry (shard_for platform key s)),
                total-put_new key entry (shard_for platform key s) found,
              )))
  store_entry-IsAccounted entry now (some old) found =
      written_back (Map.put key entry (shard_for platform key s)) _ _
        (Distinct-put key entry (shard_for platform key s) shard_Distinct)
        (ap (λ (m : ℕ). add_u64 (sub_u64 m old.stored_bytes) entry.stored_bytes) a.memory
          ∙ replace_u64-total (total_all s.shards) _ old.stored_bytes entry.stored_bytes (
              omega (
                arith,
                total-with_shard (Map.put key entry (shard_for platform key s)),
                total-put_old key entry old (shard_for platform key s) found,
              )))

  pub erase_expired_locked-IsAccounted :
      (entry : Entry) (now : ℤ)
      → find_entry platform key s ≡ some entry
      → IsAccounted (erase_expired_locked platform key entry now s).1
  unfolding erase_expired_locked
  erase_expired_locked-IsAccounted entry now found = elim (Bool-cases (is_expired entry now)) [
    | inl dead ↦ rw dead (count_expired-IsAccounted (erase_entry-IsAccounted entry found))
    | inr lives ↦ rw lives a
  ]

  drop_entry-IsAccounted : IsAccounted (drop_entry platform key (find_entry platform key s) s)
  unfolding drop_entry
  drop_entry-IsAccounted = elim (Option-cases (find_entry platform key s)) [
    | inl missing ↦ rw missing a
    | inr (entry, found) ↦
        rw found (count_expired-IsAccounted (erase_entry-IsAccounted entry found))
  ]

  -- `set` keeps the account, that no key stands twice and the memory counter is the sum of the
  -- stored bytes modulo 2^64, whether it stores, replaces or drops an entry.
  pub set_at-IsAccounted :
      (r : Reading) (value : Value) (wall : Option ℤ)
      → IsAccounted (set_at platform r key value wall s)
  unfolding set_at
  set_at-IsAccounted r value none = store_entry-IsAccounted _ r.now (find_entry platform key s) refl
  set_at-IsAccounted r value (some wall) = elim (Bool-cases (leb_ℤ wall r.wall_now)) [
    | inl passed ↦ rw passed drop_entry-IsAccounted
    | inr ahead ↦ rw ahead (store_entry-IsAccounted _ r.now (find_entry platform key s) refl)
  ]

  pub del-IsAccounted : (now : ℤ) → IsAccounted (del platform now key s).1
  unfolding del del_entry erase_expired_locked
  del-IsAccounted now = elim (Option-cases (find_entry platform key s)) [
    | inl missing ↦ rw missing a
    | inr (entry, found) ↦ elim (Bool-cases (is_expired entry now)) [
      | inl dead ↦
          rw (found, dead) (count_expired-IsAccounted (erase_entry-IsAccounted entry found))
      | inr lives ↦ rw (found, lives) (erase_entry-IsAccounted entry found)
    ]
  ]

  -- A new deadline leaves the stored bytes as they are.
  retime-IsAccounted :
      (entry new : Entry)
      → find_entry platform key s ≡ some entry
      → new.stored_bytes ≡ entry.stored_bytes
      → IsAccounted (with_shard platform key (Map.put key new (shard_for platform key s)) s)
  unfolding find_entry with_shard
  retime-IsAccounted entry new found bytes =
      written_back (Map.put key new (shard_for platform key s)) _ _
        (Distinct-put key new (shard_for platform key s) shard_Distinct)
        (a.memory
          ∙ ap (λ (m : ℕ). m % 2 ^ 64)
              (omega (
                arith,
                total-with_shard (Map.put key new (shard_for platform key s)),
                total-put_old key new entry (shard_for platform key s) found,
              )))

  -- `expire_at` keeps the account, whether it gives the entry a deadline or erases it.
  pub expire_at-IsAccounted :
      (first second : Reading) (wall : Option ℤ)
      → IsAccounted (expire_at platform first second key wall s).1
  unfolding expire_at expire_found erase_expired_locked expire_entry
  expire_at-IsAccounted first second wall = elim (Option-cases (find_entry platform key s)) [
    | inl missing ↦ rw missing a
    | inr (entry, found) ↦ elim (Bool-cases (is_expired entry first.now)) [
      | inl dead ↦
          rw (found, dead) (count_expired-IsAccounted (erase_entry-IsAccounted entry found))
      | inr lives ↦ rw (found, lives) (expired_to wall entry found)
    ]
  ]
    where
      expired_to :
          (wall : Option ℤ) (entry : Entry)
          → find_entry platform key s ≡ some entry
          → IsAccounted (expire_entry platform first second key wall entry s).1
      expired_to none entry found = erase_entry-IsAccounted entry found
      expired_to (some wall) entry found = elim (Bool-cases (leb_ℤ wall first.wall_now)) [
        | inl passed ↦ rw passed (erase_entry-IsAccounted entry found)
        | inr ahead ↦ rw ahead (retime-IsAccounted entry _ found refl)
      ]

-- `del_many` keeps the account.
del_many-IsAccounted :
    (platform : Platform) (now : ℤ) (keys : List Bytes) (s : Store)
    → IsAccounted s
    → IsAccounted (del_many platform now keys s).1
unfolding del_many
del_many-IsAccounted platform now [] s a = a
del_many-IsAccounted platform now (key ∷ keys) s a =
    del_many-IsAccounted platform now keys (del platform now key s).1
      (del-IsAccounted platform key s a now)

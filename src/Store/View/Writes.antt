-- ===== src/Store/View/Writes.antt =====
-- The writing operations of src/store/store.cpp, and the entry of each key.
use distributed_data_store.Prelude.{
  ℕ, suc, ◌≡◌, refl, ◌∙◌, Bool, true, false, not, Option, none, some, List, [], ◌∷◌, Bytes, eqb,
  eqb_iff, length, if◌then◌else◌, arith, ℤ, ◌+ℤ◌, ◌-ℤ◌, Bool-cases, Option-cases, inl, inr, leb_ℤ,
  ◌&&◌,
}
use distributed_data_store.Store.{
  Value, Entry, Store, Platform, Reading, is_expired, find_entry, erase_expired_locked,
  count_expired, estimate_bytes, shard_for, shard_index,
}
use distributed_data_store.Store.Update.{
  store_entry, drop_entry, set_at, del_entry, del, del_many, expire_entry, expire_found, expire_at,
}
use distributed_data_store.Store.Lookup.{
  HasShards, find-erase_entry, find-put_entry, find-count_expired,
}
use distributed_data_store.Store.View.{alive, live, length-erase_entry}
use distributed_data_store.Store.View.Reads.{is_some}

module _ (platform : Platform) where
  -- The entry that `set` leaves at its key.
  abbrev pub new_entry : Reading → Bytes → Value → Option ℤ → Option Entry
  new_entry r key value none = some (record {
    value = value;
    expires_at = none;
    expires_at_wall = none;
    stored_bytes = estimate_bytes platform key value;
  })
  new_entry r key value (some wall) =
      if leb_ℤ wall r.wall_now
      then none
      else some (record {
        value = value;
        expires_at = some (r.now +ℤ (wall -ℤ r.wall_now));
        expires_at_wall = some wall;
        stored_bytes = estimate_bytes platform key value;
      })

  find-store_entry :
      (key j : Bytes) (entry : Entry) (now : ℤ) (old : Option Entry) (s : Store)
      → HasShards s
      → find_entry platform j (store_entry platform key entry now old s)
        ≡ (if eqb key j then some entry else find_entry platform j s)
  unfolding store_entry find_entry shard_for shard_index
  find-store_entry key j entry now none s shards = find-put_entry platform key j entry s shards
  find-store_entry key j entry now (some old) s shards =
      find-put_entry platform key j entry s shards

  find-drop_entry :
      (key j : Bytes) (s : Store)
      → HasShards s
      → find_entry platform j (drop_entry platform key (find_entry platform key s) s)
        ≡ (if eqb key j then none else find_entry platform j s)
  unfolding drop_entry
  find-drop_entry key j s shards = elim (Option-cases (find_entry platform key s)) [
    | inl missing ↦ elim (Bool-cases (eqb key j)) [
      | inl hit ↦ rw (missing, hit, ← (eqb_iff key j).0 hit, missing)
      | inr miss ↦ rw (missing, miss)
    ]
    | inr (entry, found) ↦
        rw (found, find-count_expired platform, find-erase_entry platform key j entry s shards)
  ]

  -- In a store with a shard, after `set` its own key has the new entry, or none if the deadline
  -- has passed, and every other key has the entry that it had.
  pub find-set_at :
      (r : Reading) (key j : Bytes) (value : Value) (wall : Option ℤ) (s : Store)
      → HasShards s
      → find_entry platform j (set_at platform r key value wall s)
        ≡ (if eqb key j then new_entry r key value wall else find_entry platform j s)
  unfolding set_at
  find-set_at r key j value none s shards =
      find-store_entry key j _ r.now (find_entry platform key s) s shards
  find-set_at r key j value (some wall) s shards = elim (Bool-cases (leb_ℤ wall r.wall_now)) [
    | inl passed ↦ rw passed (find-drop_entry key j s shards)
    | inr ahead ↦ rw ahead (find-store_entry key j _ r.now (find_entry platform key s) s shards)
  ]

  -- `del` answers whether its key was live; from then on that key is not, and every other key is as
  -- it was.
  pub del-eq-live :
      (now : ℤ) (key : Bytes) (s : Store)
      → HasShards s
      → (del platform now key s).0 ≡ is_some (live platform now key s)
  unfolding del del_entry erase_expired_locked live alive
  del-eq-live now key s shards = elim (Option-cases (find_entry platform key s)) [
    | inl missing ↦ rw missing
    | inr (entry, found) ↦ rw found (ground arith)
  ]

  pub length-del :
      (now : ℤ) (key : Bytes) (s : Store)
      → length (del platform now key s).1.shards ≡ length s.shards
  unfolding del del_entry erase_expired_locked count_expired
  length-del now key s = elim (Option-cases (find_entry platform key s)) [
    | inl missing ↦ rw missing
    | inr (entry, found) ↦ elim (Bool-cases (is_expired entry now)) [
      | inl dead ↦ rw (found, dead, length-erase_entry platform key entry s)
      | inr lives ↦ rw (found, lives, length-erase_entry platform key entry s)
    ]
  ]

  -- After `del` its key is gone, live or not before, and every other key is as it was.
  pub find-del :
      (now : ℤ) (key j : Bytes) (s : Store)
      → HasShards s
      → find_entry platform j (del platform now key s).1
        ≡ (if eqb key j then none else find_entry platform j s)
  unfolding del del_entry erase_expired_locked
  find-del now key j s shards = elim (Option-cases (find_entry platform key s)) [
    | inl missing ↦ elim (Bool-cases (eqb key j)) [
      | inl hit ↦ rw (missing, hit, ← (eqb_iff key j).0 hit, missing)
      | inr miss ↦ rw (missing, miss)
    ]
    | inr (entry, found) ↦ elim (Bool-cases (is_expired entry now)) [
      | inl dead ↦
          rw (
            found,
            dead,
            find-count_expired platform,
            find-erase_entry platform key j entry s shards,
          )
      | inr lives ↦ rw (found, lives, find-erase_entry platform key j entry s shards)
    ]
  ]

  abbrev pub listed : Bytes → List Bytes → Bool
  listed j [] = false
  listed j (key ∷ keys) = if eqb key j then true else listed j keys

  -- The number of live keys among the arguments of `del_many`, repetitions not counted.
  abbrev pub count_distinct : ℤ → List Bytes → List Bytes → Store → ℕ
  count_distinct now seen [] s = 0
  count_distinct now seen (key ∷ keys) s =
      let rest = count_distinct now (key ∷ seen) keys s in
      if not (listed key seen) && is_some (live platform now key s) then suc rest else rest

  count_distinct-del :
      (now : ℤ) (seen keys : List Bytes) (s t : Store)
      → HasShards t
      → ((j : Bytes)
          → find_entry platform j t ≡ (if listed j seen then none else find_entry platform j s))
      → (del_many platform now keys t).0 ≡ count_distinct now seen keys s
  unfolding del_many live alive
  count_distinct-del now seen [] s t shards same = refl
  count_distinct-del now seen (key ∷ keys) s t shards same =
      let rest =
        count_distinct-del now (key ∷ seen) keys s (del platform now key t).1
          (omega (arith, length-del now key t))
          (λ j. find-del now key j t shards ∙ ground (arith, same j)) in
      rw (rest, del-eq-live now key t shards, same key) (ground arith)

  -- In a store with a shard, `del_many` answers with the number of different keys among its
  -- arguments that were there and had not expired.
  pub del_many-eq-count_distinct :
      (now : ℤ) (keys : List Bytes) (s : Store)
      → HasShards s
      → (del_many platform now keys s).0 ≡ count_distinct now [] keys s
  del_many-eq-count_distinct now keys s shards =
      count_distinct-del now [] keys s s shards (λ j. refl)

  -- In a store with a shard, after `del_many` none of its keys has an entry, and every other key
  -- has the entry that it had.
  pub find-del_many :
      (now : ℤ) (keys : List Bytes) (j : Bytes) (s : Store)
      → HasShards s
      → find_entry platform j (del_many platform now keys s).1
        ≡ (if listed j keys then none else find_entry platform j s)
  unfolding del_many
  find-del_many now [] j s shards = refl
  find-del_many now (key ∷ keys) j s shards =
      let s' : Store = (del platform now key s).1 in
      rw
        (
          find-del_many now keys j s' (omega (arith, length-del now key s)),
          find-del now key j s shards,
        )
        (ground arith)

  -- What `expire_at` makes of the entry at its key.
  abbrev pub retimed : Reading → Reading → Option ℤ → Option Entry → Option Entry
  retimed first second wall none = none
  retimed first second none (some entry) = none
  retimed first second (some wall) (some entry) =
      if leb_ℤ wall first.wall_now
      then none
      else some (record entry {
        expires_at = some (second.now +ℤ (wall -ℤ second.wall_now));
        expires_at_wall = some wall;
      })

  -- `expire_at` answers whether its key was there and had not expired.
  expire_at-eq-live :
      (first second : Reading) (key : Bytes) (wall : Option ℤ) (s : Store)
      → (expire_at platform first second key wall s).0 ≡ is_some (live platform first.now key s)
  unfolding expire_at expire_found expire_entry erase_expired_locked live alive
  expire_at-eq-live first second key none s = elim (Option-cases (find_entry platform key s)) [
    | inl missing ↦ rw missing
    | inr (entry, found) ↦ rw found (ground arith)
  ]
  expire_at-eq-live first second key (some wall) s =
      elim (Option-cases (find_entry platform key s)) [
        | inl missing ↦ rw missing
        | inr (entry, found) ↦ rw found (ground arith)
      ]

  -- In a store with a shard, `expire_at` gives the entry of its key the deadline, or removes it if
  -- it has expired or the deadline has passed or is absent, and every other key has the entry that
  -- it had.
  pub find-expire_at :
      (first second : Reading) (key j : Bytes) (wall : Option ℤ) (s : Store)
      → HasShards s
      → find_entry platform j (expire_at platform first second key wall s).1 ≡ (
          if eqb key j
          then retimed first second wall (live platform first.now key s)
          else find_entry platform j s)
  unfolding expire_at expire_found expire_entry erase_expired_locked live alive
  find-expire_at first second key j wall s shards =
      elim (Option-cases (find_entry platform key s)) [
        | inl missing ↦ elim (Bool-cases (eqb key j)) [
          | inl hit ↦ rw (missing, hit, ← (eqb_iff key j).0 hit, missing)
          | inr miss ↦ rw (missing, miss)
        ]
        | inr (entry, found) ↦ elim (Bool-cases (is_expired entry first.now)) [
          | inl dead ↦ rw (
            found,
            dead,
            find-count_expired platform,
            find-erase_entry platform key j entry s shards,
          )
          | inr lives ↦ rw (found, lives) (find-expire_entry wall entry)
        ]
      ]
    where
      find-expire_entry :
          (wall : Option ℤ) (entry : Entry)
          → find_entry platform j (expire_entry platform first second key wall entry s).1 ≡ (
              if eqb key j then retimed first second wall (some entry) else find_entry platform j s)
      find-expire_entry none entry = find-erase_entry platform key j entry s shards
      find-expire_entry (some wall) entry = elim (Bool-cases (leb_ℤ wall first.wall_now)) [
        | inl passed ↦ rw passed (find-erase_entry platform key j entry s shards)
        | inr ahead ↦ rw ahead (find-put_entry platform key j _ s shards)
      ]

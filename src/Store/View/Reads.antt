-- ===== src/Store/View/Reads.antt =====
-- The reading operations of src/store/store.cpp, and the unexpired entries.
use distributed_data_store.Prelude.{
  ℕ, suc, ◌/◌, ◌≡◌, refl, Bool, true, false, Option, none, some, List, [], ◌∷◌, Bytes,
  if◌then◌else◌, arith, ℤ, pos, negsuc, ◌-ℤ◌, Bool-cases, Option-cases, inl, inr, leb_ℤ, pos_part,
}
use distributed_data_store.Store.{
  Value, Entry, Store, Platform, is_expired, find_entry, erase_expired_locked,
}
use distributed_data_store.Store.Read.{
  get, get_shared, get_exclusive, exists, exists_shared, exists_exclusive, exists_many, ttl, ttl_of,
  ttl_shared, ttl_exclusive, ttl_deadline, expiry_wall_time, expiry_shared, expiry_exclusive,
  duration_seconds, trunc_div, nanoseconds,
}
use distributed_data_store.Store.Lookup.{HasShards}
use distributed_data_store.Store.View.{
  alive, live, SameLive, SameLive-refl, SameLive-trans, erase-SameLive,
}

abbrev pub is_some : Option Entry → Bool
is_some none = false
is_some (some entry) = true

abbrev pub wall_of : Option Entry → Option ℤ
wall_of none = none
wall_of (some entry) = entry.expires_at_wall

abbrev pub value_of : Option Entry → Option Value
value_of none = none
value_of (some entry) = some entry.value

module _ (platform : Platform) (now : ℤ) (key : Bytes) (s : Store) (shards : HasShards s) where
  locked-SameLive :
      (entry : Entry)
      → find_entry platform key s ≡ some entry
      → SameLive platform now s (erase_expired_locked platform key entry now s).1
  unfolding erase_expired_locked
  locked-SameLive entry found = elim (Bool-cases (is_expired entry now)) [
    | inl dead ↦ rw dead (erase-SameLive platform now key entry s shards found dead)
    | inr lives ↦ rw lives (SameLive-refl platform now s)
  ]

  -- In a store with a shard, `get` answers with the value of the entry that is found under its key
  -- and has not expired, and with none if there is no such entry.
  pub get-eq-live : (get platform now key s).0 ≡ value_of (live platform now key s)
  unfolding get get_shared get_exclusive erase_expired_locked live alive
  get-eq-live = elim (Option-cases (find_entry platform key s)) [
    | inl missing ↦ rw missing
    | inr (entry, found) ↦ rw found (ground arith)
  ]

  -- In a store with a shard, what `get` erases cannot be seen: from its time on every key has the
  -- same unexpired entry before and after it.
  pub get-SameLive : SameLive platform now s (get platform now key s).1
  unfolding get get_shared get_exclusive
  get-SameLive = elim (Option-cases (find_entry platform key s)) [
    | inl missing ↦ rw missing (SameLive-refl platform now s)
    | inr (entry, found) ↦ elim (Bool-cases (is_expired entry now)) [
      | inl dead ↦ rw (found, dead) (locked-SameLive entry found)
      | inr lives ↦ rw (found, lives) (SameLive-refl platform now s)
    ]
  ]

  -- `exists` answers whether its key is live.
  pub exists-eq-live : (exists platform now key s).0 ≡ is_some (live platform now key s)
  unfolding exists exists_shared exists_exclusive erase_expired_locked live alive
  exists-eq-live = elim (Option-cases (find_entry platform key s)) [
    | inl missing ↦ rw missing
    | inr (entry, found) ↦ rw found (ground arith)
  ]

  pub exists-SameLive : SameLive platform now s (exists platform now key s).1
  unfolding exists exists_shared exists_exclusive
  exists-SameLive = elim (Option-cases (find_entry platform key s)) [
    | inl missing ↦ rw missing (SameLive-refl platform now s)
    | inr (entry, found) ↦ elim (Bool-cases (is_expired entry now)) [
      | inl dead ↦ rw (found, dead) (locked-SameLive entry found)
      | inr lives ↦ rw (found, lives) (SameLive-refl platform now s)
    ]
  ]

  -- The second look of `exists`, and the body of the loop of `exists_many`.
  exclusive-eq-live :
      (exists_exclusive platform now key (find_entry platform key s) s).0
      ≡ is_some (live platform now key s)
  unfolding exists_exclusive erase_expired_locked live alive
  exclusive-eq-live = elim (Option-cases (find_entry platform key s)) [
    | inl missing ↦ rw missing
    | inr (entry, found) ↦ rw found (ground arith)
  ]

  exclusive-SameLive :
      SameLive platform now s (exists_exclusive platform now key (find_entry platform key s) s).1
  unfolding exists_exclusive
  exclusive-SameLive = elim (Option-cases (find_entry platform key s)) [
    | inl missing ↦ rw missing (SameLive-refl platform now s)
    | inr (entry, found) ↦ rw found (locked-SameLive entry found)
  ]

  -- In a store with a shard, `expiry_wall_time` answers with the wall-clock deadline of the
  -- unexpired entry of its key, if there is one and it has one.
  expiry_wall_time-eq-live :
      (expiry_wall_time platform now key s).0 ≡ wall_of (live platform now key s)
  unfolding expiry_wall_time expiry_shared expiry_exclusive erase_expired_locked live alive
  expiry_wall_time-eq-live = elim (Option-cases (find_entry platform key s)) [
    | inl missing ↦ rw missing
    | inr (entry, found) ↦ rw found (ground arith)
  ]

  pub expiry_wall_time-SameLive : SameLive platform now s (expiry_wall_time platform now key s).1
  unfolding expiry_wall_time expiry_shared expiry_exclusive
  expiry_wall_time-SameLive = elim (Option-cases (find_entry platform key s)) [
    | inl missing ↦ rw missing (SameLive-refl platform now s)
    | inr (entry, found) ↦ elim (Bool-cases (is_expired entry now)) [
      | inl dead ↦ rw (found, dead) (locked-SameLive entry found)
      | inr lives ↦ rw (found, lives) (SameLive-refl platform now s)
    ]
  ]

-- The number of listed keys that are live, a key as often as it is listed.
module _ (platform : Platform) (now : ℤ) where
  abbrev pub count_live : List Bytes → Store → ℕ
  count_live [] s = 0
  count_live (key ∷ keys) s =
      if is_some (live platform now key s) then suc (count_live keys s) else count_live keys s

  count_live-SameLive :
      (keys : List Bytes) (s t : Store)
      → SameLive platform now s t
      → count_live keys t ≡ count_live keys s
  count_live-SameLive [] s t same = refl
  count_live-SameLive (key ∷ keys) s t same =
      rw (same.live_eq now (omega arith) key, count_live-SameLive keys s t same)

  -- In a store with a shard, `exists_many` counts the keys among its arguments that are there and
  -- have not expired, repetitions included, and what it erases cannot be seen from then on.
  pub exists_many-eq-count_live :
      (keys : List Bytes) (s : Store)
      → HasShards s
      → ((exists_many platform now keys s).0 ≡ count_live keys s)
        × SameLive platform now s (exists_many platform now keys s).1
  unfolding exists_many
  exists_many-eq-count_live [] s shards = (refl, SameLive-refl platform now s)
  exists_many-eq-count_live (key ∷ keys) s shards =
      let s' : Store = (exists_exclusive platform now key (find_entry platform key s) s).1 in
      let same = exclusive-SameLive platform now key s shards in
      let rest = exists_many-eq-count_live keys s' (omega (arith, same.shard_count_eq)) in
      (
        rw (
          exclusive-eq-live platform now key s shards,
          rest.0,
          count_live-SameLive keys s s' same,
        ),
        SameLive-trans platform same rest.1,
      )

-- The answer of TTL for a live entry or none: -2, -1, or the whole seconds that are left.
abbrev pub ttl_reply : ℤ → Option Entry → ℤ
ttl_reply now none = negsuc 1
ttl_reply now (some entry) = elim entry.expires_at [
  | none ↦ negsuc 0
  | some t ↦ pos (pos_part (t -ℤ now) / nanoseconds)
]

duration_seconds-pos :
    (t now : ℤ)
    → leb_ℤ t now ≡ false
    → duration_seconds (t -ℤ now) ≡ pos (pos_part (t -ℤ now) / nanoseconds)
unfolding duration_seconds trunc_div ◌-ℤ◌
duration_seconds-pos t now h = ground arith

module _ (platform : Platform) (now : ℤ) (key : Bytes) (s : Store) (shards : HasShards s) where
  -- In a store with a shard, `ttl` is -2 for a key without an unexpired entry, -1 for one without
  -- a deadline, and otherwise the time left in whole seconds, rounded down.
  pub ttl-eq-live : (ttl platform now key s).0 ≡ ttl_reply now (live platform now key s)
  unfolding ttl ttl_of ttl_shared ttl_exclusive ttl_deadline erase_expired_locked live alive
      is_expired
  ttl-eq-live = elim (Option-cases (find_entry platform key s)) [
    | inl missing ↦ rw missing
    | inr (entry, found) ↦ ttl_found entry entry.expires_at refl found
  ]
    where
      ttl_found :
          (entry : Entry) (deadline : Option ℤ)
          → entry.expires_at ≡ deadline
          → find_entry platform key s ≡ some entry
          → (ttl platform now key s).0 ≡ ttl_reply now (live platform now key s)
      ttl_found entry none e found = rw found (rw e)
      ttl_found entry (some t) e found = elim (Bool-cases (leb_ℤ t now)) [
        | inl dead ↦ rw found (ground arith)
        | inr lives ↦ rw found (ground (arith, duration_seconds-pos t now))
      ]

  pub ttl-SameLive : SameLive platform now s (ttl platform now key s).1
  unfolding ttl ttl_of ttl_shared ttl_exclusive ttl_deadline
  ttl-SameLive = elim (Option-cases (find_entry platform key s)) [
    | inl missing ↦ rw missing (SameLive-refl platform now s)
    | inr (entry, found) ↦ ttl_found entry entry.expires_at refl found
  ]
    where
      ttl_found :
          (entry : Entry) (deadline : Option ℤ)
          → entry.expires_at ≡ deadline
          → find_entry platform key s ≡ some entry
          → SameLive platform now s (ttl platform now key s).1
      ttl_found entry none e found = rw found (simp e (SameLive-refl platform now s))
      ttl_found entry (some t) e found = elim (Bool-cases (leb_ℤ t now)) [
        | inl dead ↦
            rw found (simp (e, dead) (locked-SameLive platform now key s shards entry found))
        | inr lives ↦ rw found (simp (e, lives) (SameLive-refl platform now s))
      ]

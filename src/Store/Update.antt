-- ===== src/Store/Update.antt =====
-- The operations of src/store/store.cpp that write: set, del, del_many, expire, expire_at, clear and
-- import_snapshot_entry.
use distributed_data_store.Prelude.{
  ℕ, suc, ◌-◌, ◌*◌, Bool, true, false, Option, none, some, List, [], ◌∷◌, map, Bytes, if◌then◌else◌,
  ℤ, pos, negsuc, ◌+ℤ◌, ◌-ℤ◌, leb_ℤ,
}
use distributed_data_store.Store.Map
use distributed_data_store.Store.{
  Value, Entry, PersistedEntry, Store, Platform, Reading, add_u64, sub_u64, is_expired,
  estimate_bytes, shard_for, find_entry, with_shard, erase_entry, count_expired,
  erase_expired_locked,
}

-- std::chrono::seconds as nanoseconds.
unfoldable pub seconds : ℤ → ℤ
seconds (pos n) = pos (n * 1_000_000_000)
seconds (negsuc n) = negsuc (suc n * 1_000_000_000 - 1)

module _ (platform : Platform) where
  -- The end of `set`: the new entry replaces the old one, or joins the shard.
  unfoldable pub store_entry : Bytes → Entry → ℤ → Option Entry → Store → Store
  store_entry key entry now none s =
      record (with_shard platform key (Map.put key entry (shard_for platform key s)) s) {
        approximate_memory = add_u64 s.approximate_memory entry.stored_bytes;
      }
  store_entry key entry now (some old) s =
      record (with_shard platform key (Map.put key entry (shard_for platform key s)) s) {
        approximate_memory =
            add_u64 (sub_u64 s.approximate_memory old.stored_bytes) entry.stored_bytes;
        expired_keys = if is_expired old now then add_u64 s.expired_keys 1 else s.expired_keys;
      }

  -- A deadline that has passed: the key goes, whatever it held.
  unfoldable pub drop_entry : Bytes → Option Entry → Store → Store
  drop_entry key none s = s
  drop_entry key (some old) s = count_expired (erase_entry platform key old s)

  unfoldable pub set_at : Reading → Bytes → Value → Option ℤ → Store → Store
  set_at r key value none s =
      store_entry key
        (record {
          value = value;
          expires_at = none;
          expires_at_wall = none;
          stored_bytes = estimate_bytes platform key value;
        })
        r.now (find_entry platform key s) s
  set_at r key value (some wall) s =
      if leb_ℤ wall r.wall_now
      then drop_entry key (find_entry platform key s) s
      else store_entry key
          (record {
            value = value;
            expires_at = some (r.now +ℤ (wall -ℤ r.wall_now));
            expires_at_wall = some wall;
            stored_bytes = estimate_bytes platform key value;
          })
          r.now (find_entry platform key s) s

  -- set(key, value)
  unfoldable pub set_value : Reading → Bytes → Value → Store → Store
  set_value r key value s = set_at r key value none s

  unfoldable pub del_entry : ℤ → Bytes → Option Entry → Store → Bool × Store
  del_entry now key none s = (false, s)
  del_entry now key (some entry) s =
      let (erased, s') = erase_expired_locked platform key entry now s in
      if erased then (false, s') else (true, erase_entry platform key entry s')

  unfoldable pub del : ℤ → Bytes → Store → Bool × Store
  del now key s = del_entry now key (find_entry platform key s) s

  -- All the shards are locked, and the clock is read once.
  unfoldable pub del_many : ℤ → List Bytes → Store → ℕ × Store
  del_many now [] s = (0, s)
  del_many now (key ∷ keys) s =
      let (removed, s') = del now key s in
      let (count, s'') = del_many now keys s' in (if removed then suc count else count, s'')

  -- `first` is read by the tests for expiry and of the deadline, `second` for the new deadline.
  unfoldable pub expire_entry : Reading → Reading → Bytes → Option ℤ → Entry → Store → Bool × Store
  expire_entry first second key none entry s = (true, erase_entry platform key entry s)
  expire_entry first second key (some wall) entry s =
      if leb_ℤ wall first.wall_now then (true, erase_entry platform key entry s) else (
        true,
        with_shard platform key
            (Map.put key
              (record entry {
                expires_at = some (second.now +ℤ (wall -ℤ second.wall_now));
                expires_at_wall = some wall;
              })
              (shard_for platform key s))
            s,
      )

  unfoldable pub expire_found :
      Reading → Reading → Bytes → Option ℤ → Option Entry → Store → Bool × Store
  expire_found first second key wall none s = (false, s)
  expire_found first second key wall (some entry) s =
      let (erased, s') = erase_expired_locked platform key entry first.now s in
      if erased then (false, s') else expire_entry first second key wall entry s'

  unfoldable pub expire_at : Reading → Reading → Bytes → Option ℤ → Store → Bool × Store
  expire_at first second key wall s =
      expire_found first second key wall (find_entry platform key s) s

  -- `wall` is what `expire` reads before it calls expire_at.
  unfoldable pub expire : ℤ → Reading → Reading → Bytes → ℤ → Store → Bool × Store
  expire wall first second key ttl s =
      expire_at first second key (some (if leb_ℤ ttl (pos 0) then wall else wall +ℤ seconds ttl)) s

  unfoldable pub import_snapshot_entry : Reading → PersistedEntry → Store → Store
  import_snapshot_entry r entry s = set_at r entry.key entry.value entry.expiry_wall s

unfoldable pub clear : Store → Store
clear s = record s { shards = map (λ shard. []) s.shards; approximate_memory = 0 }

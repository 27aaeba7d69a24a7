-- ===== src/Store/Examples.antt =====
-- The theorems about the store at a small one: two shards, and one key with a deadline.
use distributed_data_store.Prelude.{
  ◌≡◌, refl, none, some, [], ◌∷◌, text, length, arith, ℤ, pos, if◌then◌else◌, eqb,
}
use distributed_data_store.Store.{
  string_value, Entry, Store, Platform, Reading, find_entry, shard_for, shard_index, is_expired,
  erase_expired_locked,
}
use distributed_data_store.Store.Map
use distributed_data_store.Store.Lookup.{HasShards}
use distributed_data_store.Store.Update.{set_at, del, del_many, expire_at}
use distributed_data_store.Store.Read.{get, get_shared, get_exclusive, exists_many, ttl}
use distributed_data_store.Store.View.{live, SameLive}
use distributed_data_store.Store.View.Reads.{
  is_some, value_of, get-eq-live, get-SameLive, count_live, exists_many-eq-count_live, ttl_reply,
  ttl-eq-live, ttl-SameLive,
}
use distributed_data_store.Store.View.Writes.{
  new_entry, find-set_at, del-eq-live, find-del, listed, count_distinct, del_many-eq-count_distinct,
  find-del_many, retimed, find-expire_at,
}
use distributed_data_store.Store.Accounting.{IsAccounted}
use distributed_data_store.Store.Accounting.Steps.{set_at-IsAccounted, expire_at-IsAccounted}

abbrev platform : Platform
platform = record { hash = length; entry_size = 64 }

abbrev session : Entry
session = record {
  value = string_value (text "on");
  expires_at = some (pos 5_000_000_000);
  expires_at_wall = some (pos 9_000_000_000);
  stored_bytes = 67;
}

abbrev small_store : Store
small_store = record {
  shards = [] ∷ ((text "a", session) ∷ []) ∷ [];
  approximate_memory = 67;
  expired_keys = 0;
}

-- Before the deadline, and after it.
abbrev early : ℤ
early = pos 1_000_000_000

abbrev late : ℤ
late = pos 6_000_000_000

abbrev early_reading : Reading
early_reading = record { now = early; wall_now = pos 5_000_000_000 }

abbrev late_reading : Reading
late_reading = record { now = late; wall_now = pos 10_000_000_000 }

small_store-HasShards : HasShards small_store
small_store-HasShards = omega arith

small_store-IsAccounted : IsAccounted small_store
unfolding Map.find
small_store-IsAccounted = record {
  nonempty = small_store-HasShards;
  distinct = (tt, ((refl, tt), tt));
  memory = refl;
}

-- The run itself: alive before the deadline, and gone after it.
get-early : (get platform early (text "a") small_store).0 ≡ some (string_value (text "on"))
unfolding get get_shared find_entry Map.find shard_for shard_index is_expired
get-early = refl

get-late : (get platform late (text "a") small_store).0 ≡ none
unfolding get get_shared get_exclusive erase_expired_locked find_entry Map.find shard_for
    shard_index is_expired
get-late = refl

get-eq-live_example :
    (get platform late (text "a") small_store).0
    ≡ value_of (live platform late (text "a") small_store)
get-eq-live_example = get-eq-live platform late (text "a") small_store small_store-HasShards

get-SameLive_example :
    SameLive platform late small_store (get platform late (text "a") small_store).1
get-SameLive_example = get-SameLive platform late (text "a") small_store small_store-HasShards

exists_many-eq-count_live_example :
    ((exists_many platform early (text "a" ∷ text "b" ∷ text "a" ∷ []) small_store).0
      ≡ count_live platform early (text "a" ∷ text "b" ∷ text "a" ∷ []) small_store)
    × SameLive platform early small_store
        (exists_many platform early (text "a" ∷ text "b" ∷ text "a" ∷ []) small_store).1
exists_many-eq-count_live_example =
    exists_many-eq-count_live platform early (text "a" ∷ text "b" ∷ text "a" ∷ []) small_store
      small_store-HasShards

ttl-eq-live_example :
    (ttl platform early (text "a") small_store).0
    ≡ ttl_reply early (live platform early (text "a") small_store)
ttl-eq-live_example = ttl-eq-live platform early (text "a") small_store small_store-HasShards

ttl-SameLive_example :
    SameLive platform late small_store (ttl platform late (text "a") small_store).1
ttl-SameLive_example = ttl-SameLive platform late (text "a") small_store small_store-HasShards

find-set_at_example :
    find_entry platform (text "c") (
      set_at platform early_reading
        (text "c")
        (string_value (text "new"))
        (some (pos 8_000_000_000))
        small_store)
    ≡ (if eqb (text "c") (text "c")
        then new_entry platform early_reading
            (text "c")
            (string_value (text "new"))
            (some (pos 8_000_000_000))
        else find_entry platform (text "c") small_store)
find-set_at_example =
    find-set_at platform early_reading (text "c") (text "c") (string_value (text "new"))
      (some (pos 8_000_000_000)) small_store small_store-HasShards

del-eq-live_example :
    (del platform late (text "a") small_store).0
    ≡ is_some (live platform late (text "a") small_store)
del-eq-live_example = del-eq-live platform late (text "a") small_store small_store-HasShards

find-del_example :
    find_entry platform (text "a") (del platform early (text "a") small_store).1
    ≡ (if eqb (text "a") (text "a") then none else find_entry platform (text "a") small_store)
find-del_example = find-del platform early (text "a") (text "a") small_store small_store-HasShards

del_many-eq-count_distinct_example :
    (del_many platform early (text "a" ∷ text "b" ∷ text "a" ∷ []) small_store).0
    ≡ count_distinct platform early [] (text "a" ∷ text "b" ∷ text "a" ∷ []) small_store
del_many-eq-count_distinct_example =
    del_many-eq-count_distinct platform early (text "a" ∷ text "b" ∷ text "a" ∷ []) small_store
      small_store-HasShards

find-del_many_example :
    find_entry platform
      (text "a")
      (del_many platform early (text "b" ∷ text "a" ∷ []) small_store).1
    ≡ (if listed platform (text "a") (text "b" ∷ text "a" ∷ [])
        then none
        else find_entry platform (text "a") small_store)
find-del_many_example =
    find-del_many platform early (text "b" ∷ text "a" ∷ []) (text "a") small_store
      small_store-HasShards

find-expire_at_example :
    find_entry platform
      (text "a")
      (expire_at platform early_reading early_reading
        (text "a")
        (some (pos 7_000_000_000))
        small_store).1
    ≡ (if eqb (text "a") (text "a")
        then retimed platform early_reading early_reading
            (some (pos 7_000_000_000))
            (live platform early (text "a") small_store)
        else find_entry platform (text "a") small_store)
find-expire_at_example =
    find-expire_at platform early_reading early_reading (text "a") (text "a")
      (some (pos 7_000_000_000)) small_store small_store-HasShards

set_at-IsAccounted_example :
    IsAccounted
      (set_at platform early_reading (text "a") (string_value (text "new")) none small_store)
set_at-IsAccounted_example =
    set_at-IsAccounted platform (text "a") small_store small_store-IsAccounted early_reading
      (string_value (text "new")) none

expire_at-IsAccounted_example :
    IsAccounted
      (expire_at platform late_reading early_reading
        (text "a")
        (some (pos 7_000_000_000))
        small_store).1
expire_at-IsAccounted_example =
    expire_at-IsAccounted platform (text "a") small_store small_store-IsAccounted late_reading
      early_reading (some (pos 7_000_000_000))

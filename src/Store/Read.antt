-- ===== src/Store/Read.antt =====
-- The operations of src/store/store.cpp that look a key up: get, exists, exists_many, ttl and
-- expiry_wall_time. Each looks under the shared lock first and erases an expired entry under the
-- exclusive lock, where it looks again.
use distributed_data_store.Prelude.{
  ℕ, suc, ◌/◌, Bool, true, false, not, Option, none, some, List, [], ◌∷◌, Bytes, if◌then◌else◌, ℤ,
  pos, negsuc, ◌-ℤ◌, leb_ℤ,
}
use distributed_data_store.Store.{
  Value, Entry, Store, Platform, is_expired, find_entry, erase_expired_locked,
}

-- Durations are in nanoseconds; duration_cast truncates toward zero.
abbrev pub nanoseconds : ℕ
nanoseconds = 1_000_000_000

unfoldable pub trunc_div : ℤ → ℕ → ℤ
trunc_div (pos n) d = pos (n / d)
trunc_div (negsuc n) d = pos 0 -ℤ pos (suc n / d)

unfoldable pub duration_seconds : ℤ → ℤ
duration_seconds d = trunc_div d nanoseconds

-- The answer found under the shared lock, or what the second look gives.
abbrev pub if_expired : {A : Type 0} → Option A → A × Store → Store → A × Store
if_expired (some answer) again s = (answer, s)
if_expired none again s = again

module _ (platform : Platform) where
  -- Under the shared lock: the answer, or `none` if the entry has expired.
  unfoldable pub get_shared : ℤ → Option Entry → Option (Option Value)
  get_shared now none = some none
  get_shared now (some entry) = if is_expired entry now then none else some (some entry.value)

  -- Under the exclusive lock, where the entry is looked up again.
  unfoldable pub get_exclusive : ℤ → Bytes → Option Entry → Store → Option Value × Store
  get_exclusive now key none s = (none, s)
  get_exclusive now key (some entry) s =
      let (erased, s') = erase_expired_locked platform key entry now s in
      (if erased then none else some entry.value, s')

  unfoldable pub get : ℤ → Bytes → Store → Option Value × Store
  get now key s =
      if_expired (get_shared now (find_entry platform key s))
        (get_exclusive now key (find_entry platform key s) s) s

  unfoldable pub exists_shared : ℤ → Option Entry → Option Bool
  exists_shared now none = some false
  exists_shared now (some entry) = if is_expired entry now then none else some true

  unfoldable pub exists_exclusive : ℤ → Bytes → Option Entry → Store → Bool × Store
  exists_exclusive now key none s = (false, s)
  exists_exclusive now key (some entry) s =
      let (erased, s') = erase_expired_locked platform key entry now s in (not erased, s')

  unfoldable pub exists : ℤ → Bytes → Store → Bool × Store
  exists now key s =
      if_expired (exists_shared now (find_entry platform key s))
        (exists_exclusive now key (find_entry platform key s) s) s

  unfoldable pub exists_many : ℤ → List Bytes → Store → ℕ × Store
  exists_many now [] s = (0, s)
  exists_many now (key ∷ keys) s =
      let (found, s') = exists_exclusive now key (find_entry platform key s) s in
      let (count, s'') = exists_many now keys s' in (if found then suc count else count, s'')

  unfoldable pub ttl_of : ℤ → Option ℤ → Option ℤ
  ttl_of now none = some (negsuc 0)
  ttl_of now (some t) = if leb_ℤ t now then none else some (duration_seconds (t -ℤ now))

  unfoldable pub ttl_shared : ℤ → Option Entry → Option ℤ
  ttl_shared now none = some (negsuc 1)
  ttl_shared now (some entry) = ttl_of now entry.expires_at

  unfoldable pub ttl_deadline : ℤ → Bytes → Entry → Option ℤ → Store → ℤ × Store
  ttl_deadline now key entry none s = (negsuc 0, s)
  ttl_deadline now key entry (some t) s =
      let (erased, s') = erase_expired_locked platform key entry now s in
      (if erased then negsuc 1 else duration_seconds (t -ℤ now), s')

  unfoldable pub ttl_exclusive : ℤ → Bytes → Option Entry → Store → ℤ × Store
  ttl_exclusive now key none s = (negsuc 1, s)
  ttl_exclusive now key (some entry) s = ttl_deadline now key entry entry.expires_at s

  unfoldable pub ttl : ℤ → Bytes → Store → ℤ × Store
  ttl now key s =
      if_expired (ttl_shared now (find_entry platform key s))
        (ttl_exclusive now key (find_entry platform key s) s) s

  unfoldable pub expiry_shared : ℤ → Option Entry → Option (Option ℤ)
  expiry_shared now none = some none
  expiry_shared now (some entry) = if is_expired entry now then none else some entry.expires_at_wall

  unfoldable pub expiry_exclusive : ℤ → Bytes → Option Entry → Store → Option ℤ × Store
  expiry_exclusive now key none s = (none, s)
  expiry_exclusive now key (some entry) s =
      let (erased, s') = erase_expired_locked platform key entry now s in
      (if erased then none else entry.expires_at_wall, s')

  unfoldable pub expiry_wall_time : ℤ → Bytes → Store → Option ℤ × Store
  expiry_wall_time now key s =
      if_expired (expiry_shared now (find_entry platform key s))
        (expiry_exclusive now key (find_entry platform key s) s) s

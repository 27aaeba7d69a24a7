-- ===== src/Persistence/Snapshot/RoundTrip.antt =====
-- SnapshotStore::read of src/persistence/snapshot.cpp on what SnapshotStore::write writes.
use distributed_data_store.Prelude.{
  ℕ, zero, suc, ◌*◌, ◌/◌, pos, negsuc, ◌-ℤ◌, ap, ◌-◌, ◌%◌, ◌^◌, ◌≤◌, ◌<◌, ◌≡◌, refl, true, false,
  Option, none, some, List, [], ◌∷◌, ◌++◌, append_assoc, append-nil, Bytes, length, take, eqb, ltb,
  ℤ, arith, All, IsInt64, zero-sub, ◌∙◌, length-append, take-length-append, drop-length-append,
}
use distributed_data_store.Store.{
  Value, string_value, int_value, list_value, set_value, PersistedEntry,
}
use distributed_data_store.Store.Read.{trunc_div}
use distributed_data_store.Persistence.Result.{ok}
use distributed_data_store.Persistence.Binary.{
  append_u8, append_u32, append_u64, append_i64, append_bytes, append_le, read_u32,
}
use distributed_data_store.Persistence.Binary.RoundTrip.{
  read_u8-append, read_u32-append, read_u64-append, read_i64-append, read_bytes-append,
  length-append_le,
}
use distributed_data_store.Persistence.Crc32.{crc32}
use distributed_data_store.Persistence.Crc32.Incremental.{crc32-lt}
use distributed_data_store.Persistence.Snapshot.{
  magic, to_unix_ms, from_unix_ms, append_items, append_value, read_items, listed, insert_items,
  read_payload, read_value, append_expiry, append_entry, append_entries, content, write,
  read_deadline, read_entry, read_entries, read_header, read_content, read,
}

abbrev AreShort : List Bytes → Type 0
AreShort = All (λ item. length item < 2 ^ 32)

read_items-append_items :
    (items : List Bytes) (rest : Bytes)
    → AreShort items
    → read_items (length items) (append_items items ++ rest) ≡ ok (items, rest)
unfolding read_items append_items
read_items-append_items [] rest short = refl
read_items-append_items (item ∷ items) rest short = rw (
  append_assoc (append_bytes item) (append_items items) rest,
  read_bytes-append item (append_items items ++ rest) short.0,
  read_items-append_items items rest short.1,
)

-- No item stands twice, nor in `seen`.
abbrev pub AreDistinct : List Bytes → List Bytes → Type 0
AreDistinct seen [] = Unit
AreDistinct seen (item ∷ items) = (listed item seen ≡ false) × AreDistinct (seen ++ item ∷ []) items

insert_items-AreDistinct :
    (seen items : List Bytes) → AreDistinct seen items → insert_items seen items ≡ seen ++ items
unfolding insert_items
insert_items-AreDistinct seen [] h = rw append-nil
insert_items-AreDistinct seen (item ∷ items) h =
    rw (h.0, insert_items-AreDistinct (seen ++ item ∷ []) items h.1, append_assoc)

-- Every length fits its 32-bit field, every number its 64-bit one, and a set repeats no item.
abbrev pub IsValue : Value → Type 0
IsValue (string_value s) = length s < 2 ^ 32
IsValue (int_value n) = IsInt64 n
IsValue (list_value items) = (length items < 2 ^ 32) × AreShort items
IsValue (set_value items) = (length items < 2 ^ 32) × AreShort items × AreDistinct [] items

read_value-append_value :
    (v : Value) (rest : Bytes) → IsValue v → read_value (append_value v ++ rest) ≡ ok (v, rest)
unfolding read_value append_value read_payload
read_value-append_value (string_value s) rest h = rw (
  append_assoc,
  read_u8-append 0 (append_bytes s ++ rest) (omega arith),
  read_bytes-append s rest h,
)
read_value-append_value (int_value n) rest h =
    rw (
      append_assoc,
      read_u8-append 1 (append_i64 n ++ rest) (omega arith),
      read_i64-append n rest h,
    )
read_value-append_value (list_value items) rest h =
    let small : length items % 2 ^ 32 ≡ length items = omega arith in
    simp append_assoc (
      rw (
        small,
        read_u8-append 2 (append_u32 (length items) ++ (append_items items ++ rest)) (omega arith),
        read_u32-append (length items) (append_items items ++ rest) h.0,
        read_items-append_items items rest h.1,
      ))
read_value-append_value (set_value items) rest h =
    let small : length items % 2 ^ 32 ≡ length items = omega arith in
    simp append_assoc (
      rw (
        small,
        read_u8-append 3 (append_u32 (length items) ++ (append_items items ++ rest)) (omega arith),
        read_u32-append (length items) (append_items items ++ rest) h.0,
        read_items-append_items items rest h.1,
        insert_items-AreDistinct [] items h.2,
      ))

-- The nanoseconds without those of the last, broken millisecond.
abbrev pub whole_millis : ℕ → ℕ
whole_millis n = n - n % 1_000_000

-- A deadline to the whole millisecond towards zero.
abbrev pub rounded : Option ℤ → Option ℤ
rounded none = none
rounded (some (pos n)) = some (pos (whole_millis n))
rounded (some (negsuc n)) = some (pos 0 -ℤ pos (whole_millis (suc n)))

-- A number of nanoseconds fits 64 bits.
abbrev pub IsDeadline : Option ℤ → Type 0
IsDeadline none = Unit
IsDeadline (some wall) = IsInt64 wall

from_unix_ms-sub : (q m : ℕ) → m ≡ q * 1_000_000 → from_unix_ms (pos 0 -ℤ pos q) ≡ pos 0 -ℤ pos m
unfolding from_unix_ms ◌-ℤ◌
from_unix_ms-sub zero m h = rw h refl
from_unix_ms-sub (suc q) m h =
    rw (zero-sub (suc q) (omega arith), zero-sub m (omega arith)) (ap negsuc (omega arith))

sub-IsInt64 : (q : ℕ) → q ≤ 2 ^ 63 → IsInt64 (pos 0 -ℤ pos q)
unfolding ◌-ℤ◌
sub-IsInt64 zero h = omega arith
sub-IsInt64 (suc q) h = rw (zero-sub (suc q) (omega arith)) (omega arith)

from_unix_ms-to_unix_ms : (wall : ℤ) → some (from_unix_ms (to_unix_ms wall)) ≡ rounded (some wall)
unfolding from_unix_ms to_unix_ms trunc_div
from_unix_ms-to_unix_ms (pos n) = ap (λ (k : ℕ). some (pos k)) (omega arith)
from_unix_ms-to_unix_ms (negsuc n) =
    ap some (from_unix_ms-sub (suc n / 1_000_000) (whole_millis (suc n)) (omega arith))

to_unix_ms-IsInt64 : (wall : ℤ) → IsInt64 wall → IsInt64 (to_unix_ms wall)
unfolding to_unix_ms trunc_div
to_unix_ms-IsInt64 (pos n) h = omega arith
to_unix_ms-IsInt64 (negsuc n) h = sub-IsInt64 (suc n / 1_000_000) (omega arith)

abbrev pub rounded_entry : PersistedEntry → PersistedEntry
rounded_entry entry = record entry { expiry_wall = rounded entry.expiry_wall }

abbrev pub rounded_entries : List PersistedEntry → List PersistedEntry
rounded_entries [] = []
rounded_entries (entry ∷ entries) = rounded_entry entry ∷ rounded_entries entries

pub record IsEntry (entry : PersistedEntry) : Type 0 where
  pub key_fits : length entry.key < 2 ^ 32
  pub value_fits : IsValue entry.value
  pub deadline_fits : IsDeadline entry.expiry_wall

read_entry-append_entry :
    (key : Bytes) (value : Value) (expiry : Option ℤ) (rest : Bytes)
    → length key < 2 ^ 32
    → IsValue value
    → IsDeadline expiry
    → read_entry (append_entry (record { key = key; value = value; expiry_wall = expiry }) ++ rest)
      ≡ ok (record { key = key; value = value; expiry_wall = rounded expiry }, rest)
unfolding read_entry append_entry append_expiry read_deadline
read_entry-append_entry key value none rest hk hv he = simp append_assoc (
    rw (
      read_bytes-append key (append_value value ++ (append_u8 0 ++ rest)) hk,
      read_value-append_value value (append_u8 0 ++ rest) hv,
      read_u8-append 0 rest (omega arith),
    ))
read_entry-append_entry key value (some wall) rest hk hv he =
    let ms = append_i64 (to_unix_ms wall) in
    simp append_assoc (
      rw (
        read_bytes-append key (append_value value ++ (append_u8 1 ++ (ms ++ rest))) hk,
        read_value-append_value value (append_u8 1 ++ (ms ++ rest)) hv,
        read_u8-append 1 (ms ++ rest) (omega arith),
        read_i64-append (to_unix_ms wall) rest (to_unix_ms-IsInt64 wall he),
        ← from_unix_ms-to_unix_ms wall,
      ))

read_entries-append_entries :
    (entries : List PersistedEntry) (rest : Bytes)
    → All IsEntry entries
    → read_entries (length entries) (append_entries entries ++ rest)
      ≡ ok (rounded_entries entries, rest)
unfolding read_entries append_entries
read_entries-append_entries [] rest h = refl
read_entries-append_entries (entry ∷ entries) rest h = rw (
  append_assoc (append_entry entry) (append_entries entries) rest,
  read_entry-append_entry entry.key entry.value entry.expiry_wall (append_entries entries ++ rest)
      h.0.key_fits h.0.value_fits h.0.deadline_fits,
  read_entries-append_entries entries rest h.1,
)

read_entries-append_entries_end :
    (entries : List PersistedEntry)
    → All IsEntry entries
    → read_entries (length entries) (append_entries entries) ≡ ok (rounded_entries entries, [])
read_entries-append_entries_end entries h =
    let all = read_entries-append_entries entries [] h in rw append-nil at all

read_content-content :
    (offset : ℕ) (entries : List PersistedEntry)
    → offset < 2 ^ 64
    → length entries < 2 ^ 64
    → All IsEntry entries
    → read_content (content offset entries) ≡ some (offset, rounded_entries entries)
unfolding read_content content read_header
read_content-content offset entries hoff hlen h =
    let small : length entries % 2 ^ 64 ≡ length entries = omega arith in
    let tail = append_u64 (length entries) ++ append_entries entries in
    rw (
      small,
      read_u32-append 1 (append_u64 offset ++ tail) (omega arith),
      read_u64-append offset tail hoff,
      read_u64-append (length entries) (append_entries entries) hlen,
      read_entries-append_entries_end entries h,
    )

length-content-bound :
    (offset : ℕ) (entries : List PersistedEntry) → 28 ≤ length (content offset entries)
unfolding content append_u32 append_u64 append_le
length-content-bound offset entries = omega arith

starts-content :
    (offset : ℕ) (entries : List PersistedEntry) (rest : Bytes)
    → eqb (take 8 (content offset entries ++ rest)) magic ≡ true
unfolding content
starts-content offset entries rest = refl

read_u32-append_end : (v : ℕ) → v < 2 ^ 32 → read_u32 (append_u32 v) ≡ ok (v, [])
read_u32-append_end v h = let all = read_u32-append v [] h in rw append-nil at all

length-append_u32 : (v : ℕ) → length (append_u32 v) ≡ 4
unfolding append_u32
length-append_u32 v = length-append_le 4 v

read-body :
    (body : Bytes)
    → 28 ≤ length body
    → eqb (take 8 (body ++ append_u32 (crc32 body))) magic ≡ true
    → read (body ++ append_u32 (crc32 body)) ≡ read_content body
unfolding read
read-body body long starts =
    let crc = append_u32 (crc32 body) in
    let size : length (body ++ crc) - 4 ≡ length body =
      omega (arith, length-append body crc, length-append_u32 (crc32 body)) in
    let enough : ltb (length (body ++ crc)) 32 ≡ false =
      ground (arith, length-append body crc, length-append_u32 (crc32 body)) in
    rw
      (
        enough,
        starts,
        size,
        take-length-append body crc,
        drop-length-append body crc,
        read_u32-append_end (crc32 body) (crc32-lt body),
      )
      (ground arith)

-- A snapshot is read back after it was written: its offset and its entries in their order, each
-- deadline without the nanoseconds of its last broken millisecond, when the offset and the number
-- of entries are below 2^64, the lengths fit 32 bits, the numbers and deadlines 64 bits, and no
-- set repeats an item.
pub read-write :
    (offset : ℕ) (entries : List PersistedEntry)
    → offset < 2 ^ 64
    → length entries < 2 ^ 64
    → All IsEntry entries
    → read (write offset entries) ≡ some (offset, rounded_entries entries)
unfolding read write
read-write offset entries hoff hlen h =
    read-body (content offset entries) (length-content-bound offset entries)
      (starts-content offset entries (append_u32 (crc32 (content offset entries))))
    ∙ read_content-content offset entries hoff hlen h

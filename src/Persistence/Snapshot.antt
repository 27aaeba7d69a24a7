-- ===== src/Persistence/Snapshot.antt =====
-- src/persistence/snapshot.cpp: the snapshot format. `write` is modelled to the bytes that it
-- hands to the file system, `read` from the bytes that the file holds.
pub mod RoundTrip
use distributed_data_store.Prelude.{
  ℕ, zero, suc, ◌+◌, ◌-◌, ◌*◌, ◌/◌, ◌%◌, ◌^◌, Bool, true, false, ◌||◌, not, Option, none, some,
  List, [], ◌∷◌, ◌++◌, Bytes, text, length, take, drop, eqb, ltb, ◌==◌, if◌then◌else◌, ℤ, pos,
  negsuc,
}
use distributed_data_store.Store.{
  Value, string_value, int_value, list_value, set_value, PersistedEntry,
}
use distributed_data_store.Store.Read.{trunc_div}
use distributed_data_store.Persistence.Result.{
  Result, ok, err, unknown_type, Reader, pure, ◌>>=◌, bind,
}
use distributed_data_store.Persistence.Binary.{
  append_u8, append_u32, append_u64, append_i64, append_bytes, read_u8, read_u32, read_u64,
  read_i64, read_bytes,
}
use distributed_data_store.Persistence.Crc32.{crc32}

abbrev pub magic : Bytes
magic = text "NCSNP" ++ (0 ∷ 0 ∷ 0 ∷ [])

abbrev pub version : ℕ
version = 1

-- Times in nanoseconds, and their whole milliseconds. An integer here has no bound: that the
-- nanoseconds of a deadline in the file leave the 64 bits of std::chrono is not modelled.
unfoldable pub to_unix_ms : ℤ → ℤ
to_unix_ms time = trunc_div time 1_000_000

unfoldable pub from_unix_ms : ℤ → ℤ
from_unix_ms (pos n) = pos (n * 1_000_000)
from_unix_ms (negsuc n) = negsuc (suc n * 1_000_000 - 1)

unfoldable pub append_items : List Bytes → Bytes
append_items [] = []
append_items (item ∷ items) = append_bytes item ++ append_items items

unfoldable pub append_value : Value → Bytes
append_value (string_value s) = append_u8 0 ++ append_bytes s
append_value (int_value n) = append_u8 1 ++ append_i64 n
append_value (list_value items) =
    append_u8 2 ++ (append_u32 (length items % 2 ^ 32) ++ append_items items)
append_value (set_value items) =
    append_u8 3 ++ (append_u32 (length items % 2 ^ 32) ++ append_items items)

-- push_back of each item read.
unfoldable pub read_items : ℕ → Reader (List Bytes)
read_items zero = pure []
read_items (suc n) = do item ← read_bytes; items ← read_items n; pure (item ∷ items)

abbrev pub listed : Bytes → List Bytes → Bool
listed x [] = false
listed x (y ∷ ys) = eqb y x || listed x ys

-- `set.insert` in the order of the file; a repeated item changes nothing.
unfoldable pub insert_items : List Bytes → List Bytes → List Bytes
insert_items set [] = set
insert_items set (item ∷ items) =
    insert_items (if listed item set then set else set ++ (item ∷ [])) items

unfoldable pub read_payload : ℕ → Reader Value
read_payload type =
    if type == 0
    then (do s ← read_bytes; pure (string_value s))
    else if type == 1
    then (do n ← read_i64; pure (int_value n))
    else if type == 2
    then (do n ← read_u32; items ← read_items n; pure (list_value items))
    else if type == 3
    then (do n ← read_u32; items ← read_items n; pure (set_value (insert_items [] items)))
    else λ input. err unknown_type

unfoldable pub read_value : Reader Value
read_value = do type ← read_u8; read_payload type

unfoldable pub append_expiry : Option ℤ → Bytes
append_expiry none = append_u8 0
append_expiry (some wall) = append_u8 1 ++ append_i64 (to_unix_ms wall)

unfoldable pub append_entry : PersistedEntry → Bytes
append_entry entry =
    append_bytes entry.key ++ (append_value entry.value ++ append_expiry entry.expiry_wall)

unfoldable pub append_entries : List PersistedEntry → Bytes
append_entries [] = []
append_entries (entry ∷ entries) = append_entry entry ++ append_entries entries

unfoldable pub content : ℕ → List PersistedEntry → Bytes
content wal_offset entries =
    magic
    ++ (append_u32 version
        ++ (append_u64 wal_offset
            ++ (append_u64 (length entries % 2 ^ 64) ++ append_entries entries)))

-- The bytes that `write` puts into the temporary file, which then replaces the snapshot.
unfoldable pub write : ℕ → List PersistedEntry → Bytes
write wal_offset entries = let body = content wal_offset entries in body ++ append_u32 (crc32 body)

unfoldable pub read_deadline : ℕ → Reader (Option ℤ)
read_deadline flag =
    if flag == 0 then pure none else do millis ← read_i64; pure (some (from_unix_ms millis))

unfoldable pub read_entry : Reader PersistedEntry
read_entry = do
  key ← read_bytes
  value ← read_value
  flag ← read_u8
  deadline ← read_deadline flag
  pure (record { key = key; value = value; expiry_wall = deadline })

unfoldable pub read_entries : ℕ → Reader (List PersistedEntry)
read_entries zero = pure []
read_entries (suc n) = do entry ← read_entry; entries ← read_entries n; pure (entry ∷ entries)

-- `none` stands for std::nullopt: also for each exception that `read` catches.
abbrev pub whole : Result ((ℕ × List PersistedEntry) × Bytes) → Option (ℕ × List PersistedEntry)
whole (ok (loaded, [])) = some loaded
whole (ok (loaded, b ∷ rest)) = none
whole (err e) = none

unfoldable pub read_header : Reader (ℕ × List PersistedEntry)
read_header = do
  wal_offset ← read_u64
  entry_count ← read_u64
  entries ← read_entries entry_count
  pure (wal_offset, entries)

abbrev pub if_version : Result (ℕ × Bytes) → Option (ℕ × List PersistedEntry)
if_version (ok (file_version, cursor)) =
    if file_version == version then whole (read_header cursor) else none
if_version (err e) = none

unfoldable pub read_content : Bytes → Option (ℕ × List PersistedEntry)
read_content body = if_version (read_u32 (drop 8 body))

abbrev pub if_crc : Bytes → Result (ℕ × Bytes) → Option (ℕ × List PersistedEntry)
if_crc body (ok (expected, rest)) = if crc32 body == expected then read_content body else none
if_crc body (err e) = none

-- A read of the file's bytes: the header's offset and the entries.
unfoldable pub read : Bytes → Option (ℕ × List PersistedEntry)
read file =
    if ltb (length file) 32 || not (eqb (take 8 file) magic)
    then none
    else let size = length file - 4 in if_crc (take size file) (read_u32 (drop size file))

-- ===== src/Persistence/Binary.antt =====
-- include/novacache/persistence/binary.hpp: little-endian integers and length-prefixed strings.
-- An append returns the bytes that it adds to `out`. A cast to a narrower type is `%`; the bytes
-- that a read joins by `|` occupy different bits, so they are added.
pub mod RoundTrip
use distributed_data_store.Prelude.{
  ℕ, zero, suc, ◌+◌, ◌-◌, ◌*◌, ◌/◌, ◌%◌, ◌^◌, [], ◌∷◌, ◌++◌, Bytes, length, take, drop, ltb,
  if◌then◌else◌, ℤ, pos, negsuc,
}
use distributed_data_store.Persistence.Result.{
  Result, ok, err, truncated, Reader, pure, ◌>>=◌, bind,
}

-- The lowest `n` bytes of `value`, the lowest one first.
unfoldable pub append_le : ℕ → ℕ → Bytes
append_le zero value = []
append_le (suc n) value = (value % 256) ∷ append_le n (value / 256)

unfoldable pub append_u8 : ℕ → Bytes
append_u8 value = (value % 256) ∷ []

unfoldable pub append_u16 : ℕ → Bytes
append_u16 value = append_le 2 value

unfoldable pub append_u32 : ℕ → Bytes
append_u32 value = append_le 4 value

unfoldable pub append_u64 : ℕ → Bytes
append_u64 value = append_le 8 value

-- static_cast<uint64_t> of an int64_t, and back.
unfoldable pub to_unsigned : ℤ → ℕ
to_unsigned (pos n) = n % 2 ^ 64
to_unsigned (negsuc n) = 2 ^ 64 - 1 - n % 2 ^ 64

unfoldable pub to_signed : ℕ → ℤ
to_signed w = if ltb w (2 ^ 63) then pos w else negsuc (2 ^ 64 - 1 - w)

unfoldable pub append_i64 : ℤ → Bytes
append_i64 value = append_u64 (to_unsigned value)

unfoldable pub append_bytes : Bytes → Bytes
append_bytes value = append_u32 (length value % 2 ^ 32) ++ value

-- The number that `n` bytes spell; `truncated` if there are fewer.
unfoldable pub read_le : ℕ → Reader ℕ
read_le zero input = ok (0, input)
read_le (suc n) [] = err truncated
read_le (suc n) (b ∷ input) = bind (read_le n input) λ (high, rest). ok (b + 256 * high, rest)

unfoldable pub read_u8 : Reader ℕ
read_u8 = read_le 1

unfoldable pub read_u16 : Reader ℕ
read_u16 = read_le 2

unfoldable pub read_u32 : Reader ℕ
read_u32 = read_le 4

unfoldable pub read_u64 : Reader ℕ
read_u64 = read_le 8

unfoldable pub read_i64 : Reader ℤ
read_i64 = do w ← read_u64; pure (to_signed w)

-- `input.substr(0, n)` and `remove_prefix(n)` behind the test `input.size() < n`.
unfoldable pub read_exact : ℕ → Reader Bytes
read_exact n input = if ltb (length input) n then err truncated else ok (take n input, drop n input)

unfoldable pub read_bytes : Reader Bytes
read_bytes = do n ← read_u32; read_exact n

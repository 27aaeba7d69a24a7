-- ===== src/Persistence/Binary/RoundTrip.antt =====
-- The appends of include/novacache/persistence/binary.hpp, each with the read of the same width.
use distributed_data_store.Prelude.{
  ℕ, zero, suc, ◌/◌, ◌%◌, ◌^◌, ◌<◌, ◌≡◌, refl, ◌++◌, append_assoc, arith, Bytes, length,
  length-append, take-length-append, drop-length-append, ℤ, pos, negsuc, IsInt64,
}
use distributed_data_store.Persistence.Result.{ok}
use distributed_data_store.Persistence.Binary.{
  append_le, append_u8, append_u16, append_u32, append_u64, append_i64, append_bytes, read_le,
  read_u8, read_u16, read_u32, read_u64, read_i64, read_bytes, read_exact, to_unsigned, to_signed,
}

-- `n` bytes hold the value modulo 256 ^ n.
abbrev FitsBytes : ℕ → ℕ → Type 0
FitsBytes zero v = v ≡ 0
FitsBytes (suc n) v = FitsBytes n (v / 256)

pub read_le-append_le :
    (n v : ℕ) (rest : Bytes) → FitsBytes n v → read_le n (append_le n v ++ rest) ≡ ok (v, rest)
unfolding read_le append_le
read_le-append_le zero v rest h = ground arith
read_le-append_le (suc n) v rest h = rw (read_le-append_le n (v / 256) rest h) (ground arith)

pub read_u8-append :
    (v : ℕ) (rest : Bytes) → v < 2 ^ 8 → read_u8 (append_u8 v ++ rest) ≡ ok (v, rest)
unfolding read_u8 append_u8 append_le read_le
read_u8-append v rest h = ground arith

pub read_u16-append :
    (v : ℕ) (rest : Bytes) → v < 2 ^ 16 → read_u16 (append_u16 v ++ rest) ≡ ok (v, rest)
unfolding read_u16 append_u16
read_u16-append v rest h = read_le-append_le 2 v rest (omega arith)

pub read_u32-append :
    (v : ℕ) (rest : Bytes) → v < 2 ^ 32 → read_u32 (append_u32 v ++ rest) ≡ ok (v, rest)
unfolding read_u32 append_u32
read_u32-append v rest h = read_le-append_le 4 v rest (omega arith)

pub read_u64-append :
    (v : ℕ) (rest : Bytes) → v < 2 ^ 64 → read_u64 (append_u64 v ++ rest) ≡ ok (v, rest)
unfolding read_u64 append_u64
read_u64-append v rest h = read_le-append_le 8 v rest (omega arith)

pub to_signed-to_unsigned : (z : ℤ) → IsInt64 z → to_signed (to_unsigned z) ≡ z
unfolding to_signed to_unsigned
to_signed-to_unsigned (pos n) h = ground arith
to_signed-to_unsigned (negsuc n) h = ground arith

to_unsigned-lt : (z : ℤ) → to_unsigned z < 2 ^ 64
unfolding to_unsigned
to_unsigned-lt (pos n) = omega arith
to_unsigned-lt (negsuc n) = omega arith

-- An int64_t of either sign is read back from its eight bytes, whatever follows them.
pub read_i64-append :
    (z : ℤ) (rest : Bytes) → IsInt64 z → read_i64 (append_i64 z ++ rest) ≡ ok (z, rest)
unfolding read_i64 append_i64
read_i64-append z rest h =
    rw (read_u64-append (to_unsigned z) rest (to_unsigned-lt z), to_signed-to_unsigned z h)

pub read_exact-append : (s rest : Bytes) → read_exact (length s) (s ++ rest) ≡ ok (s, rest)
unfolding read_exact
read_exact-append s rest =
    rw (take-length-append s rest, drop-length-append s rest) (ground (arith, length-append s rest))

-- A string shorter than 2^32 bytes is read back, whatever bytes it holds and whatever follows it.
pub read_bytes-append :
    (s rest : Bytes) → length s < 2 ^ 32 → read_bytes (append_bytes s ++ rest) ≡ ok (s, rest)
unfolding read_bytes append_bytes
read_bytes-append s rest h =
    let small : length s % 2 ^ 32 ≡ length s = omega arith in
    simp append_assoc
      (rw (small, read_u32-append (length s) (s ++ rest) h) (read_exact-append s rest))

pub length-append_le : (n v : ℕ) → length (append_le n v) ≡ n
unfolding append_le
length-append_le zero v = refl
length-append_le (suc n) v = omega (arith, length-append_le n (v / 256))

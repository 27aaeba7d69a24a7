-- ===== src/Persistence/Crc32/Incremental.antt =====
-- The checksum of src/persistence/crc32.cpp over two pieces, and its size.
use Prim.Native.Nat.{bit_xor}
use distributed_data_store.Prelude.{
  ℕ, ◌/◌, ◌%◌, ◌^◌, ◌<◌, ◌≡◌, refl, [], ◌∷◌, ◌++◌, arith, Bytes, text,
}
use distributed_data_store.Persistence.Crc32.{crc_table, complement, crc_loop, crc32_update, crc32}

complement-lt : (crc : ℕ) → complement crc < 2 ^ 32
unfolding complement
complement-lt crc = omega arith

complement-complement : (crc : ℕ) → crc < 2 ^ 32 → complement (complement crc) ≡ crc
unfolding complement
complement-complement crc h = omega arith

crc_loop-lt : (crc : ℕ) (bytes : Bytes) → crc < 2 ^ 32 → crc_loop crc bytes < 2 ^ 32
unfolding crc_loop
crc_loop-lt crc [] h = h
crc_loop-lt crc (b ∷ bytes) h =
    crc_loop-lt (bit_xor (crc_table (bit_xor crc b % 256)) (crc / 256) % 2 ^ 32) bytes (omega arith)

crc_loop-append :
    (crc : ℕ) (xs ys : Bytes) → crc_loop crc (xs ++ ys) ≡ crc_loop (crc_loop crc xs) ys
unfolding crc_loop
crc_loop-append crc [] ys = refl
crc_loop-append crc (b ∷ xs) ys =
    crc_loop-append (bit_xor (crc_table (bit_xor crc b % 256)) (crc / 256) % 2 ^ 32) xs ys

pub crc32-lt : (bytes : Bytes) → crc32 bytes < 2 ^ 32
unfolding crc32 crc32_update
crc32-lt bytes = complement-lt (crc_loop (complement 0) bytes)

-- Updating a running checksum by one piece and then by the next gives the checksum of both.
crc32_update-append :
    (crc : ℕ) (xs ys : Bytes) → crc32_update crc (xs ++ ys) ≡ crc32_update (crc32_update crc xs) ys
unfolding crc32_update
crc32_update-append crc xs ys = rw (
  complement-complement (crc_loop (complement crc) xs)
      (crc_loop-lt (complement crc) xs (complement-lt crc)),
  crc_loop-append (complement crc) xs ys,
)

-- The check value of CRC-32.
crc32-check : crc32 (text "123456789") ≡ 0xcbf4_3926
unfolding crc32
crc32-check = refl

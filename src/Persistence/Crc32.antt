-- ===== src/Persistence/Crc32.antt =====
-- src/persistence/crc32.cpp: the table-driven CRC-32 (reflected polynomial 0xEDB88320).
pub mod Incremental
use Prim.Native.Nat.{bit_and, bit_xor}
use distributed_data_store.Prelude.{
  ℕ, zero, suc, ◌-◌, ◌/◌, ◌%◌, ◌^◌, [], ◌∷◌, Bytes, ◌==◌, if◌then◌else◌,
}

-- One round of the inner loop of `crc_table`.
unfoldable pub crc_round : ℕ → ℕ
crc_round crc = if bit_and crc 1 == 0 then crc / 2 else bit_xor 0xedb8_8320 (crc / 2)

unfoldable pub crc_rounds : ℕ → ℕ → ℕ
crc_rounds zero crc = crc
crc_rounds (suc n) crc = crc_rounds n (crc_round crc)

-- table[index]
unfoldable pub crc_table : ℕ → ℕ
unfolding crc_rounds crc_round
crc_table index = crc_rounds 8 index

-- ~crc on 32 bits
unfoldable pub complement : ℕ → ℕ
complement crc = 2 ^ 32 - 1 - crc % 2 ^ 32

unfoldable pub crc_loop : ℕ → Bytes → ℕ
unfolding crc_table
crc_loop crc [] = crc
crc_loop crc (byte ∷ bytes) =
    crc_loop (bit_xor (crc_table (bit_xor crc byte % 256)) (crc / 256) % 2 ^ 32) bytes

unfoldable pub crc32_update : ℕ → Bytes → ℕ
unfolding crc_loop complement
crc32_update crc bytes = complement (crc_loop (complement crc) bytes)

unfoldable pub crc32 : Bytes → ℕ
unfolding crc32_update
crc32 bytes = crc32_update 0 bytes

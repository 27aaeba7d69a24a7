-- ===== src/Persistence/Wal/Payload.antt =====
-- The payloads of the three kinds of records (the end of src/persistence/wal.cpp).

use distributed_data_store.Prelude.{
  ◌%◌, ◌^◌, Option, none, some, [], ◌∷◌, ◌++◌, List, Bytes, length, ℤ,
}
use distributed_data_store.Persistence.Binary.{append_u8, append_u32, append_i64, append_bytes}

unfoldable pub encode_expiry : Option ℤ → Bytes
encode_expiry none = append_u8 0
encode_expiry (some expiry_unix_ms) = append_u8 1 ++ append_i64 expiry_unix_ms

unfoldable pub encode_set_payload : Bytes → Bytes → Option ℤ → Bytes
encode_set_payload key value expiry_unix_ms =
    append_bytes key ++ (append_bytes value ++ encode_expiry expiry_unix_ms)

unfoldable pub encode_keys : List Bytes → Bytes
encode_keys [] = []
encode_keys (key ∷ keys) = append_bytes key ++ encode_keys keys

unfoldable pub encode_del_payload : List Bytes → Bytes
encode_del_payload keys = append_u32 (length keys % 2 ^ 32) ++ encode_keys keys

unfoldable pub encode_expire_payload : Bytes → ℤ → Bytes
encode_expire_payload key expiry_unix_ms = append_bytes key ++ append_i64 expiry_unix_ms

-- ===== src/Protocol/RespValue.antt =====
-- include/novacache/protocol/resp_value.hpp: the variant of RESP2 values. A vector of values is a
-- type of its own, and the two states of an optional vector are two constructors.
use distributed_data_store.Prelude.{ℕ, suc, Option, Bytes, ℤ}

mutual
  pub data RespValue : Type 0 where
    simple : Bytes → RespValue
    error : Bytes → RespValue
    integer : ℤ → RespValue
    bulk : Option Bytes → RespValue
    null_array : RespValue
    array : Items → RespValue

  pub data Items : Type 0 where
    nil : Items
    cons : RespValue → Items → Items

abbrev pub count : Items → ℕ
count nil = 0
count (cons v vs) = suc (count vs)

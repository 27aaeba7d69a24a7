-- ===== src/Protocol/Encoder.antt =====
-- src/protocol/encoder.cpp: `none` is the std::invalid_argument of a line that holds CR or LF.
use distributed_data_store.Prelude.{
  Bool, false, ◌||◌, Option, none, some, [], ◌∷◌, ◌++◌, Bytes, length, ◌==◌, if◌then◌else◌,
}
use distributed_data_store.Protocol.RespValue.{
  RespValue, Items, simple, error, integer, bulk, null_array, array, nil, cons, count,
}
use distributed_data_store.Protocol.Decimal.{append_size, append_number}

abbrev pub crlf : Bytes
crlf = 13 ∷ 10 ∷ []

-- find_first_of("\r\n") != npos
unfoldable pub has_line_break : Bytes → Bool
has_line_break [] = false
has_line_break (c ∷ rest) = (c == 13 || c == 10) || has_line_break rest

unfoldable pub append_line : Bytes → Bytes → Option Bytes
append_line prefix value = if has_line_break value then none else some (prefix ++ (value ++ crlf))

abbrev pub both : Option Bytes → Option Bytes → Option Bytes
both (some x) (some y) = some (x ++ y)
both _ _ = none

unfoldable mutual
  unfolding append_line append_number append_size

  pub encode : RespValue → Option Bytes
  encode (simple value) = append_line (b'+' ∷ []) value
  encode (error value) = append_line (b'-' ∷ []) value
  encode (integer value) = some (b':' ∷ (append_number value ++ crlf))
  encode (bulk none) = some (b'$' ∷ b'-' ∷ b'1' ∷ crlf)
  encode (bulk (some value)) =
      some (b'$' ∷ (append_size (length value) ++ (crlf ++ (value ++ crlf))))
  encode null_array = some (b'*' ∷ b'-' ∷ b'1' ∷ crlf)
  encode (array items) =
      both (some (b'*' ∷ (append_size (count items) ++ crlf))) (encode_items items)

  pub encode_items : Items → Option Bytes
  encode_items nil = some []
  encode_items (cons item items) = both (encode item) (encode_items items)

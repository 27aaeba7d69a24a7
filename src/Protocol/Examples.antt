-- ===== src/Protocol/Examples.antt =====
-- The theorems about the protocol at small inputs.
use distributed_data_store.Prelude.{
  false, ◌≡◌, refl, none, some, [], ◌∷◌, ◌++◌, Bytes, text, length, arith,
}
use distributed_data_store.Protocol.RespValue.{RespValue, simple, bulk, array, nil, cons}
use distributed_data_store.Protocol.Decimal.{append_size, decimal}
use distributed_data_store.Protocol.Encoder.{encode, encode_items}
use distributed_data_store.Protocol.Parser.{
  complete, parse_value, default_limits, Parser, feed, next, take_value, parse_prefix,
  parse_line_value, read_line, after_cr,
}
use distributed_data_store.Protocol.Parser.RoundTrip.{parse_value-encode}
use distributed_data_store.Protocol.Parser.Progress.{IsWithin, parse_value-IsWithin}
use distributed_data_store.Protocol.Parser.Extension.{Keeps}
use distributed_data_store.Protocol.Parser.Extension.Values.{parse_value-append}
use distributed_data_store.Protocol.Parser.Buffer.{next-feed}

-- ["GET", nil]
abbrev request : RespValue
request = array (cons (bulk (some (text "GET"))) (cons (bulk none) nil))

abbrev crlf_bytes : Bytes
crlf_bytes = 13 ∷ 10 ∷ []

abbrev request_bytes : Bytes
request_bytes =
    text "*2"
    ++ (crlf_bytes
        ++ (text "$3"
            ++ (crlf_bytes ++ (text "GET" ++ (crlf_bytes ++ (text "$-1" ++ crlf_bytes))))))

-- A simple string in the buffer, and the first byte of the next value.
abbrev waiting_parser : Parser
waiting_parser = record {
  limits = default_limits;
  buffer = text "+OK" ++ (crlf_bytes ++ text "+");
  buffer_oversized = false;
}

encode-request : encode request ≡ some request_bytes
unfolding encode encode_items append_size decimal
encode-request = refl

parse_value-encode_example :
    parse_value default_limits 2 (request_bytes ++ text "+P")
    ≡ complete request (length request_bytes)
parse_value-encode_example =
    parse_value-encode default_limits 2 request request_bytes (text "+P")
      (omega arith, omega arith, ((omega arith, omega arith), (tt, tt))) encode-request

parse_value-IsWithin_example :
    IsWithin (length request_bytes) (parse_value default_limits 2 request_bytes)
parse_value-IsWithin_example = parse_value-IsWithin default_limits 2 request_bytes

parse_value-append_example :
    Keeps
      (parse_value default_limits 2 request_bytes)
      (parse_value default_limits 2 (request_bytes ++ text "+P"))
parse_value-append_example = parse_value-append default_limits 2 request_bytes (text "+P")

next_value : (next waiting_parser).0 ≡ complete (simple (text "OK")) 5
unfolding next take_value parse_value parse_prefix parse_line_value read_line after_cr
next_value = refl

next-feed_example :
    next (feed waiting_parser (text "PONG")).1
    ≡ (complete (simple (text "OK")) 5, (feed (next waiting_parser).1 (text "PONG")).1)
next-feed_example =
    next-feed waiting_parser (text "PONG") (simple (text "OK")) 5
      (record { flag = refl; room = omega arith }) next_value

-- ===== src/Apps/Examples.antt =====
-- The theorems about the programs at PING, its reply in two pieces, and a port.
use distributed_data_store.Prelude.{◌≡◌, refl, some, [], ◌∷◌, ◌++◌, List, Bytes, text, arith}
use distributed_data_store.Protocol.RespValue.{simple}
use distributed_data_store.Protocol.Encoder.{encode, append_line, has_line_break}
use distributed_data_store.Protocol.Decimal.{append_size, decimal}
use distributed_data_store.Protocol.Parser.{ParserLimits, new_parser, next, feed}
use distributed_data_store.Protocol.Parser.RoundTrip.{Fits}
use distributed_data_store.Commands.Registry.{extract_arguments}
use distributed_data_store.Server.Connection.{requested, parsed_request}
use distributed_data_store.Apps.Cli.{make_request, render, status_of, exchange}
use distributed_data_store.Apps.Cli.Exchange.{exchange-rendered, make_request-requested}
use distributed_data_store.Apps.Main.{read_options, default_options}
use distributed_data_store.Apps.Main.Range.{AllValid, IsValid, read_options-AllValid}

abbrev limits : ParserLimits
limits = record { max_bulk_size = 10; max_array_size = 4; max_depth = 1; max_buffer_size = 100 }

abbrev line_end : Bytes
line_end = 13 ∷ 10 ∷ []

abbrev pong_chunks : List Bytes
pong_chunks = text "+PO" ∷ (text "NG" ++ line_end) ∷ []

abbrev pong_bytes : Bytes
pong_bytes = text "+PONG" ++ line_end

encode-pong : encode (simple (text "PONG")) ≡ some pong_bytes
unfolding encode append_line has_line_break
encode-pong = refl

abbrev ping_bytes : Bytes
ping_bytes = text "*1" ++ (line_end ++ (text "$4" ++ (line_end ++ (text "PING" ++ line_end))))

encode-ping : encode (make_request (text "PING" ∷ [])) ≡ some ping_bytes
unfolding make_request encode append_size decimal
encode-ping = refl

ping-Fits : Fits limits 1 (make_request (text "PING" ∷ []))
unfolding make_request
ping-Fits = (omega arith, omega arith, ((omega arith, omega arith), tt))

default_options-IsValid : IsValid default_options
unfolding default_options
default_options-IsValid = record {
  port_fits = omega arith;
  workers_fit = omega arith;
  interval_fits = omega arith;
}

exchange-rendered_example :
    exchange pong_chunks (new_parser limits) ≡ status_of (render (simple (text "PONG")) 0)
exchange-rendered_example =
    exchange-rendered pong_chunks (new_parser limits) (simple (text "PONG")) pong_bytes [] tt
      encode-pong refl (omega arith, (omega arith, tt)) refl (omega arith)

make_request-requested_example :
    (parsed_request (next (feed (new_parser limits) ping_bytes).1).0
      ≡ requested (make_request (text "PING" ∷ [])))
    × (extract_arguments (make_request (text "PING" ∷ [])) ≡ some (text "PING" ∷ []))
make_request-requested_example =
    make_request-requested limits (text "PING") [] ping_bytes ping-Fits encode-ping (omega arith)

read_options-AllValid_example :
    AllValid (read_options (text "-p" ∷ text "7000" ∷ []) default_options)
read_options-AllValid_example =
    read_options-AllValid (text "-p" ∷ text "7000" ∷ []) default_options default_options-IsValid

-- ===== src/Protocol/Parser.antt =====
-- include/novacache/protocol/parser.hpp and src/protocol/parser.cpp: the incremental RESP2 parser.
-- A result that is not complete has a status and a message. The depth is counted down: a value at
-- depth d is parsed with the max_depth - d levels that are left below it.
pub mod Progress
pub mod RoundTrip
pub mod Extension
pub mod Buffer
use Prim.Native.String.{String}
use distributed_data_store.Prelude.{
  ℕ, zero, suc, ◌+◌, ◌-◌, ◌^◌, Bool, true, false, ◌||◌, not, ◌&&◌, Option, none, some, [], ◌∷◌,
  ◌++◌, Bytes, length, take, drop, get_elem?, ltb, leb, ◌==◌, if◌then◌else◌, ℤ, pos, negsuc,
}
use distributed_data_store.Protocol.RespValue.{
  RespValue, Items, simple, error, integer, bulk, null_array, array, nil, cons,
}
use distributed_data_store.Protocol.Decimal.{parse_integer}

pub data ParseStatus : Type 0 where
  incomplete malformed oversized too_deep : ParseStatus

pub record ParserLimits : Type 0 where
  pub max_bulk_size : ℕ
  pub max_array_size : ℕ
  pub max_depth : ℕ
  pub max_buffer_size : ℕ

abbrev pub default_limits : ParserLimits
default_limits = record {
  max_bulk_size = 8388608;
  max_array_size = 1024;
  max_depth = 32;
  max_buffer_size = 16777216;
}

-- The line without its CR LF, or why there is none.
pub data LineResult : Type 0 where
  line : Bytes → LineResult
  no_line : ParseStatus → String → LineResult

pub data ValueResult : Type 0 where
  complete : RespValue → ℕ → ValueResult
  stopped : ParseStatus → String → ValueResult

pub data ItemsResult : Type 0 where
  items : Items → ℕ → ItemsResult
  items_stopped : ParseStatus → String → ItemsResult

unfoldable pub after_cr : Bytes → LineResult
after_cr [] = no_line incomplete ""
after_cr (c ∷ rest) =
    if c == 10 then line [] else no_line malformed "carriage return not followed by line feed"

abbrev pub line_cons : ℕ → LineResult → LineResult
line_cons c (line value) = line (c ∷ value)
line_cons c (no_line status message) = no_line status message

-- The loop of read_line from its start; the line ends two bytes before `next`.
unfoldable pub read_line : Bytes → LineResult
read_line [] = no_line incomplete ""
read_line (c ∷ rest) =
    let more = read_line rest in
    if c == 10
    then no_line malformed "line feed without preceding carriage return"
    else if c == 13
    then after_cr rest
    else line_cons c more

-- The index `next` of a line that starts at index 1.
abbrev pub next_index : Bytes → ℕ
next_index value = 1 + length value + 2

unfoldable pub parse_line_value : Bool → LineResult → ValueResult
parse_line_value is_error (no_line status message) = stopped status message
parse_line_value true (line value) = complete (error value) (next_index value)
parse_line_value false (line value) = complete (simple value) (next_index value)

unfoldable pub integer_result : ℕ → Option ℤ → ValueResult
integer_result next none = stopped malformed "invalid or overflowing integer"
integer_result next (some value) = complete (integer value) next

unfoldable pub parse_resp_integer : LineResult → ValueResult
parse_resp_integer (no_line status message) = stopped status message
parse_resp_integer (line value) = integer_result (next_index value) (parse_integer value)

-- The bytes from `payload_end` on.
unfoldable pub bulk_end : Bytes → Bytes → ℕ → ValueResult
bulk_end payload [] consumed = stopped incomplete ""
bulk_end payload (c ∷ []) consumed =
    if c == 13
    then stopped incomplete ""
    else stopped malformed "bulk payload lacks terminating CRLF"
bulk_end payload (c ∷ d ∷ rest) consumed =
    if c == 13 && d == 10
    then complete (bulk (some payload)) consumed
    else stopped malformed "bulk payload lacks terminating CRLF"

-- The test against SIZE_MAX never fires: a size_t has 64 bits.
unfoldable pub bulk_payload : ParserLimits → Bytes → ℕ → ℕ → ValueResult
bulk_payload limits input next size =
    if ltb limits.max_bulk_size size
    then stopped oversized "bulk string exceeds configured limit"
    else if ltb (length input - next) size
    then stopped incomplete ""
    else bulk_end (take size (drop next input)) (drop size (drop next input)) (next + size + 2)

unfoldable pub bulk_result : ParserLimits → Bytes → ℕ → Option ℤ → ValueResult
bulk_result limits input next none = stopped malformed "invalid or overflowing bulk length"
bulk_result limits input next (some (negsuc zero)) = complete (bulk none) next
bulk_result limits input next (some (negsuc (suc n))) =
    stopped malformed "illegal negative bulk length"
bulk_result limits input next (some (pos size)) = bulk_payload limits input next size

unfoldable pub parse_bulk : ParserLimits → Bytes → LineResult → ValueResult
parse_bulk limits input (no_line status message) = stopped status message
parse_bulk limits input (line value) =
    bulk_result limits input (next_index value) (parse_integer value)

-- The loop of parse_array over the elements.
unfoldable pub items_cons : RespValue → ℕ → ItemsResult → ItemsResult
items_cons value consumed (items values more) = items (cons value values) (consumed + more)
items_cons value consumed (items_stopped status message) = items_stopped status message

unfoldable pub parse_items : (Bytes → ValueResult) → ℕ → Bytes → ItemsResult
parse_items parse zero input = items nil 0
parse_items parse (suc n) input = elim (parse input) [
  | complete value consumed ↦ items_cons value consumed (parse_items parse n (drop consumed input))
  | stopped status message ↦ items_stopped status message
]

unfoldable pub array_of : ℕ → ItemsResult → ValueResult
array_of next (items values consumed) = complete (array values) (next + consumed)
array_of next (items_stopped status message) = stopped status message

-- `deeper` parses an element, unless depth >= max_depth.
unfoldable pub array_elements :
    ParserLimits → Option (Bytes → ValueResult) → Bytes → ℕ → ℤ → ValueResult
array_elements limits none input next length =
    stopped too_deep "array nesting exceeds configured limit"
array_elements limits (some deeper) input next (negsuc n) = complete null_array next
array_elements limits (some deeper) input next (pos size) =
    if ltb limits.max_array_size size
    then stopped oversized "array exceeds configured element limit"
    else array_of next (parse_items deeper size (drop next input))

unfoldable pub array_result :
    ParserLimits → Option (Bytes → ValueResult) → Bytes → ℕ → Option ℤ → ValueResult
array_result limits deeper input next none = stopped malformed "invalid or overflowing array length"
array_result limits deeper input next (some (negsuc (suc n))) =
    stopped malformed "illegal negative array length"
array_result limits deeper input next (some length) = array_elements limits deeper input next length

unfoldable pub parse_array :
    ParserLimits → Option (Bytes → ValueResult) → Bytes → LineResult → ValueResult
parse_array limits deeper input (no_line status message) = stopped status message
parse_array limits deeper input (line value) =
    array_result limits deeper input (next_index value) (parse_integer value)

-- The body of parse_value.
unfoldable pub parse_prefix : ParserLimits → Option (Bytes → ValueResult) → Bytes → ValueResult
parse_prefix limits deeper [] = stopped incomplete ""
parse_prefix limits deeper (c ∷ rest) =
    if c == b'+'
    then parse_line_value false (read_line rest)
    else if c == b'-'
    then parse_line_value true (read_line rest)
    else if c == b':'
    then parse_resp_integer (read_line rest)
    else if c == b'$'
    then parse_bulk limits (c ∷ rest) (read_line rest)
    else if c == b'*'
    then parse_array limits deeper (c ∷ rest) (read_line rest)
    else stopped malformed "unknown RESP type prefix"

unfoldable pub parse_value : ParserLimits → ℕ → Bytes → ValueResult
parse_value limits zero input = parse_prefix limits none input
parse_value limits (suc levels) input = parse_prefix limits (some (parse_value limits levels)) input

pub record Parser : Type 0 where
  pub limits : ParserLimits
  pub buffer : Bytes
  pub buffer_oversized : Bool

abbrev pub new_parser : ParserLimits → Parser
new_parser limits = record { limits = limits; buffer = []; buffer_oversized = false }

unfoldable pub feed : Parser → Bytes → ParseStatus × Parser
feed p bytes =
    if p.buffer_oversized
    then (oversized, p)
    else if ltb p.limits.max_buffer_size (length p.buffer)
        || ltb (p.limits.max_buffer_size - length p.buffer) (length bytes)
    then (oversized, record p { buffer_oversized = true })
    else (incomplete, record p { buffer = p.buffer ++ bytes })

unfoldable pub take_value : Parser → ValueResult → ValueResult × Parser
take_value p (complete value consumed) =
    (complete value consumed, record p { buffer = drop consumed p.buffer })
take_value p (stopped status message) = (stopped status message, p)

unfoldable pub next : Parser → ValueResult × Parser
next p =
    if p.buffer_oversized
    then (stopped oversized "parser buffer exceeds configured limit", p)
    else take_value p (parse_value p.limits p.limits.max_depth p.buffer)

unfoldable pub reset : Parser → Parser
reset p = record p { buffer = []; buffer_oversized = false }

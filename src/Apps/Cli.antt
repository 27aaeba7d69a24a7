-- ===== src/Apps/Cli.antt =====
-- apps/novacache-cli.cpp: its arguments, the request it makes of them, and how it prints a reply.
pub mod Exchange
use distributed_data_store.Prelude.{
  ℕ, zero, suc, ◌+◌, ◌*◌, ◌^◌, ◌≡◌, refl, Bool, true, false, ◌||◌, ◌&&◌, Option, none, some, List,
  [], ◌∷◌, ◌++◌, Bytes, text, length, replicate, ltb, leb, ◌==◌, if◌then◌else◌, eqb,
}
use distributed_data_store.Protocol.Decimal.{append_number, append_size, unsigned_value}
use distributed_data_store.Protocol.Parser.{
  ParserLimits, Parser, new_parser, ValueResult, complete, stopped, ParseStatus, incomplete,
  malformed, oversized, too_deep, next, feed,
}
use distributed_data_store.Protocol.RespValue.{
  RespValue, Items, simple, error, integer, bulk, null_array, array, nil, cons,
}

-- std::from_chars of an unsigned integer of w bits, over the whole text.
abbrev pub below : ℕ → Option ℕ → Option ℕ
below limit none = none
below limit (some n) = if ltb n limit then some n else none

-- The limit of `unsigned int` is above that of a port.
unfoldable pub parse_port : Bytes → Option ℕ
parse_port bytes = below 65_536 (unsigned_value bytes)

abbrev bulk_list : List Bytes → Items
bulk_list [] = nil
bulk_list (argument ∷ arguments) = cons (bulk (some argument)) (bulk_list arguments)

unfoldable pub make_request : List Bytes → RespValue
make_request arguments = array (bulk_list arguments)

-- What goes to standard output and to standard error, in the order of the writes.
pub data Written : Type 0 where
  to_out to_err : Bytes → Written

abbrev line : Bytes → List Written
line bytes = to_out (bytes ++ 10 ∷ []) ∷ []

abbrev index_prefix : ℕ → ℕ → List Written
index_prefix depth index =
    to_out (replicate (depth * 2) 32 ++ (append_size (index + 1) ++ text ") ")) ∷ []

abbrev both : Bool × List Written → List Written → Bool × List Written → Bool × List Written
both (e, ws) before (f, us) = (e || f, before ++ (ws ++ us))

unfoldable mutual
  -- The result says whether there was an error.
  pub render : RespValue → ℕ → Bool × List Written
  render (simple value) depth = (false, line value)
  render (error value) depth = (true, to_err (text "(error) " ++ (value ++ 10 ∷ [])) ∷ [])
  render (integer value) depth = (false, line (append_number value))
  render (bulk (some value)) depth = (false, line value)
  render (bulk none) depth = (false, line (text "(nil)"))
  render null_array depth = (false, line (text "(nil)"))
  render (array nil) depth = (false, line (text "(empty array)"))
  render (array (cons item items)) depth = render_items (cons item items) depth 0

  render_items : Items → ℕ → ℕ → Bool × List Written
  render_items nil depth index = (false, [])
  render_items (cons item items) depth index =
      both (render item (depth + 1)) (index_prefix depth index)
        (render_items items depth (index + 1))

-- How the exchange with the server ends: with the status of the program and what was printed, or with
-- a message and status 1.
pub data Outcome : Type 0 where
  rendered : ℕ → List Written → Outcome
  malformed_response server_closed exceeded_limits : Outcome

abbrev pub status_of : Bool × List Written → Outcome
status_of (failed, ws) = rendered (if failed then 1 else 0) ws

-- What the loop does with a result of the parser, if it ends there.
abbrev pub ends : ValueResult → Option Outcome
ends (complete value consumed) = some (status_of (render value 0))
ends (stopped incomplete message) = none
ends (stopped status message) = some malformed_response

abbrev pub feed_failed : ParseStatus → Bool
feed_failed incomplete = false
feed_failed status = true

-- The loop of main over what `receive` gives; no bytes are the end of the stream.
unfoldable pub exchange : List Bytes → Parser → Outcome
exchange [] p = elim (ends (next p).0) [ none ↦ server_closed | some outcome ↦ outcome ]
exchange ([] ∷ chunks) p = elim (ends (next p).0) [ none ↦ server_closed | some outcome ↦ outcome ]
exchange ((b ∷ chunk) ∷ chunks) p = elim (ends (next p).0) [
  | some outcome ↦ outcome
  | none ↦ elim (feed_failed (feed (next p).1 (b ∷ chunk)).0) [
    | true ↦ exceeded_limits
    | false ↦ exchange chunks (feed (next p).1 (b ∷ chunk)).1
  ]
]

-- What an argument is to main; an option counts as one only before the command.
pub data Argument : Type 0 where
  version_flag host_flag port_flag command_word : Argument

abbrev is_host : Bytes → Bool
is_host argument = eqb argument (text "-h") || eqb argument (text "--host")

abbrev is_port : Bytes → Bool
is_port argument = eqb argument (text "-p") || eqb argument (text "--port")

abbrev no_command : List Bytes → Bool
no_command [] = true
no_command (word ∷ words) = false

-- `argc` counts the program's name.
unfoldable pub classify : ℕ → List Bytes → Bytes → Argument
classify argc command argument =
    if eqb argument (text "--version") && argc == 2
    then version_flag
    else if is_host argument && no_command command
    then host_flag
    else if is_port argument && no_command command
    then port_flag
    else command_word

-- What main does next; all but connect_to leave at once.
pub data Action : Type 0 where
  show_version show_usage invalid_port : Action
  connect_to : (host : Bytes) (port : ℕ) (command : List Bytes) → Action

abbrev chosen : Bytes → ℕ → List Bytes → Action
chosen host port [] = show_usage
chosen host port (word ∷ words) = connect_to host port (word ∷ words)

-- The loop of main over the arguments, and what it does with the value of -h and of -p.
unfoldable pub read_arguments : ℕ → Bytes → ℕ → List Bytes → List Bytes → Action
read_arguments argc host port command [] = chosen host port command
read_arguments argc host port command (argument ∷ []) = elim (classify argc command argument) [
  | version_flag ↦ show_version
  | host_flag ↦ show_usage
  | port_flag ↦ show_usage
  | command_word ↦ chosen host port (command ++ argument ∷ [])
]
read_arguments argc host port command (argument ∷ value ∷ rest) =
    elim (classify argc command argument) [
      | version_flag ↦ show_version
      | host_flag ↦ read_arguments argc value port command rest
      | port_flag ↦ elim (parse_port value) [
        | none ↦ invalid_port
        | some number ↦ read_arguments argc host number command rest
      ]
      | command_word ↦ read_arguments argc host port (command ++ argument ∷ []) (value ∷ rest)
    ]

unfoldable pub cli_action : List Bytes → Action
cli_action arguments = read_arguments (suc (length arguments)) (text "127.0.0.1") 6_379 [] arguments

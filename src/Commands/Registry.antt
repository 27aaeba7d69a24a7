-- ===== src/Commands/Registry.antt =====
-- include/novacache/commands/registry.hpp and src/commands/registry.cpp: the handlers and
-- `execute`. An exception of a durable command leaves `execute`.
pub mod Replies
pub mod Encodable
pub mod Answers
use distributed_data_store.Prelude.{
  ℕ, zero, suc, ◌+◌, ◌-◌, ◌^◌, Bool, true, false, ◌&&◌, ◌||◌, Option, none, some, List, [], ◌∷◌,
  Bytes, text, length, eqb, ltb, leb, if◌then◌else◌, ℤ, pos, leb_ℤ,
}
use distributed_data_store.Commands.Table.{
  Handler, ping, echo, set, get, del, exists, expire, ttl, keys, info, CommandEntry, normalize,
  commands, find_command,
}
use distributed_data_store.Store.{
  Value, string_value, int_value, list_value, set_value, Store, Platform, Reading,
}
use distributed_data_store.Store.Read
use distributed_data_store.Store.Update
use distributed_data_store.Store.Sweep
use distributed_data_store.Store.Sweep.{KeysResult}
use distributed_data_store.Server.Stats.{Stats, render_info}
use distributed_data_store.Protocol.RespValue.{
  RespValue, Items, simple, error, integer, bulk, null_array, array, nil, cons,
}
use distributed_data_store.Protocol.Decimal.{parse_integer}
use distributed_data_store.Persistence.Result.{Result, ok, err, Error}
use distributed_data_store.Persistence.Wal.{WriteResult}
use distributed_data_store.Persistence.Engine.{Engine}
use distributed_data_store.Persistence.Engine.Durable.{durable_set, durable_del, durable_expire}

pub record CommandContext : Type 0 where
  pub store : Store
  pub stats : Option Stats
  pub persistence : Option Engine
  pub version : Bytes
  pub tcp_port : ℕ
  pub worker_count : ℕ

-- What one call reads from outside: the answers of `::write`; the readings of the clocks, in the
-- order in which a handler makes them; and the seconds from now to the last time of steady_clock.
pub record Outside : Type 0 where
  pub answers : List WriteResult
  pub wall : ℤ
  pub first : Reading
  pub second : Reading
  pub room : ℤ

-- extract_arguments, and is_command_request of src/server/server.cpp: an array of bulk strings,
-- one at least.
unfoldable pub bulk_items : Items → Option (List Bytes)
bulk_items nil = some []
bulk_items (cons (bulk (some value)) items) = elim (bulk_items items) [
  | none ↦ none
  | some values ↦ some (value ∷ values)
]
bulk_items (cons item items) = none

unfoldable pub extract_arguments : RespValue → Option (List Bytes)
extract_arguments (array (cons item items)) = bulk_items (cons item items)
extract_arguments request = none

unfoldable pub expiration_is_representable : ℤ → ℤ → Bool
expiration_is_representable room seconds =
    if leb_ℤ seconds (pos 0) then true else leb_ℤ seconds room

abbrev pub wrong_arity : RespValue
wrong_arity = error (text "ERR wrong number of arguments")

abbrev pub invalid_integer : RespValue
invalid_integer = error (text "ERR value is not an integer or out of range")

abbrev pub wrong_type : RespValue
wrong_type = error (text "WRONGTYPE Operation against a key holding the wrong kind of value")

-- A reply, or an exception, with the context as it is then.
abbrev pub Reply : Type 0
Reply = Result RespValue × CommandContext

abbrev pub reply : RespValue → CommandContext → Reply
reply value context = (ok value, context)

-- A call that returns a result and the store.
abbrev pub with_store : {A : Type 0} → (A → RespValue) → A × Store → CommandContext → Reply
with_store f (a, s) context = (ok (f a), record context { store = s })

-- A durable call.
abbrev pub with_engine :
    {A : Type 0} → (A → RespValue) → Result A × Engine × Store → CommandContext → Reply
with_engine f (ok a, e, s) context = (ok (f a), record context { store = s; persistence = some e })
with_engine f (err x, e, s) context = (err x, record context { store = s; persistence = some e })

abbrev pub value_reply : Option Value → RespValue
value_reply none = bulk none
value_reply (some (string_value s)) = bulk (some s)
value_reply (some _) = wrong_type

abbrev pub flag : Bool → ℤ
flag true = pos 1
flag false = pos 0

abbrev pub bulk_strings : List Bytes → Items
bulk_strings [] = nil
bulk_strings (key ∷ rest) = cons (bulk (some key)) (bulk_strings rest)

abbrev pub keys_reply : KeysResult → RespValue
keys_reply (KeysResult.ok found) = array (bulk_strings found)
keys_reply KeysResult.unsupported_pattern = error (text "ERR unsupported pattern")

module _ (platform : Platform) (outside : Outside) where
  unfoldable pub run_set : Bytes → Bytes → Option Engine → CommandContext → Reply
  run_set key value none context = reply (simple (text "OK")) (record context {
    store = Update.set_value platform outside.second key (string_value value) context.store;
  })
  run_set key value (some e) context =
      with_engine (λ u. simple (text "OK"))
        (durable_set platform outside.answers outside.second key value e context.store) context

  unfoldable pub run_del : List Bytes → Option Engine → CommandContext → Reply
  run_del arguments none context =
      with_store (λ n. integer (pos n))
        (Update.del_many platform outside.first.now arguments context.store) context
  run_del arguments (some e) context =
      with_engine (λ n. integer (pos n))
        (durable_del platform outside.answers outside.first.now arguments e context.store) context

  unfoldable pub run_expire : Bytes → ℤ → Option Engine → CommandContext → Reply
  run_expire key seconds none context =
      with_store (λ changed. integer (flag changed))
        (Update.expire platform outside.wall outside.first outside.second key seconds context.store)
        context
  run_expire key seconds (some e) context =
      with_engine (λ changed. integer (flag changed))
        (durable_expire platform outside.answers outside.wall outside.first outside.second key
          seconds e context.store)
        context

  unfoldable pub expire_seconds : Bytes → Option ℤ → CommandContext → Reply
  expire_seconds key none context = reply invalid_integer context
  expire_seconds key (some seconds) context =
      if expiration_is_representable outside.room seconds
      then run_expire key seconds context.persistence context
      else reply invalid_integer context

  unfoldable pub info_text : Option Stats → CommandContext → Bytes
  info_text none context = []
  info_text (some stats) context =
      render_info context.version context.tcp_port context.worker_count
        (length context.store.shards) stats

  -- The handlers, on arguments[0], arguments[1], …; an index past the end is undefined, and `none`.
  unfoldable pub handle : Handler → List Bytes → CommandContext → Option Reply
  handle ping (name ∷ []) context = some (reply (simple (text "PONG")) context)
  handle ping (name ∷ message ∷ rest) context = some (reply (bulk (some message)) context)
  handle echo (name ∷ message ∷ rest) context = some (reply (bulk (some message)) context)
  handle set (name ∷ key ∷ value ∷ rest) context =
      some (run_set key value context.persistence context)
  handle get (name ∷ key ∷ rest) context =
      some (with_store value_reply (Read.get platform outside.first.now key context.store) context)
  handle del (name ∷ arguments) context = some (run_del arguments context.persistence context)
  handle exists (name ∷ arguments) context = some (
      with_store (λ n. integer (pos n))
        (Read.exists_many platform outside.first.now arguments context.store) context)
  handle expire (name ∷ key ∷ seconds ∷ rest) context =
      some (expire_seconds key (parse_integer seconds) context)
  handle ttl (name ∷ key ∷ rest) context =
      some (with_store integer (Read.ttl platform outside.first.now key context.store) context)
  handle keys (name ∷ pattern ∷ rest) context =
      some (with_store keys_reply (Sweep.keys outside.first.now pattern context.store) context)
  handle info arguments context =
      some (reply (bulk (some (info_text context.stats context))) context)
  handle handler arguments context = none

  unfoldable pub check_arity : Option CommandEntry → List Bytes → CommandContext → Option Reply
  check_arity none arguments context = some (reply (error (text "ERR unknown command")) context)
  check_arity (some entry) arguments context =
      if ltb (length arguments) entry.metadata.minimum_arity
        || ltb entry.metadata.maximum_arity (length arguments)
      then some (reply wrong_arity context)
      else handle entry.handler arguments context

  unfoldable pub execute_arguments : Option (List Bytes) → CommandContext → Option Reply
  execute_arguments none context = some (reply (error (text "ERR Protocol error")) context)
  execute_arguments (some []) context = none
  execute_arguments (some (name ∷ arguments)) context =
      check_arity (find_command (normalize name) commands) (name ∷ arguments) context

  -- Registry::execute, and dispatch, which calls it.
  unfoldable pub execute : RespValue → CommandContext → Option Reply
  execute request context = execute_arguments (extract_arguments request) context

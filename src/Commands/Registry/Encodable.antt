-- ===== src/Commands/Registry/Encodable.antt =====
-- The replies of src/commands/registry.cpp, and the encoder.
use distributed_data_store.Prelude.{
  ◌≡◌, refl, ◌||◌, Option, none, some, List, [], ◌∷◌, ◌++◌, Bytes, length, ltb, Bool-cases, inl,
  inr, ℤ, pos,
}
use distributed_data_store.Store.{Value, string_value, Platform, Store}
use distributed_data_store.Store.Read
use distributed_data_store.Store.Sweep
use distributed_data_store.Store.Sweep.{KeysResult}
use distributed_data_store.Store.Update
use distributed_data_store.Persistence.Result.{Result, ok, err}
use distributed_data_store.Persistence.Engine.{Engine}
use distributed_data_store.Persistence.Engine.Durable.{durable_set, durable_del, durable_expire}
use distributed_data_store.Protocol.RespValue.{RespValue, bulk, integer, count}
use distributed_data_store.Protocol.Decimal.{parse_integer, append_size}
use distributed_data_store.Protocol.Encoder.{
  encode, encode_items, append_line, has_line_break, both, crlf,
}
use distributed_data_store.Commands.Table.{
  Handler, ping, echo, set, get, del, exists, expire, ttl, keys, info, CommandEntry, normalize,
  commands, find_command,
}
use distributed_data_store.Commands.Registry.{
  CommandContext, Outside, Reply, handle, check_arity, execute_arguments, execute,
  extract_arguments, with_store, with_engine, value_reply, flag, bulk_strings, keys_reply, run_set,
  run_del, run_expire, expire_seconds, expiration_is_representable,
}

abbrev pub Encodable : RespValue → Type 0
Encodable v = (bytes : Bytes) × (encode v ≡ some bytes)

-- The reply, if there is one, has an encoding.
abbrev pub IsEncodable : Reply → Type 0
IsEncodable (ok v, context) = Encodable v
IsEncodable (err e, context) = Unit

abbrev pub AllEncodable : Option Reply → Type 0
AllEncodable none = Unit
AllEncodable (some r) = IsEncodable r

value_reply-Encodable : (v : Option Value) → Encodable (value_reply v)
unfolding encode append_line has_line_break
value_reply-Encodable none = (_, refl)
value_reply-Encodable (some (string_value s)) = (_, refl)
value_reply-Encodable (some _) = (_, refl)

both-some :
    (x y : Option Bytes)
    → (a : Bytes) × (x ≡ some a)
    → (b : Bytes) × (y ≡ some b)
    → (c : Bytes) × (both x y ≡ some c)
both-some (some a) (some b) p q = (_, refl)
both-some none y (a, e) q = cc
both-some (some a) none p (b, e) = cc

bulk_strings-Encodable :
    (strings : List Bytes) → (bytes : Bytes) × (encode_items (bulk_strings strings) ≡ some bytes)
unfolding encode encode_items
bulk_strings-Encodable [] = (_, refl)
bulk_strings-Encodable (s ∷ strings) =
    both-some (encode (bulk (some s))) (encode_items (bulk_strings strings)) (_, refl)
      (bulk_strings-Encodable strings)

keys_reply-Encodable : (result : KeysResult) → Encodable (keys_reply result)
unfolding encode append_line has_line_break
keys_reply-Encodable (KeysResult.ok found) =
    both-some (some (b'*' ∷ (append_size (count (bulk_strings found)) ++ crlf)))
      (encode_items (bulk_strings found)) (_, refl) (bulk_strings-Encodable found)
keys_reply-Encodable KeysResult.unsupported_pattern = (_, refl)

with_store-Encodable :
    {A : Type 0} (f : A → RespValue) (r : A × Store) (context : CommandContext)
    → ((a : A) → Encodable (f a))
    → IsEncodable (with_store f r context)
with_store-Encodable f (a, s) context h = h a

with_engine-Encodable :
    {A : Type 0} (f : A → RespValue) (r : Result A × Engine × Store) (context : CommandContext)
    → ((a : A) → Encodable (f a))
    → IsEncodable (with_engine f r context)
with_engine-Encodable f (ok a, e, s) context h = h a
with_engine-Encodable f (err x, e, s) context h = tt

integer-Encodable : (z : ℤ) → Encodable (integer z)
unfolding encode
integer-Encodable z = (_, refl)

module _ (platform : Platform) (outside : Outside) where
  run_set-Encodable :
      (key value : Bytes) (engine : Option Engine) (context : CommandContext)
      → IsEncodable (run_set platform outside key value engine context)
  unfolding run_set encode append_line has_line_break
  run_set-Encodable key value none context = (_, refl)
  run_set-Encodable key value (some e) context =
      with_engine-Encodable _
        (durable_set platform outside.answers outside.second key value e context.store) context
        (λ u. (_, refl))

  run_del-Encodable :
      (arguments : List Bytes) (engine : Option Engine) (context : CommandContext)
      → IsEncodable (run_del platform outside arguments engine context)
  unfolding run_del
  run_del-Encodable arguments none context =
      with_store-Encodable _ (Update.del_many platform outside.first.now arguments context.store)
        context (λ n. integer-Encodable (pos n))
  run_del-Encodable arguments (some e) context =
      with_engine-Encodable _
        (durable_del platform outside.answers outside.first.now arguments e context.store) context
        (λ n. integer-Encodable (pos n))

  run_expire-Encodable :
      (key : Bytes) (seconds : ℤ) (engine : Option Engine) (context : CommandContext)
      → IsEncodable (run_expire platform outside key seconds engine context)
  unfolding run_expire
  run_expire-Encodable key seconds none context =
      with_store-Encodable _
        (Update.expire platform outside.wall outside.first outside.second key seconds context.store)
        context (λ changed. integer-Encodable (flag changed))
  run_expire-Encodable key seconds (some e) context =
      with_engine-Encodable _
        (durable_expire platform outside.answers outside.wall outside.first outside.second key
          seconds e context.store)
        context (λ changed. integer-Encodable (flag changed))

  expire_seconds-Encodable :
      (key : Bytes) (seconds : Option ℤ) (context : CommandContext)
      → IsEncodable (expire_seconds platform outside key seconds context)
  unfolding expire_seconds encode append_line has_line_break
  expire_seconds-Encodable key none context = (_, refl)
  expire_seconds-Encodable key (some seconds) context =
      elim (Bool-cases (expiration_is_representable outside.room seconds)) [
        | inl fine ↦ rw fine (run_expire-Encodable key seconds context.persistence context)
        | inr far ↦ rw far (_, refl)
      ]

  handle-Encodable :
      (handler : Handler) (arguments : List Bytes) (context : CommandContext)
      → AllEncodable (handle platform outside handler arguments context)
  unfolding handle encode append_line has_line_break
  handle-Encodable ping (a ∷ []) context = (_, refl)
  handle-Encodable ping (a ∷ b ∷ rest) context = (_, refl)
  handle-Encodable echo (a ∷ b ∷ rest) context = (_, refl)
  handle-Encodable set (a ∷ key ∷ value ∷ rest) context =
      run_set-Encodable key value context.persistence context
  handle-Encodable get (a ∷ key ∷ rest) context =
      with_store-Encodable value_reply (Read.get platform outside.first.now key context.store)
        context value_reply-Encodable
  handle-Encodable del (a ∷ arguments) context =
      run_del-Encodable arguments context.persistence context
  handle-Encodable exists (a ∷ arguments) context =
      with_store-Encodable (λ n. integer (pos n))
        (Read.exists_many platform outside.first.now arguments context.store) context
        (λ n. integer-Encodable (pos n))
  handle-Encodable expire (a ∷ key ∷ seconds ∷ rest) context =
      expire_seconds-Encodable key (parse_integer seconds) context
  handle-Encodable ttl (a ∷ key ∷ rest) context =
      with_store-Encodable integer (Read.ttl platform outside.first.now key context.store) context
        integer-Encodable
  handle-Encodable keys (a ∷ pattern ∷ rest) context =
      with_store-Encodable keys_reply (Sweep.keys outside.first.now pattern context.store) context
        keys_reply-Encodable
  handle-Encodable info arguments context = (_, refl)
  handle-Encodable _ _ context = tt

  check_arity-Encodable :
      (found : Option CommandEntry) (arguments : List Bytes) (context : CommandContext)
      → AllEncodable (check_arity platform outside found arguments context)
  unfolding check_arity encode append_line has_line_break
  check_arity-Encodable none arguments context = (_, refl)
  check_arity-Encodable (some entry) arguments context =
      elim (Bool-cases (
        ltb (length arguments) entry.metadata.minimum_arity
        || ltb entry.metadata.maximum_arity (length arguments))) [
          | inl out ↦ rw out (_, refl)
          | inr fits ↦ rw fits (handle-Encodable entry.handler arguments context)
        ]

  execute_arguments-Encodable :
      (arguments : Option (List Bytes)) (context : CommandContext)
      → AllEncodable (execute_arguments platform outside arguments context)
  unfolding execute_arguments encode append_line has_line_break
  execute_arguments-Encodable none context = (_, refl)
  execute_arguments-Encodable (some []) context = tt
  execute_arguments-Encodable (some (name ∷ rest)) context =
      check_arity-Encodable (find_command (normalize name) commands) (name ∷ rest) context

  -- Whatever the request and the state, a reply of `execute` has an encoding: the encoder never
  -- throws on it.
  pub execute-Encodable :
      (request : RespValue) (context : CommandContext)
      → AllEncodable (execute platform outside request context)
  unfolding execute
  execute-Encodable request context =
      execute_arguments-Encodable (extract_arguments request) context

-- ===== src/Commands/Registry/Replies.antt =====
-- The arguments that the handlers of src/commands/registry.cpp index, and the arity of the table.
use distributed_data_store.Prelude.{
  ℕ, ◌≤◌, ◌≡◌, ◌≢◌, refl, ◌||◌, Option, none, some, List, [], ◌∷◌, Bytes, length, eqb, ltb, arith,
  Bool-cases, inl, inr, subst,
}
use distributed_data_store.Store.{Platform}
use distributed_data_store.Protocol.RespValue.{RespValue, Items, bulk, cons, array}
use distributed_data_store.Commands.Table.{
  Handler, ping, echo, set, get, del, exists, expire, ttl, keys, info, CommandEntry, normalize, add,
  commands, find_command,
}
use distributed_data_store.Commands.Registry.{
  CommandContext, Outside, Reply, handle, check_arity, execute_arguments, execute,
  extract_arguments, bulk_items, reply, wrong_arity,
}

-- The number of arguments that a handler indexes without a test, the name included.
abbrev indexed : Handler → ℕ
indexed ping = 1
indexed echo = 2
indexed set = 3
indexed get = 2
indexed del = 1
indexed exists = 1
indexed expire = 3
indexed ttl = 2
indexed keys = 2
indexed info = 0

-- The arity that the table asks for covers what the handler indexes.
abbrev IsGuarded : CommandEntry → Type 0
IsGuarded entry = indexed entry.handler ≤ entry.metadata.minimum_arity

abbrev AllGuarded : List (Bytes × CommandEntry) → Type 0
AllGuarded [] = Unit
AllGuarded ((name, entry) ∷ table) = IsGuarded entry × AllGuarded table

commands-AllGuarded : AllGuarded commands
unfolding commands add
commands-AllGuarded = omega arith

find_command-IsGuarded :
    (name : Bytes) (table : List (Bytes × CommandEntry)) (entry : CommandEntry)
    → AllGuarded table
    → find_command name table ≡ some entry
    → IsGuarded entry
unfolding find_command
find_command-IsGuarded name [] entry all h = cc
find_command-IsGuarded name ((key, first) ∷ table) entry all h = elim (Bool-cases (eqb key name)) [
  | inl hit ↦ subst IsGuarded {x = first} {y = entry} (ground arith) all.0
  | inr miss ↦ find_command-IsGuarded name table entry all.1 (rw miss at h)
]

-- A reply or an exception, an undefined call of the engine included; `none` is an index past the end.
abbrev pub Served : Option Reply → Type 0
Served result = (r : Reply) × (result ≡ some r)

bulk_items-nonempty : (item : RespValue) (items : Items) → bulk_items (cons item items) ≢ some []
unfolding bulk_items
bulk_items-nonempty (bulk (some value)) items h = ground arith
bulk_items-nonempty _ items h = cc

arguments-nonempty : (request : RespValue) → extract_arguments request ≢ some []
unfolding extract_arguments
arguments-nonempty (array (cons item items)) h = bulk_items-nonempty item items h
arguments-nonempty _ h = cc

module _ (platform : Platform) (outside : Outside) where
  handle-Served :
      (handler : Handler) (arguments : List Bytes) (context : CommandContext)
      → indexed handler ≤ length arguments
      → Served (handle platform outside handler arguments context)
  unfolding handle
  handle-Served info arguments context h = (_, refl)
  handle-Served ping (a ∷ []) context h = (_, refl)
  handle-Served ping (a ∷ b ∷ rest) context h = (_, refl)
  handle-Served echo (a ∷ b ∷ rest) context h = (_, refl)
  handle-Served set (a ∷ b ∷ c ∷ rest) context h = (_, refl)
  handle-Served get (a ∷ b ∷ rest) context h = (_, refl)
  handle-Served del (a ∷ rest) context h = (_, refl)
  handle-Served exists (a ∷ rest) context h = (_, refl)
  handle-Served expire (a ∷ b ∷ c ∷ rest) context h = (_, refl)
  handle-Served ttl (a ∷ b ∷ rest) context h = (_, refl)
  handle-Served keys (a ∷ b ∷ rest) context h = (_, refl)
  handle-Served handler arguments context h = absurd (omega arith)

  check_arity-Served :
      (found : Option CommandEntry) (arguments : List Bytes) (context : CommandContext)
      → ((entry : CommandEntry) → found ≡ some entry → IsGuarded entry)
      → Served (check_arity platform outside found arguments context)
  unfolding check_arity
  check_arity-Served none arguments context guarded = (_, refl)
  check_arity-Served (some entry) arguments context guarded =
      elim (Bool-cases (
        ltb (length arguments) entry.metadata.minimum_arity
        || ltb entry.metadata.maximum_arity (length arguments))) [
          | inl out ↦ (reply wrong_arity context, rw out)
          | inr fits ↦ rw fits (
              handle-Served entry.handler arguments context
                (let least = guarded entry refl in ground arith))
        ]

  execute_arguments-Served :
      (arguments : Option (List Bytes)) (context : CommandContext)
      → arguments ≢ some []
      → Served (execute_arguments platform outside arguments context)
  unfolding execute_arguments
  execute_arguments-Served none context h = (_, refl)
  execute_arguments-Served (some []) context h = absurd (h refl)
  execute_arguments-Served (some (name ∷ rest)) context h =
      check_arity-Served (find_command (normalize name) commands) (name ∷ rest) context
        (λ entry. find_command-IsGuarded (normalize name) commands entry commands-AllGuarded)

  -- `execute` indexes no argument that is not there.
  pub execute-Served :
      (request : RespValue) (context : CommandContext)
      → Served (execute platform outside request context)
  unfolding execute
  execute-Served request context =
      execute_arguments-Served (extract_arguments request) context (arguments-nonempty request)

-- ===== src/Commands/Table.antt =====
-- The command table of include/novacache/commands/registry.hpp and src/commands/registry.cpp: the
-- metadata, the names and the constructor of Registry.
use distributed_data_store.Prelude.{
  ℕ, ◌+◌, ◌-◌, ◌^◌, Bool, true, false, ◌&&◌, Option, none, some, List, [], ◌∷◌, Bytes, text, eqb,
  leb, if◌then◌else◌,
}

pub data CommandAccess : Type 0 where
  read_only write : CommandAccess

pub data Handler : Type 0 where
  ping echo set get del exists expire ttl keys info : Handler

pub record CommandMetadata : Type 0 where
  pub name : Bytes
  pub minimum_arity : ℕ
  pub maximum_arity : ℕ
  pub access : CommandAccess
  pub persistent : Bool
  pub replicated : Bool

pub record CommandEntry : Type 0 where
  pub metadata : CommandMetadata
  pub handler : Handler

unfoldable pub upper : ℕ → ℕ
upper c = if leb b'a' c && leb c b'z' then c - b'a' + b'A' else c

unfoldable pub normalize : Bytes → Bytes
normalize [] = []
normalize (c ∷ name) = upper c ∷ normalize name

abbrev pub unbounded : ℕ
unbounded = 2 ^ 64 - 1

unfoldable pub mutating : CommandAccess → Bool
mutating read_only = false
mutating write = true

-- Registry::add
unfoldable pub add :
    Bytes
    → ℕ
    → ℕ
    → CommandAccess
    → Handler
    → List (Bytes × CommandEntry)
    → List (Bytes × CommandEntry)
add name minimum maximum access handler table =
    (
      normalize name,
      record {
        metadata = record {
          name = name;
          minimum_arity = minimum;
          maximum_arity = maximum;
          access = access;
          persistent = mutating access;
          replicated = mutating access;
        };
        handler = handler;
      },
    )
    ∷ table

-- The constructor of Registry.
unfoldable pub commands : List (Bytes × CommandEntry)
commands = add (text "PING") 1 2 read_only ping (
    add (text "ECHO") 2 2 read_only echo (
      add (text "SET") 3 3 write set (
        add (text "GET") 2 2 read_only get (
          add (text "DEL") 2 unbounded write del (
            add (text "EXISTS") 2 unbounded read_only exists (
              add (text "EXPIRE") 3 3 write expire (
                add (text "TTL") 2 2 read_only ttl (
                  add (text "KEYS") 2 2 read_only keys
                    (add (text "INFO") 1 2 read_only info [])))))))))

unfoldable pub find_command : Bytes → List (Bytes × CommandEntry) → Option CommandEntry
find_command name [] = none
find_command name ((key, entry) ∷ table) =
    if eqb key name then some entry else find_command name table

unfoldable pub metadata : Bytes → Option CommandMetadata
metadata name = elim (find_command (normalize name) commands) [
  | none ↦ none
  | some entry ↦ some entry.metadata
]

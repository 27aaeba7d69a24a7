-- ===== src/Commands/Examples.antt =====
-- The theorems about the commands at a few requests.
use distributed_data_store.Prelude.{true, none, some, [], ◌∷◌, text, length, pos}
use distributed_data_store.Store.{Platform}
use distributed_data_store.Protocol.RespValue.{RespValue, bulk, array, nil, cons}
use distributed_data_store.Commands.Registry.{CommandContext, Outside, execute}
use distributed_data_store.Persistence.Engine.{always, Engine}
use distributed_data_store.Commands.Registry.Encodable.{AllEncodable, execute-Encodable}

abbrev platform : Platform
platform = record { hash = length; entry_size = 64 }

abbrev outside : Outside
outside = record {
  answers = [];
  wall = pos 1;
  first = record { now = pos 1; wall_now = pos 1 };
  second = record { now = pos 1; wall_now = pos 1 };
  room = pos 1000;
}

abbrev context : CommandContext
context = record {
  store = record { shards = [] ∷ []; approximate_memory = 0; expired_keys = 0 };
  stats = none;
  persistence = none;
  version = text "1";
  tcp_port = 6379;
  worker_count = 4;
}

-- SET a b
abbrev request : RespValue
request = array (
    cons (bulk (some (text "SET")))
      (cons (bulk (some (text "a"))) (cons (bulk (some (text "b"))) nil)))

-- An engine with an open log, of which no call of `::write` takes a byte.
abbrev engine : Engine
engine = record {
  fsync = always;
  snapshot_interval = 0;
  next_snapshot_at = pos 0;
  wal = some (record { is_open = true; file = []; durable = []; last_offset = 0 });
  snapshot = none;
}

abbrev durable_context : CommandContext
durable_context = record context { persistence = some engine }

execute-Encodable_example : AllEncodable (execute platform outside request context)
execute-Encodable_example = execute-Encodable platform outside request context

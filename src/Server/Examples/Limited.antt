-- ===== src/Server/Examples/Limited.antt =====
-- The theorem about the limit, at a limit of one connection with two sockets that wait.
use distributed_data_store.Prelude.{true, false, List, [], ◌∷◌, pos, arith, refl}
use distributed_data_store.Net.Socket.{Socket, got, took}
use distributed_data_store.Server.Loop.{Server}
use distributed_data_store.Server.Round.{Clocks, FiredEvent, listener_ready, fired, run_round}
use distributed_data_store.Server.Order.{Ensures}
use distributed_data_store.Server.Limit.Completions.{IsLimited}
use distributed_data_store.Server.Limit.Rounds.{run_round-IsLimited}
use distributed_data_store.Server.Examples.{platform, outside, ping, sh0}

abbrev clocks : Clocks
clocks = record { tick = pos 1; store_now = pos 1; wall = pos 1; tested = pos 1; steady = pos 1 }

abbrev socket : Socket
socket = record { incoming = got ping ∷ []; outgoing = took 7 ∷ []; sent = [] }

abbrev server : Server
server = record {
  shared = record sh0 { config = record sh0.config { max_connections = 1 } };
  connections = [];
  waiting = (5, socket) ∷ (6, socket) ∷ [];
  next_connection_id = 1;
  next_expiry_tick = pos 0;
}

abbrev events : List FiredEvent
events = listener_ready ∷ fired 5 true true false false ∷ []

run_round-IsLimited_example :
    Ensures (IsLimited 1) (run_round platform outside 10 (λ a b. 0) clocks events server)
run_round-IsLimited_example =
    run_round-IsLimited platform outside 10 (λ a b. 0) clocks events 1 server
      (record { limit = refl; few = omega arith })

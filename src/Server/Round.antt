-- ===== src/Server/Round.antt =====
-- src/server/server.cpp: accept_ready, handle_connection_event, the timed work, and one round of
-- `run`, of a server that is not being stopped. Worker threads put completions between the rounds.
-- The reactor's answers and the time are given; `drains` bounds the rounds of drain_completions, after
-- which the rest waits for the next.
use distributed_data_store.Prelude.{
  ℕ, zero, suc, ◌+◌, ◌/◌, ◌%◌, ◌^◌, Bool, true, false, ◌&&◌, ◌||◌, Option, none, some, List, [],
  ◌∷◌, length, leb, ◌==◌, if◌then◌else◌, ℤ, pos, negsuc, ◌+ℤ◌, ◌-ℤ◌, leb_ℤ, ltb_ℤ, ◌≡◌, refl,
}
use distributed_data_store.Store.{Platform, Store}
use distributed_data_store.Store.Sweep.{active_expire_cycle}
use distributed_data_store.Protocol.Parser.{new_parser}
use distributed_data_store.Persistence.Result.{Result, ok, err, undefined, bind}
use distributed_data_store.Persistence.Engine.{Engine}
use distributed_data_store.Persistence.Engine.Durable.{maybe_snapshot}
use distributed_data_store.Commands.Registry.{Outside}
use distributed_data_store.Net.Socket.{Socket}
use distributed_data_store.Server.Stats.{on_accept, add_expired, set_used_memory}
use distributed_data_store.Server.Connection.{Connection, Shared}
use distributed_data_store.Server.Traffic.{read_connection, write_connection}
use distributed_data_store.Server.Order.Added.{==_refl}
use distributed_data_store.Server.Loop.{
  Connections, Server, find_fd, erase_fd, put_back, close_connection, close_or_update, drain_loop,
}

-- The readings of the clocks: that of run_active_expiry in milliseconds, those of the sweep, and those
-- of maybe_snapshot. The `now` of the shared state is steady_clock in the unit of idle_timeout.
pub record Clocks : Type 0 where
  pub tick : ℤ
  pub store_now : ℤ
  pub wall : ℤ
  pub tested : ℤ
  pub steady : ℤ

-- A connection of the descriptor `fd` that was accepted, with the initial values of `Connection`.
unfoldable pub accepted_connection : Socket → Server → Connection
accepted_connection socket s = record {
  connection_id = s.next_connection_id;
  socket = socket;
  interest = record { wants_read = true; wants_write = false };
  output = [];
  parser = new_parser s.shared.config.parser_limits;
  next_request_seq = 0;
  next_response_seq = 0;
  pending_responses = [];
  command_queue = [];
  strand_running = false;
  inflight = 0;
  read_closed = false;
  closing = false;
  last_activity = s.shared.now;
}

-- The descriptor of an open socket is not that of another.
unfoldable pub emplace_connection : ℕ → Socket → List (ℕ × Socket) → Server → Server
emplace_connection fd socket waiting s = record s {
  connections = (fd, accepted_connection socket s) ∷ s.connections;
  next_connection_id = (s.next_connection_id + 1) % 2 ^ 64;
  waiting = waiting;
  shared = record s.shared { stats = on_accept s.shared.stats };
}

-- What is done for the connection of a descriptor, if there is one.
unfoldable pub for_fd : ℕ → (Connection → Shared → Result Server) → Server → Result Server
for_fd fd f s = elim (find_fd fd s.connections) [ none ↦ ok s | some c ↦ f c s.shared ]

-- max(1, hz) is hz, which is positive.
unfoldable pub expiry_interval : ℤ → ℕ
expiry_interval (pos hz) = 1000 / hz
expiry_interval (negsuc n) = 1000

abbrev pub count_expired : ℕ → Shared → Shared
count_expired zero sh = sh
count_expired (suc n) sh = record sh { stats = add_expired (suc n) sh.stats }

-- `none` is a draw from a shard that does not exist.
unfoldable pub run_active_expiry : (ℕ → ℕ → ℕ) → Clocks → Server → Option Server
run_active_expiry draw clocks s =
    let hz = s.shared.config.active_expiry_hz in
    if leb_ℤ hz (pos 0)
    then some s
    else if ltb_ℤ clocks.tick s.next_expiry_tick
    then some s
    else elim (active_expire_cycle draw clocks.store_now 20 s.shared.store) [
      | none ↦ none
      | some (n, store) ↦ some (record s {
        next_expiry_tick = clocks.tick +ℤ pos (expiry_interval hz);
        shared = count_expired n (record s.shared { store = store });
      })
    ]

abbrev is_idle : ℤ → Connection → Bool
is_idle deadline c = ltb_ℤ c.last_activity deadline && c.inflight == 0

unfoldable pub idle_fds : ℤ → Connections → List ℕ
idle_fds deadline [] = []
idle_fds deadline ((fd, c) ∷ rest) =
    let fds = idle_fds deadline rest in if is_idle deadline c then fd ∷ fds else fds

unfoldable pub close_all : List ℕ → Server → Server
close_all [] s = s
close_all (fd ∷ fds) s = close_all fds (close_connection fd s)

unfoldable pub close_idle_connections : Server → Server
close_idle_connections s =
    if leb_ℤ s.shared.config.idle_timeout (pos 0)
    then s
    else close_all (idle_fds (s.shared.now -ℤ s.shared.config.idle_timeout) s.connections) s

-- The exception of a snapshot is swallowed; what a snapshot that fails has changed is left out.
abbrev pub snapshot_taken : Shared → Result (Engine × Store) → Shared
snapshot_taken sh (ok (engine, store)) = record sh { persistence = some engine; store = store }
snapshot_taken sh (err e) = sh

unfoldable pub try_snapshot : Clocks → Shared → Shared
try_snapshot clocks sh = elim sh.persistence [
  | none ↦ sh
  | some engine ↦
      snapshot_taken sh (maybe_snapshot clocks.tested clocks.wall clocks.steady engine sh.store)
]

unfoldable pub update_memory : Server → Server
update_memory s = record s {
  shared = record s.shared {
    stats = set_used_memory s.shared.store.approximate_memory s.shared.stats;
  };
}

-- What wait gives: the listener is ready, or a connection.
pub data FiredEvent : Type 0 where
  listener_ready : FiredEvent
  fired : (fd : ℕ) (readable writable failed hangup : Bool) → FiredEvent

module _ (platform : Platform) (outside : ℕ → Outside) (drains : ℕ) where
  -- What accept_ready does once the connection is in its place.
  unfoldable pub begin_connection : ℕ → Server → Result Server
  begin_connection fd s =
      bind
        (for_fd fd (λ c sh. bind (read_connection platform outside c sh) λ r. ok (put_back fd s r))
          s)
        λ s1.
          bind (drain_loop platform outside drains s1)
            λ s2. for_fd fd (λ c sh. close_or_update platform outside fd s2 (c, sh)) s2

  -- The loop of accept_ready over the sockets that wait.
  unfoldable pub accept_loop : List (ℕ × Socket) → Server → Result Server
  accept_loop [] s = ok s
  accept_loop ((fd, socket) ∷ waiting) s =
      elim (leb s.shared.config.max_connections (length s.connections)) [
        | true ↦ ok s
        | false ↦
            bind (begin_connection fd (emplace_connection fd socket waiting s))
              (accept_loop waiting)
      ]

  unfoldable pub accept_ready : Server → Result Server
  accept_ready s = accept_loop s.waiting s

  abbrev pub read_and_drain : ℕ → Server → Result Server
  read_and_drain fd s =
      bind
        (for_fd fd (λ c sh. bind (read_connection platform outside c sh) λ r. ok (put_back fd s r))
          s)
        (drain_loop platform outside drains)

  abbrev pub write_to : ℕ → Server → Result Server
  write_to fd s = for_fd fd (λ c sh. bind (write_connection c sh) λ r. ok (put_back fd s r)) s

  abbrev pub finish_event : ℕ → Server → Result Server
  finish_event fd s = for_fd fd (λ c sh. close_or_update platform outside fd s (c, sh)) s

  unfoldable pub handle_connection_event : ℕ → Bool → Bool → Bool → Bool → Server → Result Server
  handle_connection_event fd readable writable failed hangup s =
      for_fd fd
        (λ c sh.
          if failed
          then ok (close_connection fd s)
          else bind (if readable || hangup then read_and_drain fd s else ok s)
              λ s1. bind (if writable then write_to fd s1 else ok s1) (finish_event fd))
        s

  unfoldable pub handle_event : FiredEvent → Server → Result Server
  handle_event listener_ready s = accept_ready s
  handle_event (fired fd readable writable failed hangup) s =
      handle_connection_event fd readable writable failed hangup s

  unfoldable pub handle_events : List FiredEvent → Server → Result Server
  handle_events [] s = ok s
  handle_events (event ∷ events) s = bind (handle_event event s) (handle_events events)

  abbrev pub after_expiry : Clocks → Option Server → Result Server
  after_expiry clocks none = err undefined
  after_expiry clocks (some s) =
      let s' = close_idle_connections s in
      ok (update_memory (record s' { shared = try_snapshot clocks s'.shared }))

  -- One round of `run`, after `wait`.
  unfoldable pub run_round : (ℕ → ℕ → ℕ) → Clocks → List FiredEvent → Server → Result Server
  run_round draw clocks events s = bind (drain_loop platform outside drains s) λ s1.
      bind (handle_events events s1) λ s2.
        bind (drain_loop platform outside drains s2)
          λ s3. after_expiry clocks (run_active_expiry draw clocks s3)

-- The end of `run`: all connections are closed.
unfoldable pub all_fds : Connections → List ℕ
all_fds [] = []
all_fds ((fd, c) ∷ rest) = fd ∷ all_fds rest

unfoldable pub close_server : Server → Server
close_server s = close_all (all_fds s.connections) s

close_connection-first :
    (fd : ℕ) (c : Connection) (rest : Connections) (s : Server)
    → s.connections ≡ (fd, c) ∷ rest
    → (close_connection fd s).connections ≡ rest
unfolding close_connection find_fd erase_fd
close_connection-first fd c rest s h =
    let found : find_fd fd s.connections ≡ some c = simp (h, ==_refl fd) refl in
    let erased : erase_fd fd s.connections ≡ rest = simp (h, ==_refl fd) refl in
    simp (close_connection, found) erased

close_all-connections :
    (cs : Connections) (s : Server)
    → s.connections ≡ cs
    → (close_all (all_fds cs) s).connections ≡ []
unfolding close_all all_fds
close_all-connections [] s h = h
close_all-connections ((fd, c) ∷ rest) s h =
    close_all-connections rest (close_connection fd s) (close_connection-first fd c rest s h)

-- At the end of `run` no connection is left.
close_server-connections : (s : Server) → (close_server s).connections ≡ []
unfolding close_server
close_server-connections s = close_all-connections s.connections s refl

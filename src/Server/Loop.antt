-- ===== src/Server/Loop.antt =====
-- src/server/server.cpp: the connections as a whole, and what is done with the completions that worker
-- threads have put into the queue. `Server` is what one call of the event loop sees.
use distributed_data_store.Prelude.{
  ℕ, zero, suc, ◌+◌, ◌-◌, ◌%◌, ◌^◌, Bool, true, false, ◌&&◌, ◌||◌, Option, none, some, List, [],
  ◌∷◌, ◌++◌, Bytes, length, ltb, ◌==◌, if◌then◌else◌, ℤ,
}
use distributed_data_store.Store.{Platform}
use distributed_data_store.Persistence.Result.{Result, ok, bind}
use distributed_data_store.Commands.Registry.{Outside}
use distributed_data_store.Net.Socket.{Socket}
use distributed_data_store.Server.Stats.{on_disconnect, on_command}
use distributed_data_store.Server.Connection.{Connection, Completion, Shared, launch_strand}
use distributed_data_store.Server.Traffic.{is_empty, write_connection, update_interest}

abbrev pub Connections : Type 0
Connections = List (ℕ × Connection)

-- `waiting` are the sockets that the listener will accept, with their descriptors.
pub record Server : Type 0 where
  pub shared : Shared
  pub connections : Connections
  pub waiting : List (ℕ × Socket)
  pub next_connection_id : ℕ
  pub next_expiry_tick : ℤ

unfoldable pub find_fd : ℕ → Connections → Option Connection
find_fd fd [] = none
find_fd fd ((other, c) ∷ rest) = if other == fd then some c else find_fd fd rest

unfoldable pub put_fd : ℕ → Connection → Connections → Connections
put_fd fd c [] = []
put_fd fd c ((other, d) ∷ rest) =
    if other == fd then (fd, c) ∷ rest else (other, d) ∷ put_fd fd c rest

unfoldable pub erase_fd : ℕ → Connections → Connections
erase_fd fd [] = []
erase_fd fd ((other, d) ∷ rest) = if other == fd then rest else (other, d) ∷ erase_fd fd rest

-- The search of apply_completion.
unfoldable pub find_id : ℕ → Connections → Option (ℕ × Connection)
find_id id [] = none
find_id id ((fd, c) ∷ rest) = if c.connection_id == id then some (fd, c) else find_id id rest

unfoldable pub find_response : ℕ → List (ℕ × Bytes) → Option Bytes
find_response sequence [] = none
find_response sequence ((other, payload) ∷ rest) =
    if other == sequence then some payload else find_response sequence rest

unfoldable pub erase_response : ℕ → List (ℕ × Bytes) → List (ℕ × Bytes)
erase_response sequence [] = []
erase_response sequence ((other, payload) ∷ rest) =
    if other == sequence then rest else (other, payload) ∷ erase_response sequence rest

-- `emplace` of std::unordered_map leaves what is there.
abbrev emplaced : ℕ → Bytes → List (ℕ × Bytes) → Option Bytes → List (ℕ × Bytes)
emplaced sequence payload pending none = (sequence, payload) ∷ pending
emplaced sequence payload pending (some old) = pending

unfoldable pub add_response : ℕ → Bytes → List (ℕ × Bytes) → List (ℕ × Bytes)
add_response sequence payload pending =
    emplaced sequence payload pending (find_response sequence pending)

-- More output than the limit: the connection is given up.
unfoldable pub overflow : Connection → Connection
overflow c = record c { closing = true; read_closed = true; pending_responses = [] }

abbrev pub replied : Bytes → Connection → Connection
replied payload c = record c {
  output = c.output ++ payload;
  pending_responses = erase_response c.next_response_seq c.pending_responses;
  next_response_seq = (c.next_response_seq + 1) % 2 ^ 64;
}

-- The loop of apply_completion; a round that goes on erases a pending response.
unfoldable pub flush_responses : ℕ → ℕ → Connection → Connection
flush_responses zero limit c = c
flush_responses (suc fuel) limit c = elim (find_response c.next_response_seq c.pending_responses) [
  | none ↦ c
  | some payload ↦
      elim (ltb limit (length c.output) || ltb (limit - length c.output) (length payload)) [
        | true ↦ overflow c
        | false ↦ flush_responses fuel limit (replied payload c)
      ]
]

-- The part of apply_completion before anything is sent.
unfoldable pub take_response : Completion → Shared → Connection → Connection
take_response completion sh c =
    let pending = add_response completion.sequence completion.payload c.pending_responses in
    record (flush_responses (suc (length pending)) sh.config.max_output_buffer_bytes
      (record c { pending_responses = pending; inflight = c.inflight - 1 })) {
        last_activity = sh.now;
      }

unfoldable pub close_connection : ℕ → Server → Server
close_connection fd s = elim (find_fd fd s.connections) [
  | none ↦ s
  | some c ↦ record s {
    connections = erase_fd fd s.connections;
    shared = record s.shared { stats = on_disconnect s.shared.stats };
  }
]

abbrev pub is_done : Connection → Bool
is_done c = c.closing && (is_empty c.output && c.inflight == 0)

-- The connection put back in its place, beside what it changed.
abbrev pub put_back : ℕ → Server → Connection × Shared → Server
put_back fd s (c, sh) = record s { connections = put_fd fd c s.connections; shared = sh }

module _ (platform : Platform) (outside : ℕ → Outside) where
  -- Both ends of apply_completion and of a connection's event: close it, or look what it waits for.
  unfoldable pub close_or_update : ℕ → Server → Connection × Shared → Result Server
  close_or_update fd s (c, sh) =
      if is_done c
      then ok (close_connection fd (put_back fd s (c, sh)))
      else bind (update_interest platform outside c sh) λ r. ok (put_back fd s r)

  -- Continue the strand.
  unfoldable pub continue_strand : Connection × Shared → Result (Connection × Shared)
  continue_strand (c, sh) = launch_strand platform outside c sh

  -- write_connection, if there is output.
  unfoldable pub complete_on : Completion → Connection → Shared → Result (Connection × Shared)
  complete_on completion c sh =
      let counted : Shared = record sh { stats = on_command completion.is_error sh.stats } in
      bind (write_connection (take_response completion counted c) counted) continue_strand

  unfoldable pub apply_completion : Completion → Server → Result Server
  apply_completion completion s = elim (find_id completion.connection_id s.connections) [
    | none ↦ ok s
    | some (fd, c) ↦ bind (complete_on completion c s.shared) (close_or_update fd s)
  ]

  unfoldable pub apply_all : List Completion → Server → Result Server
  apply_all [] s = ok s
  apply_all (completion ∷ rest) s = bind (apply_completion completion s) (apply_all rest)

  unfoldable pub drain_loop : ℕ → Server → Result Server
  drain_loop zero s = ok s
  drain_loop (suc fuel) s = elim s.shared.completions [
    | [] ↦ ok s
    | completion ∷ rest ↦
        bind
          (apply_all (completion ∷ rest)
            (record s { shared = record s.shared { completions = [] } }))
          (drain_loop fuel)
  ]

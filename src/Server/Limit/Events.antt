-- ===== src/Server/Limit/Events.antt =====
-- Accepting and the events, and the number of connections.
use distributed_data_store.Prelude.{
  ℕ, Bool, true, false, ◌||◌, List, [], ◌∷◌, length, leb, Bool-cases, inl, inr, if◌then◌else◌,
  arith,
}
use distributed_data_store.Store.{Platform}
use distributed_data_store.Persistence.Result.{Result, ok, bind}
use distributed_data_store.Commands.Registry.{Outside}
use distributed_data_store.Net.Socket.{Socket}
use distributed_data_store.Server.Traffic.{read_connection, write_connection}
use distributed_data_store.Server.Loop.{Server, put_back, close_or_update, drain_loop}
use distributed_data_store.Server.Round.{
  emplace_connection, for_fd, FiredEvent, listener_ready, fired, begin_connection, accept_loop,
  accept_ready, read_and_drain, write_to, finish_event, handle_connection_event, handle_event,
  handle_events,
}
use distributed_data_store.Server.Order.{Ensures, bind-Ensures}
use distributed_data_store.Server.Limit.{
  KeepsLimit, read_connection-KeepsLimit, write_connection-KeepsLimit,
}
use distributed_data_store.Server.Limit.Completions.{
  IsLimited, put_back-IsLimited, close_connection-IsLimited, for_fd-IsLimited,
  close_or_update-IsLimited, drain_loop-IsLimited,
}

module _ (platform : Platform) (outside : ℕ → Outside) (m drains : ℕ) where
  read_for-IsLimited :
      (fd : ℕ) (s : Server)
      → IsLimited m s
      → Ensures (IsLimited m) (
          for_fd fd
            (λ c sh. bind (read_connection platform outside c sh) λ r. ok (put_back fd s r))
            s)
  read_for-IsLimited fd s limited =
      for_fd-IsLimited m fd
        (λ c sh. bind (read_connection platform outside c sh) λ r. ok (put_back fd s r)) s
        (λ c.
          bind-Ensures (KeepsLimit m) (IsLimited m) (read_connection platform outside c s.shared)
            (λ r. ok (put_back fd s r))
            (read_connection-KeepsLimit platform outside m c s.shared limited.limit)
            (λ (d, sh') k. put_back-IsLimited m fd s d sh' limited k))
        limited

  write_to-IsLimited :
      (fd : ℕ) (s : Server)
      → IsLimited m s
      → Ensures (IsLimited m) (write_to platform outside drains fd s)
  write_to-IsLimited fd s limited =
      for_fd-IsLimited m fd (λ c sh. bind (write_connection c sh) λ r. ok (put_back fd s r)) s
        (λ c.
          bind-Ensures (KeepsLimit m) (IsLimited m) (write_connection c s.shared)
            (λ r. ok (put_back fd s r))
            (write_connection-KeepsLimit platform outside m c s.shared limited.limit)
            (λ (d, sh') k. put_back-IsLimited m fd s d sh' limited k))
        limited

  finish_event-IsLimited :
      (fd : ℕ) (s : Server)
      → IsLimited m s
      → Ensures (IsLimited m) (finish_event platform outside drains fd s)
  finish_event-IsLimited fd s limited =
      for_fd-IsLimited m fd (λ c sh. close_or_update platform outside fd s (c, sh)) s
        (λ c. close_or_update-IsLimited platform outside m fd s c s.shared limited limited.limit)
        limited

  read_and_drain-IsLimited :
      (fd : ℕ) (s : Server)
      → IsLimited m s
      → Ensures (IsLimited m) (read_and_drain platform outside drains fd s)
  read_and_drain-IsLimited fd s limited =
      bind-Ensures (IsLimited m) (IsLimited m)
        (for_fd fd (λ c sh. bind (read_connection platform outside c sh) λ r. ok (put_back fd s r))
          s)
        (drain_loop platform outside drains) (read_for-IsLimited fd s limited)
        (λ u k. drain_loop-IsLimited platform outside m drains u k)

  begin_connection-IsLimited :
      (fd : ℕ) (s : Server)
      → IsLimited m s
      → Ensures (IsLimited m) (begin_connection platform outside drains fd s)
  unfolding begin_connection
  begin_connection-IsLimited fd s limited =
      bind-Ensures (IsLimited m) (IsLimited m)
        (for_fd fd (λ c sh. bind (read_connection platform outside c sh) λ r. ok (put_back fd s r))
          s)
        _ (read_for-IsLimited fd s limited)
        (λ s1 k.
          bind-Ensures (IsLimited m) (IsLimited m) (drain_loop platform outside drains s1) _
            (drain_loop-IsLimited platform outside m drains s1 k)
            (λ s2 l. finish_event-IsLimited fd s2 l))

  accept_loop-IsLimited :
      (waiting : List (ℕ × Socket)) (s : Server)
      → IsLimited m s
      → Ensures (IsLimited m) (accept_loop platform outside drains waiting s)
  unfolding accept_loop emplace_connection
  accept_loop-IsLimited [] s limited = limited
  accept_loop-IsLimited ((fd, socket) ∷ waiting) s limited =
      elim (Bool-cases (leb s.shared.config.max_connections (length s.connections))) [
        | inl full ↦ rw (Ensures, accept_loop, full) limited
        | inr room ↦
            rw (accept_loop, room)
              (bind-Ensures (IsLimited m) (IsLimited m)
                (begin_connection platform outside drains fd
                  (emplace_connection fd socket waiting s))
                (accept_loop platform outside drains waiting)
                (begin_connection-IsLimited fd (emplace_connection fd socket waiting s) (record {
                  limit = limited.limit;
                  few = let limit = limited.limit in ground (arith, room, limit);
                }))
                (λ u k. accept_loop-IsLimited waiting u k))
      ]

  if_then :
      (b : Bool) (f : Server → Result Server) (s : Server)
      → Ensures (IsLimited m) (f s)
      → IsLimited m s
      → Ensures (IsLimited m) (if b then f s else ok s)
  if_then true f s h limited = h
  if_then false f s h limited = limited

  handle_connection_event-IsLimited :
      (fd : ℕ) (readable writable failed hangup : Bool) (s : Server)
      → IsLimited m s
      → Ensures
          (IsLimited m)
          (handle_connection_event platform outside drains fd readable writable failed hangup s)
  unfolding handle_connection_event
  handle_connection_event-IsLimited fd readable writable true hangup s limited =
      for_fd-IsLimited m fd _ s (λ c. close_connection-IsLimited m fd s limited) limited
  handle_connection_event-IsLimited fd readable writable false hangup s limited =
      for_fd-IsLimited m fd _ s
        (λ c.
          bind-Ensures (IsLimited m) (IsLimited m)
            (if readable || hangup then read_and_drain platform outside drains fd s else ok s) _
            (if_then (readable || hangup) (read_and_drain platform outside drains fd) s
              (read_and_drain-IsLimited fd s limited) limited)
            (λ s1 k.
              bind-Ensures (IsLimited m) (IsLimited m)
                (if writable then write_to platform outside drains fd s1 else ok s1)
                (finish_event platform outside drains fd)
                (if_then writable (write_to platform outside drains fd) s1
                  (write_to-IsLimited fd s1 k) k)
                (λ s2 l. finish_event-IsLimited fd s2 l)))
        limited

  pub handle_events-IsLimited :
      (events : List FiredEvent) (s : Server)
      → IsLimited m s
      → Ensures (IsLimited m) (handle_events platform outside drains events s)
  unfolding handle_events handle_event accept_ready
  handle_events-IsLimited [] s limited = limited
  handle_events-IsLimited (listener_ready ∷ events) s limited =
      bind-Ensures (IsLimited m) (IsLimited m) (accept_loop platform outside drains s.waiting s)
        (handle_events platform outside drains events) (accept_loop-IsLimited s.waiting s limited)
        (λ u k. handle_events-IsLimited events u k)
  handle_events-IsLimited (fired fd readable writable failed hangup ∷ events) s limited =
      bind-Ensures (IsLimited m) (IsLimited m)
        (handle_connection_event platform outside drains fd readable writable failed hangup s)
        (handle_events platform outside drains events)
        (handle_connection_event-IsLimited fd readable writable failed hangup s limited)
        (λ u k. handle_events-IsLimited events u k)

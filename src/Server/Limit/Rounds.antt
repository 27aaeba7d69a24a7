-- ===== src/Server/Limit/Rounds.antt =====
-- A round of the event loop, and the number of connections.
use distributed_data_store.Prelude.{
  ℕ, zero, suc, Option, none, some, List, [], ◌∷◌, Bool-cases, inl, inr, pos, leb_ℤ, ltb_ℤ, ◌-ℤ◌,
}
use distributed_data_store.Store.{Platform, Store}
use distributed_data_store.Store.Sweep.{active_expire_cycle}
use distributed_data_store.Persistence.Result.{Result, ok, err}
use distributed_data_store.Persistence.Engine.{Engine}
use distributed_data_store.Persistence.Engine.Durable.{maybe_snapshot}
use distributed_data_store.Commands.Registry.{Outside}
use distributed_data_store.Server.Connection.{Shared}
use distributed_data_store.Server.Loop.{Server, close_connection, drain_loop}
use distributed_data_store.Server.Round.{
  Clocks, count_expired, run_active_expiry, idle_fds, close_all, close_idle_connections,
  snapshot_taken, try_snapshot, update_memory, FiredEvent, handle_events, after_expiry, run_round,
}
use distributed_data_store.Server.Order.{Ensures, bind-Ensures}
use distributed_data_store.Server.Limit.{HasLimit}
use distributed_data_store.Server.Limit.Completions.{
  IsLimited, Option-cases, close_connection-IsLimited, drain_loop-IsLimited,
}
use distributed_data_store.Server.Limit.Events.{handle_events-IsLimited}

close_all-IsLimited :
    (m : ℕ) (fds : List ℕ) (s : Server) → IsLimited m s → IsLimited m (close_all fds s)
unfolding close_all
close_all-IsLimited m [] s limited = limited
close_all-IsLimited m (fd ∷ fds) s limited =
    close_all-IsLimited m fds (close_connection fd s) (close_connection-IsLimited m fd s limited)

close_idle_connections-IsLimited :
    (m : ℕ) (s : Server) → IsLimited m s → IsLimited m (close_idle_connections s)
unfolding close_idle_connections
close_idle_connections-IsLimited m s limited =
    elim (Bool-cases (leb_ℤ s.shared.config.idle_timeout (pos 0))) [
      | inl never ↦ rw never limited
      | inr timed ↦ rw timed (
          close_all-IsLimited m
            (idle_fds (s.shared.now -ℤ s.shared.config.idle_timeout) s.connections) s limited)
    ]

snapshot_taken-HasLimit :
    (m : ℕ) (sh : Shared) (r : Result (Engine × Store))
    → HasLimit m sh
    → HasLimit m (snapshot_taken sh r)
snapshot_taken-HasLimit m sh (ok (engine, store)) h = h
snapshot_taken-HasLimit m sh (err e) h = h

try_snapshot-HasLimit :
    (m : ℕ) (clocks : Clocks) (sh : Shared) → HasLimit m sh → HasLimit m (try_snapshot clocks sh)
unfolding try_snapshot
try_snapshot-HasLimit m clocks sh h = elim (Option-cases sh.persistence) [
  | inl off ↦ simp (try_snapshot, off) h
  | inr (engine, on) ↦
      simp (try_snapshot, on)
        (snapshot_taken-HasLimit m sh
          (maybe_snapshot clocks.tested clocks.wall clocks.steady engine sh.store) h)
]

count_expired-HasLimit : (m n : ℕ) (sh : Shared) → HasLimit m sh → HasLimit m (count_expired n sh)
count_expired-HasLimit m zero sh h = h
count_expired-HasLimit m (suc n) sh h = h

abbrev IfLimited : ℕ → Option Server → Type 0
IfLimited m none = Unit
IfLimited m (some s) = IsLimited m s

run_active_expiry-IfLimited :
    (m : ℕ) (draw : ℕ → ℕ → ℕ) (clocks : Clocks) (s : Server)
    → IsLimited m s
    → IfLimited m (run_active_expiry draw clocks s)
unfolding run_active_expiry
run_active_expiry-IfLimited m draw clocks s limited =
    elim (Bool-cases (leb_ℤ s.shared.config.active_expiry_hz (pos 0))) [
      | inl off ↦ rw off limited
      | inr on ↦ elim (Bool-cases (ltb_ℤ clocks.tick s.next_expiry_tick)) [
        | inl early ↦ rw (on, early) limited
        | inr due ↦
            elim (Option-cases (active_expire_cycle draw clocks.store_now 20 s.shared.store)) [
              | inl outside_shards ↦ rw (on, due, outside_shards) tt
              | inr ((n, store), swept) ↦
                  rw (on, due, swept)
                    (record {
                      limit =
                          count_expired-HasLimit m n (record s.shared { store = store })
                            limited.limit;
                      few = limited.few;
                    })
            ]
      ]
    ]

after_expiry-IsLimited :
    (m : ℕ) (clocks : Clocks) (platform : Platform) (outside : ℕ → Outside) (drains : ℕ)
    (x : Option Server)
    → IfLimited m x
    → Ensures (IsLimited m) (after_expiry platform outside drains clocks x)
unfolding update_memory
after_expiry-IsLimited m clocks platform outside drains none h = tt
after_expiry-IsLimited m clocks platform outside drains (some s) h =
    let idle = close_idle_connections-IsLimited m s h in
    record {
      limit = try_snapshot-HasLimit m clocks (close_idle_connections s).shared idle.limit;
      few = idle.few;
    }

-- If the configured limit is m and at most m connections are open, then so it is after a round of
-- `run` that does not throw, whatever events come, whichever sockets wait, whatever recv and send
-- answer and however often completions are drained.
pub run_round-IsLimited :
    (platform : Platform) (outside : ℕ → Outside) (drains : ℕ) (draw : ℕ → ℕ → ℕ) (clocks : Clocks)
    (events : List FiredEvent) (m : ℕ) (s : Server)
    → IsLimited m s
    → Ensures (IsLimited m) (run_round platform outside drains draw clocks events s)
unfolding run_round
run_round-IsLimited platform outside drains draw clocks events m s limited =
    bind-Ensures (IsLimited m) (IsLimited m) (drain_loop platform outside drains s) _
      (drain_loop-IsLimited platform outside m drains s limited)
      (λ s1 k1.
        bind-Ensures (IsLimited m) (IsLimited m) (handle_events platform outside drains events s1) _
          (handle_events-IsLimited platform outside m drains events s1 k1)
          (λ s2 k2.
            bind-Ensures (IsLimited m) (IsLimited m) (drain_loop platform outside drains s2) _
              (drain_loop-IsLimited platform outside m drains s2 k2)
              (λ s3 k3.
                after_expiry-IsLimited m clocks platform outside drains
                  (run_active_expiry draw clocks s3)
                  (run_active_expiry-IfLimited m draw clocks s3 k3))))

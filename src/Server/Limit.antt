-- ===== src/Server/Limit.antt =====
-- The operations of src/server/server.cpp on one connection, and the configured limit.
pub mod Completions
pub mod Events
pub mod Rounds
use distributed_data_store.Prelude.{
  ℕ, zero, suc, ◌≡◌, refl, Bool, true, false, ◌&&◌, ◌||◌, not, Option, none, some, List, [], ◌∷◌,
  Bytes, length, ltb, leb, ◌==◌, Bool-cases, inl, inr, subst, sym, if◌then◌else◌,
}
use distributed_data_store.Store.{Platform}
use distributed_data_store.Protocol.RespValue.{RespValue}
use distributed_data_store.Protocol.Encoder.{encode}
use distributed_data_store.Protocol.Parser.{next, feed}
use distributed_data_store.Persistence.Result.{Result, ok, err, bind}
use distributed_data_store.Commands.Registry.{Outside, Reply, execute}
use distributed_data_store.Util.ThreadPool.{ThreadPool, try_submit}
use distributed_data_store.Net.Socket
use distributed_data_store.Net.Socket.{
  Receive, received, threw, Send, accepted, try_receive, try_send,
}
use distributed_data_store.Server.Stats.{on_command}
use distributed_data_store.Server.Connection.{
  QueuedCommand, Connection, Completion, Job, Shared, wait, refused, requested, parsed_request,
  queue_saturated, refuse, context_of, deliver, finish_job, run_job, submit_or_run, launch_front,
  launch_strand, queued, enqueue_command, queue_parsed, queue_parsed_commands,
}
use distributed_data_store.Server.Traffic.{
  is_empty, end_of_input, fed, count_in, arrived, read_loop, read_connection, written, count_out,
  lost, write_loop, write_connection, compute_interest, with_interest, update_interest,
}
use distributed_data_store.Server.Loop.{take_response, continue_strand, complete_on}
use distributed_data_store.Server.Order.{Ensures, bind-Ensures}
use distributed_data_store.Server.Order.Parsing.{Parsed-cases}
use distributed_data_store.Server.Order.Reading.{Receive-cases, either-Ensures}
use distributed_data_store.Server.Order.Sending.{Send-cases}

abbrev pub HasLimit : ℕ → Shared → Type 0
HasLimit m sh = sh.config.max_connections ≡ m

abbrev pub KeepsLimit : ℕ → Connection × Shared → Type 0
KeepsLimit m (c, sh) = HasLimit m sh

deliver-HasLimit :
    (m : ℕ) (job : Job) (response : RespValue) (payload : Option Bytes) (sh : Shared)
    → HasLimit m sh
    → Ensures (HasLimit m) (deliver job response payload sh)
unfolding deliver
deliver-HasLimit m job response none sh h = tt
deliver-HasLimit m job response (some payload) sh h = h

finish_job-HasLimit :
    (m : ℕ) (job : Job) (r : Option Reply) (sh : Shared)
    → HasLimit m sh
    → Ensures (HasLimit m) (finish_job job r sh)
unfolding finish_job
finish_job-HasLimit m job none sh h = tt
finish_job-HasLimit m job (some (err e, context)) sh h = tt
finish_job-HasLimit m job (some (ok response, context)) sh h =
    deliver-HasLimit m job response (encode response)
      (record sh { store = context.store; persistence = context.persistence }) h

module _ (platform : Platform) (outside : ℕ → Outside) (m : ℕ) where
  submit_or_run-HasLimit :
      (job : Job) (r : Bool × ThreadPool Job) (sh : Shared)
      → HasLimit m sh
      → Ensures (HasLimit m) (submit_or_run platform outside job r sh)
  unfolding submit_or_run run_job
  submit_or_run-HasLimit job (true, pool) sh h = h
  submit_or_run-HasLimit job (false, pool) sh h =
      finish_job-HasLimit m job
        (execute platform (outside sh.jobs_run) job.item.request (context_of sh)) sh h

  launch_front-KeepsLimit :
      (queue : List QueuedCommand) (c : Connection) (sh : Shared)
      → HasLimit m sh
      → Ensures (KeepsLimit m) (launch_front platform outside queue c sh)
  unfolding launch_front
  launch_front-KeepsLimit [] c sh h = h
  launch_front-KeepsLimit (item ∷ queue) c sh h =
      let job : Job = record { connection_id = c.connection_id; item = item } in
      bind-Ensures (HasLimit m) (KeepsLimit m)
        (submit_or_run platform outside job (try_submit job sh.pool) sh)
        (λ sh'. ok (record c { command_queue = queue; strand_running = true }, sh'))
        (submit_or_run-HasLimit job (try_submit job sh.pool) sh h) (λ sh' k. k)

  enqueue_command-KeepsLimit :
      (request : RespValue) (c : Connection) (sh : Shared)
      → HasLimit m sh
      → Ensures (KeepsLimit m) (enqueue_command platform outside request c sh)
  unfolding enqueue_command launch_strand
  enqueue_command-KeepsLimit request c sh h = elim (Bool-cases c.strand_running) [
    | inl runs ↦
        subst
          (λ (b : Bool). Ensures (KeepsLimit m) (
            if b
            then ok (queued request c, sh)
            else launch_strand platform outside (queued request c) sh))
          (sym runs) h
    | inr rests ↦
        subst
          (λ (b : Bool). Ensures (KeepsLimit m) (
            if b
            then ok (queued request c, sh)
            else launch_strand platform outside (queued request c) sh))
          (sym rests)
          (launch_front-KeepsLimit (queued request c).command_queue (queued request c) sh h)
  ]

  queue_parsed-KeepsLimit :
      (fuel : ℕ) (c : Connection) (sh : Shared)
      → HasLimit m sh
      → Ensures (KeepsLimit m) (queue_parsed platform outside fuel c sh)
  unfolding queue_parsed
  queue_parsed-KeepsLimit zero c sh h = h
  queue_parsed-KeepsLimit (suc fuel) c sh h =
      elim (Bool-cases (queue_saturated sh && ltb 0 c.inflight)) [
        | inl full ↦ rw (Ensures, full) h
        | inr room ↦
            let c' : Connection = record c { parser = (next c.parser).1 } in
            elim (Parsed-cases (parsed_request (next c.parser).0)) [
              | inl e ↦ rw (Ensures, room, e) h
              | inr (inl e) ↦ rw (Ensures, room, e) h
              | inr (inr (request, e)) ↦
                  rw (Ensures, room, e)
                    (bind-Ensures (KeepsLimit m) (KeepsLimit m)
                      (enqueue_command platform outside request c' sh)
                      (λ (d, sh'). queue_parsed platform outside fuel d sh')
                      (enqueue_command-KeepsLimit request c' sh h)
                      (λ (d, sh') k. queue_parsed-KeepsLimit fuel d sh' k))
            ]
      ]

  read_loop-KeepsLimit :
      (fuel : ℕ) (c : Connection) (sh : Shared)
      → HasLimit m sh
      → Ensures (KeepsLimit m) (read_loop platform outside fuel c sh)
  unfolding read_loop queue_parsed_commands
  read_loop-KeepsLimit zero c sh h = h
  read_loop-KeepsLimit (suc fuel) c sh h = elim (Bool-cases (queue_saturated sh)) [
    | inl full ↦ rw (Ensures, full) h
    | inr room ↦ elim (Receive-cases (try_receive c.socket).0) [
      | inl e ↦ rw (Ensures, room, e) h
      | inr (inl e) ↦ rw (Ensures, room, e) h
      | inr (inr (inl e)) ↦ rw (Ensures, room, e) tt
      | inr (inr (inr (bytes, e))) ↦
          let d = arrived bytes (record c { socket = (try_receive c.socket).1 }) sh in
          elim (Bool-cases (fed (feed c.parser bytes).0)) [
            | inl fits ↦
                rw (Ensures, room, e, fits)
                  (bind-Ensures (KeepsLimit m) (KeepsLimit m)
                    (queue_parsed platform outside (suc (length d.parser.buffer)) d
                      (count_in bytes sh))
                    _
                    (queue_parsed-KeepsLimit (suc (length d.parser.buffer)) d (count_in bytes sh) h)
                    (λ (d', sh') k.
                      either-Ensures (KeepsLimit m) d'.closing (ok (d', sh'))
                        (read_loop platform outside fuel d' sh') k
                        (read_loop-KeepsLimit fuel d' sh' k)))
            | inr over ↦ rw (Ensures, room, e, over) h
          ]
    ]
  ]

  pub read_connection-KeepsLimit :
      (c : Connection) (sh : Shared)
      → HasLimit m sh
      → Ensures (KeepsLimit m) (read_connection platform outside c sh)
  unfolding read_connection
  read_connection-KeepsLimit c sh h = elim (Bool-cases (c.read_closed || c.closing)) [
    | inl over ↦ rw (Ensures, over) h
    | inr going ↦ rw (Ensures, going) (read_loop-KeepsLimit (suc (length c.socket.incoming)) c sh h)
  ]

  pub update_interest-KeepsLimit :
      (c : Connection) (sh : Shared)
      → HasLimit m sh
      → Ensures (KeepsLimit m) (update_interest platform outside c sh)
  unfolding update_interest
  update_interest-KeepsLimit c sh h =
      let c' : Connection = record c { interest = compute_interest c sh } in
      elim (Bool-cases ((compute_interest c sh).wants_read && not c.interest.wants_read)) [
        | inl anew ↦
            rw (Ensures, anew)
              (bind-Ensures (KeepsLimit m) (KeepsLimit m) (read_connection platform outside c' sh)
                (λ r. ok (with_interest r)) (read_connection-KeepsLimit c' sh h) (λ (d, sh') k. k))
        | inr same ↦ rw (Ensures, same) h
      ]

  write_loop-KeepsLimit :
      (fuel : ℕ) (c : Connection) (sh : Shared)
      → HasLimit m sh
      → Ensures (KeepsLimit m) (write_loop fuel c sh)
  unfolding write_loop
  write_loop-KeepsLimit zero c sh h = h
  write_loop-KeepsLimit (suc fuel) c sh h = elim (Bool-cases (is_empty c.output)) [
    | inl nothing ↦ rw (Ensures, nothing) h
    | inr some_bytes ↦ elim (Send-cases (try_send c.output c.socket).0) [
      | inl e ↦ rw (Ensures, some_bytes, e) h
      | inr (inl e) ↦ rw (Ensures, some_bytes, e) h
      | inr (inr (inl e)) ↦ rw (Ensures, some_bytes, e) tt
      | inr (inr (inr (inl e))) ↦ rw (Ensures, some_bytes, e) h
      | inr (inr (inr (inr (n, e)))) ↦
          let c' : Connection = record c { socket = (try_send c.output c.socket).1 } in
          rw (Ensures, some_bytes, e)
            (write_loop-KeepsLimit fuel (written (suc n) c' sh) (count_out (suc n) sh) h)
    ]
  ]

  pub write_connection-KeepsLimit :
      (c : Connection) (sh : Shared)
      → HasLimit m sh
      → Ensures (KeepsLimit m) (write_connection c sh)
  unfolding write_connection
  write_connection-KeepsLimit c sh h = write_loop-KeepsLimit (suc (length c.socket.outgoing)) c sh h

  pub complete_on-KeepsLimit :
      (completion : Completion) (c : Connection) (sh : Shared)
      → HasLimit m sh
      → Ensures (KeepsLimit m) (complete_on platform outside completion c sh)
  unfolding complete_on continue_strand launch_strand
  complete_on-KeepsLimit completion c sh h =
      let counted : Shared = record sh { stats = on_command completion.is_error sh.stats } in
      bind-Ensures (KeepsLimit m) (KeepsLimit m)
        (write_connection (take_response completion counted c) counted)
        (continue_strand platform outside)
        (write_connection-KeepsLimit (take_response completion counted c) counted h)
        (λ (d, sh') k. launch_front-KeepsLimit d.command_queue d sh' k)

-- ===== src/Server/Order/Launch.antt =====
-- launch_strand and enqueue_command of src/server/server.cpp, and the order of the replies.
use distributed_data_store.Prelude.{
  ℕ, suc, ◌+◌, ◌-◌, ◌^◌, ◌<◌, ◌≡◌, refl, sym, ap, ◌∙◌, Bool, true, false, List, [], ◌∷◌, ◌++◌,
  subst, length, length-append, if◌then◌else◌, arith,
}
use distributed_data_store.Store.{Platform}
use distributed_data_store.Protocol.RespValue.{RespValue}
use distributed_data_store.Persistence.Result.{ok}
use distributed_data_store.Commands.Registry.{Outside}
use distributed_data_store.Util.ThreadPool.{try_submit}
use distributed_data_store.Server.Connection.{
  QueuedCommand, Connection, Job, Shared, submit_or_run, launch_front, launch_strand, queued,
  enqueue_command,
}
use distributed_data_store.Server.Order.{
  Ensures, bind-Ensures, Elsewhere, Numbered, IsReady, IsRunning, InPhase, phase_of, InOrder,
  to_come,
}
use distributed_data_store.Server.Order.Added.{Adds, try_submit-jobs, submit_or_run-Adds}

Numbered-append :
    (n : ℕ) (queue : List QueuedCommand) (q : QueuedCommand)
    → Numbered n queue
    → q.sequence ≡ n + length queue
    → Numbered n (queue ++ q ∷ [])
Numbered-append n [] q all h = (omega (arith, h), tt)
Numbered-append n (p ∷ queue) q all h =
    (all.0, Numbered-append (n + 1) queue q all.1 (omega (arith, h)))

-- A request put into the queue of a connection whose strand runs, or rests.
queued-IsRunning :
    (w : Elsewhere) (request : RespValue) (c : Connection) (sh : Shared)
    → IsRunning w sh c
    → c.next_request_seq + 1 + to_come c < 2 ^ 64
    → IsRunning w sh (queued request c)
queued-IsRunning w request c sh order room =
    let item : QueuedCommand = record { sequence = c.next_request_seq; request = request } in
    let long : length (c.command_queue ++ item ∷ []) ≡ length c.command_queue + 1 =
      length-append c.command_queue (item ∷ []) in
    record {
      one_out =
          order.one_out
          ∙ ap (λ (n : ℕ). n ∷ []) (omega (arith, order.bounded, order.counted, room));
      counted = omega (arith, long, order.counted, order.bounded, room);
      numbered =
          subst (λ (n : ℕ). Numbered n (c.command_queue ++ item ∷ []))
            (omega (arith, long, order.bounded, order.counted, room))
            (Numbered-append (c.next_request_seq - length c.command_queue) c.command_queue item
              order.numbered (omega (arith, order.bounded, order.counted)));
      bounded = omega (arith, order.bounded, room);
      answered =
          λ going. let (a, b) = order.answered going in (omega (arith, a, order.bounded, room), b);
      few = omega (arith, room);
    }

queued-IsReady :
    (w : Elsewhere) (request : RespValue) (c : Connection) (sh : Shared)
    → IsReady w sh c × (c.command_queue ≡ [])
    → c.next_request_seq + 1 + to_come c < 2 ^ 64
    → IsReady w sh (queued request c)
queued-IsReady w request c sh (order, e) room =
    let item : QueuedCommand = record { sequence = c.next_request_seq; request = request } in
    let long : length (c.command_queue ++ item ∷ []) ≡ length c.command_queue + 1 =
      length-append c.command_queue (item ∷ []) in
    record {
      none_out = order.none_out;
      counted = omega (arith, long, order.counted, order.bounded, room);
      numbered =
          subst (λ (n : ℕ). Numbered n (c.command_queue ++ item ∷ []))
            (omega (arith, long, order.bounded, order.counted, room))
            (Numbered-append (c.next_request_seq - length c.command_queue) c.command_queue item
              order.numbered (omega (arith, order.bounded, order.counted)));
      bounded = omega (arith, order.bounded, room);
      answered =
          λ going. let (a, b) = order.answered going in (omega (arith, a, order.bounded, room), b);
      few = omega (arith, room);
    }

module _ (platform : Platform) (outside : ℕ → Outside) where
  -- Of a ready connection, launch_front starts the first request of the queue.
  launch_front-InOrder :
      (w : Elsewhere) (queue : List QueuedCommand) (c : Connection) (sh : Shared)
      → c.command_queue ≡ queue
      → IsReady w sh c
      → Ensures (InOrder w) (launch_front platform outside queue c sh)
  unfolding launch_front
  launch_front-InOrder w [] c sh e ready = (
    record {
      none_out = ready.none_out;
      counted = ready.counted;
      numbered = ready.numbered;
      bounded = ready.bounded;
      answered = ready.answered;
      few = ready.few;
    },
    e,
  )
  launch_front-InOrder w (item ∷ queue) c sh e ready =
      let job : Job = record { connection_id = c.connection_id; item = item } in
      let long : length c.command_queue ≡ suc (length queue) = ap length e in
      let all_numbered =
        subst (Numbered (c.next_request_seq - length c.command_queue)) e ready.numbered in
      let first : item.sequence ≡ c.next_request_seq - length c.command_queue = all_numbered.0 in
      bind-Ensures (Adds job w sh) (InOrder w)
        (submit_or_run platform outside job (try_submit job sh.pool) sh)
        (λ sh'. ok (record c { command_queue = queue; strand_running = true }, sh'))
        (submit_or_run-Adds platform outside job w sh (try_submit job sh.pool)
          (try_submit-jobs job sh.pool))
        (λ sh' adds. record {
          one_out =
              adds.own ready.none_out
              ∙ ap (λ (n : ℕ). n ∷ []) (omega (arith, first, long, ready.counted));
          counted = omega (arith, long, ready.counted);
          numbered =
              subst (λ (n : ℕ). Numbered n queue)
                (omega (arith, long, ready.bounded, ready.counted)) all_numbered.1;
          bounded = ready.bounded;
          answered = ready.answered;
          few = ready.few;
        })

  -- launch_strand of a ready connection.
  pub launch_strand-InOrder :
      (w : Elsewhere) (c : Connection) (sh : Shared)
      → IsReady w sh c
      → Ensures (InOrder w) (launch_strand platform outside c sh)
  unfolding launch_strand
  launch_strand-InOrder w c sh ready = launch_front-InOrder w c.command_queue c sh refl ready

  enqueue_on :
      (b : Bool) (w : Elsewhere) (request : RespValue) (c : Connection) (sh : Shared)
      → c.strand_running ≡ b
      → InPhase (phase_of b) w (c, sh)
      → c.next_request_seq + 1 + to_come c < 2 ^ 64
      → Ensures (InOrder w) (enqueue_command platform outside request c sh)
  unfolding enqueue_command
  enqueue_on true w request c sh e order room =
      subst
        (λ (b : Bool). Ensures (InOrder w) (
          if b
          then ok (queued request c, sh)
          else launch_strand platform outside (queued request c) sh))
        (sym e)
        (subst (λ (b : Bool). InPhase (phase_of b) w (queued request c, sh)) (sym e)
          (queued-IsRunning w request c sh order room))
  enqueue_on false w request c sh e order room =
      subst
        (λ (b : Bool). Ensures (InOrder w) (
          if b
          then ok (queued request c, sh)
          else launch_strand platform outside (queued request c) sh))
        (sym e)
        (launch_strand-InOrder w (queued request c) sh (queued-IsReady w request c sh order room))

  -- x
  pub enqueue_command-InOrder :
      (w : Elsewhere) (request : RespValue) (c : Connection) (sh : Shared)
      → InOrder w (c, sh)
      → c.next_request_seq + 1 + to_come c < 2 ^ 64
      → Ensures (InOrder w) (enqueue_command platform outside request c sh)
  enqueue_command-InOrder w request c sh order room =
      enqueue_on c.strand_running w request c sh refl order room

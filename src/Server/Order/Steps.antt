-- ===== src/Server/Order/Steps.antt =====
-- The steps of a connection's run (Runs), and the order of the replies.
use distributed_data_store.Prelude.{
  ℕ, ◌-◌, ◌≤◌, ◌≡◌, refl, sym, ap, ◌∙◌, subst, Bool, false, inl, inr, List, [], ◌∷◌, ◌++◌,
  append_assoc, length, length-append, ◌==◌, arith, Bool-cases,
}
use distributed_data_store.Store.{Platform}
use distributed_data_store.Persistence.Result.{Result, ok}
use distributed_data_store.Commands.Registry.{Outside}
use distributed_data_store.Util.ThreadPool.{ThreadPool, runs, worker_round}
use distributed_data_store.Util.ThreadPool.System.{round_of-runs}
use distributed_data_store.Server.Connection.{Connection, Completion, Job, Shared, run_job}
use distributed_data_store.Server.Traffic.{read_connection, write_connection, update_interest}
use distributed_data_store.Server.Loop.{complete_on}
use distributed_data_store.Server.Order.{
  Ensures, Elsewhere, of_jobs, of_completions, outstanding, IsReplied, Answered, IsReady, Phase,
  ready, resting, running, InPhase, phase_of, InOrder, Numbered, Consecutive, payloads,
}
use distributed_data_store.Server.Order.Added.{Adds, run_job-Adds, of_jobs-append}
use distributed_data_store.Server.Order.Reading.{read_connection-InOrder, update_interest-InOrder}
use distributed_data_store.Server.Order.Sending.{write_connection-InPhase, write_connection-strand}
use distributed_data_store.Server.Order.Replies.{after, complete_on-InOrder}
use distributed_data_store.Server.Order.Runs.{
  World, Step, reads, writes, updates, takes, finishes, swaps, applies, others, Reach, here,
  then_step, IsNew,
}

ok-Ensures {ℓ κ} :
    {A : Type ℓ} (P : A → Type κ) (r : Result A) (a : A) → r ≡ ok a → Ensures P r → P a
ok-Ensures P r a e h = subst (Ensures P) e h

moved-Answered :
    (w w' : Elsewhere) (c : Connection)
    → w'.log ≡ w.log
    → (c.closing ≡ false → Answered w c)
    → c.closing ≡ false
    → Answered w' c
moved-Answered w w' c logs answered going =
    let (all, (none_left, so_far)) = answered going in
    (
      all,
      (
        none_left,
        subst
            (λ (log : List Completion).
              IsReplied log c.next_response_seq (c.socket.sent ++ c.output))
            (sym logs) so_far,
      ),
    )

moved-IsReady :
    (w w' : Elsewhere) (sh sh' : Shared) (c : Connection)
    → outstanding c.connection_id w' sh' ≡ outstanding c.connection_id w sh
    → w'.log ≡ w.log
    → IsReady w sh c
    → IsReady w' sh' c
moved-IsReady w w' sh sh' c same logs order = record {
  none_out = same ∙ order.none_out;
  counted = order.counted;
  numbered = order.numbered;
  bounded = order.bounded;
  answered = moved-Answered w w' c logs order.answered;
  few = order.few;
}

-- Only where its requests are matters to a connection, and what was replied.
moved :
    (p : Phase) (w w' : Elsewhere) (sh sh' : Shared) (c : Connection)
    → outstanding c.connection_id w' sh' ≡ outstanding c.connection_id w sh
    → w'.log ≡ w.log
    → InPhase p w (c, sh)
    → InPhase p w' (c, sh')
moved ready w w' sh sh' c same logs order = moved-IsReady w w' sh sh' c same logs order
moved resting w w' sh sh' c same logs (order, e) = (moved-IsReady w w' sh sh' c same logs order, e)
moved running w w' sh sh' c same logs order = record {
  one_out = same ∙ order.one_out;
  counted = order.counted;
  numbered = order.numbered;
  bounded = order.bounded;
  answered = moved-Answered w w' c logs order.answered;
  few = order.few;
}

-- At most one request of the connection is on its way.
at_most_one :
    (p : Phase) (w : Elsewhere) (sh : Shared) (c : Connection)
    → InPhase p w (c, sh)
    → length (outstanding c.connection_id w sh) ≤ 1
at_most_one ready w sh c order = rw order.none_out (omega arith)
at_most_one resting w sh c (order, e) = rw order.none_out (omega arith)
at_most_one running w sh c order = rw order.one_out (omega arith)

no_length {ℓ} : {A : Type ℓ} (xs : List A) → length xs ≡ 0 → xs ≡ []
no_length [] h = refl
no_length (x ∷ xs) h = absurd (omega (arith, h))

-- An element that is alone can move past what is around it.
alone :
    (xs ys us vs ts : List ℕ) (n : ℕ)
    → length (xs ++ (ys ++ ((us ++ n ∷ vs) ++ ts))) ≤ 1
    → (xs ++ (ys ++ ((us ++ n ∷ vs) ++ ts)) ≡ n ∷ []) × (xs ++ (ys ++ ((us ++ vs) ++ ts)) ≡ [])
alone xs ys us vs ts n h =
    let a = length-append xs (ys ++ ((us ++ n ∷ vs) ++ ts)) in
    let b = length-append ys ((us ++ n ∷ vs) ++ ts) in
    let c = length-append (us ++ n ∷ vs) ts in
    let d = length-append us (n ∷ vs) in
    let e = no_length xs (omega (arith, a, b, c, d, h)) in
    let f = no_length ys (omega (arith, a, b, c, d, h)) in
    let g = no_length us (omega (arith, a, b, c, d, h)) in
    let i = no_length vs (omega (arith, a, b, c, d, h)) in
    let j = no_length ts (omega (arith, a, b, c, d, h)) in
    (rw (e, f, g, i, j) refl, rw (e, f, g, i, j) refl)

-- A job that a worker finishes leaves the requests on their way as they were.
finished :
    (c : Connection) (sh sh' : Shared) (job : Job) (xs ys : List Job) (local log : List Completion)
    → length (
        outstanding c.connection_id
          (record { active = xs ++ job ∷ ys; local = local; log = log })
          sh)
      ≤ 1
    → Adds job (record { active = xs ++ ys; local = local; log = log }) sh sh'
    → outstanding c.connection_id (record { active = xs ++ ys; local = local; log = log }) sh'
      ≡ outstanding c.connection_id
          (record { active = xs ++ job ∷ ys; local = local; log = log })
          sh
unfolding outstanding
finished c sh sh' job xs ys local log one adds =
    let id = c.connection_id in
    let w : Elsewhere = record { active = xs ++ ys; local = local; log = log } in
    let number = job.item.sequence in
    let before_job = of_jobs-append id xs (job ∷ ys) in
    elim (Bool-cases (job.connection_id == id)) [
      | inl own ↦
          let same : job.connection_id ≡ id = ground (arith, own) in
          let gained =
            subst (λ (i : ℕ). outstanding i w sh ≡ [] → outstanding i w sh' ≡ number ∷ []) same
              adds.own in
          let (full, left) =
            alone (of_completions id local) (of_completions id sh.completions) (of_jobs id xs)
              (of_jobs id ys) (of_jobs id sh.pool.jobs) number (rw (before_job, own) at one) in
          gained (rw (of_jobs-append id xs ys) left) ∙ sym (rw (before_job, own) full)
      | inr other ↦ adds.others id other ∙ rw (before_job, other, of_jobs-append id xs ys)
    ]

taken_job :
    (c : Connection) (sh : Shared) (w : Elsewhere) (job : Job) (pool : ThreadPool Job)
    → worker_round sh.pool ≡ runs job pool
    → outstanding c.connection_id
        (record w { active = w.active ++ job ∷ [] })
        (record sh { pool = pool })
      ≡ outstanding c.connection_id w sh
unfolding outstanding worker_round
taken_job c sh w job pool h =
    let id = c.connection_id in
    let (front, same) = round_of-runs sh.pool.jobs sh.pool pool job h in
    let moved_job : of_jobs id (w.active ++ job ∷ []) ++ of_jobs id pool.jobs
        ≡ of_jobs id w.active ++ of_jobs id sh.pool.jobs =
      sym (of_jobs-append id (w.active ++ job ∷ []) pool.jobs)
      ∙ ap (of_jobs id) (append_assoc w.active (job ∷ []) pool.jobs)
      ∙ of_jobs-append id w.active (job ∷ pool.jobs)
      ∙ ap (λ (jobs : List Job). of_jobs id w.active ++ of_jobs id jobs) (sym front) in
    ap (λ (x : List ℕ). of_completions id w.local ++ (of_completions id sh.completions ++ x))
      moved_job

module _ (platform : Platform) (outside : ℕ → Outside) where
  pub Step-InOrder :
      {v u : World}
      → Step platform outside v u
      → InOrder v.places (v.connection, v.shared)
      → InOrder u.places (u.connection, u.shared)
  unfolding outstanding
  Step-InOrder (reads {c} {d} {sh} {sh'} {w} h) order =
      ok-Ensures (InOrder w) (read_connection platform outside c sh) (d, sh') h
        (read_connection-InOrder platform outside w c sh order)
  Step-InOrder (writes {c} {d} {sh} {sh'} {w} h) order =
      let strand =
        ok-Ensures (λ (r : Connection × Shared). r.0.strand_running ≡ c.strand_running)
          (write_connection c sh) (d, sh') h (write_connection-strand c sh) in
      subst (λ (b : Bool). InPhase (phase_of b) w (d, sh')) (sym strand)
        (ok-Ensures (InPhase (phase_of c.strand_running) w) (write_connection c sh) (d, sh') h
          (write_connection-InPhase (phase_of c.strand_running) w c sh order))
  Step-InOrder (updates {c} {d} {sh} {sh'} {w} h) order =
      ok-Ensures (InOrder w) (update_interest platform outside c sh) (d, sh') h
        (update_interest-InOrder platform outside w c sh order)
  Step-InOrder (takes {c} {sh} {w} job {pool} h) order =
      moved (phase_of c.strand_running) w (record w { active = w.active ++ job ∷ [] }) sh
        (record sh { pool = pool }) c (taken_job c sh w job pool h) refl order
  Step-InOrder (finishes {c} {sh} {sh'} job xs ys {local} {log} h) order =
      let w : Elsewhere = record { active = xs ++ job ∷ ys; local = local; log = log } in
      let w' : Elsewhere = record { active = xs ++ ys; local = local; log = log } in
      moved (phase_of c.strand_running) w w' sh sh' c
        (finished c sh sh' job xs ys local log
          (at_most_one (phase_of c.strand_running) w sh c order)
          (ok-Ensures (Adds job w' sh) (run_job platform outside job sh) sh' h
            (run_job-Adds platform outside job w' sh)))
        refl order
  Step-InOrder (swaps {c} {sh} {active} {log}) order =
      moved (phase_of c.strand_running) (record { active = active; local = []; log = log })
        (record { active = active; local = sh.completions; log = log }) sh
        (record sh { completions = [] }) c refl refl order
  Step-InOrder (applies {c} {d} {sh} {sh'} {active} {completion} {rest} {log} own h) order =
      ok-Ensures (InOrder (after active completion rest log))
        (complete_on platform outside completion c sh) (d, sh') h
        (complete_on-InOrder platform outside active completion rest log c sh own order)
  Step-InOrder (others {c} {sh} {sh'} {w} {w'} same logs) order =
      moved (phase_of c.strand_running) w w' sh sh' c same logs order

  pub Reach-InOrder :
      {v u : World}
      → InOrder v.places (v.connection, v.shared)
      → Reach platform outside v u
      → InOrder u.places (u.connection, u.shared)
  Reach-InOrder order here = order
  Reach-InOrder order (then_step r s) = Step-InOrder s (Reach-InOrder order r)

-- A new connection is in order.
new-InOrder : (v : World) → IsNew v → InOrder v.places (v.connection, v.shared)
new-InOrder v new =
    let c = v.connection in
    let long = ap length new.none_queued in
    let quiet : IsReady v.places v.shared c = record {
      none_out = new.none_out;
      counted = omega (arith, long, new.none_in_flight);
      numbered =
          subst (Numbered (c.next_request_seq - length c.command_queue)) (sym new.none_queued) tt;
      bounded = omega (arith, new.none_in_flight);
      answered = λ going. (
        omega (arith, new.no_request, new.no_response, new.none_in_flight),
        (
          new.none_pending,
          record {
            numbered = subst (Consecutive 0) (sym new.no_log) tt;
            counted = omega (arith, new.no_response, ap length new.no_log);
            transcript = new.no_output ∙ ap payloads (sym new.no_log);
          },
        ),
      );
      few = omega (arith, new.no_request, new.few);
    } in
    subst (λ (b : Bool). InPhase (phase_of b) v.places (c, v.shared)) (sym new.rests)
      (quiet, new.none_queued)

log_of :
    (p : Phase) (w : Elsewhere) (sh : Shared) (c : Connection)
    → InPhase p w (c, sh)
    → c.closing ≡ false
    → IsReplied w.log c.next_response_seq (c.socket.sent ++ c.output)
log_of ready w sh c order going = (order.answered going).1.1
log_of resting w sh c (order, e) going = (order.answered going).1.1
log_of running w sh c order going = (order.answered going).1.1

module _ (platform : Platform) (outside : ℕ → Outside) where
  -- Pipelined replies keep their order: in every run of a connection from its start, with any
  -- interleaving of reads, writes, workers, completions and steps of other connections that leave
  -- its requests alone, while fewer than 2^64 bytes are to come and as long as the connection is
  -- not given up, the completions that were applied are numbered 0, 1, 2, ..., next_response_seq
  -- is their number, and the bytes sent and those that wait in the output are their payloads in
  -- this order.
  pub Reach-IsReplied :
      {v u : World}
      → IsNew v
      → Reach platform outside v u
      → u.connection.closing ≡ false
      → IsReplied u.places.log u.connection.next_response_seq
          (u.connection.socket.sent ++ u.connection.output)
  Reach-IsReplied {v} {u} new r going =
      log_of (phase_of u.connection.strand_running) u.places u.shared u.connection
        (Reach-InOrder platform outside (new-InOrder v new) r) going

  -- The strand of a connection: in every run of a connection from its start, with the steps of
  -- `Step` and fewer than 2^64 bytes to come, at most one of its requests is in the queue of the
  -- pool, on a worker or among the completions.
  pub Reach-outstanding :
      {v u : World}
      → IsNew v
      → Reach platform outside v u
      → length (outstanding u.connection.connection_id u.places u.shared) ≤ 1
  Reach-outstanding {v} {u} new r =
      at_most_one (phase_of u.connection.strand_running) u.places u.shared u.connection
        (Reach-InOrder platform outside (new-InOrder v new) r)

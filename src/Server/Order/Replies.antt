-- ===== src/Server/Order/Replies.antt =====
-- The part of apply_completion in src/server/server.cpp that takes a reply, what it does with the
-- connection afterwards, and the order of the replies.
use distributed_data_store.Prelude.{
  ℕ, suc, ◌+◌, ◌-◌, ◌%◌, ◌^◌, ◌≡◌, refl, sym, ap, ◌∙◌, subst, Bool, true, false, List, [], ◌∷◌,
  ◌++◌, append_assoc, append-nil, Bytes, length, length-append, ◌==◌, arith, Bool-cases, inl, inr,
  ℤ,
}
use distributed_data_store.Store.{Platform}
use distributed_data_store.Commands.Registry.{Outside}
use distributed_data_store.Server.Stats.{on_command}
use distributed_data_store.Server.Connection.{Connection, Completion, Job, Shared}
use distributed_data_store.Server.Traffic.{write_connection}
use distributed_data_store.Server.Loop.{
  find_response, erase_response, add_response, overflow, take_response, continue_strand,
  complete_on,
}
use distributed_data_store.Server.Order.{
  Ensures, bind-Ensures, Elsewhere, outstanding, payloads, Consecutive, IsReplied, IsReady,
  IsRunning, InPhase, InOrder, phase_of, ready, running,
}
use distributed_data_store.Server.Order.Kept.{changed, never}
use distributed_data_store.Server.Order.Added.{==_refl}
use distributed_data_store.Server.Order.Launch.{launch_strand-InOrder}
use distributed_data_store.Server.Order.Flush.{flush_responses-Flushed, flush_responses-next}
use distributed_data_store.Server.Order.Sending.{write_connection-InPhase}

-- Where things are before and after drain_completions applies the first completion it has.
abbrev pub before : List Job → Completion → List Completion → List Completion → Elsewhere
before active completion rest log = record { active = active; local = completion ∷ rest; log = log }

abbrev pub after : List Job → Completion → List Completion → List Completion → Elsewhere
after active completion rest log = record {
  active = active;
  local = rest;
  log = log ++ completion ∷ [];
}

-- What is left of a list whose first is taken.
head_of : (x n : ℕ) (xs : List ℕ) → x ∷ xs ≡ n ∷ [] → (x ≡ n) × (xs ≡ [])
head_of x n xs h = (cc, cc)

taken_out :
    (id n : ℕ) (active : List Job) (completion : Completion) (rest log : List Completion)
    (sh : Shared)
    → (completion.connection_id == id) ≡ true
    → outstanding id (before active completion rest log) sh ≡ n ∷ []
    → (completion.sequence ≡ n) × (outstanding id (after active completion rest log) sh ≡ [])
unfolding outstanding
taken_out id n active completion rest log sh own h = head_of completion.sequence n _ (rw own at h)

payloads-append :
    (log : List Completion) (c : Completion) → payloads (log ++ c ∷ []) ≡ payloads log ++ c.payload
payloads-append [] c = append-nil c.payload
payloads-append (d ∷ log) c =
    ap (λ (x : Bytes). d.payload ++ x) (payloads-append log c)
    ∙ sym (append_assoc d.payload (payloads log) c.payload)

Consecutive-append :
    (n : ℕ) (log : List Completion) (c : Completion)
    → Consecutive n log
    → c.sequence ≡ n + length log
    → Consecutive n (log ++ c ∷ [])
Consecutive-append n [] c all h = (omega (arith, h), tt)
Consecutive-append n (d ∷ log) c all h =
    (all.0, Consecutive-append (n + 1) log c all.1 (omega (arith, h)))

-- One more reply.
IsReplied-append :
    (log : List Completion) (n : ℕ) (bytes : Bytes) (completion : Completion)
    → completion.sequence ≡ n
    → IsReplied log n bytes
    → IsReplied (log ++ completion ∷ []) (n + 1) (bytes ++ completion.payload)
IsReplied-append log n bytes completion next so_far = record {
  numbered =
      Consecutive-append 0 log completion so_far.numbered (omega (arith, next, so_far.counted));
  counted = omega (arith, length-append log (completion ∷ []), so_far.counted);
  transcript =
      ap (λ (x : Bytes). x ++ completion.payload) so_far.transcript
      ∙ sym (payloads-append log completion);
}

-- A reply that was taken, whatever became of the output.
taken-IsReady :
    (active : List Job) (completion : Completion) (rest log : List Completion) (sh : Shared)
    (c : Connection) (output : Bytes) (pending : List (ℕ × Bytes)) (next : ℕ)
    (closing read_closed : Bool) (time : ℤ)
    → (completion.connection_id == c.connection_id) ≡ true
    → IsRunning (before active completion rest log) sh c
    → (closing ≡ false
        → (c.inflight - 1 + next ≡ c.next_request_seq)
          × ((pending ≡ []) × IsReplied (log ++ completion ∷ []) next (c.socket.sent ++ output)))
    → IsReady (after active completion rest log) sh (record c {
      output = output;
      pending_responses = pending;
      next_response_seq = next;
      closing = closing;
      read_closed = read_closed;
      inflight = c.inflight - 1;
      last_activity = time;
    })
taken-IsReady active completion rest log sh c output pending next closing read_closed time own order
      answered =
    record {
      none_out =
          (taken_out c.connection_id (c.next_request_seq - c.inflight) active completion rest log sh
            own order.one_out).1;
      counted = omega (arith, order.counted);
      numbered = order.numbered;
      bounded = omega (arith, order.bounded);
      answered = answered;
      few = order.few;
    }

module _ (active : List Job) (completion : Completion) (rest log : List Completion)
    (sh : Shared) where
  -- The connection that the loop starts with.
  abbrev with_pending : Connection → Connection
  with_pending c = record c {
    pending_responses = add_response completion.sequence completion.payload c.pending_responses;
    inflight = c.inflight - 1;
  }

  given_up-IsReady :
      (c : Connection)
      → (completion.connection_id == c.connection_id) ≡ true
      → c.closing ≡ true
      → IsRunning (before active completion rest log) sh c
      → IsReady (after active completion rest log) sh (take_response completion sh c)
  unfolding take_response
  given_up-IsReady c own closed order =
      let c0 = with_pending c in
      let f =
        flush_responses-Flushed (suc (length c0.pending_responses))
          sh.config.max_output_buffer_bytes c0 in
      subst
        (λ (d : Connection).
          IsReady (after active completion rest log) sh (record d { last_activity = sh.now }))
        (sym f.same)
        (taken-IsReady active completion rest log sh c f.output f.pending f.next f.closing
          f.read_closed sh.now own order (λ going. never (sym (f.still closed) ∙ going)))

  next-IsReady :
      (c : Connection)
      → (completion.connection_id == c.connection_id) ≡ true
      → c.closing ≡ false
      → IsRunning (before active completion rest log) sh c
      → IsReady (after active completion rest log) sh (take_response completion sh c)
  unfolding take_response add_response find_response erase_response overflow
  next-IsReady c own going order =
      let c0 = with_pending c in
      let (all, (none_left, so_far)) = order.answered going in
      let first =
        (taken_out c.connection_id (c.next_request_seq - c.inflight) active completion rest log sh
          own order.one_out).0 in
      let is_next : completion.sequence ≡ c.next_response_seq = omega (arith, first, all) in
      let one : c0.pending_responses ≡ (c.next_response_seq, completion.payload) ∷ [] =
        rw (none_left, is_next) refl in
      let few = order.few in
      let counted = order.counted in
      let number : (c.next_response_seq + 1) % 2 ^ 64 ≡ c.next_response_seq + 1 =
        omega (arith, all, few) in
      let replies =
        IsReplied-append log c.next_response_seq (c.socket.sent ++ c.output) completion is_next
          so_far in
      elim (flush_responses-next (length c0.pending_responses) sh.config.max_output_buffer_bytes
        completion.payload c0 one) [
          | inl large ↦
              subst
                (λ (d : Connection).
                  IsReady (after active completion rest log) sh
                    (record d { last_activity = sh.now }))
                (sym large)
                (taken-IsReady active completion rest log sh c c.output [] c.next_response_seq true
                  true sh.now own order never)
          | inr small ↦
              subst
                (λ (d : Connection).
                  IsReady (after active completion rest log) sh
                    (record d { last_activity = sh.now }))
                (sym small)
                (taken-IsReady active completion rest log sh c (c.output ++ completion.payload)
                  (erase_response c.next_response_seq c0.pending_responses)
                  ((c.next_response_seq + 1) % 2 ^ 64) c.closing c.read_closed sh.now own order
                  (λ going'. (
                    omega (arith, all, number, counted),
                    (
                      rw (one, ==_refl c.next_response_seq) refl,
                      subst
                          (λ (n : ℕ).
                            IsReplied (log ++ completion ∷ []) n
                              (c.socket.sent ++ (c.output ++ completion.payload)))
                          (sym number)
                          (subst (IsReplied (log ++ completion ∷ []) (c.next_response_seq + 1))
                            (append_assoc c.socket.sent c.output completion.payload) replies),
                    ),
                  )))
        ]

  take_response-IsReady :
      (c : Connection)
      → (completion.connection_id == c.connection_id) ≡ true
      → IsRunning (before active completion rest log) sh c
      → IsReady (after active completion rest log) sh (take_response completion sh c)
  take_response-IsReady c own order = elim (Bool-cases c.closing) [
    | inl closed ↦ given_up-IsReady c own closed order
    | inr going ↦ next-IsReady c own going order
  ]

-- A connection with a completion on its way has a strand that runs.
is_running :
    (b : Bool) (active : List Job) (completion : Completion) (rest log : List Completion)
    (c : Connection) (sh : Shared)
    → (completion.connection_id == c.connection_id) ≡ true
    → InPhase (phase_of b) (before active completion rest log) (c, sh)
    → IsRunning (before active completion rest log) sh c
unfolding outstanding
is_running true active completion rest log c sh own order = order
is_running false active completion rest log c sh own (order, e) = never (
    ap (λ (xs : List ℕ). elim xs as (λ x. Bool) [ [] ↦ false | n ∷ ns ↦ true ])
      (rw own at order.none_out))

module _ (platform : Platform) (outside : ℕ → Outside) where
  -- Whenever drain_completions applies a reply to its connection, the connection stays in order.
  pub complete_on-InOrder :
      (active : List Job) (completion : Completion) (rest log : List Completion) (c : Connection)
      (sh : Shared)
      → (completion.connection_id == c.connection_id) ≡ true
      → InOrder (before active completion rest log) (c, sh)
      → Ensures
          (InOrder (after active completion rest log))
          (complete_on platform outside completion c sh)
  unfolding complete_on continue_strand
  complete_on-InOrder active completion rest log c sh own order =
      let counted : Shared = record sh { stats = on_command completion.is_error sh.stats } in
      let runs = is_running c.strand_running active completion rest log c sh own order in
      let runs' =
        changed running (before active completion rest log) sh c counted.stats c.parser c.socket
          c.output c.interest c.closing c.read_closed c.last_activity (λ h. (h, refl)) (omega arith)
          runs in
      bind-Ensures (InPhase ready (after active completion rest log))
        (InOrder (after active completion rest log))
        (write_connection (take_response completion counted c) counted)
        (continue_strand platform outside)
        (write_connection-InPhase ready (after active completion rest log)
          (take_response completion counted c) counted
          (take_response-IsReady active completion rest log counted c own runs'))
        (λ (d, sh') kept.
          launch_strand-InOrder platform outside (after active completion rest log) d sh' kept)

-- ===== src/Util/ThreadPool/System.antt =====
-- The pool with its threads, as a step relation: clients that submit, workers that take, run and
-- return, and one caller of shutdown.
use distributed_data_store.Prelude.{
  ℕ, zero, suc, ◌+◌, ◌-◌, ◌*◌, ◌≤◌, ◌<◌, ◌≡◌, refl, sym, ap, ◌∙◌, true, false, ◌||◌, some, List, [],
  ◌∷◌, ◌++◌, append_assoc, append-nil, length, length-append, leb, arith, Bool-cases, ◌⊎◌, inl, inr,
}
use distributed_data_store.Util.ThreadPool.{
  ThreadPool, create, try_submit, returns, runs, round_of, worker_round, begin_shutdown,
}

-- The jobs that were accepted, taken and completed so far, in the order in which that happened; the
-- workers that wait for a job, that run one, and that have returned.
pub record System (J : Type 0) : Type 0 where
  pub pool : ThreadPool J
  pub accepted : List J
  pub taken : List J
  pub idle : ℕ
  pub busy : ℕ
  pub gone : ℕ

not_true : false ≡ true → ⊥
not_true h = cc

module _ {J : Type 0} where
  pub data Step (s t : System J) : Type 0 where
    submit :
        (job : J)
        → (try_submit job s.pool).0 ≡ true
        → t ≡ record s { pool = (try_submit job s.pool).1; accepted = s.accepted ++ job ∷ [] }
        → Step s t
    take :
        (job : J) (p : ThreadPool J)
        → 0 < s.idle
        → worker_round s.pool ≡ runs job p
        → t
          ≡ record s { pool = p; taken = s.taken ++ job ∷ []; idle = s.idle - 1; busy = s.busy + 1 }
        → Step s t
    complete : 0 < s.busy → t ≡ record s { idle = s.idle + 1; busy = s.busy - 1 } → Step s t
    leave :
        0 < s.idle
        → worker_round s.pool ≡ returns
        → t ≡ record s { idle = s.idle - 1; gone = s.gone + 1 }
        → Step s t
    stop : t ≡ record s { pool = begin_shutdown s.pool } → Step s t

  pub data Reach (s : System J) : System J → Type 0 where
    here : Reach s s
    next : {t u : System J} → Reach s t → Step t u → Reach s u

  -- The threads of a new pool wait.
  abbrev pub start : ThreadPool J → System J
  start p = record { pool = p; accepted = []; taken = []; idle = p.workers; busy = 0; gone = 0 }

  pub record IsSound (s : System J) : Type 0 where
    pub bounded : length s.pool.jobs ≤ s.pool.max_queue_size
    pub in_order : s.accepted ≡ s.taken ++ s.pool.jobs
    pub threads : s.idle + s.busy + s.gone ≡ s.pool.workers
    pub left_empty : 0 < s.gone → (s.pool.stopping ≡ true) × (s.pool.jobs ≡ [])

  submit-IsSound :
      (job : J) (s : System J)
      → (try_submit job s.pool).0 ≡ true
      → IsSound s
      → IsSound (record s { pool = (try_submit job s.pool).1; accepted = s.accepted ++ job ∷ [] })
  unfolding try_submit
  submit-IsSound job s h i =
      elim (Bool-cases (s.pool.stopping || leb s.pool.max_queue_size (length s.pool.jobs))) [
        | inl refused ↦ absurd (not_true (rw refused at h))
        | inr room ↦ rw room (record {
          bounded = ground (arith, i.bounded, length-append s.pool.jobs (job ∷ []));
          in_order = rw (i.in_order, append_assoc);
          threads = i.threads;
          left_empty = λ gone. absurd (not_true (sym (rw (i.left_empty gone).0 at room)));
        })
      ]

  pub round_of-runs :
      (jobs : List J) (p q : ThreadPool J) (job : J)
      → round_of jobs p ≡ runs job q
      → (jobs ≡ job ∷ q.jobs) × (q ≡ record p { jobs = q.jobs })
  unfolding round_of
  round_of-runs [] p q job h = ground arith
  round_of-runs (j ∷ jobs) p q job h = ground arith

  round_of-returns :
      (jobs : List J) (p : ThreadPool J)
      → round_of jobs p ≡ returns
      → (p.stopping ≡ true) × (jobs ≡ [])
  unfolding round_of
  round_of-returns [] p h = ground arith
  round_of-returns (j ∷ jobs) p h = cc

  take-IsSound :
      (job : J) (p : ThreadPool J) (s : System J)
      → 0 < s.idle
      → worker_round s.pool ≡ runs job p
      → IsSound s
      → IsSound
          (record s { pool = p; taken = s.taken ++ job ∷ []; idle = s.idle - 1; busy = s.busy + 1 })
  unfolding worker_round
  take-IsSound job p s waiting h i =
      let (front, same) = round_of-runs s.pool.jobs s.pool p job h in
      let limit = ap (λ (q : ThreadPool J). q.max_queue_size) same in
      let count = ap (λ (q : ThreadPool J). q.workers) same in
      record {
        bounded = omega (arith, ap length front, limit, i.bounded);
        in_order = i.in_order ∙ rw (front, append_assoc);
        threads = omega (arith, count, i.threads);
        left_empty = λ gone. let empty = (i.left_empty gone).1 in cc;
      }

  leave-IsSound :
      (s : System J)
      → 0 < s.idle
      → worker_round s.pool ≡ returns
      → IsSound s
      → IsSound (record s { idle = s.idle - 1; gone = s.gone + 1 })
  unfolding worker_round
  leave-IsSound s waiting h i = record {
    bounded = i.bounded;
    in_order = i.in_order;
    threads = omega (arith, i.threads);
    left_empty = λ gone. round_of-returns s.pool.jobs s.pool h;
  }

  -- Every step of the pool keeps it sound: the queue is within its limit, the jobs taken and those
  -- in the queue are the accepted ones in their order, every thread waits, works or has returned,
  -- and one has returned only if the pool is stopped and its queue empty.
  pub Step-IsSound : {s t : System J} → Step s t → IsSound s → IsSound t
  Step-IsSound {s} (submit job h e) i = rw e (submit-IsSound job s h i)
  Step-IsSound {s} (take job p waiting h e) i = rw e (take-IsSound job p s waiting h i)
  Step-IsSound {s} (complete busy e) i = rw e (record {
    bounded = i.bounded;
    in_order = i.in_order;
    threads = omega (arith, i.threads);
    left_empty = i.left_empty;
  })
  Step-IsSound {s} (leave waiting h e) i = rw e (leave-IsSound s waiting h i)
  Step-IsSound {s} (stop e) i = rw e (
      unfold begin_shutdown in
      record {
        bounded = i.bounded;
        in_order = i.in_order;
        threads = i.threads;
        left_empty = λ gone. (refl, (i.left_empty gone).1);
      })

  Reach-IsSound : {s t : System J} → IsSound s → Reach s t → IsSound t
  Reach-IsSound i here = i
  Reach-IsSound i (next r st) = Step-IsSound st (Reach-IsSound i r)

  start-IsSound :
      (n m : ℕ) {p : ThreadPool J} → create n m ≡ some p → IsSound (start p) × (0 < p.workers)
  unfolding create
  start-IsSound zero m h = cc
  start-IsSound (suc n) zero h = cc
  start-IsSound (suc n) (suc m) {p} h =
      let made : p
          ≡ record { max_queue_size = suc m; jobs = []; workers = suc n; stopping = false } =
        ground arith in
      rw made (
        record {
          bounded = omega arith;
          in_order = refl;
          threads = omega arith;
          left_empty = λ gone. absurd (omega arith);
        },
        omega arith,
      )

  submit-workers : (job : J) (p : ThreadPool J) → (try_submit job p).1.workers ≡ p.workers
  unfolding try_submit
  submit-workers job p = ground arith

  Step-workers : {s t : System J} → Step s t → t.pool.workers ≡ s.pool.workers
  unfolding worker_round begin_shutdown
  Step-workers {s} (submit job h e) =
      ap (λ (u : System J). u.pool.workers) e ∙ submit-workers job s.pool
  Step-workers {s} (take job p waiting h e) =
      ap (λ (u : System J). u.pool.workers) e
      ∙ ap (λ (q : ThreadPool J). q.workers) (round_of-runs s.pool.jobs s.pool p job h).1
  Step-workers (complete busy e) = ap (λ (u : System J). u.pool.workers) e
  Step-workers (leave waiting h e) = ap (λ (u : System J). u.pool.workers) e
  Step-workers (stop e) = ap (λ (u : System J). u.pool.workers) e

  Reach-workers : {s t : System J} → Reach s t → t.pool.workers ≡ s.pool.workers
  Reach-workers here = refl
  Reach-workers (next r st) = Step-workers st ∙ Reach-workers r

  -- What shutdown may join: every thread of the pool has returned.
  abbrev pub AllGone : System J → Type 0
  AllGone s = s.gone ≡ s.pool.workers

  -- In every state that a pool of one thread or more and a queue of one job or more reaches, if
  -- all its threads have returned, then the jobs that were taken are those that were accepted, in
  -- their order, no thread is busy and the queue is empty.
  pub AllGone-taken :
      (n m : ℕ) {p : ThreadPool J} {s : System J}
      → create n m ≡ some p
      → Reach (start p) s
      → AllGone s
      → (s.taken ≡ s.accepted) × (s.busy ≡ 0) × (s.pool.jobs ≡ [])
  AllGone-taken n m {p} {s} made r gone =
      let (sound, some_workers) = start-IsSound n m made in
      let i = Reach-IsSound sound r in
      let empty = (i.left_empty (omega (arith, Reach-workers r))).1 in
      (sym (i.in_order ∙ rw empty (append-nil s.taken)), omega (arith, i.threads), empty)

  -- What is left to do once the pool is stopping.
  abbrev left_to_do : System J → ℕ
  left_to_do s = 3 * length s.pool.jobs + 2 * s.busy + s.idle

  record Progress (s : System J) : Type 0 where
    to : System J
    step : Step s to
    less : left_to_do to < left_to_do s
    stays : to.pool.stopping ≡ true
    same : to.accepted ≡ s.accepted

  list_cases : (xs : List J) → (xs ≡ []) ⊎ ((x : J) × (rest : List J) × (xs ≡ x ∷ rest))
  list_cases [] = inl refl
  list_cases (x ∷ rest) = inr (x, rest, refl)

  -- A thread that waits goes on: it takes the front job, or leaves.
  idle_advance : (s : System J) → s.pool.stopping ≡ true → 0 < s.idle → Progress s
  unfolding worker_round round_of
  idle_advance s stopping waiting = elim (list_cases s.pool.jobs) [
    | inl empty ↦ record {
      to = record s { idle = s.idle - 1; gone = s.gone + 1 };
      step = leave waiting (rw (empty, stopping)) refl;
      less = omega arith;
      stays = stopping;
      same = refl;
    }
    | inr (job, jobs, front) ↦ record {
      to = record s {
        pool = record s.pool { jobs = jobs };
        taken = s.taken ++ job ∷ [];
        idle = s.idle - 1;
        busy = s.busy + 1;
      };
      step =
          take job (record s.pool { jobs = jobs }) waiting
            (ap (λ (js : List J). round_of js s.pool) front) refl;
      less = omega (arith, ap length front);
      stays = stopping;
      same = refl;
    }
  ]

  -- A stopping pool is not stuck while a thread is there.
  progress : (s : System J) → s.pool.stopping ≡ true → 0 < s.idle + s.busy → Progress s
  progress s stopping some_left = elim (Bool-cases (leb s.busy 0)) [
    | inl none_busy ↦ idle_advance s stopping (ground arith)
    | inr one_busy ↦ record {
      to = record s { idle = s.idle + 1; busy = s.busy - 1 };
      step = complete (ground arith) refl;
      less = ground arith;
      stays = stopping;
      same = refl;
    }
  ]

  Step-Reach : {s t u : System J} → Step s t → Reach t u → Reach s u
  Step-Reach st here = next here st
  Step-Reach st (next r st') = next (Step-Reach st r) st'

  Reach-trans : {s t u : System J} → Reach s t → Reach t u → Reach s u
  Reach-trans r here = r
  Reach-trans r (next r' st) = next (Reach-trans r r') st

  shutdown_run :
      (fuel : ℕ) (s : System J)
      → left_to_do s < fuel
      → s.pool.stopping ≡ true
      → (t : System J) × Reach s t × (t.idle + t.busy ≡ 0) × (t.accepted ≡ s.accepted)
  shutdown_run zero s enough stopping = absurd (omega arith)
  shutdown_run (suc fuel) s enough stopping = elim (Bool-cases (leb (s.idle + s.busy) 0)) [
    | inl over ↦ (s, here, ground arith, refl)
    | inr left ↦
        let p = progress s stopping (ground arith) in
        let (t, r, over, same) = shutdown_run fuel p.to (omega (arith, p.less)) p.stays in
        (t, Step-Reach p.step r, over, same ∙ p.same)
  ]

  -- A shutdown can finish: from every state that such a pool reaches, after begin_shutdown a state
  -- is reached in which all threads have returned and exactly the jobs that had been accepted were
  -- taken.
  pub begin_shutdown-AllGone :
      (n m : ℕ) {p : ThreadPool J} {s : System J}
      → create n m ≡ some p
      → Reach (start p) s
      → (t : System J) × Reach (record s { pool = begin_shutdown s.pool }) t
        × AllGone t
        × (t.taken ≡ s.accepted)
  begin_shutdown-AllGone n m {p} {s} made r =
      let stopped : System J = record s { pool = begin_shutdown s.pool } in
      let (t, r', over, same) =
        shutdown_run (suc (left_to_do stopped)) stopped (omega arith)
          (unfold begin_shutdown in refl) in
      let (sound, some_workers) = start-IsSound n m made in
      let reached = Reach-trans (next r (stop refl)) r' in
      let i = Reach-IsSound sound reached in
      let all_gone : AllGone t = omega (arith, i.threads) in
      (t, r', all_gone, (AllGone-taken n m made reached all_gone).0 ∙ same)

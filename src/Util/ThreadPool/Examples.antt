-- ===== src/Util/ThreadPool/Examples.antt =====
-- The theorems about the pool: two threads, one job, and a shutdown.
use distributed_data_store.Prelude.{ℕ, ◌≡◌, refl, true, false, some, [], ◌∷◌, arith}
use distributed_data_store.Util.ThreadPool.{
  ThreadPool, create, try_submit, round_of, worker_round, begin_shutdown,
}
use distributed_data_store.Util.ThreadPool.System.{
  System, submit, take, complete, leave, stop, Reach, here, next, start, IsSound, Step-IsSound,
  AllGone, AllGone-taken, begin_shutdown-AllGone,
}

abbrev pool : ThreadPool ℕ
pool = record { max_queue_size = 1; jobs = []; workers = 1; stopping = false }

created : create 1 1 ≡ some pool
unfolding create
created = refl

abbrev submitted : System ℕ
submitted = record {
  pool = record { max_queue_size = 1; jobs = 7 ∷ []; workers = 1; stopping = false };
  accepted = 7 ∷ [];
  taken = [];
  idle = 1;
  busy = 0;
  gone = 0;
}

submitted-Reach : Reach (start pool) submitted
unfolding try_submit
submitted-Reach = next here (submit 7 refl refl)

submitted-IsSound : IsSound submitted
submitted-IsSound = record {
  bounded = omega arith;
  in_order = refl;
  threads = refl;
  left_empty = λ gone. absurd (omega arith);
}

-- The pool is stopped, the job is run, and the thread leaves.
abbrev finished : System ℕ
finished = record {
  pool = record { max_queue_size = 1; jobs = []; workers = 1; stopping = true };
  accepted = 7 ∷ [];
  taken = 7 ∷ [];
  idle = 0;
  busy = 0;
  gone = 1;
}

finished-Reach : Reach (start pool) finished
unfolding begin_shutdown worker_round round_of
finished-Reach =
    next
      (next
        (next (next submitted-Reach (stop refl)) (
          take 7 (record { max_queue_size = 1; jobs = []; workers = 1; stopping = true })
            (omega arith) refl refl))
        (complete (omega arith) refl))
      (leave (omega arith) refl refl)

Step-IsSound_example : IsSound (record submitted { pool = begin_shutdown submitted.pool })
Step-IsSound_example = Step-IsSound {s = submitted} (stop refl) submitted-IsSound

AllGone-taken_example :
    (finished.taken ≡ finished.accepted) × (finished.busy ≡ 0) × (finished.pool.jobs ≡ [])
AllGone-taken_example = AllGone-taken 1 1 created finished-Reach refl

begin_shutdown-AllGone_example :
    (t : System ℕ) × Reach (record submitted { pool = begin_shutdown submitted.pool }) t
    × AllGone t
    × (t.taken ≡ submitted.accepted)
begin_shutdown-AllGone_example = begin_shutdown-AllGone 1 1 created submitted-Reach

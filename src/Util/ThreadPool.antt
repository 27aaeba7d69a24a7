-- ===== src/Util/ThreadPool.antt =====
-- include/novacache/util/thread_pool.hpp and src/util/thread_pool.cpp: the bounded queue of jobs and
-- its workers. Each critical section of `mutex_` is one function; the waits of the condition
-- variable are the conditions under which a worker may go on.
pub mod System
mod Examples
use distributed_data_store.Prelude.{
  ℕ, zero, suc, Bool, true, false, ◌||◌, ◌&&◌, Option, none, some, List, [], ◌∷◌, ◌++◌, length, leb,
  if◌then◌else◌,
}

pub record ThreadPool {ℓ} (J : Type ℓ) : Type ℓ where
  pub max_queue_size : ℕ
  pub jobs : List J
  pub workers : ℕ
  pub stopping : Bool

-- One round of worker_main: it returns, it has a job, or it waits.
pub data Round {ℓ} (J : Type ℓ) : Type ℓ where
  returns : Round J
  runs : J → ThreadPool J → Round J
  waits : Round J

module _ {ℓ} {J : Type ℓ} where
  -- The constructor; `none` is std::invalid_argument.
  unfoldable pub create : ℕ → ℕ → Option (ThreadPool J)
  create zero max_queue_size = none
  create (suc n) zero = none
  create (suc n) (suc m) =
      some (record { max_queue_size = suc m; jobs = []; workers = suc n; stopping = false })

  unfoldable pub try_submit : J → ThreadPool J → Bool × ThreadPool J
  try_submit job p =
      if p.stopping || leb p.max_queue_size (length p.jobs)
      then (false, p)
      else (true, record p { jobs = p.jobs ++ job ∷ [] })

  unfoldable pub queued_jobs : ThreadPool J → ℕ
  queued_jobs p = length p.jobs

  unfoldable pub thread_count : ThreadPool J → ℕ
  thread_count p = p.workers

  unfoldable pub accepting : ThreadPool J → Bool
  accepting p = if p.stopping then false else true

  -- What the front of the queue says; the recheck of `stopping_` is under the same lock.
  unfoldable pub round_of : List J → ThreadPool J → Round J
  round_of [] p = if p.stopping then returns else waits
  round_of (job ∷ jobs) p = runs job (record p { jobs = jobs })

  unfoldable pub worker_round : ThreadPool J → Round J
  worker_round p = round_of p.jobs p

  -- shutdown: before the workers are joined, and after.
  unfoldable pub begin_shutdown : ThreadPool J → ThreadPool J
  begin_shutdown p = record p { stopping = true }

  unfoldable pub finish_shutdown : ThreadPool J → ThreadPool J
  finish_shutdown p = record p { jobs = []; workers = 0 }

-- ===== src/Server/Order/Added.antt =====
-- What a job that is submitted, or run at once, adds to the requests that are on their way.
use distributed_data_store.Prelude.{
  ℕ, ◌≡◌, refl, Bool, true, false, Option, none, some, List, [], ◌∷◌, ◌++◌, append-nil, Bytes, ◌==◌,
  arith, Bool-cases, inl, inr,
}
use distributed_data_store.Store.{Platform}
use distributed_data_store.Protocol.RespValue.{RespValue}
use distributed_data_store.Protocol.Encoder.{encode}
use distributed_data_store.Persistence.Result.{Result, ok, err}
use distributed_data_store.Commands.Registry.{Outside, Reply, execute}
use distributed_data_store.Util.ThreadPool.{ThreadPool, try_submit}
use distributed_data_store.Server.Connection.{
  Completion, Job, Shared, deliver, finish_job, run_job, submit_or_run, context_of,
}
use distributed_data_store.Server.Order.{Ensures, Elsewhere, of_jobs, of_completions, outstanding}

pub of_jobs-append :
    (id : ℕ) (xs ys : List Job) → of_jobs id (xs ++ ys) ≡ of_jobs id xs ++ of_jobs id ys
of_jobs-append id [] ys = refl
of_jobs-append id (x ∷ xs) ys = elim (Bool-cases (x.connection_id == id)) [
  | inl own ↦ rw (own, of_jobs-append id xs ys)
  | inr other ↦ rw (other, of_jobs-append id xs ys)
]

pub of_completions-append :
    (id : ℕ) (xs ys : List Completion)
    → of_completions id (xs ++ ys) ≡ of_completions id xs ++ of_completions id ys
of_completions-append id [] ys = refl
of_completions-append id (x ∷ xs) ys = elim (Bool-cases (x.connection_id == id)) [
  | inl own ↦ rw (own, of_completions-append id xs ys)
  | inr other ↦ rw (other, of_completions-append id xs ys)
]

-- What a job adds to the requests on their way: seen from its own connection, where nothing was,
-- and from any other.
pub record Adds (job : Job) (w : Elsewhere) (before after : Shared) : Type 0 where
  pub own :
      outstanding job.connection_id w before ≡ []
      → outstanding job.connection_id w after ≡ job.item.sequence ∷ []
  pub others :
      (id : ℕ)
      → (job.connection_id == id) ≡ false
      → outstanding id w after ≡ outstanding id w before

pub empty_append {ℓ} : {A : Type ℓ} (xs ys : List A) → xs ++ ys ≡ [] → (xs ≡ []) × (ys ≡ [])
empty_append [] ys h = (refl, h)
empty_append (x ∷ xs) ys h = cc

pub ==_refl : (n : ℕ) → (n == n) ≡ true
==_refl n = ground arith

-- All four places are empty.
pub outstanding-parts :
    (id : ℕ) (w : Elsewhere) (sh : Shared)
    → outstanding id w sh ≡ []
    → (of_completions id w.local ≡ [])
      × (of_completions id sh.completions ≡ [])
      × (of_jobs id w.active ≡ [])
      × (of_jobs id sh.pool.jobs ≡ [])
unfolding outstanding
outstanding-parts id w sh h =
    let (a, h') = empty_append (of_completions id w.local) _ h in
    let (b, h'') = empty_append (of_completions id sh.completions) _ h' in
    let (c, d) = empty_append (of_jobs id w.active) (of_jobs id sh.pool.jobs) h'' in (a, b, c, d)

submitted-Adds :
    (job : Job) (w : Elsewhere) (sh : Shared) (pool : ThreadPool Job)
    → pool.jobs ≡ sh.pool.jobs ++ job ∷ []
    → Adds job w sh (record sh { pool = pool })
unfolding outstanding
submitted-Adds job w sh pool h = record {
  own = λ nothing.
      let (a, b, c, d) = outstanding-parts job.connection_id w sh nothing in
      rw (
        a,
        b,
        c,
        h,
        of_jobs-append job.connection_id sh.pool.jobs (job ∷ []),
        d,
        ==_refl job.connection_id,
      );
  others = λ id other.
      rw
        (h, of_jobs-append id sh.pool.jobs (job ∷ []), other, append-nil (of_jobs id sh.pool.jobs));
}

deliver-Adds :
    (job : Job) (w : Elsewhere) (response : RespValue) (payload : Option Bytes) (sh : Shared)
    → Ensures (Adds job w sh) (deliver job response payload sh)
unfolding deliver outstanding
deliver-Adds job w response none sh = tt
deliver-Adds job w response (some payload) sh = record {
  own = λ nothing.
      let (a, b, c, d) = outstanding-parts job.connection_id w sh nothing in
      rw (
        a,
        c,
        d,
        of_completions-append job.connection_id sh.completions (_ ∷ []),
        b,
        ==_refl job.connection_id,
      );
  others = λ id other. rw (
    of_completions-append id sh.completions (_ ∷ []),
    other,
    append-nil (of_completions id sh.completions),
  );
}

pub finish_job-Adds :
    (job : Job) (w : Elsewhere) (reply : Option Reply) (sh : Shared)
    → Ensures (Adds job w sh) (finish_job job reply sh)
unfolding finish_job outstanding
finish_job-Adds job w none sh = tt
finish_job-Adds job w (some (err e, context)) sh = tt
finish_job-Adds job w (some (ok response, context)) sh =
    weaken (deliver job response (encode response) sh')
      (deliver-Adds job w response (encode response) sh')
  where
    sh' : Shared
    sh' = record sh { store = context.store; persistence = context.persistence }

    weaken : (r : Result Shared) → Ensures (Adds job w sh') r → Ensures (Adds job w sh) r
    weaken (ok after) a = record { own = a.own; others = a.others }
    weaken (err e) a = tt

pub try_submit-jobs :
    (job : Job) (p : ThreadPool Job)
    → (try_submit job p).0 ≡ true
    → (try_submit job p).1.jobs ≡ p.jobs ++ job ∷ []
unfolding try_submit
try_submit-jobs job p h = ground arith

module _ (platform : Platform) (outside : ℕ → Outside) where
  pub submit_or_run-Adds :
      (job : Job) (w : Elsewhere) (sh : Shared) (r : Bool × ThreadPool Job)
      → (r.0 ≡ true → r.1.jobs ≡ sh.pool.jobs ++ job ∷ [])
      → Ensures (Adds job w sh) (submit_or_run platform outside job r sh)
  unfolding submit_or_run run_job
  submit_or_run-Adds job w sh (true, pool) h = submitted-Adds job w sh pool (h refl)
  submit_or_run-Adds job w sh (false, pool) h =
      finish_job-Adds job w
        (execute platform (outside sh.jobs_run) job.item.request (context_of sh)) sh

  pub run_job-Adds :
      (job : Job) (w : Elsewhere) (sh : Shared)
      → Ensures (Adds job w sh) (run_job platform outside job sh)
  unfolding run_job
  run_job-Adds job w sh =
      finish_job-Adds job w
        (execute platform (outside sh.jobs_run) job.item.request (context_of sh)) sh

-- ===== src/Server/Order/Runs.antt =====
-- The runs of one connection: what the I/O thread, the workers and the other connections do, step by
-- step.
use distributed_data_store.Prelude.{ℕ, ◌^◌, ◌<◌, ◌≡◌, true, false, List, [], ◌∷◌, ◌++◌, ◌==◌}
use distributed_data_store.Store.{Platform}
use distributed_data_store.Persistence.Result.{ok}
use distributed_data_store.Commands.Registry.{Outside}
use distributed_data_store.Util.ThreadPool.{ThreadPool, runs, worker_round}
use distributed_data_store.Server.Connection.{Connection, Completion, Job, Shared, run_job}
use distributed_data_store.Server.Traffic.{read_connection, write_connection, update_interest}
use distributed_data_store.Server.Loop.{complete_on}
use distributed_data_store.Server.Order.{Elsewhere, outstanding, to_come}
use distributed_data_store.Server.Order.Replies.{before, after}

-- One connection, what all connections share, and where its requests are.
pub record World : Type 0 where
  pub connection : Connection
  pub shared : Shared
  pub places : Elsewhere

module _ (platform : Platform) (outside : ℕ → Outside) where
  -- The I/O thread reads, writes or looks what to wait for, takes the completions, or applies one of
  -- the connection; a worker takes a job, of this or another connection, or finishes one; or the
  -- other connections do something, which adds and removes no job of this one.
  pub data Step : World → World → Type 0 where
    reads :
        {c d : Connection} {sh sh' : Shared} {w : Elsewhere}
        → read_connection platform outside c sh ≡ ok (d, sh')
        → Step
            (record { connection = c; shared = sh; places = w })
            (record { connection = d; shared = sh'; places = w })
    writes :
        {c d : Connection} {sh sh' : Shared} {w : Elsewhere}
        → write_connection c sh ≡ ok (d, sh')
        → Step
            (record { connection = c; shared = sh; places = w })
            (record { connection = d; shared = sh'; places = w })
    updates :
        {c d : Connection} {sh sh' : Shared} {w : Elsewhere}
        → update_interest platform outside c sh ≡ ok (d, sh')
        → Step
            (record { connection = c; shared = sh; places = w })
            (record { connection = d; shared = sh'; places = w })
    takes :
        {c : Connection} {sh : Shared} {w : Elsewhere} (job : Job) {pool : ThreadPool Job}
        → worker_round sh.pool ≡ runs job pool
        → Step
            (record { connection = c; shared = sh; places = w })
            (record {
              connection = c;
              shared = record sh { pool = pool };
              places = record w { active = w.active ++ job ∷ [] };
            })
    finishes :
        {c : Connection} {sh sh' : Shared} (job : Job) (xs ys : List Job)
        {local log : List Completion}
        → run_job platform outside job sh ≡ ok sh'
        → Step
            (record {
              connection = c;
              shared = sh;
              places = record { active = xs ++ job ∷ ys; local = local; log = log };
            })
            (record {
              connection = c;
              shared = sh';
              places = record { active = xs ++ ys; local = local; log = log };
            })
    swaps :
        {c : Connection} {sh : Shared} {active : List Job} {log : List Completion}
        → Step
            (record {
              connection = c;
              shared = sh;
              places = record { active = active; local = []; log = log };
            })
            (record {
              connection = c;
              shared = record sh { completions = [] };
              places = record { active = active; local = sh.completions; log = log };
            })
    applies :
        {c d : Connection} {sh sh' : Shared} {active : List Job} {completion : Completion}
        {rest log : List Completion}
        → (completion.connection_id == c.connection_id) ≡ true
        → complete_on platform outside completion c sh ≡ ok (d, sh')
        → Step
            (record { connection = c; shared = sh; places = before active completion rest log })
            (record { connection = d; shared = sh'; places = after active completion rest log })
    others :
        {c : Connection} {sh sh' : Shared} {w w' : Elsewhere}
        → outstanding c.connection_id w' sh' ≡ outstanding c.connection_id w sh
        → w'.log ≡ w.log
        → Step
            (record { connection = c; shared = sh; places = w })
            (record { connection = c; shared = sh'; places = w' })

  pub data Reach (start : World) : World → Type 0 where
    here : Reach start start
    then_step : {v u : World} → Reach start v → Step v u → Reach start u

-- A connection that was just accepted.
pub record IsNew (v : World) : Type 0 where
  pub no_request : v.connection.next_request_seq ≡ 0
  pub no_response : v.connection.next_response_seq ≡ 0
  pub none_pending : v.connection.pending_responses ≡ []
  pub none_queued : v.connection.command_queue ≡ []
  pub rests : v.connection.strand_running ≡ false
  pub none_in_flight : v.connection.inflight ≡ 0
  pub no_output : v.connection.socket.sent ++ v.connection.output ≡ []
  pub none_out : outstanding v.connection.connection_id v.places v.shared ≡ []
  pub no_log : v.places.log ≡ []
  pub few : to_come v.connection < 2 ^ 64

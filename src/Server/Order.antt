-- ===== src/Server/Order.antt =====
-- Terms for the order of a connection's replies (src/server/server.cpp): its queue, its numbers and
-- where its requests are.
pub mod Added
pub mod Jobs
pub mod Launch
pub mod Kept
pub mod Parsing
pub mod Enough
pub mod Reading
pub mod Sending
pub mod Flush
pub mod Replies
pub mod Runs
pub mod Steps
pub mod Overtaking
use distributed_data_store.Prelude.{
  ℕ, zero, suc, ◌+◌, ◌-◌, ◌^◌, ◌<◌, ◌≤◌, ◌≡◌, Bool, true, false, List, [], ◌∷◌, ◌++◌, Bytes, length,
  ◌==◌, if◌then◌else◌,
}
use distributed_data_store.Persistence.Result.{Result, ok, err, bind}
use distributed_data_store.Net.Socket.{Received, got}
use distributed_data_store.Server.Connection.{QueuedCommand, Connection, Completion, Job, Shared}

-- What holds of a result, if there is one.
abbrev pub Ensures {ℓ κ} : {A : Type ℓ} → (A → Type κ) → Result A → Type κ
Ensures P (ok a) = P a
Ensures P (err e) = Unit

pub bind-Ensures {ℓ κ μ ν} :
    {A : Type ℓ} {B : Type κ} (P : A → Type μ) (Q : B → Type ν) (m : Result A) (f : A → Result B)
    → Ensures P m
    → ((a : A) → P a → Ensures Q (f a))
    → Ensures Q (bind m f)
bind-Ensures P Q (ok a) f h k = k a h
bind-Ensures P Q (err e) f h k = tt

-- The jobs that workers run, the completions that drain_completions has taken from the queue, and
-- those of one connection that apply_completion has applied to it.
pub record Elsewhere : Type 0 where
  pub active : List Job
  pub local : List Completion
  pub log : List Completion

abbrev pub of_jobs : ℕ → List Job → List ℕ
of_jobs id [] = []
of_jobs id (job ∷ jobs) =
    if job.connection_id == id then job.item.sequence ∷ of_jobs id jobs else of_jobs id jobs

abbrev pub of_completions : ℕ → List Completion → List ℕ
of_completions id [] = []
of_completions id (c ∷ cs) =
    if c.connection_id == id then c.sequence ∷ of_completions id cs else of_completions id cs

-- The numbers of the requests of connection `id` that are on their way.
unfoldable pub outstanding : ℕ → Elsewhere → Shared → List ℕ
outstanding id w sh =
    of_completions id w.local
    ++ (of_completions id sh.completions ++ (of_jobs id w.active ++ of_jobs id sh.pool.jobs))

abbrev pub Numbered : ℕ → List QueuedCommand → Type 0
Numbered n [] = Unit
Numbered n (q ∷ queue) = (q.sequence ≡ n) × Numbered (n + 1) queue

abbrev pub bytes_of : List Received → ℕ
bytes_of [] = 0
bytes_of (got bytes ∷ answers) = length bytes + bytes_of answers
bytes_of (answer ∷ answers) = bytes_of answers

-- The bytes of the client that are not yet parsed.
abbrev pub to_come : Connection → ℕ
to_come c = length c.parser.buffer + bytes_of c.socket.incoming

abbrev pub payloads : List Completion → Bytes
payloads [] = []
payloads (c ∷ cs) = c.payload ++ payloads cs

abbrev pub Consecutive : ℕ → List Completion → Type 0
Consecutive n [] = Unit
Consecutive n (c ∷ cs) = (c.sequence ≡ n) × Consecutive (n + 1) cs

-- The replies so far: numbered from 0, and their bytes are those that were sent or wait for it.
pub record IsReplied (log : List Completion) (n : ℕ) (bytes : Bytes) : Type 0 where
  pub numbered : Consecutive 0 log
  pub counted : n ≡ length log
  pub transcript : bytes ≡ payloads log

-- What is left to answer, while the connection is not given up.
abbrev pub Answered : Elsewhere → Connection → Type 0
Answered w c =
    (c.inflight + c.next_response_seq ≡ c.next_request_seq)
    × ((c.pending_responses ≡ []) × IsReplied w.log c.next_response_seq (c.socket.sent ++ c.output))

-- Nothing of the connection is on its way: all its requests without a reply are in the queue.
pub record IsReady (w : Elsewhere) (sh : Shared) (c : Connection) : Type 0 where
  pub none_out : outstanding c.connection_id w sh ≡ []
  pub counted : c.inflight ≡ length c.command_queue
  pub numbered : Numbered (c.next_request_seq - length c.command_queue) c.command_queue
  pub bounded : c.inflight ≤ c.next_request_seq
  pub answered : c.closing ≡ false → Answered w c
  pub few : c.next_request_seq + to_come c < 2 ^ 64

-- One request is on its way, the first without a reply, and the others are in the queue.
pub record IsRunning (w : Elsewhere) (sh : Shared) (c : Connection) : Type 0 where
  pub one_out : outstanding c.connection_id w sh ≡ (c.next_request_seq - c.inflight) ∷ []
  pub counted : c.inflight ≡ suc (length c.command_queue)
  pub numbered : Numbered (c.next_request_seq - length c.command_queue) c.command_queue
  pub bounded : c.inflight ≤ c.next_request_seq
  pub answered : c.closing ≡ false → Answered w c
  pub few : c.next_request_seq + to_come c < 2 ^ 64

-- The strand runs exactly while a request is on its way, and rests with an empty queue. When a
-- reply has come and the strand was not yet continued, the connection is ready.
pub data Phase : Type 0 where
  ready resting running : Phase

abbrev pub InPhase : Phase → Elsewhere → Connection × Shared → Type 0
InPhase ready w (c, sh) = IsReady w sh c
InPhase resting w (c, sh) = IsReady w sh c × (c.command_queue ≡ [])
InPhase running w (c, sh) = IsRunning w sh c

abbrev pub phase_of : Bool → Phase
phase_of true = running
phase_of false = resting

abbrev pub InOrder : Elsewhere → Connection × Shared → Type 0
InOrder w (c, sh) = InPhase (phase_of c.strand_running) w (c, sh)

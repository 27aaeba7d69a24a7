-- ===== src/Server/Connection.antt =====
-- include/novacache/server/server.hpp and src/server/server.cpp: one connection, and how its
-- requests become jobs of the pool. The methods that take a `Connection&` take it as an argument,
-- beside what the connections share, and return both. steady_clock is read once in a step.
use distributed_data_store.Prelude.{
  ℕ, zero, suc, ◌+◌, ◌%◌, ◌^◌, Bool, true, false, ◌&&◌, Option, none, some, List, [], ◌∷◌, ◌++◌,
  Bytes, text, length, leb, ltb, if◌then◌else◌, ℤ,
}
use distributed_data_store.Store.{Store, Platform}
use distributed_data_store.Protocol.RespValue.{RespValue, Items, error, bulk, array, nil, cons}
use distributed_data_store.Protocol.Encoder.{encode}
use distributed_data_store.Protocol.Parser.{
  ParserLimits, Parser, ValueResult, complete, stopped, incomplete, next,
}
use distributed_data_store.Persistence.Result.{Result, ok, err, invalid_argument, undefined, bind}
use distributed_data_store.Persistence.Engine.{Engine}
use distributed_data_store.Commands.Registry.{CommandContext, Outside, Reply, execute}
use distributed_data_store.Util.ThreadPool.{ThreadPool, try_submit, queued_jobs, thread_count}
use distributed_data_store.Net.Socket.{Socket}
use distributed_data_store.Server.Stats.{Stats}

pub record QueuedCommand : Type 0 where
  pub sequence : ℕ
  pub request : RespValue

pub record Interest : Type 0 where
  pub wants_read : Bool
  pub wants_write : Bool

-- The field `id` is called connection_id here.
pub record Connection : Type 0 where
  pub connection_id : ℕ
  pub socket : Socket
  pub interest : Interest
  pub output : Bytes
  pub parser : Parser
  pub next_request_seq : ℕ
  pub next_response_seq : ℕ
  pub pending_responses : List (ℕ × Bytes)
  pub command_queue : List QueuedCommand
  pub strand_running : Bool
  pub inflight : ℕ
  pub read_closed : Bool
  pub closing : Bool
  pub last_activity : ℤ

pub record Completion : Type 0 where
  pub connection_id : ℕ
  pub sequence : ℕ
  pub payload : Bytes
  pub is_error : Bool

-- What a job has captured.
pub record Job : Type 0 where
  pub connection_id : ℕ
  pub item : QueuedCommand

-- The fields that the event loop reads.
pub record ServerConfig : Type 0 where
  pub max_connections : ℕ
  pub worker_queue_limit : ℕ
  pub max_output_buffer_bytes : ℕ
  pub active_expiry_hz : ℤ
  pub idle_timeout : ℤ
  pub parser_limits : ParserLimits

-- The fields of `Server` that all connections use, with the time and the number of jobs run so far.
pub record Shared : Type 0 where
  pub config : ServerConfig
  pub store : Store
  pub stats : Stats
  pub persistence : Option Engine
  pub version : Bytes
  pub bound_port : ℕ
  pub pool : ThreadPool Job
  pub completions : List Completion
  pub now : ℤ
  pub jobs_run : ℕ

unfoldable pub all_bulk : Items → Bool
all_bulk nil = true
all_bulk (cons (bulk (some value)) items) = all_bulk items
all_bulk (cons item items) = false

unfoldable pub is_command_request : RespValue → Bool
is_command_request (array (cons item items)) = all_bulk (cons item items)
is_command_request request = false

unfoldable pub response_is_error : RespValue → Bool
response_is_error (error message) = true
response_is_error value = false

unfoldable pub queue_saturated : Shared → Bool
queue_saturated sh = leb sh.config.worker_queue_limit (queued_jobs sh.pool)

-- encode(RespValue::error("ERR Protocol error")), which has no line break.
abbrev or_nothing : Option Bytes → Bytes
or_nothing none = []
or_nothing (some bytes) = bytes

unfoldable pub protocol_error : Bytes
protocol_error = or_nothing (encode (error (text "ERR Protocol error")))

-- The reply of a malformed connection, which is read no more.
unfoldable pub refuse : Connection → Connection
refuse c = record c { output = c.output ++ protocol_error; closing = true; read_closed = true }

abbrev pub context_of : Shared → CommandContext
context_of sh = record {
  store = sh.store;
  stats = some sh.stats;
  persistence = sh.persistence;
  version = sh.version;
  tcp_port = sh.bound_port;
  worker_count = thread_count sh.pool;
}

-- The completion of a job, once its reply is encoded.
unfoldable pub deliver : Job → RespValue → Option Bytes → Shared → Result Shared
deliver job response none sh = err invalid_argument
deliver job response (some payload) sh = ok (record sh {
  completions =
      sh.completions
      ++ record {
        connection_id = job.connection_id;
        sequence = job.item.sequence;
        payload = payload;
        is_error = response_is_error response;
      }
        ∷ [];
  jobs_run = sh.jobs_run + 1;
})

unfoldable pub finish_job : Job → Option Reply → Shared → Result Shared
finish_job job none sh = err undefined
finish_job job (some (err e, context)) sh = err e
finish_job job (some (ok response, context)) sh =
    deliver job response (encode response)
      (record sh { store = context.store; persistence = context.persistence })

-- What queue_parsed_commands makes of a result of the parser.
pub data Parsed : Type 0 where
  wait refused : Parsed
  requested : RespValue → Parsed

unfoldable pub parsed_request : ValueResult → Parsed
parsed_request (stopped incomplete message) = wait
parsed_request (stopped status message) = refused
parsed_request (complete value consumed) =
    if is_command_request value then requested value else refused

-- The connection after the request was put into its queue.
abbrev pub queued : RespValue → Connection → Connection
queued request c = record c {
  next_request_seq = (c.next_request_seq + 1) % 2 ^ 64;
  inflight = (c.inflight + 1) % 2 ^ 64;
  command_queue =
      c.command_queue ++ record { sequence = c.next_request_seq; request = request } ∷ [];
}

module _ (platform : Platform) (outside : ℕ → Outside) where
  -- The body of the job, on a worker or on the I/O thread.
  unfoldable pub run_job : Job → Shared → Result Shared
  run_job job sh =
      finish_job job (execute platform (outside sh.jobs_run) job.item.request (context_of sh)) sh

  unfoldable pub submit_or_run : Job → Bool × ThreadPool Job → Shared → Result Shared
  submit_or_run job (true, pool) sh = ok (record sh { pool = pool })
  submit_or_run job (false, pool) sh = run_job job sh

  unfoldable pub launch_front :
      List QueuedCommand → Connection → Shared → Result (Connection × Shared)
  launch_front [] c sh = ok (record c { strand_running = false }, sh)
  launch_front (item ∷ queue) c sh =
      let job : Job = record { connection_id = c.connection_id; item = item } in
      bind (submit_or_run job (try_submit job sh.pool) sh)
        λ sh'. ok (record c { command_queue = queue; strand_running = true }, sh')

  unfoldable pub launch_strand : Connection → Shared → Result (Connection × Shared)
  launch_strand c sh = launch_front c.command_queue c sh

  unfoldable pub enqueue_command : RespValue → Connection → Shared → Result (Connection × Shared)
  enqueue_command request c sh =
      if c.strand_running then ok (queued request c, sh) else launch_strand (queued request c) sh

  -- The loop of queue_parsed_commands; a round that goes on takes a value off the buffer.
  unfoldable pub queue_parsed : ℕ → Connection → Shared → Result (Connection × Shared)
  queue_parsed zero c sh = ok (c, sh)
  queue_parsed (suc fuel) c sh = elim (queue_saturated sh && ltb 0 c.inflight) [
    | true ↦ ok (c, sh)
    | false ↦
        let c' : Connection = record c { parser = (next c.parser).1 } in
        elim (parsed_request (next c.parser).0) [
          | wait ↦ ok (c', sh)
          | refused ↦ ok (refuse c', sh)
          | requested request ↦
              bind (enqueue_command request c' sh) λ (d, sh'). queue_parsed fuel d sh'
        ]
  ]

  unfoldable pub queue_parsed_commands : Connection → Shared → Result (Connection × Shared)
  queue_parsed_commands c sh = queue_parsed (suc (length c.parser.buffer)) c sh

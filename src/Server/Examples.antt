-- ===== src/Server/Examples.antt =====
-- The theorems about the server at one connection that sends PING.
mod Malformed
mod Limited
use distributed_data_store.Prelude.{
  suc, ℕ, ◌≤◌, ◌≡◌, refl, true, false, none, some, [], ◌∷◌, ◌++◌, Bytes, text, length, pos, arith,
}
use distributed_data_store.Store.{Platform}
use distributed_data_store.Protocol.RespValue.{simple, bulk, array, nil, cons}
use distributed_data_store.Protocol.Parser.{
  new_parser, default_limits, after_cr, read_line, bulk_end, bulk_payload, bulk_result, parse_bulk,
  items_cons, parse_items, array_of, array_elements, array_result, parse_array, parse_prefix,
  parse_value, feed, take_value, next,
}
use distributed_data_store.Persistence.Result.{ok}
use distributed_data_store.Commands.Registry.{
  Outside, bulk_items, extract_arguments, handle, check_arity, execute_arguments, execute,
}
use distributed_data_store.Net.Socket.{got, took, receive_from, try_receive, send_to, try_send}
use distributed_data_store.Util.ThreadPool.{
  runs, worker_round, round_of, try_submit, queued_jobs, thread_count,
}
use distributed_data_store.Server.Connection.{
  refused, Connection, Completion, Job, Shared, run_job, queue_parsed, queue_parsed_commands,
  all_bulk, is_command_request, queue_saturated, parsed_request, submit_or_run, launch_front,
  launch_strand, enqueue_command, finish_job, deliver, response_is_error, context_of,
}
use distributed_data_store.Server.Traffic.{read_connection, read_loop, write_loop, write_connection}
use distributed_data_store.Server.Loop.{
  complete_on, find_response, erase_response, add_response, flush_responses, take_response,
  continue_strand,
}
use distributed_data_store.Protocol.Decimal.{
  is_digit, digits_value, unsigned_value, in_range, parse_integer,
}
use distributed_data_store.Server.Stats.{add_bytes_in, on_command, add_bytes_out}
use distributed_data_store.Commands.Table.{
  upper, normalize, mutating, add, commands, find_command, metadata,
}
use distributed_data_store.Protocol.Encoder.{encode, has_line_break, append_line}
use distributed_data_store.Server.Order.{Elsewhere, outstanding, IsReplied}
use distributed_data_store.Server.Order.Enough.{queue_parsed-enough}
use distributed_data_store.Server.Order.Jobs.{Finished, run_job-Finished}
use distributed_data_store.Server.Order.Runs.{
  World, reads, takes, finishes, swaps, applies, Reach, here, then_step, IsNew,
}
use distributed_data_store.Server.Order.Overtaking.{IsOvertaken, queue_parsed_commands-IsOvertaken}
use distributed_data_store.Server.Order.Steps.{Reach-IsReplied, Reach-outstanding}

abbrev platform : Platform
platform = record { hash = length; entry_size = 64 }

abbrev outside : ℕ → Outside
outside n = record {
  answers = [];
  wall = pos 1;
  first = record { now = pos 1; wall_now = pos 1 };
  second = record { now = pos 1; wall_now = pos 1 };
  room = pos 1000;
}

abbrev line_end : Bytes
line_end = 13 ∷ 10 ∷ []

abbrev ping : Bytes
ping = text "*1" ++ (line_end ++ (text "$4" ++ (line_end ++ (text "PING" ++ line_end))))

abbrev c0 : Connection
c0 = record {
  connection_id = 1;
  socket = record { incoming = got ping ∷ []; outgoing = took 7 ∷ []; sent = [] };
  interest = record { wants_read = true; wants_write = false };
  output = [];
  parser = new_parser default_limits;
  next_request_seq = 0;
  next_response_seq = 0;
  pending_responses = [];
  command_queue = [];
  strand_running = false;
  inflight = 0;
  read_closed = false;
  closing = false;
  last_activity = pos 0;
}

abbrev sh0 : Shared
sh0 = record {
  config = record {
    max_connections = 10;
    worker_queue_limit = 4;
    max_output_buffer_bytes = 100;
    active_expiry_hz = pos 10;
    idle_timeout = pos 0;
    parser_limits = default_limits;
  };
  store = record { shards = [] ∷ []; approximate_memory = 0; expired_keys = 0 };
  stats = record {
    accepted_connections = 1;
    active_connections = 1;
    total_commands = 0;
    command_errors = 0;
    bytes_in = 0;
    bytes_out = 0;
    expired_keys = 0;
    evicted_keys = 0;
    used_memory = 0;
  };
  persistence = none;
  version = text "1";
  bound_port = 6379;
  pool = record { max_queue_size = 4; jobs = []; workers = 1; stopping = false };
  completions = [];
  now = pos 1;
  jobs_run = 0;
}

abbrev nowhere : Elsewhere
nowhere = record { active = []; local = []; log = [] }

abbrev ping_job : Job
ping_job = record {
  connection_id = 1;
  item = record { sequence = 0; request = array (cons (bulk (some (text "PING"))) nil) };
}

-- After the request was read, the job was taken, it was finished, its completion was taken, and was
-- applied.
abbrev c1 : Connection
c1 = record c0 {
  socket = record { incoming = []; outgoing = took 7 ∷ []; sent = [] };
  next_request_seq = 1;
  strand_running = true;
  inflight = 1;
  last_activity = pos 1;
}

abbrev sh1 : Shared
sh1 = record sh0 {
  stats = add_bytes_in (length ping) sh0.stats;
  pool = record { max_queue_size = 4; jobs = ping_job ∷ []; workers = 1; stopping = false };
}

abbrev sh2 : Shared
sh2 = record sh1 { pool = sh0.pool }

abbrev pong : Completion
pong = record {
  connection_id = 1;
  sequence = 0;
  payload = text "+PONG" ++ line_end;
  is_error = false;
}

abbrev sh3 : Shared
sh3 = record sh2 { completions = pong ∷ []; jobs_run = 1 }

abbrev sh4 : Shared
sh4 = record sh2 { jobs_run = 1 }

abbrev c5 : Connection
c5 = record c1 {
  socket = record { incoming = []; outgoing = []; sent = pong.payload };
  next_response_seq = 1;
  strand_running = false;
  inflight = 0;
}

abbrev sh5 : Shared
sh5 = record sh4 { stats = add_bytes_out 7 (on_command false sh4.stats) }

abbrev in_hand : Elsewhere
in_hand = record nowhere { local = pong ∷ [] }

abbrev at_end : Elsewhere
at_end = record nowhere { log = pong ∷ [] }

abbrev w0 : World
w0 = record { connection = c0; shared = sh0; places = nowhere }

abbrev w5 : World
w5 = record { connection = c5; shared = sh5; places = at_end }

read_ping : read_connection platform outside c0 sh0 ≡ ok (c1, sh1)
unfolding after_cr read_line bulk_end bulk_payload bulk_result parse_bulk items_cons parse_items
    array_of array_elements array_result parse_array parse_prefix parse_value feed take_value next
    is_digit digits_value unsigned_value in_range parse_integer all_bulk is_command_request
    queue_saturated parsed_request submit_or_run launch_front launch_strand enqueue_command
    queue_parsed queue_parsed_commands read_loop read_connection try_submit queued_jobs receive_from
    try_receive add_bytes_in
read_ping = refl

take_ping : worker_round sh1.pool ≡ runs ping_job sh0.pool
unfolding worker_round round_of
take_ping = refl

run_ping : run_job platform outside ping_job sh2 ≡ ok sh3
unfolding run_job finish_job deliver response_is_error bulk_items extract_arguments handle
    check_arity execute_arguments execute upper normalize mutating add commands find_command
    metadata encode has_line_break append_line thread_count
run_ping = refl

reply_ping : complete_on platform outside pong c1 sh4 ≡ ok (c5, sh5)
unfolding find_response erase_response add_response flush_responses take_response continue_strand
    complete_on write_loop write_connection send_to try_send launch_front launch_strand on_command
    add_bytes_out
reply_ping = refl

w0-IsNew : IsNew w0
unfolding outstanding
w0-IsNew = record {
  no_request = refl;
  no_response = refl;
  none_pending = refl;
  none_queued = refl;
  rests = refl;
  none_in_flight = refl;
  no_output = refl;
  none_out = refl;
  no_log = refl;
  few = omega arith;
}

w5-Reach : Reach platform outside w0 w5
w5-Reach =
    then_step
      (then_step
        (then_step (then_step (then_step here (reads read_ping)) (takes ping_job take_ping))
          (finishes ping_job [] [] run_ping))
        swaps)
      (applies refl reply_ping)

Reach-IsReplied_example : IsReplied (pong ∷ []) 1 (text "+PONG" ++ line_end)
Reach-IsReplied_example = Reach-IsReplied platform outside {v = w0} {u = w5} w0-IsNew w5-Reach refl

Reach-outstanding_example : length (outstanding 1 at_end sh5) ≤ 1
Reach-outstanding_example = Reach-outstanding platform outside {v = w0} {u = w5} w0-IsNew w5-Reach

execute_ping :
    execute platform (outside sh2.jobs_run) ping_job.item.request (context_of sh2)
    ≡ some (ok (simple (text "PONG")), context_of sh2)
unfolding bulk_items extract_arguments handle check_arity execute_arguments execute upper normalize
    mutating add commands find_command metadata thread_count
execute_ping = refl

run_job-Finished_example :
    Finished default_limits 8 [] ping_job sh2
      (ok (simple (text "PONG")), context_of sh2)
      (run_job platform outside ping_job sh2)
run_job-Finished_example =
    run_job-Finished platform outside default_limits 8 [] ping_job sh2
      (ok (simple (text "PONG")), context_of sh2) execute_ping tt

queue_parsed-enough_example :
    queue_parsed platform outside 100
      (record c0 { parser = record (new_parser default_limits) { buffer = ping } })
      sh0
    ≡ queue_parsed_commands platform outside
        (record c0 { parser = record (new_parser default_limits) { buffer = ping } })
        sh0
queue_parsed-enough_example =
    queue_parsed-enough platform outside 100
      (record c0 { parser = record (new_parser default_limits) { buffer = ping } }) sh0
      (omega arith)

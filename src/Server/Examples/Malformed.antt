-- ===== src/Server/Examples/Malformed.antt =====
-- The theorem about a malformed request, at one that comes behind PING.
use distributed_data_store.Prelude.{suc, ◌≡◌, refl, false, [], ◌∷◌, ◌++◌, text, length, arith}
use distributed_data_store.Protocol.Parser.{
  new_parser, default_limits, after_cr, read_line, bulk_end, bulk_payload, bulk_result, parse_bulk,
  items_cons, parse_items, array_of, array_elements, array_result, parse_array, parse_prefix,
  parse_value, feed, take_value, next,
}
use distributed_data_store.Persistence.Result.{ok}
use distributed_data_store.Net.Socket.{got, receive_from, try_receive}
use distributed_data_store.Util.ThreadPool.{try_submit, queued_jobs}
use distributed_data_store.Server.Connection.{
  refused, Connection, Shared, queue_parsed, queue_parsed_commands, all_bulk, is_command_request,
  queue_saturated, parsed_request, submit_or_run, launch_front, launch_strand, enqueue_command,
}
use distributed_data_store.Server.Traffic.{read_connection, read_loop}
use distributed_data_store.Protocol.Decimal.{
  is_digit, digits_value, unsigned_value, in_range, parse_integer,
}
use distributed_data_store.Server.Stats.{add_bytes_in}
use distributed_data_store.Server.Order.{outstanding}
use distributed_data_store.Server.Order.Runs.{World, reads, takes, Reach, here, then_step, IsNew}
use distributed_data_store.Server.Order.Overtaking.{IsOvertaken, queue_parsed_commands-IsOvertaken}
use distributed_data_store.Server.Examples.{
  platform, outside, ping, c0, sh0, c1, sh1, nowhere, ping_job, take_ping,
}

-- PING and a byte that starts no value, with room for one job: the pool is full once PING is read, and
-- free again when the job is taken.
abbrev c0' : Connection
c0' = record c0 {
  socket = record { incoming = got (ping ++ text "x") ∷ []; outgoing = []; sent = [] };
}

abbrev sh0' : Shared
sh0' = record sh0 { config = record sh0.config { worker_queue_limit = 1 } }

abbrev c1' : Connection
c1' = record c1 {
  socket = record { incoming = []; outgoing = []; sent = [] };
  parser = record (new_parser default_limits) { buffer = text "x" };
}

abbrev sh1' : Shared
sh1' = record sh0' { stats = add_bytes_in (suc (length ping)) sh0.stats; pool = sh1.pool }

abbrev w0' : World
w0' = record { connection = c0'; shared = sh0'; places = nowhere }

abbrev w2' : World
w2' = record {
  connection = c1';
  shared = record sh1' { pool = sh0.pool };
  places = record nowhere { active = ping_job ∷ [] };
}

read_more : read_connection platform outside c0' sh0' ≡ ok (c1', sh1')
unfolding after_cr read_line bulk_end bulk_payload bulk_result parse_bulk items_cons parse_items
    array_of array_elements array_result parse_array parse_prefix parse_value feed take_value next
    is_digit digits_value unsigned_value in_range parse_integer all_bulk is_command_request
    queue_saturated parsed_request submit_or_run launch_front launch_strand enqueue_command
    queue_parsed queue_parsed_commands read_loop read_connection try_submit queued_jobs receive_from
    try_receive add_bytes_in
read_more = refl

w0'-IsNew : IsNew w0'
unfolding outstanding
w0'-IsNew = record {
  no_request = refl;
  no_response = refl;
  none_pending = refl;
  none_queued = refl;
  rests = refl;
  none_in_flight = refl;
  no_output = refl;
  none_out = refl;
  no_log = refl;
  few = omega arith;
}

w2'-Reach : Reach platform outside w0' w2'
w2'-Reach = then_step (then_step here (reads read_more)) (takes ping_job take_ping)

has_room : queue_saturated w2'.shared ≡ false
unfolding queue_saturated queued_jobs
has_room = refl

is_malformed : parsed_request (next c1'.parser).0 ≡ refused
unfolding parsed_request next take_value parse_value parse_prefix
is_malformed = refl

queue_parsed_commands-IsOvertaken_example :
    (d : Connection) × (queue_parsed_commands platform outside c1' w2'.shared ≡ ok (d, w2'.shared))
    × IsOvertaken d []
queue_parsed_commands-IsOvertaken_example =
    queue_parsed_commands-IsOvertaken platform outside {v = w0'} {u = w2'} w0'-IsNew w2'-Reach refl
      (omega arith) has_room is_malformed

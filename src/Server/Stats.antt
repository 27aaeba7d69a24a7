-- ===== src/Server/Stats.antt =====
-- include/novacache/server/stats.hpp and src/server/stats.cpp: the counters, each a uint64_t that
-- wraps, and the text of INFO.
use Prim.Native.String.{String}
use distributed_data_store.Prelude.{ℕ, Bool, ◌++◌, Bytes, text, if◌then◌else◌}
use distributed_data_store.Store.{add_u64, sub_u64}
use distributed_data_store.Protocol.Decimal.{append_size}
use distributed_data_store.Protocol.Encoder.{crlf}

pub record Stats : Type 0 where
  pub accepted_connections : ℕ
  pub active_connections : ℕ
  pub total_commands : ℕ
  pub command_errors : ℕ
  pub bytes_in : ℕ
  pub bytes_out : ℕ
  pub expired_keys : ℕ
  pub evicted_keys : ℕ
  pub used_memory : ℕ

unfoldable pub on_accept : Stats → Stats
on_accept s = record s {
  accepted_connections = add_u64 s.accepted_connections 1;
  active_connections = add_u64 s.active_connections 1;
}

unfoldable pub on_disconnect : Stats → Stats
on_disconnect s = record s { active_connections = sub_u64 s.active_connections 1 }

unfoldable pub on_command : Bool → Stats → Stats
on_command error s = record s {
  total_commands = add_u64 s.total_commands 1;
  command_errors = if error then add_u64 s.command_errors 1 else s.command_errors;
}

unfoldable pub add_bytes_in : ℕ → Stats → Stats
add_bytes_in bytes s = record s { bytes_in = add_u64 s.bytes_in bytes }

unfoldable pub add_bytes_out : ℕ → Stats → Stats
add_bytes_out bytes s = record s { bytes_out = add_u64 s.bytes_out bytes }

unfoldable pub add_expired : ℕ → Stats → Stats
add_expired count s = record s { expired_keys = add_u64 s.expired_keys count }

unfoldable pub add_evicted : ℕ → Stats → Stats
add_evicted count s = record s { evicted_keys = add_u64 s.evicted_keys count }

unfoldable pub set_used_memory : ℕ → Stats → Stats
set_used_memory bytes s = record s { used_memory = bytes }

-- One line of INFO: a name with its colon, and a number.
abbrev field : String → ℕ → Bytes
field name value = text name ++ (append_size value ++ crlf)

unfoldable pub render_info : Bytes → ℕ → ℕ → ℕ → Stats → Bytes
render_info version tcp_port worker_count shard_count s =
    text "# Server"
    ++ (crlf
        ++ (text "novacache_version:"
            ++ (version
                ++ (crlf
                    ++ (field "tcp_port:" tcp_port
                        ++ (text "io_threads:1"
                            ++ (crlf
                                ++ (field "worker_threads:" worker_count
                                    ++ (field "shard_count:" shard_count
                                        ++ (crlf
                                            ++ (text "# Clients"
                                                ++ (crlf
                                                    ++ (field "connected_clients:"
                                                          s.active_connections
                                                        ++ (field "total_connections_received:"
                                                            s.accepted_connections
                                                            ++ (crlf
                                                            ++ (text "# Stats"
                                                            ++ (crlf
                                                            ++ (field "total_commands_processed:"
                                                            s.total_commands
                                                            ++ (field "total_error_replies:"
                                                            s.command_errors
                                                            ++ (field "total_net_input_bytes:"
                                                            s.bytes_in
                                                            ++ (field "total_net_output_bytes:"
                                                            s.bytes_out
                                                            ++ (field "expired_keys:" s.expired_keys
                                                            ++ (field "evicted_keys:" s.evicted_keys
                                                            ++ (crlf
                                                            ++ (text "# Memory"
                                                            ++ (crlf
                                                            ++ field "used_memory:"
                                                            s.used_memory))))))))))))))))))))))))))

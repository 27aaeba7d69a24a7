-- ===== src/Server/Traffic.antt =====
-- src/server/server.cpp: read_connection, write_connection and update_interest.
use distributed_data_store.Prelude.{
  ℕ, zero, suc, Bool, true, false, ◌&&◌, ◌||◌, not, [], ◌∷◌, Bytes, length, drop, ltb, ◌==◌,
  if◌then◌else◌,
}
use distributed_data_store.Store.{Platform}
use distributed_data_store.Protocol.Parser.{ParseStatus, incomplete, feed}
use distributed_data_store.Persistence.Result.{Result, ok, err, io_error, bind}
use distributed_data_store.Commands.Registry.{Outside}
use distributed_data_store.Net.Socket.{
  Receive, received, threw, Send, accepted, try_receive, try_send,
}
use distributed_data_store.Server.Stats.{add_bytes_in, add_bytes_out}
use distributed_data_store.Server.Connection.{
  Connection, Interest, Shared, queue_saturated, refuse, queue_parsed_commands,
}

abbrev pub is_empty : Bytes → Bool
is_empty [] = true
is_empty (b ∷ bytes) = false

-- The peer has closed its side: a request that is not whole is an error.
unfoldable pub end_of_input : Connection → Connection
end_of_input c =
    if not (is_empty c.parser.buffer)
    then refuse c
    else if c.inflight == 0 && is_empty c.output
    then record c { read_closed = true; closing = true }
    else record c { read_closed = true }

abbrev pub fed : ParseStatus → Bool
fed incomplete = true
fed status = false

abbrev pub count_in : Bytes → Shared → Shared
count_in bytes sh = record sh { stats = add_bytes_in (length bytes) sh.stats }

abbrev pub arrived : Bytes → Connection → Shared → Connection
arrived bytes c sh = record c { last_activity = sh.now; parser = (feed c.parser bytes).1 }

module _ (platform : Platform) (outside : ℕ → Outside) where
  -- The loop of read_connection; each receive that does not end it uses up an answer of the system.
  unfoldable pub read_loop : ℕ → Connection → Shared → Result (Connection × Shared)
  read_loop zero c sh = ok (c, sh)
  read_loop (suc fuel) c sh = elim (queue_saturated sh) [
    | true ↦ ok (c, sh)
    | false ↦
        let c' : Connection = record c { socket = (try_receive c.socket).1 } in
        elim (try_receive c.socket).0 [
          | Receive.would_block ↦ ok (c', sh)
          | Receive.closed ↦ ok (end_of_input c', sh)
          | threw ↦ err io_error
          | received bytes ↦
              let d = arrived bytes c' sh in
              elim (fed (feed c.parser bytes).0) [
                | true ↦
                    bind (queue_parsed_commands platform outside d (count_in bytes sh)) λ (d', sh').
                      elim d'.closing [ true ↦ ok (d', sh') | false ↦ read_loop fuel d' sh' ]
                | false ↦ ok (refuse d, count_in bytes sh)
              ]
        ]
  ]

  unfoldable pub read_connection : Connection → Shared → Result (Connection × Shared)
  read_connection c sh =
      if c.read_closed || c.closing
      then ok (c, sh)
      else read_loop (suc (length c.socket.incoming)) c sh

-- The loop of write_connection, in the same way.
abbrev pub written : ℕ → Connection → Shared → Connection
written n c sh = record c { output = drop n c.output; last_activity = sh.now }

abbrev pub count_out : ℕ → Shared → Shared
count_out n sh = record sh { stats = add_bytes_out n sh.stats }

abbrev pub lost : Connection → Connection
lost c = record c { closing = true; output = [] }

unfoldable pub write_loop : ℕ → Connection → Shared → Result (Connection × Shared)
write_loop zero c sh = ok (c, sh)
write_loop (suc fuel) c sh = elim (is_empty c.output) [
  | true ↦ ok (c, sh)
  | false ↦
      let c' : Connection = record c { socket = (try_send c.output c.socket).1 } in
      elim (try_send c.output c.socket).0 [
        | Send.would_block ↦ ok (c', sh)
        | Send.closed ↦ ok (lost c', sh)
        | Send.threw ↦ err io_error
        | accepted zero ↦ ok (lost c', sh)
        | accepted (suc n) ↦ write_loop fuel (written (suc n) c' sh) (count_out (suc n) sh)
      ]
]

unfoldable pub write_connection : Connection → Shared → Result (Connection × Shared)
write_connection c sh = write_loop (suc (length c.socket.outgoing)) c sh

unfoldable pub compute_interest : Connection → Shared → Interest
compute_interest c sh = record {
  wants_read =
      not c.read_closed
      && (not c.closing
          && (not (queue_saturated sh) && ltb (length c.output) sh.config.max_output_buffer_bytes));
  wants_write = not (is_empty c.output);
}

abbrev pub with_interest : Connection × Shared → Connection × Shared
with_interest (c, sh) = (record c { interest = compute_interest c sh }, sh)

module _ (platform : Platform) (outside : ℕ → Outside) where
  -- The reactor is told each change of `interest`. Enabled anew, the socket is read at once.
  unfoldable pub update_interest : Connection → Shared → Result (Connection × Shared)
  update_interest c sh =
      let c' : Connection = record c { interest = compute_interest c sh } in
      if (compute_interest c sh).wants_read && not c.interest.wants_read
      then (bind (read_connection platform outside c' sh) λ r. ok (with_interest r))
      else ok (c', sh)

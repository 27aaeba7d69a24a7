-- ===== src/Server/Order/Reading.antt =====
-- read_connection and update_interest of src/server/server.cpp, and the order of the replies.
use distributed_data_store.Prelude.{
  ℕ, zero, suc, ◌+◌, ◌≤◌, ◌≡◌, refl, Bool, true, false, ◌&&◌, ◌||◌, not, List, [], ◌∷◌, Bytes,
  length, length-append, ◌==◌, arith, Bool-cases, inl, inr, ◌⊎◌,
}
use distributed_data_store.Store.{Platform}
use distributed_data_store.Protocol.Parser.{Parser, feed}
use distributed_data_store.Persistence.Result.{Result, ok}
use distributed_data_store.Commands.Registry.{Outside}
use distributed_data_store.Net.Socket.{
  Socket, Received, got, end_of_stream, recv_interrupted, recv_again, recv_failed, Receive,
  received, threw, receive_from, try_receive,
}
use distributed_data_store.Server.Connection.{
  Connection, Interest, Shared, queue_saturated, queue_parsed, queue_parsed_commands,
}
use distributed_data_store.Server.Traffic.{
  is_empty, end_of_input, fed, count_in, arrived, read_loop, read_connection, compute_interest,
  with_interest, update_interest,
}
use distributed_data_store.Server.Order.{
  phase_of, Ensures, bind-Ensures, Elsewhere, bytes_of, InOrder,
}
use distributed_data_store.Server.Order.Kept.{changed, never, refuse-InOrder}
use distributed_data_store.Server.Order.Parsing.{queue_parsed-InOrder}

bytes_received : Receive → ℕ
bytes_received (received bytes) = length bytes
bytes_received r = 0

receive_from-bytes_of :
    (answers : List Received)
    → bytes_received (receive_from answers).0 + bytes_of (receive_from answers).1 ≤ bytes_of answers
unfolding receive_from bytes_received
receive_from-bytes_of [] = omega arith
receive_from-bytes_of (got [] ∷ answers) = omega arith
receive_from-bytes_of (got (b ∷ bytes) ∷ answers) = omega arith
receive_from-bytes_of (end_of_stream ∷ answers) = omega arith
receive_from-bytes_of (recv_interrupted ∷ answers) = receive_from-bytes_of answers
receive_from-bytes_of (recv_again ∷ answers) = omega arith
receive_from-bytes_of (recv_failed ∷ answers) = omega arith

try_receive-bytes_of :
    (s : Socket)
    → bytes_received (try_receive s).0 + bytes_of (try_receive s).1.incoming ≤ bytes_of s.incoming
unfolding try_receive
try_receive-bytes_of s = receive_from-bytes_of s.incoming

feed-length :
    (p : Parser) (bytes : Bytes) → length (feed p bytes).1.buffer ≤ length p.buffer + length bytes
unfolding feed
feed-length p bytes = let long = length-append p.buffer bytes in ground (arith, long)

-- What a receive leaves of the socket.
received-InOrder :
    (w : Elsewhere) (sh : Shared) (c : Connection)
    → InOrder w (c, sh)
    → InOrder w (record c { socket = (try_receive c.socket).1 }, sh)
unfolding try_receive
received-InOrder w sh c order =
    let less = try_receive-bytes_of c.socket in
    changed (phase_of c.strand_running) w sh c sh.stats c.parser (try_receive c.socket).1 c.output
      c.interest c.closing c.read_closed c.last_activity (λ h. (h, refl)) (omega (arith, less))
      order

end_of_input-InOrder :
    (w : Elsewhere) (sh : Shared) (c : Connection)
    → InOrder w (c, sh)
    → InOrder w (end_of_input c, sh)
unfolding end_of_input
end_of_input-InOrder w sh c order = elim (Bool-cases (not (is_empty c.parser.buffer))) [
  | inl left ↦ rw left (refuse-InOrder w sh c order)
  | inr whole ↦ elim (Bool-cases (c.inflight == 0 && is_empty c.output)) [
    | inl idle ↦
        rw (whole, idle)
          (changed (phase_of c.strand_running) w sh c sh.stats c.parser c.socket c.output c.interest
            true true c.last_activity never (omega arith) order)
    | inr busy ↦
        rw (whole, busy)
          (changed (phase_of c.strand_running) w sh c sh.stats c.parser c.socket c.output c.interest
            c.closing true c.last_activity (λ h. (h, refl)) (omega arith) order)
  ]
]

-- The bytes of a receive are in the parser's buffer afterwards, or dropped by it.
arrived-InOrder :
    (w : Elsewhere) (sh : Shared) (c : Connection) (bytes : Bytes)
    → (try_receive c.socket).0 ≡ received bytes
    → InOrder w (c, sh)
    → InOrder w
        (arrived bytes (record c { socket = (try_receive c.socket).1 }) sh, count_in bytes sh)
unfolding bytes_received try_receive
arrived-InOrder w sh c bytes e order =
    let less = try_receive-bytes_of c.socket in
    let held = feed-length c.parser bytes in
    changed (phase_of c.strand_running) w sh c _ (feed c.parser bytes).1 (try_receive c.socket).1
      c.output c.interest c.closing c.read_closed sh.now (λ h. (h, refl))
      (omega (arith, rw e at less, held)) order

pub Receive-cases :
    (x : Receive)
    → (x ≡ Receive.would_block)
      ⊎ ((x ≡ Receive.closed) ⊎ ((x ≡ threw) ⊎ ((bytes : Bytes) × (x ≡ received bytes))))
Receive-cases Receive.would_block = inl refl
Receive-cases Receive.closed = inr (inl refl)
Receive-cases threw = inr (inr (inl refl))
Receive-cases (received bytes) = inr (inr (inr (bytes, refl)))

interest-InOrder :
    (w : Elsewhere) (c : Connection) (sh : Shared) (interest : Interest)
    → InOrder w (c, sh)
    → InOrder w (record c { interest = interest }, sh)
interest-InOrder w c sh interest order =
    changed (phase_of c.strand_running) w sh c sh.stats c.parser c.socket c.output interest
      c.closing c.read_closed c.last_activity (λ h. (h, refl)) (omega arith) order

pub either-Ensures {ℓ κ} :
    {A : Type ℓ} (P : A → Type κ) (b : Bool) (m n : Result A)
    → Ensures P m
    → Ensures P n
    → Ensures P (elim b [ true ↦ m | false ↦ n ])
either-Ensures P true m n h k = h
either-Ensures P false m n h k = k

module _ (platform : Platform) (outside : ℕ → Outside) where
  read_loop-InOrder :
      (fuel : ℕ) (w : Elsewhere) (c : Connection) (sh : Shared)
      → InOrder w (c, sh)
      → Ensures (InOrder w) (read_loop platform outside fuel c sh)
  unfolding read_loop queue_parsed_commands
  read_loop-InOrder zero w c sh order = order
  read_loop-InOrder (suc fuel) w c sh order = elim (Bool-cases (queue_saturated sh)) [
    | inl full ↦ rw (Ensures, full) order
    | inr room ↦
        let c' : Connection = record c { socket = (try_receive c.socket).1 } in
        let order' = received-InOrder w sh c order in
        elim (Receive-cases (try_receive c.socket).0) [
          | inl e ↦ rw (Ensures, room, e) order'
          | inr (inl e) ↦ rw (Ensures, room, e) (end_of_input-InOrder w sh c' order')
          | inr (inr (inl e)) ↦ rw (Ensures, room, e) tt
          | inr (inr (inr (bytes, e))) ↦
              let d = arrived bytes c' sh in
              let arrived_order = arrived-InOrder w sh c bytes e order in
              elim (Bool-cases (fed (feed c.parser bytes).0)) [
                | inl fits ↦
                    rw (Ensures, room, e, fits)
                      (bind-Ensures (InOrder w) (InOrder w)
                        (queue_parsed platform outside (suc (length d.parser.buffer)) d
                          (count_in bytes sh))
                        _
                        (queue_parsed-InOrder platform outside (suc (length d.parser.buffer)) w d
                          (count_in bytes sh) arrived_order)
                        (λ (d', sh') kept.
                          either-Ensures (InOrder w) d'.closing (ok (d', sh'))
                            (read_loop platform outside fuel d' sh') kept
                            (read_loop-InOrder fuel w d' sh' kept)))
                | inr over ↦
                    rw (Ensures, room, e, over)
                      (refuse-InOrder w (count_in bytes sh) d arrived_order)
              ]
        ]
  ]

  pub read_connection-InOrder :
      (w : Elsewhere) (c : Connection) (sh : Shared)
      → InOrder w (c, sh)
      → Ensures (InOrder w) (read_connection platform outside c sh)
  unfolding read_connection
  read_connection-InOrder w c sh order = elim (Bool-cases (c.read_closed || c.closing)) [
    | inl over ↦ rw (Ensures, over) order
    | inr reads ↦
        rw (Ensures, reads) (read_loop-InOrder (suc (length c.socket.incoming)) w c sh order)
  ]

  pub update_interest-InOrder :
      (w : Elsewhere) (c : Connection) (sh : Shared)
      → InOrder w (c, sh)
      → Ensures (InOrder w) (update_interest platform outside c sh)
  unfolding update_interest
  update_interest-InOrder w c sh order =
      let c' : Connection = record c { interest = compute_interest c sh } in
      let order' = interest-InOrder w c sh (compute_interest c sh) order in
      elim (Bool-cases ((compute_interest c sh).wants_read && not c.interest.wants_read)) [
        | inl anew ↦
            rw (Ensures, anew)
              (bind-Ensures (InOrder w) (InOrder w) (read_connection platform outside c' sh)
                (λ r. ok (with_interest r)) (read_connection-InOrder w c' sh order')
                (λ (d, sh') kept. interest-InOrder w d sh' (compute_interest d sh') kept))
        | inr same ↦ rw (Ensures, same) order'
      ]

-- ===== src/Server/Order/Sending.antt =====
-- write_connection of src/server/server.cpp, what it sends, and the order of the replies.
use distributed_data_store.Prelude.{
  Bool, ℕ, zero, suc, ◌≡◌, refl, ap, subst, true, [], ◌∷◌, ◌++◌, Bytes, length, drop,
  take-append-drop, append_assoc, ◌∙◌, arith, Bool-cases, inl, inr, ◌⊎◌,
}
use distributed_data_store.Net.Socket.{Socket, Send, accepted, send_to, delivered, try_send}
use distributed_data_store.Server.Connection.{Connection, Shared}
use distributed_data_store.Server.Traffic.{
  is_empty, written, count_out, lost, write_loop, write_connection,
}
use distributed_data_store.Server.Order.{Phase, InPhase, Ensures, Elsewhere, bytes_of}
use distributed_data_store.Server.Order.Kept.{changed, never}

try_send-incoming : (bytes : Bytes) (s : Socket) → (try_send bytes s).1.incoming ≡ s.incoming
unfolding try_send
try_send-incoming [] s = refl
try_send-incoming (b ∷ bytes) s = refl

abbrev taken : Send → ℕ
taken (accepted n) = n
taken r = 0

delivered-taken : (r : Send) (bytes : Bytes) → delivered r bytes ++ drop (taken r) bytes ≡ bytes
delivered-taken (accepted n) bytes = take-append-drop n bytes
delivered-taken Send.would_block bytes = refl
delivered-taken Send.closed bytes = refl
delivered-taken Send.threw bytes = refl

-- What a send hands to the system is what it takes off the output.
try_send-taken :
    (bytes : Bytes) (s : Socket)
    → (try_send bytes s).1.sent ++ drop (taken (try_send bytes s).0) bytes ≡ s.sent ++ bytes
unfolding try_send
try_send-taken [] s = refl
try_send-taken (b ∷ bytes) s =
    let r = (send_to s.outgoing).0 in
    append_assoc s.sent (delivered r (b ∷ bytes)) (drop (taken r) (b ∷ bytes))
    ∙ ap (λ (x : Bytes). s.sent ++ x) (delivered-taken r (b ∷ bytes))

-- After a send that took nothing, or took n + 1 bytes, or failed.
sent-InPhase :
    (p : Phase) (w : Elsewhere) (sh : Shared) (c : Connection)
    → taken (try_send c.output c.socket).0 ≡ 0
    → InPhase p w (c, sh)
    → InPhase p w (record c { socket = (try_send c.output c.socket).1 }, sh)
sent-InPhase p w sh c nothing order =
    let same = ap bytes_of (try_send-incoming c.output c.socket) in
    let kept : (try_send c.output c.socket).1.sent ++ c.output ≡ c.socket.sent ++ c.output =
      subst
        (λ (n : ℕ).
          (try_send c.output c.socket).1.sent ++ drop n c.output ≡ c.socket.sent ++ c.output)
        nothing (try_send-taken c.output c.socket) in
    changed p w sh c sh.stats c.parser (try_send c.output c.socket).1 c.output c.interest c.closing
      c.read_closed c.last_activity (λ h. (h, kept)) (omega (arith, same)) order

lost-InPhase :
    (p : Phase) (w : Elsewhere) (sh : Shared) (c : Connection)
    → InPhase p w (c, sh)
    → InPhase p w (lost (record c { socket = (try_send c.output c.socket).1 }), sh)
lost-InPhase p w sh c order =
    let same = ap bytes_of (try_send-incoming c.output c.socket) in
    changed p w sh c sh.stats c.parser (try_send c.output c.socket).1 [] c.interest true
      c.read_closed c.last_activity never (omega (arith, same)) order

written-InPhase :
    (p : Phase) (w : Elsewhere) (sh : Shared) (c : Connection) (n : ℕ)
    → (try_send c.output c.socket).0 ≡ accepted n
    → InPhase p w (c, sh)
    → InPhase p w
        (written n (record c { socket = (try_send c.output c.socket).1 }) sh, count_out n sh)
written-InPhase p w sh c n e order =
    let same = ap bytes_of (try_send-incoming c.output c.socket) in
    let kept : (try_send c.output c.socket).1.sent ++ drop n c.output ≡ c.socket.sent ++ c.output =
      subst
        (λ (r : Send).
          (try_send c.output c.socket).1.sent ++ drop (taken r) c.output
          ≡ c.socket.sent ++ c.output)
        e (try_send-taken c.output c.socket) in
    changed p w sh c _ c.parser (try_send c.output c.socket).1 (drop n c.output) c.interest
      c.closing c.read_closed sh.now (λ h. (h, kept)) (omega (arith, same)) order

pub Send-cases :
    (x : Send)
    → (x ≡ Send.would_block)
      ⊎ ((x ≡ Send.closed)
          ⊎ ((x ≡ Send.threw) ⊎ ((x ≡ accepted 0) ⊎ ((n : ℕ) × (x ≡ accepted (suc n))))))
Send-cases Send.would_block = inl refl
Send-cases Send.closed = inr (inl refl)
Send-cases Send.threw = inr (inr (inl refl))
Send-cases (accepted zero) = inr (inr (inr (inl refl)))
Send-cases (accepted (suc n)) = inr (inr (inr (inr (n, refl))))

write_loop-InPhase :
    (fuel : ℕ) (p : Phase) (w : Elsewhere) (c : Connection) (sh : Shared)
    → InPhase p w (c, sh)
    → Ensures (InPhase p w) (write_loop fuel c sh)
unfolding write_loop
write_loop-InPhase zero p w c sh order = order
write_loop-InPhase (suc fuel) p w c sh order = elim (Bool-cases (is_empty c.output)) [
  | inl nothing ↦ rw (Ensures, nothing) order
  | inr some_bytes ↦ elim (Send-cases (try_send c.output c.socket).0) [
    | inl e ↦ rw (Ensures, some_bytes, e) (sent-InPhase p w sh c (ap taken e) order)
    | inr (inl e) ↦ rw (Ensures, some_bytes, e) (lost-InPhase p w sh c order)
    | inr (inr (inl e)) ↦ rw (Ensures, some_bytes, e) tt
    | inr (inr (inr (inl e))) ↦ rw (Ensures, some_bytes, e) (lost-InPhase p w sh c order)
    | inr (inr (inr (inr (n, e)))) ↦
        let c' : Connection = record c { socket = (try_send c.output c.socket).1 } in
        rw (Ensures, some_bytes, e)
          (write_loop-InPhase fuel p w (written (suc n) c' sh) (count_out (suc n) sh)
            (written-InPhase p w sh c (suc n) e order))
  ]
]

pub write_connection-InPhase :
    (p : Phase) (w : Elsewhere) (c : Connection) (sh : Shared)
    → InPhase p w (c, sh)
    → Ensures (InPhase p w) (write_connection c sh)
unfolding write_connection
write_connection-InPhase p w c sh order =
    write_loop-InPhase (suc (length c.socket.outgoing)) p w c sh order

-- A send does not touch the strand.
write_loop-strand :
    (fuel : ℕ) (b : Bool) (c : Connection) (sh : Shared)
    → c.strand_running ≡ b
    → Ensures (λ (r : Connection × Shared). r.0.strand_running ≡ b) (write_loop fuel c sh)
unfolding write_loop
write_loop-strand zero b c sh h = h
write_loop-strand (suc fuel) b c sh h = elim (Bool-cases (is_empty c.output)) [
  | inl nothing ↦ rw (Ensures, nothing) h
  | inr some_bytes ↦ elim (Send-cases (try_send c.output c.socket).0) [
    | inl e ↦ rw (Ensures, some_bytes, e) h
    | inr (inl e) ↦ rw (Ensures, some_bytes, e) h
    | inr (inr (inl e)) ↦ rw (Ensures, some_bytes, e) tt
    | inr (inr (inr (inl e))) ↦ rw (Ensures, some_bytes, e) h
    | inr (inr (inr (inr (n, e)))) ↦
        let c' : Connection = record c { socket = (try_send c.output c.socket).1 } in
        rw (Ensures, some_bytes, e)
          (write_loop-strand fuel b (written (suc n) c' sh) (count_out (suc n) sh) h)
  ]
]

pub write_connection-strand :
    (c : Connection) (sh : Shared)
    → Ensures
        (λ (r : Connection × Shared). r.0.strand_running ≡ c.strand_running)
        (write_connection c sh)
unfolding write_connection
write_connection-strand c sh =
    write_loop-strand (suc (length c.socket.outgoing)) c.strand_running c sh refl

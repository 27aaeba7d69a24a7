-- ===== src/Server/Order/Parsing.antt =====
-- queue_parsed_commands of src/server/server.cpp, and the order of the replies.
use distributed_data_store.Prelude.{
  ℕ, zero, suc, ◌<◌, ◌≤◌, ◌≡◌, refl, ◌&&◌, length, length-drop, ltb, arith, Bool-cases, inl, inr,
  ◌⊎◌,
}
use distributed_data_store.Store.{Platform}
use distributed_data_store.Protocol.RespValue.{RespValue}
use distributed_data_store.Protocol.Parser.{
  Parser, ValueResult, complete, stopped, incomplete, malformed, oversized, too_deep, next,
  take_value, parse_value,
}
use distributed_data_store.Protocol.Parser.Progress.{IsWithin, parse_value-IsWithin}
use distributed_data_store.Commands.Registry.{Outside}
use distributed_data_store.Server.Connection.{
  Connection, Shared, Parsed, wait, refused, requested, parsed_request, queue_saturated,
  enqueue_command, queue_parsed,
}
use distributed_data_store.Server.Order.{phase_of, Ensures, bind-Ensures, Elsewhere, InOrder}
use distributed_data_store.Server.Order.Launch.{enqueue_command-InOrder}
use distributed_data_store.Server.Order.Kept.{few_of, changed, refuse-InOrder}

-- A value takes at least a byte off the buffer.
abbrev pub Shrinks : ℕ → ValueResult × Parser → Type 0
Shrinks n (complete value consumed, p) = length p.buffer < n
Shrinks n (stopped status message, p) = length p.buffer ≤ n

take_value-Shrinks :
    (p : Parser) (r : ValueResult)
    → IsWithin (length p.buffer) r
    → Shrinks (length p.buffer) (take_value p r)
unfolding take_value
take_value-Shrinks p (complete value consumed) (some_bytes, within) =
    let shorter = length-drop consumed p.buffer in omega (arith, shorter, some_bytes, within)
take_value-Shrinks p (stopped status message) h = omega arith

pub next-Shrinks : (p : Parser) → Shrinks (length p.buffer) (next p)
unfolding next
next-Shrinks p = elim (Bool-cases p.buffer_oversized) [
  | inl over ↦ simp over (omega arith)
  | inr small ↦ simp small (
      take_value-Shrinks p (parse_value p.limits p.limits.max_depth p.buffer)
        (parse_value-IsWithin p.limits p.limits.max_depth p.buffer))
]

shrunk : (n : ℕ) (r : ValueResult × Parser) → Shrinks n r → length r.1.buffer ≤ n
shrunk n (complete value consumed, p) h = omega (arith, h)
shrunk n (stopped status message, p) h = h

pub parsed_request-shrunk :
    (n : ℕ) (r : ValueResult × Parser) (request : RespValue)
    → parsed_request r.0 ≡ requested request
    → Shrinks n r
    → length r.1.buffer < n
unfolding parsed_request
parsed_request-shrunk n (complete value consumed, p) request e h = h
parsed_request-shrunk n (stopped incomplete message, p) request e h = cc
parsed_request-shrunk n (stopped malformed message, p) request e h = cc
parsed_request-shrunk n (stopped oversized message, p) request e h = cc
parsed_request-shrunk n (stopped too_deep message, p) request e h = cc

pub Parsed-cases :
    (x : Parsed) → (x ≡ wait) ⊎ ((x ≡ refused) ⊎ ((r : RespValue) × (x ≡ requested r)))
Parsed-cases wait = inl refl
Parsed-cases refused = inr (inl refl)
Parsed-cases (requested r) = inr (inr (r, refl))

next-InOrder :
    (w : Elsewhere) (sh : Shared) (c : Connection)
    → InOrder w (c, sh)
    → InOrder w (record c { parser = (next c.parser).1 }, sh)
next-InOrder w sh c order =
    let less = shrunk (length c.parser.buffer) (next c.parser) (next-Shrinks c.parser) in
    changed (phase_of c.strand_running) w sh c sh.stats (next c.parser).1 c.socket c.output
      c.interest c.closing c.read_closed c.last_activity (λ h. (h, refl)) (omega (arith, less))
      order

module _ (platform : Platform) (outside : ℕ → Outside) where
  pub queue_parsed-InOrder :
      (fuel : ℕ) (w : Elsewhere) (c : Connection) (sh : Shared)
      → InOrder w (c, sh)
      → Ensures (InOrder w) (queue_parsed platform outside fuel c sh)
  unfolding queue_parsed
  queue_parsed-InOrder zero w c sh order = order
  queue_parsed-InOrder (suc fuel) w c sh order =
      elim (Bool-cases (queue_saturated sh && ltb 0 c.inflight)) [
        | inl full ↦ rw (Ensures, full) order
        | inr room ↦
            let c' : Connection = record c { parser = (next c.parser).1 } in
            let order' = next-InOrder w sh c order in
            elim (Parsed-cases (parsed_request (next c.parser).0)) [
              | inl e ↦ rw (Ensures, room, e) order'
              | inr (inl e) ↦ rw (Ensures, room, e) (refuse-InOrder w sh c' order')
              | inr (inr (request, e)) ↦
                  let shorter =
                    parsed_request-shrunk (length c.parser.buffer) (next c.parser) request e
                      (next-Shrinks c.parser) in
                  let few = few_of (phase_of c.strand_running) w sh c order in
                  rw (Ensures, room, e)
                    (bind-Ensures (InOrder w) (InOrder w)
                      (enqueue_command platform outside request c' sh)
                      (λ (d, sh'). queue_parsed platform outside fuel d sh')
                      (enqueue_command-InOrder platform outside w request c' sh order'
                        (omega (arith, shorter, few)))
                      (λ (d, sh') kept. queue_parsed-InOrder fuel w d sh' kept))
            ]
      ]

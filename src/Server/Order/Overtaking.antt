-- ===== src/Server/Order/Overtaking.antt =====
-- A malformed request behind one that is on its way.
use distributed_data_store.Prelude.{
  ℕ, ◌<◌, ◌≡◌, refl, sym, ap, ◌∙◌, Bool, true, false, ◌&&◌, ◌++◌, append_assoc, Bytes, ltb,
}
use distributed_data_store.Store.{Platform}
use distributed_data_store.Protocol.Parser.{next}
use distributed_data_store.Persistence.Result.{ok}
use distributed_data_store.Commands.Registry.{Outside}
use distributed_data_store.Server.Connection.{
  Connection, refused, parsed_request, protocol_error, refuse, queue_saturated, queue_parsed,
  queue_parsed_commands,
}
use distributed_data_store.Server.Order.{payloads}
use distributed_data_store.Server.Order.Runs.{World, Reach, IsNew}
use distributed_data_store.Server.Order.Steps.{Reach-IsReplied}

-- The connection is given up, and the error stands behind the replies so far, while the requests in
-- flight have none.
pub record IsOvertaken (after : Connection) (replies : Bytes) : Type 0 where
  pub transcript : after.socket.sent ++ after.output ≡ replies ++ protocol_error
  pub waiting : 0 < after.inflight
  pub given_up : after.closing ≡ true

module _ (platform : Platform) (outside : ℕ → Outside) where
  -- A malformed request overtakes the replies to those before it: in any state that a connection
  -- reaches from its start and in which it is not given up, has requests in flight, the pool has
  -- room and the parser finds something that is no request, queue_parsed_commands puts the
  -- protocol error directly behind the replies so far and gives the connection up, while the
  -- requests in flight have no reply yet.
  pub queue_parsed_commands-IsOvertaken :
      {v u : World}
      → IsNew v
      → Reach platform outside v u
      → u.connection.closing ≡ false
      → 0 < u.connection.inflight
      → queue_saturated u.shared ≡ false
      → parsed_request (next u.connection.parser).0 ≡ refused
      → (d : Connection) × (queue_parsed_commands platform outside u.connection u.shared
          ≡ ok (d, u.shared))
        × IsOvertaken d (payloads u.places.log)
  unfolding queue_parsed_commands queue_parsed refuse
  queue_parsed_commands-IsOvertaken {v} {u} new r going some_left room malformed =
      let c = u.connection in
      let so_far = Reach-IsReplied platform outside {v = v} {u = u} new r going in
      let goes_on : (queue_saturated u.shared && ltb 0 c.inflight) ≡ false =
        ap (λ (b : Bool). b && ltb 0 c.inflight) room in
      (
        refuse (record c { parser = (next c.parser).1 }),
        rw (queue_parsed, goes_on, malformed) refl,
        record {
          transcript =
              sym (append_assoc c.socket.sent c.output protocol_error)
              ∙ ap (λ (x : Bytes). x ++ protocol_error) so_far.transcript;
          waiting = some_left;
          given_up = refl;
        },
      )

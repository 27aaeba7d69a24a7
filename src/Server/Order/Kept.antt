-- ===== src/Server/Order/Kept.antt =====
-- What the loops of src/server/server.cpp change beside the queue, and the order of the replies.
use distributed_data_store.Prelude.{
  ◌+◌, ◌^◌, ◌<◌, ◌≤◌, ◌≡◌, sym, subst, Bool, true, false, [], ◌++◌, Bytes, length, arith, ℤ,
}
use distributed_data_store.Protocol.Parser.{Parser}
use distributed_data_store.Net.Socket.{Socket}
use distributed_data_store.Server.Stats.{Stats}
use distributed_data_store.Server.Connection.{Connection, Interest, Shared, refuse}
use distributed_data_store.Server.Order.{
  Elsewhere, outstanding, bytes_of, to_come, Phase, InPhase, phase_of, ready, resting, running,
  InOrder, IsReplied, Answered,
}

pub few_of :
    (p : Phase) (w : Elsewhere) (sh : Shared) (c : Connection)
    → InPhase p w (c, sh)
    → c.next_request_seq + to_come c < 2 ^ 64
few_of ready w sh c order = order.few
few_of running w sh c order = order.few
few_of resting w sh c (order, e) = order.few

kept_replies :
    (w : Elsewhere) (c : Connection) (socket : Socket) (output : Bytes) (closing : Bool)
    → (closing ≡ false → (c.closing ≡ false) × (socket.sent ++ output ≡ c.socket.sent ++ c.output))
    → (c.closing ≡ false → Answered w c)
    → closing ≡ false
    → (c.inflight + c.next_response_seq ≡ c.next_request_seq)
      × ((c.pending_responses ≡ []) × IsReplied w.log c.next_response_seq (socket.sent ++ output))
kept_replies w c socket output closing still answered going =
    let (before, same) = still going in
    let (all, (none_left, replied)) = answered before in
    (all, (none_left, subst (IsReplied w.log c.next_response_seq) (sym same) replied))

-- What the loops change beside the queue: the connection stays in order.
pub changed :
    (p : Phase) (w : Elsewhere) (sh : Shared) (c : Connection) (stats : Stats) (parser : Parser)
    (socket : Socket) (output : Bytes) (interest : Interest) (closing read_closed : Bool) (time : ℤ)
    → (closing ≡ false → (c.closing ≡ false) × (socket.sent ++ output ≡ c.socket.sent ++ c.output))
    → length parser.buffer + bytes_of socket.incoming ≤ to_come c
    → InPhase p w (c, sh)
    → InPhase p w (
      record c {
        parser = parser;
        socket = socket;
        output = output;
        interest = interest;
        closing = closing;
        read_closed = read_closed;
        last_activity = time;
      },
      record sh { stats = stats },
    )
unfolding outstanding
changed running w sh c stats parser socket output interest closing read_closed time still less
      order =
    record {
      one_out = order.one_out;
      counted = order.counted;
      numbered = order.numbered;
      bounded = order.bounded;
      answered = kept_replies w c socket output closing still order.answered;
      few = let few = order.few in omega (arith, less, few);
    }
changed ready w sh c stats parser socket output interest closing read_closed time still less order =
    record {
      none_out = order.none_out;
      counted = order.counted;
      numbered = order.numbered;
      bounded = order.bounded;
      answered = kept_replies w c socket output closing still order.answered;
      few = let few = order.few in omega (arith, less, few);
    }
changed resting w sh c stats parser socket output interest closing read_closed time still less
      (order, e) =
    (
      record {
        none_out = order.none_out;
        counted = order.counted;
        numbered = order.numbered;
        bounded = order.bounded;
        answered = kept_replies w c socket output closing still order.answered;
        few = let few = order.few in omega (arith, less, few);
      },
      e,
    )

pub never {ℓ} : {P : Type ℓ} → true ≡ false → P
never h = cc

pub refuse-InOrder :
    (w : Elsewhere) (sh : Shared) (c : Connection) → InOrder w (c, sh) → InOrder w (refuse c, sh)
unfolding refuse
refuse-InOrder w sh c order =
    changed (phase_of c.strand_running) w sh c sh.stats c.parser c.socket _ c.interest true true
      c.last_activity never (omega arith) order

-- ===== src/Apps/Cli/Exchange.antt =====
-- The request of apps/novacache-cli.cpp as the server reads it, and the loop that receives the reply.
use distributed_data_store.Prelude.{
  ℕ, ◌≤◌, ◌<◌, ◌≡◌, refl, sym, ap, ◌∙◌, true, false, none, some, ◌⊎◌, inl, inr, List, [], ◌∷◌, ◌++◌,
  append_assoc, append-nil, Bytes, length, length-append, arith, subst,
}
use distributed_data_store.Protocol.RespValue.{RespValue}
use distributed_data_store.Protocol.Encoder.{encode}
use distributed_data_store.Protocol.Parser.{
  ParserLimits, Parser, new_parser, ValueResult, complete, stopped, ParseStatus, incomplete,
  malformed, oversized, too_deep, next, feed, take_value, parse_value,
}
use distributed_data_store.Protocol.Parser.Buffer.{IsAccepted, feed-accepted, next-flag, parsed}
use distributed_data_store.Protocol.Parser.Extension.{Keeps}
use distributed_data_store.Protocol.Parser.Extension.Values.{parse_value-append}
use distributed_data_store.Protocol.Parser.RoundTrip.{Fits, parse_value-encode}
use distributed_data_store.Commands.Registry.{bulk_items, extract_arguments}
use distributed_data_store.Server.Connection.{
  is_command_request, all_bulk, requested, parsed_request,
}
use distributed_data_store.Apps.Cli.{
  bulk_list, make_request, render, status_of, ends, feed_failed, Outcome, exchange,
}

bulk_items-bulk_list : (arguments : List Bytes) → bulk_items (bulk_list arguments) ≡ some arguments
unfolding bulk_items
bulk_items-bulk_list [] = refl
bulk_items-bulk_list (a ∷ arguments) = rw (bulk_items, bulk_items-bulk_list arguments) refl

all_bulk-bulk_list : (arguments : List Bytes) → all_bulk (bulk_list arguments) ≡ true
unfolding all_bulk
all_bulk-bulk_list [] = refl
all_bulk-bulk_list (a ∷ arguments) = all_bulk-bulk_list arguments

-- x
pub make_request-extract_arguments :
    (argument : Bytes) (arguments : List Bytes)
    → (is_command_request (make_request (argument ∷ arguments)) ≡ true)
      × (extract_arguments (make_request (argument ∷ arguments)) ≡ some (argument ∷ arguments))
unfolding is_command_request extract_arguments make_request
make_request-extract_arguments argument arguments =
    (all_bulk-bulk_list (argument ∷ arguments), bulk_items-bulk_list (argument ∷ arguments))

abbrev pub joined : List Bytes → Bytes
joined [] = []
joined (chunk ∷ chunks) = chunk ++ joined chunks

-- A receive before the end of the stream gives a byte at least.
abbrev pub NoneEmpty : List Bytes → Type 0
NoneEmpty [] = Unit
NoneEmpty (chunk ∷ chunks) = (0 < length chunk) × NoneEmpty chunks

kept_complete :
    (r : ValueResult) (v : RespValue) (n : ℕ)
    → Keeps r (complete v n)
    → (r ≡ complete v n) ⊎ ((message : _) × (r ≡ stopped incomplete message))
kept_complete (complete w m) v n h = inl (sym h)
kept_complete (stopped incomplete message) v n h = inr (message, refl)
kept_complete (stopped malformed message) v n h = inl (sym h)
kept_complete (stopped oversized message) v n h = inl (sym h)
kept_complete (stopped too_deep message) v n h = inl (sym h)

-- An exchange ends as soon as the parser does.
exchange-ends :
    (chunks : List Bytes) (p : Parser) (outcome : Outcome)
    → ends (next p).0 ≡ some outcome
    → exchange chunks p ≡ outcome
unfolding exchange
exchange-ends [] p outcome h = rw (exchange, h) refl
exchange-ends ([] ∷ chunks) p outcome h = rw (exchange, h) refl
exchange-ends ((b ∷ chunk) ∷ chunks) p outcome h = rw (exchange, h) refl

exchange-goes_on :
    (chunk : Bytes) (chunks : List Bytes) (p : Parser)
    → 0 < length chunk
    → (message : _) → next p ≡ (stopped incomplete message, p)
    → IsAccepted p chunk
    → exchange (chunk ∷ chunks) p ≡ exchange chunks (record p { buffer = p.buffer ++ chunk })
unfolding exchange
exchange-goes_on [] chunks p some_bytes message h accepted = absurd (omega (arith, some_bytes))
exchange-goes_on (b ∷ chunk) chunks p some_bytes message h accepted =
    let goes : ends (next p).0 ≡ none = ap (λ (r : ValueResult × Parser). ends r.0) h in
    let fed : feed (next p).1 (b ∷ chunk)
        ≡ (incomplete, record p { buffer = p.buffer ++ b ∷ chunk }) =
      ap (λ (r : ValueResult × Parser). feed r.1 (b ∷ chunk)) h
      ∙ feed-accepted p (b ∷ chunk) accepted in
    let went : feed_failed (feed (next p).1 (b ∷ chunk)).0 ≡ false =
      ap (λ (r : ParseStatus × Parser). feed_failed r.0) fed in
    rw (exchange, goes, went) (ap (λ (r : ParseStatus × Parser). exchange chunks r.1) fed)

next-parsed :
    (p : Parser) (v : RespValue) (n : ℕ)
    → p.buffer_oversized ≡ false
    → parsed p ≡ complete v n
    → (next p).0 ≡ complete v n
unfolding take_value
next-parsed p v n flag h = rw (next-flag p flag, h) refl

next-incomplete :
    (p : Parser) (message : _)
    → p.buffer_oversized ≡ false
    → parsed p ≡ stopped incomplete message
    → next p ≡ (stopped incomplete message, p)
unfolding take_value
next-incomplete p message flag h = rw (next-flag p flag, h) refl

-- In whatever pieces a reply comes, none of them empty, the client prints it and leaves with its
-- status: if the parser's buffer and the pieces together are the encoding of a value and any bytes
-- behind it, within the parser's limits, then the exchange ends with what `render` gives for the
-- value.
pub exchange-rendered :
    (chunks : List Bytes) (p : Parser) (v : RespValue) (bytes more : Bytes)
    → Fits p.limits p.limits.max_depth v
    → encode v ≡ some bytes
    → p.buffer_oversized ≡ false
    → NoneEmpty chunks
    → p.buffer ++ joined chunks ≡ bytes ++ more
    → length (bytes ++ more) ≤ p.limits.max_buffer_size
    → exchange chunks p ≡ status_of (render v 0)
exchange-rendered [] p v bytes more fits encoded flag full same small =
    let found =
      ap (parse_value p.limits p.limits.max_depth) (sym (append-nil p.buffer) ∙ same)
      ∙ parse_value-encode p.limits p.limits.max_depth v bytes more fits encoded in
    exchange-ends [] p (status_of (render v 0))
      (ap ends (next-parsed p v (length bytes) flag found))
exchange-rendered (chunk ∷ chunks) p v bytes more fits encoded flag (some_bytes, full) same small =
    let whole : parse_value p.limits p.limits.max_depth (p.buffer ++ joined (chunk ∷ chunks))
        ≡ complete v (length bytes) =
      ap (parse_value p.limits p.limits.max_depth) same
      ∙ parse_value-encode p.limits p.limits.max_depth v bytes more fits encoded in
    let keeps = parse_value-append p.limits p.limits.max_depth p.buffer (joined (chunk ∷ chunks)) in
    let long = ap length same in
    let parts = length-append p.buffer (chunk ++ joined chunks) in
    let parts' = length-append chunk (joined chunks) in
    elim (kept_complete (parsed p) v (length bytes) (subst (Keeps (parsed p)) whole keeps)) [
      | inl found ↦
          exchange-ends (chunk ∷ chunks) p (status_of (render v 0))
            (ap ends (next-parsed p v (length bytes) flag found))
      | inr (message, waits) ↦
          exchange-goes_on chunk chunks p some_bytes message (next-incomplete p message flag waits)
            (record { flag = flag; room = omega (arith, long, parts, parts', small) })
          ∙ exchange-rendered chunks (record p { buffer = p.buffer ++ chunk }) v bytes more fits
              encoded flag full (append_assoc p.buffer chunk (joined chunks) ∙ same) small
    ]

-- What the client sends arrives: if the request made of one argument or more is within the limits
-- and has an encoding that fits the buffer, then a new connection's parser finds in it exactly
-- this request, as a command, and the registry extracts the arguments from it.
pub make_request-requested :
    (limits : ParserLimits) (argument : Bytes) (arguments : List Bytes) (bytes : Bytes)
    → Fits limits limits.max_depth (make_request (argument ∷ arguments))
    → encode (make_request (argument ∷ arguments)) ≡ some bytes
    → length bytes ≤ limits.max_buffer_size
    → (parsed_request (next (feed (new_parser limits) bytes).1).0
        ≡ requested (make_request (argument ∷ arguments)))
      × (extract_arguments (make_request (argument ∷ arguments)) ≡ some (argument ∷ arguments))
unfolding parsed_request
make_request-requested limits argument arguments bytes fits encoded small =
    let request = make_request (argument ∷ arguments) in
    let p = new_parser limits in
    let fed = feed-accepted p bytes (record { flag = refl; room = omega (arith, small) }) in
    let found : parsed (record p { buffer = bytes }) ≡ complete request (length bytes) =
      ap (parse_value limits limits.max_depth) (sym (append-nil bytes))
      ∙ parse_value-encode limits limits.max_depth request bytes [] fits encoded in
    let (is_command, extracted) = make_request-extract_arguments argument arguments in
    let result : (next (feed p bytes).1).0 ≡ complete request (length bytes) =
      ap (λ (r : ParseStatus × Parser). (next r.1).0) fed
      ∙ next-parsed (record p { buffer = bytes }) request (length bytes) refl found in
    (rw (result, is_command) refl, extracted)

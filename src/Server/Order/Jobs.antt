-- ===== src/Server/Order/Jobs.antt =====
-- The job of src/server/server.cpp on a worker, and its completion.
use distributed_data_store.Prelude.{
  ℕ, ◌+◌, ◌≡◌, refl, subst, Bool, false, Option, some, none, [], ◌∷◌, ◌++◌, Bytes, length, ◌==◌,
  Bool-cases, inl, inr, ap,
}
use distributed_data_store.Store.{Platform}
use distributed_data_store.Protocol.RespValue.{
  RespValue, simple, error, integer, bulk, null_array, array, count,
}
use distributed_data_store.Protocol.Parser.{ParserLimits, complete, parse_value}
use distributed_data_store.Protocol.Parser.RoundTrip.{Fits, parse_value-encode}
use distributed_data_store.Protocol.Encoder.{
  encode, encode_items, append_line, has_line_break, both, crlf,
}
use distributed_data_store.Protocol.Decimal.{append_size}
use distributed_data_store.Persistence.Result.{Result, ok, err}
use distributed_data_store.Commands.Registry.{Outside, Reply, execute}
use distributed_data_store.Commands.Registry.Encodable.{AllEncodable, execute-Encodable}
use distributed_data_store.Server.Connection.{
  Job, Completion, Shared, response_is_error, deliver, finish_job, run_job, context_of,
}

-- The first byte of an encoded error, and of no other reply.
abbrev pub starts_error : Bytes → Bool
starts_error [] = false
starts_error (c ∷ rest) = c == b'-'

-- The reply, if there is one, is within the limits of a parser.
abbrev pub FitsReply : ParserLimits → ℕ → Reply → Type 0
FitsReply limits levels (ok response, context) = Fits limits levels response
FitsReply limits levels (err e, context) = Unit

-- The completion of a job.
abbrev pub completion : Job → Bytes → Completion
completion job payload = record {
  connection_id = job.connection_id;
  sequence = job.item.sequence;
  payload = payload;
  is_error = starts_error payload;
}

-- After a reply: a payload that a client reads as that reply, whatever follows it, in one
-- completion behind the others. After an exception: that exception.
abbrev pub Finished : ParserLimits → ℕ → Bytes → Job → Shared → Reply → Result Shared → Type 0
Finished limits levels more job sh (ok response, context) result =
    (payload : Bytes) × (parse_value limits levels (payload ++ more)
      ≡ complete response (length payload))
    × (result
        ≡ ok (record sh {
          store = context.store;
          persistence = context.persistence;
          completions = sh.completions ++ completion job payload ∷ [];
          jobs_run = sh.jobs_run + 1;
        }))
Finished limits levels more job sh (err e, context) result = result ≡ err e

abbrev some_starts : Option Bytes → Bool
some_starts none = false
some_starts (some payload) = starts_error payload

some-starts :
    (bytes payload : Bytes) → some bytes ≡ some payload → starts_error bytes ≡ starts_error payload
some-starts bytes payload e = ap some_starts e

line-starts :
    (c : ℕ) (value payload : Bytes)
    → append_line (c ∷ []) value ≡ some payload
    → (c == b'-') ≡ starts_error payload
unfolding append_line
line-starts c value payload e = elim (Bool-cases (has_line_break value)) [
  | inl broken ↦ let bad = rw broken at e in cc
  | inr whole ↦ some-starts (c ∷ (value ++ crlf)) payload (rw whole at e)
]

both-starts :
    (front payload : Bytes) (rest : Option Bytes)
    → both (some (b'*' ∷ front)) rest ≡ some payload
    → false ≡ starts_error payload
both-starts front payload none e = cc
both-starts front payload (some back) e = some-starts (b'*' ∷ (front ++ back)) payload e

error-starts :
    (v : RespValue) (payload : Bytes)
    → encode v ≡ some payload
    → response_is_error v ≡ starts_error payload
unfolding encode response_is_error
error-starts (simple value) payload e = line-starts b'+' value payload e
error-starts (error value) payload e = line-starts b'-' value payload e
error-starts (integer value) payload e = some-starts _ payload e
error-starts (bulk none) payload e = some-starts _ payload e
error-starts (bulk (some value)) payload e = some-starts _ payload e
error-starts null_array payload e = some-starts _ payload e
error-starts (array items) payload e =
    both-starts (append_size (count items) ++ crlf) payload (encode_items items) e

module _ (platform : Platform) (outside : ℕ → Outside) where
  -- When `execute` gives a reply within the limits of a parser, the job puts one completion behind
  -- the others, with its connection's id and its sequence number, whose payload that parser reads
  -- as exactly this reply, whatever follows it, and which is an error if and only if its first
  -- byte is `-`; it leaves the store and the engine that `execute` gives. When `execute` throws,
  -- the job throws the same exception.
  pub run_job-Finished :
      (limits : ParserLimits) (levels : ℕ) (more : Bytes) (job : Job) (sh : Shared) (r : Reply)
      → execute platform (outside sh.jobs_run) job.item.request (context_of sh) ≡ some r
      → FitsReply limits levels r
      → Finished limits levels more job sh r (run_job platform outside job sh)
  unfolding run_job finish_job deliver
  run_job-Finished limits levels more job sh (ok response, context) e fits =
      let encodable =
        subst AllEncodable e
          (execute-Encodable platform (outside sh.jobs_run) job.item.request (context_of sh)) in
      let (payload, encoded) = encodable in
      (
        payload,
        parse_value-encode limits levels response payload more fits encoded,
        rw (e, encoded, error-starts response payload encoded),
      )
  run_job-Finished limits levels more job sh (err x, context) e fits = rw e refl

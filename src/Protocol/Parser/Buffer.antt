-- ===== src/Protocol/Parser/Buffer.antt =====
-- `feed` and `next` of src/protocol/parser.cpp, and the buffer.
use distributed_data_store.Prelude.{
  ℕ, ◌+◌, ◌-◌, ◌≤◌, ◌≡◌, false, ◌++◌, Bytes, length, drop, length-drop, length-append,
  drop-append_within, ltb, arith, refl, ap, sym, ◌∙◌,
}
use distributed_data_store.Protocol.RespValue.{RespValue}
use distributed_data_store.Protocol.Parser.{
  incomplete, ValueResult, complete, stopped, parse_value, Parser, feed, take_value, next,
}
use distributed_data_store.Protocol.Parser.Progress.{parse_value-IsWithin}
use distributed_data_store.Protocol.Parser.Extension.Values.{parse_value-append}

-- The buffer is within its limit.
abbrev pub IsBounded : Parser → Type 0
IsBounded p = length p.buffer ≤ p.limits.max_buffer_size

-- If the buffer is within its limit, it still is after `feed`, whatever bytes come.
feed-IsBounded : (p : Parser) (bytes : Bytes) → IsBounded p → IsBounded (feed p bytes).1
unfolding feed
feed-IsBounded p bytes h = ground (arith, length-append p.buffer bytes)

-- Nothing is oversized, and the bytes fit.
pub record IsAccepted (p : Parser) (bytes : Bytes) : Type 0 where
  pub flag : p.buffer_oversized ≡ false
  pub room : length p.buffer + length bytes ≤ p.limits.max_buffer_size

pub feed-accepted :
    (p : Parser) (bytes : Bytes)
    → IsAccepted p bytes
    → feed p bytes ≡ (incomplete, record p { buffer = p.buffer ++ bytes })
unfolding feed
feed-accepted p bytes h =
    let small : ltb p.limits.max_buffer_size (length p.buffer) ≡ false = ground (arith, h.room) in
    let fits : ltb (p.limits.max_buffer_size - length p.buffer) (length bytes) ≡ false =
      ground (arith, h.room) in
    simp (h.flag, small, fits) refl

abbrev pub parsed : Parser → ValueResult
parsed p = parse_value p.limits p.limits.max_depth p.buffer

take_value-first : (p : Parser) (r : ValueResult) → (take_value p r).0 ≡ r
unfolding take_value
take_value-first p (complete value consumed) = refl
take_value-first p (stopped status message) = refl

pub next-flag : (p : Parser) → p.buffer_oversized ≡ false → next p ≡ take_value p (parsed p)
unfolding next
next-flag p h = simp h refl

next-complete :
    (p : Parser) (value : RespValue) (consumed : ℕ)
    → p.buffer_oversized ≡ false
    → parsed p ≡ complete value consumed
    → next p ≡ (complete value consumed, record p { buffer = drop consumed p.buffer })
unfolding take_value
next-complete p value consumed flag h = rw (next-flag p flag, h)

-- Bytes that arrive before or after a value is taken make no difference: if nothing is oversized,
-- the bytes fit the buffer and `next` finds a value in it, then `next` after `feed` gives the same
-- value and leaves the parser that `feed` after `next` gives.
pub next-feed :
    (p : Parser) (bytes : Bytes) (value : RespValue) (consumed : ℕ)
    → IsAccepted p bytes
    → (next p).0 ≡ complete value consumed
    → next (feed p bytes).1 ≡ (complete value consumed, (feed (next p).1 bytes).1)
next-feed p bytes value consumed accepted h =
    let found : parsed p ≡ complete value consumed =
      sym (take_value-first p (parsed p))
      ∙ ap (λ (x : ValueResult × Parser). x.0) (sym (next-flag p accepted.flag))
      ∙ h in
    let later = parse_value-append p.limits p.limits.max_depth p.buffer bytes in
    let within = parse_value-IsWithin p.limits p.limits.max_depth p.buffer in
    rw (
      feed-accepted p bytes accepted,
      next-complete p value consumed accepted.flag found,
      next-complete (record p { buffer = p.buffer ++ bytes }) value consumed accepted.flag
          (rw found at later),
      feed-accepted (record p { buffer = drop consumed p.buffer }) bytes
          (record {
            flag = accepted.flag;
            room = omega (arith, accepted.room, length-drop consumed p.buffer);
          }),
      drop-append_within consumed p.buffer bytes (rw found at within).1,
    )

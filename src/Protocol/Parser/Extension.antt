-- ===== src/Protocol/Parser/Extension.antt =====
-- The lines and bulk strings of src/protocol/parser.cpp, on an input and on the same with more bytes
-- behind it.
pub mod Values
use distributed_data_store.Prelude.{
  ℕ, zero, suc, ◌+◌, ◌-◌, ◌≤◌, ◌<◌, ◌≡◌, Bool, true, false, Option, none, some, [], ◌∷◌, ◌++◌,
  Bytes, length, take, drop, length-drop, length-append, take-append_within, drop-append_within,
  ltb, ◌==◌, ℤ, pos, negsuc, arith, Bool-cases, inl, inr, refl, if◌then◌else◌, ◌&&◌, ap, sym, ◌∙◌,
  append_assoc,
}
use distributed_data_store.Protocol.RespValue.{RespValue}
use distributed_data_store.Protocol.Decimal.{parse_integer}
use distributed_data_store.Protocol.Parser.{
  ParseStatus, incomplete, malformed, oversized, too_deep, ParserLimits, LineResult, line, no_line,
  ValueResult, complete, stopped, ItemsResult, items, items_stopped, after_cr, read_line, line_cons,
  next_index, parse_line_value, integer_result, parse_resp_integer, bulk_end, bulk_payload,
  bulk_result, parse_bulk, items_cons, parse_items, array_of, array_elements, array_result,
  parse_array, parse_prefix, parse_value, Parser, feed, take_value, next,
}
use distributed_data_store.Protocol.Parser.Progress.{
  IsWithinLine, IsWithin, read_line-IsWithin, parse_value-IsWithin,
}

-- The second result is the first, unless the first was incomplete.
abbrev pub KeepsLine : LineResult → LineResult → Type 0
KeepsLine (no_line incomplete message) l' = Unit
KeepsLine l l' = l' ≡ l

abbrev pub Keeps : ValueResult → ValueResult → Type 0
Keeps (stopped incomplete message) r' = Unit
Keeps r r' = r' ≡ r

abbrev pub KeepsItems : ItemsResult → ItemsResult → Type 0
KeepsItems (items_stopped incomplete message) r' = Unit
KeepsItems r r' = r' ≡ r

line_cons-KeepsLine :
    (c : ℕ) (l l' : LineResult) → KeepsLine l l' → KeepsLine (line_cons c l) (line_cons c l')
line_cons-KeepsLine c (line value) l' h = ap (line_cons c) h
line_cons-KeepsLine c (no_line incomplete message) l' h = tt
line_cons-KeepsLine c (no_line malformed message) l' h = ap (line_cons c) h
line_cons-KeepsLine c (no_line oversized message) l' h = ap (line_cons c) h
line_cons-KeepsLine c (no_line too_deep message) l' h = ap (line_cons c) h

KeepsLine-refl : (l : LineResult) → KeepsLine l l
KeepsLine-refl (line value) = refl
KeepsLine-refl (no_line incomplete message) = tt
KeepsLine-refl (no_line malformed message) = refl
KeepsLine-refl (no_line oversized message) = refl
KeepsLine-refl (no_line too_deep message) = refl

pub Keeps-refl : (r : ValueResult) → Keeps r r
Keeps-refl (complete value consumed) = refl
Keeps-refl (stopped incomplete message) = tt
Keeps-refl (stopped malformed message) = refl
Keeps-refl (stopped oversized message) = refl
Keeps-refl (stopped too_deep message) = refl

after_cr-append : (s more : Bytes) → KeepsLine (after_cr s) (after_cr (s ++ more))
unfolding after_cr
after_cr-append [] more = tt
after_cr-append (c ∷ rest) more = KeepsLine-refl (after_cr (c ∷ rest))

pub read_line-append : (s more : Bytes) → KeepsLine (read_line s) (read_line (s ++ more))
unfolding read_line
read_line-append [] more = tt
read_line-append (c ∷ rest) more = elim (Bool-cases (c == 10)) [
  | inl h ↦ rw h refl
  | inr h ↦ elim (Bool-cases (c == 13)) [
    | inl h' ↦ rw (h, h') (after_cr-append rest more)
    | inr h' ↦
        rw (h, h')
          (line_cons-KeepsLine c (read_line rest) (read_line (rest ++ more))
            (read_line-append rest more))
  ]
]

-- What depends on the line alone.
pub line-Keeps :
    (f : LineResult → ValueResult) (l l' : LineResult)
    → ((m : Prim.Native.String.String) → f (no_line incomplete m) ≡ stopped incomplete m)
    → KeepsLine l l'
    → Keeps (f l) (f l')
line-Keeps f (line value) l' stops h = rw h (Keeps-refl (f (line value)))
line-Keeps f (no_line incomplete message) l' stops h = rw (stops message) tt
line-Keeps f (no_line malformed message) l' stops h =
    rw h (Keeps-refl (f (no_line malformed message)))
line-Keeps f (no_line oversized message) l' stops h =
    rw h (Keeps-refl (f (no_line oversized message)))
line-Keeps f (no_line too_deep message) l' stops h =
    rw h (Keeps-refl (f (no_line too_deep message)))

bulk_end-append :
    (payload rest more : Bytes) (consumed : ℕ)
    → Keeps (bulk_end payload rest consumed) (bulk_end payload (rest ++ more) consumed)
unfolding bulk_end
bulk_end-append payload [] more consumed = tt
bulk_end-append payload (c ∷ []) [] consumed = Keeps-refl (bulk_end payload (c ∷ []) consumed)
bulk_end-append payload (c ∷ []) (d ∷ more) consumed = elim (Bool-cases (c == 13)) [
  | inl h ↦ rw h tt
  | inr h ↦ rw h refl
]
bulk_end-append payload (c ∷ d ∷ rest) more consumed =
    Keeps-refl (bulk_end payload (c ∷ d ∷ rest) consumed)

bulk_payload-append :
    (limits : ParserLimits) (input more : Bytes) (next size : ℕ)
    → next ≤ length input
    → Keeps (bulk_payload limits input next size) (bulk_payload limits (input ++ more) next size)
unfolding bulk_payload
bulk_payload-append limits input more next size h =
    elim (Bool-cases (ltb limits.max_bulk_size size)) [
      | inl a ↦ rw a refl
      | inr a ↦ elim (Bool-cases (ltb (length input - next) size)) [
        | inl b ↦ rw (a, b) tt
        | inr b ↦
            let fits : size ≤ length (drop next input) = ground (arith, length-drop next input) in
            let b' : ltb (length (input ++ more) - next) size ≡ false =
              ground (arith, length-drop next input, length-append input more) in
            rw
              (
                a,
                b,
                b',
                drop-append_within next input more h,
                take-append_within size (drop next input) more fits,
                drop-append_within size (drop next input) more fits,
              )
              (bulk_end-append (take size (drop next input)) (drop size (drop next input)) more
                (next + size + 2))
      ]
    ]

bulk_result-append :
    (limits : ParserLimits) (input more : Bytes) (next : ℕ) (z : Option ℤ)
    → next ≤ length input
    → Keeps (bulk_result limits input next z) (bulk_result limits (input ++ more) next z)
unfolding bulk_result
bulk_result-append limits input more next none h = refl
bulk_result-append limits input more next (some (negsuc zero)) h = refl
bulk_result-append limits input more next (some (negsuc (suc n))) h = refl
bulk_result-append limits input more next (some (pos size)) h =
    bulk_payload-append limits input more next size h

-- What depends on the line, and then on the input behind it.
pub framed-Keeps :
    (f f' : LineResult → ValueResult) (l l' : LineResult)
    → ((status : ParseStatus) (m : Prim.Native.String.String)
        → f (no_line status m) ≡ stopped status m)
    → ((status : ParseStatus) (m : Prim.Native.String.String)
        → f' (no_line status m) ≡ stopped status m)
    → ((value : Bytes) → l ≡ line value → Keeps (f (line value)) (f' (line value)))
    → KeepsLine l l'
    → Keeps (f l) (f' l')
framed-Keeps f f' (line value) l' stops stops' keeps h = rw h (keeps value refl)
framed-Keeps f f' (no_line incomplete message) l' stops stops' keeps h =
    rw (stops incomplete message) tt
framed-Keeps f f' (no_line malformed message) l' stops stops' keeps h =
    rw (h, stops malformed message, stops' malformed message) refl
framed-Keeps f f' (no_line oversized message) l' stops stops' keeps h =
    rw (h, stops oversized message, stops' oversized message) refl
framed-Keeps f f' (no_line too_deep message) l' stops stops' keeps h =
    rw (h, stops too_deep message, stops' too_deep message) refl

-- A line that was read ends within the input.
pub next_index-lt :
    (c : ℕ) (rest value : Bytes)
    → read_line rest ≡ line value
    → next_index value ≤ length (c ∷ rest)
next_index-lt c rest value h = let fits = read_line-IsWithin rest in omega (arith, rw h at fits)

pub parse_bulk-append :
    (limits : ParserLimits) (c : ℕ) (rest more : Bytes)
    → Keeps
        (parse_bulk limits (c ∷ rest) (read_line rest))
        (parse_bulk limits (c ∷ (rest ++ more)) (read_line (rest ++ more)))
unfolding parse_bulk
parse_bulk-append limits c rest more =
    framed-Keeps (parse_bulk limits (c ∷ rest)) (parse_bulk limits (c ∷ (rest ++ more)))
      (read_line rest) (read_line (rest ++ more)) (λ status m. refl) (λ status m. refl)
      (λ value h.
        bulk_result-append limits (c ∷ rest) more (next_index value) (parse_integer value)
          (next_index-lt c rest value h))
      (read_line-append rest more)

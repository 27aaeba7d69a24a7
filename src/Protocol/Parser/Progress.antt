-- ===== src/Protocol/Parser/Progress.antt =====
-- The bytes that src/protocol/parser.cpp consumes for a value.
use distributed_data_store.Prelude.{
  ℕ, zero, suc, ◌+◌, ◌-◌, ◌≤◌, ◌<◌, Bool, true, false, Option, none, some, [], ◌∷◌, Bytes, length,
  take, drop, length-drop, ltb, ◌==◌, ℤ, pos, negsuc, arith, Bool-cases, inl, inr, ◌&&◌,
}
use distributed_data_store.Protocol.RespValue.{RespValue}
use distributed_data_store.Protocol.Decimal.{parse_integer}
use distributed_data_store.Protocol.Parser.{
  ParserLimits, LineResult, line, no_line, ValueResult, complete, stopped, ItemsResult, items,
  items_stopped, after_cr, read_line, line_cons, next_index, parse_line_value, integer_result,
  parse_resp_integer, bulk_end, bulk_payload, bulk_result, parse_bulk, items_cons, parse_items,
  array_of, array_elements, array_result, parse_array, parse_prefix, parse_value,
}

-- The line and its CR LF are within `n` bytes.
abbrev pub IsWithinLine : ℕ → LineResult → Type 0
IsWithinLine n (line value) = length value + 2 ≤ n
IsWithinLine n (no_line status message) = Unit

abbrev pub IsWithin : ℕ → ValueResult → Type 0
IsWithin n (complete value consumed) = (0 < consumed) × (consumed ≤ n)
IsWithin n (stopped status message) = Unit

abbrev pub IsWithinItems : ℕ → ItemsResult → Type 0
IsWithinItems n (items values consumed) = consumed ≤ n
IsWithinItems n (items_stopped status message) = Unit

after_cr-IsWithin : (s : Bytes) → IsWithinLine (suc (length s)) (after_cr s)
unfolding after_cr
after_cr-IsWithin [] = tt
after_cr-IsWithin (c ∷ rest) = elim (Bool-cases (c == 10)) [
  | inl h ↦ rw h (omega arith)
  | inr h ↦ rw h tt
]

line_cons-IsWithin :
    (n c : ℕ) (l : LineResult) → IsWithinLine n l → IsWithinLine (suc n) (line_cons c l)
line_cons-IsWithin n c (line value) h = omega arith
line_cons-IsWithin n c (no_line status message) h = tt

pub read_line-IsWithin : (s : Bytes) → IsWithinLine (length s) (read_line s)
unfolding read_line
read_line-IsWithin [] = tt
read_line-IsWithin (c ∷ rest) = elim (Bool-cases (c == 10)) [
  | inl h ↦ rw h tt
  | inr h ↦ elim (Bool-cases (c == 13)) [
    | inl h' ↦ rw (h, h') (after_cr-IsWithin rest)
    | inr h' ↦
        rw (h, h') (line_cons-IsWithin (length rest) c (read_line rest) (read_line-IsWithin rest))
  ]
]

parse_line_value-IsWithin :
    (is_error : Bool) (n : ℕ) (l : LineResult)
    → IsWithinLine n l
    → IsWithin (suc n) (parse_line_value is_error l)
unfolding parse_line_value
parse_line_value-IsWithin true n (line value) h = (omega arith, omega arith)
parse_line_value-IsWithin false n (line value) h = (omega arith, omega arith)
parse_line_value-IsWithin true n (no_line status message) h = tt
parse_line_value-IsWithin false n (no_line status message) h = tt

integer_result-IsWithin :
    (n next : ℕ) (z : Option ℤ) → 0 < next → next ≤ n → IsWithin n (integer_result next z)
unfolding integer_result
integer_result-IsWithin n next none p h = tt
integer_result-IsWithin n next (some z) p h = (p, h)

parse_resp_integer-IsWithin :
    (n : ℕ) (l : LineResult) → IsWithinLine n l → IsWithin (suc n) (parse_resp_integer l)
unfolding parse_resp_integer
parse_resp_integer-IsWithin n (line value) h =
    integer_result-IsWithin (suc n) (next_index value) (parse_integer value) (omega arith)
      (omega arith)
parse_resp_integer-IsWithin n (no_line status message) h = tt

bulk_end-IsWithin :
    (n consumed : ℕ) (payload rest : Bytes)
    → 0 < consumed
    → (2 ≤ length rest → consumed ≤ n)
    → IsWithin n (bulk_end payload rest consumed)
unfolding bulk_end
bulk_end-IsWithin n consumed payload [] p h = tt
bulk_end-IsWithin n consumed payload (c ∷ []) p h = elim (Bool-cases (c == 13)) [
  | inl h' ↦ rw h' tt
  | inr h' ↦ rw h' tt
]
bulk_end-IsWithin n consumed payload (c ∷ d ∷ rest) p h = elim (Bool-cases (c == 13 && d == 10)) [
  | inl h' ↦ rw h' (p, h (omega arith))
  | inr h' ↦ rw h' tt
]

bulk_payload-IsWithin :
    (limits : ParserLimits) (input : Bytes) (next size : ℕ)
    → 0 < next
    → next ≤ length input
    → IsWithin (length input) (bulk_payload limits input next size)
unfolding bulk_payload
bulk_payload-IsWithin limits input next size p h =
    elim (Bool-cases (ltb limits.max_bulk_size size)) [
      | inl a ↦ rw a tt
      | inr a ↦ elim (Bool-cases (ltb (length input - next) size)) [
        | inl b ↦ rw (a, b) tt
        | inr b ↦
            rw (a, b)
              (bulk_end-IsWithin (length input) (next + size + 2) (take size (drop next input))
                (drop size (drop next input)) (omega arith)
                (λ two. omega (arith, length-drop size (drop next input), length-drop next input)))
      ]
    ]

bulk_result-IsWithin :
    (limits : ParserLimits) (input : Bytes) (next : ℕ) (z : Option ℤ)
    → 0 < next
    → next ≤ length input
    → IsWithin (length input) (bulk_result limits input next z)
unfolding bulk_result
bulk_result-IsWithin limits input next none p h = tt
bulk_result-IsWithin limits input next (some (negsuc zero)) p h = (p, h)
bulk_result-IsWithin limits input next (some (negsuc (suc n))) p h = tt
bulk_result-IsWithin limits input next (some (pos size)) p h =
    bulk_payload-IsWithin limits input next size p h

parse_bulk-IsWithin :
    (limits : ParserLimits) (c : ℕ) (rest : Bytes) (l : LineResult)
    → IsWithinLine (length rest) l
    → IsWithin (suc (length rest)) (parse_bulk limits (c ∷ rest) l)
unfolding parse_bulk
parse_bulk-IsWithin limits c rest (line value) h =
    bulk_result-IsWithin limits (c ∷ rest) (next_index value) (parse_integer value) (omega arith)
      (omega arith)
parse_bulk-IsWithin limits c rest (no_line status message) h = tt

items_cons-IsWithin :
    (n : ℕ) (value : RespValue) (consumed : ℕ) (more : ItemsResult)
    → consumed ≤ n
    → IsWithinItems (n - consumed) more
    → IsWithinItems n (items_cons value consumed more)
unfolding items_cons
items_cons-IsWithin n value consumed (items values k) h b = omega arith
items_cons-IsWithin n value consumed (items_stopped status message) h b = tt

parse_items-IsWithin :
    (parse : Bytes → ValueResult) (n : ℕ) (input : Bytes)
    → ((s : Bytes) → IsWithin (length s) (parse s))
    → IsWithinItems (length input) (parse_items parse n input)
unfolding parse_items
parse_items-IsWithin parse zero input all = omega arith
parse_items-IsWithin parse (suc n) input all =
    elim (parse input)
        as (λ r.
          IsWithin (length input) r
          → IsWithinItems (length input) (elim r [
            | complete value consumed ↦
                items_cons value consumed (parse_items parse n (drop consumed input))
            | stopped status message ↦ items_stopped status message
          ])) [
            | complete value consumed ↦ λ within.
                items_cons-IsWithin (length input) value consumed
                  (parse_items parse n (drop consumed input)) within.1
                  (rw (← length-drop consumed input)
                    (parse_items-IsWithin parse n (drop consumed input) all))
            | stopped status message ↦ λ within. tt
          ]
      (all input)

-- A parser for the elements that takes only bytes that are there, if there is one.
abbrev AreWithin : Option (Bytes → ValueResult) → Type 0
AreWithin none = Unit
AreWithin (some parse) = (s : Bytes) → IsWithin (length s) (parse s)

array_of-IsWithin :
    (n next : ℕ) (r : ItemsResult)
    → 0 < next
    → next ≤ n
    → IsWithinItems (n - next) r
    → IsWithin n (array_of next r)
unfolding array_of
array_of-IsWithin n next (items values k) p h b = (omega arith, omega arith)
array_of-IsWithin n next (items_stopped status message) p h b = tt

array_elements-IsWithin :
    (limits : ParserLimits) (deeper : Option (Bytes → ValueResult)) (input : Bytes) (next : ℕ)
    (z : ℤ)
    → AreWithin deeper
    → 0 < next
    → next ≤ length input
    → IsWithin (length input) (array_elements limits deeper input next z)
unfolding array_elements
array_elements-IsWithin limits none input next z all p h = tt
array_elements-IsWithin limits (some parse) input next (negsuc n) all p h = (p, h)
array_elements-IsWithin limits (some parse) input next (pos size) all p h =
    elim (Bool-cases (ltb limits.max_array_size size)) [
      | inl a ↦ rw a tt
      | inr a ↦ rw a (
          array_of-IsWithin (length input) next (parse_items parse size (drop next input)) p h
            (rw (← length-drop next input) (parse_items-IsWithin parse size (drop next input) all)))
    ]

array_result-IsWithin :
    (limits : ParserLimits) (deeper : Option (Bytes → ValueResult)) (input : Bytes) (next : ℕ)
    (z : Option ℤ)
    → AreWithin deeper
    → 0 < next
    → next ≤ length input
    → IsWithin (length input) (array_result limits deeper input next z)
unfolding array_result
array_result-IsWithin limits deeper input next none all p h = tt
array_result-IsWithin limits deeper input next (some (negsuc (suc n))) all p h = tt
array_result-IsWithin limits deeper input next (some (negsuc zero)) all p h =
    array_elements-IsWithin limits deeper input next (negsuc zero) all p h
array_result-IsWithin limits deeper input next (some (pos size)) all p h =
    array_elements-IsWithin limits deeper input next (pos size) all p h

parse_array-IsWithin :
    (limits : ParserLimits) (deeper : Option (Bytes → ValueResult)) (c : ℕ) (rest : Bytes)
    (l : LineResult)
    → AreWithin deeper
    → IsWithinLine (length rest) l
    → IsWithin (suc (length rest)) (parse_array limits deeper (c ∷ rest) l)
unfolding parse_array
parse_array-IsWithin limits deeper c rest (line value) all h =
    array_result-IsWithin limits deeper (c ∷ rest) (next_index value) (parse_integer value) all
      (omega arith) (omega arith)
parse_array-IsWithin limits deeper c rest (no_line status message) all h = tt

parse_prefix-IsWithin :
    (limits : ParserLimits) (deeper : Option (Bytes → ValueResult)) (input : Bytes)
    → AreWithin deeper
    → IsWithin (length input) (parse_prefix limits deeper input)
unfolding parse_prefix
parse_prefix-IsWithin limits deeper [] all = tt
parse_prefix-IsWithin limits deeper (c ∷ rest) all =
    let fits = read_line-IsWithin rest in
    elim (Bool-cases (c == b'+')) [
      | inl h ↦ rw h (parse_line_value-IsWithin false (length rest) (read_line rest) fits)
      | inr h ↦ rw h (elim (Bool-cases (c == b'-')) [
        | inl h ↦ rw h (parse_line_value-IsWithin true (length rest) (read_line rest) fits)
        | inr h ↦ rw h (elim (Bool-cases (c == b':')) [
          | inl h ↦ rw h (parse_resp_integer-IsWithin (length rest) (read_line rest) fits)
          | inr h ↦ rw h (elim (Bool-cases (c == b'$')) [
            | inl h ↦ rw h (parse_bulk-IsWithin limits c rest (read_line rest) fits)
            | inr h ↦ rw h (elim (Bool-cases (c == b'*')) [
              | inl h ↦ rw h (parse_array-IsWithin limits deeper c rest (read_line rest) all fits)
              | inr h ↦ rw h tt
            ])
          ])
        ])
      ])
    ]

-- Whatever the input, a complete value consumes at least one byte and at most the input.
pub parse_value-IsWithin :
    (limits : ParserLimits) (levels : ℕ) (input : Bytes)
    → IsWithin (length input) (parse_value limits levels input)
unfolding parse_value
parse_value-IsWithin limits zero input = parse_prefix-IsWithin limits none input tt
parse_value-IsWithin limits (suc levels) input =
    parse_prefix-IsWithin limits (some (parse_value limits levels)) input
      (parse_value-IsWithin limits levels)

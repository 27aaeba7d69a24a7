-- ===== src/Protocol/Parser/Extension/Values.antt =====
-- The values of src/protocol/parser.cpp, on an input and on the same with more bytes behind it.
use distributed_data_store.Prelude.{
  ℕ, zero, suc, ◌≤◌, true, false, Option, none, some, [], ◌∷◌, ◌++◌, Bytes, length, drop,
  drop-append_within, ltb, ◌==◌, ℤ, pos, negsuc, Bool-cases, inl, inr, refl,
}
use distributed_data_store.Protocol.RespValue.{RespValue}
use distributed_data_store.Protocol.Decimal.{parse_integer}
use distributed_data_store.Protocol.Parser.{
  incomplete, malformed, oversized, too_deep, ParserLimits, ValueResult, complete, stopped,
  ItemsResult, items, items_stopped, read_line, next_index, parse_line_value, parse_resp_integer,
  items_cons, parse_items, array_of, array_elements, array_result, parse_array, parse_prefix,
  parse_value, next,
}
use distributed_data_store.Protocol.Parser.Progress.{IsWithin, parse_value-IsWithin}
use distributed_data_store.Protocol.Parser.Extension.{
  Keeps, KeepsItems, read_line-append, line-Keeps, framed-Keeps, next_index-lt, parse_bulk-append,
}

-- The rest of the loop over the elements, after one of them.
abbrev continue_with : (Bytes → ValueResult) → ℕ → Bytes → ValueResult → ItemsResult
continue_with parse n input (complete value consumed) =
    items_cons value consumed (parse_items parse n (drop consumed input))
continue_with parse n input (stopped status message) = items_stopped status message

items_cons-KeepsItems :
    (value : RespValue) (consumed : ℕ) (r r' : ItemsResult)
    → KeepsItems r r'
    → KeepsItems (items_cons value consumed r) (items_cons value consumed r')
unfolding items_cons
items_cons-KeepsItems value consumed (items values k) r' h = rw h refl
items_cons-KeepsItems value consumed (items_stopped incomplete message) r' h = tt
items_cons-KeepsItems value consumed (items_stopped malformed message) r' h = rw h refl
items_cons-KeepsItems value consumed (items_stopped oversized message) r' h = rw h refl
items_cons-KeepsItems value consumed (items_stopped too_deep message) r' h = rw h refl

continue_with-KeepsItems :
    (parse : Bytes → ValueResult) (n : ℕ) (input more : Bytes) (r r' : ValueResult)
    → ((s : Bytes) → KeepsItems (parse_items parse n s) (parse_items parse n (s ++ more)))
    → IsWithin (length input) r
    → Keeps r r'
    → KeepsItems (continue_with parse n input r) (continue_with parse n (input ++ more) r')
continue_with-KeepsItems parse n input more (complete value k) r' keeps within h =
    rw (h, drop-append_within k input more within.1)
      (items_cons-KeepsItems value k (parse_items parse n (drop k input))
        (parse_items parse n (drop k input ++ more)) (keeps (drop k input)))
continue_with-KeepsItems parse n input more (stopped incomplete message) r' keeps within h = tt
continue_with-KeepsItems parse n input more (stopped malformed message) r' keeps within h =
    rw h refl
continue_with-KeepsItems parse n input more (stopped oversized message) r' keeps within h =
    rw h refl
continue_with-KeepsItems parse n input more (stopped too_deep message) r' keeps within h = rw h refl

-- The elements are parsed by a function that takes only what is there and keeps its decisions.
abbrev KeepsAll : (Bytes → ValueResult) → Type 0
KeepsAll parse =
    ((s : Bytes) → IsWithin (length s) (parse s))
    × ((s t : Bytes) → Keeps (parse s) (parse (s ++ t)))

parse_items-append :
    (parse : Bytes → ValueResult) (n : ℕ) (more input : Bytes)
    → KeepsAll parse
    → KeepsItems (parse_items parse n input) (parse_items parse n (input ++ more))
unfolding parse_items
parse_items-append parse zero more input all = refl
parse_items-append parse (suc n) more input all =
    continue_with-KeepsItems parse n input more (parse input) (parse (input ++ more))
      (λ s. parse_items-append parse n more s all) (all.0 input) (all.1 input more)

array_of-Keeps :
    (next : ℕ) (r r' : ItemsResult) → KeepsItems r r' → Keeps (array_of next r) (array_of next r')
unfolding array_of
array_of-Keeps next (items values k) r' h = rw h refl
array_of-Keeps next (items_stopped incomplete message) r' h = tt
array_of-Keeps next (items_stopped malformed message) r' h = rw h refl
array_of-Keeps next (items_stopped oversized message) r' h = rw h refl
array_of-Keeps next (items_stopped too_deep message) r' h = rw h refl

abbrev KeepsDeeper : Option (Bytes → ValueResult) → Type 0
KeepsDeeper none = Unit
KeepsDeeper (some parse) = KeepsAll parse

array_elements-append :
    (limits : ParserLimits) (deeper : Option (Bytes → ValueResult)) (input more : Bytes) (next : ℕ)
    (z : ℤ)
    → KeepsDeeper deeper
    → next ≤ length input
    → Keeps
        (array_elements limits deeper input next z)
        (array_elements limits deeper (input ++ more) next z)
unfolding array_elements
array_elements-append limits none input more next z all h = refl
array_elements-append limits (some parse) input more next (negsuc n) all h = refl
array_elements-append limits (some parse) input more next (pos size) all h =
    elim (Bool-cases (ltb limits.max_array_size size)) [
      | inl a ↦ rw a refl
      | inr a ↦
          rw (a, drop-append_within next input more h)
            (array_of-Keeps next (parse_items parse size (drop next input))
              (parse_items parse size (drop next input ++ more))
              (parse_items-append parse size more (drop next input) all))
    ]

array_result-append :
    (limits : ParserLimits) (deeper : Option (Bytes → ValueResult)) (input more : Bytes) (next : ℕ)
    (z : Option ℤ)
    → KeepsDeeper deeper
    → next ≤ length input
    → Keeps
        (array_result limits deeper input next z)
        (array_result limits deeper (input ++ more) next z)
unfolding array_result
array_result-append limits deeper input more next none all h = refl
array_result-append limits deeper input more next (some (negsuc (suc n))) all h = refl
array_result-append limits deeper input more next (some (negsuc zero)) all h =
    array_elements-append limits deeper input more next (negsuc zero) all h
array_result-append limits deeper input more next (some (pos size)) all h =
    array_elements-append limits deeper input more next (pos size) all h

parse_array-append :
    (limits : ParserLimits) (deeper : Option (Bytes → ValueResult)) (c : ℕ) (rest more : Bytes)
    → KeepsDeeper deeper
    → Keeps
        (parse_array limits deeper (c ∷ rest) (read_line rest))
        (parse_array limits deeper (c ∷ (rest ++ more)) (read_line (rest ++ more)))
unfolding parse_array
parse_array-append limits deeper c rest more all =
    framed-Keeps (parse_array limits deeper (c ∷ rest))
      (parse_array limits deeper (c ∷ (rest ++ more))) (read_line rest) (read_line (rest ++ more))
      (λ status m. refl) (λ status m. refl)
      (λ value h.
        array_result-append limits deeper (c ∷ rest) more (next_index value) (parse_integer value)
          all (next_index-lt c rest value h))
      (read_line-append rest more)

parse_prefix-append :
    (limits : ParserLimits) (deeper : Option (Bytes → ValueResult)) (input more : Bytes)
    → KeepsDeeper deeper
    → Keeps (parse_prefix limits deeper input) (parse_prefix limits deeper (input ++ more))
unfolding parse_prefix parse_line_value parse_resp_integer
parse_prefix-append limits deeper [] more all = tt
parse_prefix-append limits deeper (c ∷ rest) more all =
    let kept = read_line-append rest more in
    elim (Bool-cases (c == b'+')) [
      | inl h ↦ rw h (
          line-Keeps (parse_line_value false) (read_line rest) (read_line (rest ++ more))
            (λ m. refl) kept)
      | inr h ↦ rw h (elim (Bool-cases (c == b'-')) [
        | inl h ↦ rw h (
            line-Keeps (parse_line_value true) (read_line rest) (read_line (rest ++ more))
              (λ m. refl) kept)
        | inr h ↦ rw h (elim (Bool-cases (c == b':')) [
          | inl h ↦ rw h (
              line-Keeps parse_resp_integer (read_line rest) (read_line (rest ++ more)) (λ m. refl)
                kept)
          | inr h ↦ rw h (elim (Bool-cases (c == b'$')) [
            | inl h ↦ rw h (parse_bulk-append limits c rest more)
            | inr h ↦ rw h (elim (Bool-cases (c == b'*')) [
              | inl h ↦ rw h (parse_array-append limits deeper c rest more all)
              | inr h ↦ rw h refl
            ])
          ])
        ])
      ])
    ]

-- Stability of the incremental parser: whatever bytes are put behind the input, a result that is
-- not `incomplete`, a value or an error, stays as it is.
pub parse_value-append :
    (limits : ParserLimits) (levels : ℕ) (input more : Bytes)
    → Keeps (parse_value limits levels input) (parse_value limits levels (input ++ more))
unfolding parse_value
parse_value-append limits zero input more = parse_prefix-append limits none input more tt
parse_value-append limits (suc levels) input more =
    parse_prefix-append limits (some (parse_value limits levels)) input more
      (parse_value-IsWithin limits levels, parse_value-append limits levels)

-- ===== src/Protocol/Parser/RoundTrip.antt =====
-- src/protocol/parser.cpp on what src/protocol/encoder.cpp writes.
use distributed_data_store.Prelude.{
  ℕ, zero, suc, ◌+◌, ◌^◌, ◌<◌, ◌≤◌, ◌≡◌, refl, sym, ap, ◌∙◌, subst, false, Option, none, some, [],
  ◌∷◌, ◌++◌, append_assoc, Bytes, length, length-append, take-length-append, drop-length-append,
  drop, arith, All, Bool-cases, inl, inr, ℤ, IsInt64, if◌then◌else◌,
}
use distributed_data_store.Protocol.RespValue.{
  RespValue, Items, simple, error, integer, bulk, null_array, array, nil, cons, count,
}
use distributed_data_store.Protocol.Decimal.{
  append_size, append_number, parse_integer, in_range, unsigned_value, digits_value, is_digit,
}
use distributed_data_store.Protocol.Decimal.RoundTrip.{
  parse_integer-append_size, parse_integer-append_number, IsNumeral, append_number-IsNumeral,
  append_size-IsNumeral,
}
use distributed_data_store.Protocol.Encoder.{
  crlf, has_line_break, append_line, encode, encode_items, both,
}
use distributed_data_store.Protocol.Parser.{
  ParserLimits, line, next_index, ValueResult, complete, stopped, incomplete, items, after_cr,
  read_line, parse_line_value, integer_result, parse_resp_integer, bulk_end, bulk_payload,
  bulk_result, parse_bulk, items_cons, parse_items, array_of, array_elements, array_result,
  parse_array, parse_prefix, parse_value,
}

abbrev pub AllItems : (RespValue → Type 0) → Items → Type 0
AllItems P nil = Unit
AllItems P (cons v vs) = P v × AllItems P vs

-- The value is within the limits, its arrays nested at most as deep as `deeper` says, and its
-- integers and lengths are those of 64-bit types.
abbrev FitsWith : ParserLimits → Option (RespValue → Type 0) → RespValue → Type 0
FitsWith limits deeper (simple value) = Unit
FitsWith limits deeper (error value) = Unit
FitsWith limits deeper (integer value) = IsInt64 value
FitsWith limits deeper (bulk none) = Unit
FitsWith limits deeper (bulk (some value)) =
    (length value ≤ limits.max_bulk_size) × (length value < 2 ^ 63)
FitsWith limits none null_array = ⊥
FitsWith limits (some P) null_array = Unit
FitsWith limits none (array vs) = ⊥
FitsWith limits (some P) (array vs) =
    (count vs ≤ limits.max_array_size) × (count vs < 2 ^ 63) × AllItems P vs

abbrev pub Fits : ParserLimits → ℕ → RespValue → Type 0
Fits limits zero v = FitsWith limits none v
Fits limits (suc levels) v = FitsWith limits (some (Fits limits levels)) v

read_line-append :
    (value rest : Bytes)
    → has_line_break value ≡ false
    → read_line (value ++ (crlf ++ rest)) ≡ line value
unfolding read_line after_cr has_line_break
read_line-append [] rest h = refl
read_line-append (c ∷ value) rest h = ground (arith, read_line-append value rest)

numeral_line : (xs : Bytes) → All IsNumeral xs → has_line_break xs ≡ false
unfolding has_line_break
numeral_line [] all = refl
numeral_line (x ∷ xs) all = ground (arith, numeral_line xs all.1)

-- `parse` reads each value that satisfies P.
abbrev Reads : (RespValue → Type 0) → (Bytes → ValueResult) → Type 0
Reads P parse =
    (v : RespValue) (bytes rest : Bytes)
    → P v
    → encode v ≡ some bytes
    → parse (bytes ++ rest) ≡ complete v (length bytes)

both-eq-some :
    (x y : Option Bytes) (bytes : Bytes)
    → both x y ≡ some bytes
    → (a : Bytes) × (b : Bytes) × (x ≡ some a) × (y ≡ some b) × (bytes ≡ a ++ b)
both-eq-some (some a) (some b) bytes h = (a, b, refl, refl, cc)
both-eq-some none y bytes h = cc
both-eq-some (some a) none bytes h = cc

parse_items-cons :
    (parse : Bytes → ValueResult) (v : RespValue) (vs : Items) (a b rest : Bytes)
    → parse (a ++ (b ++ rest)) ≡ complete v (length a)
    → parse_items parse (count vs) (b ++ rest) ≡ items vs (length b)
    → parse_items parse (suc (count vs)) ((a ++ b) ++ rest) ≡ items (cons v vs) (length (a ++ b))
unfolding parse_items items_cons
parse_items-cons parse v vs a b rest first others = rw (
  append_assoc a b rest,
  parse_items,
  first,
  append_assoc a b rest,
  drop-length-append a (b ++ rest),
  others,
  length-append a b,
)

parse_items-nil :
    (parse : Bytes → ValueResult) (bytes rest : Bytes)
    → [] ≡ bytes
    → parse_items parse 0 (bytes ++ rest) ≡ items nil (length bytes)
unfolding parse_items
parse_items-nil parse bytes rest e = rw (← e)

parse_items-encode :
    (P : RespValue → Type 0) (parse : Bytes → ValueResult)
    → Reads P parse
    → (vs : Items) (bytes rest : Bytes) → AllItems P vs
    → encode_items vs ≡ some bytes
    → parse_items parse (count vs) (bytes ++ rest) ≡ items vs (length bytes)
unfolding encode_items
parse_items-encode P parse reads nil bytes rest all h = parse_items-nil parse bytes rest (cc)
parse_items-encode P parse reads (cons v vs) bytes rest all h =
    let (a, b, ea, eb, e) = both-eq-some (encode v) (encode_items vs) bytes h in
    rw e (
      parse_items-cons parse v vs a b rest (reads v a (b ++ rest) all.0 ea)
        (parse_items-encode P parse reads vs b rest all.1 eb))

line_value :
    (limits : ParserLimits) (deeper : Option (Bytes → ValueResult)) (value rest : Bytes)
    → has_line_break value ≡ false
    → (parse_prefix limits deeper ((b'+' ∷ (value ++ crlf)) ++ rest)
        ≡ complete (simple value) (length (b'+' ∷ (value ++ crlf))))
      × (parse_prefix limits deeper ((b'-' ∷ (value ++ crlf)) ++ rest)
          ≡ complete (error value) (length (b'-' ∷ (value ++ crlf))))
unfolding parse_prefix parse_line_value
line_value limits deeper value rest h = (
  rw (append_assoc value crlf rest, read_line-append value rest h, length-append value crlf)
      (ground arith),
  rw (append_assoc value crlf rest, read_line-append value rest h, length-append value crlf)
      (ground arith),
)

integer_value :
    (limits : ParserLimits) (deeper : Option (Bytes → ValueResult)) (z : ℤ) (rest : Bytes)
    → IsInt64 z
    → parse_prefix limits deeper ((b':' ∷ (append_number z ++ crlf)) ++ rest)
      ≡ complete (integer z) (length (b':' ∷ (append_number z ++ crlf)))
unfolding parse_prefix parse_resp_integer integer_result
integer_value limits deeper z rest h =
    rw
      (
        append_assoc (append_number z) crlf rest,
        read_line-append (append_number z) rest
            (numeral_line (append_number z) (append_number-IsNumeral z)),
        parse_integer-append_number z h,
        length-append (append_number z) crlf,
      )
      (ground arith)

drop-line : (xs rest : Bytes) → drop (length xs + 2) (xs ++ (crlf ++ rest)) ≡ rest
drop-line [] rest = refl
drop-line (x ∷ xs) rest =
    let e : suc (length xs) + 2 ≡ suc (length xs + 2) = omega arith in rw (e, drop-line xs rest)

-- What stands behind a line that starts at index 1.
drop-next_index :
    (c : ℕ) (xs rest : Bytes) → drop (next_index xs) (c ∷ (xs ++ (crlf ++ rest))) ≡ rest
drop-next_index c xs rest =
    let e : 1 + length xs + 2 ≡ suc (length xs + 2) = omega arith in rw (e, drop-line xs rest)

bulk_payload-whole :
    (limits : ParserLimits) (c : ℕ) (xs value rest : Bytes)
    → length value ≤ limits.max_bulk_size
    → bulk_payload limits
        (c ∷ (xs ++ (crlf ++ (value ++ (crlf ++ rest)))))
        (next_index xs)
        (length value)
      ≡ complete (bulk (some value)) (next_index xs + length value + 2)
unfolding bulk_payload bulk_end
bulk_payload-whole limits c xs value rest fits =
    rw
      (
        drop-next_index c xs (value ++ (crlf ++ rest)),
        take-length-append value (crlf ++ rest),
        drop-length-append value (crlf ++ rest),
      )
      (ground (
        arith,
        length-append xs (crlf ++ (value ++ (crlf ++ rest))),
        length-append value (crlf ++ rest),
      ))

bulk_value :
    (limits : ParserLimits) (deeper : Option (Bytes → ValueResult)) (value rest : Bytes)
    → length value ≤ limits.max_bulk_size
    → length value < 2 ^ 63
    → parse_prefix limits deeper
        ((b'$' ∷ (append_size (length value) ++ (crlf ++ (value ++ crlf)))) ++ rest)
      ≡ complete
          (bulk (some value))
          (length (b'$' ∷ (append_size (length value) ++ (crlf ++ (value ++ crlf)))))
unfolding parse_prefix parse_bulk bulk_result
bulk_value limits deeper value rest fits small =
    rw
      (
        append_assoc (append_size (length value)) (crlf ++ (value ++ crlf)) rest,
        append_assoc value crlf rest,
        read_line-append (append_size (length value)) (value ++ (crlf ++ rest))
            (numeral_line (append_size (length value)) (append_size-IsNumeral (length value))),
        parse_integer-append_size (length value) small,
        bulk_payload-whole limits b'$' (append_size (length value)) value rest fits,
      )
      (ground (
        arith,
        length-append (append_size (length value)) (crlf ++ (value ++ crlf)),
        length-append value crlf,
      ))

null_values :
    (limits : ParserLimits) (d : Option (Bytes → ValueResult)) (deeper : Bytes → ValueResult)
    (rest : Bytes)
    → (parse_prefix limits d ((b'$' ∷ b'-' ∷ b'1' ∷ crlf) ++ rest) ≡ complete (bulk none) 5)
      × (parse_prefix limits (some deeper) ((b'*' ∷ b'-' ∷ b'1' ∷ crlf) ++ rest)
          ≡ complete null_array 5)
unfolding parse_prefix parse_bulk bulk_result parse_array array_result array_elements read_line
    after_cr parse_integer in_range unsigned_value digits_value is_digit
null_values limits d deeper rest = (refl, refl)

array_value :
    (limits : ParserLimits) (deeper : Bytes → ValueResult) (vs : Items) (bytes rest : Bytes)
    → count vs ≤ limits.max_array_size
    → count vs < 2 ^ 63
    → parse_items deeper (count vs) (bytes ++ rest) ≡ items vs (length bytes)
    → parse_prefix limits
        (some deeper)
        (((b'*' ∷ (append_size (count vs) ++ crlf)) ++ bytes) ++ rest)
      ≡ complete (array vs) (length ((b'*' ∷ (append_size (count vs) ++ crlf)) ++ bytes))
unfolding parse_prefix parse_array array_result array_elements array_of
array_value limits deeper vs bytes rest fits small h =
    rw
      (
        append_assoc (append_size (count vs) ++ crlf) bytes rest,
        append_assoc (append_size (count vs)) crlf (bytes ++ rest),
        read_line-append (append_size (count vs)) (bytes ++ rest)
            (numeral_line (append_size (count vs)) (append_size-IsNumeral (count vs))),
        parse_integer-append_size (count vs) small,
        drop-next_index b'*' (append_size (count vs)) (bytes ++ rest),
        h,
      )
      (ground (
        arith,
        length-append (append_size (count vs) ++ crlf) bytes,
        length-append (append_size (count vs)) crlf,
      ))

-- The values without elements, at any depth.
line_reads :
    (limits : ParserLimits) (deeper : Option (Bytes → ValueResult)) (value bytes rest : Bytes)
    → (append_line (b'+' ∷ []) value ≡ some bytes
        → parse_prefix limits deeper (bytes ++ rest) ≡ complete (simple value) (length bytes))
      × (append_line (b'-' ∷ []) value ≡ some bytes
          → parse_prefix limits deeper (bytes ++ rest) ≡ complete (error value) (length bytes))
unfolding append_line
line_reads limits deeper value bytes rest = elim (Bool-cases (has_line_break value)) [
  | inl broken ↦ (λ h. cc, λ h. cc)
  | inr whole ↦ (
    λ h.
        subst
          (λ (b : Bytes).
            parse_prefix limits deeper (b ++ rest) ≡ complete (simple value) (length b))
          (some_line whole h) (line_value limits deeper value rest whole).0,
    λ h.
        subst
          (λ (b : Bytes).
            parse_prefix limits deeper (b ++ rest) ≡ complete (error value) (length b))
          (some_line whole h) (line_value limits deeper value rest whole).1,
  )
]
  where
    some_line :
        {x : Bytes}
        → has_line_break value ≡ false
        → (if has_line_break value then none else some x) ≡ some bytes
        → x ≡ bytes
    some_line whole h = ground arith

-- A value that `parse_prefix` reads, from the bytes that the encoder gives for it.
read_as :
    (limits : ParserLimits) (deeper : Option (Bytes → ValueResult)) (v : RespValue)
    (x bytes rest : Bytes)
    → parse_prefix limits deeper (x ++ rest) ≡ complete v (length x)
    → some x ≡ some bytes
    → parse_prefix limits deeper (bytes ++ rest) ≡ complete v (length bytes)
read_as limits deeper v x bytes rest reads e =
    subst (λ (b : Bytes). parse_prefix limits deeper (b ++ rest) ≡ complete v (length b)) (cc) reads

Reads-none : (limits : ParserLimits) → Reads (FitsWith limits none) (parse_prefix limits none)
unfolding encode
Reads-none limits (simple value) bytes rest fits h = (line_reads limits none value bytes rest).0 h
Reads-none limits (error value) bytes rest fits h = (line_reads limits none value bytes rest).1 h
Reads-none limits (integer z) bytes rest fits h =
    read_as limits none _ _ bytes rest (integer_value limits none z rest fits) h
Reads-none limits (bulk none) bytes rest fits h =
    read_as limits none _ _ bytes rest (null_values limits none (λ b. stopped incomplete "") rest).0
      h
Reads-none limits (bulk (some value)) bytes rest fits h =
    read_as limits none _ _ bytes rest (bulk_value limits none value rest fits.0 fits.1) h
Reads-none limits null_array bytes rest fits h = absurd fits
Reads-none limits (array vs) bytes rest fits h = absurd fits

Reads-some :
    (limits : ParserLimits) (P : RespValue → Type 0) (deeper : Bytes → ValueResult)
    → Reads P deeper
    → Reads (FitsWith limits (some P)) (parse_prefix limits (some deeper))
unfolding encode
Reads-some limits P deeper reads (simple value) bytes rest fits h =
    (line_reads limits (some deeper) value bytes rest).0 h
Reads-some limits P deeper reads (error value) bytes rest fits h =
    (line_reads limits (some deeper) value bytes rest).1 h
Reads-some limits P deeper reads (integer z) bytes rest fits h =
    read_as limits (some deeper) _ _ bytes rest (integer_value limits (some deeper) z rest fits) h
Reads-some limits P deeper reads (bulk none) bytes rest fits h =
    read_as limits (some deeper) _ _ bytes rest (null_values limits (some deeper) deeper rest).0 h
Reads-some limits P deeper reads (bulk (some value)) bytes rest fits h =
    read_as limits (some deeper) _ _ bytes rest
      (bulk_value limits (some deeper) value rest fits.0 fits.1) h
Reads-some limits P deeper reads null_array bytes rest fits h =
    read_as limits (some deeper) _ _ bytes rest (null_values limits (some deeper) deeper rest).1 h
Reads-some limits P deeper reads (array vs) bytes rest fits h =
    let (a, b, ea, eb, e) =
      both-eq-some (some (b'*' ∷ (append_size (count vs) ++ crlf))) (encode_items vs) bytes h in
    read_as limits (some deeper) _ _ bytes rest
      (array_value limits deeper vs b rest fits.0 fits.1
        (parse_items-encode P deeper reads vs b rest fits.2 eb))
      (ap some (ap (λ (x : Bytes). x ++ b) (some_injective ea) ∙ sym e))
  where
    some_injective : {x y : Bytes} → some x ≡ some y → x ≡ y
    some_injective p = cc

-- If a value is within the limits, its nesting at most `levels` and its numbers and lengths those
-- of 64-bit types, and it has an encoding, then parsing that encoding with any bytes behind it is
-- complete with this value, and consumes exactly the encoding.
pub parse_value-encode :
    (limits : ParserLimits) (levels : ℕ) (v : RespValue) (bytes rest : Bytes)
    → Fits limits levels v
    → encode v ≡ some bytes
    → parse_value limits levels (bytes ++ rest) ≡ complete v (length bytes)
unfolding parse_value
parse_value-encode limits zero v bytes rest fits h = Reads-none limits v bytes rest fits h
parse_value-encode limits (suc levels) v bytes rest fits h =
    Reads-some limits (Fits limits levels) (parse_value limits levels)
      (parse_value-encode limits levels) v bytes rest fits h

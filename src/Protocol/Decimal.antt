-- ===== src/Protocol/Decimal.antt =====
-- std::to_chars and std::from_chars for 64-bit integers, as the protocol code uses them, and
-- parse_integer of src/protocol/parser.cpp (parse_int64 of src/commands/registry.cpp is the same).
pub mod RoundTrip
use distributed_data_store.Prelude.{
  ℕ, zero, suc, ◌+◌, ◌-◌, ◌*◌, ◌/◌, ◌%◌, ◌^◌, Bool, true, false, ◌&&◌, ◌||◌, Option, none, some, [],
  ◌∷◌, ◌++◌, Bytes, ltb, leb, ◌==◌, if◌then◌else◌, ℤ, pos, negsuc,
}

-- At most `f` digits; a 64-bit number has at most 20.
unfoldable pub decimal : ℕ → ℕ → Bytes
decimal zero n = []
decimal (suc f) n =
    let front = decimal f (n / 10) in
    if ltb n 10 then (48 + n) ∷ [] else front ++ ((48 + n % 10) ∷ [])

unfoldable pub append_size : ℕ → Bytes
append_size value = decimal 20 value

unfoldable pub append_number : ℤ → Bytes
append_number (pos n) = decimal 20 n
append_number (negsuc n) = b'-' ∷ decimal 20 (suc n)

unfoldable pub is_digit : ℕ → Bool
is_digit c = leb b'0' c && leb c b'9'

unfoldable pub digits_value : ℕ → Bytes → Option ℕ
digits_value acc [] = some acc
digits_value acc (c ∷ rest) =
    let more = digits_value (acc * 10 + (c - 48)) rest in if is_digit c then more else none

-- One digit at least.
unfoldable pub unsigned_value : Bytes → Option ℕ
unsigned_value [] = none
unsigned_value (c ∷ rest) = digits_value 0 (c ∷ rest)

abbrev negated : ℕ → ℤ
negated zero = pos 0
negated (suc n) = negsuc n

-- Out of the range of int64_t is an error.
unfoldable pub in_range : Bool → Option ℕ → Option ℤ
in_range negative none = none
in_range false (some n) = if ltb n (2 ^ 63) then some (pos n) else none
in_range true (some n) = if leb n (2 ^ 63) then some (negated n) else none

unfoldable pub parse_integer : Bytes → Option ℤ
parse_integer [] = none
parse_integer (c ∷ rest) =
    if c == b'+'
    then none
    else if c == b'-'
    then in_range true (unsigned_value rest)
    else in_range false (unsigned_value (c ∷ rest))

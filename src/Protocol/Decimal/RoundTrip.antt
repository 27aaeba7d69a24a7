-- ===== src/Protocol/Decimal/RoundTrip.antt =====
-- std::to_chars and std::from_chars on 64-bit integers, one behind the other.
use distributed_data_store.Prelude.{
  ℕ, zero, suc, ◌+◌, ◌-◌, ◌*◌, ◌/◌, ◌%◌, ◌^◌, ◌<◌, ◌≤◌, ◌≡◌, refl, true, false, Option, none, some,
  [], ◌∷◌, ◌++◌, Bytes, ltb, arith, All, Bool-cases, inl, inr, length, length-append, ℤ, pos,
  negsuc, IsInt64,
}
use distributed_data_store.Protocol.Decimal.{
  decimal, append_size, append_number, is_digit, digits_value, unsigned_value, in_range,
  parse_integer,
}

-- `f` digits suffice.
abbrev FitsDigits : ℕ → ℕ → Type 0
FitsDigits zero n = n ≡ 0
FitsDigits (suc f) n = FitsDigits f (n / 10)

abbrev step : ℕ → Option ℕ → Option ℕ
step d none = none
step d (some acc) = some (acc * 10 + d)

digits_value-append :
    (acc : ℕ) (xs : Bytes) (d : ℕ)
    → d < 10
    → digits_value acc (xs ++ ((48 + d) ∷ [])) ≡ step d (digits_value acc xs)
unfolding digits_value is_digit
digits_value-append acc [] d h = ground arith
digits_value-append acc (x ∷ xs) d h =
    ground (arith, digits_value-append (acc * 10 + (x - 48)) xs d)

digits_value-decimal :
    (f n : ℕ) → FitsDigits (suc f) n → digits_value 0 (decimal (suc f) n) ≡ some n
unfolding digits_value is_digit decimal
digits_value-decimal zero n h = ground arith
digits_value-decimal (suc f) n h = elim (Bool-cases (ltb n 10)) [
  | inl small ↦ rw small (ground arith)
  | inr big ↦
      rw
        (
          big,
          digits_value-append 0 (decimal (suc f) (n / 10)) (n % 10) (omega arith),
          digits_value-decimal f (n / 10) h,
        )
        (ground arith)
]

-- A byte from '0' to '9'.
abbrev pub IsDigit : ℕ → Type 0
IsDigit c = (48 ≤ c) × (c ≤ 57)

All-append : (xs ys : Bytes) → All IsDigit xs → All IsDigit ys → All IsDigit (xs ++ ys)
All-append [] ys all h = h
All-append (x ∷ xs) ys all h = (all.0, All-append xs ys all.1 h)

pub decimal-IsDigit : (f n : ℕ) → All IsDigit (decimal f n)
unfolding decimal
decimal-IsDigit zero n = tt
decimal-IsDigit (suc f) n = elim (Bool-cases (ltb n 10)) [
  | inl small ↦ rw small (ground arith)
  | inr big ↦ rw big (All-append (decimal f (n / 10)) _ (decimal-IsDigit f (n / 10)) (omega arith))
]

pub decimal-nonempty : (f n : ℕ) → 0 < length (decimal (suc f) n)
unfolding decimal
decimal-nonempty f n = ground (arith, length-append (decimal f (n / 10)) ((48 + n % 10) ∷ []))

FitsDigits-20 : (n : ℕ) → n < 2 ^ 64 → FitsDigits 20 n
FitsDigits-20 n h = omega arith

-- Digits alone are read as a number without sign.
parse_digits :
    (xs : Bytes)
    → All IsDigit xs
    → 0 < length xs
    → parse_integer xs ≡ in_range false (digits_value 0 xs)
unfolding parse_integer unsigned_value
parse_digits [] all h = absurd (omega arith)
parse_digits (x ∷ xs) all h = ground arith

parse_minus :
    (xs : Bytes) → 0 < length xs → parse_integer (b'-' ∷ xs) ≡ in_range true (digits_value 0 xs)
unfolding parse_integer unsigned_value
parse_minus [] h = absurd (omega arith)
parse_minus (x ∷ xs) h = refl

-- A length below 2^63 is read back from its digits.
pub parse_integer-append_size : (n : ℕ) → n < 2 ^ 63 → parse_integer (append_size n) ≡ some (pos n)
unfolding append_size
parse_integer-append_size n h =
    rw
      (
        parse_digits (decimal 20 n) (decimal-IsDigit 20 n) (decimal-nonempty 19 n),
        digits_value-decimal 19 n (FitsDigits-20 n (omega arith)),
      )
      (unfold in_range in ground arith)

-- Every int64_t is read back from what to_chars prints for it.
pub parse_integer-append_number : (z : ℤ) → IsInt64 z → parse_integer (append_number z) ≡ some z
unfolding append_number
parse_integer-append_number (pos n) h = unfold append_size in parse_integer-append_size n h
parse_integer-append_number (negsuc n) h =
    rw
      (
        parse_minus (decimal 20 (suc n)) (decimal-nonempty 19 (suc n)),
        digits_value-decimal 19 (suc n) (FitsDigits-20 (suc n) (omega arith)),
      )
      (unfold in_range in ground arith)

-- The bytes of a number: digits, and a minus in front.
abbrev pub IsNumeral : ℕ → Type 0
IsNumeral c = (45 ≤ c) × (c ≤ 57)

digits-IsNumeral : (xs : Bytes) → All IsDigit xs → All IsNumeral xs
digits-IsNumeral [] all = tt
digits-IsNumeral (x ∷ xs) all = ((omega arith, all.0.1), digits-IsNumeral xs all.1)

pub append_number-IsNumeral : (z : ℤ) → All IsNumeral (append_number z)
unfolding append_number
append_number-IsNumeral (pos n) = digits-IsNumeral (decimal 20 n) (decimal-IsDigit 20 n)
append_number-IsNumeral (negsuc n) =
    (omega arith, digits-IsNumeral (decimal 20 (suc n)) (decimal-IsDigit 20 (suc n)))

pub append_size-IsNumeral : (n : ℕ) → All IsNumeral (append_size n)
unfolding append_size
append_size-IsNumeral n = digits-IsNumeral (decimal 20 n) (decimal-IsDigit 20 n)

-- ===== src/Persistence/Result.antt =====
-- The exceptions that the persistence code throws, as values, and readers over a string_view.
use distributed_data_store.Prelude.{Bytes}

-- std::runtime_error by its message, std::system_error, std::invalid_argument, and `undefined` for a
-- step that the C++ standard leaves without meaning (a view moved past its end).
pub data Error : Type 0 where
  truncated unsupported_version offsets_not_increasing unknown_opcode unknown_type : Error
  not_open io_error invalid_argument undefined : Error

pub data Result {ℓ} (A : Type ℓ) : Type ℓ where
  ok : A → Result A
  err : Error → Result A

abbrev pub bind {ℓ κ} : {A : Type ℓ} {B : Type κ} → Result A → (A → Result B) → Result B
bind (ok a) f = f a
bind (err e) f = err e

-- A function that takes `std::string_view& input` and moves its front.
abbrev pub Reader {ℓ} : Type ℓ → Type ℓ
Reader A = Bytes → Result (A × Bytes)

abbrev pub pure {ℓ} : {A : Type ℓ} → A → Reader A
pure a input = ok (a, input)

infixl 5 ◌>>=◌ ◌>>◌
abbrev pub ◌>>=◌ {ℓ κ} : {A : Type ℓ} {B : Type κ} → Reader A → (A → Reader B) → Reader B
◌>>=◌ m f input = bind (m input) λ (a, rest). f a rest

abbrev pub ◌>>◌ {ℓ κ} : {A : Type ℓ} {B : Type κ} → Reader A → Reader B → Reader B
m >> k = m >>= λ _. k

-- ===== src/Codec/Result.antt =====
-- What the codec may raise, and the outcome of a call (`BorshError` of _codec/codec.py).
use wake_sol.Prelude.{ℕ, String, ◌≡◌, refl, List, [], ◌∷◌, ◌++◌}
use wake_sol.Prelude.Int.{ℤ}

-- The breadcrumb of a `BorshError`: field names and indices.
pub data Step : Type 0 where
  name : String → Step
  index : ℕ → Step

abbrev pub Breadcrumb : Type 0
Breadcrumb = List Step

-- `path + (step,)`
infixl 60 ◌/p◌
abbrev pub ◌/p◌ : Breadcrumb → Step → Breadcrumb
p /p s = p ++ s ∷ []

-- One constructor for each message that the codec raises, with the numbers that the message names.
pub data Fault : Type 0 where
  short_read : ℕ → ℕ → Fault
  too_deep : Fault
  nan_float : Fault
  bool_byte : ℕ → Fault
  length_exceeds_remaining : ℕ → ℕ → Fault
  length_exceeds_buffer : ℕ → ℕ → ℕ → Fault
  invalid_utf8 : Fault
  option_tag : ℕ → Fault
  enum_tag : ℕ → ℕ → Fault
  no_variant : ℕ → ℕ → Fault
  trailing_bytes : ℕ → ℕ → Fault
  expected_int : Fault
  int_out_of_range : ℤ → ℕ → Fault
  bool_value : Fault
  expected_str : Fault
  fixed_length : ℕ → ℕ → Fault
  array_length : ℕ → ℕ → Fault
  expected_opt : Fault
  not_a_variant : ℕ → Fault
  discriminator_mismatch : Fault

-- A raised `BorshError` with its `offset` and `path`, or one of Python's own exceptions.
pub data Error : Type 0 where
  borsh : Fault → ℕ → Breadcrumb → Error
  attribute_error : String → Error
  refuse_to_decode : String → Error
  type_error value_error index_error overflow_error unicode_error struct_error : Error

-- `out_of_fuel` has no counterpart in the program.
pub data Result {ℓ} (A : Type ℓ) : Type ℓ where
  ok : A → Result A
  err : Error → Result A
  out_of_fuel : Result A

infixl 5 ◌>>=◌ ◌>>◌
abbrev pub ◌>>=◌ {ℓ κ} : {A : Type ℓ} {B : Type κ} → Result A → (A → Result B) → Result B
ok a >>= f = f a
err e >>= f = err e
out_of_fuel >>= f = out_of_fuel

abbrev pub ◌>>◌ {ℓ} : {B : Type ℓ} → Result (Unit {0}) → Result B → Result B
m >> k = m >>= λ _. k

module _ {ℓ κ} {A : Type ℓ} {B : Type κ} (next : A → Result B) where
  -- A chain returned only if its first part did.
  pub first_returned :
      (r : Result A) (b : B) → r >>= next ≡ ok b → (a : A) × (next a ≡ ok b) × (r ≡ ok a)
  first_returned (err e) b h = cc
  first_returned out_of_fuel b h = cc
  first_returned (ok a) b h = (a, h, refl)

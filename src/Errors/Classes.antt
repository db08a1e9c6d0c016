-- ===== src/Errors/Classes.antt =====
-- The classes of _errors_base.py and their instances.
use wake_sol.Prelude.{ℕ, Bool, true, false, ◌&&◌, ◌||◌, String, Option, none, some, ◌==◌, str_eq}

-- `TransactionFailed`, or a class by its base, its qualified name and the `code` of its own body.
pub data ErrorClass : Type 0 where
  transaction_failed : ErrorClass
  derived : ErrorClass → String → Option ℕ → ErrorClass

abbrev pub solana_error : ErrorClass
solana_error = derived transaction_failed "SolanaError" none

abbrev pub anchor_error : ErrorClass
anchor_error = derived transaction_failed "AnchorError" none

abbrev pub program_error : ErrorClass
program_error = derived transaction_failed "ProgramError" none

abbrev pub unknown_error : ErrorClass
unknown_error = derived transaction_failed "UnknownError" none

abbrev pub system_program_error : ErrorClass
system_program_error = derived program_error "SystemProgramError" none

abbrev pub token_error : ErrorClass
token_error = derived program_error "TokenError" none

-- The attribute `code` of a class, which is inherited.
unfoldable pub class_code : ErrorClass → Option ℕ
class_code transaction_failed = none
class_code (derived base name (some code)) = some code
class_code (derived base name none) = class_code base

unfoldable pub same_code : Option ℕ → Option ℕ → Bool
same_code none none = true
same_code none (some b) = false
same_code (some a) none = false
same_code (some a) (some b) = a == b

unfoldable pub same_class : ErrorClass → ErrorClass → Bool
unfolding same_code
same_class transaction_failed transaction_failed = true
same_class transaction_failed (derived b m d) = false
same_class (derived a n c) transaction_failed = false
same_class (derived a n c) (derived b m d) = same_class a b && (str_eq n m && same_code c d)

-- `issubclass`
unfoldable pub is_subclass : ErrorClass → ErrorClass → Bool
is_subclass transaction_failed d = same_class transaction_failed d
is_subclass (derived base name code) d = same_class (derived base name code) d || is_subclass base d

-- An instance, without its receipt, which native code sets.
pub record TransactionFailed : Type 0 where
  pub cls : ErrorClass
  pub code : Option ℕ
  pub instruction_index : Option ℕ
  pub account_index : Option ℕ

unfoldable pub code_or : Option ℕ → ErrorClass → Option ℕ
code_or none cls = class_code cls
code_or (some code) cls = some code

-- `cls(code=..., instruction_index=..., account_index=...)`
unfoldable pub new : ErrorClass → Option ℕ → Option ℕ → Option ℕ → TransactionFailed
unfolding code_or class_code
new cls code instruction_index account_index = record {
  cls = cls;
  code = code_or code cls;
  instruction_index = instruction_index;
  account_index = account_index;
}

-- What an error is compared with; `None` stands for NotImplemented.
pub data Other : Type 0 where
  instance_of : TransactionFailed → Other
  class_object : ErrorClass → Other
  unrelated : Other

unfoldable pub equals : TransactionFailed → Other → Option Bool
equals self (class_object cls) = some (is_subclass self.cls cls)
equals self (instance_of other) =
    some (same_class self.cls other.cls && same_code self.code other.code)
equals self unrelated = none

-- What `hash` is taken of.
unfoldable pub hash_key : TransactionFailed → ErrorClass × Option ℕ
hash_key self = (self.cls, self.code)

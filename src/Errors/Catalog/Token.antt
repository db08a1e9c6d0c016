-- ===== src/Errors/Catalog/Token.antt =====
-- The catalog of _errors_catalog/token.py.
use wake_sol.Prelude.{ℕ, String, some, List, [], ◌∷◌}
use wake_sol.Errors.Classes.{ErrorClass, derived, token_error}

abbrev pub token : String → ℕ → ErrorClass
token name code = derived token_error name (some code)

abbrev pub token_by_code : List (ℕ × ErrorClass)
token_by_code =
    (0, token "NotRentExempt" 0)
    ∷ (1, token "InsufficientFunds" 1)
    ∷ (2, token "InvalidMint" 2)
    ∷ (3, token "MintMismatch" 3)
    ∷ (4, token "OwnerMismatch" 4)
    ∷ (5, token "FixedSupply" 5)
    ∷ (6, token "AlreadyInUse" 6)
    ∷ (7, token "InvalidNumberOfProvidedSigners" 7)
    ∷ (8, token "InvalidNumberOfRequiredSigners" 8)
    ∷ (9, token "UninitializedState" 9)
    ∷ (10, token "NativeNotSupported" 10)
    ∷ (11, token "NonNativeHasBalance" 11)
    ∷ (12, token "InvalidInstruction" 12)
    ∷ (13, token "InvalidState" 13)
    ∷ (14, token "Overflow" 14)
    ∷ (15, token "AuthorityTypeNotSupported" 15)
    ∷ (16, token "MintCannotFreeze" 16)
    ∷ (17, token "AccountFrozen" 17)
    ∷ (18, token "MintDecimalsMismatch" 18)
    ∷ (19, token "NonNativeNotSupported" 19)
    ∷ []

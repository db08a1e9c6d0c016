-- ===== src/Errors/Catalog/System.antt =====
-- The catalog of _errors_catalog/system.py.
use wake_sol.Prelude.{ℕ, String, some, List, [], ◌∷◌}
use wake_sol.Errors.Classes.{ErrorClass, derived, system_program_error}

abbrev pub system : String → ℕ → ErrorClass
system name code = derived system_program_error name (some code)

abbrev pub system_by_code : List (ℕ × ErrorClass)
system_by_code =
    (0, system "AccountAlreadyInUse" 0)
    ∷ (1, system "ResultWithNegativeLamports" 1)
    ∷ (2, system "InvalidProgramId" 2)
    ∷ (3, system "InvalidAccountDataLength" 3)
    ∷ (4, system "MaxSeedLengthExceeded" 4)
    ∷ (5, system "AddressWithSeedMismatch" 5)
    ∷ (6, system "NonceNoRecentBlockhashes" 6)
    ∷ (7, system "NonceBlockhashNotExpired" 7)
    ∷ (8, system "NonceUnexpectedBlockhashValue" 8)
    ∷ []

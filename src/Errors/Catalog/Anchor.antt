-- ===== src/Errors/Catalog/Anchor.antt =====
-- The catalog of _errors_catalog/anchor.py.
use wake_sol.Prelude.{ℕ, String, some, List, [], ◌∷◌, ◌++◌}
use wake_sol.Errors.Classes.{ErrorClass, derived, anchor_error}

abbrev pub anchor : String → ℕ → ErrorClass
anchor name code = derived anchor_error name (some code)

abbrev pub instruction_errors : List (ℕ × ErrorClass)
instruction_errors =
    (100, anchor "InstructionMissing" 100)
    ∷ (101, anchor "InstructionFallbackNotFound" 101)
    ∷ (102, anchor "InstructionDidNotDeserialize" 102)
    ∷ (103, anchor "InstructionDidNotSerialize" 103)
    ∷ (1000, anchor "IdlInstructionStub" 1000)
    ∷ (1001, anchor "IdlInstructionInvalidProgram" 1001)
    ∷ (1002, anchor "IdlAccountNotEmpty" 1002)
    ∷ (1500, anchor "EventInstructionStub" 1500)
    ∷ []

abbrev pub constraint_errors : List (ℕ × ErrorClass)
constraint_errors =
    (2000, anchor "ConstraintMut" 2000)
    ∷ (2001, anchor "ConstraintHasOne" 2001)
    ∷ (2002, anchor "ConstraintSigner" 2002)
    ∷ (2003, anchor "ConstraintRaw" 2003)
    ∷ (2004, anchor "ConstraintOwner" 2004)
    ∷ (2005, anchor "ConstraintRentExempt" 2005)
    ∷ (2006, anchor "ConstraintSeeds" 2006)
    ∷ (2007, anchor "ConstraintExecutable" 2007)
    ∷ (2008, anchor "ConstraintState" 2008)
    ∷ (2009, anchor "ConstraintAssociated" 2009)
    ∷ (2010, anchor "ConstraintAssociatedInit" 2010)
    ∷ (2011, anchor "ConstraintClose" 2011)
    ∷ (2012, anchor "ConstraintAddress" 2012)
    ∷ (2013, anchor "ConstraintZero" 2013)
    ∷ (2014, anchor "ConstraintTokenMint" 2014)
    ∷ (2015, anchor "ConstraintTokenOwner" 2015)
    ∷ (2016, anchor "ConstraintMintMintAuthority" 2016)
    ∷ (2017, anchor "ConstraintMintFreezeAuthority" 2017)
    ∷ (2018, anchor "ConstraintMintDecimals" 2018)
    ∷ (2019, anchor "ConstraintSpace" 2019)
    ∷ (2020, anchor "ConstraintAccountIsNone" 2020)
    ∷ (2021, anchor "ConstraintTokenTokenProgram" 2021)
    ∷ (2022, anchor "ConstraintMintTokenProgram" 2022)
    ∷ (2023, anchor "ConstraintAssociatedTokenTokenProgram" 2023)
    ∷ (2024, anchor "ConstraintMintGroupPointerExtension" 2024)
    ∷ (2025, anchor "ConstraintMintGroupPointerExtensionAuthority" 2025)
    ∷ (2026, anchor "ConstraintMintGroupPointerExtensionGroupAddress" 2026)
    ∷ (2027, anchor "ConstraintMintGroupMemberPointerExtension" 2027)
    ∷ (2028, anchor "ConstraintMintGroupMemberPointerExtensionAuthority" 2028)
    ∷ (2029, anchor "ConstraintMintGroupMemberPointerExtensionMemberAddress" 2029)
    ∷ (2030, anchor "ConstraintMintMetadataPointerExtension" 2030)
    ∷ (2031, anchor "ConstraintMintMetadataPointerExtensionAuthority" 2031)
    ∷ (2032, anchor "ConstraintMintMetadataPointerExtensionMetadataAddress" 2032)
    ∷ (2033, anchor "ConstraintMintCloseAuthorityExtension" 2033)
    ∷ (2034, anchor "ConstraintMintCloseAuthorityExtensionAuthority" 2034)
    ∷ (2035, anchor "ConstraintMintPermanentDelegateExtension" 2035)
    ∷ (2036, anchor "ConstraintMintPermanentDelegateExtensionDelegate" 2036)
    ∷ (2037, anchor "ConstraintMintTransferHookExtension" 2037)
    ∷ (2038, anchor "ConstraintMintTransferHookExtensionAuthority" 2038)
    ∷ (2039, anchor "ConstraintMintTransferHookExtensionProgramId" 2039)
    ∷ []

abbrev pub require_errors : List (ℕ × ErrorClass)
require_errors =
    (2500, anchor "RequireViolated" 2500)
    ∷ (2501, anchor "RequireEqViolated" 2501)
    ∷ (2502, anchor "RequireKeysEqViolated" 2502)
    ∷ (2503, anchor "RequireNeqViolated" 2503)
    ∷ (2504, anchor "RequireKeysNeqViolated" 2504)
    ∷ (2505, anchor "RequireGtViolated" 2505)
    ∷ (2506, anchor "RequireGteViolated" 2506)
    ∷ []

abbrev pub account_errors : List (ℕ × ErrorClass)
account_errors =
    (3000, anchor "AccountDiscriminatorAlreadySet" 3000)
    ∷ (3001, anchor "AccountDiscriminatorNotFound" 3001)
    ∷ (3002, anchor "AccountDiscriminatorMismatch" 3002)
    ∷ (3003, anchor "AccountDidNotDeserialize" 3003)
    ∷ (3004, anchor "AccountDidNotSerialize" 3004)
    ∷ (3005, anchor "AccountNotEnoughKeys" 3005)
    ∷ (3006, anchor "AccountNotMutable" 3006)
    ∷ (3007, anchor "AccountOwnedByWrongProgram" 3007)
    ∷ (3008, anchor "InvalidProgramId" 3008)
    ∷ (3009, anchor "InvalidProgramExecutable" 3009)
    ∷ (3010, anchor "AccountNotSigner" 3010)
    ∷ (3011, anchor "AccountNotSystemOwned" 3011)
    ∷ (3012, anchor "AccountNotInitialized" 3012)
    ∷ (3013, anchor "AccountNotProgramData" 3013)
    ∷ (3014, anchor "AccountNotAssociatedTokenAccount" 3014)
    ∷ (3015, anchor "AccountSysvarMismatch" 3015)
    ∷ (3016, anchor "AccountReallocExceedsLimit" 3016)
    ∷ (3017, anchor "AccountDuplicateReallocs" 3017)
    ∷ []

abbrev pub misc_errors : List (ℕ × ErrorClass)
misc_errors =
    (4100, anchor "DeclaredProgramIdMismatch" 4100)
    ∷ (4101, anchor "TryingToInitPayerAsProgramAccount" 4101)
    ∷ (4102, anchor "InvalidNumericConversion" 4102)
    ∷ (5000, anchor "Deprecated" 5000)
    ∷ []

unfoldable pub anchor_by_code : List (ℕ × ErrorClass)
anchor_by_code =
    instruction_errors ++ constraint_errors ++ require_errors ++ account_errors ++ misc_errors

-- ===== src/Errors/Catalog/Solana.antt =====
-- The catalog of _errors_catalog/solana.py.
use wake_sol.Prelude.{String, none, List, [], ◌∷◌, ◌++◌}
use wake_sol.Errors.Classes.{ErrorClass, derived, solana_error}

abbrev pub solana : String → ErrorClass
solana name = derived solana_error name none

abbrev pub instruction_names : List (String × ErrorClass)
instruction_names =
    ("GenericError", solana "GenericError")
    ∷ ("InvalidArgument", solana "InvalidArgument")
    ∷ ("InvalidInstructionData", solana "InvalidInstructionData")
    ∷ ("InvalidAccountData", solana "InvalidAccountData")
    ∷ ("AccountDataTooSmall", solana "AccountDataTooSmall")
    ∷ ("InsufficientFunds", solana "InsufficientFunds")
    ∷ ("IncorrectProgramId", solana "IncorrectProgramId")
    ∷ ("MissingRequiredSignature", solana "MissingRequiredSignature")
    ∷ ("AccountAlreadyInitialized", solana "AccountAlreadyInitialized")
    ∷ ("UninitializedAccount", solana "UninitializedAccount")
    ∷ ("UnbalancedInstruction", solana "UnbalancedInstruction")
    ∷ ("ModifiedProgramId", solana "ModifiedProgramId")
    ∷ ("ExternalAccountLamportSpend", solana "ExternalAccountLamportSpend")
    ∷ ("ExternalAccountDataModified", solana "ExternalAccountDataModified")
    ∷ ("ReadonlyLamportChange", solana "ReadonlyLamportChange")
    ∷ ("ReadonlyDataModified", solana "ReadonlyDataModified")
    ∷ ("DuplicateAccountIndex", solana "DuplicateAccountIndex")
    ∷ ("ExecutableModified", solana "ExecutableModified")
    ∷ ("RentEpochModified", solana "RentEpochModified")
    ∷ ("NotEnoughAccountKeys", solana "NotEnoughAccountKeys")
    ∷ ("AccountDataSizeChanged", solana "AccountDataSizeChanged")
    ∷ ("AccountNotExecutable", solana "AccountNotExecutable")
    ∷ ("AccountBorrowFailed", solana "AccountBorrowFailed")
    ∷ ("AccountBorrowOutstanding", solana "AccountBorrowOutstanding")
    ∷ ("DuplicateAccountOutOfSync", solana "DuplicateAccountOutOfSync")
    ∷ ("InvalidError", solana "InvalidError")
    ∷ []

abbrev pub instruction_names_rest : List (String × ErrorClass)
instruction_names_rest =
    ("ExecutableDataModified", solana "ExecutableDataModified")
    ∷ ("ExecutableLamportChange", solana "ExecutableLamportChange")
    ∷ ("ExecutableAccountNotRentExempt", solana "ExecutableAccountNotRentExempt")
    ∷ ("UnsupportedProgramId", solana "UnsupportedProgramId")
    ∷ ("CallDepth", solana "CallDepth")
    ∷ ("MissingAccount", solana "MissingAccount")
    ∷ ("ReentrancyNotAllowed", solana "ReentrancyNotAllowed")
    ∷ ("MaxSeedLengthExceeded", solana "MaxSeedLengthExceeded")
    ∷ ("InvalidSeeds", solana "InvalidSeeds")
    ∷ ("InvalidRealloc", solana "InvalidRealloc")
    ∷ ("ComputationalBudgetExceeded", solana "ComputationalBudgetExceeded")
    ∷ ("PrivilegeEscalation", solana "PrivilegeEscalation")
    ∷ ("ProgramEnvironmentSetupFailure", solana "ProgramEnvironmentSetupFailure")
    ∷ ("ProgramFailedToComplete", solana "ProgramFailedToComplete")
    ∷ ("ProgramFailedToCompile", solana "ProgramFailedToCompile")
    ∷ ("Immutable", solana "Immutable")
    ∷ ("IncorrectAuthority", solana "IncorrectAuthority")
    ∷ ("BorshIoError", solana "BorshIoError")
    ∷ ("AccountNotRentExempt", solana "AccountNotRentExempt")
    ∷ ("InvalidAccountOwner", solana "InvalidAccountOwner")
    ∷ ("ArithmeticOverflow", solana "ArithmeticOverflow")
    ∷ ("UnsupportedSysvar", solana "UnsupportedSysvar")
    ∷ ("IllegalOwner", solana "IllegalOwner")
    ∷ ("MaxAccountsDataAllocationsExceeded", solana "MaxAccountsDataAllocationsExceeded")
    ∷ ("MaxAccountsExceeded", solana "MaxAccountsExceeded")
    ∷ ("MaxInstructionTraceLengthExceeded", solana "MaxInstructionTraceLengthExceeded")
    ∷ ("BuiltinProgramsMustConsumeComputeUnits", solana "BuiltinProgramsMustConsumeComputeUnits")
    ∷ []

abbrev pub transaction_names : List (String × ErrorClass)
transaction_names =
    ("AccountInUse", solana "AccountInUse")
    ∷ ("AccountLoadedTwice", solana "AccountLoadedTwice")
    ∷ ("AccountNotFound", solana "AccountNotFound")
    ∷ ("ProgramAccountNotFound", solana "ProgramAccountNotFound")
    ∷ ("InsufficientFundsForFee", solana "InsufficientFundsForFee")
    ∷ ("InvalidAccountForFee", solana "InvalidAccountForFee")
    ∷ ("AlreadyProcessed", solana "AlreadyProcessed")
    ∷ ("BlockhashNotFound", solana "BlockhashNotFound")
    ∷ ("CallChainTooDeep", solana "CallChainTooDeep")
    ∷ ("MissingSignatureForFee", solana "MissingSignatureForFee")
    ∷ ("InvalidAccountIndex", solana "InvalidAccountIndex")
    ∷ ("SignatureFailure", solana "SignatureFailure")
    ∷ ("InvalidProgramForExecution", solana "InvalidProgramForExecution")
    ∷ ("SanitizeFailure", solana "SanitizeFailure")
    ∷ ("ClusterMaintenance", solana "ClusterMaintenance")
    ∷ ("WouldExceedMaxBlockCostLimit", solana "WouldExceedMaxBlockCostLimit")
    ∷ ("UnsupportedVersion", solana "UnsupportedVersion")
    ∷ ("InvalidWritableAccount", solana "InvalidWritableAccount")
    ∷ ("WouldExceedMaxAccountCostLimit", solana "WouldExceedMaxAccountCostLimit")
    ∷ ("WouldExceedAccountDataBlockLimit", solana "WouldExceedAccountDataBlockLimit")
    ∷ ("TooManyAccountLocks", solana "TooManyAccountLocks")
    ∷ ("AddressLookupTableNotFound", solana "AddressLookupTableNotFound")
    ∷ ("InvalidAddressLookupTableOwner", solana "InvalidAddressLookupTableOwner")
    ∷ ("InvalidAddressLookupTableData", solana "InvalidAddressLookupTableData")
    ∷ ("InvalidAddressLookupTableIndex", solana "InvalidAddressLookupTableIndex")
    ∷ ("InvalidRentPayingAccount", solana "InvalidRentPayingAccount")
    ∷ ("WouldExceedMaxVoteCostLimit", solana "WouldExceedMaxVoteCostLimit")
    ∷ ("WouldExceedAccountDataTotalLimit", solana "WouldExceedAccountDataTotalLimit")
    ∷ ("DuplicateInstruction", solana "DuplicateInstruction")
    ∷ ("InsufficientFundsForRent", solana "InsufficientFundsForRent")
    ∷ ("MaxLoadedAccountsDataSizeExceeded", solana "MaxLoadedAccountsDataSizeExceeded")
    ∷ ("InvalidLoadedAccountsDataSizeLimit", solana "InvalidLoadedAccountsDataSizeLimit")
    ∷ ("ResanitizationNeeded", solana "ResanitizationNeeded")
    ∷ ("ProgramExecutionTemporarilyRestricted", solana "ProgramExecutionTemporarilyRestricted")
    ∷ ("UnbalancedTransaction", solana "UnbalancedTransaction")
    ∷ ("ProgramCacheHitMaxLimit", solana "ProgramCacheHitMaxLimit")
    ∷ ("CommitCancelled", solana "CommitCancelled")
    ∷ []

unfoldable pub solana_by_name : List (String × ErrorClass)
solana_by_name = instruction_names ++ instruction_names_rest ++ transaction_names

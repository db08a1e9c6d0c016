-- ===== src/Errors/Resolve.antt =====
-- `register_errors` and `build` of _errors.py.
use wake_sol.Prelude.{
  ℕ, Bool, true, false, ◌&&◌, String, Option, none, some, List, [], ◌∷◌, ltb, ◌==◌, if◌then◌else◌,
  str_eq,
}
use wake_sol.Prelude.Assoc.{by_name, by_number}
use wake_sol.Errors.Classes.{
  ErrorClass, transaction_failed, solana_error, unknown_error, class_code, TransactionFailed, new,
}
use wake_sol.Errors.Catalog.{solana_by_name, anchor_by_code, system_by_code, token_by_code}

abbrev pub anchor_user_error_offset : ℕ
anchor_user_error_offset = 6000

-- `_BUILTIN_BY_PROGRAM`
abbrev pub builtin_by_program : List (String × List (ℕ × ErrorClass))
builtin_by_program =
    ("11111111111111111111111111111111", system_by_code)
    ∷ ("TokenkegQfeZyiNwAJbNbGKPFXCWuBvf9Ss623VQ5DA", token_by_code)
    ∷ ("TokenzQdBNbLqP5VEhdkAS6EPFLC1PHnBqCXEpPxuEb", token_by_code)
    ∷ []

-- A key of `_PROGRAM_BY_CODE`: the program, if there is one, and the code.
pub record ErrorKey : Type 0 where
  pub program : Option String
  pub code : ℕ

unfoldable pub same_program : Option String → Option String → Bool
same_program none none = true
same_program none (some q) = false
same_program (some p) none = false
same_program (some p) (some q) = str_eq p q

unfoldable pub same_key : ErrorKey → ErrorKey → Bool
same_key a b = same_program a.program b.program && (a.code == b.code)

abbrev pub ErrorTable : Type 0
ErrorTable = List (ErrorKey × ErrorClass)

-- `.get((program_id, code))`
unfoldable pub known_error : ErrorKey → ErrorTable → Option ErrorClass
known_error k [] = none
known_error k ((j, cls) ∷ table) = if same_key j k then some cls else known_error k table

unfoldable pub set_error : ErrorKey → ErrorClass → ErrorTable → ErrorTable
set_error k cls [] = (k, cls) ∷ []
set_error k cls ((j, old) ∷ table) =
    if same_key j k then (j, cls) ∷ table else (j, old) ∷ set_error k cls table

unfoldable pub register_one : Option String → Option ℕ → ErrorClass → ErrorTable → ErrorTable
register_one program none sub table = table
register_one program (some code) sub table =
    set_error (record { program = program; code = code }) sub table

-- `register_errors`, of a base with the direct subclasses `subs`.
unfoldable pub register_errors : List ErrorClass → Option String → ErrorTable → ErrorTable
register_errors [] program table = table
register_errors (sub ∷ subs) program table =
    register_errors subs program (register_one program (class_code sub) sub table)

unfoldable pub or_class : Option ErrorClass → Option ErrorClass → Option ErrorClass
or_class (some cls) next = some cls
or_class none next = next

unfoldable pub class_or : ErrorClass → Option ErrorClass → ErrorClass
class_or cls none = cls
class_or cls (some found) = found

unfoldable pub builtin_of : Option String → Option (List (ℕ × ErrorClass))
builtin_of none = none
builtin_of (some program) = by_name program builtin_by_program

unfoldable pub anchor_class : ℕ → Option ErrorClass
anchor_class code =
    if ltb code anchor_user_error_offset then by_number code anchor_by_code else none

unfoldable pub find_class :
    ErrorTable → Option String → ℕ → Option (List (ℕ × ErrorClass)) → Option ErrorClass
unfolding or_class
find_class table program code (some builtin) = by_number code builtin
find_class table program code none =
    or_class (known_error (record { program = program; code = code }) table)
      (or_class (known_error (record { program = none; code = code }) table) (anchor_class code))

unfoldable pub build_code :
    ErrorTable → Option ℕ → Option ℕ → Option ℕ → Option String → TransactionFailed
unfolding class_or
build_code table none ix account program = new transaction_failed none ix account
build_code table (some code) ix account program =
    new (class_or unknown_error (find_class table program code (builtin_of program))) (some code) ix
      account

unfoldable pub build :
    ErrorTable → Option ℕ → Option String → Option ℕ → Option ℕ → Option String → TransactionFailed
unfolding class_or
build table code (some native) ix account program =
    new (class_or solana_error (by_name native solana_by_name)) none ix account
build table code none ix account program = build_code table code ix account program

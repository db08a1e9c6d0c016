-- ===== src/Tests/Errors.antt =====
-- The theorems on _errors.py at concrete errors.
use wake_sol.Prelude.{
  ◌≡◌, ◌≢◌, refl, ap, eq_iff, ◌⊎◌, Bool, true, false, String, Option, none, some, List, [], ◌∷◌,
  arith,
}
use wake_sol.Prelude.Int.{pos}
use wake_sol.Prelude.Assoc.{by_name, by_number}
use wake_sol.Errors.Classes.{
  ErrorClass, derived, program_error, anchor_error, unknown_error, class_code, TransactionFailed,
  new,
}
use wake_sol.Errors.Catalog.{anchor_by_code}
use wake_sol.Errors.Resolve.{
  register_errors, builtin_of, class_or, build, build_code, find_class, known_error, or_class,
  anchor_class,
}
use wake_sol.Errors.Expect.{Expected, error_class, code}
use wake_sol.Errors.Scoping.{build-register_other, build-register_errors}
use wake_sol.Errors.Coded.{none_yet, register_errors-Keyed, build-declared}

abbrev vault_error : ErrorClass
vault_error = derived program_error "VaultError" none

abbrev empty_vault : ErrorClass
empty_vault = derived vault_error "EmptyVault" (some 6000)

abbrev too_small : ErrorClass
too_small = derived vault_error "TooSmall" (some 6001)

abbrev vault_id : String
vault_id = "VauLt1111111111111111111111111111111111111"

abbrev other_id : String
other_id = "Other1111111111111111111111111111111111111"

abbrev subs : List ErrorClass
subs = empty_vault ∷ too_small ∷ []

abbrev value_or : String → Option String → String
value_or d none = d
value_or d (some s) = s

vault-ne-other : some vault_id ≢ some other_id
vault-ne-other h =
    let q : vault_id ≡ other_id = ap (value_or vault_id) h in
    let e : ◌≡◌ {A = Bool} false true = (eq_iff vault_id other_id).1 q in cc

build-register_other_example :
    build (register_errors subs (some vault_id) []) (some 6000) none (some 0) none (some other_id)
    ≡ build [] (some 6000) none (some 0) none (some other_id)
build-register_other_example =
    build-register_other subs vault_id [] (some 6000) none (some 0) none (some other_id)
      vault-ne-other

no_builtin : builtin_of (some vault_id) ≡ none
unfolding builtin_of by_name
no_builtin = refl

code-empty_vault : class_code empty_vault ≡ some 6000
unfolding class_code
code-empty_vault = refl

code-too_small : class_code too_small ≢ some 6000
unfolding class_code
code-too_small = ground arith

build-register_errors_example :
    build (register_errors subs (some vault_id) []) (some 6000) none (some 0) none (some vault_id)
    ≡ new empty_vault (some 6000) (some 0) none
build-register_errors_example =
    build-register_errors [] (too_small ∷ []) empty_vault vault_id 6000 [] (some 0) none no_builtin
      code-empty_vault (code-too_small, tt)

build-declared_example :
    ((build
        (register_errors subs (some vault_id) [])
        (some 2001)
        none
        none
        none
        (some vault_id)).code
      ≡ some 2001)
    × (((build
            (register_errors subs (some vault_id) [])
            (some 2001)
            none
            none
            none
            (some vault_id)).cls
          ≡ unknown_error)
        ⊎ (class_code
              (build
                (register_errors subs (some vault_id) [])
                (some 2001)
                none
                none
                none
                (some vault_id)).cls
            ≡ some 2001))
build-declared_example =
    build-declared (register_errors subs (some vault_id) []) 2001 none none (some vault_id)
      (register_errors-Keyed subs (some vault_id) [] none_yet)

-- A framework code is not taken from another program, and a code of System is no Anchor code.
anchor_code_built :
    (build [] (some 2001) none none none (some vault_id)).cls
    ≡ derived anchor_error "ConstraintHasOne" (some 2001)
unfolding build build_code find_class known_error or_class class_or new builtin_of by_name
    anchor_class by_number anchor_by_code
anchor_code_built = refl

abbrev raised_error : TransactionFailed
raised_error = record {
  cls = empty_vault;
  code = some 6000;
  instruction_index = some 0;
  account_index = none;
}

abbrev expected : List Expected
expected = error_class anchor_error ∷ code (pos 6000) ∷ []

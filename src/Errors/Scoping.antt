-- ===== src/Errors/Scoping.antt =====
-- Which registration an error code is resolved by (_errors.py).
use wake_sol.Prelude.{
  ℕ, ◌≡◌, ◌≢◌, refl, ◌∙◌, ◌↔◌, true, String, Option, none, some, List, [], ◌∷◌, ◌++◌, All, eq_iff,
  arith, if◌then◌else◌,
}
use wake_sol.Errors.Classes.{ErrorClass, unknown_error, class_code, new}
use wake_sol.Errors.Resolve.{
  ErrorKey, same_program, same_key, ErrorTable, known_error, set_error, register_one,
  register_errors, or_class, class_or, builtin_of, find_class, build_code, build,
}

pub same_program_iff : (p q : Option String) → (same_program p q ≡ true) ↔ (p ≡ q)
unfolding same_program
same_program_iff none none = ground arith
same_program_iff none (some q) = ground arith
same_program_iff (some p) none = ground arith
same_program_iff (some p) (some q) = ground (arith, eq_iff p q)

pub same_key_iff : (a b : ErrorKey) → (same_key a b ≡ true) ↔ (a ≡ b)
unfolding same_key
same_key_iff a b = ground (arith, same_program_iff a.program b.program)

pub known_error-set_error :
    (k j : ErrorKey) (cls : ErrorClass) (table : ErrorTable)
    → known_error j (set_error k cls table)
      ≡ (if same_key k j then some cls else known_error j table)
unfolding known_error set_error
known_error-set_error k j cls [] = refl
known_error-set_error k j cls ((i, old) ∷ table) = ground (
  arith,
  same_key_iff i k,
  same_key_iff i j,
  same_key_iff k j,
  known_error-set_error k j cls table,
)

abbrev key : Option String → ℕ → ErrorKey
key program code = record { program = program; code = code }

-- A registration reaches the keys of its program only.
register_one_other :
    (p q : Option String) (c : Option ℕ) (n : ℕ) (sub : ErrorClass) (table : ErrorTable)
    → p ≢ q
    → known_error (key q n) (register_one p c sub table) ≡ known_error (key q n) table
unfolding register_one
register_one_other p q none n sub table h = refl
register_one_other p q (some m) n sub table h =
    ground
      (arith, known_error-set_error (key p m) (key q n) sub table, same_key_iff (key p m) (key q n))

register_errors_other :
    (p q : Option String) (n : ℕ) (subs : List ErrorClass) (table : ErrorTable)
    → p ≢ q
    → known_error (key q n) (register_errors subs p table) ≡ known_error (key q n) table
unfolding register_errors
register_errors_other p q n [] table h = refl
register_errors_other p q n (sub ∷ subs) table h =
    register_errors_other p q n subs (register_one p (class_code sub) sub table) h
    ∙ register_one_other p q (class_code sub) n sub table h

-- A registration reaches its codes only.
register_one_code :
    (p : Option String) (c : Option ℕ) (n : ℕ) (sub : ErrorClass) (table : ErrorTable)
    → c ≢ some n
    → known_error (key p n) (register_one p c sub table) ≡ known_error (key p n) table
unfolding register_one
register_one_code p none n sub table h = refl
register_one_code p (some m) n sub table h =
    ground
      (arith, known_error-set_error (key p m) (key p n) sub table, same_key_iff (key p m) (key p n))

register_errors_code :
    (p : Option String) (n : ℕ) (subs : List ErrorClass) (table : ErrorTable)
    → All (λ s. class_code s ≢ some n) subs
    → known_error (key p n) (register_errors subs p table) ≡ known_error (key p n) table
unfolding register_errors
register_errors_code p n [] table h = refl
register_errors_code p n (sub ∷ subs) table (h, hs) =
    register_errors_code p n subs (register_one p (class_code sub) sub table) hs
    ∙ register_one_code p (class_code sub) n sub table h

register_one_same :
    (p : Option String) (n : ℕ) (sub : ErrorClass) (table : ErrorTable)
    → known_error (key p n) (register_one p (some n) sub table) ≡ some sub
unfolding register_one
register_one_same p n sub table =
    ground
      (arith, known_error-set_error (key p n) (key p n) sub table, same_key_iff (key p n) (key p n))

register_errors_last :
    (p : Option String) (n : ℕ) (before after : List ErrorClass) (sub : ErrorClass)
    (table : ErrorTable)
    → class_code sub ≡ some n
    → All (λ s. class_code s ≢ some n) after
    → known_error (key p n) (register_errors (before ++ sub ∷ after) p table) ≡ some sub
unfolding register_errors
register_errors_last p n [] after sub table c h =
    register_errors_code p n after (register_one p (class_code sub) sub table) h
    ∙ rw c (register_one_same p n sub table)
register_errors_last p n (s ∷ before) after sub table c h =
    register_errors_last p n before after sub (register_one p (class_code s) s table) c h

-- Registering the errors of one program changes nothing of what is built for any other program, or
-- for none.
pub build-register_other :
    (subs : List ErrorClass) (p : String) (table : ErrorTable) (code : Option ℕ)
    (native : Option String) (ix account : Option ℕ) (q : Option String)
    → some p ≢ q
    → build (register_errors subs (some p) table) code native ix account q
      ≡ build table code native ix account q
unfolding build build_code find_class
build-register_other subs p table code (some native) ix account q h = refl
build-register_other subs p table none none ix account q h = refl
build-register_other subs p table (some code) none ix account q h = by_builtin (builtin_of q)
  where
    same :
        known_error (key q code) (register_errors subs (some p) table)
        ≡ known_error (key q code) table
    same = register_errors_other (some p) q code subs table h

    unscoped :
        known_error (key none code) (register_errors subs (some p) table)
        ≡ known_error (key none code) table
    unscoped = register_errors_other (some p) none code subs table (λ e. cc)

    by_builtin :
        (b : Option (List (ℕ × ErrorClass)))
        → new
            (class_or unknown_error (find_class (register_errors subs (some p) table) q code b))
            (some code)
            ix
            account
          ≡ new (class_or unknown_error (find_class table q code b)) (some code) ix account
    by_builtin none = rw (same, unscoped) refl
    by_builtin (some b) = refl

-- A code of a registered program that is not builtin is built as the last of the registered classes
-- with that code, whatever was registered before.
pub build-register_errors :
    (before after : List ErrorClass) (sub : ErrorClass) (p : String) (n : ℕ) (table : ErrorTable)
    (ix account : Option ℕ)
    → builtin_of (some p) ≡ none
    → class_code sub ≡ some n
    → All (λ s. class_code s ≢ some n) after
    → build
        (register_errors (before ++ sub ∷ after) (some p) table)
        (some n)
        none
        ix
        account
        (some p)
      ≡ new sub (some n) ix account
unfolding build build_code find_class or_class class_or
build-register_errors before after sub p n table ix account b c h =
    rw (b, register_errors_last (some p) n before after sub table c h) refl

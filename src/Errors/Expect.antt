-- ===== src/Errors/Expect.antt =====
-- `must_fail` and `may_fail` of _errors.py.
use wake_sol.Prelude.{ℕ, Bool, false, ◌||◌, Option, none, some, List, [], ◌∷◌, ◌==◌, if◌then◌else◌}
use wake_sol.Prelude.Int.{ℤ, pos, negsuc}
use wake_sol.Codec.Result.{Result, ok, err, out_of_fuel, type_error, ◌>>=◌}
use wake_sol.Errors.Classes.{ErrorClass, transaction_failed, is_subclass, TransactionFailed}

-- An argument: a class derived from TransactionFailed, an int, a bool, or anything else.
pub data Expected : Type 0 where
  error_class : ErrorClass → Expected
  code : ℤ → Expected
  boolean : Bool → Expected
  other_value : Expected

-- What `_split_expected` returns.
pub record Split : Type 0 where
  pub types : List ErrorClass
  pub codes : List ℤ

-- The loop of `_split_expected`.
unfoldable pub split_each : List Expected → Result Split
split_each [] = ok (record { types = []; codes = [] })
split_each (error_class c ∷ expected) =
    split_each expected >>= λ s. ok (record s { types = c ∷ s.types })
split_each (code n ∷ expected) = split_each expected >>= λ s. ok (record s { codes = n ∷ s.codes })
split_each (boolean b ∷ expected) = err type_error
split_each (other_value ∷ expected) = err type_error

unfoldable pub split_expected : List Expected → Result Split
split_expected [] = ok (record { types = transaction_failed ∷ []; codes = [] })
split_expected (x ∷ expected) = split_each (x ∷ expected)

-- `isinstance(e, types)`
unfoldable pub is_any : ErrorClass → List ErrorClass → Bool
is_any c [] = false
is_any c (d ∷ types) = is_subclass c d || is_any c types

unfoldable pub is_code : ℕ → ℤ → Bool
is_code n (pos m) = n == m
is_code n (negsuc m) = false

unfoldable pub has_code : Option ℕ → List ℤ → Bool
has_code none codes = false
has_code (some n) [] = false
has_code (some n) (k ∷ codes) = is_code n k || has_code (some n) codes

unfoldable pub matches : TransactionFailed → Split → Bool
matches e s = is_any e.cls s.types || has_code e.code s.codes

-- How the body of the `with` statement ends.
pub data Body : Type 0 where
  finished : Body
  failed : TransactionFailed → Body
  other_exception : Body

-- How the statement ends: the wrapper's value, or what is raised.
pub data Verdict : Type 0 where
  wrapper : Option TransactionFailed → Verdict
  reraised : TransactionFailed → Verdict
  passed_on : Verdict
  not_failed : Verdict
  refused : Verdict

unfoldable pub caught : TransactionFailed → Split → Verdict
caught e s = if matches e s then wrapper (some e) else reraised e

unfoldable pub must_fail_body : Split → Body → Verdict
must_fail_body s finished = not_failed
must_fail_body s (failed e) = caught e s
must_fail_body s other_exception = passed_on

unfoldable pub may_fail_body : Split → Body → Verdict
may_fail_body s finished = wrapper none
may_fail_body s (failed e) = caught e s
may_fail_body s other_exception = passed_on

-- The arguments are looked at before the body runs.
unfoldable pub with_split : Result Split → (Split → Verdict) → Verdict
with_split (ok s) run = run s
with_split (err e) run = refused
with_split out_of_fuel run = refused

unfoldable pub must_fail : List Expected → Body → Verdict
unfolding with_split
must_fail expected body = with_split (split_expected expected) (λ s. must_fail_body s body)

unfoldable pub may_fail : List Expected → Body → Verdict
unfolding with_split
may_fail expected body = with_split (split_expected expected) (λ s. may_fail_body s body)

-- ===== src/Errors/Accepting.antt =====
-- Which failures `must_fail` and `may_fail` of _errors.py accept.
use wake_sol.Prelude.{
  ℕ, ◌≡◌, refl, ap, ◌↔◌, Bool, true, false, ◌||◌, Option, none, some, List, [], ◌∷◌, arith,
  if◌then◌else◌,
}
use wake_sol.Prelude.Int.{ℤ}
use wake_sol.Codec.Result.{Result, ok, err, out_of_fuel, first_returned}
use wake_sol.Errors.Classes.{ErrorClass, transaction_failed, is_subclass, TransactionFailed}
use wake_sol.Errors.Subclasses.{is_subclass_root, is_subclass_trans}
use wake_sol.Errors.Expect.{
  Expected, error_class, code, boolean, other_value, Split, split_each, split_expected, is_any,
  has_code, matches, Body, finished, failed, other_exception, Verdict, wrapper, reraised, caught,
  must_fail_body, with_split, must_fail,
}

-- An argument that a call takes.
abbrev pub Valid : Expected → Type 0
Valid (error_class c) = Unit {0}
Valid (code n) = Unit {0}
Valid (boolean b) = ⊥
Valid other_value = ⊥

abbrev pub AllValid : List Expected → Type 0
AllValid [] = Unit {0}
AllValid (x ∷ xs) = Valid x × AllValid xs

-- The error is an instance of the class, or has the code.
unfoldable pub fits : TransactionFailed → Expected → Bool
fits e (error_class c) = is_subclass e.cls c
fits e (code n) = has_code e.code (n ∷ [])
fits e (boolean b) = false
fits e other_value = false

unfoldable pub fits_any : TransactionFailed → List Expected → Bool
fits_any e [] = false
fits_any e (x ∷ xs) = fits e x || fits_any e xs

-- Anything fits an empty list.
unfoldable pub accepts : TransactionFailed → List Expected → Bool
accepts e [] = true
accepts e (x ∷ xs) = fits_any e (x ∷ xs)

has_code_cons :
    (c : Option ℕ) (n : ℤ) (codes : List ℤ)
    → has_code c (n ∷ codes) ≡ (has_code c (n ∷ []) || has_code c codes)
unfolding has_code
has_code_cons none n codes = refl
has_code_cons (some m) n codes = ground arith

-- What the arguments are split into matches the errors that fit one of them.
split_each_lem :
    (e : TransactionFailed) (xs : List Expected)
    → AllValid xs
    → (s : Split) × (split_each xs ≡ ok s) × (matches e s ≡ fits_any e xs)
unfolding split_each matches is_any has_code fits fits_any
split_each_lem e [] v = (record { types = []; codes = [] }, refl, no_code e.code)
  where
    no_code : (c : Option ℕ) → has_code c [] ≡ false
    no_code none = refl
    no_code (some n) = refl
split_each_lem e (error_class c ∷ xs) (v, vs) =
    let (s, q, m) = split_each_lem e xs vs in
    (record s { types = c ∷ s.types }, rw q refl, ground (arith))
split_each_lem e (code n ∷ xs) (v, vs) =
    let (s, q, m) = split_each_lem e xs vs in
    (record s { codes = n ∷ s.codes }, rw q refl, ground (arith, has_code_cons e.code n s.codes))
split_each_lem e (boolean b ∷ xs) (v, vs) = absurd v
split_each_lem e (other_value ∷ xs) (v, vs) = absurd v

split_expected_lem :
    (e : TransactionFailed) (xs : List Expected)
    → AllValid xs
    → (s : Split) × (split_expected xs ≡ ok s) × (matches e s ≡ accepts e xs)
unfolding split_expected accepts matches is_any
split_expected_lem e [] v =
    (record { types = transaction_failed ∷ []; codes = [] }, refl, rw (is_subclass_root e.cls) refl)
split_expected_lem e (x ∷ xs) v = split_each_lem e (x ∷ xs) v

split_each-AllValid : (xs : List Expected) (s : Split) → split_each xs ≡ ok s → AllValid xs
unfolding split_each
split_each-AllValid [] s h = tt
split_each-AllValid (error_class c ∷ xs) s h =
    let (s', _, q) =
      first_returned {A = Split} (λ s. ok (record s { types = c ∷ s.types })) (split_each xs) s h in
    (tt, split_each-AllValid xs s' q)
split_each-AllValid (code n ∷ xs) s h =
    let (s', _, q) =
      first_returned {A = Split} (λ s. ok (record s { codes = n ∷ s.codes })) (split_each xs) s h in
    (tt, split_each-AllValid xs s' q)
split_each-AllValid (boolean b ∷ xs) s h = cc
split_each-AllValid (other_value ∷ xs) s h = cc

split_expected-AllValid : (xs : List Expected) (s : Split) → split_expected xs ≡ ok s → AllValid xs
unfolding split_expected
split_expected-AllValid [] s h = tt
split_expected-AllValid (x ∷ xs) s h = split_each-AllValid (x ∷ xs) s h

-- What `must_fail` makes of valid arguments.
must_fail_valid :
    (xs : List Expected) (body : Body) (e : TransactionFailed)
    → AllValid xs
    → body ≡ failed e
    → must_fail xs body ≡ (if accepts e xs then wrapper (some e) else reraised e)
unfolding must_fail must_fail_body with_split caught
must_fail_valid xs body e v q = let (s, sp, m) = split_expected_lem e xs v in rw (q, sp, m) refl

caught-wrapper :
    (e e' : TransactionFailed) (s : Split)
    → caught e s ≡ wrapper (some e')
    → (e ≡ e') × (matches e s ≡ true)
unfolding caught
caught-wrapper e e' s h = ground arith

must_fail_body-wrapper :
    (body : Body) (e : TransactionFailed) (s : Split)
    → must_fail_body s body ≡ wrapper (some e)
    → (body ≡ failed e) × (matches e s ≡ true)
unfolding must_fail_body
must_fail_body-wrapper finished e s h = cc
must_fail_body-wrapper (failed e') e s h =
    let (q, m) = caught-wrapper e' e s h in (ap failed q, rw q at m)
must_fail_body-wrapper other_exception e s h = cc

with_split-wrapper :
    (r : Result Split) (run : Split → Verdict) (o : Option TransactionFailed)
    → with_split r run ≡ wrapper o
    → (s : Split) × (r ≡ ok s) × (run s ≡ wrapper o)
unfolding with_split
with_split-wrapper (ok s) run o h = (s, refl, h)
with_split-wrapper (err x) run o h = cc
with_split-wrapper out_of_fuel run o h = cc

must_fail-wrapper :
    (xs : List Expected) (body : Body) (e : TransactionFailed)
    → must_fail xs body ≡ wrapper (some e)
    → AllValid xs × (body ≡ failed e) × (accepts e xs ≡ true)
unfolding must_fail
must_fail-wrapper xs body e h =
    let (s, sp, w) =
      with_split-wrapper (split_expected xs) (λ s. must_fail_body s body) (some e) h in
    let valid = split_expected-AllValid xs s sp in
    let (s', sp', m) = split_expected_lem e xs valid in
    let (q, fit) = must_fail_body-wrapper body e s w in let same : s ≡ s' = cc in (valid, q, cc)

-- `must_fail` ends with the error `e` in its wrapper exactly when the body failed with `e`, every
-- argument is a class of errors or an int, and there is no argument or `e` is an instance of one of
-- the classes or has one of the codes.
pub must_fail-wrapper_iff :
    (xs : List Expected) (body : Body) (e : TransactionFailed)
    → (must_fail xs body ≡ wrapper (some e))
      ↔ (AllValid xs × (body ≡ failed e) × (accepts e xs ≡ true))
must_fail-wrapper_iff xs body e =
    (must_fail-wrapper xs body e, λ h. rw (must_fail_valid xs body e h.0 h.1, h.2) refl)

-- An error that is accepted where a class is expected is accepted where a base of it is.
pub must_fail-base :
    (c d : ErrorClass) (body : Body) (e : TransactionFailed)
    → is_subclass c d ≡ true
    → must_fail (error_class c ∷ []) body ≡ wrapper (some e)
    → must_fail (error_class d ∷ []) body ≡ wrapper (some e)
unfolding accepts fits_any fits
must_fail-base c d body e sub h =
    let (v, q, a) = (must_fail-wrapper_iff (error_class c ∷ []) body e).0 h in
    let below : is_subclass e.cls c ≡ true = ground arith in
    (must_fail-wrapper_iff (error_class d ∷ []) body e).1
      (v, q, rw (is_subclass_trans e.cls c d below sub) refl)

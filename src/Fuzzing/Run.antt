-- ===== src/Fuzzing/Run.antt =====
-- The variables of `_run` of fuzzing.py, and actions on them that may raise.
use wake_sol.Prelude.{ℕ, String, List}
use wake_sol.Fuzzing.Stats.{Flows}

-- What the engine raises, or an exception of the test's own code.
pub data Exc : Type 0 where
  runtime_error : List String → List String → Exc
  value_error : Exc
  raised_by_test : String → Exc

-- `current`
pub data Current : Type 0 where
  nothing_yet : Current
  flow : String → Current
  invariant : String → Current

-- `W` is all that the test's own code sees and changes: the SVM, the instance, the random source.
-- The counters are keyed by function.
pub record Run (W : Type 0) : Type 0 where
  pub world : W
  pub sequence_num : ℕ
  pub flow_num : ℕ
  pub flows_counter : List (ℕ × ℕ)
  pub invariant_periods : List (ℕ × ℕ)
  pub stats : Flows
  pub trace : List String
  pub current : Current

pub data Outcome (S A : Type 0) : Type 0 where
  returned : A → S → Outcome S A
  raised : Exc → S → Outcome S A

-- Code of the test.
abbrev pub Code : Type 0 → Type 0 → Type 0
Code W A = W → Outcome W A

abbrev pub M : Type 0 → Type 0 → Type 0
M W A = Run W → Outcome (Run W) A

infixl 5 ◌>>=◌ ◌>>◌
abbrev pub ◌>>=◌ : {W A B : Type 0} → M W A → (A → M W B) → M W B
◌>>=◌ m f r = elim (m r) [ returned a r' ↦ f a r' | raised e r' ↦ raised e r' ]

abbrev pub ◌>>◌ : {W A B : Type 0} → M W A → M W B → M W B
m >> k = m >>= λ _. k

abbrev pub pure : {W A : Type 0} → A → M W A
pure a r = returned a r

abbrev pub raise : {W A : Type 0} → Exc → M W A
raise e r = raised e r

abbrev pub modify : {W : Type 0} → (Run W → Run W) → M W (Unit {0})
modify f r = returned tt (f r)

unfoldable pub in_run : {W A : Type 0} → Run W → Outcome W A → Outcome (Run W) A
in_run r (returned a w) = returned a (record r { world = w })
in_run r (raised e w) = raised e (record r { world = w })

-- A call of the test's code, which reaches the world only.
unfoldable pub call : {W A : Type 0} → Code W A → M W A
unfolding in_run
call code r = in_run r (code r.world)

-- ===== src/Runner/Assign.antt =====
-- How the server of _mp_server.py deals the tests out.
use wake_sol.Prelude.{ℕ, zero, suc, ◌+◌, ◌-◌, ◌*◌, ◌/◌, List, [], ◌∷◌, ◌==◌, if◌then◌else◌}

-- `--dist`
pub data Dist : Type 0 where
  uniform duplicated : Dist

unfoldable pub count_up : ℕ → ℕ → List ℕ
count_up lo zero = []
count_up lo (suc k) = lo ∷ count_up (lo + 1) k

-- `list(range(lo, hi))`
unfoldable pub range : ℕ → ℕ → List ℕ
range lo hi = count_up lo (hi - lo)

-- The indices of the tests for worker `i` of `procs`, of `n` tests.
unfoldable pub assign : Dist → ℕ → ℕ → ℕ → List ℕ
assign uniform n procs i =
    let step = n / procs in
    if i == procs - 1 then range (i * step) n else range (i * step) ((i + 1) * step)
assign duplicated n procs i = range 0 n

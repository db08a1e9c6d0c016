-- ===== src/Runner/Partition.antt =====
-- Every test is dealt out (_mp_server.py).
use wake_sol.Prelude.{
  ℕ, zero, suc, ◌+◌, ◌-◌, ◌*◌, ◌/◌, ◌≤◌, ◌<◌, ◌≡◌, refl, sym, ap, ◌∙◌, List, [], ◌∷◌, ◌++◌,
  append-nil, ◌==◌, true, false, arith,
}
use native.Mathlib.Nat.{mul-le-mul_right, mul-div-le, add-mul}
use wake_sol.Runner.Assign.{Dist, uniform, count_up, range, assign}

-- The lists of workers `i`, `i + 1`, ..., `k` of them, one after another.
unfoldable pub dealt : Dist → ℕ → ℕ → ℕ → ℕ → List ℕ
dealt d n procs i zero = []
dealt d n procs i (suc k) = assign d n procs i ++ dealt d n procs (i + 1) k

count_up-append : (lo a b : ℕ) → count_up lo a ++ count_up (lo + a) b ≡ count_up lo (a + b)
unfolding count_up
count_up-append lo zero b =
    let q : lo + 0 ≡ lo = omega arith in let r : 0 + b ≡ b = omega arith in rw (q, r) refl
count_up-append lo (suc a) b =
    let q : lo + suc a ≡ lo + 1 + a = omega arith in
    let r : suc a + b ≡ suc (a + b) = omega arith in
    rw (q, r) (ap (λ l. lo ∷ l) (count_up-append (lo + 1) a b))

range-append : (a b c : ℕ) → a ≤ b → b ≤ c → range a b ++ range b c ≡ range a c
unfolding range
range-append a b c h k =
    let q : b ≡ a + (b - a) = omega arith in
    let r : c - a ≡ (b - a) + (c - b) = omega arith in
    ap (λ t. count_up a (b - a) ++ count_up t (c - b)) q
    ∙ count_up-append a (b - a) (c - b)
    ∙ ap (count_up a) (sym r)

dealt_from :
    (n procs i k : ℕ)
    → i + suc k ≡ procs
    → dealt uniform n procs i (suc k) ≡ range (i * (n / procs)) n
unfolding dealt assign
dealt_from n procs i zero h =
    let q : (i == procs - 1) ≡ true = ground arith in rw q (append-nil (range (i * (n / procs)) n))
dealt_from n procs i (suc k) h =
    let step = n / procs in
    let q : (i == procs - 1) ≡ false = ground arith in
    let next : (i + 1) * step ≡ i * step + step = omega (arith, add-mul i 1 step) in
    let whole : procs * step ≤ n = mul-div-le n procs in
    let part : (i + 1) * step ≤ procs * step = mul-le-mul_right step (omega arith) in
    rw q (
      ap (λ l. range (i * step) ((i + 1) * step) ++ l) (dealt_from n procs (i + 1) k (omega arith))
      ∙ range-append (i * step) ((i + 1) * step) n (omega arith) (omega arith))

-- With at least one worker, the lists of a uniform distribution, one after another, are all the
-- tests, each once and in order.
pub dealt-uniform : (n procs : ℕ) → 0 < procs → dealt uniform n procs 0 procs ≡ range 0 n
dealt-uniform n zero h = absurd (omega arith)
dealt-uniform n (suc k) h =
    let q : 0 * (n / suc k) ≡ 0 = omega arith in
    dealt_from n (suc k) 0 k (omega arith) ∙ ap (λ a. range a n) q

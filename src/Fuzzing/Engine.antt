-- ===== src/Fuzzing/Engine.antt =====
-- `_run` of fuzzing.py.
use wake_sol.Prelude.{
  ℕ, zero, suc, ◌+◌, ◌-◌, Bool, true, not, ◌&&◌, String, Option, none, some, List, [], ◌∷◌, ◌++◌,
  ltb, leb, ◌==◌, if◌then◌else◌,
}
use wake_sol.Prelude.Assoc.{by_number, insert, insert_number}
use wake_sol.Fuzzing.Stats.{
  or_zero, count_of, FlowStats, no_stats, Flows, stats_of, SessionStats, record_run_stats,
}
use wake_sol.Fuzzing.Run.{
  Exc, runtime_error, value_error, Current, nothing_yet, flow, invariant, Run, Outcome, returned,
  raised, Code, M, ◌>>=◌, ◌>>◌, pure, modify, call,
}

-- A function marked by `@flow`; `id` is its identity. A `str` that it returns is `some`.
pub record Flow (W : Type 0) : Type 0 where
  pub id : ℕ
  pub name : String
  pub weight : ℕ
  pub max_times : Option ℕ
  pub precondition : Option (W → Bool)
  pub body : Code W (Option String)

-- A function marked by `@invariant`.
pub record Invariant (W : Type 0) : Type 0 where
  pub id : ℕ
  pub name : String
  pub period : ℕ
  pub body : Code W (Unit {0})

-- A class with its hooks. `reset` is `svm.reset()`, `choices` draws the index of one of the
-- weights, and the numbers of the sequence and the flow are told to the instance.
pub record FuzzTest (W : Type 0) : Type 0 where
  pub name : String
  pub flows : List (Flow W)
  pub invariants : List (Invariant W)
  pub reset : W → W
  pub set_numbers : ℕ → ℕ → W → W
  pub draw : ℕ → W → ℕ × W
  pub pre_sequence : Code W (Unit {0})
  pub post_sequence : Code W (Unit {0})
  pub pre_flow : String → Code W (Unit {0})
  pub post_flow : String → Code W (Unit {0})
  pub pre_invariants : Code W (Unit {0})
  pub post_invariants : Code W (Unit {0})
  pub pre_invariant : String → Code W (Unit {0})
  pub post_invariant : String → Code W (Unit {0})

abbrev pub times : ℕ → List (ℕ × ℕ) → ℕ
times id m = or_zero (by_number id m)

unfoldable pub below_cap : Option ℕ → ℕ → Bool
below_cap none n = true
below_cap (some m) n = ltb n m

unfoldable pub open_gate : {W : Type 0} → Option (W → Bool) → W → Bool
open_gate none w = true
open_gate (some p) w = p w

unfoldable pub runnable : {W : Type 0} → Run W → Flow W → Bool
runnable r f =
    below_cap f.max_times (times f.id r.flows_counter) && open_gate f.precondition r.world

-- The names of those that are at their cap, or whose gate is shut.
unfoldable pub select : {W : Type 0} → (Flow W → Bool) → List (Flow W) → List (Flow W)
select p [] = []
select p (f ∷ fs) = let rest = select p fs in if p f then f ∷ rest else rest

unfoldable pub names : {W : Type 0} → List (Flow W) → List String
names [] = []
names (f ∷ fs) = f.name ∷ names fs

unfoldable pub no_runnable : {W : Type 0} → Run W → List (Flow W) → Exc
no_runnable r flows =
    runtime_error
      (names (select (λ f. not (below_cap f.max_times (times f.id r.flows_counter))) flows))
      (names (select (λ f. not (open_gate f.precondition r.world)) flows))

unfoldable pub total_weight : {W : Type 0} → List (Flow W) → ℕ
total_weight [] = 0
total_weight (f ∷ fs) = f.weight + total_weight fs

-- The flow whose share of the cumulated weights holds `r`; the last one if none does.
unfoldable pub pick : {W : Type 0} → ℕ → Flow W → List (Flow W) → Flow W
pick r f [] = f
pick r f (g ∷ fs) = let rest = pick (r - f.weight) g fs in if ltb r f.weight then f else rest

-- `random.choices(valid, weights)[0]`
unfoldable pub choose : {W : Type 0} → FuzzTest W → Flow W → List (Flow W) → M W (Flow W)
choose t f fs r =
    let total = total_weight (f ∷ fs) in
    let (n, w) = t.draw total r.world in
    if total == 0 then raised value_error r else returned (pick n f fs) (record r { world = w })

unfoldable pub bump_picked : FlowStats → FlowStats
bump_picked s = record s { picked = s.picked + 1 }

unfoldable pub bump_ran : FlowStats → FlowStats
bump_ran s = record s { ran = s.ran + 1 }

unfoldable pub bump_skipped : String → FlowStats → FlowStats
bump_skipped reason s = record s {
  skipped = s.skipped + 1;
  reasons = insert reason (count_of reason s.reasons + 1) s.reasons;
}

unfoldable pub update_stats : String → (FlowStats → FlowStats) → Flows → Flows
update_stats name f stats = insert name (f (stats_of name stats)) stats

-- The choice is noted before the flow runs.
unfoldable pub note_choice : {W : Type 0} → Flow W → Run W → Run W
note_choice f r = record r {
  current = flow f.name;
  trace = r.trace ++ f.name ∷ [];
  stats = update_stats f.name bump_picked r.stats;
}

-- What the flow returned is counted.
unfoldable pub note_result : {W : Type 0} → Flow W → Option String → Run W → Run W
note_result f none r = record r {
  flows_counter = insert_number f.id (times f.id r.flows_counter + 1) r.flows_counter;
  stats = update_stats f.name bump_ran r.stats;
}
note_result f (some reason) r = record r {
  stats = update_stats f.name (bump_skipped reason) r.stats;
}

unfoldable pub run_flow : {W : Type 0} → FuzzTest W → Flow W → M W (Unit {0})
run_flow t f = do
  modify (note_choice f)
  call (t.pre_flow f.name)
  ret ← call f.body
  call (t.post_flow f.name)
  modify (note_result f ret)

unfoldable pub next_period : ℕ → ℕ → ℕ
next_period period n = if leb period (n + 1) then 0 else n + 1

unfoldable pub advance_period : {W : Type 0} → Invariant W → Run W → Run W
advance_period i r = record r {
  invariant_periods =
      insert_number i.id (next_period i.period (times i.id r.invariant_periods))
        r.invariant_periods;
}

unfoldable pub check_due : {W : Type 0} → FuzzTest W → Invariant W → M W (Unit {0})
check_due t i = do
  modify (λ r. record r { current = invariant i.name })
  call (t.pre_invariant i.name)
  call i.body
  call (t.post_invariant i.name)

unfoldable pub check_invariant : {W : Type 0} → FuzzTest W → Invariant W → M W (Unit {0})
check_invariant t i r =
    let check = check_due t i in
    let skip = pure tt in
    ((if times i.id r.invariant_periods == 0 then check else skip) >> modify (advance_period i)) r

unfoldable pub check_invariants : {W : Type 0} → FuzzTest W → List (Invariant W) → M W (Unit {0})
check_invariants t [] = pure tt
check_invariants t (i ∷ invariants) = do check_invariant t i; check_invariants t invariants

unfoldable pub choose_among : {W : Type 0} → FuzzTest W → List (Flow W) → M W (Flow W)
choose_among t [] r = raised (no_runnable r t.flows) r
choose_among t (f ∷ fs) r = choose t f fs r

unfoldable pub choose_runnable : {W : Type 0} → FuzzTest W → M W (Flow W)
choose_runnable t r = choose_among t (select (runnable r) t.flows) r

-- One turn of the inner loop.
unfoldable pub step : {W : Type 0} → FuzzTest W → ℕ → M W (Unit {0})
step t k = do
  modify (λ r. record r { flow_num = k; world = t.set_numbers r.sequence_num k r.world })
  chosen ← choose_runnable t
  run_flow t chosen
  call t.pre_invariants
  check_invariants t t.invariants
  call t.post_invariants

-- Steps `k`, `k + 1`, ... of `n` steps.
unfoldable pub steps : {W : Type 0} → FuzzTest W → ℕ → ℕ → M W (Unit {0})
steps t k zero = pure tt
steps t k (suc n) = do step t k; steps t (k + 1) n

-- The body of the `try`.
unfoldable pub sequence : {W : Type 0} → FuzzTest W → ℕ → M W (Unit {0})
sequence t flows_count = do steps t 0 flows_count; call t.post_sequence

-- `_last_fuzz_failure`
pub record Failure : Type 0 where
  pub fuzz_class : String
  pub sequence_num : ℕ
  pub flow_num : ℕ
  pub failing : Current
  pub trace : List String

-- The module's globals.
pub record Session : Type 0 where
  pub session_stats : SessionStats
  pub last_failure : Option Failure

unfoldable pub begin_sequence : {W : Type 0} → FuzzTest W → ℕ → Run W → Run W
begin_sequence t seq r = record r {
  world = t.set_numbers seq 0 (t.reset r.world);
  sequence_num = seq;
  flow_num = 0;
}

unfoldable pub forget_counts : {W : Type 0} → Run W → Run W
forget_counts r = record r {
  flows_counter = [];
  invariant_periods = [];
  trace = [];
  current = nothing_yet;
}

-- How a call of `_run` ends.
pub data Ended : Type 0 where
  passed : Session → Ended
  failed : Exc → Session → Ended

unfoldable pub record_stats : {W : Type 0} → FuzzTest W → ℕ → ℕ → Run W → Session → Session
record_stats t sequences flows_count r s = record s {
  session_stats = record_run_stats t.name sequences flows_count r.stats s.session_stats;
}

unfoldable pub failure_of : {W : Type 0} → FuzzTest W → Run W → Failure
failure_of t r = record {
  fuzz_class = t.name;
  sequence_num = r.sequence_num;
  flow_num = r.flow_num;
  failing = r.current;
  trace = r.trace;
}

-- The `except` clause, and the next sequence where there was no exception.
unfoldable pub finish_sequence :
    {W : Type 0}
    → FuzzTest W
    → ℕ
    → ℕ
    → Session
    → (Run W → Ended)
    → Outcome (Run W) (Unit {0})
    → Ended
finish_sequence t total flows_count s next (returned _ r) = next r
finish_sequence t total flows_count s next (raised e r) =
    failed e
      (record_stats t total flows_count r (record s { last_failure = some (failure_of t r) }))

-- An exception of `pre_sequence` is raised before the `try`.
unfoldable pub after_pre_sequence :
    {W : Type 0}
    → FuzzTest W
    → ℕ
    → ℕ
    → Session
    → (Run W → Ended)
    → Outcome (Run W) (Unit {0})
    → Ended
after_pre_sequence t total flows_count s next (raised e r) = failed e s
after_pre_sequence t total flows_count s next (returned _ r) =
    finish_sequence t total flows_count s next (sequence t flows_count (forget_counts r))

-- Sequences `seq`, `seq + 1`, ... of which `left` are to come, of `total`.
unfoldable pub sequences : {W : Type 0} → FuzzTest W → ℕ → ℕ → ℕ → ℕ → Session → Run W → Ended
sequences t total flows_count seq zero s r = passed (record_stats t total flows_count r s)
sequences t total flows_count seq (suc left) s r =
    after_pre_sequence t total flows_count s (sequences t total flows_count (seq + 1) left s)
      (call t.pre_sequence (begin_sequence t seq r))

unfoldable pub empty_stats : {W : Type 0} → List (Flow W) → Flows
empty_stats [] = []
empty_stats (f ∷ fs) = insert f.name no_stats (empty_stats fs)

unfoldable pub clear_last_fuzz_failure : Session → Session
clear_last_fuzz_failure s = record s { last_failure = none }

unfoldable pub start_flows : {W : Type 0} → FuzzTest W → ℕ → ℕ → Session → W → List (Flow W) → Ended
start_flows t total flows_count s w [] = failed value_error s
start_flows t total flows_count s w (f ∷ fs) = sequences t total flows_count 0 total s (record {
  world = w;
  sequence_num = 0;
  flow_num = 0;
  flows_counter = [];
  invariant_periods = [];
  stats = empty_stats (f ∷ fs);
  trace = [];
  current = nothing_yet;
})

-- `_run` of a class, whose instance is part of the world `w`.
unfoldable pub run : {W : Type 0} → FuzzTest W → ℕ → ℕ → Session → W → Ended
unfolding start_flows
run t sequences_count flows_count s w =
    start_flows t sequences_count flows_count (clear_last_fuzz_failure s) w t.flows

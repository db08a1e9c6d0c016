-- ===== src/Tests/Fuzzing.antt =====
-- The theorems on fuzzing.py at a small test class.
use wake_sol.Prelude.{ℕ, ◌+◌, ◌≤◌, ◌≡◌, none, some, [], ◌∷◌, arith, ltb}
use wake_sol.Fuzzing.Stats.{Flows, stats_of, merge_flow_leaves}
use wake_sol.Fuzzing.Run.{Run, returned, Code, nothing_yet}
use wake_sol.Fuzzing.Keeps.{Post}
use wake_sol.Fuzzing.Engine.{Flow, FuzzTest, choose_runnable, Session, run}
use wake_sol.Fuzzing.Choice.{Eligible, choose_runnable-Eligible}
use wake_sol.Fuzzing.Ending.{Accounted, run-Accounted}
use wake_sol.Fuzzing.Merging.{counted, merge_flow_leaves-sums}

-- The world is a counter.
abbrev idle : Code ℕ (Unit {0})
idle w = returned tt w

abbrev increment : Flow ℕ
increment = record {
  id = 0;
  name = "increment";
  weight = 100;
  max_times = some 2;
  precondition = some (λ w. ltb w 10);
  body = λ w. returned none (w + 1);
}

abbrev wait : Flow ℕ
wait = record {
  id = 1;
  name = "wait";
  weight = 50;
  max_times = none;
  precondition = none;
  body = λ w. returned (some "nothing to do") w;
}

abbrev counter : FuzzTest ℕ
counter = record {
  name = "Counter";
  flows = increment ∷ wait ∷ [];
  invariants = [];
  reset = λ w. 0;
  set_numbers = λ s k w. w;
  draw = λ total w. (0, w);
  pre_sequence = idle;
  post_sequence = idle;
  pre_flow = λ n. idle;
  post_flow = λ n. idle;
  pre_invariants = idle;
  post_invariants = idle;
  pre_invariant = λ n. idle;
  post_invariant = λ n. idle;
}

abbrev start : Run ℕ
start = record {
  world = 0;
  sequence_num = 0;
  flow_num = 0;
  flows_counter = [];
  invariant_periods = [];
  stats = [];
  trace = [];
  current = nothing_yet;
}

abbrev OfClass : Flow ℕ → Type 0
OfClass g = g.id ≤ 1

choose_runnable-Eligible_example :
    Post
      (λ g r'. Eligible OfClass start g × (r'.flows_counter ≡ start.flows_counter))
      (λ r'. r' ≡ start)
      (choose_runnable counter start)
choose_runnable-Eligible_example =
    choose_runnable-Eligible OfClass counter start (λ total w positive. positive)
      (omega arith, (omega arith, tt))

abbrev ours : Flows
ours = ("increment", record { picked = 3; ran = 2; skipped = 1; reasons = [] }) ∷ []

abbrev theirs : Flows
theirs = ("wait", record { picked = 1; ran = 0; skipped = 1; reasons = ("idle", 1) ∷ [] }) ∷ ours

merge_flow_leaves-sums_example :
    ((stats_of "increment" (merge_flow_leaves ours theirs)).picked
      ≡ (stats_of "increment" ours).picked + counted (λ s. s.picked) "increment" theirs)
    × ((stats_of "increment" (merge_flow_leaves ours theirs)).ran
        ≡ (stats_of "increment" ours).ran + counted (λ s. s.ran) "increment" theirs)
    × ((stats_of "increment" (merge_flow_leaves ours theirs)).skipped
        ≡ (stats_of "increment" ours).skipped + counted (λ s. s.skipped) "increment" theirs)
merge_flow_leaves-sums_example = merge_flow_leaves-sums "increment" ours theirs

abbrev stale : Session
stale = record {
  session_stats = [];
  last_failure = some (record {
    fuzz_class = "Other";
    sequence_num = 0;
    flow_num = 0;
    failing = nothing_yet;
    trace = [];
  });
}

run-Accounted_example : Accounted "Counter" 2 3 [] (run counter 2 3 stale 0)
run-Accounted_example = run-Accounted counter 2 3 stale 0

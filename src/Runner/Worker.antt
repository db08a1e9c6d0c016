-- ===== src/Runner/Worker.antt =====
-- What a worker puts on the queue, _mp_worker.py.
use wake_sol.Prelude.{
  ℕ, Bool, true, String, Option, none, some, List, [], ◌∷◌, ◌++◌, get_elem?, if◌then◌else◌,
}
use wake_sol.Fuzzing.Stats.{SessionStats}
use wake_sol.Coverage.Reports.{Report}
use wake_sol.Runner.Server.{MessageKind, runtest_protocol, fuzz_test_stats, coverage, sessionfinish}

-- What running a test does: the messages that it puts on the queue, and whether the session is to
-- stop after it.
pub record Ran (R : Type 0) : Type 0 where
  pub messages : List (MessageKind R)
  pub stops : Bool

module _ {R : Type 0} (run : String → Ran R) where
  unfoldable pub run_item : Option String → Ran R
  run_item none = record { messages = []; stops = true }
  run_item (some nodeid) =
      let ran = run nodeid in record ran { messages = runtest_protocol nodeid ∷ ran.messages }

  -- The loop over the indices; an index out of range raises.
  unfoldable pub run_items : List String → List ℕ → List (MessageKind R)
  run_items items [] = []
  run_items items (i ∷ indexes) =
      let ran = run_item (get_elem? items i) in
      let rest = run_items items indexes in ran.messages ++ (if ran.stops then [] else rest)

  unfoldable pub coverage_message : Option Report → List (MessageKind R)
  coverage_message none = []
  coverage_message (some report) = coverage report ∷ []

  -- All that a worker sends: its tests, what the `finally` clause ships, and the end of its session.
  unfoldable pub worker_messages :
      List String → List ℕ → SessionStats → Option Report → ℕ → List (MessageKind R)
  worker_messages items indexes stats report exitstatus =
      run_items items indexes
      ++ (fuzz_test_stats stats ∷ (coverage_message report ++ sessionfinish exitstatus ∷ []))

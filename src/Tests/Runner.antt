-- ===== src/Tests/Runner.antt =====
-- The theorems on the multiprocess runner with two workers and three tests. A report is a number.
use wake_sol.Prelude.{
  ℕ, zero, suc, ◌≤◌, ◌<◌, ◌≡◌, refl, false, String, some, List, [], ◌∷◌, All, arith,
}
use wake_sol.Prelude.Assoc.{by_number}
use wake_sol.Coverage.Reports.{Report}
use wake_sol.Runner.Assign.{uniform, count_up, range, assign}
use wake_sol.Runner.Server.{
  MessageKind, runtest_protocol, logreport, exception, fuzz_test_stats, coverage, sessionfinish,
  Message, Server, ended, event_loop, started,
}
use wake_sol.Runner.Worker.{Ran, run_item, run_items, coverage_message, worker_messages}
use wake_sol.Runner.Partition.{dealt, dealt-uniform}
use wake_sol.Runner.Drained.{messages_of, reports_in}
use wake_sol.Runner.Workers.{event_loop-workers}

dealt-uniform_example : dealt uniform 7 3 0 3 ≡ range 0 7
dealt-uniform_example = dealt-uniform 7 3 (omega arith)

abbrev items : List String
items = "test_a" ∷ "test_b" ∷ "test_c" ∷ []

-- Each test fails with the number of its worker.
abbrev run_test : ℕ → String → Ran ℕ
run_test i nodeid = record { messages = exception ∷ logreport i ∷ []; stops = false }

abbrev snapshot : ℕ → Report
snapshot i = record { files = []; programs = [] }

abbrev from : ℕ → MessageKind ℕ → Message ℕ
from i k = record { index = i; kind = k }

-- Worker 0 runs the first test and worker 1 the other two, and their messages arrive mixed.
abbrev arrived : List (Message ℕ)
arrived =
    from 1 (runtest_protocol "test_b")
    ∷ from 0 (runtest_protocol "test_a")
    ∷ from 1 exception
    ∷ from 0 exception
    ∷ from 0 (logreport 0)
    ∷ from 0 (fuzz_test_stats [])
    ∷ from 0 (coverage (snapshot 0))
    ∷ from 1 (logreport 1)
    ∷ from 0 (sessionfinish 1)
    ∷ from 1 (runtest_protocol "test_c")
    ∷ from 1 exception
    ∷ from 1 (logreport 1)
    ∷ from 1 (fuzz_test_stats [])
    ∷ from 1 (coverage (snapshot 1))
    ∷ from 1 (sessionfinish 1)
    ∷ []

sent :
    (i : ℕ)
    → i < 2
    → messages_of i arrived
      ≡ worker_messages (run_test i) items (assign uniform 3 2 i) [] (some (snapshot i)) 1
unfolding messages_of worker_messages assign range count_up run_items run_item coverage_message
sent zero h = refl
sent (suc zero) h = refl
sent (suc (suc i)) h = absurd (omega arith)

silent : (i : ℕ) → 2 ≤ i → messages_of i arrived ≡ []
unfolding messages_of
silent zero h = absurd (omega arith)
silent (suc zero) h = absurd (omega arith)
silent (suc (suc i)) h = ground arith

event_loop-workers_example :
    (st : Server ℕ) × (event_loop false arrived (started 2 []) ≡ ended st)
    × (st.processes ≡ [])
    × (st.reports ≡ reports_in arrived)
    × All (λ i. by_number i st.worker_coverage ≡ some (snapshot i)) (count_up 0 2)
event_loop-workers_example =
    event_loop-workers uniform false 2 [] items run_test (λ i. []) snapshot (λ i. 1) arrived
      (λ i nodeid. (refl, (refl, tt))) sent silent

-- ===== src/Runner/Server.antt =====
-- The event loop of the server, _mp_server.py. `R` is the type of a test report.
use wake_sol.Prelude.{
  ℕ, zero, suc, Bool, true, false, ◌||◌, String, Option, none, some, List, [], ◌∷◌, ◌++◌, replicate,
  ◌==◌, if◌then◌else◌,
}
use wake_sol.Prelude.Assoc.{insert_number}
use wake_sol.Fuzzing.Stats.{SessionStats, merge_session_stats}
use wake_sol.Coverage.Reports.{Report}
use wake_sol.Runner.Assign.{count_up}

-- The kind of a message with its payload.
pub data MessageKind (R : Type 0) : Type 0 where
  runtest_protocol : String → MessageKind R
  logreport : R → MessageKind R
  exception breakpoint_hit : MessageKind R
  warning_recorded internal_error : MessageKind R
  fuzz_test_stats : SessionStats → MessageKind R
  coverage : Report → MessageKind R
  crashlog_path : String → String → MessageKind R
  keyboard_interrupt : MessageKind R
  sessionfinish : ℕ → MessageKind R
  unknown : MessageKind R

-- A message with the index of its worker.
pub record Message (R : Type 0) : Type 0 where
  pub index : ℕ
  pub kind : MessageKind R

-- What is typed at the prompt, as far as it is told apart.
pub data Response : Type 0 where
  y n other : Response

-- `processes` has the workers that have not finished; `decisions` are the answers sent to workers
-- that ask for the debugger, `responses` what will be typed until the end of input.
pub record Server (R : Type 0) : Type 0 where
  pub processes : List ℕ
  pub current_tests : List (ℕ × String)
  pub reports : List R
  pub interrupted : List Bool
  pub fuzz_stats : SessionStats
  pub worker_coverage : List (ℕ × Report)
  pub crash_logs : List (ℕ × (String × String))
  pub forwarded : List (MessageKind R)
  pub decisions : List (ℕ × Bool)
  pub responses : List Response

unfoldable pub is_member : ℕ → List ℕ → Bool
is_member i [] = false
is_member i (j ∷ js) = j == i || is_member i js

unfoldable pub remove : ℕ → List ℕ → List ℕ
remove i [] = []
remove i (j ∷ js) = let rest = j ∷ remove i js in if j == i then js else rest

-- `keyboard_interrupt[index] = True`
unfoldable pub raise_flag : ℕ → List Bool → List Bool
raise_flag i [] = []
raise_flag zero (b ∷ bs) = true ∷ bs
raise_flag (suc i) (b ∷ bs) = b ∷ raise_flag i bs

-- `_prompt_attach`, with what is left to be typed.
unfoldable pub prompt_attach : List Response → Bool × List Response
prompt_attach [] = (false, [])
prompt_attach (y ∷ rest) = (true, rest)
prompt_attach (n ∷ rest) = (false, rest)
prompt_attach (other ∷ rest) = prompt_attach rest

unfoldable pub decide : Bool → List Response → Bool × List Response
decide true responses = prompt_attach responses
decide false responses = (false, responses)

-- How the loop stands when the given messages have arrived: it has ended, it waits for another
-- message, or a KeyError was raised.
pub data Loop (R : Type 0) : Type 0 where
  ended : Server R → Loop R
  waiting : Server R → Loop R
  key_error : Loop R

unfoldable pub any_flag : List Bool → Bool
any_flag [] = false
any_flag (b ∷ bs) = b || any_flag bs

module _ {R : Type 0} where
  -- `_negotiate`; `none` is a KeyError. `prompt` tells whether there is a terminal to ask at.
  unfoldable pub negotiate : Bool → ℕ → Server R → Option (Server R)
  negotiate prompt index st =
      let (attach, left) = decide prompt st.responses in
      if is_member index st.processes
      then some (record st { decisions = st.decisions ++ (index, attach) ∷ []; responses = left })
      else none

  unfoldable pub pop_process : ℕ → Server R → Option (Server R)
  pop_process index st =
      if is_member index st.processes
      then some (record st { processes = remove index st.processes })
      else none

  -- The branches of the loop's body.
  unfoldable pub handle : Bool → ℕ → MessageKind R → Server R → Option (Server R)
  handle prompt index (runtest_protocol nodeid) st =
      some (record st { current_tests = insert_number index nodeid st.current_tests })
  handle prompt index (logreport report) st =
      some (record st { reports = st.reports ++ report ∷ [] })
  handle prompt index exception st = negotiate prompt index st
  handle prompt index breakpoint_hit st = negotiate prompt index st
  handle prompt index warning_recorded st =
      some (record st { forwarded = st.forwarded ++ warning_recorded ∷ [] })
  handle prompt index internal_error st =
      some (record st { forwarded = st.forwarded ++ internal_error ∷ [] })
  handle prompt index (fuzz_test_stats stats) st =
      some (record st { fuzz_stats = merge_session_stats st.fuzz_stats stats })
  handle prompt index (coverage report) st =
      some (record st { worker_coverage = insert_number index report st.worker_coverage })
  handle prompt index (crashlog_path nodeid path) st =
      some (record st { crash_logs = st.crash_logs ++ (index, (nodeid, path)) ∷ [] })
  handle prompt index keyboard_interrupt st =
      some (record st { interrupted = raise_flag index st.interrupted })
  handle prompt index (sessionfinish exitstatus) st = pop_process index st
  handle prompt index unknown st = some st

  unfoldable pub no_message : List ℕ → Server R → Loop R
  no_message [] st = ended st
  no_message (i ∷ is) st = waiting st

  unfoldable pub after_message : Option (Server R) → (Server R → Loop R) → Loop R
  after_message none next = key_error
  after_message (some st) next = next st

  unfoldable pub next_message : List ℕ → Server R → Loop R → Loop R
  next_message [] st next = ended st
  next_message (i ∷ is) st next = next

  -- `while self._processes`
  unfoldable pub event_loop : Bool → List (Message R) → Server R → Loop R
  event_loop prompt [] st = no_message st.processes st
  event_loop prompt (m ∷ ms) st =
      next_message st.processes st
        (after_message (handle prompt m.index m.kind st) (event_loop prompt ms))

  -- The variables before the loop, for `procs` workers.
  unfoldable pub started : ℕ → List Response → Server R
  started procs responses = record {
    processes = count_up 0 procs;
    current_tests = [];
    reports = [];
    interrupted = replicate procs false;
    fuzz_stats = [];
    worker_coverage = [];
    crash_logs = [];
    forwarded = [];
    decisions = [];
    responses = responses;
  }

  -- What the loop leaves to the session: whether KeyboardInterrupt is raised, and the reports that
  -- are replayed in either case.
  unfoldable pub after_loop : Server R → Bool × List R
  after_loop st = (any_flag st.interrupted, st.reports)

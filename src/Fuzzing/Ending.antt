-- ===== src/Fuzzing/Ending.antt =====
-- What a call of `_run` of fuzzing.py leaves in the module's globals.
use wake_sol.Prelude.{
  ℕ, zero, suc, ◌+◌, ◌*◌, ◌≡◌, refl, ap, ◌∙◌, String, Option, none, some, List, [], ◌∷◌, true,
  str_eq,
}
use wake_sol.Prelude.Assoc.{by_name-insert}
use wake_sol.Fuzzing.Stats.{
  Entry, Flows, SessionStats, session_entry, record_run_stats, merge_flow_leaves,
}
use wake_sol.Fuzzing.Run.{Run, Outcome, returned, raised, call}
use wake_sol.Fuzzing.Engine.{
  Flow, FuzzTest, Failure, Session, Ended, passed, failed, record_stats, failure_of,
  finish_sequence, after_pre_sequence, begin_sequence, forget_counts, sequence, sequences,
  start_flows, run, clear_last_fuzz_failure,
}
use text.Mathlib.TextEquality.{eq_iff}

-- The budget of a run is added to the entry of its class.
pub record Recorded (name : String) (n k : ℕ) (old new : SessionStats) : Type 0 where
  pub sequences_added : (session_entry name new).sequences ≡ (session_entry name old).sequences + n
  pub steps_added : (session_entry name new).steps ≡ (session_entry name old).steps + n * k

-- A failure that is noted is of this class, and its statistics are recorded; where none is noted
-- the registry is as it was.
abbrev pub Noted : String → ℕ → ℕ → SessionStats → SessionStats → Option Failure → Type 0
Noted name n k old new none = new ≡ old
Noted name n k old new (some f) = (f.fuzz_class ≡ name) × Recorded name n k old new

abbrev pub Accounted : String → ℕ → ℕ → SessionStats → Ended → Type 0
Accounted name n k old (passed s) = (s.last_failure ≡ none) × Recorded name n k old s.session_stats
Accounted name n k old (failed e s) = Noted name n k old s.session_stats s.last_failure

abbrev with_run : ℕ → ℕ → Flows → Entry → Entry
with_run n k stats entry = record {
  sequences = entry.sequences + n;
  steps = entry.steps + n * k;
  flows = merge_flow_leaves entry.flows stats;
}

session_entry-record_run_stats :
    (name : String) (n k : ℕ) (stats : Flows) (registry : SessionStats)
    → session_entry name (record_run_stats name n k stats registry)
      ≡ with_run n k stats (session_entry name registry)
unfolding record_run_stats
session_entry-record_run_stats name n k stats registry =
    let q : str_eq name name ≡ true = (eq_iff name name).1 refl in
    rw (by_name-insert name name _ registry) (rw q refl)

module _ {W : Type 0} (t : FuzzTest W) (n k : ℕ) where
  record_stats-Recorded :
      (r : Run W) (s s' : Session)
      → s'.session_stats ≡ s.session_stats
      → Recorded t.name n k s.session_stats (record_stats t n k r s').session_stats
  unfolding record_stats
  record_stats-Recorded r s s' same =
      let e = session_entry-record_run_stats t.name n k r.stats s'.session_stats in
      record {
        sequences_added =
            ap (λ x. x.sequences) e ∙ ap (λ g. (session_entry t.name g).sequences + n) same;
        steps_added = ap (λ x. x.steps) e ∙ ap (λ g. (session_entry t.name g).steps + n * k) same;
      }

  finish_sequence-Accounted :
      (s : Session) (next : Run W → Ended) (o : Outcome (Run W) (Unit {0}))
      → ((r : Run W) → Accounted t.name n k s.session_stats (next r))
      → Accounted t.name n k s.session_stats (finish_sequence t n k s next o)
  unfolding finish_sequence record_stats failure_of
  finish_sequence-Accounted s next (returned _ r) rest = rest r
  finish_sequence-Accounted s next (raised e r) rest =
      (refl, record_stats-Recorded r s (record s { last_failure = some (failure_of t r) }) refl)

  after_pre_sequence-Accounted :
      (s : Session) (next : Run W → Ended) (o : Outcome (Run W) (Unit {0}))
      → s.last_failure ≡ none
      → ((r : Run W) → Accounted t.name n k s.session_stats (next r))
      → Accounted t.name n k s.session_stats (after_pre_sequence t n k s next o)
  unfolding after_pre_sequence
  after_pre_sequence-Accounted s next (returned _ r) clear rest =
      finish_sequence-Accounted s next (sequence t k (forget_counts r)) rest
  after_pre_sequence-Accounted s next (raised e r) clear rest = rw clear refl

  sequences-Accounted :
      (seq left : ℕ) (s : Session) (r : Run W)
      → s.last_failure ≡ none
      → Accounted t.name n k s.session_stats (sequences t n k seq left s r)
  unfolding sequences record_stats
  sequences-Accounted seq zero s r clear = (clear, record_stats-Recorded r s s refl)
  sequences-Accounted seq (suc left) s r clear =
      after_pre_sequence-Accounted s (sequences t n k (seq + 1) left s)
        (call t.pre_sequence (begin_sequence t seq r)) clear
        (λ r'. sequences-Accounted (seq + 1) left s r' clear)

  start_flows-Accounted :
      (s : Session) (w : W) (flows : List (Flow W))
      → s.last_failure ≡ none
      → Accounted t.name n k s.session_stats (start_flows t n k s w flows)
  unfolding start_flows
  start_flows-Accounted s w [] clear = rw clear refl
  start_flows-Accounted s w (f ∷ fs) clear = sequences-Accounted 0 n s _ clear

  -- Whatever an earlier run left: a run that passes leaves no failure noted, and its budget is added
  -- to the entry of the class; a run that fails either notes a failure of its own class and adds its
  -- budget, or notes none and leaves the registry as it was.
  pub run-Accounted : (s : Session) (w : W) → Accounted t.name n k s.session_stats (run t n k s w)
  unfolding run clear_last_fuzz_failure
  run-Accounted s w = start_flows-Accounted (clear_last_fuzz_failure s) w t.flows refl

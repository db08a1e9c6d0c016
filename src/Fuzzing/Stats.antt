-- ===== src/Fuzzing/Stats.antt =====
-- Flow statistics and the session's registry, fuzzing.py.
use wake_sol.Prelude.{ℕ, ◌+◌, ◌*◌, String, Option, none, some, List, [], ◌∷◌, ◌==◌, if◌then◌else◌}
use wake_sol.Prelude.Assoc.{by_name, insert}

-- A `defaultdict(int)`, or `dict.get(key, 0)`.
abbrev pub or_zero : Option ℕ → ℕ
or_zero none = 0
or_zero (some n) = n

abbrev pub count_of : String → List (String × ℕ) → ℕ
count_of k m = or_zero (by_name k m)

-- The leaf of a flow.
pub record FlowStats : Type 0 where
  pub picked : ℕ
  pub ran : ℕ
  pub skipped : ℕ
  pub reasons : List (String × ℕ)

abbrev pub no_stats : FlowStats
no_stats = record { picked = 0; ran = 0; skipped = 0; reasons = [] }

abbrev pub Flows : Type 0
Flows = List (String × FlowStats)

abbrev pub leaf_of : Option FlowStats → FlowStats
leaf_of none = no_stats
leaf_of (some s) = s

abbrev pub stats_of : String → Flows → FlowStats
stats_of k m = leaf_of (by_name k m)

unfoldable pub merge_reasons : List (String × ℕ) → List (String × ℕ) → List (String × ℕ)
merge_reasons dst [] = dst
merge_reasons dst ((reason, count) ∷ src) =
    merge_reasons (insert reason (count_of reason dst + count) dst) src

unfoldable pub merge_leaf : FlowStats → FlowStats → FlowStats
merge_leaf leaf s = record {
  picked = leaf.picked + s.picked;
  ran = leaf.ran + s.ran;
  skipped = leaf.skipped + s.skipped;
  reasons = merge_reasons leaf.reasons s.reasons;
}

-- `_merge_flow_leaves`
unfoldable pub merge_flow_leaves : Flows → Flows → Flows
merge_flow_leaves dst [] = dst
merge_flow_leaves dst ((name, s) ∷ src) =
    merge_flow_leaves (insert name (merge_leaf (stats_of name dst) s) dst) src

-- An entry of `_session_stats`.
pub record Entry : Type 0 where
  pub sequences : ℕ
  pub steps : ℕ
  pub flows : Flows

abbrev pub no_entry : Entry
no_entry = record { sequences = 0; steps = 0; flows = [] }

abbrev pub SessionStats : Type 0
SessionStats = List (String × Entry)

abbrev pub entry_or : Option Entry → Entry
entry_or none = no_entry
entry_or (some e) = e

abbrev pub session_entry : String → SessionStats → Entry
session_entry k m = entry_or (by_name k m)

unfoldable pub merge_entry : Entry → Entry → Entry
merge_entry d entry = record {
  sequences = d.sequences + entry.sequences;
  steps = d.steps + entry.steps;
  flows = merge_flow_leaves d.flows entry.flows;
}

unfoldable pub record_run_stats : String → ℕ → ℕ → Flows → SessionStats → SessionStats
record_run_stats name sequences_count flows_count stats registry =
    let entry = session_entry name registry in
    insert name
      (record {
        sequences = entry.sequences + sequences_count;
        steps = entry.steps + sequences_count * flows_count;
        flows = merge_flow_leaves entry.flows stats;
      })
      registry

unfoldable pub merge_session_stats : SessionStats → SessionStats → SessionStats
merge_session_stats dst [] = dst
merge_session_stats dst ((name, entry) ∷ src) =
    merge_session_stats (insert name (merge_entry (session_entry name dst) entry) dst) src

-- The warnings of `build_stats_table`, for one flow.
pub data Warning : Type 0 where
  never_picked : String → Warning
  never_ran : String → ℕ → Warning

unfoldable pub warnings_of : String → FlowStats → List Warning
warnings_of name s =
    if s.picked == 0
    then never_picked name ∷ []
    else if s.ran == 0
    then never_ran name s.picked ∷ []
    else []

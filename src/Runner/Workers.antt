-- ===== src/Runner/Workers.antt =====
-- Server and workers together (_mp_server.py and _mp_worker.py).
use wake_sol.Prelude.{
  ℕ, zero, suc, arith, ◌+◌, ◌≤◌, ◌<◌, ◌≡◌, refl, ap, ◌∙◌, inl, inr, Bool, true, false, String,
  Option, none, some, List, [], ◌∷◌, ◌++◌, All, get_elem?, length, if◌then◌else◌,
}
use wake_sol.Prelude.Assoc.{by_number}
use wake_sol.Fuzzing.Stats.{SessionStats}
use wake_sol.Coverage.Reports.{Report}
use wake_sol.Runner.Assign.{Dist, assign, count_up}
use wake_sol.Runner.Server.{
  MessageKind, runtest_protocol, fuzz_test_stats, coverage, sessionfinish, Message, Response,
  Server, ended, event_loop, started,
}
use wake_sol.Runner.Worker.{Ran, run_item, run_items, coverage_message, worker_messages}
use wake_sol.Runner.Drained.{is_finish, newer, messages_of, Finished, reports_in, last_coverage}
use wake_sol.Runner.Ends.{event_loop-ended}

module _ {R : Type 0} where
  -- No end of a session among the messages.
  abbrev pub Unfinished : List (MessageKind R) → Type 0
  Unfinished ks = All (λ k. is_finish k ≡ false) ks

  Finished-append :
      (ks ls : List (MessageKind R)) → Unfinished ks → Finished ls → Finished (ks ++ ls)
  Finished-append [] ls u f = f
  Finished-append (k ∷ ks) ls (h, u) f = inr (h, Finished-append ks ls u f)

  Unfinished-append :
      (ks ls : List (MessageKind R)) → Unfinished ks → Unfinished ls → Unfinished (ks ++ ls)
  Unfinished-append [] ls u v = v
  Unfinished-append (k ∷ ks) ls (h, u) v = (h, Unfinished-append ks ls u v)

  last_coverage-append :
      (old : Option Report) (ks ls : List (MessageKind R))
      → last_coverage old (ks ++ ls) ≡ last_coverage (last_coverage old ks) ls
  unfolding last_coverage
  last_coverage-append old [] ls = refl
  last_coverage-append old (k ∷ ks) ls = last_coverage-append (newer k old) ks ls

module _ {R : Type 0} (run : String → Ran R)
    (quiet : (nodeid : String) → Unfinished (run nodeid).messages) where
  run_items-Unfinished :
      (items : List String) (indexes : List ℕ) → Unfinished (run_items run items indexes)
  unfolding run_items run_item
  run_items-Unfinished items [] = tt
  run_items-Unfinished items (i ∷ indexes) =
      by_item (get_elem? items i) (run_items-Unfinished items indexes)
    where
      rest_of :
          (b : Bool) (ks : List (MessageKind R)) → Unfinished ks → Unfinished (if b then [] else ks)
      rest_of true ks u = tt
      rest_of false ks u = u

      by_item :
          (o : Option String)
          → Unfinished (run_items run items indexes)
          → Unfinished (
              (run_item run o).messages
              ++ (if (run_item run o).stops then [] else run_items run items indexes))
      by_item none u = tt
      by_item (some nodeid) u =
          Unfinished-append (runtest_protocol nodeid ∷ (run nodeid).messages) _ (refl, quiet nodeid)
            (rest_of (run nodeid).stops (run_items run items indexes) u)

  worker_messages-Finished :
      (items : List String) (indexes : List ℕ) (stats : SessionStats) (report : Option Report)
      (exitstatus : ℕ)
      → Finished (worker_messages run items indexes stats report exitstatus)
  unfolding worker_messages coverage_message
  worker_messages-Finished items indexes stats none exitstatus =
      Finished-append (run_items run items indexes) _ (run_items-Unfinished items indexes)
        (inr (refl, inl (refl, refl)))
  worker_messages-Finished items indexes stats (some report) exitstatus =
      Finished-append (run_items run items indexes) _ (run_items-Unfinished items indexes)
        (inr (refl, inr (refl, inl (refl, refl))))

worker_messages-last_coverage :
    {R : Type 0} (run : String → Ran R) (items : List String) (indexes : List ℕ)
    (stats : SessionStats) (report : Report) (exitstatus : ℕ) (old : Option Report)
    → last_coverage old (worker_messages run items indexes stats (some report) exitstatus)
      ≡ some report
unfolding worker_messages coverage_message last_coverage
worker_messages-last_coverage run items indexes stats report exitstatus old =
    last_coverage-append old (run_items run items indexes)
      (fuzz_test_stats stats ∷ coverage report ∷ sessionfinish exitstatus ∷ [])

All-count_up :
    (P : ℕ → Type 0) (lo k : ℕ) → ((i : ℕ) → lo ≤ i → i < lo + k → P i) → All P (count_up lo k)
unfolding count_up
All-count_up P lo zero h = tt
All-count_up P lo (suc k) h = (
  h lo (omega arith) (omega arith),
  All-count_up P (lo + 1) k (λ i a b. h i (omega arith) (omega arith)),
)

-- Let each of `procs` workers run the tests that it is dealt, stopping early where a test says so,
-- and send a final coverage report, let no test's messages end a session, and let no other messages
-- arrive. In whatever order the workers' messages are interleaved, the server's loop ends with every
-- worker finished and all the reports buffered in order of arrival, and the slot of each worker has
-- its final coverage report, however many snapshots it sent before.
pub event_loop-workers :
    {R : Type 0} (d : Dist) (prompt : Bool) (procs : ℕ) (responses : List Response)
    (items : List String) (run : ℕ → String → Ran R) (stats : ℕ → SessionStats)
    (report : ℕ → Report) (exitstatus : ℕ → ℕ) (msgs : List (Message R))
    → ((i : ℕ) (nodeid : String) → Unfinished (run i nodeid).messages)
    → ((i : ℕ)
        → i < procs
        → messages_of i msgs
          ≡ worker_messages
              (run i)
              items
              (assign d (length items) procs i)
              (stats i)
              (some (report i))
              (exitstatus i))
    → ((i : ℕ) → procs ≤ i → messages_of i msgs ≡ [])
    → (st : Server R) × (event_loop prompt msgs (started procs responses) ≡ ended st)
      × (st.processes ≡ [])
      × (st.reports ≡ reports_in msgs)
      × All (λ i. by_number i st.worker_coverage ≡ some (report i)) (count_up 0 procs)
unfolding started
event_loop-workers d prompt procs responses items run stats report exitstatus msgs quiet sent
      silent =
    let (st, e, drained) =
      event_loop-ended prompt procs responses msgs
        (λ i h. rw (sent i h) (
          worker_messages-Finished (run i) (quiet i) items (assign d (length items) procs i)
            (stats i) (some (report i)) (exitstatus i)))
        silent in
    (
      st,
      e,
      drained.all_finished,
      drained.all_reports,
      All-count_up _ 0 procs (λ i lo h.
          drained.last_slots i
          ∙ ap (last_coverage _) (sent i (omega arith))
          ∙ worker_messages-last_coverage (run i) items (assign d (length items) procs i) (stats i)
              (report i) (exitstatus i) _),
    )

-- ===== src/Runner/Drained.antt =====
-- The event loop of _mp_server.py ends once every worker has finished.
use wake_sol.Prelude.{
  ℕ, zero, suc, ◌+◌, leb, ltb, ◌&&◌, ◌≡◌, refl, sym, ◌∙◌, ◌⊎◌, inl, inr, Bool, true, false, Option,
  some, List, [], ◌∷◌, ◌++◌, append-nil, ◌==◌, if◌then◌else◌, Bool-cases, arith,
}
use wake_sol.Prelude.Assoc.{by_number, by_number-insert}
use wake_sol.Coverage.Reports.{Report}
use wake_sol.Runner.Assign.{count_up}
use wake_sol.Runner.Server.{
  MessageKind, runtest_protocol, logreport, exception, breakpoint_hit, warning_recorded,
  internal_error, fuzz_test_stats, coverage, crashlog_path, keyboard_interrupt, sessionfinish,
  unknown, Message, Server, is_member, remove, decide, negotiate, handle,
}

-- No worker stands twice.
abbrev pub Once : List ℕ → Type 0
Once [] = Unit {0}
Once (j ∷ js) = (is_member j js ≡ false) × Once js

pub is_member-remove :
    (i j : ℕ) (js : List ℕ)
    → Once js
    → is_member j (remove i js) ≡ (if i == j then false else is_member j js)
unfolding is_member remove
is_member-remove i j [] h = ground arith
is_member-remove i j (k ∷ js) (fresh, h) = ground (arith, is_member-remove i j js)

pub remove-Once : (i : ℕ) (js : List ℕ) → Once js → Once (remove i js)
unfolding is_member remove
remove-Once i [] h = tt
remove-Once i (k ∷ js) (fresh, h) = elim (Bool-cases (k == i)) [
  | inl it ↦ rw it h
  | inr other ↦ rw other (ground (arith, is_member-remove i k js), remove-Once i js h)
]

pub is_member-count_up : (j lo k : ℕ) → is_member j (count_up lo k) ≡ (leb lo j && ltb j (lo + k))
unfolding is_member count_up
is_member-count_up j lo zero = ground arith
is_member-count_up j lo (suc k) = ground (arith, is_member-count_up j (lo + 1) k)

pub count_up-Once : (lo k : ℕ) → Once (count_up lo k)
unfolding is_member count_up
count_up-Once lo zero = tt
count_up-Once lo (suc k) =
    (ground (arith, is_member-count_up lo (lo + 1) k), count_up-Once (lo + 1) k)

abbrev pub is_finish : {R : Type 0} → MessageKind R → Bool
is_finish (sessionfinish exitstatus) = true
is_finish _ = false

abbrev pub report_of : {R : Type 0} → MessageKind R → List R
report_of (logreport report) = report ∷ []
report_of _ = []

abbrev pub newer : {R : Type 0} → MessageKind R → Option Report → Option Report
newer (coverage report) old = some report
newer _ old = old

pub if_same : {A : Type 0} (b : Bool) (a : A) → a ≡ (if b then a else a)
if_same true a = refl
if_same false a = refl

module _ {R : Type 0} where
  -- What a worker has put on the queue, in order.
  unfoldable pub messages_of : ℕ → List (Message R) → List (MessageKind R)
  messages_of i [] = []
  messages_of i (m ∷ ms) =
      let rest = messages_of i ms in if m.index == i then m.kind ∷ rest else rest

  -- The last message is the end of the session, and no other is.
  abbrev pub Finished : List (MessageKind R) → Type 0
  Finished [] = ⊥
  Finished (k ∷ ks) = ((is_finish k ≡ true) × (ks ≡ [])) ⊎ ((is_finish k ≡ false) × Finished ks)

  unfoldable pub reports_in : List (Message R) → List R
  reports_in [] = []
  reports_in (m ∷ ms) = report_of m.kind ++ reports_in ms

  -- The last report of coverage, or the one before.
  unfoldable pub last_coverage : Option Report → List (MessageKind R) → Option Report
  last_coverage old [] = old
  last_coverage old (k ∷ ks) = last_coverage (newer k old) ks

  -- The workers that are left have their messages to come, and no other worker has any.
  pub record Ready (procs : List ℕ) (msgs : List (Message R)) : Type 0 where
    pub once : Once procs
    pub finished : (i : ℕ) → is_member i procs ≡ true → Finished (messages_of i msgs)
    pub silent : (i : ℕ) → is_member i procs ≡ false → messages_of i msgs ≡ []

  -- What the loop has made of the messages.
  pub record Drained (msgs : List (Message R)) (st st' : Server R) : Type 0 where
    pub all_finished : st'.processes ≡ []
    pub all_reports : st'.reports ≡ st.reports ++ reports_in msgs
    pub last_slots :
        (i : ℕ)
        → by_number i st'.worker_coverage
          ≡ last_coverage (by_number i st.worker_coverage) (messages_of i msgs)

  -- A branch that does not end a session.
  pub record Handled (index : ℕ) (k : MessageKind R) (st st1 : Server R) : Type 0 where
    pub same_processes : st1.processes ≡ st.processes
    pub more_reports : st1.reports ≡ st.reports ++ report_of k
    pub new_slots :
        (i : ℕ)
        → by_number i st1.worker_coverage ≡ (
            if index == i
            then newer k (by_number i st.worker_coverage)
            else by_number i st.worker_coverage)

  unchanged :
      (index : ℕ) (k : MessageKind R) (st st1 : Server R)
      → report_of k ≡ []
      → ((o : Option Report) → newer k o ≡ o)
      → st1.processes ≡ st.processes
      → st1.reports ≡ st.reports
      → st1.worker_coverage ≡ st.worker_coverage
      → Handled index k st st1
  unchanged index k st st1 r n p q c = record {
    same_processes = p;
    more_reports = rw r (q ∙ sym (append-nil st.reports));
    new_slots = λ i.
        rw (n (by_number i st.worker_coverage), c)
          (if_same (index == i) (by_number i st.worker_coverage));
  }

  abbrev negotiated : Bool → ℕ → Server R → Server R
  negotiated prompt index st = record st {
    decisions = st.decisions ++ (index, (decide prompt st.responses).0) ∷ [];
    responses = (decide prompt st.responses).1;
  }

  pub handle-Handled :
      (prompt : Bool) (index : ℕ) (k : MessageKind R) (st : Server R)
      → is_member index st.processes ≡ true
      → is_finish k ≡ false
      → (st1 : Server R) × (handle prompt index k st ≡ some st1) × Handled index k st st1
  unfolding handle negotiate
  handle-Handled prompt index (runtest_protocol nodeid) st m f =
      (_, refl, unchanged index _ st _ refl (λ o. refl) refl refl refl)
  handle-Handled prompt index (logreport report) st m f = (
    _,
    refl,
    record {
      same_processes = refl;
      more_reports = refl;
      new_slots = λ i. if_same (index == i) (by_number i st.worker_coverage);
    },
  )
  handle-Handled prompt index exception st m f = (
    negotiated prompt index st,
    rw m refl,
    unchanged index _ st (negotiated prompt index st) refl (λ o. refl) refl refl refl,
  )
  handle-Handled prompt index breakpoint_hit st m f = (
    negotiated prompt index st,
    rw m refl,
    unchanged index _ st (negotiated prompt index st) refl (λ o. refl) refl refl refl,
  )
  handle-Handled prompt index warning_recorded st m f =
      (_, refl, unchanged index _ st _ refl (λ o. refl) refl refl refl)
  handle-Handled prompt index internal_error st m f =
      (_, refl, unchanged index _ st _ refl (λ o. refl) refl refl refl)
  handle-Handled prompt index (fuzz_test_stats stats) st m f =
      (_, refl, unchanged index _ st _ refl (λ o. refl) refl refl refl)
  handle-Handled prompt index (coverage report) st m f = (
    _,
    refl,
    record {
      same_processes = refl;
      more_reports = sym (append-nil st.reports);
      new_slots = λ i. by_number-insert index i report st.worker_coverage;
    },
  )
  handle-Handled prompt index (crashlog_path nodeid path) st m f =
      (_, refl, unchanged index _ st _ refl (λ o. refl) refl refl refl)
  handle-Handled prompt index keyboard_interrupt st m f =
      (_, refl, unchanged index _ st _ refl (λ o. refl) refl refl refl)
  handle-Handled prompt index (sessionfinish exitstatus) st m f = cc
  handle-Handled prompt index unknown st m f =
      (_, refl, unchanged index _ st _ refl (λ o. refl) refl refl refl)

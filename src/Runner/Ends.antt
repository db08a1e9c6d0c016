-- ===== src/Runner/Ends.antt =====
-- Whatever the order in which the messages arrive, the event loop of _mp_server.py ends.
use wake_sol.Prelude.{
  ℕ, ◌≤◌, ◌<◌, ◌≡◌, refl, sym, ap, ◌∙◌, ◌⊎◌, inl, inr, Bool, true, false, Option, some, List, [],
  ◌∷◌, ◌++◌, append-nil, append_assoc, ◌==◌, ==_iff, ==_refl, if◌then◌else◌, Bool-cases, arith,
}
use wake_sol.Prelude.Assoc.{by_number}
use wake_sol.Coverage.Reports.{Report}
use wake_sol.Runner.Server.{
  MessageKind, sessionfinish, Message, Response, Server, is_member, remove, pop_process, handle,
  Loop, ended, no_message, after_message, next_message, event_loop, started,
}
use wake_sol.Runner.Drained.{
  is_member-remove, remove-Once, is_member-count_up, count_up-Once, is_finish, report_of, newer,
  messages_of, Finished, reports_in, last_coverage, Ready, Drained, handle-Handled, if_same,
}

module _ {R : Type 0} where
  messages_of_here :
      (m : Message R) (ms : List (Message R))
      → messages_of m.index (m ∷ ms) ≡ m.kind ∷ messages_of m.index ms
  unfolding messages_of
  messages_of_here m ms = rw (==_refl m.index) refl

  messages_of_other :
      (m : Message R) (ms : List (Message R)) (i : ℕ)
      → (m.index == i) ≡ false
      → messages_of i (m ∷ ms) ≡ messages_of i ms
  unfolding messages_of
  messages_of_other m ms i h = rw h refl

  -- The message is of a worker that is left.
  sender_left :
      (procs : List ℕ) (m : Message R) (ms : List (Message R))
      → Ready procs (m ∷ ms)
      → is_member m.index procs ≡ true
  sender_left procs m ms r = elim (Bool-cases (is_member m.index procs)) [
    | inl yes_it_is ↦ yes_it_is
    | inr gone ↦
        let bad : m.kind ∷ messages_of m.index ms ≡ [] =
          sym (messages_of_here m ms) ∙ r.silent m.index gone in
        cc
  ]

  Ready-next :
      (procs : List ℕ) (m : Message R) (ms : List (Message R))
      → Ready procs (m ∷ ms)
      → is_finish m.kind ≡ false
      → Ready procs ms
  Ready-next procs m ms r f = record {
    once = r.once;
    finished = λ i h. go i h (Bool-cases (m.index == i));
    silent = λ i h. quiet i h (Bool-cases (m.index == i));
  }
    where
      rest_of : (ks : List (MessageKind R)) → Finished (m.kind ∷ ks) → Finished ks
      rest_of ks (inl (e, q)) = cc
      rest_of ks (inr (e, q)) = q

      go :
          (i : ℕ)
          → is_member i procs ≡ true
          → ((m.index == i) ≡ true) ⊎ ((m.index == i) ≡ false)
          → Finished (messages_of i ms)
      go i h (inl here) =
          let q : m.index ≡ i = (==_iff m.index i).0 here in
          let e = messages_of_here m ms in
          rw (← q) (rest_of (messages_of m.index ms) (rw e at (r.finished m.index (rw q h))))
      go i h (inr other) = rw (messages_of_other m ms i other) at (r.finished i h)

      quiet :
          (i : ℕ)
          → is_member i procs ≡ false
          → ((m.index == i) ≡ true) ⊎ ((m.index == i) ≡ false)
          → messages_of i ms ≡ []
      quiet i h (inl here) =
          let q : m.index ≡ i = (==_iff m.index i).0 here in
          let s : is_member m.index procs ≡ true = sender_left procs m ms r in
          let t : is_member m.index procs ≡ false = rw q h in cc
      quiet i h (inr other) = sym (messages_of_other m ms i other) ∙ r.silent i h

  Ready-finish :
      (procs : List ℕ) (m : Message R) (ms : List (Message R))
      → Ready procs (m ∷ ms)
      → is_finish m.kind ≡ true
      → Ready (remove m.index procs) ms
  Ready-finish procs m ms r f = record {
    once = remove-Once m.index procs r.once;
    finished = λ i h. go i h (Bool-cases (m.index == i));
    silent = λ i h. quiet i h (Bool-cases (m.index == i));
  }
    where
      none_left : (ks : List (MessageKind R)) → Finished (m.kind ∷ ks) → ks ≡ []
      none_left ks (inl (e, q)) = q
      none_left ks (inr (e, q)) = cc

      go :
          (i : ℕ)
          → is_member i (remove m.index procs) ≡ true
          → ((m.index == i) ≡ true) ⊎ ((m.index == i) ≡ false)
          → Finished (messages_of i ms)
      go i h (inl here) =
          let e = is_member-remove m.index i procs r.once in
          let bad : false ≡ true = rw here at (rw e at h) in cc
      go i h (inr other) =
          let e = is_member-remove m.index i procs r.once in
          let k : is_member i procs ≡ true = rw other at (rw e at h) in
          rw (messages_of_other m ms i other) at (r.finished i k)

      quiet :
          (i : ℕ)
          → is_member i (remove m.index procs) ≡ false
          → ((m.index == i) ≡ true) ⊎ ((m.index == i) ≡ false)
          → messages_of i ms ≡ []
      quiet i h (inl here) =
          let q : m.index ≡ i = (==_iff m.index i).0 here in
          let e = messages_of_here m ms in
          rw (← q) (
            none_left (messages_of m.index ms)
              (rw e at (r.finished m.index (sender_left procs m ms r))))
      quiet i h (inr other) =
          let e = is_member-remove m.index i procs r.once in
          let k : is_member i procs ≡ false = rw other at (rw e at h) in
          sym (messages_of_other m ms i other) ∙ r.silent i k

  -- A message, and then the rest.
  Drained-cons :
      (m : Message R) (ms : List (Message R)) (st st1 st' : Server R)
      → st1.reports ≡ st.reports ++ report_of m.kind
      → ((i : ℕ)
          → by_number i st1.worker_coverage ≡ (
              if m.index == i
              then newer m.kind (by_number i st.worker_coverage)
              else by_number i st.worker_coverage))
      → Drained ms st1 st'
      → Drained (m ∷ ms) st st'
  unfolding reports_in messages_of last_coverage
  Drained-cons m ms st st1 st' more slots d = record {
    all_finished = d.all_finished;
    all_reports =
        d.all_reports
        ∙ ap (λ rs. rs ++ reports_in ms) more
        ∙ append_assoc st.reports (report_of m.kind) (reports_in ms);
    last_slots = λ i. elim (Bool-cases (m.index == i)) [
      | inl here ↦
          let now : by_number i st1.worker_coverage
              ≡ newer m.kind (by_number i st.worker_coverage) =
            slots i ∙ rw here refl in
          d.last_slots i ∙ ap (λ o. last_coverage o (messages_of i ms)) now ∙ rw here refl
      | inr other ↦
          let now : by_number i st1.worker_coverage ≡ by_number i st.worker_coverage =
            slots i ∙ rw other refl in
          d.last_slots i ∙ ap (λ o. last_coverage o (messages_of i ms)) now ∙ rw other refl
    ];
  }

  next_message_left :
      (i : ℕ) (procs : List ℕ) (st : Server R) (next : Loop R)
      → is_member i procs ≡ true
      → next_message procs st next ≡ next
  unfolding next_message is_member
  next_message_left i [] st next h = cc
  next_message_left i (j ∷ js) st next h = refl

  handle-finish :
      (prompt : Bool) (index : ℕ) (k : MessageKind R) (st : Server R)
      → is_member index st.processes ≡ true
      → is_finish k ≡ true
      → (handle prompt index k st ≡ some (record st { processes = remove index st.processes }))
        × (report_of k ≡ [])
        × ((o : Option Report) → newer k o ≡ o)
  unfolding handle pop_process
  handle-finish prompt index (sessionfinish exitstatus) st m f = (rw m refl, refl, λ o. refl)
  handle-finish prompt index _ st m f = cc

  no_message-Ready :
      (procs : List ℕ) (st : Server R)
      → Ready {R = R} procs []
      → (no_message procs st ≡ ended st) × (procs ≡ [])
  unfolding no_message is_member messages_of
  no_message-Ready [] st r = (refl, refl)
  no_message-Ready (i ∷ is) st r =
      let left : is_member i (i ∷ is) ≡ true = rw (==_refl i) refl in absurd (r.finished i left)

  -- What handling one message has established.
  record Stepped (prompt : Bool) (m : Message R) (ms : List (Message R)) (st st1 : Server R)
      : Type 0 where
    handled : handle prompt m.index m.kind st ≡ some st1
    ready : Ready st1.processes ms
    more_reports : st1.reports ≡ st.reports ++ report_of m.kind
    new_slots :
        (i : ℕ)
        → by_number i st1.worker_coverage ≡ (
            if m.index == i
            then newer m.kind (by_number i st.worker_coverage)
            else by_number i st.worker_coverage)

  step-Ready :
      (prompt : Bool) (m : Message R) (ms : List (Message R)) (st : Server R)
      → Ready st.processes (m ∷ ms)
      → (st1 : Server R) × Stepped prompt m ms st st1
  step-Ready prompt m ms st r = by_kind (Bool-cases (is_finish m.kind))
    where
      left : is_member m.index st.processes ≡ true
      left = sender_left st.processes m ms r

      by_kind :
          (is_finish m.kind ≡ true) ⊎ (is_finish m.kind ≡ false)
          → (st1 : Server R) × Stepped prompt m ms st st1
      by_kind (inl f) =
          let (e, none_reported, same) = handle-finish prompt m.index m.kind st left f in
          (
            record st { processes = remove m.index st.processes },
            record {
              handled = e;
              ready = Ready-finish st.processes m ms r f;
              more_reports = rw none_reported (sym (append-nil st.reports));
              new_slots = λ i.
                  rw (same (by_number i st.worker_coverage))
                    (if_same (m.index == i) (by_number i st.worker_coverage));
            },
          )
      by_kind (inr f) =
          let (st1, e, h) = handle-Handled prompt m.index m.kind st left f in
          (
            st1,
            record {
              handled = e;
              ready = rw h.same_processes (Ready-next st.processes m ms r f);
              more_reports = h.more_reports;
              new_slots = h.new_slots;
            },
          )

  -- The loop over the messages of the workers that are left.
  pub drain :
      (prompt : Bool) (msgs : List (Message R)) (st : Server R)
      → Ready st.processes msgs
      → (st' : Server R) × (event_loop prompt msgs st ≡ ended st') × Drained msgs st st'
  unfolding event_loop reports_in messages_of last_coverage after_message
  drain prompt [] st r =
      let (e, q) = no_message-Ready st.processes st r in
      (
        st,
        e,
        record {
          all_finished = q;
          all_reports = sym (append-nil st.reports);
          last_slots = λ i. refl;
        },
      )
  drain prompt (m ∷ ms) st r =
      let (st1, s) = step-Ready prompt m ms st r in
      let (st', l, d) = drain prompt ms st1 s.ready in
      let left = sender_left st.processes m ms r in
      (
        st',
        next_message_left m.index st.processes st
              (after_message (handle prompt m.index m.kind st) (event_loop prompt ms)) left
            ∙ ap (λ o. after_message o (event_loop prompt ms)) s.handled
            ∙ l,
        Drained-cons m ms st st1 st' s.more_reports s.new_slots d,
      )

  -- Let each of `procs` workers put its messages on the queue, ending with the end of its session and
  -- with no other such message, and no one else put any: in whatever order they arrive, the loop
  -- ends, with every worker finished, all the reports buffered in order of arrival, and for every
  -- worker its last report of coverage.
  pub event_loop-ended :
      (prompt : Bool) (procs : ℕ) (responses : List Response) (msgs : List (Message R))
      → ((i : ℕ) → i < procs → Finished (messages_of i msgs))
      → ((i : ℕ) → procs ≤ i → messages_of i msgs ≡ [])
      → (st' : Server R) × (event_loop prompt msgs (started procs responses) ≡ ended st')
        × Drained msgs (started procs responses) st'
  unfolding started
  event_loop-ended prompt procs responses msgs finished silent =
      drain prompt msgs (started procs responses) (record {
        once = count_up-Once 0 procs;
        finished = λ i h. finished i (let e = is_member-count_up i 0 procs in ground arith);
        silent = λ i h. silent i (let e = is_member-count_up i 0 procs in ground arith);
      })

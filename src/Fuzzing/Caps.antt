-- ===== src/Fuzzing/Caps.antt =====
-- No flow runs more often than `max_times` in a sequence (fuzzing.py).
use wake_sol.Prelude.{
  ℕ, zero, suc, ◌+◌, ◌≤◌, ◌≡◌, true, String, Option, none, some, List, [], ◌∷◌, arith, All, ◌==◌,
  and_left, Bool-cases, inl, inr,
}
use wake_sol.Prelude.Assoc.{by_number, by_number-insert}
use wake_sol.Fuzzing.Run.{Current, Code, Run, Outcome, returned, raised, ◌>>=◌, ◌>>◌, modify, call}
use wake_sol.Fuzzing.Keeps.{
  Post, Triple, Keeps, bind-Triple, bind-Keeps, call-Triple, weaken-Triple,
}
use wake_sol.Fuzzing.Choice.{choose_runnable-All}
use wake_sol.Fuzzing.Engine.{
  Flow, Invariant, FuzzTest, times, below_cap, runnable, choose_runnable, note_choice, note_result,
  run_flow, advance_period, check_due, check_invariant, check_invariants, step, steps, sequence,
  forget_counts,
}

below_room : (cap : Option ℕ) (n m : ℕ) → cap ≡ some m → below_cap cap n ≡ true → suc n ≤ m
unfolding below_cap
below_room none n m e h = cc
below_room (some k) n m e h = ground arith

module _ {W : Type 0} (t : FuzzTest W) (id m : ℕ)
    (same : All (λ (g : Flow W). g.id ≡ id → g.max_times ≡ some m) t.flows) where
  -- The flow has run at most `m` times in this sequence.
  abbrev Capped : Run W → Type 0
  Capped r = times id r.flows_counter ≤ m

  -- It may run again if it is `g`.
  abbrev Room : Flow W → Run W → Type 0
  Room g r = Capped r × (g.id ≡ id → suc (times id r.flows_counter) ≤ m)

  note_result-Capped :
      (g : Flow W) (ret : Option String) (r : Run W) → Room g r → Capped (note_result g ret r)
  unfolding note_result
  note_result-Capped g none r (capped, room) =
      rw (by_number-insert g.id id (times g.id r.flows_counter + 1) r.flows_counter)
        (elim (Bool-cases (g.id == id)) [
          | inl it ↦
              let q : g.id ≡ id = ground arith in let now = room q in rw it (rw q (omega arith))
          | inr another ↦ rw another capped
        ])
  note_result-Capped g (some reason) r (capped, room) = capped

  run_flow-Capped : (g : Flow W) → Triple (Room g) (run_flow t g) (λ _. Capped) Capped
  unfolding run_flow note_choice
  run_flow-Capped g r room =
      bind-Triple (Room g) (call (t.pre_flow g.name)) (λ _. Room g)
        (λ _. call g.body >>= λ ret. call (t.post_flow g.name) >> modify (note_result g ret))
        (λ _. Capped) Capped (call-Room (t.pre_flow g.name))
        (λ _.
          bind-Triple (Room g) (call g.body) (λ _. Room g)
            (λ ret. call (t.post_flow g.name) >> modify (note_result g ret)) (λ _. Capped) Capped
            (call-Room g.body)
            (λ ret.
              bind-Triple (Room g) (call (t.post_flow g.name)) (λ _. Room g)
                (λ _. modify (note_result g ret)) (λ _. Capped) Capped
                (call-Room (t.post_flow g.name)) (λ _ r room. note_result-Capped g ret r room)))
        (note_choice g r) room
    where
      call-Room : {A : Type 0} (code : Code W A) → Triple (Room g) (call code) (λ _. Room g) Capped
      call-Room code =
          weaken-Triple (Room g) (call code) (λ _. Room g) (Room g) Capped (λ r room. room.0)
            (call-Triple (Room g) code (λ r w room. room))

  check_due-Capped : (i : Invariant W) → Keeps Capped (check_due t i)
  unfolding check_due
  check_due-Capped i r capped =
      bind-Keeps Capped (call (t.pre_invariant i.name))
        (λ _. call i.body >> call (t.post_invariant i.name)) (keep (t.pre_invariant i.name))
        (λ _.
          bind-Keeps Capped (call i.body) (λ _. call (t.post_invariant i.name)) (keep i.body)
            (λ _. keep (t.post_invariant i.name)))
        (record r { current = Current.invariant i.name }) capped
    where
      keep : {A : Type 0} (code : Code W A) → Keeps Capped (call code)
      keep code = call-Triple Capped code (λ r w c. c)

  check_invariant-Capped : (i : Invariant W) → Keeps Capped (check_invariant t i)
  unfolding check_invariant advance_period
  check_invariant-Capped i r capped = elim (Bool-cases (times i.id r.invariant_periods == 0)) [
    | inl due ↦ rw due (
        bind-Keeps Capped (check_due t i) (λ _. modify (advance_period i)) (check_due-Capped i)
          (λ _ r c. c) r capped)
    | inr not_due ↦ rw not_due capped
  ]

  check_invariants-Capped : (is : List (Invariant W)) → Keeps Capped (check_invariants t is)
  unfolding check_invariants
  check_invariants-Capped [] r capped = capped
  check_invariants-Capped (i ∷ is) r capped =
      bind-Keeps Capped (check_invariant t i) (λ _. check_invariants t is)
        (check_invariant-Capped i) (λ _. check_invariants-Capped is) r capped

  runnable-Room :
      (g : Flow W) (r r' : Run W)
      → Capped r
      → (g.id ≡ id → g.max_times ≡ some m)
      → runnable r g ≡ true
      → r'.flows_counter ≡ r.flows_counter
      → Room g r'
  unfolding runnable below_cap
  runnable-Room g r r' capped limit now e = rw e (
    capped,
    λ q.
        rw q at
          (below_room g.max_times (times g.id r.flows_counter) m (limit q) (and_left _ _ now)),
  )

  choose-Room : Triple Capped (choose_runnable t) (λ g. Room g) Capped
  choose-Room r capped = by_outcome (choose_runnable t r) (choose_runnable-All _ t r same)
    where
      by_outcome :
          (o : Outcome (Run W) (Flow W))
          → Post
              (λ g r'.
                ((g.id ≡ id → g.max_times ≡ some m) × (runnable r g ≡ true))
                × (r'.flows_counter ≡ r.flows_counter))
              (λ r'. r' ≡ r)
              o
          → Post (λ g. Room g) Capped o
      by_outcome (returned g r') ((limit, now), e) = runnable-Room g r r' capped limit now e
      by_outcome (raised x r') e = rw e capped

  step-Capped : (k : ℕ) → Keeps Capped (step t k)
  unfolding step
  step-Capped k r capped =
      bind-Triple Capped (choose_runnable t) (λ g. Room g)
        (λ g.
          run_flow t g
          >> (call t.pre_invariants >> (check_invariants t t.invariants >> call t.post_invariants)))
        (λ _. Capped) Capped choose-Room
        (λ g.
          bind-Triple (Room g) (run_flow t g) (λ _. Capped)
            (λ _.
              call t.pre_invariants >> (check_invariants t t.invariants >> call t.post_invariants))
            (λ _. Capped) Capped (run_flow-Capped g)
            (λ _.
              bind-Keeps Capped (call t.pre_invariants)
                (λ _. check_invariants t t.invariants >> call t.post_invariants)
                (keep t.pre_invariants)
                (λ _.
                  bind-Keeps Capped (check_invariants t t.invariants) (λ _. call t.post_invariants)
                    (check_invariants-Capped t.invariants) (λ _. keep t.post_invariants))))
        (record r { flow_num = k; world = t.set_numbers r.sequence_num k r.world }) capped
    where
      keep : {A : Type 0} (code : Code W A) → Keeps Capped (call code)
      keep code = call-Triple Capped code (λ r w c. c)

  steps-Capped : (k n : ℕ) → Keeps Capped (steps t k n)
  unfolding steps
  steps-Capped k zero r capped = capped
  steps-Capped k (suc n) r capped =
      bind-Keeps Capped (step t k) (λ _. steps t (k + 1) n) (step-Capped k)
        (λ _. steps-Capped (k + 1) n) r capped

  -- However a sequence ends, a flow with `max_times` has run at most that often in it, if the flows
  -- that are the same function have the same `max_times`.
  pub sequence-max_times :
      (flows_count : ℕ) (r : Run W)
      → Post
          (λ _ r'. times id r'.flows_counter ≤ m)
          (λ r'. times id r'.flows_counter ≤ m)
          (sequence t flows_count (forget_counts r))
  unfolding sequence forget_counts by_number
  sequence-max_times flows_count r =
      bind-Keeps Capped (steps t 0 flows_count) (λ _. call t.post_sequence)
        (steps-Capped 0 flows_count) (λ _. call-Triple Capped t.post_sequence (λ r w c. c))
        (forget_counts r) (omega arith)

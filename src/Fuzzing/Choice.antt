-- ===== src/Fuzzing/Choice.antt =====
-- Which flow a step of fuzzing.py chooses.
use wake_sol.Prelude.{
  ℕ, ◌-◌, ◌<◌, ◌≡◌, refl, Bool, true, List, [], ◌∷◌, arith, All, ltb, ltb→lt, ltb_not, ◌==◌,
  Bool-cases, inl, inr, and_left, and_right,
}
use wake_sol.Fuzzing.Run.{Run}
use wake_sol.Fuzzing.Keeps.{Post}
use wake_sol.Fuzzing.Engine.{
  Flow, FuzzTest, times, below_cap, open_gate, runnable, select, pick, choose, total_weight,
  choose_among, choose_runnable,
}

module _ {W : Type 0} where
  select-All : (p : Flow W → Bool) (fs : List (Flow W)) → All (λ f. p f ≡ true) (select p fs)
  unfolding select
  select-All p [] = tt
  select-All p (f ∷ fs) = elim (Bool-cases (p f)) [
    | inl yes_it_is ↦ rw yes_it_is (yes_it_is, select-All p fs)
    | inr not_it ↦ rw not_it (select-All p fs)
  ]

  All-select :
      (P : Flow W → Type 0) (p : Flow W → Bool) (fs : List (Flow W))
      → All P fs
      → All P (select p fs)
  unfolding select
  All-select P p [] h = tt
  All-select P p (f ∷ fs) (h, hs) = elim (Bool-cases (p f)) [
    | inl kept ↦ rw kept (h, All-select P p fs hs)
    | inr left_out ↦ rw left_out (All-select P p fs hs)
  ]

  All-pick :
      (P : Flow W → Type 0) (n : ℕ) (f : Flow W) (fs : List (Flow W))
      → All P (f ∷ fs)
      → P (pick n f fs)
  unfolding pick
  All-pick P n f [] (h, _) = h
  All-pick P n f (g ∷ fs) (h, hs) = elim (Bool-cases (ltb n f.weight)) [
    | inl here ↦ rw here h
    | inr later ↦ rw later (All-pick P (n - f.weight) g fs hs)
  ]

  pick_positive :
      (n : ℕ) (f : Flow W) (fs : List (Flow W))
      → n < total_weight (f ∷ fs)
      → 0 < (pick n f fs).weight
  unfolding pick total_weight
  pick_positive n f [] h = omega arith
  pick_positive n f (g ∷ fs) h = elim (Bool-cases (ltb n f.weight)) [
    | inl here ↦ rw here (let lt = ltb→lt n f.weight here in omega arith)
    | inr later ↦
        rw later
          (pick_positive (n - f.weight) g fs (let ge = ltb_not n f.weight later in omega arith))
  ]

  choose-All :
      (Q : Flow W → Type 0) (t : FuzzTest W) (f : Flow W) (fs : List (Flow W)) (r : Run W)
      → All Q (f ∷ fs)
      → Post (λ g r'. Q g × (r'.flows_counter ≡ r.flows_counter)) (λ r'. r' ≡ r) (choose t f fs r)
  unfolding choose
  choose-All Q t f fs r h = elim (Bool-cases (total_weight (f ∷ fs) == 0)) [
    | inl nothing ↦ rw nothing refl
    | inr some_weight ↦ rw some_weight (All-pick Q _ f fs h, refl)
  ]

  choose_among-All :
      (Q : Flow W → Type 0) (t : FuzzTest W) (fs : List (Flow W)) (r : Run W)
      → All Q fs
      → Post
          (λ g r'. Q g × (r'.flows_counter ≡ r.flows_counter))
          (λ r'. r' ≡ r)
          (choose_among t fs r)
  unfolding choose_among
  choose_among-All Q t [] r h = refl
  choose_among-All Q t (f ∷ fs) r h = choose-All Q t f fs r h

  All-both :
      (P Q : Flow W → Type 0) (fs : List (Flow W)) → All P fs → All Q fs → All (λ g. P g × Q g) fs
  All-both P Q [] h k = tt
  All-both P Q (f ∷ fs) (h, hs) (k, ks) = ((h, k), All-both P Q fs hs ks)

  -- What is chosen may run.
  pub choose_runnable-All :
      (P : Flow W → Type 0) (t : FuzzTest W) (r : Run W)
      → All P t.flows
      → Post
          (λ g r'. (P g × (runnable r g ≡ true)) × (r'.flows_counter ≡ r.flows_counter))
          (λ r'. r' ≡ r)
          (choose_runnable t r)
  unfolding choose_runnable
  choose_runnable-All P t r members =
      choose_among-All _ t (select (runnable r) t.flows) r (
        All-both P _ _ (All-select P (runnable r) t.flows members)
          (select-All (runnable r) t.flows))

  -- A flow that may run now: below its cap, its gate open, with a share of the weights, and one of
  -- those of which `P` holds.
  pub record Eligible (P : Flow W → Type 0) (r : Run W) (f : Flow W) : Type 0 where
    pub member : P f
    pub below : below_cap f.max_times (times f.id r.flows_counter) ≡ true
    pub gate : open_gate f.precondition r.world ≡ true
    pub share : 0 < f.weight

  choose-Eligible :
      (P : Flow W → Type 0) (t : FuzzTest W) (f : Flow W) (fs : List (Flow W)) (r : Run W)
      → ((total : ℕ) (w : W) → 0 < total → (t.draw total w).0 < total)
      → All P (f ∷ fs)
      → All (λ g. runnable r g ≡ true) (f ∷ fs)
      → Post
          (λ g r'. Eligible P r g × (r'.flows_counter ≡ r.flows_counter))
          (λ r'. r' ≡ r)
          (choose t f fs r)
  unfolding choose runnable
  choose-Eligible P t f fs r fair members open_now =
      elim (Bool-cases (total_weight (f ∷ fs) == 0)) [
        | inl nothing ↦ rw nothing refl
        | inr some_weight ↦
            let n = (t.draw (total_weight (f ∷ fs)) r.world).0 in
            let now = All-pick (λ g. runnable r g ≡ true) n f fs open_now in
            rw some_weight (
              record {
                member = All-pick P n f fs members;
                below = and_left _ _ now;
                gate = and_right _ _ now;
                share = pick_positive n f fs (fair _ r.world (ground arith));
              },
              refl,
            )
      ]

  choose_among-Eligible :
      (P : Flow W → Type 0) (t : FuzzTest W) (fs : List (Flow W)) (r : Run W)
      → ((total : ℕ) (w : W) → 0 < total → (t.draw total w).0 < total)
      → All P fs
      → All (λ g. runnable r g ≡ true) fs
      → Post
          (λ g r'. Eligible P r g × (r'.flows_counter ≡ r.flows_counter))
          (λ r'. r' ≡ r)
          (choose_among t fs r)
  unfolding choose_among
  choose_among-Eligible P t [] r fair members open_now = refl
  choose_among-Eligible P t (f ∷ fs) r fair members open_now =
      choose-Eligible P t f fs r fair members open_now

  -- If the random source draws below the total of the weights, the flow that is chosen is one of the
  -- class's, below its cap, its gate open, with a positive weight; the counters stay as they are.
  -- If none can be chosen nothing has changed.
  pub choose_runnable-Eligible :
      (P : Flow W → Type 0) (t : FuzzTest W) (r : Run W)
      → ((total : ℕ) (w : W) → 0 < total → (t.draw total w).0 < total)
      → All P t.flows
      → Post
          (λ g r'. Eligible P r g × (r'.flows_counter ≡ r.flows_counter))
          (λ r'. r' ≡ r)
          (choose_runnable t r)
  unfolding choose_runnable
  choose_runnable-Eligible P t r fair members =
      choose_among-Eligible P t (select (runnable r) t.flows) r fair
        (All-select P (runnable r) t.flows members) (select-All (runnable r) t.flows)

-- ===== src/Fuzzing/Merging.antt =====
-- What merging statistics does to the counts, fuzzing.py.
use wake_sol.Prelude.{
  ℕ, ◌+◌, ◌≡◌, refl, ap, String, [], ◌∷◌, arith, if◌then◌else◌, str_eq, Bool-cases, inl, inr,
}
use wake_sol.Prelude.Assoc.{insert, by_name-insert}
use wake_sol.Fuzzing.Stats.{FlowStats, Flows, stats_of, leaf_of, merge_leaf, merge_flow_leaves}
use text.Mathlib.TextEquality.{eq_iff}

-- The sum of a count over the leaves of a flow.
unfoldable pub counted : (FlowStats → ℕ) → String → Flows → ℕ
counted c k [] = 0
counted c k ((name, s) ∷ src) = if str_eq name k then c s + counted c k src else counted c k src

merge_flow_leaves-counted :
    (c : FlowStats → ℕ)
    → ((a b : FlowStats) → c (merge_leaf a b) ≡ c a + c b)
    → (k : String) (dst src : Flows)
    → c (stats_of k (merge_flow_leaves dst src)) ≡ c (stats_of k dst) + counted c k src
unfolding merge_flow_leaves counted
merge_flow_leaves-counted c adds k dst [] = omega arith
merge_flow_leaves-counted c adds k dst ((name, s) ∷ src) = elim (Bool-cases (str_eq name k)) [
  | inl it ↦
      let q : name ≡ k = (eq_iff name k).0 it in
      let m = merge_leaf (stats_of name dst) s in
      let here = rw it at (by_name-insert name k m dst) in
      let now : c (stats_of k (insert name m dst)) ≡ c m = ap (λ o. c (leaf_of o)) here in
      let was : c (stats_of name dst) ≡ c (stats_of k dst) = ap (λ n. c (stats_of n dst)) q in
      let ih = merge_flow_leaves-counted c adds k (insert name m dst) src in
      let sum = adds (stats_of name dst) s in rw it (omega arith)
  | inr another ↦
      let m = merge_leaf (stats_of name dst) s in
      let here = rw another at (by_name-insert name k m dst) in
      let now : c (stats_of k (insert name m dst)) ≡ c (stats_of k dst) =
        ap (λ o. c (leaf_of o)) here in
      let ih = merge_flow_leaves-counted c adds k (insert name m dst) src in
      rw another (omega arith)
]

-- After a merge each flow's `picked`, `ran` and `skipped` are what they were and the sum of what the
-- leaves of that flow add.
pub merge_flow_leaves-sums :
    (k : String) (dst src : Flows)
    → ((stats_of k (merge_flow_leaves dst src)).picked
        ≡ (stats_of k dst).picked + counted (λ s. s.picked) k src)
      × ((stats_of k (merge_flow_leaves dst src)).ran
          ≡ (stats_of k dst).ran + counted (λ s. s.ran) k src)
      × ((stats_of k (merge_flow_leaves dst src)).skipped
          ≡ (stats_of k dst).skipped + counted (λ s. s.skipped) k src)
unfolding merge_leaf
merge_flow_leaves-sums k dst src = (
  merge_flow_leaves-counted (λ s. s.picked) (λ a b. refl) k dst src,
  merge_flow_leaves-counted (λ s. s.ran) (λ a b. refl) k dst src,
  merge_flow_leaves-counted (λ s. s.skipped) (λ a b. refl) k dst src,
)

-- ===== src/Coverage/Sums.antt =====
-- Merging sums hits (`merge_reports` and `merge_lcov` of coverage.py).
use wake_sol.Prelude.{
  ◌+◌, ◌≡◌, refl, sym, ap, ◌∙◌, none, [], ◌∷◌, Bool-cases, inl, inr, if◌then◌else◌, arith, All,
}
use wake_sol.Prelude.Int.{ℤ, pos}
use wake_sol.Coverage.Dict.{get, put, Distinct, get-put}
use wake_sol.Coverage.Text.{Text, same_text}
use wake_sol.Coverage.LinesBack.{same_int_iff, same_text_iff, zero-add_int}
use wake_sol.Coverage.Lcov.{
  same_int, ◌+ℤ◌, pos_part, neg_part, Lines, Files, int_or_zero, lines_or_none, hits, lines_of,
  hits_at, add_hits, merge_lines, merge_files,
}
use wake_sol.Coverage.RoundTrip.{FileOk}

pub +ℤ_parts :
    (a b : ℤ)
    → pos_part (a +ℤ b) + neg_part a + neg_part b ≡ neg_part (a +ℤ b) + pos_part a + pos_part b
unfolding ◌+ℤ◌
+ℤ_parts a b = ground arith

eq_of_parts : (a b : ℤ) → pos_part a + neg_part b ≡ pos_part b + neg_part a → a ≡ b
eq_of_parts a b h = ground arith

pub +ℤ_assoc : (a b c : ℤ) → (a +ℤ b) +ℤ c ≡ a +ℤ (b +ℤ c)
+ℤ_assoc a b c =
    eq_of_parts ((a +ℤ b) +ℤ c) (a +ℤ (b +ℤ c))
      (omega (arith, +ℤ_parts a b, +ℤ_parts (a +ℤ b) c, +ℤ_parts b c, +ℤ_parts a (b +ℤ c)))

pub +ℤ_comm : (a b : ℤ) → a +ℤ b ≡ b +ℤ a
+ℤ_comm a b = eq_of_parts (a +ℤ b) (b +ℤ a) (omega (arith, +ℤ_parts a b, +ℤ_parts b a))

pub add_int-zero : (a : ℤ) → a +ℤ pos 0 ≡ a
add_int-zero a = +ℤ_comm a (pos 0) ∙ zero-add_int a

hits-put :
    (k n c : ℤ) (m : Lines) → hits n (put same_int k c m) ≡ (if same_int k n then c else hits n m)
hits-put k n c m = ground (arith, get-put same_int same_int_iff k n c m)

-- The hits of a line that is no key are 0.
hits_absent : (n : ℤ) (m : Lines) → get same_int n m ≡ none → hits n m ≡ pos 0
hits_absent n m h = ap int_or_zero h

hits-add_hits :
    (k n c : ℤ) (m : Lines)
    → hits n (add_hits k c m) ≡ (if same_int k n then hits k m +ℤ c else hits n m)
unfolding add_hits
hits-add_hits k n c m = hits-put k n (hits k m +ℤ c) m

pub hits-merge_lines :
    (n : ℤ) (into lines : Lines)
    → Distinct same_int lines
    → hits n (merge_lines into lines) ≡ hits n into +ℤ hits n lines
unfolding merge_lines get
hits-merge_lines n into [] d = sym (add_int-zero (hits n into))
hits-merge_lines n into ((k, c) ∷ lines) (out, d) = elim (Bool-cases (same_int k n)) [
  | inl same ↦
      let q : k ≡ n = (same_int_iff k n).0 same in
      let absent : hits n lines ≡ pos 0 = hits_absent n lines (rw q at out) in
      let here : hits n (add_hits k c into) ≡ hits n into +ℤ c =
        hits-add_hits k n c into ∙ rw same (ap (λ j. hits j into +ℤ c) q) in
      hits-merge_lines n (add_hits k c into) lines d
      ∙ ap (λ z. z +ℤ hits n lines) here
      ∙ ap (λ z. (hits n into +ℤ c) +ℤ z) absent
      ∙ add_int-zero (hits n into +ℤ c)
      ∙ rw same refl
  | inr other ↦
      let here : hits n (add_hits k c into) ≡ hits n into =
        hits-add_hits k n c into ∙ rw other refl in
      hits-merge_lines n (add_hits k c into) lines d
      ∙ ap (λ z. z +ℤ hits n lines) here
      ∙ rw other refl
]

lines_of-put :
    (path q : Text) (lines : Lines) (files : Files)
    → lines_of q (put same_text path lines files)
      ≡ (if same_text path q then lines else lines_of q files)
lines_of-put path q lines files = ground (arith, get-put same_text same_text_iff path q lines files)

lines_of_absent : (q : Text) (files : Files) → get same_text q files ≡ none → lines_of q files ≡ []
lines_of_absent q files h = ap lines_or_none h

-- The loop over the files sums the hits of each line of each file.
pub hits_at-merge_files :
    (q : Text) (n : ℤ) (dst src : Files)
    → Distinct same_text src
    → All FileOk src
    → hits_at q n (merge_files dst src) ≡ hits_at q n dst +ℤ hits_at q n src
unfolding merge_files get
hits_at-merge_files q n dst [] d ok = sym (add_int-zero (hits_at q n dst))
hits_at-merge_files q n dst ((path, lines) ∷ src) (out, d) ((w, dl), ok) =
    let merged = merge_lines (lines_of path dst) lines in
    let rest = hits_at-merge_files q n (put same_text path merged dst) src d ok in
    elim (Bool-cases (same_text path q)) [
      | inl same ↦
          let e : path ≡ q = (same_text_iff path q).0 same in
          let absent : hits_at q n src ≡ pos 0 =
            ap (hits n) (lines_of_absent q src (rw e at out)) in
          let stored : lines_of q (put same_text path merged dst) ≡ merged =
            lines_of-put path q merged dst ∙ rw same refl in
          rest
          ∙ ap (λ z. z +ℤ hits_at q n src)
              (ap (hits n) stored ∙ hits-merge_lines n (lines_of path dst) lines dl)
          ∙ ap (λ z. (hits n (lines_of path dst) +ℤ hits n lines) +ℤ z) absent
          ∙ add_int-zero (hits n (lines_of path dst) +ℤ hits n lines)
          ∙ rw same (ap (λ p. hits n (lines_of p dst) +ℤ hits n lines) e)
      | inr other ↦
          let kept : lines_of q (put same_text path merged dst) ≡ lines_of q dst =
            lines_of-put path q merged dst ∙ rw other refl in
          rest ∙ ap (λ z. z +ℤ hits_at q n src) (ap (hits n) kept) ∙ rw other refl
    ]

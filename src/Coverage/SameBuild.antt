-- ===== src/Coverage/SameBuild.antt =====
-- No merge across builds (`_check_builds` of coverage.py).
use wake_sol.Prelude.{
  ℕ, zero, suc, ◌≡◌, ◌≢◌, refl, sym, ap, ◌∙◌, ◌⊎◌, inl, inr, true, false, String, Option, none,
  some, List, [], ◌∷◌, All, get_elem?, Bool-cases, Option-cases, str_eq, eq_iff,
}
use wake_sol.Prelude.Assoc.{by_name, insert, by_name-insert}
use wake_sol.Codec.Result.{Result, ok, err, out_of_fuel, value_error, first_returned}
use wake_sol.Coverage.Builds.{
  Build, Meta, Input, Checked, clashes, see, check_digest, check_program, check_meta, check_input,
  check_inputs, check_builds, Merged, merge_lcov,
}

abbrev digest_of : Option (String × String) → Option String
digest_of none = none
digest_of (some (digest, name)) = some digest

abbrev start : Checked
start = record { seen = []; unchecked = []; warnings = [] }

abbrev Seen : Type 0
Seen = List (String × (String × String))

-- The build was left out, having no digest, or is the one that was seen.
abbrev Agrees : Seen → String × Build → Type 0
Agrees seen (program, build) =
    (build.text_sha256 ≡ "") ⊎ (digest_of (by_name program seen) ≡ some build.text_sha256)

-- Whatever was seen stays.
abbrev Extends : Seen → Seen → Type 0
Extends old new =
    (program digest : String)
    → digest_of (by_name program old) ≡ some digest
    → digest_of (by_name program new) ≡ some digest

Agrees-later : (old new : Seen) (e : String × Build) → Extends old new → Agrees old e → Agrees new e
Agrees-later old new (program, build) ext (inl empty) = inl empty
Agrees-later old new (program, build) ext (inr same) = inr (ext program build.text_sha256 same)

All-later :
    (old new : Seen) (info : Meta) → Extends old new → All (Agrees old) info → All (Agrees new) info
All-later old new [] ext h = tt
All-later old new (e ∷ info) ext (h, hs) =
    (Agrees-later old new e ext h, All-later old new info ext hs)

-- What a step that returned has established.
record Sees (old : Checked) (info : Meta) (new : Checked) : Type 0 where
  extends : Extends old.seen new.seen
  agrees : All (Agrees new.seen) info

insert-Extends :
    (program digest name : String) (seen : Seen)
    → by_name program seen ≡ none
    → Extends seen (insert program (digest, name) seen)
insert-Extends program digest name seen fresh p d h = elim (Bool-cases (str_eq program p)) [
  | inl same ↦
      let q : program ≡ p = (eq_iff program p).0 same in
      let bad : none ≡ some d = sym (ap digest_of (rw q at fresh)) ∙ h in absurd (no_some bad)
  | inr other ↦ rw (by_name-insert program p (digest, name) seen) (rw other h)
]
  where
    no_some : {d : String} → ◌≡◌ {A = Option String} none (some d) → ⊥
    no_some h = cc

insert-digest :
    (program digest name : String) (seen : Seen)
    → digest_of (by_name program (insert program (digest, name) seen)) ≡ some digest
insert-digest program digest name seen =
    let q : str_eq program program ≡ true = (eq_iff program program).1 refl in
    rw (by_name-insert program program (digest, name) seen) (rw q refl)

-- What a step with a digest has established.
record SeesDigest (old : Checked) (program digest : String) (new : Checked) : Type 0 where
  extends : Extends old.seen new.seen
  noted : digest_of (by_name program new.seen) ≡ some digest

abbrev seen_of : Result Checked → Seen
seen_of (ok s) = s.seen
seen_of (err e) = []
seen_of out_of_fuel = []

check_digest_new :
    (name program digest : String) (st st' : Checked)
    → by_name program st.seen ≡ none
    → check_digest false name program digest st ≡ ok st'
    → SeesDigest st program digest st'
unfolding check_digest clashes see
check_digest_new name program digest st st' fresh h =
    let e : ok (record st { seen = insert program (digest, name) st.seen }) ≡ ok st' =
      rw fresh at h in
    let q : insert program (digest, name) st.seen ≡ st'.seen = ap seen_of e in
    record {
      extends = rw (← q) (insert-Extends program digest name st.seen fresh);
      noted = rw (← q) (insert-digest program digest name st.seen);
    }

check_digest_known :
    (name program digest first from : String) (st st' : Checked)
    → by_name program st.seen ≡ some (first, from)
    → check_digest false name program digest st ≡ ok st'
    → SeesDigest st program digest st'
unfolding check_digest clashes see
check_digest_known name program digest first from st st' known h =
    elim (Bool-cases (str_eq first digest)) [
      | inl same ↦
          let q : first ≡ digest = (eq_iff first digest).0 same in
          let e : ok st ≡ ok st' = rw (same) at (rw known at h) in
          let s : st ≡ st' = cc in
          rw (← s) (record { extends = λ p d k. k; noted = rw known (ap some q) })
      | inr differs ↦
          let e : err value_error ≡ ok st' = rw (differs) at (rw known at h) in absurd (not_ok e)
    ]
  where
    not_ok : {s : Checked} → ◌≡◌ {A = Result Checked} (err value_error) (ok s) → ⊥
    not_ok h = cc

check_program-Sees :
    (name program : String) (build : Build) (st st' : Checked)
    → check_program false name program build st ≡ ok st'
    → Sees st ((program, build) ∷ []) st'
unfolding check_program
check_program-Sees name program build st st' h = elim (Bool-cases (str_eq build.text_sha256 "")) [
  | inl empty ↦
      let e : ok st ≡ ok st' = rw empty at h in
      let s : st ≡ st' = cc in
      rw (← s) (record {
        extends = λ p d k. k;
        agrees = (inl ((eq_iff build.text_sha256 "").0 empty), tt);
      })
  | inr present ↦ with_digest (Option-cases (by_name program st.seen)) (rw present at h)
]
  where
    of_digest : SeesDigest st program build.text_sha256 st' → Sees st ((program, build) ∷ []) st'
    of_digest d = record { extends = d.extends; agrees = (inr d.noted, tt) }

    with_digest :
        (by_name program st.seen ≡ none)
          ⊎ ((o : String × String) × (by_name program st.seen ≡ some o))
        → check_digest false name program build.text_sha256 st ≡ ok st'
        → Sees st ((program, build) ∷ []) st'
    with_digest (inl fresh) h =
        of_digest (check_digest_new name program build.text_sha256 st st' fresh h)
    with_digest (inr ((first, from), known)) h =
        of_digest (check_digest_known name program build.text_sha256 first from st st' known h)

check_meta-Sees :
    (name : String) (info : Meta) (st st' : Checked)
    → check_meta false name info st ≡ ok st'
    → Sees st info st'
unfolding check_meta
check_meta-Sees name [] st st' h =
    let s : st ≡ st' = cc in rw (← s) (record { extends = λ p d k. k; agrees = tt })
check_meta-Sees name ((program, build) ∷ info) st st' h =
    let (st1, rest, one) =
      first_returned (λ (s : Checked). check_meta false name info s)
        (check_program false name program build st) st' h in
    let a = check_program-Sees name program build st st1 one in
    let b = check_meta-Sees name info st1 st' rest in
    record {
      extends = λ p d k. b.extends p d (a.extends p d k);
      agrees = (Agrees-later st1.seen st'.seen (program, build) b.extends a.agrees.0, b.agrees);
    }

check_input-Sees :
    (name : String) (info : Meta) (st st' : Checked)
    → check_input false name info st ≡ ok st'
    → Sees st info st'
unfolding check_input
check_input-Sees name [] st st' h =
    let q : st.seen ≡ st'.seen = ap seen_of h in
    record { extends = λ p d k. rw (← q) k; agrees = tt }
check_input-Sees name (e ∷ info) st st' h = check_meta-Sees name (e ∷ info) st st' h

-- What the loop over the inputs has established.
record SeesAll (old : Checked) (inputs : List Input) (new : Checked) : Type 0 where
  extends : Extends old.seen new.seen
  agrees : All (λ (i : Input). All (Agrees new.seen) i.info) inputs

check_inputs-SeesAll :
    (inputs : List Input) (st st' : Checked)
    → check_inputs false inputs st ≡ ok st'
    → SeesAll st inputs st'
unfolding check_inputs
check_inputs-SeesAll [] st st' h =
    let s : st ≡ st' = cc in rw (← s) (record { extends = λ p d k. k; agrees = tt })
check_inputs-SeesAll (i ∷ inputs) st st' h =
    let (st1, rest, one) =
      first_returned (λ (s : Checked). check_inputs false inputs s)
        (check_input false i.name i.info st) st' h in
    let a = check_input-Sees i.name i.info st st1 one in
    let b = check_inputs-SeesAll inputs st1 st' rest in
    record {
      extends = λ p d k. b.extends p d (a.extends p d k);
      agrees = (All-later st1.seen st'.seen i.info b.extends a.agrees, b.agrees);
    }

at_index :
    {A : Type 0} (P : A → Type 0) (xs : List A) (i : ℕ) (x : A)
    → All P xs
    → get_elem? xs i ≡ some x
    → P x
at_index P [] i x h e = cc
at_index P (y ∷ xs) zero x (h, hs) e = let q : y ≡ x = cc in rw (← q) h
at_index P (y ∷ xs) (suc i) x (h, hs) e = at_index P xs i x hs e

agreed :
    (seen : Seen) (program : String) (a b : Build)
    → a.text_sha256 ≢ ""
    → b.text_sha256 ≢ ""
    → Agrees seen (program, a)
    → Agrees seen (program, b)
    → a.text_sha256 ≡ b.text_sha256
agreed seen program a b na nb (inl e) k = absurd (na e)
agreed seen program a b na nb (inr x) (inl e) = absurd (nb e)
agreed seen program a b na nb (inr x) (inr y) = cc

-- If `merge_lcov` returns without `force`, then any two sidecars that give a digest of one program
-- give the same digest.
pub merge_lcov-same_build :
    (inputs : List Input) (merged : Merged) (i j k l : ℕ) (a b : Input) (program : String)
    (x y : Build)
    → merge_lcov false inputs ≡ ok merged
    → get_elem? inputs i ≡ some a
    → get_elem? inputs j ≡ some b
    → get_elem? a.info k ≡ some (program, x)
    → get_elem? b.info l ≡ some (program, y)
    → x.text_sha256 ≢ ""
    → y.text_sha256 ≢ ""
    → x.text_sha256 ≡ y.text_sha256
unfolding merge_lcov check_builds
merge_lcov-same_build inputs merged i j k l a b program x y h ia jb kx ly nx ny =
    let (_, _, checked) = first_returned _ (check_builds false inputs) merged h in
    let (st, _, ran) = first_returned _ (check_inputs false inputs start) _ checked in
    let all = (check_inputs-SeesAll inputs start st ran).agrees in
    agreed st.seen program x y nx ny
      (at_index (Agrees st.seen) a.info k (program, x) (at_index _ inputs i a all ia) kx)
      (at_index (Agrees st.seen) b.info l (program, y) (at_index _ inputs j b all jb) ly)

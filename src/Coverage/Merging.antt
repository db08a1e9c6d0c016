-- ===== src/Coverage/Merging.antt =====
-- What `merge_lcov` of coverage.py writes.
use wake_sol.Prelude.{◌≡◌, refl, sym, ap, ◌∙◌, Bool, List, [], ◌∷◌}
use wake_sol.Prelude.Int.{ℤ, pos}
use wake_sol.Codec.Result.{Result, ok, err, out_of_fuel, first_returned}
use wake_sol.Coverage.Text.{Text}
use wake_sol.Coverage.Dict.{get}
use wake_sol.Coverage.Lcov.{Files, ◌+ℤ◌, hits_at, parse_lcov, format_lcov, merge_files}
use wake_sol.Coverage.LinesBack.{zero-add_int}
use wake_sol.Coverage.RoundTrip.{WellFormed, parse_lcov-format_lcov}
use wake_sol.Coverage.Sums.{+ℤ_assoc, add_int-zero, hits_at-merge_files}
use wake_sol.Coverage.Parsed.{merge_files-WellFormed, parse_lcov-WellFormed}
use wake_sol.Coverage.Builds.{Input, Merged, check_builds, merge_inputs, merge_lcov}

-- The hits of a line, summed over the inputs.
unfoldable pub total_hits : Text → ℤ → List Input → ℤ
total_hits path n [] = pos 0
total_hits path n (i ∷ inputs) = hits_at path n (parse_lcov i.text) +ℤ total_hits path n inputs

hits_at-merge_inputs :
    (path : Text) (n : ℤ) (merged : Files) (inputs : List Input)
    → hits_at path n (merge_inputs merged inputs)
      ≡ hits_at path n merged +ℤ total_hits path n inputs
unfolding merge_inputs total_hits
hits_at-merge_inputs path n merged [] = sym (add_int-zero (hits_at path n merged))
hits_at-merge_inputs path n merged (i ∷ inputs) =
    let w = parse_lcov-WellFormed i.text in
    hits_at-merge_inputs path n (merge_files merged (parse_lcov i.text)) inputs
    ∙ ap (λ z. z +ℤ total_hits path n inputs)
        (hits_at-merge_files path n merged (parse_lcov i.text) w.distinct w.files_ok)
    ∙ +ℤ_assoc (hits_at path n merged) (hits_at path n (parse_lcov i.text))
        (total_hits path n inputs)

merge_inputs-WellFormed :
    (merged : Files) (inputs : List Input)
    → WellFormed merged
    → WellFormed (merge_inputs merged inputs)
unfolding merge_inputs
merge_inputs-WellFormed merged [] h = h
merge_inputs-WellFormed merged (i ∷ inputs) h =
    merge_inputs-WellFormed (merge_files merged (parse_lcov i.text)) inputs
      (merge_files-WellFormed merged (parse_lcov i.text) h (parse_lcov-WellFormed i.text).files_ok)

hits_at_none : (path : Text) (n : ℤ) → hits_at path n [] ≡ pos 0
unfolding get
hits_at_none path n = refl

abbrev text_of : Result Merged → Text
text_of (ok merged) = merged.text
text_of (err e) = []
text_of out_of_fuel = []

-- If `merge_lcov` returns, the text that it writes has, when it is parsed, at every path and line the
-- sum of the hits that the inputs' texts have there, whatever the texts are.
pub parse_lcov-merge_lcov :
    (force : Bool) (inputs : List Input) (merged : Merged) (path : Text) (n : ℤ)
    → merge_lcov force inputs ≡ ok merged
    → hits_at path n (parse_lcov merged.text) ≡ total_hits path n inputs
unfolding merge_lcov
parse_lcov-merge_lcov force inputs merged path n h =
    let (_, e, _) = first_returned _ (check_builds force inputs) merged h in
    let text : merged.text ≡ format_lcov (merge_inputs [] inputs) = sym (ap text_of e) in
    ap (λ t. hits_at path n (parse_lcov t)) text
    ∙ parse_lcov-format_lcov (merge_inputs [] inputs) path n
        (merge_inputs-WellFormed [] inputs (record { distinct = tt; files_ok = tt }))
    ∙ hits_at-merge_inputs path n [] inputs
    ∙ ap (λ z. z +ℤ total_hits path n inputs) (hits_at_none path n)
    ∙ zero-add_int (total_hits path n inputs)

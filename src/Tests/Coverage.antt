-- ===== src/Tests/Coverage.antt =====
-- The theorems on coverage.py at small reports.
use wake_sol.Prelude.{
  ◌≡◌, ◌≢◌, refl, Bool, true, false, String, none, List, [], ◌∷◌, length, str_eq, eq_iff,
}
use wake_sol.Prelude.Int.{pos}
use wake_sol.Builder.Names.{codes}
use wake_sol.Codec.Result.{ok}
use wake_sol.Coverage.Dict.{get}
use wake_sol.Coverage.Text.{Text, between, is_space, is_break, rstrip, push_unless_blank, same_text}
use wake_sol.Coverage.Lcov.{same_int, Files, hits_at, parse_lcov, format_lcov}
use wake_sol.Coverage.RoundTrip.{WellFormed, parse_lcov-format_lcov}
use wake_sol.Coverage.Builds.{
  Build, Input, Merged, clashes, see, check_digest, check_program, check_meta, check_input,
  check_inputs, verify_warning, check_builds, merge_inputs, combine_metas, merge_lcov,
}
use wake_sol.Prelude.Assoc.{by_name, insert}
use wake_sol.Coverage.Merging.{total_hits, parse_lcov-merge_lcov}
use wake_sol.Coverage.SameBuild.{merge_lcov-same_build}
use wake_sol.Coverage.Reports.{Program, Report}

abbrev lib : Text
lib = codes "src/lib.rs"

abbrev report_files : Files
report_files =
    (lib, (pos 12, pos 0) ∷ (pos 3, pos 5) ∷ []) ∷ (codes "a.rs", (pos 1, pos 1) ∷ []) ∷ []

abbrev report_text : Text
report_text = format_lcov report_files

report_ok : WellFormed report_files
unfolding get same_text same_int is_break between rstrip push_unless_blank is_space
report_ok = record {
  distinct = (refl, (refl, tt));
  files_ok = (
    (
      record {
        one_line =
            (refl, (refl, (refl, (refl, (refl, (refl, (refl, (refl, (refl, (refl, tt))))))))));
        no_blank_end = refl;
      },
      (refl, (refl, tt)),
    ),
    (
      (record { one_line = (refl, (refl, (refl, (refl, tt)))); no_blank_end = refl }, (refl, tt)),
      tt,
    ),
  );
}

parse_lcov-format_lcov_example :
    hits_at lib (pos 3) (parse_lcov (format_lcov report_files)) ≡ hits_at lib (pos 3) report_files
parse_lcov-format_lcov_example = parse_lcov-format_lcov report_files lib (pos 3) report_ok

abbrev vault_build : Build
vault_build = record { text_sha256 = "ab12"; instructions_total = 40 }

abbrev first_input : Input
first_input = record { name = "a.lcov"; text = report_text; info = ("vault", vault_build) ∷ [] }

-- A text of another tool, with a record that is not closed.
abbrev second_input : Input
second_input = record {
  name = "b.lcov";
  text = codes "SF:src/lib.rs\nDA: 3 ,2,checksum\nDA:x,1\nBRDA:1,0,0,1\n";
  info = ("vault", vault_build) ∷ [];
}

abbrev inputs : List Input
inputs = first_input ∷ second_input ∷ []

abbrev merged : Merged
merged = record {
  text = format_lcov (merge_inputs [] inputs);
  info = combine_metas [] inputs;
  count = length (merge_inputs [] inputs);
  warnings = [];
}

merge_lcov-inputs : merge_lcov false inputs ≡ ok merged
unfolding merge_lcov check_builds check_inputs check_input check_meta check_program check_digest see
    clashes verify_warning by_name insert
merge_lcov-inputs = refl

parse_lcov-merge_lcov_example :
    hits_at lib (pos 3) (parse_lcov merged.text) ≡ total_hits lib (pos 3) inputs
parse_lcov-merge_lcov_example =
    parse_lcov-merge_lcov false inputs merged lib (pos 3) merge_lcov-inputs

has_digest : vault_build.text_sha256 ≢ ""
has_digest h = let e : ◌≡◌ {A = Bool} false true = (eq_iff "ab12" "").1 h in cc

merge_lcov-same_build_example : vault_build.text_sha256 ≡ vault_build.text_sha256
merge_lcov-same_build_example =
    merge_lcov-same_build inputs merged 0 1 0 0 first_input second_input "vault" vault_build
      vault_build merge_lcov-inputs refl refl refl refl has_digest has_digest

abbrev ran : Program
ran = record {
  instructions_covered = 10;
  instructions_total = 40;
  lines_resolved = 3;
  has_debug_info = true;
  text_mismatch = false;
}

abbrev report : Report
report = record { files = report_files; programs = ("vault", ran) ∷ [] }

abbrev empty_report : Report
empty_report = record { files = []; programs = [] }

no_vault : get {K = String} {V = Program} str_eq "vault" [] ≡ none
unfolding get
no_vault = refl

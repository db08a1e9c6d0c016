-- ===== src/Coverage/Reports.antt =====
-- `merge_reports` of coverage.py.
use wake_sol.Prelude.{
  ℕ, Bool, ◌||◌, String, Option, none, some, List, [], ◌∷◌, leb, if◌then◌else◌, str_eq,
}
use wake_sol.Builder.Names.{codes}
use wake_sol.Coverage.Dict.{get, put, sort_items}
use wake_sol.Coverage.Text.{less_text}
use wake_sol.Coverage.Lcov.{Files, merge_files}

-- An entry of `programs` behind its `program_id`.
pub record Program : Type 0 where
  pub instructions_covered : ℕ
  pub instructions_total : ℕ
  pub lines_resolved : ℕ
  pub has_debug_info : Bool
  pub text_mismatch : Bool

abbrev pub Programs : Type 0
Programs = List (String × Program)

pub record Report : Type 0 where
  pub files : Files
  pub programs : Programs

unfoldable pub max : ℕ → ℕ → ℕ
max a b = if leb a b then b else a

-- `known` is changed in place.
unfoldable pub merge_known : Option Program → Program → Program
merge_known none p = p
merge_known (some known) p = record known {
  instructions_covered = max known.instructions_covered p.instructions_covered;
  lines_resolved = max known.lines_resolved p.lines_resolved;
  has_debug_info = known.has_debug_info || p.has_debug_info;
  text_mismatch = known.text_mismatch || p.text_mismatch;
}

unfoldable pub merge_programs : Programs → Programs → Programs
merge_programs programs [] = programs
merge_programs programs ((id, p) ∷ src) =
    merge_programs (put str_eq id (merge_known (get str_eq id programs) p) programs) src

-- `{p["program_id"]: p for p in ...}`
unfoldable pub by_id : Programs → Programs → Programs
by_id programs [] = programs
by_id programs ((id, p) ∷ entries) = by_id (put str_eq id p programs) entries

unfoldable pub less_id : String → String → Bool
less_id a b = less_text (codes a) (codes b)

unfoldable pub merge_reports : Report → Report → Report
merge_reports dst src = record {
  files = merge_files dst.files src.files;
  programs = sort_items less_id (merge_programs (by_id [] dst.programs) src.programs);
}

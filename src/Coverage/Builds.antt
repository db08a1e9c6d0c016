-- ===== src/Coverage/Builds.antt =====
-- `_check_builds` and `merge_lcov` of coverage.py, and the programs of `merge_reports`.
use wake_sol.Prelude.{
  ℕ, Bool, true, false, String, Option, none, some, List, [], ◌∷◌, ◌++◌, length, if◌then◌else◌,
  str_eq,
}
use wake_sol.Prelude.Assoc.{by_name, insert}
use wake_sol.Codec.Result.{Result, ok, err, value_error, ◌>>=◌}
use wake_sol.Coverage.Text.{Text}
use wake_sol.Coverage.Lcov.{Files, merge_files, parse_lcov, format_lcov}

-- What the sidecar says of a program.
pub record Build : Type 0 where
  pub text_sha256 : String
  pub instructions_total : ℕ

-- The sidecar's programs, in order; none if there is no sidecar.
abbrev pub Meta : Type 0
Meta = List (String × Build)

-- An LCOV file with its sidecar.
pub record Input : Type 0 where
  pub name : String
  pub text : Text
  pub info : Meta

-- What is printed to stderr.
pub data BuildWarning : Type 0 where
  different_builds : String → String → String → BuildWarning
  cannot_verify : List String → BuildWarning

pub record Checked : Type 0 where
  pub seen : List (String × (String × String))
  pub unchecked : List String
  pub warnings : List BuildWarning

-- Whether the build differs from the one that was seen first.
unfoldable pub clashes : String → Option (String × String) → Bool
clashes digest none = false
clashes digest (some (first, name)) = if str_eq first digest then false else true

unfoldable pub first_name : Option (String × String) → String
first_name none = ""
first_name (some (digest, name)) = name

-- `seen.setdefault(program_id, (digest, path.name))`
unfoldable pub see : String → String → String → Option (String × String) → Checked → Checked
see program digest name (some old) st = st
see program digest name none st = record st { seen = insert program (digest, name) st.seen }

unfoldable pub check_digest : Bool → String → String → String → Checked → Result Checked
check_digest force name program digest st =
    let old = by_name program st.seen in
    let noted = see program digest name old st in
    let warned = record noted {
      warnings = st.warnings ++ different_builds name (first_name old) program ∷ [];
    } in
    if clashes digest old then (if force then ok warned else err value_error) else ok noted

unfoldable pub check_program : Bool → String → String → Build → Checked → Result Checked
check_program force name program build st =
    if str_eq build.text_sha256 ""
    then ok st
    else check_digest force name program build.text_sha256 st

unfoldable pub check_meta : Bool → String → Meta → Checked → Result Checked
check_meta force name [] st = ok st
check_meta force name ((program, build) ∷ info) st = do
  st' ← check_program force name program build st
  check_meta force name info st'

unfoldable pub check_input : Bool → String → Meta → Checked → Result Checked
check_input force name [] st = ok (record st { unchecked = st.unchecked ++ name ∷ [] })
check_input force name (p ∷ info) st = check_meta force name (p ∷ info) st

unfoldable pub check_inputs : Bool → List Input → Checked → Result Checked
check_inputs force [] st = ok st
check_inputs force (i ∷ inputs) st = do
  st' ← check_input force i.name i.info st
  check_inputs force inputs st'

unfoldable pub verify_warning : List String → List BuildWarning
verify_warning [] = []
verify_warning (n ∷ names) = cannot_verify (n ∷ names) ∷ []

-- `_check_builds`, with what it prints.
unfoldable pub check_builds : Bool → List Input → Result (List BuildWarning)
check_builds force inputs = do
  st ← check_inputs force inputs (record { seen = []; unchecked = []; warnings = [] })
  ok (st.warnings ++ verify_warning st.unchecked)

-- The loop of `merge_lcov` over its inputs.
unfoldable pub merge_inputs : Files → List Input → Files
merge_inputs merged [] = merged
merge_inputs merged (i ∷ inputs) = merge_inputs (merge_files merged (parse_lcov i.text)) inputs

-- `combined.update(meta)`
unfoldable pub update_meta : Meta → Meta → Meta
update_meta combined [] = combined
update_meta combined ((program, build) ∷ info) = update_meta (insert program build combined) info

unfoldable pub combine_metas : Meta → List Input → Meta
combine_metas combined [] = combined
combine_metas combined (i ∷ inputs) = combine_metas (update_meta combined i.info) inputs

-- What `merge_lcov` writes and returns.
pub record Merged : Type 0 where
  pub text : Text
  pub info : Meta
  pub count : ℕ
  pub warnings : List BuildWarning

unfoldable pub merge_lcov : Bool → List Input → Result Merged
merge_lcov force inputs = do
  warnings ← check_builds force inputs
  ok (record {
    text = format_lcov (merge_inputs [] inputs);
    info = combine_metas [] inputs;
    count = length (merge_inputs [] inputs);
    warnings = warnings;
  })

-- ===== src/Coverage/ReportView.antt =====
-- What a merged report of coverage.py says, whatever the order of its parts.
use wake_sol.Prelude.{
  ◌≡◌, refl, ap, fun_ext, ◌∙◌, String, Option, none, some, [], ◌∷◌, Bool-cases, inl, inr, str_eq,
  eq_iff,
}
use wake_sol.Prelude.Int.{ℤ}
use wake_sol.Coverage.Dict.{
  get, put, Distinct, get-put, put-Distinct, get-sort_items, sort_items-Distinct,
}
use wake_sol.Coverage.Text.{Text}
use wake_sol.Coverage.Lcov.{◌+ℤ◌, hits_at}
use wake_sol.Coverage.RoundTrip.{WellFormed}
use wake_sol.Coverage.Sums.{hits_at-merge_files}
use wake_sol.Coverage.Parsed.{merge_files-WellFormed}
use wake_sol.Coverage.Reports.{
  Program, Programs, Report, merge_known, merge_programs, by_id, less_id, merge_reports,
}

-- A report as it is meant: hits by path and line, and what is known of a program.
pub record View : Type 0 where
  pub line_hits : Text → ℤ → ℤ
  pub program : String → Option Program

unfoldable pub view : Report → View
view r = record {
  line_hits = λ path n. hits_at path n r.files;
  program = λ id. get str_eq id r.programs;
}

unfoldable pub both_known : Option Program → Option Program → Option Program
both_known known none = known
both_known known (some p) = some (merge_known known p)

-- Merging of views: hits are added, and what is known of a program is combined.
unfoldable pub merge_views : View → View → View
merge_views a b = record {
  line_hits = λ path n. a.line_hits path n +ℤ b.line_hits path n;
  program = λ id. both_known (a.program id) (b.program id);
}

-- The keys of a report's dicts are distinct, the paths can stand on a line.
pub record ReportOk (r : Report) : Type 0 where
  pub files_ok : WellFormed r.files
  pub programs_ok : Distinct str_eq r.programs

get-merge_programs :
    (k : String) (programs src : Programs)
    → Distinct str_eq src
    → get str_eq k (merge_programs programs src)
      ≡ both_known (get str_eq k programs) (get str_eq k src)
unfolding merge_programs both_known get
get-merge_programs k programs [] d = refl
get-merge_programs k programs ((id, p) ∷ src) (out, d) =
    let merged = merge_known (get str_eq id programs) p in
    let stored = get-put str_eq eq_iff id k merged programs in
    let rest = get-merge_programs k (put str_eq id merged programs) src d in
    elim (Bool-cases (str_eq id k)) [
      | inl same ↦
          let q : id ≡ k = (eq_iff id k).0 same in
          let absent : get str_eq k src ≡ none = rw q at out in
          rest
          ∙ ap (both_known (get str_eq k (put str_eq id merged programs))) absent
          ∙ stored
          ∙ rw same (ap (λ j. some (merge_known (get str_eq j programs) p)) q)
      | inr other ↦
          let kept : get str_eq k (put str_eq id merged programs) ≡ get str_eq k programs =
            stored ∙ rw other refl in
          rest ∙ ap (λ o. both_known o (get str_eq k src)) kept ∙ rw other refl
    ]

merge_programs-Distinct :
    (programs src : Programs)
    → Distinct str_eq programs
    → Distinct str_eq (merge_programs programs src)
unfolding merge_programs
merge_programs-Distinct programs [] h = h
merge_programs-Distinct programs ((id, p) ∷ src) h =
    merge_programs-Distinct (put str_eq id (merge_known (get str_eq id programs) p) programs) src
      (put-Distinct str_eq eq_iff id (merge_known (get str_eq id programs) p) programs h)

by_id-Distinct :
    (programs entries : Programs)
    → Distinct str_eq programs
    → Distinct str_eq (by_id programs entries)
unfolding by_id
by_id-Distinct programs [] h = h
by_id-Distinct programs ((id, p) ∷ entries) h =
    by_id-Distinct (put str_eq id p programs) entries (put-Distinct str_eq eq_iff id p programs h)

latest : Option Program → Option Program → Option Program
latest old none = old
latest old (some p) = some p

get-by_id :
    (k : String) (programs entries : Programs)
    → Distinct str_eq entries
    → get str_eq k (by_id programs entries) ≡ latest (get str_eq k programs) (get str_eq k entries)
unfolding by_id latest get
get-by_id k programs [] d = refl
get-by_id k programs ((id, p) ∷ entries) (out, d) =
    let stored = get-put str_eq eq_iff id k p programs in
    let rest = get-by_id k (put str_eq id p programs) entries d in
    elim (Bool-cases (str_eq id k)) [
      | inl same ↦
          let q : id ≡ k = (eq_iff id k).0 same in
          let absent : get str_eq k entries ≡ none = rw q at out in
          rest
          ∙ ap (latest (get str_eq k (put str_eq id p programs))) absent
          ∙ stored
          ∙ rw same refl
      | inr other ↦
          let kept : get str_eq k (put str_eq id p programs) ≡ get str_eq k programs =
            stored ∙ rw other refl in
          rest ∙ ap (λ o. latest o (get str_eq k entries)) kept ∙ rw other refl
    ]

latest-none : (o : Option Program) → latest none o ≡ o
unfolding latest
latest-none none = refl
latest-none (some p) = refl

get-by_id_all :
    (k : String) (entries : Programs)
    → Distinct str_eq entries
    → get str_eq k (by_id [] entries) ≡ get str_eq k entries
unfolding get
get-by_id_all k entries d = get-by_id k [] entries d ∙ latest-none (get str_eq k entries)

-- Merging keeps the keys of a report's dicts distinct.
pub merge_reports-ReportOk :
    (dst src : Report) → ReportOk dst → ReportOk src → ReportOk (merge_reports dst src)
unfolding merge_reports
merge_reports-ReportOk dst src a b = record {
  files_ok = merge_files-WellFormed dst.files src.files a.files_ok b.files_ok.files_ok;
  programs_ok = sort_items-Distinct str_eq eq_iff less_id _ (
      merge_programs-Distinct (by_id [] dst.programs) src.programs
        (by_id-Distinct [] dst.programs tt));
}

-- merge_reports implements the merging of views: the hits of every line of every file are added, and
-- for every program the larger counts are kept and the flags are joined.
pub view-merge_reports :
    (dst src : Report)
    → ReportOk dst
    → ReportOk src
    → view (merge_reports dst src) ≡ merge_views (view dst) (view src)
unfolding view merge_views merge_reports
view-merge_reports dst src a b =
    pack
      (fun_ext (λ path. fun_ext (λ n.
        hits_at-merge_files path n dst.files src.files b.files_ok.distinct b.files_ok.files_ok)))
      (fun_ext (λ id.
        get-sort_items str_eq eq_iff less_id id
          (merge_programs (by_id [] dst.programs) src.programs)
          (merge_programs-Distinct (by_id [] dst.programs) src.programs
            (by_id-Distinct [] dst.programs tt))
        ∙ get-merge_programs id (by_id [] dst.programs) src.programs b.programs_ok
        ∙ ap (λ o. both_known o (get str_eq id src.programs))
            (get-by_id_all id dst.programs a.programs_ok)))
  where
    pack :
        {h h' : Text → ℤ → ℤ} {p p' : String → Option Program}
        → h ≡ h'
        → p ≡ p'
        → ◌≡◌ {A = View}
            (record { line_hits = h; program = p })
            (record { line_hits = h'; program = p' })
    pack e f = λ i. record { line_hits = e i; program = f i }

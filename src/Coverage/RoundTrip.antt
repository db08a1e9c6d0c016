-- ===== src/Coverage/RoundTrip.antt =====
-- `parse_lcov` reads what `format_lcov` writes (coverage.py).
use wake_sol.Prelude.{
  ◌≡◌, refl, ap, ◌∙◌, false, none, some, List, [], ◌∷◌, ◌++◌, append_assoc, append-nil, All, length,
  Bool-cases, inl, inr, arith,
}
use wake_sol.Prelude.Int.{ℤ}
use wake_sol.Coverage.Dict.{
  get, Distinct, insert_item, sort_items, get-sort_items, sort_items-Distinct, put_fresh, get-put,
}
use wake_sol.Coverage.Text.{
  Text, same_text, less_text, between, is_space, is_break, split_from, line_if_any, splitlines,
  decimal, int_text,
}
use wake_sol.Coverage.TextBack.{
  NoBreak, All-append_of, All-NoBreak, split_line, int_text-Solid, decimal-Solid,
}
use wake_sol.Coverage.LinesBack.{
  same_int_iff, same_text_iff, Writable, parse_record, parse_lines-append,
}
use wake_sol.Coverage.Lcov.{
  same_int, less_int, Lines, Files, int_or_zero, lines_or_none, hits, hits_at, Parse, parse_lines,
  parse_lcov, da_lines, hit_lines, record_lines, all_lines, join_lines, with_newline, format_lcov,
}

-- The files are dicts, and each path can stand on a line.
abbrev pub FileOk : Text × Lines → Type 0
FileOk e = Writable e.0 × Distinct same_int e.1

pub record WellFormed (files : Files) : Type 0 where
  pub distinct : Distinct same_text files
  pub files_ok : All FileOk files

insert_item-All :
    (P : Text × Lines → Type 0) (k : Text) (v : Lines) (m : Files)
    → P (k, v)
    → All P m
    → All P (insert_item less_text k v m)
unfolding insert_item
insert_item-All P k v [] h hs = (h, tt)
insert_item-All P k v ((i, w) ∷ m) h (x, hs) = elim (Bool-cases (less_text i k)) [
  | inl smaller ↦ rw smaller (x, insert_item-All P k v m h hs)
  | inr other ↦ rw other (h, (x, hs))
]

sort_items-All : (P : Text × Lines → Type 0) (m : Files) → All P m → All P (sort_items less_text m)
unfolding sort_items
sort_items-All P [] h = tt
sort_items-All P ((k, v) ∷ m) (h, hs) =
    insert_item-All P k v (sort_items less_text m) h (sort_items-All P m hs)

pub sort_items-WellFormed :
    (files : Files) → WellFormed files → WellFormed (sort_items less_text files)
sort_items-WellFormed files w = record {
  distinct = sort_items-Distinct same_text same_text_iff less_text files w.distinct;
  files_ok = sort_items-All FileOk files w.files_ok;
}

-- Every file with its lines in order.
unfoldable pub sort_each : Files → Files
sort_each [] = []
sort_each ((path, lines) ∷ files) = (path, sort_items less_int lines) ∷ sort_each files

-- No file of `todo` is in `m`.
abbrev Absent : Files → Files → Type 0
Absent m todo = All (λ (e : Text × Lines). get same_text e.0 m ≡ none) todo

Absent-none : (todo : Files) → Absent [] todo
unfolding get
Absent-none [] = tt
Absent-none (e ∷ todo) = (refl, Absent-none todo)

Absent-next :
    (path : Text) (l : Lines) (m todo : Files)
    → get same_text path m ≡ none
    → get same_text path todo ≡ none
    → Absent m todo
    → Absent (m ++ (path, l) ∷ []) todo
unfolding get
Absent-next path l m [] fresh out h = tt
Absent-next path l m ((q, d) ∷ todo) fresh out (h, hs) =
    let other : same_text q path ≡ false = elim (Bool-cases (same_text q path)) [
      | inl same ↦ (let bad : some d ≡ none = rw same at out in cc)
      | inr differs ↦ differs
    ] in
    let e = put_fresh same_text same_text_iff path l m fresh in
    let g = get-put same_text same_text_iff path q l m in
    (
      rw (← e) (ground (arith, g, same_text_iff path q, same_text_iff q path)),
      Absent-next path l m todo fresh (rw other at out) hs,
    )

parse_all_lines :
    (m files : Files)
    → Distinct same_text files
    → All FileOk files
    → Absent m files
    → parse_lines (all_lines files) (record { out = m; current = none })
      ≡ record { out = m ++ sort_each files; current = none }
unfolding all_lines sort_each parse_lines
parse_all_lines m [] d ok a = rw (append-nil m) refl
parse_all_lines m ((path, lines) ∷ files) (out, d) ((w, dl), ok) (fresh, a) =
    parse_lines-append (record_lines path lines) (all_lines files)
      (record { out = m; current = none })
    ∙ ap (parse_lines (all_lines files)) (parse_record path lines m w fresh dl)
    ∙ parse_all_lines (m ++ (path, sort_items less_int lines) ∷ []) files d ok
        (Absent-next path (sort_items less_int lines) m files fresh out a)
    ∙ ap (λ (x : Files). record { out = x; current = none })
        (append_assoc m ((path, sort_items less_int lines) ∷ []) (sort_each files))

-- Each line, and a line feed behind it.
ended : List Text → Text
ended [] = []
ended (l ∷ ls) = l ++ 10 ∷ ended ls

join_lines-ended : (l : Text) (ls : List Text) → join_lines (l ∷ ls) ++ 10 ∷ [] ≡ ended (l ∷ ls)
unfolding join_lines ended
join_lines-ended l [] = refl
join_lines-ended l (m ∷ ls) =
    append_assoc l (10 ∷ join_lines (m ∷ ls)) (10 ∷ [])
    ∙ ap (λ t. l ++ 10 ∷ t) (join_lines-ended m ls)

with_newline-ended : (ls : List Text) → with_newline ls ≡ ended ls
unfolding with_newline ended
with_newline-ended [] = refl
with_newline-ended (l ∷ ls) = join_lines-ended l ls

splitlines-ended : (ls : List Text) → All (All NoBreak) ls → split_from false [] (ended ls) ≡ ls
unfolding ended split_from line_if_any
splitlines-ended [] h = refl
splitlines-ended (l ∷ ls) (h, hs) =
    split_line [] l (ended ls) h ∙ ap (λ t. l ∷ t) (splitlines-ended ls hs)

da_lines-NoBreak : (lines : Lines) → All (All NoBreak) (da_lines lines)
unfolding da_lines is_break between is_space
da_lines-NoBreak [] = tt
da_lines-NoBreak ((n, c) ∷ lines) = (
  (
    refl,
    (
      refl,
      (
        refl,
        All-append_of NoBreak (int_text n) (44 ∷ int_text c)
            (All-NoBreak (int_text n) (int_text-Solid n))
            (refl, All-NoBreak (int_text c) (int_text-Solid c)),
      ),
    ),
  ),
  da_lines-NoBreak lines,
)

All-both_parts :
    (ls more : List Text)
    → All (All NoBreak) ls
    → All (All NoBreak) more
    → All (All NoBreak) (ls ++ more)
All-both_parts [] more h k = k
All-both_parts (l ∷ ls) more (h, hs) k = (h, All-both_parts ls more hs k)

record_lines-NoBreak :
    (path : Text) (lines : Lines) → Writable path → All (All NoBreak) (record_lines path lines)
unfolding record_lines is_break between
record_lines-NoBreak path lines w = (
  (refl, (refl, (refl, tt))),
  (
    (refl, (refl, (refl, w.one_line))),
    All-both_parts (da_lines (sort_items less_int lines)) _
        (da_lines-NoBreak (sort_items less_int lines))
        (
          (
            refl,
            (refl, (refl, All-NoBreak (decimal (length lines)) (decimal-Solid (length lines)))),
          ),
          (
            (
              refl,
              (
                refl,
                (refl, All-NoBreak (decimal (hit_lines lines)) (decimal-Solid (hit_lines lines))),
              ),
            ),
            (
              (
                refl,
                (
                  refl,
                  (
                    refl,
                    (
                      refl,
                      (refl, (refl, (refl, (refl, (refl, (refl, (refl, (refl, (refl, tt))))))))),
                    ),
                  ),
                ),
              ),
              tt,
            ),
          ),
        ),
  ),
)

all_lines-NoBreak : (files : Files) → All FileOk files → All (All NoBreak) (all_lines files)
unfolding all_lines
all_lines-NoBreak [] h = tt
all_lines-NoBreak ((path, lines) ∷ files) ((w, d), h) =
    All-both_parts (record_lines path lines) (all_lines files) (record_lines-NoBreak path lines w)
      (all_lines-NoBreak files h)

-- The files come back in order.
pub parse_lcov-format_lcov_sorted :
    (files : Files)
    → WellFormed files
    → parse_lcov (format_lcov files) ≡ sort_each (sort_items less_text files)
unfolding parse_lcov format_lcov splitlines
parse_lcov-format_lcov_sorted files w =
    let sorted = sort_items less_text files in
    let sw = sort_items-WellFormed files w in
    let back : split_from false [] (with_newline (all_lines sorted)) ≡ all_lines sorted =
      ap (split_from false []) (with_newline-ended (all_lines sorted))
      ∙ splitlines-ended (all_lines sorted) (all_lines-NoBreak sorted sw.files_ok) in
    ap (λ (ls : List Text). (parse_lines ls (record { out = []; current = none })).out) back
    ∙ ap (λ (p : Parse). p.out)
        (parse_all_lines [] sorted sw.distinct sw.files_ok (Absent-none sorted))

sort_each-get :
    (path : Text) (n : ℤ) (files : Files)
    → All FileOk files
    → hits n (lines_or_none (get same_text path (sort_each files)))
      ≡ hits n (lines_or_none (get same_text path files))
unfolding sort_each get
sort_each-get path n [] h = refl
sort_each-get path n ((q, lines) ∷ files) ((w, d), h) = elim (Bool-cases (same_text q path)) [
  | inl it ↦ rw it (ap int_or_zero (get-sort_items same_int same_int_iff less_int n lines d))
  | inr other ↦ rw other (sort_each-get path n files h)
]

-- The LCOV text of files whose keys are distinct and whose paths can stand on a line has, when it is
-- parsed, the hits of the files at every path and line.
pub parse_lcov-format_lcov :
    (files : Files) (path : Text) (n : ℤ)
    → WellFormed files
    → hits_at path n (parse_lcov (format_lcov files)) ≡ hits_at path n files
parse_lcov-format_lcov files path n w = rw (parse_lcov-format_lcov_sorted files w) (
    sort_each-get path n (sort_items less_text files) (sort_items-WellFormed files w).files_ok
    ∙ ap (λ o. hits n (lines_or_none o))
        (get-sort_items same_text same_text_iff less_text path files w.distinct))

-- ===== src/Coverage/LinesBack.antt =====
-- The lines that `format_lcov` of coverage.py writes, as `parse_lcov` reads them.
use wake_sol.Prelude.{
  ℕ, ◌≡◌, refl, ap, ◌∙◌, ◌↔◌, true, false, none, some, List, [], ◌∷◌, ◌++◌, append_assoc,
  append-nil, All, length, Bool-cases, inl, inr, arith,
}
use wake_sol.Prelude.Int.{ℤ, pos, negsuc}
use wake_sol.Builder.Names.{codes}
use wake_sol.Coverage.Dict.{
  get, put, Distinct, sort_items, get-put, put_fresh, put_last, get_last, sort_items-Distinct,
}
use wake_sol.Coverage.Text.{
  Text, between, is_space, rstrip, strip, starts_with, same_text, int_text, decimal,
}
use wake_sol.Coverage.TextBack.{
  Solid, NoBreak, All-append_of, strip_first, rstrip_first, strip-Solid, int_text-Solid,
  decimal-Solid, to_int-int_text, partition-int_text,
}
use wake_sol.Coverage.Lcov.{
  same_int, less_int, ◌+ℤ◌, Lines, Files, lines_of, add_hits, open_file, Parse, count_line,
  read_count, parse_da, parse_other, parse_line, parse_lines, da_lines, hit_lines, record_lines,
}

pub same_int_iff : (a b : ℤ) → (same_int a b ≡ true) ↔ (a ≡ b)
unfolding same_int
same_int_iff (pos a) (pos b) = ground arith
same_int_iff (pos a) (negsuc b) = ground arith
same_int_iff (negsuc a) (pos b) = ground arith
same_int_iff (negsuc a) (negsuc b) = ground arith

pub same_text_iff : (a b : Text) → (same_text a b ≡ true) ↔ (a ≡ b)
unfolding same_text
same_text_iff [] [] = ground arith
same_text_iff [] (d ∷ ds) = ground arith
same_text_iff (c ∷ cs) [] = ground arith
same_text_iff (c ∷ cs) (d ∷ ds) = ground (arith, same_text_iff cs ds)

pub zero-add_int : (c : ℤ) → pos 0 +ℤ c ≡ c
unfolding ◌+ℤ◌
zero-add_int (pos n) = ground arith
zero-add_int (negsuc n) = ground arith

-- A path that can stand on a line.
pub record Writable (path : Text) : Type 0 where
  pub one_line : All NoBreak path
  pub no_blank_end : rstrip path ≡ path

-- The keys of `todo` are not in `done`.
abbrev Apart : Lines → Lines → Type 0
Apart done todo = All (λ (e : ℤ × ℤ). get same_int e.0 done ≡ none) todo

Apart-next :
    (n c : ℤ) (done todo : Lines)
    → get same_int n done ≡ none
    → get same_int n todo ≡ none
    → Apart done todo
    → Apart (done ++ (n, c) ∷ []) todo
unfolding get
Apart-next n c done [] fresh out h = tt
Apart-next n c done ((m, d) ∷ todo) fresh out (h, hs) =
    let other : same_int m n ≡ false = elim (Bool-cases (same_int m n)) [
      | inl same ↦ (let bad : some d ≡ none = rw same at out in cc)
      | inr differs ↦ differs
    ] in
    let e = put_fresh same_int same_int_iff n c done fresh in
    let g = get-put same_int same_int_iff n m c done in
    (
      rw (← e) (ground (arith, g, same_int_iff n m, same_int_iff m n)),
      Apart-next n c done todo fresh (rw other at out) hs,
    )

da_line_Solid : (n c : ℤ) → All Solid (codes "DA:" ++ (int_text n ++ 44 ∷ int_text c))
unfolding is_space between
da_line_Solid n c = (
  refl,
  (
    refl,
    (
      refl,
      All-append_of Solid (int_text n) (44 ∷ int_text c) (int_text-Solid n)
          (refl, int_text-Solid c),
    ),
  ),
)

parse_da_line :
    (n c : ℤ) (path : Text) (files : Files)
    → parse_line
        (codes "DA:" ++ (int_text n ++ 44 ∷ int_text c))
        (record { out = files; current = some path })
      ≡ record {
        out = put same_text path (add_hits n c (lines_of path files)) files;
        current = some path;
      }
unfolding parse_line parse_other parse_da starts_with read_count count_line
parse_da_line n c path files =
    let (p, q) = partition-int_text n c in rw (p, to_int-int_text n, q, to_int-int_text c) refl

parse_step :
    (raw : Text) (raws : List Text) (st st' : Parse)
    → parse_line (strip raw) st ≡ st'
    → parse_lines (raw ∷ raws) st ≡ parse_lines raws st'
unfolding parse_lines
parse_step raw raws st st' e = ap (parse_lines raws) e

-- The DA lines of `todo`, read after those of `done`.
parse_da_lines :
    (path : Text) (m : Files) (done todo : Lines)
    → get same_text path m ≡ none
    → Distinct same_int todo
    → Apart done todo
    → parse_lines (da_lines todo) (record { out = m ++ (path, done) ∷ []; current = some path })
      ≡ record { out = m ++ (path, done ++ todo) ∷ []; current = some path }
unfolding parse_lines da_lines add_hits
parse_da_lines path m done [] fresh d a = rw (append-nil done) refl
parse_da_lines path m done ((n, c) ∷ todo) fresh (out, d) (h, hs) =
    let files : Files = m ++ (path, done) ∷ [] in
    let strip_it =
      strip-Solid (codes "DA:" ++ (int_text n ++ 44 ∷ int_text c)) (da_line_Solid n c) in
    let here : get same_text path files ≡ some done =
      get_last same_text same_text_iff path done m fresh in
    let now : add_hits n c (lines_of path files) ≡ done ++ (n, c) ∷ [] =
      rw here (rw h (rw (zero-add_int c) (put_fresh same_int same_int_iff n c done h))) in
    let stored : put same_text path (done ++ (n, c) ∷ []) files
        ≡ m ++ (path, done ++ (n, c) ∷ []) ∷ [] =
      put_last same_text same_text_iff path done (done ++ (n, c) ∷ []) m fresh in
    let step : parse_line (strip (codes "DA:" ++ (int_text n ++ 44 ∷ int_text c)))
          (record { out = files; current = some path })
        ≡ record { out = m ++ (path, done ++ (n, c) ∷ []) ∷ []; current = some path } =
      rw strip_it (rw (parse_da_line n c path files, now, stored) refl) in
    parse_step (codes "DA:" ++ (int_text n ++ 44 ∷ int_text c)) (da_lines todo)
      (record { out = files; current = some path })
      (record { out = m ++ (path, done ++ (n, c) ∷ []) ∷ []; current = some path }) step
    ∙ parse_da_lines path m (done ++ (n, c) ∷ []) todo fresh d (Apart-next n c done todo h out hs)
    ∙ ap (λ (l : Lines). record { out = m ++ (path, l) ∷ []; current = some path })
        (append_assoc done ((n, c) ∷ []) todo)

pub parse_lines-append :
    (ls more : List Text) (st : Parse)
    → parse_lines (ls ++ more) st ≡ parse_lines more (parse_lines ls st)
unfolding parse_lines
parse_lines-append [] more st = refl
parse_lines-append (l ∷ ls) more st = parse_lines-append ls more (parse_line (strip l) st)

parse_tn : (st : Parse) → parse_line (strip (codes "TN:")) st ≡ st
unfolding parse_line parse_other starts_with same_text is_space between
parse_tn st = rw (strip-Solid (codes "TN:") (refl, (refl, (refl, tt)))) refl

parse_sf :
    (path : Text) (st : Parse)
    → Writable path
    → parse_line (strip (codes "SF:" ++ path)) st
      ≡ record { out = open_file path st.out; current = some path }
unfolding parse_line starts_with is_space between
parse_sf path st w =
    let q : strip (codes "SF:" ++ path) ≡ codes "SF:" ++ path =
      strip_first 83 (70 ∷ 58 ∷ path) refl
      ∙ ap (λ t. 83 ∷ t)
          (rstrip_first 70 (58 ∷ path) refl
            ∙ ap (λ t. 70 ∷ t) (rstrip_first 58 path refl ∙ ap (λ t. 58 ∷ t) w.no_blank_end)) in
    rw q refl

parse_counts :
    (a b : ℕ) (path : Text) (files : Files)
    → parse_lines
        ((codes "LF:" ++ decimal a) ∷ (codes "LH:" ++ decimal b) ∷ codes "end_of_record" ∷ [])
        (record { out = files; current = some path })
      ≡ record { out = files; current = none }
unfolding parse_lines parse_line parse_other starts_with same_text is_space between
parse_counts a b path files =
    rw
      (
        strip-Solid (codes "LF:" ++ decimal a) (refl, (refl, (refl, decimal-Solid a))),
        strip-Solid (codes "LH:" ++ decimal b) (refl, (refl, (refl, decimal-Solid b))),
        strip-Solid (codes "end_of_record") (
          refl,
          (
            refl,
            (
              refl,
              (refl, (refl, (refl, (refl, (refl, (refl, (refl, (refl, (refl, (refl, tt)))))))))),
            ),
          ),
        ),
      )
      refl

open_fresh :
    (path : Text) (m : Files)
    → get same_text path m ≡ none
    → open_file path m ≡ m ++ (path, []) ∷ []
unfolding open_file
open_fresh path m h = rw h (put_fresh same_text same_text_iff path [] m h)

Apart-none : (todo : Lines) → Apart [] todo
unfolding get
Apart-none [] = tt
Apart-none (e ∷ todo) = (refl, Apart-none todo)

-- A record adds its file, with the lines in order.
pub parse_record :
    (path : Text) (lines : Lines) (m : Files)
    → Writable path
    → get same_text path m ≡ none
    → Distinct same_int lines
    → parse_lines (record_lines path lines) (record { out = m; current = none })
      ≡ record { out = m ++ (path, sort_items less_int lines) ∷ []; current = none }
unfolding record_lines
parse_record path lines m w fresh d =
    let sorted = sort_items less_int lines in
    let start : Parse = record { out = m; current = none } in
    let opened : Parse = record { out = m ++ (path, []) ∷ []; current = some path } in
    let full : Parse = record { out = m ++ (path, sorted) ∷ []; current = some path } in
    parse_step (codes "TN:") _ start start (parse_tn start)
    ∙ parse_step (codes "SF:" ++ path) _ start opened (
        parse_sf path start w
        ∙ ap (λ (files : Files). record { out = files; current = some path })
            (open_fresh path m fresh))
    ∙ parse_lines-append (da_lines sorted) _ opened
    ∙ ap (parse_lines (count_lines lines)) (
        parse_da_lines path m [] sorted fresh
          (sort_items-Distinct same_int same_int_iff less_int lines d) (Apart-none sorted))
    ∙ parse_counts (length lines) (hit_lines lines) path full.out
  where
    count_lines : Lines → List Text
    count_lines lines =
        (codes "LF:" ++ decimal (length lines))
        ∷ (codes "LH:" ++ decimal (hit_lines lines))
        ∷ codes "end_of_record"
        ∷ []

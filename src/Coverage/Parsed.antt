-- ===== src/Coverage/Parsed.antt =====
-- What `parse_lcov` returns can be written again (coverage.py).
use wake_sol.Prelude.{
  ◌≡◌, refl, sym, ap, ◌∙◌, true, Option, none, some, List, [], ◌∷◌, All, drop, Bool-cases, inl, inr,
  arith,
}
use wake_sol.Prelude.Int.{ℤ}
use wake_sol.Builder.Names.{codes}
use wake_sol.Coverage.Dict.{get, put, Distinct, put-Distinct}
use wake_sol.Coverage.Text.{
  Text, between, is_space, rstrip, lstrip, strip, splitlines, starts_with, same_text,
}
use wake_sol.Coverage.TextBack.{
  NoBreak, rstrip_first, rstrip_idempotent, All-strip, splitlines-NoBreak,
}
use wake_sol.Coverage.LinesBack.{same_int_iff, same_text_iff, Writable}
use wake_sol.Coverage.Lcov.{
  same_int, Lines, Files, lines_of, hits, ◌+ℤ◌, add_hits, merge_lines, merge_files, open_file,
  Parse, count_line, read_count, parse_da, parse_other, parse_line, parse_lines, parse_lcov,
}
use wake_sol.Coverage.RoundTrip.{FileOk, WellFormed}

lines_of-Distinct :
    (path : Text) (files : Files) → All FileOk files → Distinct same_int (lines_of path files)
unfolding get
lines_of-Distinct path [] h = tt
lines_of-Distinct path ((q, lines) ∷ files) ((w, d), h) = elim (Bool-cases (same_text q path)) [
  | inl it ↦ rw it d
  | inr other ↦ rw other (lines_of-Distinct path files h)
]

put-All :
    (path : Text) (lines : Lines) (files : Files)
    → FileOk (path, lines)
    → All FileOk files
    → All FileOk (put same_text path lines files)
unfolding put
put-All path lines [] h hs = (h, tt)
put-All path lines ((q, old) ∷ files) h (x, hs) = elim (Bool-cases (same_text q path)) [
  | inl it ↦ let e : q ≡ path = (same_text_iff q path).0 it in rw it ((rw e h.0, h.1), hs)
  | inr other ↦ rw other (x, put-All path lines files h hs)
]

pub put-WellFormed :
    (path : Text) (lines : Lines) (files : Files)
    → Writable path
    → Distinct same_int lines
    → WellFormed files
    → WellFormed (put same_text path lines files)
put-WellFormed path lines files w d h = record {
  distinct = put-Distinct same_text same_text_iff path lines files h.distinct;
  files_ok = put-All path lines files (w, d) h.files_ok;
}

add_hits-Distinct :
    (n count : ℤ) (m : Lines) → Distinct same_int m → Distinct same_int (add_hits n count m)
unfolding add_hits
add_hits-Distinct n count m h = put-Distinct same_int same_int_iff n (hits n m +ℤ count) m h

merge_lines-Distinct :
    (into lines : Lines) → Distinct same_int into → Distinct same_int (merge_lines into lines)
unfolding merge_lines
merge_lines-Distinct into [] h = h
merge_lines-Distinct into ((n, count) ∷ lines) h =
    merge_lines-Distinct (add_hits n count into) lines (add_hits-Distinct n count into h)

-- Merging keeps that.
pub merge_files-WellFormed :
    (dst src : Files) → WellFormed dst → All FileOk src → WellFormed (merge_files dst src)
unfolding merge_files
merge_files-WellFormed dst [] h k = h
merge_files-WellFormed dst ((path, lines) ∷ src) h ((w, d), k) =
    merge_files-WellFormed (put same_text path (merge_lines (lines_of path dst) lines) dst) src
      (put-WellFormed path (merge_lines (lines_of path dst) lines) dst w
        (merge_lines-Distinct (lines_of path dst) lines (lines_of-Distinct path dst h.files_ok)) h)
      k

-- The path of the record that is open can stand on a line.
abbrev CurrentOk : Option Text → Type 0
CurrentOk none = Unit {0}
CurrentOk (some path) = Writable path

record ParseOk (st : Parse) : Type 0 where
  out_ok : WellFormed st.out
  current_ok : CurrentOk st.current

starts_sf :
    (line : Text) → starts_with (codes "SF:") line ≡ true → line ≡ 83 ∷ 70 ∷ 58 ∷ drop 3 line
unfolding starts_with
starts_sf [] h = cc
starts_sf (a ∷ []) h = ground arith
starts_sf (a ∷ b ∷ []) h = ground arith
starts_sf (a ∷ b ∷ c ∷ rest) h = ground arith

-- The rest of a stripped line that starts with SF: can stand on a line.
drop-Writable :
    (line : Text)
    → All NoBreak line
    → rstrip line ≡ line
    → line ≡ 83 ∷ 70 ∷ 58 ∷ drop 3 line
    → Writable (drop 3 line)
unfolding is_space between
drop-Writable line h r e =
    let path = drop 3 line in
    let parts : All NoBreak (83 ∷ 70 ∷ 58 ∷ path) = rw e at h in
    let stripped : rstrip (83 ∷ 70 ∷ 58 ∷ path) ≡ 83 ∷ 70 ∷ 58 ∷ rstrip path =
      rstrip_first 83 (70 ∷ 58 ∷ path) refl
      ∙ ap (λ t. 83 ∷ t)
          (rstrip_first 70 (58 ∷ path) refl ∙ ap (λ t. 70 ∷ t) (rstrip_first 58 path refl)) in
    let same : rstrip (83 ∷ 70 ∷ 58 ∷ path) ≡ 83 ∷ 70 ∷ 58 ∷ path = sym (ap rstrip e) ∙ r ∙ e in
    let both : 83 ∷ 70 ∷ 58 ∷ rstrip path ≡ 83 ∷ 70 ∷ 58 ∷ path = sym stripped ∙ same in
    record { one_line = parts.1.1.1; no_blank_end = ap (drop 3) both }

count_line-WellFormed :
    (path : Text) (n count : Option ℤ) (files : Files)
    → Writable path
    → WellFormed files
    → WellFormed (count_line path n count files)
unfolding count_line
count_line-WellFormed path none count files w h = h
count_line-WellFormed path (some n) none files w h = h
count_line-WellFormed path (some n) (some count) files w h =
    put-WellFormed path (add_hits n count (lines_of path files)) files w
      (add_hits-Distinct n count (lines_of path files) (lines_of-Distinct path files h.files_ok)) h

parse_da-ParseOk :
    (line : Text) (current : Option Text) (st : Parse)
    → CurrentOk current
    → ParseOk st
    → ParseOk (parse_da line current st)
unfolding parse_da read_count
parse_da-ParseOk line none st c h = h
parse_da-ParseOk line (some path) st c h = record {
  out_ok = count_line-WellFormed path _ _ st.out c h.out_ok;
  current_ok = h.current_ok;
}

parse_line-ParseOk :
    (line : Text) (st : Parse)
    → All NoBreak line
    → rstrip line ≡ line
    → ParseOk st
    → ParseOk (parse_line line st)
unfolding parse_line parse_other open_file
parse_line-ParseOk line st l r h = elim (Bool-cases (starts_with (codes "SF:") line)) [
  | inl sf ↦
      let w = drop-Writable line l r (starts_sf line sf) in
      rw sf (record {
        out_ok =
            put-WellFormed (drop 3 line) (lines_of (drop 3 line) st.out) st.out w
              (lines_of-Distinct (drop 3 line) st.out h.out_ok.files_ok) h.out_ok;
        current_ok = w;
      })
  | inr not_sf ↦ rw not_sf (elim (Bool-cases (starts_with (codes "DA:") line)) [
    | inl da ↦ rw da (parse_da-ParseOk line st.current st h.current_ok h)
    | inr not_da ↦ rw not_da (elim (Bool-cases (same_text line (codes "end_of_record"))) [
      | inl end ↦ rw end (record { out_ok = h.out_ok; current_ok = tt })
      | inr other ↦ rw other h
    ])
  ])
]

parse_lines-ParseOk :
    (ls : List Text) (st : Parse) → All (All NoBreak) ls → ParseOk st → ParseOk (parse_lines ls st)
unfolding parse_lines strip
parse_lines-ParseOk [] st l h = h
parse_lines-ParseOk (raw ∷ ls) st (l, more) h =
    parse_lines-ParseOk ls (parse_line (strip raw) st) more (
      parse_line-ParseOk (strip raw) st (All-strip NoBreak raw l) (rstrip_idempotent (lstrip raw))
        h)

-- Whatever the text is, the files that are read from it have distinct paths, each of which can stand
-- on a line, and each distinct line numbers.
pub parse_lcov-WellFormed : (text : Text) → WellFormed (parse_lcov text)
unfolding parse_lcov
parse_lcov-WellFormed text =
    (parse_lines-ParseOk (splitlines text) (record { out = []; current = none })
      (splitlines-NoBreak text)
      (record { out_ok = record { distinct = tt; files_ok = tt }; current_ok = tt })).out_ok

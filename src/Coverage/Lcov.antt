-- ===== src/Coverage/Lcov.antt =====
-- `parse_lcov`, `format_lcov` and the merging of files, coverage.py.
use wake_sol.Prelude.{
  ℕ, suc, ◌+◌, ◌-◌, Bool, true, false, Option, none, some, List, [], ◌∷◌, ◌++◌, drop, length, leb,
  ◌==◌, ltb, if◌then◌else◌,
}
use wake_sol.Prelude.Int.{ℤ, pos, negsuc}
use wake_sol.Builder.Names.{codes}
use wake_sol.Coverage.Dict.{get, put, sort_items}
use wake_sol.Coverage.Text.{
  Text, strip, splitlines, starts_with, same_text, less_text, partition, to_int, decimal, int_text,
}

unfoldable pub same_int : ℤ → ℤ → Bool
same_int (pos a) (pos b) = a == b
same_int (pos a) (negsuc b) = false
same_int (negsuc a) (pos b) = false
same_int (negsuc a) (negsuc b) = a == b

unfoldable pub less_int : ℤ → ℤ → Bool
less_int (pos a) (pos b) = ltb a b
less_int (pos a) (negsuc b) = false
less_int (negsuc a) (pos b) = true
less_int (negsuc a) (negsuc b) = ltb b a

abbrev pub pos_part : ℤ → ℕ
pos_part (pos n) = n
pos_part (negsuc n) = 0

abbrev pub neg_part : ℤ → ℕ
neg_part (pos n) = 0
neg_part (negsuc n) = suc n

abbrev pub sub_ℕ : ℕ → ℕ → ℤ
sub_ℕ a b = if leb b a then pos (a - b) else negsuc (b - a - 1)

infixl 65 ◌+ℤ◌
unfoldable pub ◌+ℤ◌ : ℤ → ℤ → ℤ
a +ℤ b = sub_ℕ (pos_part a + pos_part b) (neg_part a + neg_part b)

-- Lines with their hits.
abbrev pub Lines : Type 0
Lines = List (ℤ × ℤ)

-- `FileLines`
abbrev pub Files : Type 0
Files = List (Text × Lines)

abbrev pub int_or_zero : Option ℤ → ℤ
int_or_zero none = pos 0
int_or_zero (some n) = n

abbrev pub lines_or_none : Option Lines → Lines
lines_or_none none = []
lines_or_none (some m) = m

abbrev pub hits : ℤ → Lines → ℤ
hits n m = int_or_zero (get same_int n m)

abbrev pub lines_of : Text → Files → Lines
lines_of path files = lines_or_none (get same_text path files)

abbrev pub hits_at : Text → ℤ → Files → ℤ
hits_at path n files = hits n (lines_of path files)

-- `into[n] = into.get(n, 0) + count`
unfoldable pub add_hits : ℤ → ℤ → Lines → Lines
add_hits n count into = put same_int n (hits n into +ℤ count) into

-- The loop over the lines of a file.
unfoldable pub merge_lines : Lines → Lines → Lines
merge_lines into [] = into
merge_lines into ((n, count) ∷ lines) = merge_lines (add_hits n count into) lines

-- The loop over the files.
unfoldable pub merge_files : Files → Files → Files
merge_files dst [] = dst
merge_files dst ((path, lines) ∷ src) =
    merge_files (put same_text path (merge_lines (lines_of path dst) lines) dst) src

-- `out.setdefault(path, {})`
unfoldable pub open_file : Text → Files → Files
open_file path files = put same_text path (lines_of path files) files

-- The variables of `parse_lcov`; `current` is the key of the dict that the source holds.
pub record Parse : Type 0 where
  pub out : Files
  pub current : Option Text

unfoldable pub count_line : Text → Option ℤ → Option ℤ → Files → Files
count_line path none count files = files
count_line path (some n) none files = files
count_line path (some n) (some count) files =
    put same_text path (add_hits n count (lines_of path files)) files

unfoldable pub read_count : Text → Text → Files → Files
read_count path entry files =
    let (number, rest) = partition entry in
    count_line path (to_int number) (to_int (partition rest).0) files

unfoldable pub parse_da : Text → Option Text → Parse → Parse
parse_da line none st = st
parse_da line (some path) st = record st { out = read_count path (drop 3 line) st.out }

-- A line that names no file.
unfoldable pub parse_other : Text → Parse → Parse
parse_other line st =
    if starts_with (codes "DA:") line
    then parse_da line st.current st
    else if same_text line (codes "end_of_record")
    then record st { current = none }
    else st

unfoldable pub parse_line : Text → Parse → Parse
parse_line line st =
    if starts_with (codes "SF:") line
    then record { out = open_file (drop 3 line) st.out; current = some (drop 3 line) }
    else parse_other line st

unfoldable pub parse_lines : List Text → Parse → Parse
parse_lines [] st = st
parse_lines (raw ∷ raws) st = parse_lines raws (parse_line (strip raw) st)

unfoldable pub parse_lcov : Text → Files
parse_lcov text = (parse_lines (splitlines text) (record { out = []; current = none })).out

unfoldable pub da_lines : Lines → List Text
da_lines [] = []
da_lines ((n, count) ∷ lines) =
    (codes "DA:" ++ (int_text n ++ 44 ∷ int_text count)) ∷ da_lines lines

-- How many lines were hit.
unfoldable pub hit_lines : Lines → ℕ
hit_lines [] = 0
hit_lines ((n, count) ∷ lines) = (if same_int count (pos 0) then 0 else 1) + hit_lines lines

unfoldable pub record_lines : Text → Lines → List Text
record_lines path lines =
    codes "TN:"
    ∷ ((codes "SF:" ++ path)
        ∷ (da_lines (sort_items less_int lines)
            ++ ((codes "LF:" ++ decimal (length lines))
                ∷ (codes "LH:" ++ decimal (hit_lines lines))
                ∷ codes "end_of_record"
                ∷ [])))

unfoldable pub all_lines : Files → List Text
all_lines [] = []
all_lines ((path, lines) ∷ files) = record_lines path lines ++ all_lines files

-- `"\n".join`
unfoldable pub join_lines : List Text → Text
join_lines [] = []
join_lines (l ∷ []) = l
join_lines (l ∷ m ∷ ls) = l ++ 10 ∷ join_lines (m ∷ ls)

unfoldable pub with_newline : List Text → Text
with_newline [] = []
with_newline (l ∷ ls) = join_lines (l ∷ ls) ++ 10 ∷ []

unfoldable pub format_lcov : Files → Text
unfolding with_newline
format_lcov files = with_newline (all_lines (sort_items less_text files))

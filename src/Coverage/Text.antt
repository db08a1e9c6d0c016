-- ===== src/Coverage/Text.antt =====
-- The methods of `str` that coverage.py uses, `int` of a text, and an int as text. A text is its code
-- points.
use wake_sol.Prelude.{
  ℕ, zero, suc, ◌+◌, ◌-◌, ◌*◌, ◌/◌, ◌%◌, Bool, true, false, ◌&&◌, ◌||◌, Option, none, some, List,
  [], ◌∷◌, ◌++◌, ltb, leb, ◌==◌, if◌then◌else◌,
}
use wake_sol.Prelude.Int.{ℤ, pos, negsuc}

abbrev pub Text : Type 0
Text = List ℕ

unfoldable pub between : ℕ → ℕ → ℕ → Bool
between lo hi c = leb lo c && leb c hi

-- `str.isspace`
unfoldable pub is_space : ℕ → Bool
unfolding between
is_space c =
    between 9 13 c
    || between 28 32 c
    || c == 0x85
    || c == 0xa0
    || c == 0x1680
    || between 0x2000 0x200a c
    || c == 0x2028
    || c == 0x2029
    || c == 0x202f
    || c == 0x205f
    || c == 0x3000

-- The ends of lines that `splitlines` knows.
unfoldable pub is_break : ℕ → Bool
unfolding between
is_break c = between 10 13 c || between 28 30 c || c == 0x85 || c == 0x2028 || c == 0x2029

unfoldable pub lstrip : Text → Text
lstrip [] = []
lstrip (c ∷ cs) = let rest = lstrip cs in if is_space c then rest else c ∷ cs

unfoldable pub push_unless_blank : ℕ → Text → Text
push_unless_blank c [] = if is_space c then [] else c ∷ []
push_unless_blank c (d ∷ ds) = c ∷ (d ∷ ds)

unfoldable pub rstrip : Text → Text
rstrip [] = []
rstrip (c ∷ cs) = push_unless_blank c (rstrip cs)

unfoldable pub strip : Text → Text
strip s = rstrip (lstrip s)

unfoldable pub line_if_any : Text → List Text
line_if_any [] = []
line_if_any (c ∷ cs) = (c ∷ cs) ∷ []

-- `cur` is what the line has so far; a line feed after a carriage return ends no line.
unfoldable pub split_from : Bool → Text → Text → List Text
split_from after_cr cur [] = line_if_any cur
split_from after_cr cur (c ∷ cs) =
    let skipped = split_from false cur cs in
    let ended = split_from (c == 13) [] cs in
    let longer = split_from false (cur ++ c ∷ []) cs in
    if after_cr && c == 10 then skipped else if is_break c then cur ∷ ended else longer

unfoldable pub splitlines : Text → List Text
splitlines s = split_from false [] s

unfoldable pub starts_with : Text → Text → Bool
starts_with [] s = true
starts_with (p ∷ ps) [] = false
starts_with (p ∷ ps) (c ∷ cs) = p == c && starts_with ps cs

unfoldable pub same_text : Text → Text → Bool
same_text [] [] = true
same_text [] (d ∷ ds) = false
same_text (c ∷ cs) [] = false
same_text (c ∷ cs) (d ∷ ds) = c == d && same_text cs ds

unfoldable pub less_text : Text → Text → Bool
less_text [] [] = false
less_text [] (d ∷ ds) = true
less_text (c ∷ cs) [] = false
less_text (c ∷ cs) (d ∷ ds) = ltb c d || (c == d && less_text cs ds)

-- `s.partition(",")`, without the comma.
unfoldable pub partition : Text → Text × Text
partition [] = ([], [])
partition (c ∷ cs) =
    let (before, after) = partition cs in if c == 44 then ([], cs) else (c ∷ before, after)

-- Digits, with single underscores between them; `ready` after a digit.
unfoldable pub read_digits : Bool → ℕ → Text → Option ℕ
read_digits ready acc [] = if ready then some acc else none
read_digits ready acc (c ∷ cs) =
    let next = read_digits true (acc * 10 + (c - 48)) cs in
    let pause = read_digits false acc cs in
    if leb 48 c && leb c 57 then next else if c == 95 && ready then pause else none

unfoldable pub positive : Option ℕ → Option ℤ
positive none = none
positive (some n) = some (pos n)

unfoldable pub negative : Option ℕ → Option ℤ
negative none = none
negative (some zero) = some (pos 0)
negative (some (suc n)) = some (negsuc n)

unfoldable pub read_signed : Text → Option ℤ
read_signed [] = none
read_signed (c ∷ cs) =
    if c == 45
    then negative (read_digits false 0 cs)
    else if c == 43
    then positive (read_digits false 0 cs)
    else positive (read_digits false 0 (c ∷ cs))

-- `int` of a text; digits outside ASCII are not read.
unfoldable pub to_int : Text → Option ℤ
to_int s = read_signed (strip s)

-- A fuel above the number is enough.
unfoldable pub digits : ℕ → ℕ → Text
digits zero n = []
digits (suc fuel) n =
    let more = digits fuel (n / 10) ++ (48 + n % 10) ∷ [] in
    if ltb n 10 then (48 + n) ∷ [] else more

unfoldable pub decimal : ℕ → Text
decimal n = digits (suc n) n

-- `str` of an int.
unfoldable pub int_text : ℤ → Text
int_text (pos n) = decimal n
int_text (negsuc n) = 45 ∷ decimal (suc n)

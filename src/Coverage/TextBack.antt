-- ===== src/Coverage/TextBack.antt =====
-- What is written as text is read back (the text methods of coverage.py).
use wake_sol.Prelude.{
  ℕ, zero, suc, ◌+◌, ◌-◌, ◌*◌, ◌/◌, ◌%◌, ◌≤◌, ◌<◌, ◌≡◌, refl, sym, ap, ◌∙◌, Bool, true, false, ◌&&◌,
  some, [], ◌∷◌, ◌++◌, append_assoc, append-nil, All, ltb, leb, ◌==◌, Bool-cases, inl, inr, ltb→lt,
  ltb_not, arith,
}
use wake_sol.Prelude.Int.{ℤ, pos, negsuc}
use wake_sol.Coverage.Text.{
  Text, between, is_space, is_break, lstrip, push_unless_blank, rstrip, strip, line_if_any,
  split_from, splitlines, partition, read_digits, positive, negative, read_signed, to_int, digits,
  decimal, int_text,
}

abbrev pub Solid : ℕ → Type 0
Solid c = is_space c ≡ false

abbrev pub NoBreak : ℕ → Type 0
NoBreak c = is_break c ≡ false

pub All-append_of : (P : ℕ → Type 0) (s t : Text) → All P s → All P t → All P (s ++ t)
All-append_of P [] t h k = k
All-append_of P (c ∷ s) t (h, hs) k = (h, All-append_of P s t hs k)

pub Solid-NoBreak : (c : ℕ) → Solid c → NoBreak c
unfolding is_space is_break between
Solid-NoBreak c h = ground arith

pub All-NoBreak : (s : Text) → All Solid s → All NoBreak s
All-NoBreak [] h = tt
All-NoBreak (c ∷ s) (h, hs) = (Solid-NoBreak c h, All-NoBreak s hs)

pub rstrip_first : (c : ℕ) (s : Text) → Solid c → rstrip (c ∷ s) ≡ c ∷ rstrip s
unfolding rstrip push_unless_blank
rstrip_first c s h = by_rest (rstrip s)
  where
    by_rest : (r : Text) → push_unless_blank c r ≡ c ∷ r
    by_rest [] = rw h refl
    by_rest (d ∷ ds) = refl

pub rstrip-Solid : (s : Text) → All Solid s → rstrip s ≡ s
unfolding rstrip
rstrip-Solid [] h = refl
rstrip-Solid (c ∷ s) (h, hs) = rstrip_first c s h ∙ ap (λ t. c ∷ t) (rstrip-Solid s hs)

pub lstrip_first : (c : ℕ) (s : Text) → Solid c → lstrip (c ∷ s) ≡ c ∷ s
unfolding lstrip
lstrip_first c s h = rw h refl

pub strip_first : (c : ℕ) (s : Text) → Solid c → strip (c ∷ s) ≡ c ∷ rstrip s
unfolding strip
strip_first c s h = rw (lstrip_first c s h) (rstrip_first c s h)

pub strip-Solid : (s : Text) → All Solid s → strip s ≡ s
unfolding strip lstrip
strip-Solid [] h = rstrip-Solid [] tt
strip-Solid (c ∷ s) (h, hs) = strip_first c s h ∙ ap (λ t. c ∷ t) (rstrip-Solid s hs)

push_idempotent :
    (c : ℕ) (r : Text) → rstrip r ≡ r → rstrip (push_unless_blank c r) ≡ push_unless_blank c r
unfolding push_unless_blank rstrip
push_idempotent c [] h = elim (Bool-cases (is_space c)) [
  | inl blank ↦ rw blank refl
  | inr solid ↦ rw solid (rw solid refl)
]
push_idempotent c (d ∷ ds) h = rw h refl

pub rstrip_idempotent : (s : Text) → rstrip (rstrip s) ≡ rstrip s
unfolding rstrip
rstrip_idempotent [] = refl
rstrip_idempotent (c ∷ s) = push_idempotent c (rstrip s) (rstrip_idempotent s)

All-push : (P : ℕ → Type 0) (c : ℕ) (r : Text) → P c → All P r → All P (push_unless_blank c r)
unfolding push_unless_blank
All-push P c [] h k = elim (Bool-cases (is_space c)) [
  | inl blank ↦ rw blank tt
  | inr solid ↦ rw solid (h, tt)
]
All-push P c (d ∷ ds) h k = (h, k)

All-rstrip : (P : ℕ → Type 0) (s : Text) → All P s → All P (rstrip s)
unfolding rstrip
All-rstrip P [] h = tt
All-rstrip P (c ∷ s) (h, hs) = All-push P c (rstrip s) h (All-rstrip P s hs)

All-lstrip : (P : ℕ → Type 0) (s : Text) → All P s → All P (lstrip s)
unfolding lstrip
All-lstrip P [] h = tt
All-lstrip P (c ∷ s) (h, hs) = elim (Bool-cases (is_space c)) [
  | inl blank ↦ rw blank (All-lstrip P s hs)
  | inr solid ↦ rw solid (h, hs)
]

pub All-strip : (P : ℕ → Type 0) (s : Text) → All P s → All P (strip s)
unfolding strip
All-strip P s h = All-rstrip P (lstrip s) (All-lstrip P s h)

-- A line without a break, ended by a line feed, is the first of the lines.
pub split_line :
    (cur l rest : Text)
    → All NoBreak l
    → split_from false cur (l ++ 10 ∷ rest) ≡ (cur ++ l) ∷ split_from false [] rest
unfolding split_from is_break between
split_line cur [] rest h = rw (append-nil cur) refl
split_line cur (c ∷ l) rest (h, hs) = rw (h) (
    split_line (cur ++ c ∷ []) l rest hs
    ∙ ap (λ t. t ∷ split_from false [] rest) (append_assoc cur (c ∷ []) l))

-- No line of a text has a break in it.
line_if_any-NoBreak : (cur : Text) → All NoBreak cur → All (All NoBreak) (line_if_any cur)
unfolding line_if_any
line_if_any-NoBreak [] h = tt
line_if_any-NoBreak (c ∷ cs) h = (h, tt)

split_from-NoBreak :
    (after_cr : Bool) (cur s : Text)
    → All NoBreak cur
    → All (All NoBreak) (split_from after_cr cur s)
unfolding split_from
split_from-NoBreak after_cr cur [] h = line_if_any-NoBreak cur h
split_from-NoBreak after_cr cur (c ∷ s) h = elim (Bool-cases (after_cr && c == 10)) [
  | inl skip ↦ rw skip (split_from-NoBreak false cur s h)
  | inr kept ↦ rw kept (elim (Bool-cases (is_break c)) [
    | inl ended ↦ rw ended (h, split_from-NoBreak (c == 13) [] s tt)
    | inr same_line ↦ rw same_line (
        split_from-NoBreak false (cur ++ c ∷ []) s
          (All-append_of NoBreak cur (c ∷ []) h (same_line, tt)))
  ])
]

pub splitlines-NoBreak : (s : Text) → All (All NoBreak) (splitlines s)
unfolding splitlines
splitlines-NoBreak s = split_from-NoBreak false [] s tt

-- Digits.
read_digits_next :
    (ready : Bool) (acc d : ℕ) (rest : Text)
    → d < 10
    → read_digits ready acc ((48 + d) ∷ rest) ≡ read_digits true (acc * 10 + d) rest
unfolding read_digits
read_digits_next ready acc d rest h =
    let lo : leb 48 (48 + d) ≡ true = ground arith in
    let hi : leb (48 + d) 57 ≡ true = ground arith in
    let same : 48 + d - 48 ≡ d = omega arith in rw (lo, hi, same) refl

read_digits-digits :
    (ready : Bool) (f n : ℕ) (rest : Text)
    → n < f
    → read_digits ready 0 (digits f n ++ rest) ≡ read_digits true n rest
unfolding digits
read_digits-digits ready zero n rest h = absurd (omega arith)
read_digits-digits ready (suc f) n rest h = elim (Bool-cases (ltb n 10)) [
  | inl one ↦
      let lt = ltb→lt n 10 one in
      let q : 0 * 10 + n ≡ n = omega arith in
      rw one (read_digits_next ready 0 n rest lt ∙ ap (λ k. read_digits true k rest) q)
  | inr many ↦
      let ge = ltb_not n 10 many in
      let q : n / 10 * 10 + n % 10 ≡ n = omega arith in
      rw many (
        rw (append_assoc (digits f (n / 10)) ((48 + n % 10) ∷ []) rest) (
          read_digits-digits ready f (n / 10) ((48 + n % 10) ∷ rest) (omega arith)
          ∙ read_digits_next true (n / 10) (n % 10) rest (omega arith)
          ∙ ap (λ k. read_digits true k rest) q))
]

unfoldable pub IsDigit : ℕ → Type 0
IsDigit c = (48 ≤ c) × (c ≤ 57)

digits-IsDigit : (f n : ℕ) → All IsDigit (digits f n)
unfolding digits IsDigit
digits-IsDigit zero n = tt
digits-IsDigit (suc f) n = elim (Bool-cases (ltb n 10)) [
  | inl one ↦ let lt = ltb→lt n 10 one in rw one ((omega arith, omega arith), tt)
  | inr many ↦ rw many (
      All-append_of IsDigit (digits f (n / 10)) ((48 + n % 10) ∷ []) (digits-IsDigit f (n / 10))
        ((omega arith, omega arith), tt))
]

IsDigit-Solid : (s : Text) → All IsDigit s → All Solid s
unfolding IsDigit is_space between
IsDigit-Solid [] h = tt
IsDigit-Solid (c ∷ s) (h, hs) = (ground arith, IsDigit-Solid s hs)

pub int_text-Solid : (z : ℤ) → All Solid (int_text z)
unfolding int_text decimal is_space between
int_text-Solid (pos n) = IsDigit-Solid (digits (suc n) n) (digits-IsDigit (suc n) n)
int_text-Solid (negsuc n) =
    (refl, IsDigit-Solid (digits (suc (suc n)) (suc n)) (digits-IsDigit (suc (suc n)) (suc n)))

read_signed-IsDigit :
    (s : Text) (n : ℕ)
    → All IsDigit s
    → read_digits false 0 s ≡ some n
    → read_signed s ≡ some (pos n)
unfolding read_signed IsDigit positive read_digits
read_signed-IsDigit [] n d h = cc
read_signed-IsDigit (c ∷ s) n (d, ds) h =
    let minus : (c == 45) ≡ false = ground arith in
    let plus : (c == 43) ≡ false = ground arith in rw (minus, plus, h) refl

decimal_back : (n : ℕ) → read_digits false 0 (decimal n) ≡ some n
unfolding decimal read_digits
decimal_back n =
    ap (λ s. read_digits false 0 s) (sym (append-nil (digits (suc n) n)))
    ∙ read_digits-digits false (suc n) n [] (omega arith)

read_signed-int_text : (z : ℤ) → read_signed (int_text z) ≡ some z
unfolding read_signed int_text negative decimal
read_signed-int_text (pos n) =
    read_signed-IsDigit (digits (suc n) n) n (digits-IsDigit (suc n) n) (decimal_back n)
read_signed-int_text (negsuc n) = rw (decimal_back (suc n)) refl

-- `int` reads what `str` writes.
pub to_int-int_text : (z : ℤ) → to_int (int_text z) ≡ some z
unfolding to_int
to_int-int_text z = rw (strip-Solid (int_text z) (int_text-Solid z)) (read_signed-int_text z)

-- A comma after a text without one ends what `partition` puts first.
abbrev NoComma : ℕ → Type 0
NoComma c = (c == 44) ≡ false

digits-NoComma : (s : Text) → All IsDigit s → All NoComma s
unfolding IsDigit
digits-NoComma [] h = tt
digits-NoComma (c ∷ s) (h, hs) = (ground arith, digits-NoComma s hs)

int_text-NoComma : (z : ℤ) → All NoComma (int_text z)
unfolding int_text decimal
int_text-NoComma (pos n) = digits-NoComma (digits (suc n) n) (digits-IsDigit (suc n) n)
int_text-NoComma (negsuc n) =
    (refl, digits-NoComma (digits (suc (suc n)) (suc n)) (digits-IsDigit (suc (suc n)) (suc n)))

partition_at : (s rest : Text) → All NoComma s → partition (s ++ 44 ∷ rest) ≡ (s, rest)
unfolding partition
partition_at [] rest h = refl
partition_at (c ∷ s) rest (h, hs) = rw h (rw (partition_at s rest hs) refl)

partition_whole : (s : Text) → All NoComma s → partition s ≡ (s, [])
unfolding partition
partition_whole [] h = refl
partition_whole (c ∷ s) (h, hs) = rw h (rw (partition_whole s hs) refl)

pub partition-int_text :
    (a b : ℤ)
    → (partition (int_text a ++ 44 ∷ int_text b) ≡ (int_text a, int_text b))
      × (partition (int_text b) ≡ (int_text b, []))
partition-int_text a b = (
  partition_at (int_text a) (int_text b) (int_text-NoComma a),
  partition_whole (int_text b) (int_text-NoComma b),
)

pub decimal-Solid : (n : ℕ) → All Solid (decimal n)
unfolding int_text
decimal-Solid n = int_text-Solid (pos n)

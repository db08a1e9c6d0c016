-- ===== src/Errors/Coded.antt =====
-- The code of what is built (_errors.py).
use wake_sol.Prelude.{
  ℕ, ◌≡◌, refl, ◌⊎◌, Bool, true, ◌&&◌, String, Option, none, some, List, [], ◌∷◌, ◌==◌, ==_iff,
  str_eq, Bool-cases, inl, inr, and_left, and_right, ltb,
}
use wake_sol.Prelude.Assoc.{by_name, by_number}
use wake_sol.Errors.Classes.{ErrorClass, unknown_error, class_code, same_code, new}
use wake_sol.Errors.Catalog.{anchor_by_code}
use wake_sol.Errors.Subclasses.{same_code_iff}
use wake_sol.Errors.Scoping.{same_key_iff}
use wake_sol.Errors.Resolve.{
  ErrorKey, same_key, ErrorTable, known_error, set_error, register_one, register_errors, or_class,
  class_or, builtin_by_program, builtin_of, anchor_class, find_class, build_code, build,
}

-- Each class of the table declares the code that it is kept under.
pub data Keyed : ErrorTable → Type 0 where
  none_yet : Keyed []
  one_more :
      {k : ErrorKey} {cls : ErrorClass} {table : ErrorTable}
      → class_code cls ≡ some k.code
      → Keyed table
      → Keyed ((k, cls) ∷ table)

set_error-Keyed :
    (k : ErrorKey) (cls : ErrorClass) (table : ErrorTable)
    → class_code cls ≡ some k.code
    → Keyed table
    → Keyed (set_error k cls table)
unfolding set_error
set_error-Keyed k cls [] c none_yet = one_more c none_yet
set_error-Keyed k cls ((j, old) ∷ table) c (one_more d h) = elim (Bool-cases (same_key j k)) [
  | inl same ↦ let q : j ≡ k = (same_key_iff j k).0 same in rw same (one_more (rw q c) h)
  | inr other ↦ rw other (one_more d (set_error-Keyed k cls table c h))
]

register_one-Keyed :
    (p : Option String) (c : Option ℕ) (sub : ErrorClass) (table : ErrorTable)
    → class_code sub ≡ c
    → Keyed table
    → Keyed (register_one p c sub table)
unfolding register_one
register_one-Keyed p none sub table e h = h
register_one-Keyed p (some n) sub table e h = set_error-Keyed _ sub table e h

-- Registering keeps that.
pub register_errors-Keyed :
    (subs : List ErrorClass) (p : Option String) (table : ErrorTable)
    → Keyed table
    → Keyed (register_errors subs p table)
unfolding register_errors
register_errors-Keyed [] p table h = h
register_errors-Keyed (sub ∷ subs) p table h =
    register_errors-Keyed subs p _ (register_one-Keyed p (class_code sub) sub table refl h)

-- Of an optional class: it declares the code.
abbrev Declares : ℕ → Option ErrorClass → Type 0
Declares n none = Unit {0}
Declares n (some cls) = class_code cls ≡ some n

known_error-Declares :
    (k : ErrorKey) (table : ErrorTable) → Keyed table → Declares k.code (known_error k table)
unfolding known_error
known_error-Declares k [] none_yet = tt
known_error-Declares k ((j, cls) ∷ table) (one_more d h) = elim (Bool-cases (same_key j k)) [
  | inl same ↦ let q : j ≡ k = (same_key_iff j k).0 same in rw same (rw q at d)
  | inr other ↦ rw other (known_error-Declares k table h)
]

-- The same of a catalog, as a test.
declared : List (ℕ × ErrorClass) → Bool
declared [] = true
declared ((n, cls) ∷ catalog) = same_code (class_code cls) (some n) && declared catalog

by_number-Declares :
    (n : ℕ) (catalog : List (ℕ × ErrorClass))
    → declared catalog ≡ true
    → Declares n (by_number n catalog)
unfolding by_number declared
by_number-Declares n [] h = tt
by_number-Declares n ((m, cls) ∷ catalog) h = elim (Bool-cases (m == n)) [
  | inl same ↦
      let q : m ≡ n = (==_iff m n).0 same in
      rw same (rw q at ((same_code_iff (class_code cls) (some m)).0 (and_left _ _ h)))
  | inr other ↦ rw other (by_number-Declares n catalog (and_right _ _ h))
]

all_declared : List (String × List (ℕ × ErrorClass)) → Bool
unfolding declared same_code class_code
all_declared [] = true
all_declared ((p, catalog) ∷ rest) = declared catalog && all_declared rest

builtin-declared : all_declared builtin_by_program ≡ true
unfolding all_declared
builtin-declared = refl

anchor-declared : declared anchor_by_code ≡ true
unfolding declared same_code class_code anchor_by_code
anchor-declared = refl

or_class-Declares :
    (n : ℕ) (a b : Option ErrorClass) → Declares n a → Declares n b → Declares n (or_class a b)
unfolding or_class
or_class-Declares n none b h k = k
or_class-Declares n (some cls) b h k = h

anchor_class-Declares : (n : ℕ) → Declares n (anchor_class n)
unfolding anchor_class
anchor_class-Declares n = elim (Bool-cases (ltb n 6000)) [
  | inl below ↦ rw below (by_number-Declares n anchor_by_code anchor-declared)
  | inr above ↦ rw above tt
]

-- Of the catalog of a program, if it is builtin.
abbrev CatalogDeclares : ℕ → Option (List (ℕ × ErrorClass)) → Type 0
CatalogDeclares n none = Unit {0}
CatalogDeclares n (some catalog) = Declares n (by_number n catalog)

by_name-CatalogDeclares :
    (p : String) (n : ℕ) (programs : List (String × List (ℕ × ErrorClass)))
    → all_declared programs ≡ true
    → CatalogDeclares n (by_name p programs)
unfolding by_name all_declared
by_name-CatalogDeclares p n [] h = tt
by_name-CatalogDeclares p n ((q, c) ∷ rest) h = elim (Bool-cases (str_eq q p)) [
  | inl same ↦ rw same (by_number-Declares n c (and_left _ _ h))
  | inr other ↦ rw other (by_name-CatalogDeclares p n rest (and_right _ _ h))
]

builtin_of-Declares : (p : Option String) (n : ℕ) → CatalogDeclares n (builtin_of p)
unfolding builtin_of
builtin_of-Declares none n = tt
builtin_of-Declares (some p) n = by_name-CatalogDeclares p n builtin_by_program builtin-declared

find_class-Declares :
    (table : ErrorTable) (p : Option String) (n : ℕ) (b : Option (List (ℕ × ErrorClass)))
    → Keyed table
    → CatalogDeclares n b
    → Declares n (find_class table p n b)
unfolding find_class
find_class-Declares table p n (some catalog) h d = d
find_class-Declares table p n none h d =
    or_class-Declares n (known_error (record { program = p; code = n }) table)
      (or_class (known_error (record { program = none; code = n }) table) (anchor_class n))
      (known_error-Declares (record { program = p; code = n }) table h)
      (or_class-Declares n (known_error (record { program = none; code = n }) table)
        (anchor_class n) (known_error-Declares (record { program = none; code = n }) table h)
        (anchor_class-Declares n))

class_or-Declares :
    (n : ℕ) (o : Option ErrorClass)
    → Declares n o
    → (class_or unknown_error o ≡ unknown_error) ⊎ (class_code (class_or unknown_error o) ≡ some n)
unfolding class_or
class_or-Declares n none d = inl refl
class_or-Declares n (some cls) d = inr d

-- What is built of a Custom code carries the code, and is an UnknownError or an instance of a class
-- that declares that very code, where the registered classes are kept under the codes they declare.
pub build-declared :
    (table : ErrorTable) (n : ℕ) (ix account : Option ℕ) (p : Option String)
    → Keyed table
    → ((build table (some n) none ix account p).code ≡ some n)
      × (((build table (some n) none ix account p).cls ≡ unknown_error)
          ⊎ (class_code (build table (some n) none ix account p).cls ≡ some n))
unfolding build build_code new
build-declared table n ix account p h = (
  refl,
  class_or-Declares n _ (find_class-Declares table p n (builtin_of p) h (builtin_of-Declares p n)),
)

-- ===== src/Precompiles/Find.antt =====
-- What `_resolve_ref` of _precompiles.py finds without an explicit offset.
use wake_sol.Prelude.{
  ℕ, zero, suc, ◌+◌, ◌-◌, ◌≤◌, ◌<◌, ◌≡◌, refl, sym, ap, subst, ◌∙◌, true, false, Option, none, some,
  List, [], ◌∷◌, arith, length, take, drop, inl, inr, ◌⊎◌, le→leb, length-drop, Bool-cases,
}
use wake_sol.Prelude.Int.{ℤ, pos}
use wake_sol.Codec.Result.{ok, first_returned}
use wake_sol.Builder.Structs.{same_bytes}
use wake_sol.Builder.StructsRoundTrip.{same_bytes→eq, same_bytes_refl}
use wake_sol.Precompiles.Claims.{Ref}
use wake_sol.Precompiles.Placement.{
  Object, find, find_after, only, search_in, locate, offset_in, resolve_ref,
}

-- `value` stands in `bytes` at place `k`.
abbrev pub Occurs : List ℕ → List ℕ → ℕ → Type 0
Occurs value bytes k = take (length value) (drop k bytes) ≡ value

-- The first place of `value`.
record First (value bytes : List ℕ) (k : ℕ) : Type 0 where
  inside : k ≤ length bytes
  occurs : Occurs value bytes k
  first : (j : ℕ) → j < k → Occurs value bytes j → ⊥

compared : (a b : ℕ) → (a < b) ⊎ (a ≡ b) ⊎ (b < a)
compared a b = ground arith

not_same : {xs ys : List ℕ} → same_bytes xs ys ≡ false → xs ≡ ys → ⊥
not_same {xs} {ys} h e = let e' = subst (λ zs. same_bytes xs zs ≡ true) e (same_bytes_refl xs) in cc

take_of_nil : (value : List ℕ) → take {A = ℕ} (length value) [] ≡ []
take_of_nil [] = refl
take_of_nil (v ∷ vs) = refl

Occurs-nil : {value : List ℕ} → Occurs value [] 0 → same_bytes value [] ≡ true
Occurs-nil {value} h =
    let empty : [] ≡ value = sym (take_of_nil value) ∙ h in
    subst (λ v. same_bytes v [] ≡ true) empty (same_bytes_refl [])

none_before : (value bytes : List ℕ) (j : ℕ) → j < 0 → Occurs value bytes j → ⊥
none_before value bytes j h o = omega arith

First-later :
    (value bytes : List ℕ) (b k : ℕ)
    → same_bytes (take (length value) (b ∷ bytes)) value ≡ false
    → First value bytes k
    → (j : ℕ) → j < suc k
    → Occurs value (b ∷ bytes) j
    → ⊥
First-later value bytes b k not_here later zero h o = not_same not_here o
First-later value bytes b k not_here later (suc j) h o = later.first j (omega arith) o

-- The place that the search gives, counted from where it starts.
find-First :
    (value bytes : List ℕ) (i p : ℕ)
    → find value bytes i ≡ some p
    → (k : ℕ) × (p ≡ i + k) × First value bytes k
unfolding find
find-First value [] i p e = elim (Bool-cases (same_bytes value [])) [
  | inl here ↦ (
    0,
    (let e' = rw here at e in ground arith),
    record {
      inside = omega arith;
      occurs = take_of_nil value ∙ sym (same_bytes→eq value [] here);
      first = none_before _ _;
    },
  )
  | inr not_here ↦ let e' = rw not_here at e in cc
]
find-First value (b ∷ bytes) i p e =
    elim (Bool-cases (same_bytes (take (length value) (b ∷ bytes)) value)) [
      | inl here ↦ (
        0,
        (let e' = rw here at e in ground arith),
        record { inside = omega arith; occurs = same_bytes→eq _ _ here; first = none_before _ _ },
      )
      | inr not_here ↦
          let (k, q, later) = find-First value bytes (suc i) p (rw not_here at e) in
          (
            suc k,
            omega arith,
            record {
              inside = (let le = later.inside in omega arith);
              occurs = later.occurs;
              first = First-later _ _ b k not_here later;
            },
          )
    ]

find-absent :
    (value bytes : List ℕ) (i k : ℕ)
    → find value bytes i ≡ none
    → k ≤ length bytes
    → Occurs value bytes k
    → ⊥
unfolding find
find-absent value [] i zero e le h = let e' = rw (Occurs-nil h) at e in cc
find-absent value [] i (suc k) e le h = omega arith
find-absent value (b ∷ bytes) i zero e le h =
    let here = subst (λ zs. same_bytes zs value ≡ true) (sym h) (same_bytes_refl value) in
    let e' = rw here at e in cc
find-absent value (b ∷ bytes) i (suc k) e le h =
    elim (Bool-cases (same_bytes (take (length value) (b ∷ bytes)) value)) [
      | inl here ↦ let e' = rw here at e in cc
      | inr not_here ↦ find-absent value bytes (suc i) k (rw not_here at e) (omega arith) h
    ]

drop_of_nil : (n : ℕ) → drop {A = ℕ} n [] ≡ []
drop_of_nil zero = refl
drop_of_nil (suc n) = refl

drop-drop : (m n : ℕ) (xs : List ℕ) → drop m (drop n xs) ≡ drop (n + m) xs
drop-drop m zero xs = let q : 0 + m ≡ m = omega arith in rw q refl
drop-drop m (suc n) [] = drop_of_nil m ∙ sym (drop_of_nil (suc n + m))
drop-drop m (suc n) (x ∷ xs) =
    let q : suc n + m ≡ suc (n + m) = omega arith in rw q (drop-drop m n xs)

-- Nothing stands behind a place from which nothing is found.
find_after-absent :
    (value bytes : List ℕ) (from j : ℕ)
    → find_after value bytes from ≡ none
    → from ≤ j
    → j ≤ length bytes
    → Occurs value bytes j
    → ⊥
unfolding find_after
find_after-absent value bytes from j e after inside h =
    let searched = rw (le→leb from (length bytes) (omega arith)) at e in
    let there : from + (j - from) ≡ j = omega arith in
    find-absent value (drop from bytes) from (j - from) searched
      (omega (arith, length-drop from bytes)) (rw (drop-drop (j - from) from bytes, there) h)

-- The first place is the only one, if there is no second.
find_after-only :
    (value bytes : List ℕ) (first : ℕ)
    → find_after value bytes 0 ≡ some first
    → find_after value bytes (suc first) ≡ none
    → Occurs value bytes first × ((j : ℕ) → j ≤ length bytes → Occurs value bytes j → j ≡ first)
unfolding find_after
find_after-only value bytes first e none_later =
    let e' = rw (le→leb 0 (length bytes) (omega arith)) at e in
    let (k, q, f) = find-First value bytes 0 first e' in
    let same : first ≡ k = omega arith in
    (
      rw same f.occurs,
      λ j inside h. elim (compared j first) [
        | inl less ↦ absurd (f.first j (omega arith) h)
        | inr (inl equal) ↦ equal
        | inr (inr more) ↦
            absurd (find_after-absent value bytes (suc first) j none_later more inside h)
      ],
    )

-- `value` stands in `bytes` at the place `off`, and nowhere else.
abbrev pub OnlyAt : List ℕ → List ℕ → ℤ → Type 0
OnlyAt value bytes off =
    (k : ℕ) × (off ≡ pos k)
    × (Occurs value bytes k)
    × ((j : ℕ) → j ≤ length bytes → Occurs value bytes j → j ≡ k)

only-OnlyAt :
    (there idx off : ℤ) (value bytes : List ℕ) (first : ℕ) (second : Option ℕ)
    → find_after value bytes 0 ≡ some first
    → find_after value bytes (suc first) ≡ second
    → only there first second ≡ ok (idx, off)
    → (there ≡ idx) × OnlyAt value bytes off
unfolding only
only-OnlyAt there idx off value bytes first none e e2 h =
    let (occurs, alone) = find_after-only value bytes first e e2 in
    (ground arith, (first, ground arith, occurs, alone))
only-OnlyAt there idx off value bytes first (some _) e e2 h = cc

search_in-OnlyAt :
    (there idx off : ℤ) (value bytes : List ℕ) (first : Option ℕ)
    → find_after value bytes 0 ≡ first
    → search_in there value bytes first ≡ ok (idx, off)
    → (there ≡ idx) × OnlyAt value bytes off
unfolding search_in
search_in-OnlyAt there idx off value bytes none e h = cc
search_in-OnlyAt there idx off value bytes (some first) e h =
    only-OnlyAt there idx off value bytes first _ e refl h

offset_in-OnlyAt :
    (idx off : ℤ) (value : List ℕ) (there : ℤ × Option (List ℕ))
    → offset_in none value there ≡ ok (idx, off)
    → (bytes : List ℕ) × (there ≡ (idx, some bytes)) × OnlyAt value bytes off
unfolding offset_in
offset_in-OnlyAt idx off value (there, none) h = cc
offset_in-OnlyAt idx off value (there, some bytes) h =
    let (same, at) = search_in-OnlyAt there idx off value bytes _ refl h in
    (bytes, ap (λ z. (z, some bytes)) same, at)

-- A reference without an explicit offset that is resolved names an instruction whose data holds the
-- component at the offset given, and nowhere else.
pub resolve_ref-OnlyAt :
    (r : Ref) (value : List ℕ) (ixs : Option (List Object)) (idx off : ℤ)
    → r.offset ≡ none
    → resolve_ref r value ixs ≡ ok (idx, off)
    → (bytes : List ℕ) × (locate r.target r.index ixs ≡ ok (idx, some bytes))
      × OnlyAt value bytes off
unfolding resolve_ref
resolve_ref-OnlyAt r value ixs idx off implicit e =
    let (there, e1, located) = first_returned _ (locate r.target r.index ixs) (idx, off) e in
    let (bytes, same, alone) = offset_in-OnlyAt idx off value there (rw implicit at e1) in
    (bytes, located ∙ ap ok same, alone)

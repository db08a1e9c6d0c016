-- ===== src/Codec/EnumTags.antt =====
-- The tags of a data-carrying enum (_codec/carriers.py).
use wake_sol.Prelude.{
  ℕ, zero, suc, ◌+◌, ◌≤◌, ◌<◌, ◌≡◌, refl, ap, false, Option, none, some, List, [], ◌∷◌, length,
  get_elem?, ltb, ◌==◌, All, arith, Bool-cases, inl, inr, ltb_not,
}
use wake_sol.Prelude.Int.{pos, negsuc}
use wake_sol.Prelude.Assoc.{by_number}
use wake_sol.Codec.Result.{Result, ok, err, out_of_fuel, type_error, first_returned}
use wake_sol.Codec.Value.{ClassId}
use wake_sol.Codec.Carriers.{
  VariantTag, unset, int, no_int, Member, Variant, variants_of, default_tag, with_defaults, u8_tag,
  add_tag, u8_tags, has_tag, duplicate_tags, refuse_duplicates, check_variants, new_enum,
}

-- The tag that a class is meant to have as number `i`: its own, or `i`.
abbrev pub Tagged : ℕ → VariantTag → ℕ → Type 0
Tagged i unset n = n ≡ i
Tagged i (int z) n = z ≡ pos n
Tagged i no_int n = ⊥

-- The classes with their tags, in order of declaration from number `i`.
abbrev pub TaggedFrom : ℕ → List Variant → List (ℕ × ClassId) → Type 0
TaggedFrom i [] [] = Unit {0}
TaggedFrom i [] (t ∷ tags) = ⊥
TaggedFrom i (v ∷ vs) [] = ⊥
TaggedFrom i ((c, tag) ∷ vs) ((n, d) ∷ tags) =
    ((c ≡ d) × Tagged i tag n × (n < 256)) × TaggedFrom (i + 1) vs tags

-- Every entry is found by its tag.
abbrev FoundByTag : List (ℕ × ClassId) → Type 0
FoundByTag tags =
    (i : ℕ) (n : ℕ) (c : ClassId) → get_elem? tags i ≡ some (n, c) → by_number n tags ≡ some c

Tagged-default_tag :
    (i n : ℕ) (tag : VariantTag) → u8_tag (default_tag i tag) ≡ some n → Tagged i tag n × (n < 256)
unfolding u8_tag default_tag
Tagged-default_tag i n unset h = ground arith
Tagged-default_tag i n (int (pos m)) h = ground arith
Tagged-default_tag i n (int (negsuc m)) h = cc
Tagged-default_tag i n no_int h = cc

add_tag_ok :
    (o : Option ℕ) (c : ClassId) (rest : Result (List (ℕ × ClassId))) (tags : List (ℕ × ClassId))
    → add_tag o c rest ≡ ok tags
    → (n : ℕ) × (ts : List (ℕ × ClassId)) × (o ≡ some n) × (rest ≡ ok ts) × (tags ≡ (n, c) ∷ ts)
unfolding add_tag
add_tag_ok none c rest tags h = cc
add_tag_ok (some n) c (ok ts) tags h = (n, ts, refl, refl, cc)
add_tag_ok (some n) c (err e) tags h = cc
add_tag_ok (some n) c out_of_fuel tags h = cc

u8_tags-TaggedFrom :
    (i : ℕ) (vs : List Variant) (tags : List (ℕ × ClassId))
    → u8_tags (with_defaults i vs) ≡ ok tags
    → TaggedFrom i vs tags
unfolding u8_tags with_defaults
u8_tags-TaggedFrom i [] [] h = tt
u8_tags-TaggedFrom i [] (t ∷ tags) h = cc
u8_tags-TaggedFrom i ((c, tag) ∷ vs) tags h =
    let (n, ts, q, r, e) =
      add_tag_ok (u8_tag (default_tag i tag)) c (u8_tags (with_defaults (i + 1) vs)) tags h in
    let (t, small) = Tagged-default_tag i n tag q in
    rw e ((refl, t, small), u8_tags-TaggedFrom (i + 1) vs ts r)

abbrev entry_or : ℕ × ClassId → Option (ℕ × ClassId) → ℕ × ClassId
entry_or p none = p
entry_or p (some q) = q

has_tag_absent :
    (n m : ℕ) (c : ClassId) (i : ℕ) (tags : List (ℕ × ClassId))
    → has_tag n tags ≡ false
    → get_elem? tags i ≡ some (m, c)
    → (n == m) ≡ false
unfolding has_tag
has_tag_absent n m c i [] h e = cc
has_tag_absent n m c zero ((k, d) ∷ tags) h e =
    let q : k ≡ m = ap (λ (o : Option (ℕ × ClassId)). (entry_or (k, d) o).0) e in ground arith
has_tag_absent n m c (suc i) ((k, d) ∷ tags) h e = has_tag_absent n m c i tags (ground arith) e

distinct-FoundByTag : (tags : List (ℕ × ClassId)) → duplicate_tags tags ≡ false → FoundByTag tags
unfolding duplicate_tags by_number
distinct-FoundByTag [] h i n c e = cc
distinct-FoundByTag ((k, d) ∷ tags) h zero n c e =
    let q : k ≡ n = ap (λ (o : Option (ℕ × ClassId)). (entry_or (k, d) o).0) e in
    let r : d ≡ c = ap (λ (o : Option (ℕ × ClassId)). (entry_or (k, d) o).1) e in ground arith
distinct-FoundByTag ((k, d) ∷ tags) h (suc i) n c e =
    let no_dup : has_tag k tags ≡ false = ground arith in
    let differs = has_tag_absent k n c i tags no_dup e in
    rw differs (distinct-FoundByTag tags (ground arith) i n c e)

refuse_duplicates_ok :
    (tags tags' : List (ℕ × ClassId))
    → refuse_duplicates tags ≡ ok tags'
    → (tags ≡ tags') × (duplicate_tags tags ≡ false)
unfolding refuse_duplicates
refuse_duplicates_ok tags tags' h = elim (Bool-cases (duplicate_tags tags)) [
  | inl twice ↦ (let bad : err type_error ≡ ok tags' = rw twice at h in absurd (not_ok bad))
  | inr once ↦ (let e : ok tags ≡ ok tags' = rw once at h in (cc, once))
]
  where
    not_ok :
        {t : List (ℕ × ClassId)} → ◌≡◌ {A = Result (List (ℕ × ClassId))} (err type_error) (ok t) → ⊥
    not_ok h = cc

All-get_elem :
    (xs : List (ℕ × ClassId)) (P : ℕ × ClassId → Type 0)
    → ((i : ℕ) (x : ℕ × ClassId) → get_elem? xs i ≡ some x → P x)
    → All P xs
All-get_elem [] P h = tt
All-get_elem (x ∷ xs) P h = (h 0 x refl, All-get_elem xs P (λ i y e. h (suc i) y e))

-- If the class is made there are at most 256 variants, each with the tag that it was given or else its
-- number in the order of declaration, a u8; and the map by tags has each variant under its own tag.
pub new_enum-TaggedFrom :
    (ns : List Member) (tags : List (ℕ × ClassId))
    → new_enum ns ≡ ok tags
    → (length (with_defaults 0 (variants_of ns)) ≤ 256)
      × TaggedFrom 0 (variants_of ns) tags
      × All (λ (t : ℕ × ClassId). by_number t.0 tags ≡ some t.1) tags
unfolding new_enum check_variants
new_enum-TaggedFrom ns tags h =
    let vs = with_defaults 0 (variants_of ns) in
    elim (Bool-cases (ltb 256 (length vs))) [
      | inl many ↦ (let bad : err type_error ≡ ok tags = rw many at h in absurd (not_ok bad))
      | inr few ↦
          let checked : check_variants vs ≡ ok tags = rw few at h in
          let (ts, r, u) =
            first_returned {A = List (ℕ × ClassId)} refuse_duplicates (u8_tags vs) tags checked in
          let (e, once) = refuse_duplicates_ok ts tags r in
          (
            ltb_not 256 (length vs) few,
            rw (← e) (u8_tags-TaggedFrom 0 (variants_of ns) ts u),
            rw (← e) (
                All-get_elem ts (λ t. by_number t.0 ts ≡ some t.1)
                  (λ i t. distinct-FoundByTag ts once i t.0 t.1)),
          )
    ]
  where
    not_ok :
        {t : List (ℕ × ClassId)} → ◌≡◌ {A = Result (List (ℕ × ClassId))} (err type_error) (ok t) → ⊥
    not_ok h = cc

-- ===== src/Codec/Carriers.antt =====
-- `variant` and `BorshEnumMeta.__new__` of _codec/carriers.py.
use wake_sol.Prelude.{
  ℕ, ◌+◌, Bool, false, ◌||◌, Option, none, some, List, [], ◌∷◌, length, ltb, leb, ◌==◌,
  if◌then◌else◌,
}
use wake_sol.Prelude.Int.{ℤ, pos, negsuc}
use wake_sol.Codec.Result.{Result, ok, err, type_error, ◌>>=◌}
use wake_sol.Codec.Value.{ClassId}

-- `__variant_tag__`: what `variant` was called with. A `bool` is an int.
pub data VariantTag : Type 0 where
  unset : VariantTag
  int : ℤ → VariantTag
  no_int : VariantTag

-- A value of the class's namespace: a class that `variant` has marked, or anything else.
pub data Member : Type 0 where
  variant : ClassId → VariantTag → Member
  other_member : Member

-- A marked class with its tag.
abbrev pub Variant : Type 0
Variant = ClassId × VariantTag

unfoldable pub variants_of : List Member → List Variant
variants_of [] = []
variants_of (variant c tag ∷ ns) = (c, tag) ∷ variants_of ns
variants_of (other_member ∷ ns) = variants_of ns

unfoldable pub default_tag : ℕ → VariantTag → VariantTag
default_tag i unset = int (pos i)
default_tag i (int z) = int z
default_tag i no_int = no_int

-- The loop over `enumerate(vs)`, from `i`.
unfoldable pub with_defaults : ℕ → List Variant → List Variant
with_defaults i [] = []
with_defaults i ((c, tag) ∷ vs) = (c, default_tag i tag) ∷ with_defaults (i + 1) vs

unfoldable pub u8_tag : VariantTag → Option ℕ
u8_tag unset = none
u8_tag (int (pos n)) = if leb n 255 then some n else none
u8_tag (int (negsuc n)) = none
u8_tag no_int = none

-- The tags as numbers, if each of them is a u8.
unfoldable pub add_tag :
    Option ℕ → ClassId → Result (List (ℕ × ClassId)) → Result (List (ℕ × ClassId))
add_tag none c rest = err type_error
add_tag (some n) c rest = do tags ← rest; ok ((n, c) ∷ tags)

unfoldable pub u8_tags : List Variant → Result (List (ℕ × ClassId))
u8_tags [] = ok []
u8_tags ((c, tag) ∷ vs) = add_tag (u8_tag tag) c (u8_tags vs)

unfoldable pub has_tag : ℕ → List (ℕ × ClassId) → Bool
has_tag n [] = false
has_tag n ((m, c) ∷ tags) = m == n || has_tag n tags

unfoldable pub duplicate_tags : List (ℕ × ClassId) → Bool
duplicate_tags [] = false
duplicate_tags ((n, c) ∷ tags) = has_tag n tags || duplicate_tags tags

unfoldable pub refuse_duplicates : List (ℕ × ClassId) → Result (List (ℕ × ClassId))
refuse_duplicates tags = if duplicate_tags tags then err type_error else ok tags

unfoldable pub check_variants : List Variant → Result (List (ℕ × ClassId))
check_variants vs = do tags ← u8_tags vs; refuse_duplicates tags

-- `__variants_by_tag__` of a class with that namespace; `__variants__` are its values.
unfoldable pub new_enum : List Member → Result (List (ℕ × ClassId))
new_enum ns =
    let vs = with_defaults 0 (variants_of ns) in
    if ltb 256 (length vs) then err type_error else check_variants vs

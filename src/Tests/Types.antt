-- ===== src/Tests/Types.antt =====
-- The theorems on _codec/aliases.py and _codec/carriers.py at concrete inputs.
use wake_sol.Prelude.{ℕ, ◌≤◌, ◌≡◌, refl, ◌↔◌, true, List, [], ◌∷◌, some, length, All}
use wake_sol.Prelude.Int.{pos, negsuc}
use wake_sol.Prelude.Assoc.{by_number}
use wake_sol.Codec.Result.{ok}
use wake_sol.Codec.Value.{ClassId}
use wake_sol.Codec.Bytes.{int_to_bytes}
use wake_sol.Codec.Aliases.{i16, int_spec, new_int}
use wake_sol.Codec.AliasRange.{new_int-int_to_bytes}
use wake_sol.Codec.Carriers.{
  Member, variant, other_member, unset, int, variants_of, default_tag, with_defaults, u8_tag,
  add_tag, u8_tags, has_tag, duplicate_tags, refuse_duplicates, check_variants, new_enum,
}
use wake_sol.Codec.EnumTags.{TaggedFrom, new_enum-TaggedFrom}

spec_of_i16 : int_spec i16 ≡ some (2, true)
unfolding int_spec
spec_of_i16 = refl

new_int-int_to_bytes_example :
    (new_int i16 (negsuc 32767) ≡ ok (negsuc 32767))
    ↔ ((bs : List ℕ) × (int_to_bytes 2 true (negsuc 32767) ≡ some bs))
new_int-int_to_bytes_example = new_int-int_to_bytes i16 2 true (negsuc 32767) spec_of_i16

-- A docstring, a variant without a tag, and one with a tag of its own.
abbrev namespace : List Member
namespace = other_member ∷ variant 11 unset ∷ variant 12 (int (pos 7)) ∷ []

abbrev tags : List (ℕ × ClassId)
tags = (0, 11) ∷ (7, 12) ∷ []

enum_made : new_enum namespace ≡ ok tags
unfolding new_enum variants_of with_defaults default_tag check_variants u8_tags u8_tag add_tag
    refuse_duplicates duplicate_tags has_tag
enum_made = refl

new_enum-TaggedFrom_example :
    (length (with_defaults 0 (variants_of namespace)) ≤ 256)
    × TaggedFrom 0 (variants_of namespace) tags
    × All (λ (t : ℕ × ClassId). by_number t.0 tags ≡ some t.1) tags
new_enum-TaggedFrom_example = new_enum-TaggedFrom namespace tags enum_made

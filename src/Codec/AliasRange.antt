-- ===== src/Codec/AliasRange.antt =====
-- An alias takes what its node writes (_codec/aliases.py and _codec/ir.py).
use wake_sol.Prelude.{
  ℕ, ◌-◌, ◌^◌, ◌/◌, ◌<◌, ◌≡◌, refl, ap, ◌∙◌, ◌↔◌, Bool, true, false, Option, none, some, List,
  arith,
}
use wake_sol.Prelude.Int.{ℤ, pos, negsuc}
use wake_sol.Codec.Result.{ok, err, value_error}
use wake_sol.Codec.Bytes.{int_to_bytes}
use wake_sol.Codec.Aliases.{
  IntAlias, u8, u16, u32, u64, u128, u256, i8, i16, i32, i64, i128, i256, char, bits, signed, least,
  greatest, le_int, within, new_int, int_spec,
}

is_some : Option (List ℕ) → Bool
is_some none = false
is_some (some bs) = true

within-int_to_bytes :
    (b n m h : ℕ) (s : Bool) (v : ℤ)
    → 2 ^ b ≡ m
    → 256 ^ n ≡ m
    → 2 ^ (b - 1) ≡ h
    → 256 ^ n / 2 ≡ h
    → 0 < m
    → 0 < h
    → within b s v ≡ is_some (int_to_bytes n s v)
unfolding within least greatest le_int int_to_bytes is_some
within-int_to_bytes b n m h true (pos v) e f g k p q = rw (g, k) (ground arith)
within-int_to_bytes b n m h true (negsuc v) e f g k p q = rw (g, k) (ground arith)
within-int_to_bytes b n m h false (pos v) e f g k p q = rw (e, f) (ground arith)
within-int_to_bytes b n m h false (negsuc v) e f g k p q = refl

value_of : Option (ℕ × Bool) → ℕ × Bool
value_of none = (0, false)
value_of (some p) = p

int_spec_at :
    (b n' n : ℕ) (s' s : Bool) (v : ℤ)
    → ◌≡◌ {A = Option (ℕ × Bool)} (some (n', s')) (some (n, s))
    → within b s' v ≡ is_some (int_to_bytes n' s' v)
    → within b s' v ≡ is_some (int_to_bytes n s v)
unfolding value_of
int_spec_at b n' n s' s v e h =
    h ∙ ap (λ (o : Option (ℕ × Bool)). is_some (int_to_bytes (value_of o).0 (value_of o).1 v)) e

within_spec :
    (a : IntAlias) (n : ℕ) (s : Bool) (v : ℤ)
    → int_spec a ≡ some (n, s)
    → within (bits a) (signed a) v ≡ is_some (int_to_bytes n s v)
unfolding int_spec bits signed
within_spec u8 n s v e = int_spec_at 8 1 n false s v e (
    within-int_to_bytes 8 1 (2 ^ 8) (2 ^ 7) false v refl refl refl refl (omega arith) (omega arith))
within_spec u16 n s v e = int_spec_at 16 2 n false s v e (
    within-int_to_bytes 16 2 (2 ^ 16) (2 ^ 15) false v refl refl refl refl (omega arith)
      (omega arith))
within_spec u32 n s v e = int_spec_at 32 4 n false s v e (
    within-int_to_bytes 32 4 (2 ^ 32) (2 ^ 31) false v refl refl refl refl (omega arith)
      (omega arith))
within_spec u64 n s v e = int_spec_at 64 8 n false s v e (
    within-int_to_bytes 64 8 (2 ^ 64) (2 ^ 63) false v refl refl refl refl (omega arith)
      (omega arith))
within_spec u128 n s v e = int_spec_at 128 16 n false s v e (
    within-int_to_bytes 128 16 (2 ^ 128) (2 ^ 127) false v refl refl refl refl (omega arith)
      (omega arith))
within_spec u256 n s v e = int_spec_at 256 32 n false s v e (
    within-int_to_bytes 256 32 (2 ^ 256) (2 ^ 255) false v refl refl refl refl (omega arith)
      (omega arith))
within_spec i8 n s v e =
    int_spec_at 8 1 n true s v e (
      within-int_to_bytes 8 1 (2 ^ 8) (2 ^ 7) true v refl refl refl refl (omega arith)
        (omega arith))
within_spec i16 n s v e = int_spec_at 16 2 n true s v e (
    within-int_to_bytes 16 2 (2 ^ 16) (2 ^ 15) true v refl refl refl refl (omega arith)
      (omega arith))
within_spec i32 n s v e = int_spec_at 32 4 n true s v e (
    within-int_to_bytes 32 4 (2 ^ 32) (2 ^ 31) true v refl refl refl refl (omega arith)
      (omega arith))
within_spec i64 n s v e = int_spec_at 64 8 n true s v e (
    within-int_to_bytes 64 8 (2 ^ 64) (2 ^ 63) true v refl refl refl refl (omega arith)
      (omega arith))
within_spec i128 n s v e = int_spec_at 128 16 n true s v e (
    within-int_to_bytes 128 16 (2 ^ 128) (2 ^ 127) true v refl refl refl refl (omega arith)
      (omega arith))
within_spec i256 n s v e = int_spec_at 256 32 n true s v e (
    within-int_to_bytes 256 32 (2 ^ 256) (2 ^ 255) true v refl refl refl refl (omega arith)
      (omega arith))
within_spec char n s v e = cc

range_of :
    (a : IntAlias) (v : ℤ) (o : Option (List ℕ))
    → within (bits a) (signed a) v ≡ is_some o
    → (new_int a v ≡ ok v) ↔ ((bs : List ℕ) × (o ≡ some bs))
unfolding new_int is_some
range_of a v none w = ((λ h. (let bad : err value_error ≡ ok v = rw w at h in cc)), λ h. cc)
range_of a v (some bs) w = ((λ h. (bs, refl)), λ h. rw w refl)

-- An alias that the codec knows takes exactly the ints that its node writes.
pub new_int-int_to_bytes :
    (a : IntAlias) (n : ℕ) (s : Bool) (v : ℤ)
    → int_spec a ≡ some (n, s)
    → (new_int a v ≡ ok v) ↔ ((bs : List ℕ) × (int_to_bytes n s v ≡ some bs))
new_int-int_to_bytes a n s v e = range_of a v (int_to_bytes n s v) (within_spec a n s v e)

-- ===== src/Codec/Bytes.antt =====
-- `int.to_bytes` and `int.from_bytes`, little-endian, as the integer nodes of _codec/ir.py call them.
use wake_sol.Prelude.{
  ℕ, zero, suc, ◌+◌, ◌-◌, ◌*◌, ◌/◌, ◌%◌, ◌^◌, ◌<◌, ◌≡◌, refl, Bool, true, false, Option, none, some,
  List, [], ◌∷◌, arith, ltb, if◌then◌else◌, length, All,
}
use wake_sol.Prelude.Int.{ℤ, pos, negsuc}
use native.Mathlib.Nat.{pow-suc}

abbrev pub IsByte : ℕ → Type 0
IsByte b = b < 256

-- The `n` lowest digits of `v` in base 256, lowest first.
unfoldable pub le_bytes : ℕ → ℕ → List ℕ
le_bytes zero v = []
le_bytes (suc n) v = (v % 256) ∷ le_bytes n (v / 256)

unfoldable pub from_le : List ℕ → ℕ
from_le [] = 0
from_le (b ∷ bs) = b + 256 * from_le bs

-- 256 ^ n, and half of it.
abbrev pub modulus : ℕ → ℕ
modulus n = 256 ^ n

abbrev pub half_modulus : ℕ → ℕ
half_modulus n = modulus n / 2

-- `value.to_bytes(n, "little", signed=signed)`; `none` is an OverflowError.
unfoldable pub int_to_bytes : ℕ → Bool → ℤ → Option (List ℕ)
int_to_bytes n true (pos v) = if ltb v (half_modulus n) then some (le_bytes n v) else none
int_to_bytes n false (pos v) = if ltb v (modulus n) then some (le_bytes n v) else none
int_to_bytes n true (negsuc m) =
    if ltb m (half_modulus n) then some (le_bytes n (modulus n - (m + 1))) else none
int_to_bytes n false (negsuc m) = none

-- `int.from_bytes(bs, "little", signed=signed)`
unfoldable pub int_from_bytes : List ℕ → Bool → ℤ
int_from_bytes bs true =
    let u = from_le bs in
    let m = modulus (length bs) in if ltb u (m / 2) then pos u else negsuc (m - u - 1)
int_from_bytes bs false = pos (from_le bs)

pub length-le_bytes : (n v : ℕ) → length (le_bytes n v) ≡ n
unfolding le_bytes
length-le_bytes zero v = refl
length-le_bytes (suc n) v = omega (arith, length-le_bytes n (v / 256))

pub le_bytes-IsByte : (n v : ℕ) → All IsByte (le_bytes n v)
unfolding le_bytes
le_bytes-IsByte zero v = tt
le_bytes-IsByte (suc n) v = (omega arith, le_bytes-IsByte n (v / 256))

pub from_le-le_bytes : (n v : ℕ) → v < modulus n → from_le (le_bytes n v) ≡ v
unfolding le_bytes from_le
from_le-le_bytes zero v h = omega arith
from_le-le_bytes (suc n) v h =
    let p : 256 ^ suc n ≡ 256 * 256 ^ n = omega (arith, pow-suc 256 n) in
    omega (arith, from_le-le_bytes n (v / 256) (omega arith))

pub le_bytes-from_le : (bs : List ℕ) → All IsByte bs → le_bytes (length bs) (from_le bs) ≡ bs
unfolding le_bytes from_le
le_bytes-from_le [] h = refl
le_bytes-from_le (b ∷ bs) (hb, h) =
    let q : (b + 256 * from_le bs) / 256 ≡ from_le bs = omega arith in
    let r : (b + 256 * from_le bs) % 256 ≡ b = omega arith in rw (q, r, le_bytes-from_le bs h)

pub from_le-lt : (bs : List ℕ) → All IsByte bs → from_le bs < modulus (length bs)
unfolding from_le
from_le-lt [] h = omega arith
from_le-lt (b ∷ bs) (hb, h) = omega (arith, from_le-lt bs h, pow-suc 256 (length bs))

even_modulus : (n : ℕ) → 0 < n → 2 * half_modulus n ≡ modulus n
even_modulus zero h = absurd (omega arith)
even_modulus (suc n) h = omega (arith, pow-suc 256 n)

pub length-int_to_bytes :
    (n : ℕ) (signed : Bool) (z : ℤ) (bs : List ℕ)
    → int_to_bytes n signed z ≡ some bs
    → length bs ≡ n
unfolding int_to_bytes
length-int_to_bytes n true (pos v) bs e = ground (arith, length-le_bytes n v)
length-int_to_bytes n false (pos v) bs e = ground (arith, length-le_bytes n v)
length-int_to_bytes n true (negsuc m) bs e = ground (arith, length-le_bytes n (modulus n - (m + 1)))
length-int_to_bytes n false (negsuc m) bs e = cc

-- Every integer that a width accepts is read back, signed or not.
pub int_from_bytes-to_bytes :
    (n : ℕ) (signed : Bool) (z : ℤ) (bs : List ℕ)
    → 0 < n
    → int_to_bytes n signed z ≡ some bs
    → int_from_bytes bs signed ≡ z
unfolding int_to_bytes int_from_bytes
int_from_bytes-to_bytes n true (pos v) bs h e =
    ground (arith, length-le_bytes n v, from_le-le_bytes n v, even_modulus n)
int_from_bytes-to_bytes n false (pos v) bs h e = ground (arith, from_le-le_bytes n v)
int_from_bytes-to_bytes n true (negsuc m) bs h e = ground (
  arith,
  length-le_bytes n (modulus n - (m + 1)),
  from_le-le_bytes n (modulus n - (m + 1)),
  even_modulus n,
)
int_from_bytes-to_bytes n false (negsuc m) bs h e = cc

-- Every string of bytes is what its integer is written as.
pub int_to_bytes-from_bytes :
    (signed : Bool) (bs : List ℕ)
    → 0 < length bs
    → All IsByte bs
    → int_to_bytes (length bs) signed (int_from_bytes bs signed) ≡ some bs
unfolding int_to_bytes int_from_bytes
int_to_bytes-from_bytes true bs h hb =
    ground (arith, from_le-lt bs hb, le_bytes-from_le bs hb, even_modulus (length bs))
int_to_bytes-from_bytes false bs h hb = ground (arith, from_le-lt bs hb, le_bytes-from_le bs hb)

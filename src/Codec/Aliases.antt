-- ===== src/Codec/Aliases.antt =====
-- The width-carrying aliases of _codec/aliases.py.
use wake_sol.Prelude.{ℕ, ◌-◌, ◌^◌, Bool, true, false, ◌&&◌, Option, none, some, leb, if◌then◌else◌}
use wake_sol.Prelude.Int.{ℤ, pos, negsuc}
use wake_sol.Codec.Result.{Result, ok, err, value_error}

pub data IntAlias : Type 0 where
  u8 u16 u32 u64 u128 u256 i8 i16 i32 i64 i128 i256 char : IntAlias

pub data FloatAlias : Type 0 where
  f32 f64 : FloatAlias

-- `bits` and `signed`.
unfoldable pub bits : IntAlias → ℕ
bits u8 = 8
bits u16 = 16
bits u32 = 32
bits u64 = 64
bits u128 = 128
bits u256 = 256
bits i8 = 8
bits i16 = 16
bits i32 = 32
bits i64 = 64
bits i128 = 128
bits i256 = 256
bits char = 32

unfoldable pub signed : IntAlias → Bool
signed i8 = true
signed i16 = true
signed i32 = true
signed i64 = true
signed i128 = true
signed i256 = true
signed _ = false

-- `min` and `max`
unfoldable pub least : ℕ → Bool → ℤ
least bits true = negsuc (2 ^ (bits - 1) - 1)
least bits false = pos 0

unfoldable pub greatest : ℕ → Bool → ℤ
greatest bits true = pos (2 ^ (bits - 1) - 1)
greatest bits false = pos (2 ^ bits - 1)

unfoldable pub le_int : ℤ → ℤ → Bool
le_int (pos a) (pos b) = leb a b
le_int (pos a) (negsuc b) = false
le_int (negsuc a) (pos b) = true
le_int (negsuc a) (negsuc b) = leb b a

unfoldable pub within : ℕ → Bool → ℤ → Bool
unfolding least greatest le_int
within bits signed v = le_int (least bits signed) v && le_int v (greatest bits signed)

-- `_Int.__new__`; no alias has 0 bits.
unfoldable pub new_int : IntAlias → ℤ → Result ℤ
new_int a v = if within (bits a) (signed a) v then ok v else err value_error

unfoldable pub int_spec : IntAlias → Option (ℕ × Bool)
int_spec u8 = some (1, false)
int_spec u16 = some (2, false)
int_spec u32 = some (4, false)
int_spec u64 = some (8, false)
int_spec u128 = some (16, false)
int_spec u256 = some (32, false)
int_spec i8 = some (1, true)
int_spec i16 = some (2, true)
int_spec i32 = some (4, true)
int_spec i64 = some (8, true)
int_spec i128 = some (16, true)
int_spec i256 = some (32, true)
int_spec char = none

unfoldable pub float_spec : FloatAlias → Option ℕ
float_spec f32 = some 4
float_spec f64 = some 8

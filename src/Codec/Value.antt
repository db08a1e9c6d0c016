-- ===== src/Codec/Value.antt =====
-- The Python values that the codec is handed and returns, with the operations of the language that
-- it uses on them. Classes are numbered; `Opt` is the carrier of _codec/carriers.py.
use wake_sol.Prelude.{
  ℕ, ◌%◌, ◌^◌, Bool, true, false, ◌||◌, String, Option, none, some, List, [], ◌∷◌, ltb, ◌==◌,
  str_eq, if◌then◌else◌, replicate, suc,
}
use wake_sol.Prelude.Int.{ℤ, pos, negsuc}
use wake_sol.Codec.Result.{Result, ok, err, attribute_error, type_error, value_error, ◌>>=◌}

abbrev pub ClassId : Type 0
ClassId = ℕ

-- A `float` is its 64-bit pattern (IEEE 754 binary64), a `str` its code points, and a `pubkey` the
-- bytes of a native `Pubkey`. `object` is an instance of a dataclass with its attributes, `member`
-- a member of an IntEnum.
mutual
  pub data Value : Type 0 where
    null : Value
    bool : Bool → Value
    int : ℤ → Value
    float : ℕ → Value
    str : List ℕ → Value
    bytes : List ℕ → Value
    pubkey : List ℕ → Value
    opt : Value → Value
    list : Values → Value
    member : ClassId → ℤ → Value
    object : ClassId → Attrs → Value

  pub data Values : Type 0 where
    nil : Values
    cons : Value → Values → Values

  pub data Attrs : Type 0 where
    no_attrs : Attrs
    attr : String → Value → Attrs → Attrs

abbrev pub count : Values → ℕ
count nil = 0
count (cons v vs) = suc (count vs)

-- All exponent bits are set and the fraction is not 0.
unfoldable pub is_nan : ℕ → Bool
is_nan bits = ltb 0x7ff0000000000000 (bits % 2 ^ 63)

-- `value != value`: a NaN is, and so is an `Opt` around one, whose `__eq__` compares the values.
unfoldable pub differs_from_itself : Value → Bool
differs_from_itself (float bits) = is_nan bits
differs_from_itself (opt v) = differs_from_itself v
differs_from_itself _ = false

unfoldable pub find_attr : String → Attrs → Result Value
find_attr name no_attrs = err (attribute_error name)
find_attr name (attr k v rest) = if str_eq k name then ok v else find_attr name rest

-- `getattr(value, name)` for the attributes that instances carry.
unfoldable pub getattr : Value → String → Result Value
unfolding find_attr
getattr (object _ attrs) name = find_attr name attrs
getattr (member _ z) name = if str_eq name "value" then ok (int z) else err (attribute_error name)
getattr (opt v) name = if str_eq name "value" then ok v else err (attribute_error name)
getattr _ name = err (attribute_error name)

-- An `int`, which a member of an IntEnum and a `bool` are too.
unfoldable pub as_int : Value → Option ℤ
as_int (int z) = some z
as_int (member _ z) = some z
as_int (bool true) = some (pos 1)
as_int (bool false) = some (pos 0)
as_int _ = none

unfoldable pub int_is : ℕ → ℤ → Bool
int_is n (pos m) = m == n
int_is n (negsuc m) = false

-- `value == 1`, `value == 0`: numbers compare by value, also floats (and 0.0 has two patterns).
unfoldable pub equals_one : Value → Bool
unfolding int_is
equals_one (bool b) = b
equals_one (int z) = int_is 1 z
equals_one (member _ z) = int_is 1 z
equals_one (float bits) = bits == 0x3ff0000000000000
equals_one _ = false

unfoldable pub equals_zero : Value → Bool
unfolding int_is
equals_zero (bool true) = false
equals_zero (bool false) = true
equals_zero (int z) = int_is 0 z
equals_zero (member _ z) = int_is 0 z
equals_zero (float bits) = bits == 0 || bits == 2 ^ 63
equals_zero _ = false

unfoldable pub singletons : List ℕ → Values
singletons [] = nil
singletons (c ∷ cs) = cons (str (c ∷ [])) (singletons cs)

unfoldable pub ints : List ℕ → Values
ints [] = nil
ints (b ∷ bs) = cons (int (pos b)) (ints bs)

-- What `len(value)` counts and `for v in value` runs through.
unfoldable pub elements : Value → Result Values
unfolding singletons ints
elements (list vs) = ok vs
elements (bytes bs) = ok (ints bs)
elements (str cs) = ok (singletons cs)
elements _ = err type_error

unfoldable pub push_byte : Option ℤ → Result (List ℕ) → Result (List ℕ)
push_byte none rest = err type_error
push_byte (some (negsuc m)) rest = err value_error
push_byte (some (pos b)) rest = if ltb b 256 then (rest >>= λ bs. ok (b ∷ bs)) else err value_error

-- The bytes of a sequence of integers, each of which must be below 256.
unfoldable pub byte_values : Values → Result (List ℕ)
unfolding push_byte
byte_values nil = ok []
byte_values (cons v vs) = push_byte (as_int v) (byte_values vs)

unfoldable pub zeros : Option ℤ → Result (List ℕ)
zeros (some (pos n)) = ok (replicate n 0)
zeros (some (negsuc _)) = err value_error
zeros none = err type_error

-- `bytes(value)`: the bytes of a bytes-like or of a `Pubkey`, of a sequence of integers, and that
-- many zeros for a number.
unfoldable pub to_bytes : Value → Result (List ℕ)
unfolding byte_values zeros
to_bytes (bytes bs) = ok bs
to_bytes (pubkey bs) = ok bs
to_bytes (list vs) = byte_values vs
to_bytes v = zeros (as_int v)

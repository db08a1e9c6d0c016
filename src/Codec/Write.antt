-- ===== src/Codec/Write.antt =====
-- The `write` methods of the nodes of _codec/ir.py. The bytearray `out` is threaded through.
use wake_sol.Prelude.{
  ℕ, zero, suc, ◌+◌, ◌^◌, Bool, false, String, Option, none, some, List, [], ◌∷◌, ◌++◌, ◌==◌, ltb,
  if◌then◌else◌, length,
}
use wake_sol.Prelude.Int.{ℤ, pos, negsuc}
use wake_sol.Prelude.Assoc.{by_number}
use wake_sol.Codec.Result.{
  Result, ok, err, out_of_fuel, ◌>>=◌, borsh, type_error, value_error, overflow_error,
  unicode_error, struct_error, Fault, Breadcrumb, name, index, ◌/p◌, nan_float, expected_int,
  int_out_of_range, bool_value, expected_str, fixed_length, array_length, expected_opt,
  not_a_variant,
}
use wake_sol.Codec.Bytes.{le_bytes, int_to_bytes}
use wake_sol.Codec.Utf8.{encode_utf8}
use wake_sol.Codec.Value.{
  ClassId, Value, Values, nil, cons, null, object, count, differs_from_itself, getattr, as_int,
  equals_one, equals_zero, elements, to_bytes,
}
use wake_sol.Codec.Node.{
  Node, int, float, bool, str, bytes, pubkey, fixed_bytes, option, opt, vec, fixed_array, defined,
  Fields, Variants, Layout, struct, int_enum, borsh_enum, Env, layout,
}
use mathlib.Core.List.{reverse}

-- The bytearray after the call.
abbrev pub Writer : Type 0
Writer = List ℕ → Result (List ℕ)

-- `raise BorshError(fault, offset=len(out), path=path)`
abbrev pub refuse : Fault → Breadcrumb → Writer
refuse fault path out = err (borsh fault (length out) path)

abbrev pub append : List ℕ → Writer
append bs out = ok (out ++ bs)

unfoldable pub append_int : ℤ → ℕ → Option (List ℕ) → Breadcrumb → Writer
append_int z nbytes none path = refuse (int_out_of_range z nbytes) path
append_int z nbytes (some bs) path = append bs

-- A `bool` is no `int` here, though it is one for Python.
unfoldable pub write_int : ℕ → Bool → Value → Breadcrumb → Writer
unfolding append_int
write_int nbytes signed (Value.int z) path = append_int z nbytes (int_to_bytes nbytes signed z) path
write_int nbytes signed (Value.member _ z) path =
    append_int z nbytes (int_to_bytes nbytes signed z) path
write_int nbytes signed _ path = refuse expected_int path

unfoldable pub append_bits : ℕ → Option ℕ → Writer
append_bits nbytes none out = err overflow_error
append_bits nbytes (some bits) out = ok (out ++ le_bytes nbytes bits)

unfoldable pub pack_bits : Env → ℕ → ℕ → Writer
pack_bits env nbytes bits =
    if nbytes == 4 then append_bits 4 (env.narrow bits) else append_bits 8 (some bits)

-- An integer is converted to a float first.
unfoldable pub pack_number : Env → ℕ → Option ℤ → Writer
pack_number env nbytes none = λ _. err struct_error
pack_number env nbytes (some z) = elim (env.float_of_int z) [
  | none ↦ λ _. err overflow_error
  | some bits ↦ pack_bits env nbytes bits
]

-- `struct.pack("<f", value)` and `struct.pack("<d", value)`
unfoldable pub pack_float : Env → ℕ → Value → Writer
pack_float env nbytes (Value.float bits) = pack_bits env nbytes bits
pack_float env nbytes v = pack_number env nbytes (as_int v)

unfoldable pub write_float : Env → ℕ → Value → Breadcrumb → Writer
unfolding append_bits pack_bits pack_number pack_float
write_float env nbytes value path =
    if differs_from_itself value then refuse nan_float path else pack_float env nbytes value

unfoldable pub write_bool : Value → Breadcrumb → Writer
unfolding equals_one equals_zero
write_bool v path =
    if equals_one v
    then append (1 ∷ [])
    else if equals_zero v
    then append (0 ∷ [])
    else refuse bool_value path

-- `len(b).to_bytes(4, "little")`, where an OverflowError is not caught.
unfoldable pub write_len : ℕ → Writer
write_len n out = if ltb n (256 ^ 4) then ok (out ++ le_bytes 4 n) else err overflow_error

unfoldable pub write_prefixed : List ℕ → Writer
write_prefixed bs out = do out' ← write_len (length bs) out; ok (out' ++ bs)

unfoldable pub encoded_str : Option (List ℕ) → Writer
encoded_str none = λ _. err unicode_error
encoded_str (some bs) = write_prefixed bs

unfoldable pub write_str : Value → Breadcrumb → Writer
unfolding encoded_str
write_str (Value.str cs) path = encoded_str (encode_utf8 cs)
write_str _ path = refuse expected_str path

unfoldable pub write_bytes : Value → Writer
unfolding to_bytes
write_bytes v out = do bs ← to_bytes v; write_prefixed bs out

unfoldable pub write_fixed_bytes : ℕ → Value → Breadcrumb → Writer
unfolding to_bytes
write_fixed_bytes n v path out = do
  bs ← to_bytes v
  if length bs == n then append bs out else refuse (fixed_length (length bs) n) path out

unfoldable pub exactly_32 : List ℕ → Result (List ℕ)
exactly_32 bs = if length bs == 32 then ok bs else err value_error

unfoldable pub big_endian : Option (List ℕ) → Result (List ℕ)
big_endian none = err overflow_error
big_endian (some bs) = ok (reverse bs)

-- The native constructor tries to read a sequence of bytes, and has one error for any failure.
unfoldable pub byte_sequence : Result (List ℕ) → Result (List ℕ)
byte_sequence (ok bs) = exactly_32 bs
byte_sequence _ = err type_error

-- `Pubkey(value)`: another pubkey, a base58 text, a big-endian integer, or 32 bytes.
unfoldable pub to_pubkey : Env → Value → Result (List ℕ)
unfolding exactly_32 big_endian byte_sequence
to_pubkey env (Value.pubkey bs) = ok bs
to_pubkey env (Value.str cs) = env.from_base58 cs
to_pubkey env (Value.int z) = big_endian (int_to_bytes 32 false z)
to_pubkey env (Value.member _ z) = big_endian (int_to_bytes 32 false z)
to_pubkey env (Value.bool b) = big_endian (int_to_bytes 32 false (if b then pos 1 else pos 0))
to_pubkey env (Value.bytes bs) = exactly_32 bs
to_pubkey env (Value.list vs) = byte_sequence (to_bytes (Value.list vs))
to_pubkey env _ = err type_error

unfoldable pub write_pubkey : Env → Value → Writer
unfolding to_pubkey
write_pubkey env v out = do bs ← to_pubkey env v; ok (out ++ bs)

-- `for i, v in enumerate(value)` and the loops over the fields.
unfoldable pub write_items : (ℕ → Value → Writer) → ℕ → Values → Writer
write_items wr i nil out = ok out
write_items wr i (cons v vs) out = do out' ← wr i v out; write_items wr (i + 1) vs out'

unfoldable pub write_fields : (String → Node → Value → Writer) → Fields → Value → Writer
write_fields wr [] value out = ok out
write_fields wr ((k, node) ∷ fields) value out = do
  v ← getattr value k
  out' ← wr k node v out
  write_fields wr fields value out'

-- `int(value)`
unfoldable pub int_of : Env → Value → Result ℤ
int_of env v = elim (as_int v) [ none ↦ env.to_int v | some z ↦ ok z ]

-- `tag.to_bytes(1, "little")`
unfoldable pub write_tag : ℤ → Writer
write_tag (pos n) out = if ltb n 256 then ok (out ++ n ∷ []) else err overflow_error
write_tag (negsuc _) out = err overflow_error

-- `type(value)`, where it is a class that can be a variant.
unfoldable pub class_of : Value → Option ClassId
class_of (object c _) = some c
class_of _ = none

unfoldable pub entry_of :
    Env → Option ClassId → Variants → Option (ℕ × (ClassId × (ClassId × Fields)))
entry_of env none variants = none
entry_of env (some vcls) variants = elim (env.variant_tag vcls) [
  | none ↦ none
  | some tag ↦ elim (by_number tag variants) [ none ↦ none | some e ↦ some (tag, (vcls, e)) ]
]

unfoldable pub write_variant :
    (String → Node → Value → Writer)
    → ClassId
    → Option (ℕ × (ClassId × (ClassId × Fields)))
    → Value
    → Breadcrumb
    → Writer
write_variant wr c none value path = refuse (not_a_variant c) path
write_variant wr c (some (tag, (vcls, (expected, fields)))) value path =
    if expected == vcls
    then (λ out. do out' ← write_tag (pos tag) out; write_fields wr fields value out')
    else refuse (not_a_variant c) path

unfoldable pub write_layout :
    (Breadcrumb → Node → Value → Writer)
    → Env
    → ClassId
    → Option Layout
    → Value
    → Breadcrumb
    → Writer
unfolding int_of write_tag entry_of write_variant
write_layout wr env c none value path = λ _. err type_error
write_layout wr env c (some (struct fields)) value path =
    write_fields (λ k node. wr (path /p name k) node) fields value
write_layout wr env c (some (int_enum _)) value path =
    λ out. do z ← int_of env value; write_tag z out
write_layout wr env c (some (borsh_enum variants)) value path =
    write_variant (λ k node. wr (path /p name k) node) c (entry_of env (class_of value) variants)
      value path

unfoldable pub write_option : (Value → Writer) → Value → Writer
write_option wr null out = ok (out ++ 0 ∷ [])
write_option wr v out = wr v (out ++ 1 ∷ [])

unfoldable pub write_opt : (Value → Writer) → Value → Breadcrumb → Writer
write_opt wr null path out = ok (out ++ 0 ∷ [])
write_opt wr (Value.opt v) path out = wr v (out ++ 1 ∷ [])
write_opt wr _ path out = refuse expected_opt path out

-- `node.write(value, out, path)`
unfoldable pub write : Env → Node → ℕ → Value → Breadcrumb → Writer
unfolding write_option write_opt
write env (int nbytes signed) fuel value path = write_int nbytes signed value path
write env (float nbytes) fuel value path = write_float env nbytes value path
write env bool fuel value path = write_bool value path
write env str fuel value path = write_str value path
write env bytes fuel value path = write_bytes value
write env (fixed_bytes n) fuel value path = write_fixed_bytes n value path
write env pubkey fuel value path = write_pubkey env value
write env (option inner) zero value path = λ _. out_of_fuel
write env (option inner) (suc fuel) value path =
    write_option (λ v. write env inner fuel v path) value
write env (opt inner) zero value path = λ _. out_of_fuel
write env (opt inner) (suc fuel) value path =
    write_opt (λ v. write env inner fuel v path) value path
write env (vec elem) zero value path = λ _. out_of_fuel
write env (vec elem) (suc fuel) value path = λ out. do
  vs ← elements value
  out' ← write_len (count vs) out
  write_items (λ i v. write env elem fuel v (path /p index i)) 0 vs out'
write env (fixed_array _ elem n) zero value path = λ _. out_of_fuel
write env (fixed_array _ elem n) (suc fuel) value path = λ out. do
  vs ← elements value
  if count vs == n
      then write_items (λ i v. write env elem fuel v (path /p index i)) 0 vs out
      else refuse (array_length (count vs) n) path out
write env (defined c) zero value path = λ _. out_of_fuel
write env (defined c) (suc fuel) value path =
    write_layout (λ p node v. write env node fuel v p) env c (layout env c) value path

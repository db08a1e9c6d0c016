-- ===== src/Codec/Read.antt =====
-- The `read` methods of the nodes of _codec/ir.py.
use wake_sol.Prelude.{
  ℕ, zero, suc, ◌+◌, ◌/◌, Bool, false, ◌&&◌, ◌||◌, String, Option, none, some, List, [], ◌∷◌, ◌==◌,
  ltb, if◌then◌else◌,
}
use wake_sol.Prelude.Int.{pos}
use wake_sol.Prelude.Assoc.{by_number}
use wake_sol.Codec.Result.{
  ok, err, out_of_fuel, type_error, Breadcrumb, name, index, ◌/p◌, nan_float, bool_byte,
  length_exceeds_remaining, length_exceeds_buffer, invalid_utf8, option_tag, enum_tag, no_variant,
}
use wake_sol.Codec.Bytes.{from_le, int_from_bytes}
use wake_sol.Codec.Utf8.{decode_utf8}
use wake_sol.Codec.Value.{
  ClassId, Value, Values, nil, cons, Attrs, no_attrs, attr, null, list, member, object, is_nan,
}
use wake_sol.Codec.Node.{
  Node, int, float, bool, str, bytes, pubkey, fixed_bytes, option, opt, vec, fixed_array, defined,
  Fields, Layout, struct, int_enum, borsh_enum, Env, layout,
}
use wake_sol.Codec.Cursor.{Reader, remaining, ◌>>=◌, pure, raise, take, descend}
use wake_sol.Codec.MinSize.{min_wire_size}

-- `cur.take(1, path)[0]`
unfoldable pub take_byte : Breadcrumb → Reader ℕ
take_byte path = do bs ← take 1 path; pure (from_le bs)

unfoldable pub read_int : ℕ → Bool → Breadcrumb → Reader Value
read_int nbytes signed path = do bs ← take nbytes path; pure (Value.int (int_from_bytes bs signed))

-- `struct.unpack`: a binary32 is widened to the binary64 that a Python float is.
unfoldable pub unpack_float : Env → ℕ → List ℕ → ℕ
unpack_float env nbytes bs = if nbytes == 4 then env.widen (from_le bs) else from_le bs

unfoldable pub read_float : Env → ℕ → Breadcrumb → Reader Value
unfolding unpack_float
read_float env nbytes path = do
  bs ← take nbytes path
  let bits = unpack_float env nbytes bs
  if is_nan bits then raise nan_float nbytes path else pure (Value.float bits)

unfoldable pub read_bool : Breadcrumb → Reader Value
read_bool path = do
  b ← take_byte path
  if b == 0 || b == 1 then pure (Value.bool (b == 1)) else raise (bool_byte b) 1 path

unfoldable pub check_len : ℕ → ℕ → Breadcrumb → Reader ℕ
check_len n min_elem path cur =
    if ltb (remaining cur) n
    then raise (length_exceeds_remaining n (remaining cur)) 4 path cur
    else if ltb 0 min_elem && ltb (remaining cur / min_elem) n
    then raise (length_exceeds_buffer n (remaining cur) min_elem) 4 path cur
    else ok (n, cur)

-- `_read_seq_len`
unfoldable pub read_seq_len : ℕ → Breadcrumb → Reader ℕ
read_seq_len min_elem path = do bs ← take 4 path; check_len (from_le bs) min_elem path

unfoldable pub read_bytes : Breadcrumb → Reader Value
read_bytes path = do n ← read_seq_len 1 path; bs ← take n path; pure (Value.bytes bs)

unfoldable pub decoded_str : Option (List ℕ) → ℕ → Breadcrumb → Reader Value
decoded_str none n path = raise invalid_utf8 n path
decoded_str (some cs) n path = pure (Value.str cs)

unfoldable pub read_str : Breadcrumb → Reader Value
unfolding decoded_str
read_str path = do n ← read_seq_len 1 path; raw ← take n path; decoded_str (decode_utf8 raw) n path

unfoldable pub read_fixed_bytes : ℕ → Breadcrumb → Reader Value
read_fixed_bytes n path = do bs ← take n path; pure (Value.bytes bs)

unfoldable pub read_pubkey : Breadcrumb → Reader Value
read_pubkey path = do bs ← take 32 path; pure (Value.pubkey bs)

-- The comprehensions over `range(n)` and over the fields; `rd` reads one element.
unfoldable pub read_items : (ℕ → Reader Value) → ℕ → ℕ → Reader Values
read_items rd i zero = pure nil
read_items rd i (suc n) = do v ← rd i; vs ← read_items rd (i + 1) n; pure (cons v vs)

unfoldable pub read_fields : (String → Node → Reader Value) → Fields → Reader Attrs
read_fields rd [] = pure no_attrs
read_fields rd ((k, node) ∷ fields) = do
  v ← rd k node
  vs ← read_fields rd fields
  pure (attr k v vs)

-- What follows the tag of an Option.
unfoldable pub read_tagged : (Value → Value) → Reader Value → Breadcrumb → Reader Value
read_tagged wrap inner path = do
  tag ← take_byte path
  if tag == 0
      then pure null
      else if tag == 1
      then (do v ← inner; pure (wrap v))
      else raise (option_tag tag) 1 path

unfoldable pub contains : ℕ → List ℕ → Bool
contains t [] = false
contains t (m ∷ ms) = m == t || contains t ms

unfoldable pub read_member : ClassId → List ℕ → Breadcrumb → Reader Value
unfolding contains
read_member c members path = do
  tag ← take_byte path
  if contains tag members then pure (member c (pos tag)) else raise (enum_tag tag c) 1 path

unfoldable pub read_variant :
    (Breadcrumb → Node → Reader Value)
    → Env
    → ClassId
    → ℕ
    → Option (ClassId × Fields)
    → Breadcrumb
    → Reader Value
read_variant rd env c tag none path = raise (no_variant tag c) 1 path
read_variant rd env c tag (some (vcls, fields)) path = do
  values ← read_fields (λ _ node. rd (path /p name (env.class_name vcls)) node) fields
  pure (object vcls values)

-- The body under `descend` of the node of a defined type.
unfoldable pub read_layout :
    (Breadcrumb → Node → Reader Value) → Env → ClassId → Option Layout → Breadcrumb → Reader Value
unfolding read_variant
read_layout rd env c none path = λ _. err type_error
read_layout rd env c (some (struct fields)) path = do
  values ← read_fields (λ k node. rd (path /p name k) node) fields
  pure (object c values)
read_layout rd env c (some (int_enum members)) path = read_member c members path
read_layout rd env c (some (borsh_enum variants)) path = do
  tag ← take_byte path
  read_variant rd env c tag (by_number tag variants) path

-- `node.read(cur, path)`. Each composite node descends one level, and takes one unit of fuel.
unfoldable pub read : Env → Node → ℕ → Breadcrumb → Reader Value
read env (int nbytes signed) fuel path = read_int nbytes signed path
read env (float nbytes) fuel path = read_float env nbytes path
read env bool fuel path = read_bool path
read env str fuel path = read_str path
read env bytes fuel path = read_bytes path
read env (fixed_bytes n) fuel path = read_fixed_bytes n path
read env pubkey fuel path = read_pubkey path
read env (option inner) zero path = λ _. out_of_fuel
read env (option inner) (suc fuel) path =
    descend path (read_tagged (λ v. v) (read env inner fuel path) path)
read env (opt inner) zero path = λ _. out_of_fuel
read env (opt inner) (suc fuel) path =
    descend path (read_tagged Value.opt (read env inner fuel path) path)
read env (vec elem) zero path = λ _. out_of_fuel
read env (vec elem) (suc fuel) path = descend path do
  n ← read_seq_len (min_wire_size env elem) path
  vs ← read_items (λ i. read env elem fuel (path /p index i)) 0 n
  pure (list vs)
read env (fixed_array _ elem n) zero path = λ _. out_of_fuel
read env (fixed_array _ elem n) (suc fuel) path =
    descend path do vs ← read_items (λ i. read env elem fuel (path /p index i)) 0 n; pure (list vs)
read env (defined c) zero path = λ _. out_of_fuel
read env (defined c) (suc fuel) path =
    descend path (read_layout (λ p node. read env node fuel p) env c (layout env c) path)

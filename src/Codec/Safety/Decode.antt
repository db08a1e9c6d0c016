-- ===== src/Codec/Safety/Decode.antt =====
-- The readers of _codec/ir.py and `decode` of _codec/codec.py are safe.
use wake_sol.Prelude.{
  ℕ, zero, suc, ◌+◌, ◌<◌, ◌≡◌, ◌≢◌, length, Bool, String, Option, none, some, List, [], ◌∷◌, ◌/◌,
  ◌&&◌, inl, inr, arith, ltb, Bool-cases,
}
use wake_sol.Prelude.Assoc.{by_number}
use wake_sol.Codec.Result.{Result, ◌>>=◌, out_of_fuel, Breadcrumb, name, index, ◌/p◌}
use wake_sol.Codec.Value.{ClassId, Value, nil, cons, no_attrs, attr, list, object}
use wake_sol.Codec.Node.{
  Node, int, float, bool, str, bytes, pubkey, fixed_bytes, option, opt, vec, fixed_array, defined,
  Fields, Layout, struct, int_enum, borsh_enum, Env, layout,
}
use wake_sol.Codec.Cursor.{Cursor, cursor, Reader, remaining, max_decode_depth}
use wake_sol.Codec.MinSize.{node_size, class_size, min_wire_size}
use wake_sol.Codec.SizeFuel.{min_wire_size-fuel}
use wake_sol.Codec.Read.{
  take_byte, read_int, read_float, read_bool, read_str, read_bytes, read_fixed_bytes, read_pubkey,
  check_len, read_seq_len, decoded_str, read_items, read_fields, read_tagged, read_member,
  read_variant, read_layout, read,
}
use wake_sol.Codec.Entry.{Mode, ix_data, account_data, finish, decode, decode_fuel}
use wake_sol.Codec.Safety.Rules.{
  IsWithin, Advances, Advances-refl, Ends, returned, raised, IsSafe, IsSafe-pure, IsSafe-error,
  IsSafe-bind, IsSafe-descend, safe_rules,
}

module _ {fuel : ℕ} (path : Breadcrumb) where
  take_byte-IsSafe : IsSafe fuel (take_byte path)
  unfolding take_byte
  take_byte-IsSafe = search safe_rules

  read_int-IsSafe : (nbytes : ℕ) (signed : Bool) → IsSafe fuel (read_int nbytes signed path)
  unfolding read_int
  read_int-IsSafe nbytes signed = search safe_rules

  read_float-IsSafe : (env : Env) (nbytes : ℕ) → IsSafe fuel (read_float env nbytes path)
  unfolding read_float
  read_float-IsSafe env nbytes = search safe_rules

  read_bool-IsSafe : IsSafe fuel (read_bool path)
  unfolding read_bool
  read_bool-IsSafe = search (safe_rules, take_byte-IsSafe)

  check_len-IsSafe : (n min_elem : ℕ) → IsSafe fuel (check_len n min_elem path)
  unfolding check_len
  check_len-IsSafe n min_elem = record {
    at = λ cur w h. elim (Bool-cases (ltb (remaining cur) n)) [
      | inl long ↦ rw long raised
      | inr fits ↦ elim (Bool-cases (ltb 0 min_elem && ltb (remaining cur / min_elem) n)) [
        | inl long ↦ rw (fits, long) raised
        | inr short ↦ rw (fits, short) (returned (Advances-refl w))
      ]
    ];
  }

  read_seq_len-IsSafe : (min_elem : ℕ) → IsSafe fuel (read_seq_len min_elem path)
  unfolding read_seq_len
  read_seq_len-IsSafe min_elem = search (safe_rules, check_len-IsSafe)

  read_bytes-IsSafe : IsSafe fuel (read_bytes path)
  unfolding read_bytes
  read_bytes-IsSafe = search (safe_rules, read_seq_len-IsSafe)

  decoded_str-IsSafe : (text : Option (List ℕ)) (n : ℕ) → IsSafe fuel (decoded_str text n path)
  unfolding decoded_str
  decoded_str-IsSafe none n = search safe_rules
  decoded_str-IsSafe (some cs) n = search safe_rules

  read_str-IsSafe : IsSafe fuel (read_str path)
  unfolding read_str
  read_str-IsSafe = search (safe_rules, read_seq_len-IsSafe, decoded_str-IsSafe)

  read_fixed_bytes-IsSafe : (n : ℕ) → IsSafe fuel (read_fixed_bytes n path)
  unfolding read_fixed_bytes
  read_fixed_bytes-IsSafe n = search safe_rules

  read_pubkey-IsSafe : IsSafe fuel (read_pubkey path)
  unfolding read_pubkey
  read_pubkey-IsSafe = search safe_rules

  read_tagged-IsSafe :
      (wrap : Value → Value) (inner : Reader Value)
      → IsSafe fuel inner
      → IsSafe fuel (read_tagged wrap inner path)
  unfolding read_tagged
  read_tagged-IsSafe wrap inner h = search (safe_rules, take_byte-IsSafe)

  read_member-IsSafe : (c : ClassId) (members : List ℕ) → IsSafe fuel (read_member c members path)
  unfolding read_member
  read_member-IsSafe c members = search (safe_rules, take_byte-IsSafe)

module _ {fuel : ℕ} where
  read_items-IsSafe :
      (rd : ℕ → Reader Value)
      → ((i : ℕ) → IsSafe fuel (rd i))
      → (i n : ℕ) → IsSafe fuel (read_items rd i n)
  unfolding read_items
  read_items-IsSafe rd h i zero = IsSafe-pure nil
  read_items-IsSafe rd h i (suc n) =
      IsSafe-bind (h i)
        λ v. IsSafe-bind (read_items-IsSafe rd h (i + 1) n) λ vs. IsSafe-pure (cons v vs)

  read_fields-IsSafe :
      (rd : String → Node → Reader Value)
      → ((k : String) (node : Node) → IsSafe fuel (rd k node))
      → (fields : Fields) → IsSafe fuel (read_fields rd fields)
  unfolding read_fields
  read_fields-IsSafe rd h [] = IsSafe-pure no_attrs
  read_fields-IsSafe rd h ((k, node) ∷ fields) =
      IsSafe-bind (h k node)
        λ v. IsSafe-bind (read_fields-IsSafe rd h fields) λ vs. IsSafe-pure (attr k v vs)

module _ {fuel : ℕ} (env : Env) (rd : Breadcrumb → Node → Reader Value)
    (h : (path : Breadcrumb) (node : Node) → IsSafe fuel (rd path node)) where
  read_variant-IsSafe :
      (c : ClassId) (tag : ℕ) (entry : Option (ClassId × Fields)) (path : Breadcrumb)
      → IsSafe fuel (read_variant rd env c tag entry path)
  unfolding read_variant
  read_variant-IsSafe c tag none path = search safe_rules
  read_variant-IsSafe c tag (some (vcls, fields)) path =
      IsSafe-bind
        (read_fields-IsSafe _ (λ k node. h (path /p name (env.class_name vcls)) node) fields)
        λ values. IsSafe-pure (object vcls values)

  read_layout-IsSafe :
      (c : ClassId) (contents : Option Layout) (path : Breadcrumb)
      → IsSafe fuel (read_layout rd env c contents path)
  unfolding read_layout
  read_layout-IsSafe c none path = IsSafe-error _
  read_layout-IsSafe c (some (struct fields)) path =
      IsSafe-bind (read_fields-IsSafe _ (λ k node. h (path /p name k) node) fields)
        λ values. IsSafe-pure (object c values)
  read_layout-IsSafe c (some (int_enum members)) path = read_member-IsSafe path c members
  read_layout-IsSafe c (some (borsh_enum variants)) path =
      IsSafe-bind (take_byte-IsSafe path)
        λ tag. read_variant-IsSafe c tag (by_number tag variants) path

-- Without fuel no level is left that the guard allows.
spent : {A : Type 0} {m : Reader A} → IsSafe 0 m
spent = record { at = λ cur w h. absurd (omega (arith, w.guarded)) }

-- Whatever the bytes: with a unit of fuel for each level that the depth guard still allows, a read
-- returns or raises. It leaves the buffer and the depth, and moves the cursor forward inside it.
pub read-IsSafe :
    (env : Env) (node : Node) (fuel : ℕ) (path : Breadcrumb) → IsSafe fuel (read env node fuel path)
unfolding read
read-IsSafe env (int nbytes signed) fuel path = read_int-IsSafe path nbytes signed
read-IsSafe env (float nbytes) fuel path = read_float-IsSafe path env nbytes
read-IsSafe env bool fuel path = read_bool-IsSafe path
read-IsSafe env str fuel path = read_str-IsSafe path
read-IsSafe env bytes fuel path = read_bytes-IsSafe path
read-IsSafe env (fixed_bytes n) fuel path = read_fixed_bytes-IsSafe path n
read-IsSafe env pubkey fuel path = read_pubkey-IsSafe path
read-IsSafe env (option inner) zero path = spent
read-IsSafe env (option inner) (suc fuel) path =
    IsSafe-descend path (read_tagged-IsSafe path _ _ (read-IsSafe env inner fuel path))
read-IsSafe env (opt inner) zero path = spent
read-IsSafe env (opt inner) (suc fuel) path =
    IsSafe-descend path (read_tagged-IsSafe path _ _ (read-IsSafe env inner fuel path))
read-IsSafe env (vec elem) zero path = spent
read-IsSafe env (vec elem) (suc fuel) path = IsSafe-descend path (
    IsSafe-bind (read_seq_len-IsSafe path (min_wire_size env elem)) λ n.
      IsSafe-bind (read_items-IsSafe _ (λ i. read-IsSafe env elem fuel (path /p index i)) 0 n)
        λ vs. IsSafe-pure (list vs))
read-IsSafe env (fixed_array _ elem n) zero path = spent
read-IsSafe env (fixed_array _ elem n) (suc fuel) path = IsSafe-descend path (
    IsSafe-bind (read_items-IsSafe _ (λ i. read-IsSafe env elem fuel (path /p index i)) 0 n)
      λ vs. IsSafe-pure (list vs))
read-IsSafe env (defined c) zero path = spent
read-IsSafe env (defined c) (suc fuel) path =
    IsSafe-descend path
      (read_layout-IsSafe env _ (λ p node. read-IsSafe env node fuel p) c (layout env c) path)

-- From a cursor inside its buffer and not past the depth guard, with a unit of fuel for each level
-- that the guard still allows, `read` returns or raises a Python exception whatever the bytes are.
-- If it returns, the buffer and the depth are unchanged, and the position has not moved back nor
-- past the end of the buffer.
pub read_safe :
    (env : Env) (node : Node) (fuel : ℕ) (path : Breadcrumb) (cur : Cursor)
    → IsWithin cur
    → max_decode_depth < cur.depth + fuel
    → Ends (Advances cur) (read env node fuel path cur)
read_safe env node fuel path cur w h = (read-IsSafe env node fuel path).at cur w h

finish_returns : (mode : Mode) (a : Value) (next : Cursor) → finish mode (a, next) ≢ out_of_fuel
unfolding finish
finish_returns ix_data a next = ground arith
finish_returns account_data a next = λ e. cc

finish-Ends :
    {start : Cursor} (mode : Mode) {r : Result (Value × Cursor)}
    → Ends (Advances start) r
    → (r >>= λ p. finish mode p) ≢ out_of_fuel
finish-Ends mode (returned {a} {next} adv) = finish_returns mode a next
finish-Ends mode raised = λ e. cc

-- Decoding ends on every input, whatever the types are and however they refer to one another. The
-- fuel of decode never runs out, since each level of nesting passes the depth guard; and the fuel with
-- which min_wire_size sizes the elements of a vector is enough, since a class that is met again inside
-- itself is not entered: with any more of it the size of every node is the same.
pub decode-ne-out_of_fuel :
    (env : Env) (buf : List ℕ) (node : Node) (mode : Mode) (more : ℕ) (elem : Node)
    → (decode env buf node mode ≢ out_of_fuel)
      × (node_size (class_size env (suc (length env.layouts) + more)) elem []
          ≡ min_wire_size env elem)
unfolding decode
decode-ne-out_of_fuel env buf node mode more elem = (
  finish-Ends mode (
      read_safe env node decode_fuel [] (cursor buf)
        (record { in_buffer = omega arith; guarded = omega arith }) (omega arith)),
  min_wire_size-fuel env more elem,
)

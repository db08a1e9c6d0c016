-- ===== src/Codec/Node.antt =====
-- The `FieldType` IR of _codec/ir.py. A node for a defined type is the number of its class: the
-- cached node object, which recursive types share, stands in the table of layouts.
use wake_sol.Prelude.{ℕ, Bool, String, Option, List, get_elem?}
use wake_sol.Prelude.Int.{ℤ}
use wake_sol.Codec.Result.{Result}
use wake_sol.Codec.Value.{ClassId, Value}

-- `fixed_array` carries the identity of its object, which `min_wire_size` looks for on its stack.
pub data Node : Type 0 where
  int : ℕ → Bool → Node
  float : ℕ → Node
  bool str bytes pubkey : Node
  fixed_bytes : ℕ → Node
  option : Node → Node
  opt : Node → Node
  vec : Node → Node
  fixed_array : ℕ → Node → ℕ → Node
  defined : ClassId → Node

abbrev pub Fields : Type 0
Fields = List (String × Node)

-- `BorshEnumNode.variants`: the tag, and the class of the variant with its fields.
abbrev pub Variants : Type 0
Variants = List (ℕ × (ClassId × Fields))

-- The contents of a StructNode, an IntEnumNode (the values of its members) and a BorshEnumNode.
pub data Layout : Type 0 where
  struct : Fields → Layout
  int_enum : List ℕ → Layout
  borsh_enum : Variants → Layout

-- What the nodes read of their surroundings: the compiled classes, and the `__variant_tag__` and the
-- name of a class. The other fields are what the library does not implement: the parse of a base58
-- address by the `Pubkey` constructor, the conversions between a binary32 and a binary64 pattern
-- that `struct` makes (`none` where the number is too large for a binary32), the float nearest to an
-- integer, and `int(value)` of a value that is no integer.
pub record Env : Type 0 where
  pub layouts : List Layout
  pub variant_tag : ClassId → Option ℕ
  pub class_name : ClassId → String
  pub from_base58 : List ℕ → Result (List ℕ)
  pub widen : ℕ → ℕ
  pub narrow : ℕ → Option ℕ
  pub float_of_int : ℤ → Option ℕ
  pub to_int : Value → Result ℤ

abbrev pub layout : Env → ClassId → Option Layout
layout env c = get_elem? env.layouts c

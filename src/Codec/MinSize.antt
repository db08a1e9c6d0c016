-- ===== src/Codec/MinSize.antt =====
-- `min_wire_size` of the nodes of _codec/ir.py: a floor for the length of an encoding, in which a
-- node that is met again inside itself counts 0.
use Prim.Native.Nat.{min}
use wake_sol.Prelude.{
  ℕ, zero, suc, ◌+◌, ◌*◌, Bool, false, ◌||◌, Option, none, some, List, [], ◌∷◌, ◌==◌, if◌then◌else◌,
  length,
}
use wake_sol.Codec.Value.{ClassId}
use wake_sol.Codec.Node.{
  Node, int, float, bool, str, bytes, pubkey, fixed_bytes, option, opt, vec, fixed_array, defined,
  Fields, Variants, Layout, struct, int_enum, borsh_enum, Env, layout,
}

-- A node object on the stack: an array by its identity, a defined type by its class.
pub data Visited : Type 0 where
  array : ℕ → Visited
  class : ClassId → Visited

abbrev pub Stack : Type 0
Stack = List Visited

abbrev same_object : Visited → Visited → Bool
same_object (array i) (array j) = i == j
same_object (class c) (class d) = c == d
same_object _ _ = false

-- `self in _stack`
unfoldable pub on_stack : Visited → Stack → Bool
on_stack v [] = false
on_stack v (w ∷ ws) = same_object w v || on_stack v ws

-- `defined_size` is the call at a node of a defined type.
unfoldable pub node_size : (ClassId → Stack → ℕ) → Node → Stack → ℕ
node_size defined_size (int nbytes _) stack = nbytes
node_size defined_size (float nbytes) stack = nbytes
node_size defined_size bool stack = 1
node_size defined_size str stack = 4
node_size defined_size bytes stack = 4
node_size defined_size pubkey stack = 32
node_size defined_size (fixed_bytes n) stack = n
node_size defined_size (option _) stack = 1
node_size defined_size (opt _) stack = 1
node_size defined_size (vec _) stack = 4
node_size defined_size (fixed_array id elem n) stack =
    if on_stack (array id) stack then 0 else n * node_size defined_size elem (array id ∷ stack)
node_size defined_size (defined c) stack = defined_size c stack

-- The sum over the fields of a struct or a variant.
unfoldable pub fields_size : (ClassId → Stack → ℕ) → Fields → Stack → ℕ
fields_size defined_size [] stack = 0
fields_size defined_size ((_, node) ∷ fields) stack =
    node_size defined_size node stack + fields_size defined_size fields stack

unfoldable pub variants_size : (ClassId → Stack → ℕ) → ℕ → Variants → Stack → ℕ
variants_size defined_size least [] stack = least
variants_size defined_size least ((_, (_, fields)) ∷ variants) stack =
    variants_size defined_size (min least (fields_size defined_size fields stack)) variants stack

unfoldable pub layout_size : (ClassId → Stack → ℕ) → Option Layout → Stack → ℕ
unfolding variants_size
layout_size defined_size none stack = 0
layout_size defined_size (some (struct fields)) stack = fields_size defined_size fields stack
layout_size defined_size (some (int_enum _)) stack = 1
layout_size defined_size (some (borsh_enum [])) stack = 1
layout_size defined_size (some (borsh_enum ((_, (_, fields)) ∷ variants))) stack =
    1 + variants_size defined_size (fields_size defined_size fields stack) variants stack

-- The stack never holds a class twice, so a unit of fuel for each class and one more is enough.
unfoldable pub class_size : Env → ℕ → ClassId → Stack → ℕ
class_size env zero c stack = 0
class_size env (suc fuel) c stack =
    let inner = layout_size (class_size env fuel) (layout env c) (class c ∷ stack) in
    if on_stack (class c) stack then 0 else inner

-- `node.min_wire_size()`
unfoldable pub min_wire_size : Env → Node → ℕ
min_wire_size env node = node_size (class_size env (suc (length env.layouts))) node []

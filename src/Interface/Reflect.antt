-- ===== src/Interface/Reflect.antt =====
-- `build_interface_from_module` of _codec/builder.py. A builder method is what reflection reads of
-- it, with its annotations already compiled.
use wake_sol.Prelude.{
  ℕ, Bool, true, false, String, Option, none, some, List, [], ◌∷◌, ◌++◌, map, if◌then◌else◌,
}
use wake_sol.Prelude.Assoc.{by_name}
use wake_sol.Codec.Result.{Result}
use wake_sol.Codec.Value.{ClassId, Value, Attrs}
use wake_sol.Codec.Node.{Node, Fields, Env}
use wake_sol.Builder.Args
use wake_sol.Builder.Structs
use wake_sol.Builder.Structs.{BorshMeta, is_event, same_bytes}
use wake_sol.Builder.Names.{codes, keywords, reserved, mangle_back}
use wake_sol.Interface.Defs.{
  InstructionDef, ProgramInterface, interface, add, add_refusing, add_event,
}

-- `Serialization` of _codec/meta.py.
pub data Serialization : Type 0 where
  borsh bytemuck bytemuck_unsafe custom bincode pack : Serialization

unfoldable pub is_borsh : Serialization → Bool
is_borsh borsh = true
is_borsh _ = false

-- `serialization={meta.serialization.value}`
unfoldable pub refusal_reason : Serialization → String
refusal_reason borsh = "serialization=borsh"
refusal_reason bytemuck = "serialization=bytemuck"
refusal_reason bytemuck_unsafe = "serialization=bytemuckUnsafe"
refusal_reason custom = "serialization=custom"
refusal_reason bincode = "serialization=bincode"
refusal_reason pack = "serialization=pack"

-- A method with its `InstructionMeta`; `account_params` are the keyword-only parameters but
-- `remaining_accounts`, and `returns` is the compiled `returns_type`.
pub record Method : Type 0 where
  pub name : String
  pub discriminator : List ℕ
  pub serialization : Serialization
  pub layout : Fields
  pub account_params : List String
  pub returns : Option Node

-- The word of `words` with those code points, and else `name`.
unfoldable pub word_of : List ℕ → String → List String → String
word_of cs name [] = name
word_of cs name (w ∷ words) = if same_bytes (codes w) cs then w else word_of cs name words

-- `mangle_back` of a parameter's name: it is one of the words that are mangled, or the name itself.
unfoldable pub role_name : String → String
unfolding word_of
role_name name = word_of (mangle_back (codes name)) name (keywords ++ reserved)

unfoldable pub return_decoder : Env → Option Node → Option (List ℕ → Result Value)
return_decoder env none = none
return_decoder env (some node) = some (Args.decode_return env node)

-- One turn of the loop over the methods, for a method and its override.
unfoldable pub add_method :
    Env → Method → Option (List ℕ → Result Attrs) → ProgramInterface → ProgramInterface
unfolding return_decoder is_borsh
add_method env m (some override) iface =
    add m.name m.discriminator (map role_name m.account_params) (some override)
      (return_decoder env m.returns) iface
add_method env m none iface =
    if is_borsh m.serialization
    then add m.name m.discriminator (map role_name m.account_params)
        (some (Args.decode_args env m.layout)) (return_decoder env m.returns) iface
    else add_refusing m.name m.discriminator (refusal_reason m.serialization) iface

unfoldable pub add_methods :
    Env
    → List (String × (List ℕ → Result Attrs))
    → List Method
    → ProgramInterface
    → ProgramInterface
add_methods env overrides [] iface = iface
add_methods env overrides (m ∷ methods) iface =
    add_methods env overrides methods (add_method env m (by_name m.name overrides) iface)

-- The classes of the module in order, with their metadata.
unfoldable pub add_events : Env → List (ClassId × BorshMeta) → ProgramInterface → ProgramInterface
add_events env [] iface = iface
add_events env ((c, meta) ∷ classes) iface = add_events env classes (
    if is_event meta.kind
    then add_event meta.discriminator (λ bs. Structs.decode env c (some meta) bs true) iface
    else iface)

unfoldable pub build_interface_from_module :
    Env
    → List Method
    → List (ClassId × BorshMeta)
    → String
    → String
    → List (String × (List ℕ → Result Attrs))
    → ProgramInterface
build_interface_from_module env methods classes program_id program_name overrides =
    add_events env classes (add_methods env overrides methods (interface program_id program_name))

-- The definition that a method and its override are registered as.
abbrev pub overridden : Method → (List ℕ → Result Attrs) → InstructionDef
overridden m override = record {
  name = m.name;
  discriminator = m.discriminator;
  account_names = map role_name m.account_params;
  decode_args = override;
  decode_return = none;
}

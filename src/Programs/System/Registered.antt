-- ===== src/Programs/System/Registered.antt =====
-- The registration of the System program, _programs/system.py.
use wake_sol.Prelude.{ℕ, String, false, none, some, List, [], ◌∷◌}
use wake_sol.Codec.Result.{Result}
use wake_sol.Codec.Value.{Attrs}
use wake_sol.Codec.Node.{Node, Env}
use wake_sol.Interface.Defs.{ProgramInterface, add}
use wake_sol.Interface.Registry.{Registry, register}
use wake_sol.Interface.Reflect.{Method, bincode, build_interface_from_module}
use wake_sol.Programs.System.Builders.{tag, system_program}
use wake_sol.Programs.System.Decoders
use wake_sol.Programs.System.Decoders.{create_account_with_seed}

abbrev pub transfer_method : Method
transfer_method = record {
  name = "transfer";
  discriminator = 2 ∷ 0 ∷ 0 ∷ 0 ∷ [];
  serialization = bincode;
  layout = ("lamports", Node.int 8 false) ∷ [];
  account_params = "from_" ∷ "to" ∷ [];
  returns = none;
}

abbrev pub create_account_method : Method
create_account_method = record {
  name = "create_account";
  discriminator = 0 ∷ 0 ∷ 0 ∷ 0 ∷ [];
  serialization = bincode;
  layout =
      ("lamports", Node.int 8 false) ∷ ("space", Node.int 8 false) ∷ ("owner", Node.pubkey) ∷ [];
  account_params = "from_" ∷ "to" ∷ [];
  returns = none;
}

abbrev pub assign_method : Method
assign_method = record {
  name = "assign";
  discriminator = 1 ∷ 0 ∷ 0 ∷ 0 ∷ [];
  serialization = bincode;
  layout = ("owner", Node.pubkey) ∷ [];
  account_params = "account" ∷ [];
  returns = none;
}

abbrev pub allocate_method : Method
allocate_method = record {
  name = "allocate";
  discriminator = 8 ∷ 0 ∷ 0 ∷ 0 ∷ [];
  serialization = bincode;
  layout = ("space", Node.int 8 false) ∷ [];
  account_params = "account" ∷ [];
  returns = none;
}

abbrev pub system_methods : List Method
system_methods = transfer_method ∷ create_account_method ∷ assign_method ∷ allocate_method ∷ []

-- `_OVERRIDES`
abbrev pub system_overrides : Env → List (String × (List ℕ → Result Attrs))
system_overrides env =
    ("transfer", Decoders.transfer)
    ∷ ("create_account", Decoders.create_account env)
    ∷ ("assign", Decoders.assign env)
    ∷ ("allocate", Decoders.allocate)
    ∷ []

-- The instructions that have no builder.
unfoldable pub add_decode_only : Env → ProgramInterface → ProgramInterface
add_decode_only env i0 =
    let i1 =
      add "create_account_with_seed" (tag 3) ("from" ∷ "to" ∷ "base" ∷ [])
        (some (create_account_with_seed env)) none i0 in
    let i2 =
      add "advance_nonce_account" (tag 4) ("nonce" ∷ "recent_blockhashes" ∷ "authority" ∷ []) none
        none i1 in
    let i3 =
      add "withdraw_nonce_account" (tag 5)
        ("nonce" ∷ "to" ∷ "recent_blockhashes" ∷ "rent" ∷ "authority" ∷ []) none none i2 in
    let i4 =
      add "initialize_nonce_account" (tag 6) ("nonce" ∷ "recent_blockhashes" ∷ "rent" ∷ []) none
        none i3 in
    add "authorize_nonce_account" (tag 7) ("nonce" ∷ "authority" ∷ []) none none i4

unfoldable pub system_interface : Env → ProgramInterface
system_interface env = add_decode_only env (
    build_interface_from_module env system_methods [] system_program.id "System Program"
      (system_overrides env))

unfoldable pub register_system : Env → Registry → Registry
register_system env registry = register (system_interface env) registry

-- ===== src/Programs/Token/Registered.antt =====
-- The registration of the token programs, _programs/token.py: the metadata of the builder methods,
-- `_OVERRIDES` and `_make_iface`.
use wake_sol.Prelude.{ℕ, String, false, none, some, List, [], ◌∷◌}
use wake_sol.Codec.Result.{Result}
use wake_sol.Codec.Value.{Attrs}
use wake_sol.Codec.Node.{Node, Env}
use wake_sol.Interface.Defs.{ProgramInterface, add}
use wake_sol.Interface.Registry.{Registry, register}
use wake_sol.Interface.Reflect.{Method, pack, build_interface_from_module}
use wake_sol.Programs.Token.Decoders.{no_args, amount, amount_decimals, initialize_mint, owner}

abbrev pub initialize_mint2_method : Method
initialize_mint2_method = record {
  name = "initialize_mint2";
  discriminator = 20 ∷ [];
  serialization = pack;
  layout =
      ("decimals", Node.int 1 false)
      ∷ ("mint_authority", Node.pubkey)
      ∷ ("freeze_authority", Node.option Node.pubkey)
      ∷ [];
  account_params = "mint" ∷ [];
  returns = none;
}

abbrev pub initialize_account3_method : Method
initialize_account3_method = record {
  name = "initialize_account3";
  discriminator = 18 ∷ [];
  serialization = pack;
  layout = ("owner", Node.pubkey) ∷ [];
  account_params = "account" ∷ "mint" ∷ [];
  returns = none;
}

abbrev pub transfer_checked_method : Method
transfer_checked_method = record {
  name = "transfer_checked";
  discriminator = 12 ∷ [];
  serialization = pack;
  layout = ("amount", Node.int 8 false) ∷ ("decimals", Node.int 1 false) ∷ [];
  account_params = "source" ∷ "mint" ∷ "destination" ∷ "authority" ∷ [];
  returns = none;
}

abbrev pub transfer_method : Method
transfer_method = record {
  name = "transfer";
  discriminator = 3 ∷ [];
  serialization = pack;
  layout = ("amount", Node.int 8 false) ∷ [];
  account_params = "source" ∷ "destination" ∷ "authority" ∷ [];
  returns = none;
}

abbrev pub mint_to_checked_method : Method
mint_to_checked_method = record {
  name = "mint_to_checked";
  discriminator = 14 ∷ [];
  serialization = pack;
  layout = ("amount", Node.int 8 false) ∷ ("decimals", Node.int 1 false) ∷ [];
  account_params = "mint" ∷ "account" ∷ "authority" ∷ [];
  returns = none;
}

abbrev pub burn_checked_method : Method
burn_checked_method = record {
  name = "burn_checked";
  discriminator = 15 ∷ [];
  serialization = pack;
  layout = ("amount", Node.int 8 false) ∷ ("decimals", Node.int 1 false) ∷ [];
  account_params = "account" ∷ "mint" ∷ "authority" ∷ [];
  returns = none;
}

abbrev pub close_account_method : Method
close_account_method = record {
  name = "close_account";
  discriminator = 9 ∷ [];
  serialization = pack;
  layout = [];
  account_params = "account" ∷ "destination" ∷ "owner" ∷ [];
  returns = none;
}

abbrev pub approve_method : Method
approve_method = record {
  name = "approve";
  discriminator = 4 ∷ [];
  serialization = pack;
  layout = ("amount", Node.int 8 false) ∷ [];
  account_params = "source" ∷ "delegate" ∷ "authority" ∷ [];
  returns = none;
}

abbrev pub revoke_method : Method
revoke_method = record {
  name = "revoke";
  discriminator = 5 ∷ [];
  serialization = pack;
  layout = [];
  account_params = "source" ∷ "authority" ∷ [];
  returns = none;
}

abbrev pub token_methods : List Method
token_methods =
    initialize_mint2_method ∷ initialize_account3_method ∷ transfer_checked_method ∷ transfer_method
    ∷ mint_to_checked_method ∷ burn_checked_method ∷ close_account_method ∷ approve_method
    ∷ revoke_method ∷ []

-- `_OVERRIDES`
abbrev pub token_overrides : Env → List (String × (List ℕ → Result Attrs))
token_overrides env =
    ("initialize_mint2", initialize_mint env)
    ∷ ("initialize_account3", owner env)
    ∷ ("transfer_checked", amount_decimals)
    ∷ ("transfer", amount)
    ∷ ("mint_to_checked", amount_decimals)
    ∷ ("burn_checked", amount_decimals)
    ∷ ("close_account", no_args)
    ∷ ("approve", amount)
    ∷ ("revoke", no_args)
    ∷ []

-- The instructions that have no builder.
unfoldable pub add_decode_only : Env → ProgramInterface → ProgramInterface
add_decode_only env i0 =
    let i1 =
      add "initialize_mint" (0x00 ∷ []) ("mint" ∷ "rent" ∷ []) (some (initialize_mint env)) none
        i0 in
    let i2 =
      add "initialize_account" (0x01 ∷ []) ("account" ∷ "mint" ∷ "owner" ∷ "rent" ∷ []) none none
        i1 in
    let i3 = add "initialize_multisig" (0x02 ∷ []) ("multisig" ∷ "rent" ∷ []) none none i2 in
    let i4 = add "set_authority" (0x06 ∷ []) ("account" ∷ "authority" ∷ []) none none i3 in
    let i5 =
      add "mint_to" (0x07 ∷ []) ("mint" ∷ "account" ∷ "authority" ∷ []) (some amount) none i4 in
    let i6 = add "burn" (0x08 ∷ []) ("account" ∷ "mint" ∷ "authority" ∷ []) (some amount) none i5 in
    let i7 =
      add "freeze_account" (0x0a ∷ []) ("account" ∷ "mint" ∷ "authority" ∷ []) none none i6 in
    let i8 = add "thaw_account" (0x0b ∷ []) ("account" ∷ "mint" ∷ "authority" ∷ []) none none i7 in
    let i9 =
      add "approve_checked" (0x0d ∷ []) ("source" ∷ "mint" ∷ "delegate" ∷ "authority" ∷ [])
        (some amount_decimals) none i8 in
    let i10 =
      add "initialize_account2" (0x10 ∷ []) ("account" ∷ "mint" ∷ "rent" ∷ []) (some (owner env))
        none i9 in
    let i11 = add "sync_native" (0x11 ∷ []) ("account" ∷ []) none none i10 in
    let i12 = add "initialize_multisig2" (0x13 ∷ []) ("multisig" ∷ []) none none i11 in
    let i13 = add "get_account_data_size" (0x15 ∷ []) ("mint" ∷ []) none none i12 in
    add "initialize_immutable_owner" (0x16 ∷ []) ("account" ∷ []) none none i13

unfoldable pub token_interface : Env → String → String → ProgramInterface
token_interface env program_id name =
    add_decode_only env
      (build_interface_from_module env token_methods [] program_id name (token_overrides env))

-- Both calls of `_make_iface`.
unfoldable pub register_token : Env → Registry → Registry
register_token env registry =
    register
      (token_interface env "TokenzQdBNbLqP5VEhdkAS6EPFLC1PHnBqCXEpPxuEb" "Token-2022 Program")
      (register (token_interface env "TokenkegQfeZyiNwAJbNbGKPFXCWuBvf9Ss623VQ5DA" "Token Program")
        registry)

-- ===== src/Programs/Token/Calls.antt =====
-- Calls of the builders of _programs/token.py, and what each should decode to.
use wake_sol.Prelude.{ℕ, ◌≡◌, refl, String, Option, none, some, List, ◌++◌, length}
use wake_sol.Prelude.Int.{ℤ}
use wake_sol.Prelude.Assoc.{by_name}
use wake_sol.Codec.Result.{Result, ok, ◌>>=◌}
use wake_sol.Codec.Value.{Value, Attrs, no_attrs, attr}
use wake_sol.Codec.Node.{Env}
use wake_sol.Codec.Write.{to_pubkey}
use wake_sol.Builder.Metas.{MetaLike}
use wake_sol.Builder.Structs.{same_bytes}
use wake_sol.Precompiles.Placement.{Instruction}
use wake_sol.Interface.Defs.{match, match_from, longer, starts, add}
use wake_sol.Interface.Reflect.{
  Method, overridden, return_decoder, add_method, add_methods, add_events,
  build_interface_from_module,
}
use wake_sol.Programs.Token.Builders
use wake_sol.Programs.Token.Decoders.{no_args, amount, amount_decimals, initialize_mint, owner}
use wake_sol.Programs.Token.Registered
use wake_sol.Programs.Token.Registered.{token_interface, add_decode_only}

-- The positional arguments, and then the slots.
pub data TokenCall : Type 0 where
  initialize_mint2 : ℤ → Value → Option Value → Option MetaLike → TokenCall
  initialize_account3 : Value → Option MetaLike → Option MetaLike → TokenCall
  transfer_checked :
      ℤ → ℤ → Option MetaLike → Option MetaLike → Option MetaLike → Option MetaLike → TokenCall
  transfer : ℤ → Option MetaLike → Option MetaLike → Option MetaLike → TokenCall
  mint_to_checked : ℤ → ℤ → Option MetaLike → Option MetaLike → Option MetaLike → TokenCall
  burn_checked : ℤ → ℤ → Option MetaLike → Option MetaLike → Option MetaLike → TokenCall
  close_account : Option MetaLike → Option MetaLike → Option MetaLike → TokenCall
  approve : ℤ → Option MetaLike → Option MetaLike → Option MetaLike → TokenCall
  revoke : Option MetaLike → Option MetaLike → TokenCall

abbrev pub build : Env → TokenCall → List MetaLike → Result Instruction
build env (initialize_mint2 d a f m) rest = Builders.initialize_mint2 env d a f m rest
build env (initialize_account3 o a m) rest = Builders.initialize_account3 env o a m rest
build env (transfer_checked z d s m t a) rest = Builders.transfer_checked env z d s m t a rest
build env (transfer z s d a) rest = Builders.transfer env z s d a rest
build env (mint_to_checked z d m c a) rest = Builders.mint_to_checked env z d m c a rest
build env (burn_checked z d c m a) rest = Builders.burn_checked env z d c m a rest
build env (close_account a d o) rest = Builders.close_account env a d o rest
build env (approve z s d a) rest = Builders.approve env z s d a rest
build env (revoke s a) rest = Builders.revoke env s a rest

abbrev pub method_of : TokenCall → Method
method_of (initialize_mint2 _ _ _ _) = Registered.initialize_mint2_method
method_of (initialize_account3 _ _ _) = Registered.initialize_account3_method
method_of (transfer_checked _ _ _ _ _ _) = Registered.transfer_checked_method
method_of (transfer _ _ _ _) = Registered.transfer_method
method_of (mint_to_checked _ _ _ _ _) = Registered.mint_to_checked_method
method_of (burn_checked _ _ _ _ _) = Registered.burn_checked_method
method_of (close_account _ _ _) = Registered.close_account_method
method_of (approve _ _ _ _) = Registered.approve_method
method_of (revoke _ _) = Registered.revoke_method

abbrev pub freeze_arg : Env → Option Value → Result Value
freeze_arg env none = ok Value.null
freeze_arg env (some v) = do key ← to_pubkey env v; ok (Value.pubkey key)

-- The arguments by name, an address as its key.
abbrev pub args_of : Env → TokenCall → Result Attrs
args_of env (initialize_mint2 d a f _) = do
  key ← to_pubkey env a
  freeze ← freeze_arg env f
  ok (
      attr "decimals" (Value.int d)
        (attr "mint_authority" (Value.pubkey key) (attr "freeze_authority" freeze no_attrs)))
args_of env (initialize_account3 o _ _) = do
  key ← to_pubkey env o
  ok (attr "owner" (Value.pubkey key) no_attrs)
args_of env (transfer_checked z d _ _ _ _) =
    ok (attr "amount" (Value.int z) (attr "decimals" (Value.int d) no_attrs))
args_of env (transfer z _ _ _) = ok (attr "amount" (Value.int z) no_attrs)
args_of env (mint_to_checked z d _ _ _) =
    ok (attr "amount" (Value.int z) (attr "decimals" (Value.int d) no_attrs))
args_of env (burn_checked z d _ _ _) =
    ok (attr "amount" (Value.int z) (attr "decimals" (Value.int d) no_attrs))
args_of env (close_account _ _ _) = ok no_attrs
args_of env (approve z _ _ _) = ok (attr "amount" (Value.int z) no_attrs)
args_of env (revoke _ _) = ok no_attrs

-- The native key of an address has 32 bytes.
abbrev pub HasKey : Env → Value → Type 0
HasKey env v = (key : List ℕ) → to_pubkey env v ≡ ok key → length key ≡ 32

abbrev pub FreezeHasKey : Env → Option Value → Type 0
FreezeHasKey env none = Unit {0}
FreezeHasKey env (some v) = HasKey env v

abbrev pub HasKeys : Env → TokenCall → Type 0
HasKeys env (initialize_mint2 _ a f _) = HasKey env a × FreezeHasKey env f
HasKeys env (initialize_account3 o _ _) = HasKey env o
HasKeys env _ = Unit {0}

abbrev pub decoder_of : Env → TokenCall → List ℕ → Result Attrs
decoder_of env (initialize_mint2 _ _ _ _) = initialize_mint env
decoder_of env (initialize_account3 _ _ _) = owner env
decoder_of env (transfer_checked _ _ _ _ _ _) = amount_decimals
decoder_of env (transfer _ _ _ _) = amount
decoder_of env (mint_to_checked _ _ _ _ _) = amount_decimals
decoder_of env (burn_checked _ _ _ _ _) = amount_decimals
decoder_of env (close_account _ _ _) = no_args
decoder_of env (approve _ _ _ _) = amount
decoder_of env (revoke _ _) = no_args

-- The tag of each method is matched by its own definition, whatever follows.
pub match-method_of :
    (env : Env) (id name : String) (call : TokenCall) (body : List ℕ)
    → match (token_interface env id name) ((method_of call).discriminator ++ body)
      ≡ some (overridden (method_of call) (decoder_of env call))
unfolding match match_from longer starts same_bytes token_interface add_decode_only
    build_interface_from_module add_events add_methods add_method add return_decoder by_name
match-method_of env id name (initialize_mint2 _ _ _ _) body = refl
match-method_of env id name (initialize_account3 _ _ _) body = refl
match-method_of env id name (transfer_checked _ _ _ _ _ _) body = refl
match-method_of env id name (transfer _ _ _ _) body = refl
match-method_of env id name (mint_to_checked _ _ _ _ _) body = refl
match-method_of env id name (burn_checked _ _ _ _ _) body = refl
match-method_of env id name (close_account _ _ _) body = refl
match-method_of env id name (approve _ _ _ _) body = refl
match-method_of env id name (revoke _ _) body = refl

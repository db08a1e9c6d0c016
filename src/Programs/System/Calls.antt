-- ===== src/Programs/System/Calls.antt =====
-- Calls of the builders of _programs/system.py, and what each should decode to.
use wake_sol.Prelude.{ℕ, ◌≡◌, refl, Option, some, List, ◌++◌, length}
use wake_sol.Prelude.Int.{ℤ}
use wake_sol.Prelude.Assoc.{by_name}
use wake_sol.Codec.Result.{Result, ok, ◌>>=◌}
use wake_sol.Codec.Value.{Value, Attrs, no_attrs, attr}
use wake_sol.Codec.Node.{Env}
use wake_sol.Codec.Write.{to_pubkey}
use wake_sol.Builder.Metas.{MetaLike}
use wake_sol.Builder.Structs.{same_bytes}
use wake_sol.Precompiles.Placement.{Instruction}
use wake_sol.Interface.Defs.{match, match_from, longer, starts, add}
use wake_sol.Interface.Reflect.{
  Method, overridden, return_decoder, add_method, add_methods, add_events,
  build_interface_from_module,
}
use wake_sol.Programs.System.Builders
use wake_sol.Programs.System.Decoders
use wake_sol.Programs.System.Registered
use wake_sol.Programs.System.Registered.{system_interface, add_decode_only}

-- The positional arguments, and then the slots.
pub data SystemCall : Type 0 where
  transfer : ℤ → Option MetaLike → Option MetaLike → SystemCall
  create_account : ℤ → ℤ → Value → Option MetaLike → Option MetaLike → SystemCall
  assign : Value → Option MetaLike → SystemCall
  allocate : ℤ → Option MetaLike → SystemCall

abbrev pub build : Env → SystemCall → List MetaLike → Result Instruction
build env (transfer z from to) rest = Builders.transfer env z from to rest
build env (create_account z s o from to) rest = Builders.create_account env z s o from to rest
build env (assign o a) rest = Builders.assign env o a rest
build env (allocate s a) rest = Builders.allocate env s a rest

abbrev pub method_of : SystemCall → Method
method_of (transfer _ _ _) = Registered.transfer_method
method_of (create_account _ _ _ _ _) = Registered.create_account_method
method_of (assign _ _) = Registered.assign_method
method_of (allocate _ _) = Registered.allocate_method

-- The arguments by name, an address as its key.
abbrev pub args_of : Env → SystemCall → Result Attrs
args_of env (transfer z _ _) = ok (attr "lamports" (Value.int z) no_attrs)
args_of env (create_account z s o _ _) = do
  key ← to_pubkey env o
  ok (
      attr "lamports" (Value.int z)
        (attr "space" (Value.int s) (attr "owner" (Value.pubkey key) no_attrs)))
args_of env (assign o _) = do key ← to_pubkey env o; ok (attr "owner" (Value.pubkey key) no_attrs)
args_of env (allocate s _) = ok (attr "space" (Value.int s) no_attrs)

-- The native key of an address has 32 bytes.
abbrev pub HasKey : Env → Value → Type 0
HasKey env v = (key : List ℕ) → to_pubkey env v ≡ ok key → length key ≡ 32

abbrev pub HasKeys : Env → SystemCall → Type 0
HasKeys env (create_account _ _ o _ _) = HasKey env o
HasKeys env (assign o _) = HasKey env o
HasKeys env _ = Unit {0}

abbrev pub decoder_of : Env → SystemCall → List ℕ → Result Attrs
decoder_of env (transfer _ _ _) = Decoders.transfer
decoder_of env (create_account _ _ _ _ _) = Decoders.create_account env
decoder_of env (assign _ _) = Decoders.assign env
decoder_of env (allocate _ _) = Decoders.allocate

-- The tag of each method is matched by its own definition, whatever follows.
pub match-method_of :
    (env : Env) (call : SystemCall) (body : List ℕ)
    → match (system_interface env) ((method_of call).discriminator ++ body)
      ≡ some (overridden (method_of call) (decoder_of env call))
unfolding match match_from longer starts same_bytes system_interface add_decode_only
    build_interface_from_module add_events add_methods add_method add return_decoder by_name
match-method_of env (transfer _ _ _) body = refl
match-method_of env (create_account _ _ _ _ _) body = refl
match-method_of env (assign _ _) body = refl
match-method_of env (allocate _ _) body = refl

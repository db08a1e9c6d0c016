-- ===== src/Programs/System/Builders.antt =====
-- The class `System` of _programs/system.py. A keyword argument for a slot may be `None`.
use wake_sol.Prelude.{ℕ, true, false, Option, List, [], ◌∷◌, ◌++◌, replicate}
use wake_sol.Prelude.Int.{ℤ}
use wake_sol.Codec.Result.{Result, ◌>>=◌}
use wake_sol.Codec.Value.{Value}
use wake_sol.Codec.Node.{Env}
use wake_sol.Codec.Write.{to_pubkey}
use wake_sol.Builder.Metas.{MetaLike}
use wake_sol.Precompiles.Claims.{pack_fields}
use wake_sol.Precompiles.Placement.{Instruction}
use wake_sol.Programs.Pack.{Program, instruction_of, slot}

abbrev pub system_program : Program
system_program = record { id = "11111111111111111111111111111111"; key = replicate 32 0 }

-- `_tag` of the small numbers that it is called with.
abbrev pub tag : ℕ → List ℕ
tag i = i ∷ 0 ∷ 0 ∷ 0 ∷ []

unfoldable pub transfer :
    Env → ℤ → Option MetaLike → Option MetaLike → List MetaLike → Result Instruction
transfer env lamports from to remaining_accounts = do
  packed ← pack_fields ((8, lamports) ∷ [])
  instruction_of env system_program (slot from true true ∷ slot to false true ∷ [])
      remaining_accounts (tag 2 ++ packed)

unfoldable pub create_account :
    Env → ℤ → ℤ → Value → Option MetaLike → Option MetaLike → List MetaLike → Result Instruction
create_account env lamports space owner from to remaining_accounts = do
  packed ← pack_fields ((8, lamports) ∷ (8, space) ∷ [])
  key ← to_pubkey env owner
  instruction_of env system_program (slot from true true ∷ slot to true true ∷ [])
      remaining_accounts (tag 0 ++ (packed ++ key))

unfoldable pub assign : Env → Value → Option MetaLike → List MetaLike → Result Instruction
assign env owner account remaining_accounts = do
  key ← to_pubkey env owner
  instruction_of env system_program (slot account true true ∷ []) remaining_accounts (tag 1 ++ key)

unfoldable pub allocate : Env → ℤ → Option MetaLike → List MetaLike → Result Instruction
allocate env space account remaining_accounts = do
  packed ← pack_fields ((8, space) ∷ [])
  instruction_of env system_program (slot account true true ∷ []) remaining_accounts
      (tag 8 ++ packed)

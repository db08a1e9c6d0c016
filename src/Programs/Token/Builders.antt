-- ===== src/Programs/Token/Builders.antt =====
-- The class `Token` of _programs/token.py. A keyword argument for a slot may be `None`.
use wake_sol.Prelude.{ℕ, true, false, Option, none, some, List, [], ◌∷◌, ◌++◌, replicate}
use wake_sol.Prelude.Int.{ℤ}
use wake_sol.Codec.Result.{Result, ok, ◌>>=◌}
use wake_sol.Codec.Value.{Value}
use wake_sol.Codec.Node.{Env}
use wake_sol.Codec.Write.{to_pubkey}
use wake_sol.Builder.Metas.{MetaLike, account_meta}
use wake_sol.Precompiles.Claims.{pack_fields}
use wake_sol.Precompiles.Placement.{Instruction}
use wake_sol.Programs.Pack.{byte_of, Program, instruction_of, slot}

abbrev pub token_key : List ℕ
token_key =
    6 ∷ 221 ∷ 246 ∷ 225 ∷ 215 ∷ 101 ∷ 161 ∷ 147 ∷ 217 ∷ 203 ∷ 225 ∷ 70 ∷ 206 ∷ 235 ∷ 121 ∷ 172 ∷ 28
    ∷ 180 ∷ 133 ∷ 237 ∷ 95 ∷ 91 ∷ 55 ∷ 145 ∷ 58 ∷ 140 ∷ 245 ∷ 133 ∷ 126 ∷ 255 ∷ 0 ∷ 169 ∷ []

abbrev pub ata_key : List ℕ
ata_key =
    140 ∷ 151 ∷ 37 ∷ 143 ∷ 78 ∷ 36 ∷ 137 ∷ 241 ∷ 187 ∷ 61 ∷ 16 ∷ 41 ∷ 20 ∷ 142 ∷ 13 ∷ 131 ∷ 11 ∷ 90
    ∷ 19 ∷ 153 ∷ 218 ∷ 255 ∷ 16 ∷ 132 ∷ 4 ∷ 142 ∷ 123 ∷ 216 ∷ 219 ∷ 233 ∷ 248 ∷ 89 ∷ []

abbrev pub token_program : Program
token_program = record { id = "TokenkegQfeZyiNwAJbNbGKPFXCWuBvf9Ss623VQ5DA"; key = token_key }

unfoldable pub freeze_bytes : Env → Option Value → Result (List ℕ)
freeze_bytes env none = ok (0 ∷ [])
freeze_bytes env (some v) = do key ← to_pubkey env v; ok (1 ∷ key)

unfoldable pub initialize_mint2 :
    Env → ℤ → Value → Option Value → Option MetaLike → List MetaLike → Result Instruction
unfolding freeze_bytes
initialize_mint2 env decimals mint_authority freeze_authority mint remaining_accounts = do
  d ← byte_of decimals
  authority ← to_pubkey env mint_authority
  freeze ← freeze_bytes env freeze_authority
  instruction_of env token_program (slot mint false true ∷ []) remaining_accounts
      (0x14 ∷ (d ++ (authority ++ freeze)))

unfoldable pub initialize_account3 :
    Env → Value → Option MetaLike → Option MetaLike → List MetaLike → Result Instruction
initialize_account3 env owner account mint remaining_accounts = do
  key ← to_pubkey env owner
  instruction_of env token_program (slot account false true ∷ slot mint false false ∷ [])
      remaining_accounts (0x12 ∷ key)

unfoldable pub transfer_checked :
    Env
    → ℤ
    → ℤ
    → Option MetaLike
    → Option MetaLike
    → Option MetaLike
    → Option MetaLike
    → List MetaLike
    → Result Instruction
transfer_checked env amount decimals source mint destination authority remaining_accounts = do
  packed ← pack_fields ((8, amount) ∷ (1, decimals) ∷ [])
  instruction_of env token_program
      (slot source false true
        ∷ slot mint false false
        ∷ slot destination false true
        ∷ slot authority true false
        ∷ [])
      remaining_accounts (0x0c ∷ packed)

unfoldable pub transfer :
    Env
    → ℤ
    → Option MetaLike
    → Option MetaLike
    → Option MetaLike
    → List MetaLike
    → Result Instruction
transfer env amount source destination authority remaining_accounts = do
  packed ← pack_fields ((8, amount) ∷ [])
  instruction_of env token_program
      (slot source false true ∷ slot destination false true ∷ slot authority true false ∷ [])
      remaining_accounts (0x03 ∷ packed)

unfoldable pub mint_to_checked :
    Env
    → ℤ
    → ℤ
    → Option MetaLike
    → Option MetaLike
    → Option MetaLike
    → List MetaLike
    → Result Instruction
mint_to_checked env amount decimals mint account authority remaining_accounts = do
  packed ← pack_fields ((8, amount) ∷ (1, decimals) ∷ [])
  instruction_of env token_program
      (slot mint false true ∷ slot account false true ∷ slot authority true false ∷ [])
      remaining_accounts (0x0e ∷ packed)

unfoldable pub burn_checked :
    Env
    → ℤ
    → ℤ
    → Option MetaLike
    → Option MetaLike
    → Option MetaLike
    → List MetaLike
    → Result Instruction
burn_checked env amount decimals account mint authority remaining_accounts = do
  packed ← pack_fields ((8, amount) ∷ (1, decimals) ∷ [])
  instruction_of env token_program
      (slot account false true ∷ slot mint false true ∷ slot authority true false ∷ [])
      remaining_accounts (0x0f ∷ packed)

unfoldable pub close_account :
    Env → Option MetaLike → Option MetaLike → Option MetaLike → List MetaLike → Result Instruction
close_account env account destination owner remaining_accounts =
    instruction_of env token_program
      (slot account false true ∷ slot destination false true ∷ slot owner true false ∷ [])
      remaining_accounts (0x09 ∷ [])

unfoldable pub approve :
    Env
    → ℤ
    → Option MetaLike
    → Option MetaLike
    → Option MetaLike
    → List MetaLike
    → Result Instruction
approve env amount source delegate authority remaining_accounts = do
  packed ← pack_fields ((8, amount) ∷ [])
  instruction_of env token_program
      (slot source false true ∷ slot delegate false false ∷ slot authority true false ∷ [])
      remaining_accounts (0x04 ∷ packed)

unfoldable pub revoke : Env → Option MetaLike → Option MetaLike → List MetaLike → Result Instruction
revoke env source authority remaining_accounts =
    instruction_of env token_program (slot source false true ∷ slot authority true false ∷ [])
      remaining_accounts (0x05 ∷ [])

-- `Pubkey.find_program_address`, less the bump, is an argument.
unfoldable pub ata_address :
    (List (List ℕ) → List ℕ → Result (List ℕ)) → Env → Value → Value → Result (List ℕ)
ata_address find_program_address env owner mint = do
  owner_key ← to_pubkey env owner
  mint_key ← to_pubkey env mint
  find_program_address (owner_key ∷ token_key ∷ mint_key ∷ []) ata_key

unfoldable pub create_ata :
    (List (List ℕ) → List ℕ → Result (List ℕ)) → Env → Value → Value → Value → Result Instruction
create_ata find_program_address env funder owner mint = do
  ata ← ata_address find_program_address env owner mint
  m0 ← account_meta env funder true true
  m2 ← account_meta env owner false false
  m3 ← account_meta env mint false false
  ok (record {
    program_id = "ATokenGPvbdGVxr1b2hvZbsiqW5xWH25efTNsLJA8knL";
    accounts =
        m0
        ∷ record { pubkey = ata; is_signer = false; is_writable = true }
        ∷ m2
        ∷ m3
        ∷ record { pubkey = replicate 32 0; is_signer = false; is_writable = false }
        ∷ record { pubkey = token_key; is_signer = false; is_writable = false }
        ∷ [];
    ix_data = 0 ∷ [];
  })

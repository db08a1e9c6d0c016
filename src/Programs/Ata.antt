-- ===== src/Programs/Ata.antt =====
-- The Associated Token Account program, python/wake_sol/_programs/ata.py.
use wake_sol.Prelude.{String, none, List, [], ◌∷◌}
use wake_sol.Interface.Defs.{ProgramInterface, interface, add}
use wake_sol.Interface.Registry.{Registry, register}

abbrev pub create_accounts : List String
create_accounts = "funder" ∷ "ata" ∷ "owner" ∷ "mint" ∷ "system_program" ∷ "token_program" ∷ []

unfoldable pub ata_interface : ProgramInterface
ata_interface =
    let i0 =
      interface "ATokenGPvbdGVxr1b2hvZbsiqW5xWH25efTNsLJA8knL" "Associated Token Account Program" in
    let i1 = add "create" (0x00 ∷ []) create_accounts none none i0 in
    let i2 = add "create_idempotent" (0x01 ∷ []) create_accounts none none i1 in
    add "recover_nested" (0x02 ∷ [])
      ("nested_ata" ∷ "nested_mint" ∷ "destination_ata" ∷ "owner_ata" ∷ "owner_mint" ∷ "wallet"
        ∷ "token_program" ∷ [])
      none none i2

unfoldable pub register_ata : Registry → Registry
register_ata registry = register ata_interface registry

-- ===== src/Tests/Programs.antt =====
-- The built-in programs on concrete inputs.
use wake_sol.Prelude.{
  ℕ, ◌≡◌, refl, false, true, some, List, [], ◌∷◌, ◌++◌, map, arith, replicate, length,
}
use wake_sol.Prelude.Int.{pos}
use wake_sol.Codec.Result.{ok}
use wake_sol.Codec.Bytes.{le_bytes, int_to_bytes}
use wake_sol.Codec.Utf8.{start, first_byte, next_byte}
use wake_sol.Codec.Value.{Value, Attrs}
use wake_sol.Codec.Write.{to_pubkey}
use wake_sol.Builder.Metas.{meta, place, push, build_metas}
use wake_sol.Builder.Structs.{same_bytes}
use wake_sol.Builder.Names.{is_one_of, is_taken, chop, ends_underscore, mangle_back}
use wake_sol.Precompiles.Claims.{pack_field, pack_fields}
use wake_sol.Precompiles.Placement.{Instruction}
use wake_sol.Labels.{Labels}
use wake_sol.Interface.Defs.{slot_names}
use wake_sol.Interface.Reflect.{word_of, role_name}
use wake_sol.Interface.Registry.{decode_instruction}
use wake_sol.Programs.Pack.{byte_of, as_metas, instruction_of}
use wake_sol.Programs.Token.Builders.{token_program, initialize_mint2, freeze_bytes}
use wake_sol.Programs.Token.Calls
use wake_sol.Programs.Token.Calls.{TokenCall}
use wake_sol.Programs.Token.Registered.{register_token}
use wake_sol.Programs.Token.RoundTrip.{decode_instruction-build_token}
use wake_sol.Programs.System.Builders.{system_program, create_account}
use wake_sol.Programs.System
use wake_sol.Programs.System.Calls.{SystemCall}
use wake_sol.Programs.System.Decoders.{decode_replacing}
use wake_sol.Programs.System.Registered.{register_system}
use wake_sol.Programs.System.RoundTrip.{decode_instruction-build_system}
use wake_sol.Tests.Samples.{env}

abbrev labels : Labels
labels = record { labels = []; full_addresses = false }

abbrev key : List ℕ
key = replicate 32 9

abbrev mint_call : TokenCall
mint_call =
    TokenCall.initialize_mint2 (pos 6) (Value.pubkey key) (some (Value.pubkey key))
      (some (meta (record { pubkey = key; is_signer = false; is_writable = true })))

abbrev mint_ix : Instruction
mint_ix = record {
  program_id = "TokenkegQfeZyiNwAJbNbGKPFXCWuBvf9Ss623VQ5DA";
  accounts = record { pubkey = key; is_signer = false; is_writable = true } ∷ [];
  ix_data = 20 ∷ 6 ∷ (key ++ 1 ∷ key);
}

build-mint_call : Calls.build env mint_call [] ≡ ok mint_ix
unfolding initialize_mint2 byte_of int_to_bytes le_bytes to_pubkey freeze_bytes instruction_of
    build_metas place push as_metas
build-mint_call = refl

key_size : (k : List ℕ) → to_pubkey env (Value.pubkey key) ≡ ok k → length k ≡ 32
unfolding to_pubkey
key_size k e = let q : key ≡ k = ground arith in rw (← q) refl

decode_instruction-build_token_example :
    (args : Attrs) × (Calls.args_of env mint_call ≡ ok args)
    × (decode_instruction (register_token env []) labels token_program.id mint_ix.ix_data 2
        ≡ ok (record {
          program_name = some "Token Program";
          name = some "initialize_mint2";
          args = args;
          account_names = slot_names (map role_name ("mint" ∷ [])) 2;
        }))
decode_instruction-build_token_example =
    decode_instruction-build_token env [] labels mint_call [] mint_ix 2
      ((λ k e. key_size k e), (λ k e. key_size k e)) build-mint_call

abbrev create_call : SystemCall
create_call =
    SystemCall.create_account (pos 258) (pos 7) (Value.pubkey key)
      (some (meta (record { pubkey = key; is_signer = true; is_writable = true })))
      (some (meta (record { pubkey = key; is_signer = true; is_writable = true })))

abbrev create_ix : Instruction
create_ix = record {
  program_id = "11111111111111111111111111111111";
  accounts =
      record { pubkey = key; is_signer = true; is_writable = true }
      ∷ record { pubkey = key; is_signer = true; is_writable = true }
      ∷ [];
  ix_data = 0 ∷ 0 ∷ 0 ∷ 0 ∷ 2 ∷ 1 ∷ 0 ∷ 0 ∷ 0 ∷ 0 ∷ 0 ∷ 0 ∷ 7 ∷ 0 ∷ 0 ∷ 0 ∷ 0 ∷ 0 ∷ 0 ∷ 0 ∷ key;
}

build-create_call : System.Calls.build env create_call [] ≡ ok create_ix
unfolding create_account pack_fields pack_field int_to_bytes le_bytes to_pubkey instruction_of
    build_metas place push as_metas
build-create_call = refl

decode_instruction-build_system_example :
    (args : Attrs) × (System.Calls.args_of env create_call ≡ ok args)
    × (decode_instruction (register_system env []) labels system_program.id create_ix.ix_data 2
        ≡ ok (record {
          program_name = some "System Program";
          name = some "create_account";
          args = args;
          account_names = slot_names (map role_name ("from_" ∷ "to" ∷ [])) 2;
        }))
decode_instruction-build_system_example =
    decode_instruction-build_system env [] labels create_call [] create_ix 2 (λ k e. key_size k e)
      build-create_call

role_name-from_ : role_name "from_" ≡ "from"
unfolding role_name word_of mangle_back is_taken is_one_of chop ends_underscore same_bytes
role_name-from_ = refl

-- A broken sequence is one replacement character, and what broke it is read again.
decode_replacing-broken :
    decode_replacing start (0x61 ∷ 0xe2 ∷ 0x82 ∷ 0x62 ∷ 0xff ∷ 0xc3 ∷ [])
    ≡ 0x61 ∷ 0xfffd ∷ 0x62 ∷ 0xfffd ∷ 0xfffd ∷ []
unfolding decode_replacing next_byte first_byte
decode_replacing-broken = refl

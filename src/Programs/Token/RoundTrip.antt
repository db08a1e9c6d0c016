-- ===== src/Programs/Token/RoundTrip.antt =====
-- What the builders of _programs/token.py make is what the registered interface decodes.
use wake_sol.Prelude.{ℕ, ◌≡◌, refl, ◌∙◌, some, List, map}
use wake_sol.Prelude.Assoc.{by_name, by_name-insert}
use wake_sol.Codec.Result.{ok}
use wake_sol.Codec.Value.{Attrs}
use wake_sol.Codec.Node.{Env}
use wake_sol.Builder.Metas.{MetaLike}
use wake_sol.Precompiles.Placement.{Instruction}
use wake_sol.Labels.{Labels}
use wake_sol.Interface.Defs.{slot_names, add, add_refusing}
use wake_sol.Interface.Reflect.{
  role_name, is_borsh, add_method, add_methods, add_events, build_interface_from_module,
}
use wake_sol.Interface.Registry.{Registry, register, decode_instruction}
use wake_sol.Programs.Token.Builders.{token_program}
use wake_sol.Programs.Token.Registered.{token_interface, register_token, add_decode_only}
use wake_sol.Programs.Made.{decode_instruction-Made}
use wake_sol.Programs.Token.Made.{build-Built}
use wake_sol.Programs.Token.Calls.{
  TokenCall, build, method_of, args_of, HasKeys, decoder_of, match-method_of,
}

token_interface-registered :
    (env : Env) (registry : Registry)
    → by_name token_program.id (register_token env registry)
      ≡ some (token_interface env token_program.id "Token Program")
unfolding register_token register token_interface add_decode_only build_interface_from_module
    add_events add_methods add_method add add_refusing is_borsh by_name
token_interface-registered env registry =
    let first = token_interface env token_program.id "Token Program" in
    let second =
      token_interface env "TokenzQdBNbLqP5VEhdkAS6EPFLC1PHnBqCXEpPxuEb" "Token-2022 Program" in
    by_name-insert "TokenzQdBNbLqP5VEhdkAS6EPFLC1PHnBqCXEpPxuEb" token_program.id second
      (register first registry)
    ∙ by_name-insert token_program.id token_program.id first registry

-- An instruction that a builder of `Token` makes, of addresses whose keys have 32 bytes, decodes
-- after the registration of the token programs to the name of the builder's instruction, to the
-- arguments by name, an address as its key, and to the names of the builder's slots.
pub decode_instruction-build_token :
    (env : Env) (registry : Registry) (labels : Labels) (call : TokenCall) (rest : List MetaLike)
    (ix : Instruction) (n : ℕ)
    → HasKeys env call
    → build env call rest ≡ ok ix
    → (args : Attrs) × (args_of env call ≡ ok args)
      × (decode_instruction (register_token env registry) labels ix.program_id ix.ix_data n
          ≡ ok (record {
            program_name = some "Token Program";
            name = some (method_of call).name;
            args = args;
            account_names = slot_names (map role_name (method_of call).account_params) n;
          }))
unfolding token_interface add_decode_only build_interface_from_module add_events add_methods
    add_method add add_refusing is_borsh by_name
decode_instruction-build_token env registry labels call rest ix n keys made =
    decode_instruction-Made (register_token env registry) labels
      (token_interface env token_program.id "Token Program") token_program (method_of call)
      (args_of env call) (decoder_of env call) ix n (token_interface-registered env registry) refl
      (match-method_of env token_program.id "Token Program" call)
      (build-Built env call rest ix keys made)

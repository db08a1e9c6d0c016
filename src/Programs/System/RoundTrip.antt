-- ===== src/Programs/System/RoundTrip.antt =====
-- What the builders of _programs/system.py make is what the registered interface decodes.
use wake_sol.Prelude.{ℕ, ◌≡◌, refl, some, List, map}
use wake_sol.Prelude.Assoc.{by_name, by_name-insert}
use wake_sol.Codec.Result.{ok}
use wake_sol.Codec.Value.{Attrs}
use wake_sol.Codec.Node.{Env}
use wake_sol.Builder.Metas.{MetaLike}
use wake_sol.Precompiles.Placement.{Instruction}
use wake_sol.Labels.{Labels}
use wake_sol.Interface.Defs.{slot_names, add, add_refusing}
use wake_sol.Interface.Reflect.{
  role_name, is_borsh, add_method, add_methods, add_events, build_interface_from_module,
}
use wake_sol.Interface.Registry.{Registry, register, decode_instruction}
use wake_sol.Programs.Made.{decode_instruction-Made}
use wake_sol.Programs.System.Builders.{system_program}
use wake_sol.Programs.System.Registered.{system_interface, register_system, add_decode_only}
use wake_sol.Programs.System.Calls.{
  SystemCall, build, method_of, args_of, HasKeys, decoder_of, match-method_of,
}
use wake_sol.Programs.System.Made.{build-Built}

system_interface-registered :
    (env : Env) (registry : Registry)
    → by_name system_program.id (register_system env registry) ≡ some (system_interface env)
unfolding register_system register system_interface add_decode_only build_interface_from_module
    add_events add_methods add_method add add_refusing is_borsh by_name
system_interface-registered env registry =
    by_name-insert system_program.id system_program.id (system_interface env) registry

-- An instruction that a builder of `System` makes, of addresses whose keys have 32 bytes, decodes
-- after the registration of the System program to the name of the builder's instruction, to the
-- arguments by name, an address as its key, and to the names of the builder's slots.
pub decode_instruction-build_system :
    (env : Env) (registry : Registry) (labels : Labels) (call : SystemCall) (rest : List MetaLike)
    (ix : Instruction) (n : ℕ)
    → HasKeys env call
    → build env call rest ≡ ok ix
    → (args : Attrs) × (args_of env call ≡ ok args)
      × (decode_instruction (register_system env registry) labels ix.program_id ix.ix_data n
          ≡ ok (record {
            program_name = some "System Program";
            name = some (method_of call).name;
            args = args;
            account_names = slot_names (map role_name (method_of call).account_params) n;
          }))
unfolding system_interface add_decode_only build_interface_from_module add_events add_methods
    add_method add add_refusing is_borsh by_name
decode_instruction-build_system env registry labels call rest ix n keys made =
    decode_instruction-Made (register_system env registry) labels (system_interface env)
      system_program (method_of call) (args_of env call) (decoder_of env call) ix n
      (system_interface-registered env registry) refl (match-method_of env call)
      (build-Built env call rest ix keys made)

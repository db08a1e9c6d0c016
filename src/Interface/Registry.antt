-- ===== src/Interface/Registry.antt =====
-- The registry of _interface.py and the calls that go through it.
use wake_sol.Prelude.{ℕ, String, Option, none, some, List, [], ◌∷◌, replicate, take}
use wake_sol.Prelude.Assoc.{by_name, insert}
use wake_sol.Codec.Result.{Result, ok, err, out_of_fuel}
use wake_sol.Codec.Value.{Value, no_attrs}
use wake_sol.Codec.Node.{Node, Env}
use wake_sol.Labels.{Labels, program_name}
use wake_sol.Builder.Args
use wake_sol.Interface.Defs.{
  InstructionDef, DecodedInstruction, ProgramInterface, match, decode, decode_event,
}

-- `REGISTRY`
abbrev pub Registry : Type 0
Registry = List (String × ProgramInterface)

unfoldable pub register : ProgramInterface → Registry → Registry
register iface registry = insert iface.program_id iface registry

unfoldable pub decode_by :
    Option ProgramInterface → Labels → String → List ℕ → ℕ → Result DecodedInstruction
decode_by none labels pid bytes n = ok (record {
  program_name = program_name pid labels;
  name = none;
  args = no_attrs;
  account_names = replicate n none;
})
decode_by (some iface) labels pid bytes n = decode iface bytes n

unfoldable pub decode_instruction :
    Registry → Labels → String → List ℕ → ℕ → Result DecodedInstruction
unfolding decode_by
decode_instruction registry labels pid bytes n = decode_by (by_name pid registry) labels pid bytes n

-- The reasons of a `ReturnDataError`.
pub data ReturnFault : Type 0 where
  no_return_data no_interface unattributed no_match undecodable : ReturnFault
  no_return_type : String → ReturnFault

pub data ReturnResult : Type 0 where
  returned : Value → ReturnResult
  return_data_error : ReturnFault → ReturnResult

unfoldable pub strict : Result Value → ReturnResult
strict (ok v) = returned v
strict (err _) = return_data_error undecodable
strict out_of_fuel = return_data_error undecodable

unfoldable pub return_by : String → Option (List ℕ → Result Value) → List ℕ → ReturnResult
return_by name none raw = return_data_error (no_return_type name)
return_by name (some f) raw = strict (f raw)

unfoldable pub return_of : Option InstructionDef → List ℕ → ReturnResult
return_of none raw = return_data_error no_match
return_of (some d) raw = return_by d.name d.decode_return raw

unfoldable pub return_from : Option ProgramInterface → Option (List ℕ) → List ℕ → ReturnResult
return_from none ix_data raw = return_data_error no_interface
return_from (some iface) none raw = return_data_error unattributed
return_from (some iface) (some ix_data) raw = return_of (match iface ix_data) raw

unfoldable pub decode_return_value : Registry → String → Option (List ℕ) → List ℕ → ReturnResult
unfolding strict return_by return_of return_from
decode_return_value registry pid ix_data raw = return_from (by_name pid registry) ix_data raw

unfoldable pub return_as : Env → Node → Option (List ℕ) → ReturnResult
return_as env node none = return_data_error no_return_data
return_as env node (some raw) = strict (Args.decode_return env node raw)

-- `decode_return_as`, with the type already compiled.
unfoldable pub decode_return_as : Env → Node → Option (List ℕ) → ReturnResult
unfolding strict return_as
decode_return_as env node raw = return_as env node raw

-- A decoded event, or an `UnknownEvent` with its raw payload.
pub data Event : Type 0 where
  known : Value → Event
  unknown : String → List ℕ → Event

-- `UnknownEvent.discriminator`
unfoldable pub event_discriminator : List ℕ → List ℕ
event_discriminator bytes = take 8 bytes

unfoldable pub event_by : Option ProgramInterface → List ℕ → Option Value
event_by none raw = none
event_by (some iface) raw = decode_event iface raw

unfoldable pub or_unknown : String → List ℕ → Option Value → Event
or_unknown pid raw none = unknown pid raw
or_unknown pid raw (some v) = known v

unfoldable pub decode_events : Registry → String → List (List ℕ) → List Event
unfolding event_by or_unknown
decode_events registry pid [] = []
decode_events registry pid (raw ∷ payloads) =
    or_unknown pid raw (event_by (by_name pid registry) raw) ∷ decode_events registry pid payloads

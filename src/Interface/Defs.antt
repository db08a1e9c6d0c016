-- ===== src/Interface/Defs.antt =====
-- `InstructionDef`, `ProgramInterface` and `RefusingInterface` of _interface.py.
use wake_sol.Prelude.{
  ℕ, ◌-◌, String, Bool, true, ◌&&◌, Option, none, some, List, [], ◌∷◌, ◌++◌, map, ltb,
  if◌then◌else◌, length, take, drop, replicate,
}
use wake_sol.Codec.Result.{Result, ok, err, out_of_fuel, refuse_to_decode, ◌>>=◌}
use wake_sol.Codec.Value.{Value, Attrs, no_attrs}
use wake_sol.Builder.Structs.{same_bytes}

pub record InstructionDef : Type 0 where
  pub name : String
  pub discriminator : List ℕ
  pub account_names : List String
  pub decode_args : List ℕ → Result Attrs
  pub decode_return : Option (List ℕ → Result Value)

-- The role names, `None` beyond those declared.
pub record DecodedInstruction : Type 0 where
  pub program_name : Option String
  pub name : Option String
  pub args : Attrs
  pub account_names : List (Option String)

-- An event class is what its `decode` does; `refusal` is the reason of a `RefusingInterface`.
pub record ProgramInterface : Type 0 where
  pub program_id : String
  pub name : String
  pub defs : List InstructionDef
  pub events : List (List ℕ × (List ℕ → Result Value))
  pub refusal : Option String

-- `ProgramInterface(program_id, name)` and `RefusingInterface(program_id, name, reason)`
abbrev pub interface : String → String → ProgramInterface
interface id name = record { program_id = id; name = name; defs = []; events = []; refusal = none }

abbrev pub refusing_interface : String → String → String → ProgramInterface
refusing_interface id name reason = record (interface id name) { refusal = some reason }

abbrev pub no_decoder : List ℕ → Result Attrs
no_decoder bytes = ok no_attrs

or_no_decoder : Option (List ℕ → Result Attrs) → List ℕ → Result Attrs
or_no_decoder none = no_decoder
or_no_decoder (some f) = f

unfoldable pub add :
    String
    → List ℕ
    → List String
    → Option (List ℕ → Result Attrs)
    → Option (List ℕ → Result Value)
    → ProgramInterface
    → ProgramInterface
unfolding or_no_decoder
add name discriminator account_names decode_args decode_return iface = record iface {
  defs =
      iface.defs
      ++ record {
        name = name;
        discriminator = discriminator;
        account_names = account_names;
        decode_args = or_no_decoder decode_args;
        decode_return = decode_return;
      }
        ∷ [];
}

unfoldable pub add_refusing : String → List ℕ → String → ProgramInterface → ProgramInterface
add_refusing name discriminator reason iface =
    add name discriminator [] (some (λ _. err (refuse_to_decode reason))) none iface

-- `self._events[discriminator] = cls`
unfoldable pub set_event :
    List ℕ
    → (List ℕ → Result Value)
    → List (List ℕ × (List ℕ → Result Value))
    → List (List ℕ × (List ℕ → Result Value))
set_event disc cls [] = (disc, cls) ∷ []
set_event disc cls ((d, f) ∷ events) =
    if same_bytes d disc then (d, cls) ∷ events else (d, f) ∷ set_event disc cls events

unfoldable pub add_event : List ℕ → (List ℕ → Result Value) → ProgramInterface → ProgramInterface
unfolding set_event
add_event disc cls iface = record iface { events = set_event disc cls iface.events }

unfoldable pub find_event :
    List ℕ → List (List ℕ × (List ℕ → Result Value)) → Option (List ℕ → Result Value)
find_event disc [] = none
find_event disc ((d, f) ∷ events) = if same_bytes d disc then some f else find_event disc events

-- `data[:len(disc)] == disc`
unfoldable pub starts : List ℕ → List ℕ → Bool
starts disc bytes = same_bytes (take (length disc) bytes) disc

-- `best` after the loop over the definitions.
unfoldable pub longer : InstructionDef → Option InstructionDef → Bool
longer d none = true
longer d (some best) = ltb (length best.discriminator) (length d.discriminator)

unfoldable pub match_from :
    List ℕ → Option InstructionDef → List InstructionDef → Option InstructionDef
unfolding longer
match_from bytes best [] = best
match_from bytes best (d ∷ defs) =
    match_from bytes (if starts d.discriminator bytes && longer d best then some d else best) defs

-- `_match`
unfoldable pub match : ProgramInterface → List ℕ → Option InstructionDef
match iface bytes = match_from bytes none iface.defs

-- `names[:n] + [None] * (n - len(names[:n]))`
unfoldable pub slot_names : List String → ℕ → List (Option String)
slot_names names n =
    let declared = take n names in map some declared ++ replicate (n - length declared) none

unfoldable pub decode_with :
    ProgramInterface → List ℕ → ℕ → Option InstructionDef → Result DecodedInstruction
decode_with iface bytes n none = ok (record {
  program_name = some iface.name;
  name = none;
  args = no_attrs;
  account_names = replicate n none;
})
decode_with iface bytes n (some d) = do
  args ← d.decode_args (drop (length d.discriminator) bytes)
  ok (record {
    program_name = some iface.name;
    name = some d.name;
    args = args;
    account_names = slot_names d.account_names n;
  })

unfoldable pub unless_refused :
    Option String → Result DecodedInstruction → Result DecodedInstruction
unless_refused none r = r
unless_refused (some reason) r = err (refuse_to_decode reason)

-- `decode` of either class.
unfoldable pub decode : ProgramInterface → List ℕ → ℕ → Result DecodedInstruction
unfolding decode_with unless_refused
decode iface bytes n = unless_refused iface.refusal (decode_with iface bytes n (match iface bytes))

-- Any exception is an unknown event.
unfoldable pub attempt : Result Value → Option Value
attempt (ok v) = some v
attempt (err _) = none
attempt out_of_fuel = none

unfoldable pub decoded : Option (List ℕ → Result Value) → List ℕ → Option Value
decoded none bytes = none
decoded (some cls) bytes = attempt (cls bytes)

unfoldable pub decode_event : ProgramInterface → List ℕ → Option Value
unfolding attempt decoded
decode_event iface bytes =
    if ltb (length bytes) 8 then none else decoded (find_event (take 8 bytes) iface.events) bytes

-- ===== src/Programs/Made.antt =====
-- What an instruction made by a builder of _programs holds, and its decoding.
use wake_sol.Prelude.{ℕ, ◌≡◌, ap, ◌∙◌, sym, none, some, List, [], ◌++◌, map, append-nil}
use wake_sol.Prelude.Assoc.{by_name}
use wake_sol.Codec.Result.{Result, ok, ◌>>=◌}
use wake_sol.Codec.Value.{Attrs, no_attrs}
use wake_sol.Codec.Node.{Env}
use wake_sol.Builder.Metas.{MetaLike, Slot}
use wake_sol.Precompiles.Placement.{Instruction}
use wake_sol.Labels.{Labels}
use wake_sol.Interface.Defs.{ProgramInterface, match, slot_names}
use wake_sol.Interface.Registry.{Registry, decode_instruction, decode_by}
use wake_sol.Interface.Reflect.{Method, role_name, overridden}
use wake_sol.Interface.Overridden.{decode-match}
use wake_sol.Programs.Pack.{Program, instruction_of}
use wake_sol.Programs.PackRoundTrip.{instruction_of-data, behind}

-- The data is the tag and a body that the decode closure reads as the arguments.
pub record Made (program : Program) (tag : List ℕ) (expected : Result Attrs)
    (decoder : List ℕ → Result Attrs) (ix : Instruction) : Type 0 where
  pub args : Attrs
  pub body : List ℕ
  pub named : expected ≡ ok args
  pub tagged : ix.ix_data ≡ tag ++ body
  pub decoded : decoder body ≡ ok args
  pub addressed : ix.program_id ≡ program.id

module _ (env : Env) (program : Program) (tag : List ℕ) (expected : Result Attrs)
    (decoder : List ℕ → Result Attrs) (slots : List Slot) (rest : List MetaLike)
    (ix : Instruction) where
  -- The closure reads every body that could be computed as the arguments.
  pub part-Made :
      (args : Attrs) (part : Result (List ℕ))
      → expected ≡ ok args
      → ((body : List ℕ) → part ≡ ok body → decoder body ≡ ok args)
      → (part >>= λ body. instruction_of env program slots rest (tag ++ body)) ≡ ok ix
      → Made program tag expected decoder ix
  part-Made args part named decoded h =
      let (body, e, bytes, id) = behind env program slots rest tag part ix h in
      record {
        args = args;
        body = body;
        named = named;
        tagged = bytes;
        decoded = decoded body e;
        addressed = id;
      }

  pub no_args-Made :
      expected ≡ ok no_attrs
      → decoder [] ≡ ok no_attrs
      → instruction_of env program slots rest tag ≡ ok ix
      → Made program tag expected decoder ix
  no_args-Made named decoded h =
      let (bytes, id) = instruction_of-data env program slots rest tag ix h in
      record {
        args = no_attrs;
        body = [];
        named = named;
        tagged = bytes ∙ sym (append-nil tag);
        decoded = decoded;
        addressed = id;
      }

-- It decodes by the method's registered definition.
pub decode_instruction-Made :
    (registry : Registry) (labels : Labels) (iface : ProgramInterface) (program : Program)
    (m : Method) (expected : Result Attrs) (decoder : List ℕ → Result Attrs) (ix : Instruction)
    (n : ℕ)
    → by_name program.id registry ≡ some iface
    → iface.refusal ≡ none
    → ((body : List ℕ) → match iface (m.discriminator ++ body) ≡ some (overridden m decoder))
    → Made program m.discriminator expected decoder ix
    → (args : Attrs) × (expected ≡ ok args)
      × (decode_instruction registry labels ix.program_id ix.ix_data n
          ≡ ok (record {
            program_name = some iface.name;
            name = some m.name;
            args = args;
            account_names = slot_names (map role_name m.account_params) n;
          }))
unfolding decode_instruction decode_by
decode_instruction-Made registry labels iface program m expected decoder ix n registered free found
      made =
    (
      made.args,
      made.named,
      ap (λ id. decode_instruction registry labels id ix.ix_data n) made.addressed
          ∙ ap (λ bytes. decode_instruction registry labels program.id bytes n) made.tagged
          ∙ ap (λ i. decode_by i labels program.id (m.discriminator ++ made.body) n) registered
          ∙ decode-match iface m decoder made.body made.args n free (found made.body) made.decoded,
    )

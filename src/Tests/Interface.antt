-- ===== src/Tests/Interface.antt =====
-- Decoding by program on concrete inputs.
use wake_sol.Prelude.{ℕ, ◌≡◌, ◌↔◌, refl, true, false, none, some, List, [], ◌∷◌, arith, get_elem?}
use wake_sol.Prelude.Assoc.{by_name}
use wake_sol.Codec.Result.{ok}
use wake_sol.Codec.Bytes.{le_bytes, int_to_bytes}
use wake_sol.Codec.Utf8.{encode_point, encode_utf8}
use wake_sol.Codec.Value.{no_attrs}
use wake_sol.Codec.Write.{write, write_int, write_str, write_prefixed, write_len}
use wake_sol.Builder.Args.{write_args, encode_ix_layout, decode_args}
use wake_sol.Builder.ArgsRoundTrip.{nodes_of, values_of}
use wake_sol.Builder.Structs
use wake_sol.Builder.Structs.{BorshMeta, event, same_bytes}
use wake_sol.Labels.{Labels}
use wake_sol.Codec.Value.{Value}
use wake_sol.Prelude.Int.{pos}
use wake_sol.Interface.Returns.{decode_return_value-encode}
use wake_sol.Codec.Entry.{encode}
use wake_sol.Interface.Registry.{returned, decode_return_value}
use wake_sol.Builder.Args.{decode_return}
use wake_sol.Codec.Node.{int}
use wake_sol.Codec.RoundTrip.{Fits}
use wake_sol.Interface.Defs.{
  InstructionDef, DecodedInstruction, ProgramInterface, interface, starts, longer, match_from,
  match, decode_with, unless_refused, decode, slot_names, add_event,
}
use wake_sol.Interface.Match.{Chosen, match_iff}
use wake_sol.Interface.Slots.{named, role_names, decode-account_names}
use wake_sol.Interface.Registry.{Registry, decode_instruction, known, decode_events}
use wake_sol.Interface.Dispatch.{decode_instruction-encode_ix_layout, decode_events-encode}
use wake_sol.Tests.Samples.{env, transfer_layout, transfer_args, transfer-Fits, moved, moved-Fits}

abbrev plain : InstructionDef
plain = record {
  name = "plain";
  discriminator = 3 ∷ [];
  account_names = [];
  decode_args = λ b. ok no_attrs;
  decode_return = none;
}

abbrev transfer : InstructionDef
transfer = record {
  name = "transfer";
  discriminator = 3 ∷ 1 ∷ [];
  account_names = "from" ∷ "to" ∷ [];
  decode_args = decode_args env transfer_layout;
  decode_return = none;
}

abbrev bank : ProgramInterface
bank = record (interface "Bank" "bank") { defs = plain ∷ transfer ∷ [] }

abbrev registry : Registry
registry = ("Bank", bank) ∷ []

abbrev labels : Labels
labels = record { labels = []; full_addresses = false }

abbrev transfer_bytes : List ℕ
transfer_bytes = 3 ∷ 1 ∷ 1 ∷ 2 ∷ 0 ∷ 0 ∷ 0 ∷ 0 ∷ 0 ∷ 0 ∷ 1 ∷ 2 ∷ 0 ∷ 0 ∷ 0 ∷ 195 ∷ 169 ∷ []

match-transfer : match bank transfer_bytes ≡ some transfer
unfolding match match_from starts same_bytes longer
match-transfer = refl

match_iff_example :
    (match bank (3 ∷ 1 ∷ []) ≡ some transfer) ↔ Chosen (3 ∷ 1 ∷ []) transfer bank.defs
match_iff_example = match_iff bank (3 ∷ 1 ∷ []) transfer

transfer-Chosen : Chosen transfer_bytes transfer bank.defs
unfolding starts same_bytes
transfer-Chosen = record {
  before = plain ∷ [];
  after = [];
  split = refl;
  fits = refl;
  longest = ((λ s. omega arith), tt);
  first = tt;
}

encode-transfer :
    encode_ix_layout env 2 (3 ∷ 1 ∷ []) (nodes_of transfer_layout) (values_of transfer_args)
    ≡ ok transfer_bytes
unfolding encode_ix_layout write_args write write_int int_to_bytes le_bytes write_str write_prefixed
    write_len encode_utf8 encode_point nodes_of values_of
encode-transfer = refl

decode_instruction-encode_ix_layout_example :
    decode_instruction registry labels "Bank" transfer_bytes 3
    ≡ ok (record {
      program_name = some "bank";
      name = some "transfer";
      args = transfer_args;
      account_names = slot_names ("from" ∷ "to" ∷ []) 3;
    })
decode_instruction-encode_ix_layout_example =
    decode_instruction-encode_ix_layout env 2 2 3 registry labels "Bank" bank transfer
      transfer_layout transfer_args transfer_bytes (unfold by_name in refl) refl refl transfer-Fits
      (omega arith) (omega arith) encode-transfer transfer-Chosen

abbrev plain_decoded : DecodedInstruction
plain_decoded = record {
  program_name = some "bank";
  name = some "plain";
  args = no_attrs;
  account_names = none ∷ none ∷ [];
}

decode-plain : decode bank (3 ∷ 2 ∷ []) 2 ≡ ok plain_decoded
unfolding decode unless_refused decode_with match match_from starts same_bytes longer slot_names
decode-plain = refl

decode-account_names_example :
    get_elem? plain_decoded.account_names 1 ≡ named (role_names (match bank (3 ∷ 2 ∷ []))) 2 1
decode-account_names_example = decode-account_names bank (3 ∷ 2 ∷ []) 2 1 plain_decoded decode-plain

abbrev moved_event : BorshMeta
moved_event = record {
  kind = event;
  is_account_root = false;
  discriminator = 1 ∷ 2 ∷ 3 ∷ 4 ∷ 5 ∷ 6 ∷ 7 ∷ 8 ∷ [];
}

abbrev with_event : Registry
with_event =
    (
      "Bank",
      add_event moved_event.discriminator (λ b. Structs.decode env 4 (some moved_event) b true)
          bank,
    )
    ∷ []

decode_events-encode_example :
    (payload : List ℕ) × (Structs.encode env 2 4 (some moved_event) moved true ≡ ok payload)
    × (decode_events with_event "Bank" (payload ∷ []) ≡ known moved ∷ [])
unfolding Structs.is_event
decode_events-encode_example =
    decode_events-encode env 2 2 with_event "Bank" bank 4 moved_event moved (unfold by_name in refl)
      refl refl moved-Fits (omega arith) (omega arith)

abbrev counter : InstructionDef
counter = record plain { decode_return = some (decode_return env (int 2 false)) }

abbrev counting : ProgramInterface
counting = record bank { defs = counter ∷ [] }

counter-Chosen : Chosen (3 ∷ []) counter counting.defs
unfolding starts same_bytes
counter-Chosen = record {
  before = [];
  after = [];
  split = refl;
  fits = refl;
  longest = tt;
  first = tt;
}

count-Fits : Fits env 0 (int 2 false) (Value.int (pos 258))
unfolding int_to_bytes le_bytes
count-Fits = Fits.int (2 ∷ 1 ∷ []) (omega arith) refl

decode_return_value-encode_example :
    (raw : List ℕ) × (encode env 1 (Value.int (pos 258)) (int 2 false) ≡ ok raw)
    × (decode_return_value (("Bank", counting) ∷ []) "Bank" (some (3 ∷ [])) raw
        ≡ returned (Value.int (pos 258)))
decode_return_value-encode_example =
    decode_return_value-encode env 0 1 (("Bank", counting) ∷ []) "Bank" counting counter (3 ∷ [])
      (int 2 false) (Value.int (pos 258)) (unfold by_name in refl) counter-Chosen refl count-Fits
      (omega arith) (omega arith)

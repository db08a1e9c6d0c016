-- ===== src/Tests/Precompiles.antt =====
-- Precompile instructions on concrete inputs.
use wake_sol.Prelude.{ℕ, ◌≡◌, refl, true, none, some, List, [], ◌∷◌, ◌++◌, replicate}
use wake_sol.Prelude.Int.{pos}
use wake_sol.Codec.Result.{ok}
use wake_sol.Codec.Bytes.{le_bytes, int_to_bytes}
use wake_sol.Builder.Structs.{same_bytes}
use wake_sol.Precompiles.Claims.{
  Ref, inline, ref, SignedMessage, CurveSpec, pack_field, pack_fields, offset_fields, pack_offsets,
  signature_blob, check_claim,
}
use wake_sol.Precompiles.Placement.{
  Instruction, PrecompileInstruction, instruction, deferred, Object, find, find_after, index_of,
  by_target, locate, only, search_in, offset_in, resolve_ref,
}
use wake_sol.Precompiles.Assembly.{
  place, place_claim, place_claims, inline_index, start, header, build_instruction_data, resolve,
  concrete, materialize_from, materialize,
}
use wake_sol.Precompiles.Find.{OnlyAt, resolve_ref-OnlyAt}

abbrev curve : CurveSpec
curve = record {
  name = "k1";
  program_id = "K1";
  identity_size = 2;
  index_width = 1;
  has_recovery = true;
  inline_ix = none;
}

abbrev target : Ref
target = record { target = some 7; offset = none; size = none; index = none }

abbrev claim : SignedMessage
claim = record {
  curve = "k1";
  identity = 5 ∷ 6 ∷ [];
  signature = replicate 64 0;
  message = 2 ∷ 3 ∷ [];
  recovery_id = some (pos 1);
  signature_at = inline;
  identity_at = inline;
  message_at = ref target;
}

abbrev program_ix : Instruction
program_ix = record { program_id = "P"; accounts = []; ix_data = 1 ∷ 2 ∷ 3 ∷ 4 ∷ [] }

abbrev claim_ix : PrecompileInstruction
claim_ix = record { spec = curve; claims = claim ∷ [] }

abbrev ixs : List Object
ixs = (7, instruction program_ix) ∷ (8, deferred claim_ix) ∷ []

-- The message is found in the first instruction; the rest is inline, behind the offsets.
abbrev resolved : Instruction
resolved = record {
  program_id = "K1";
  accounts = [];
  ix_data = 1 ∷ 14 ∷ 0 ∷ 1 ∷ 12 ∷ 0 ∷ 1 ∷ 1 ∷ 0 ∷ 2 ∷ 0 ∷ 0 ∷ 5 ∷ 6 ∷ (replicate 64 0 ++ 1 ∷ []);
}

resolve_ref-target : resolve_ref target (2 ∷ 3 ∷ []) (some ixs) ≡ ok (pos 0, pos 1)
unfolding resolve_ref locate by_target index_of offset_in search_in only find_after find same_bytes
resolve_ref-target = refl

resolve_ref-OnlyAt_example :
    (bytes : List ℕ) × (locate (some 7) none (some ixs) ≡ ok (pos 0, some bytes))
    × OnlyAt (2 ∷ 3 ∷ []) bytes (pos 1)
resolve_ref-OnlyAt_example =
    resolve_ref-OnlyAt target (2 ∷ 3 ∷ []) (some ixs) (pos 0) (pos 1) refl resolve_ref-target

materialize-ixs : materialize ixs ≡ ok (program_ix ∷ resolved ∷ [])
unfolding materialize materialize_from concrete resolve build_instruction_data place_claims
    place_claim place inline_index start header check_claim signature_blob pack_offsets
    offset_fields pack_fields pack_field int_to_bytes le_bytes resolve_ref locate by_target index_of
    offset_in search_in only find_after find same_bytes
materialize-ixs = refl

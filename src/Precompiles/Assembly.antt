-- ===== src/Precompiles/Assembly.antt =====
-- `build_instruction_data`, `build_verify`, `pack`, `PrecompileInstruction` and `materialize` of
-- _precompiles.py.
use wake_sol.Prelude.{
  ℕ, suc, ◌+◌, ◌*◌, ◌%◌, Bool, true, false, ◌||◌, String, Option, none, some, List, [], ◌∷◌, ◌++◌,
  ◌==◌, if◌then◌else◌, length,
}
use wake_sol.Prelude.Int.{ℤ, pos}
use wake_sol.Codec.Result.{Result, ok, err, value_error, type_error, ◌>>=◌, ◌>>◌}
use wake_sol.Codec.Bytes.{int_to_bytes}
use wake_sol.Codec.Value.{no_attrs, attr, Value}
use wake_sol.Interface.Defs.{DecodedInstruction}
use wake_sol.Precompiles.Claims.{
  Placement, inline, ref, SignedMessage, Offsets, CurveSpec, offsets_size, header_size,
  pack_offsets, signature_blob, check_claim, has_refs,
}
use wake_sol.Precompiles.Placement.{
  Instruction, PrecompileInstruction, Content, instruction, deferred, other, Object, resolve_ref,
}

-- The variables of the loop: `body`, `offset_structs` and `cursor`.
pub record Assembly : Type 0 where
  pub body : List ℕ
  pub offset_structs : List ℕ
  pub cursor : ℕ

-- An entry of `placed`: offset, instruction index and size.
pub record Placed : Type 0 where
  pub offset : ℤ
  pub ix : ℤ
  pub size : ℤ

size_or : Option ℤ → List ℕ → ℤ
size_or (some size) value = size
size_or none value = pos (length value)

-- One turn of the inner loop.
unfoldable pub place :
    ℤ → Option (List Object) → Placement → List ℕ → Assembly → Result (Placed × Assembly)
unfolding size_or
place inline_ix ixs inline value a = ok (
  record { offset = pos a.cursor; ix = inline_ix; size = pos (length value) },
  record a { body = a.body ++ value; cursor = a.cursor + length value },
)
place inline_ix ixs (ref r) value a = do
  (idx, off) ← resolve_ref r value ixs
  ok (record { offset = off; ix = idx; size = size_or r.size value }, a)

-- One turn of the outer loop.
unfoldable pub place_claim :
    CurveSpec → ℤ → Option (List Object) → SignedMessage → Assembly → Result Assembly
place_claim spec inline_ix ixs sm a = do
  check_claim spec sm
  blob ← signature_blob spec sm
  (identity, a1) ← place inline_ix ixs sm.identity_at sm.identity a
  (signature, a2) ← place inline_ix ixs sm.signature_at blob a1
  (message, a3) ← place inline_ix ixs sm.message_at sm.message a2
  packed ← pack_offsets spec (record {
    signature_offset = signature.offset;
    identity_offset = identity.offset;
    message_offset = message.offset;
    message_size = message.size;
    signature_ix = signature.ix;
    identity_ix = identity.ix;
    message_ix = message.ix;
  })
  ok (record a3 { offset_structs = a3.offset_structs ++ packed })

unfoldable pub place_claims :
    CurveSpec → ℤ → Option (List Object) → List SignedMessage → Assembly → Result Assembly
place_claims spec inline_ix ixs [] a = ok a
place_claims spec inline_ix ixs (sm ∷ claims) a = do
  a' ← place_claim spec inline_ix ixs sm a
  place_claims spec inline_ix ixs claims a'

-- `spec.inline_ix if spec.inline_ix is not None else self_index`
unfoldable pub inline_index : Option ℤ → ℕ → ℤ
inline_index (some ix) self_index = ix
inline_index none self_index = pos self_index

header_of : Option (List ℕ) → ℕ → Result (List ℕ)
header_of none size = err value_error
header_of (some count) size = ok (if size == 2 then count ++ 0 ∷ [] else count)

unfoldable pub start : CurveSpec → ℕ → Assembly
start spec count = record {
  body = [];
  offset_structs = [];
  cursor = header_size spec + offsets_size spec * count;
}

-- `bytes([count]) + (b"\x00" if spec.header_size == 2 else b"")`
unfoldable pub header : CurveSpec → ℕ → Result (List ℕ)
unfolding header_of
header spec count = header_of (int_to_bytes 1 false (pos count)) (header_size spec)

unfoldable pub build_instruction_data :
    CurveSpec → List SignedMessage → ℕ → Option (List Object) → Result (List ℕ)
build_instruction_data spec claims self_index ixs = do
  a ←
      place_claims spec (inline_index spec.inline_ix self_index) ixs claims
        (start spec (length claims))
  head ← header spec (length claims)
  ok (head ++ (a.offset_structs ++ a.body))

-- The eager checks of `PrecompileInstruction.__init__`.
unfoldable pub check_claims : CurveSpec → List SignedMessage → Result (Unit {0})
check_claims spec [] = ok tt
check_claims spec (sm ∷ claims) = do
  check_claim spec sm
  _ ← signature_blob spec sm
  check_claims spec claims

unfoldable pub precompile_instruction :
    CurveSpec → List SignedMessage → Result PrecompileInstruction
precompile_instruction spec claims = do
  check_claims spec claims
  ok (record { spec = spec; claims = claims })

unfoldable pub resolve : PrecompileInstruction → ℕ → Option (List Object) → Result Instruction
resolve p self_index ixs = do
  bytes ← build_instruction_data p.spec p.claims self_index ixs
  ok (record { program_id = p.spec.program_id; accounts = []; ix_data = bytes })

has_no_sentinel : Option ℤ → Bool
has_no_sentinel none = true
has_no_sentinel (some _) = false

-- The `Instruction` or the `PrecompileInstruction` that `build_verify` returns.
unfoldable pub build_verify : CurveSpec → List SignedMessage → Result Content
unfolding has_no_sentinel
build_verify spec claims =
    if has_no_sentinel spec.inline_ix || has_refs claims
    then (do p ← precompile_instruction spec claims; ok (deferred p))
    else do
      bytes ← build_instruction_data spec claims 0 none
      ok (instruction (record { program_id = spec.program_id; accounts = []; ix_data = bytes }))

unfoldable pub pack_all : CurveSpec → List Offsets → Result (List ℕ)
pack_all spec [] = ok []
pack_all spec (o ∷ entries) = do
  packed ← pack_offsets spec o
  rest ← pack_all spec entries
  ok (packed ++ rest)

-- `pack`, with a count that is not negative; `count & 0xFF` is the remainder by 256.
unfoldable pub pack : CurveSpec → ℕ → List Offsets → List ℕ → Result Instruction
pack spec count entries bytes = do
  head ← header spec (count % 256)
  packed ← pack_all spec entries
  ok (record { program_id = spec.program_id; accounts = []; ix_data = head ++ (packed ++ bytes) })

unfoldable pub concrete : ℕ → List Object → Content → Result Instruction
concrete i ixs (instruction ix) = ok ix
concrete i ixs (deferred p) = resolve p i (some ixs)
concrete i ixs other = err type_error

-- The loop of `materialize` from index `i`.
unfoldable pub materialize_from : ℕ → List Object → List Object → Result (List Instruction)
materialize_from i ixs [] = ok []
materialize_from i ixs ((_, c) ∷ rest) = do
  ix ← concrete i ixs c
  more ← materialize_from (suc i) ixs rest
  ok (ix ∷ more)

unfoldable pub materialize : List Object → Result (List Instruction)
materialize ixs = materialize_from 0 ixs ixs

first_or_zero : List ℕ → ℕ
first_or_zero [] = 0
first_or_zero (count ∷ _) = count

-- `_PrecompileInterface.decode`, of the interface with that display name.
unfoldable pub decode_verify : String → List ℕ → ℕ → Result DecodedInstruction
unfolding first_or_zero
decode_verify display bytes n_accounts = ok (record {
  program_name = some display;
  name = some "verify";
  args = attr "signatures" (Value.int (pos (first_or_zero bytes))) no_attrs;
  account_names = [];
})

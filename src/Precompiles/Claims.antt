-- ===== src/Precompiles/Claims.antt =====
-- Claims, curves and offset structs of _precompiles.py. Python's integers are ℤ where a caller may
-- pass any, so that a field that does not fit its slot is refused when it is packed.
use wake_sol.Prelude.{
  ℕ, String, Bool, true, false, ◌||◌, Option, none, some, List, [], ◌∷◌, ◌++◌, ◌==◌, if◌then◌else◌,
  length, str_eq,
}
use wake_sol.Prelude.Int.{ℤ, pos}
use wake_sol.Codec.Result.{Result, ok, err, value_error, struct_error, ◌>>=◌}
use wake_sol.Codec.Bytes.{int_to_bytes}

-- `CURRENT_INSTRUCTION`
abbrev pub current_instruction : ℤ
current_instruction = pos 0xffff

abbrev pub signature_size : ℕ
signature_size = 64

-- A target is the identity of an instruction object.
pub record Ref : Type 0 where
  pub target : Option ℕ
  pub offset : Option ℤ
  pub size : Option ℤ
  pub index : Option ℤ

pub data Placement : Type 0 where
  inline : Placement
  ref : Ref → Placement

pub record SignedMessage : Type 0 where
  pub curve : String
  pub identity : List ℕ
  pub signature : List ℕ
  pub message : List ℕ
  pub recovery_id : Option ℤ
  pub signature_at : Placement
  pub identity_at : Placement
  pub message_at : Placement

or_same : Option Placement → Placement → Placement
or_same none same = same
or_same (some place) same = place

-- `SignedMessage.at`
unfoldable pub at :
    Option Placement → Option Placement → Option Placement → SignedMessage → SignedMessage
unfolding or_same
at signature identity message sm = record sm {
  signature_at = or_same signature sm.signature_at;
  identity_at = or_same identity sm.identity_at;
  message_at = or_same message sm.message_at;
}

pub record Offsets : Type 0 where
  pub signature_offset : ℤ
  pub identity_offset : ℤ
  pub message_offset : ℤ
  pub message_size : ℤ
  pub signature_ix : ℤ
  pub identity_ix : ℤ
  pub message_ix : ℤ

-- `index_width` is 2 or 1.
pub record CurveSpec : Type 0 where
  pub name : String
  pub program_id : String
  pub identity_size : ℕ
  pub index_width : ℕ
  pub has_recovery : Bool
  pub inline_ix : Option ℤ

abbrev pub offsets_size : CurveSpec → ℕ
offsets_size spec = if spec.index_width == 2 then 14 else 11

abbrev pub header_size : CurveSpec → ℕ
header_size spec = if spec.index_width == 2 then 2 else 1

-- One field of `struct.pack`, `w` bytes wide, before the later ones.
unfoldable pub pack_field : Option (List ℕ) → Result (List ℕ) → Result (List ℕ)
pack_field none rest = err struct_error
pack_field (some bs) rest = do more ← rest; ok (bs ++ more)

unfoldable pub pack_fields : List (ℕ × ℤ) → Result (List ℕ)
pack_fields [] = ok []
pack_fields ((w, z) ∷ fields) = pack_field (int_to_bytes w false z) (pack_fields fields)

-- `w` is the width of the instruction indices.
unfoldable pub offset_fields : ℕ → Offsets → List (ℕ × ℤ)
offset_fields w o =
    (2, o.signature_offset)
    ∷ (w, o.signature_ix)
    ∷ (2, o.identity_offset)
    ∷ (w, o.identity_ix)
    ∷ (2, o.message_offset)
    ∷ (2, o.message_size)
    ∷ (w, o.message_ix)
    ∷ []

-- `_pack_offsets`
unfoldable pub pack_offsets : CurveSpec → Offsets → Result (List ℕ)
pack_offsets spec o = pack_fields (offset_fields (if spec.index_width == 2 then 2 else 1) o)

recovery_byte : Option (List ℕ) → Result (List ℕ)
recovery_byte none = err value_error
recovery_byte (some bs) = ok bs

with_recovery : List ℕ → Option ℤ → Result (List ℕ)
with_recovery sig none = err value_error
with_recovery sig (some id) = do b ← recovery_byte (int_to_bytes 1 false id); ok (sig ++ b)

-- `_signature_blob`
unfoldable pub signature_blob : CurveSpec → SignedMessage → Result (List ℕ)
unfolding with_recovery recovery_byte
signature_blob spec sm =
    if length sm.signature == signature_size
    then if spec.has_recovery then with_recovery sm.signature sm.recovery_id else ok sm.signature
    else err value_error

-- `_check_claim`
unfoldable pub check_claim : CurveSpec → SignedMessage → Result (Unit {0})
check_claim spec sm =
    if str_eq sm.curve spec.name
    then if length sm.identity == spec.identity_size then ok tt else err value_error
    else err value_error

is_ref : Placement → Bool
is_ref inline = false
is_ref (ref _) = true

-- `_has_refs`
unfoldable pub has_refs : List SignedMessage → Bool
unfolding is_ref
has_refs [] = false
has_refs (sm ∷ claims) =
    is_ref sm.identity_at || is_ref sm.signature_at || is_ref sm.message_at || has_refs claims

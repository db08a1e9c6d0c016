-- ===== src/Programs/Pack.antt =====
-- What the built-in programs use of Python's `struct` and of the builder.
use wake_sol.Prelude.{
  ℕ, ◌+◌, Bool, false, String, Option, none, some, List, [], ◌∷◌, ◌++◌, leb, ltb, if◌then◌else◌,
  length, take, drop, get_elem?,
}
use wake_sol.Prelude.Int.{ℤ}
use wake_sol.Codec.Result.{
  Result, ok, err, value_error, index_error, overflow_error, struct_error, ◌>>=◌,
}
use wake_sol.Codec.Bytes.{from_le, int_to_bytes}
use wake_sol.Codec.Value.{Value}
use wake_sol.Codec.Node.{Env}
use wake_sol.Codec.Write.{to_pubkey}
use wake_sol.Builder.Metas.{AccountMeta, MetaLike, as_meta, Slot, build_metas}
use wake_sol.Precompiles.Placement.{Instruction}

-- `bytes([tag, z])` after the tag.
unfoldable pub byte_or_error : Option (List ℕ) → Result (List ℕ)
byte_or_error none = err value_error
byte_or_error (some bs) = ok bs

unfoldable pub byte_of : ℤ → Result (List ℕ)
unfolding byte_or_error
byte_of z = byte_or_error (int_to_bytes 1 false z)

-- `data[i]`
unfoldable pub item_or_error : Option ℕ → Result ℕ
item_or_error none = err index_error
item_or_error (some b) = ok b

unfoldable pub item : List ℕ → ℕ → Result ℕ
unfolding item_or_error
item bs i = item_or_error (get_elem? bs i)

-- `data[first : first + n]`
abbrev pub slice : ℕ → ℕ → List ℕ → List ℕ
slice first n bs = take n (drop first bs)

-- The bytes from `offset` on, if `struct.unpack_from` accepts `size` bytes there.
unfoldable pub unpack_from : ℕ → List ℕ → ℕ → Result (List ℕ)
unpack_from size bs offset =
    if ltb offset 0x8000000000000000
    then if leb (offset + size) (length bs) then ok (drop offset bs) else err struct_error
    else err overflow_error

abbrev pub u64_at : ℕ → List ℕ → ℕ
u64_at first bs = from_le (slice first 8 bs)

-- `Pubkey(bytes(data[first:first + 32]))`
abbrev pub key_at : Env → ℕ → List ℕ → Result (List ℕ)
key_at env first bs = to_pubkey env (Value.bytes (slice first 32 bs))

unfoldable pub as_metas : Env → List MetaLike → Result (List AccountMeta)
as_metas env [] = ok []
as_metas env (v ∷ vs) = do m ← as_meta env v; ms ← as_metas env vs; ok (m ∷ ms)

-- The class attribute `program_id`: its base58 text and its bytes.
pub record Program : Type 0 where
  pub id : String
  pub key : List ℕ

-- The metas of the slots and of the remaining accounts, and the instruction.
unfoldable pub instruction_of :
    Env → Program → List Slot → List MetaLike → List ℕ → Result Instruction
instruction_of env program slots remaining_accounts bytes = do
  built ← build_metas env program.key slots
  rest ← as_metas env remaining_accounts
  ok (record { program_id = program.id; accounts = built.metas ++ rest; ix_data = bytes })

-- A required slot.
abbrev pub slot : Option MetaLike → Bool → Bool → Slot
slot value is_signer is_writable = record {
  value = value;
  is_signer = is_signer;
  is_writable = is_writable;
  is_optional = false;
}

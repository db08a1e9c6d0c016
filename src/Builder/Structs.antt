-- ===== src/Builder/Structs.antt =====
-- `BorshStruct.encode` and `BorshStruct.decode` of _codec/builder.py.
use wake_sol.Prelude.{
  ℕ, Bool, true, false, ◌&&◌, ◌||◌, Option, none, some, List, [], ◌∷◌, ◌++◌, ◌==◌, if◌then◌else◌,
  length, take, drop,
}
use wake_sol.Codec.Result.{Result, ok, err, borsh, discriminator_mismatch, ◌>>=◌}
use wake_sol.Codec.Value.{ClassId, Value}
use wake_sol.Codec.Node.{defined, Env}
use wake_sol.Codec.Entry
use wake_sol.Codec.Entry.{Mode, ix_data, account_data}

-- The kinds of `BorshMeta` (_codec/meta.py).
pub data Kind : Type 0 where
  struct account event enum : Kind

-- The fields of `BorshMeta` that the methods read.
pub record BorshMeta : Type 0 where
  pub kind : Kind
  pub is_account_root : Bool
  pub discriminator : List ℕ

-- `a == b` on bytes.
unfoldable pub same_bytes : List ℕ → List ℕ → Bool
same_bytes [] [] = true
same_bytes [] (b ∷ bs) = false
same_bytes (a ∷ as') [] = false
same_bytes (a ∷ as') (b ∷ bs) = a == b && same_bytes as' bs

unfoldable pub is_empty : List ℕ → Bool
is_empty [] = true
is_empty (_ ∷ _) = false

unfoldable pub is_event : Kind → Bool
is_event event = true
is_event _ = false

-- What `encode` puts in front of the body.
unfoldable pub encode_prefix : Option BorshMeta → Bool → List ℕ
encode_prefix none with_discriminator = []
encode_prefix (some meta) with_discriminator = if with_discriminator then meta.discriminator else []

unfoldable pub encode : Env → ℕ → ClassId → Option BorshMeta → Value → Bool → Result (List ℕ)
unfolding encode_prefix
encode env fuel c meta self with_discriminator = do
  body ← Entry.encode env fuel self (defined c)
  ok (encode_prefix meta with_discriminator ++ body)

unfoldable pub is_account : Option BorshMeta → Bool
is_account none = false
is_account (some meta) = meta.is_account_root

-- The discriminator that `decode` strips and verifies; empty for none.
unfoldable pub decode_prefix : Option BorshMeta → Bool → List ℕ
decode_prefix none with_discriminator = []
decode_prefix (some meta) with_discriminator =
    if (meta.is_account_root || is_event meta.kind) && with_discriminator
    then meta.discriminator
    else []

unfoldable pub decode : Env → ClassId → Option BorshMeta → List ℕ → Bool → Result Value
decode env c meta bytes with_discriminator =
    let disc = decode_prefix meta with_discriminator in
    let mode = if is_account meta then account_data else ix_data in
    if same_bytes (take (length disc) bytes) disc
    then Entry.decode env (drop (length disc) bytes) (defined c) mode
    else err (borsh discriminator_mismatch 0 [])

-- ===== src/Builder/Metas.antt =====
-- `as_meta`, `slot` and `build_metas` of _codec/builder.py.
use wake_sol.Prelude.{
  ℕ, Bool, true, false, not, ◌||◌, Option, none, some, List, [], ◌∷◌, if◌then◌else◌,
}
use wake_sol.Codec.Result.{Result, ok, err, value_error, ◌>>=◌}
use wake_sol.Codec.Value.{Value}
use wake_sol.Codec.Node.{Env}
use wake_sol.Codec.Write.{to_pubkey}

-- The native `AccountMeta`.
pub record AccountMeta : Type 0 where
  pub pubkey : List ℕ
  pub is_signer : Bool
  pub is_writable : Bool

-- An explicit `AccountMeta`, or what the native constructor takes for an address.
pub data MetaLike : Type 0 where
  meta : AccountMeta → MetaLike
  address : Value → MetaLike

-- `AccountMeta(value, is_signer, is_writable)`
unfoldable pub account_meta : Env → Value → Bool → Bool → Result AccountMeta
account_meta env value is_signer is_writable = do
  key ← to_pubkey env value
  ok (record { pubkey = key; is_signer = is_signer; is_writable = is_writable })

unfoldable pub as_meta : Env → MetaLike → Result AccountMeta
as_meta env (meta m) = ok m
as_meta env (address v) = account_meta env v false false

pub record Slot : Type 0 where
  pub value : Option MetaLike
  pub is_signer : Bool
  pub is_writable : Bool
  pub is_optional : Bool

-- The metas so far, and those for which a warning was given.
pub record Built : Type 0 where
  pub metas : List AccountMeta
  pub warned : List AccountMeta

abbrev pub differ : Bool → Bool → Bool
differ true b = not b
differ false b = b

unfoldable pub push : AccountMeta → Bool → Result Built → Result Built
push m warn rest = do
  built ← rest
  ok (record { metas = m ∷ built.metas; warned = if warn then m ∷ built.warned else built.warned })

-- One turn of the loop, before the later slots.
unfoldable pub place : Env → List ℕ → Slot → Option MetaLike → Result Built → Result Built
unfolding push
place env program_id s none rest =
    if s.is_optional
    then push (record { pubkey = program_id; is_signer = false; is_writable = false }) false rest
    else err value_error
place env program_id s (some (meta m)) rest =
    push m (differ m.is_signer s.is_signer || differ m.is_writable s.is_writable) rest
place env program_id s (some (address v)) rest = do
  m ← account_meta env v s.is_signer s.is_writable
  push m false rest

unfoldable pub build_metas : Env → List ℕ → List Slot → Result Built
build_metas env program_id [] = ok (record { metas = []; warned = [] })
build_metas env program_id (s ∷ slots) =
    place env program_id s s.value (build_metas env program_id slots)

-- ===== src/Precompiles/Placement.antt =====
-- `_resolve_ref` of _precompiles.py. The transaction's list holds objects with an identity.
use wake_sol.Prelude.{
  ℕ, suc, String, Option, none, some, List, [], ◌∷◌, ◌==◌, if◌then◌else◌, length, take, drop,
  get_elem?, leb,
}
use wake_sol.Prelude.Int.{ℤ, pos, negsuc}
use wake_sol.Codec.Result.{Result, ok, err, value_error, ◌>>=◌}
use wake_sol.Builder.Metas.{AccountMeta}
use wake_sol.Builder.Structs.{same_bytes}
use wake_sol.Precompiles.Claims.{Ref, SignedMessage, CurveSpec}

-- The native `Instruction`.
pub record Instruction : Type 0 where
  pub program_id : String
  pub accounts : List AccountMeta
  pub ix_data : List ℕ

pub record PrecompileInstruction : Type 0 where
  pub spec : CurveSpec
  pub claims : List SignedMessage

pub data Content : Type 0 where
  instruction : Instruction → Content
  deferred : PrecompileInstruction → Content
  other : Content

-- An object: its identity and what it is.
abbrev pub Object : Type 0
Object = ℕ × Content

-- The first place of `value` in `data`, which starts at place `i`: `data.find(value)`.
unfoldable pub find : List ℕ → List ℕ → ℕ → Option ℕ
find value [] i = if same_bytes value [] then some i else none
find value (b ∷ bytes) i =
    if same_bytes (take (length value) (b ∷ bytes)) value then some i else find value bytes (suc i)

-- `data.find(value, start)`
unfoldable pub find_after : List ℕ → List ℕ → ℕ → Option ℕ
find_after value bytes start =
    if leb start (length bytes) then find value (drop start bytes) start else none

unfoldable pub data_of : Option Object → Option (List ℕ)
data_of (some (_, instruction ix)) = some ix.ix_data
data_of _ = none

-- `next((j for j, other in enumerate(ix_list) if other is target), None)`
unfoldable pub index_of : ℕ → List Object → ℕ → Option (ℕ × Content)
index_of target [] j = none
index_of target ((id, c) ∷ ixs) j =
    if id == target then some (j, c) else index_of target ixs (suc j)

-- A raw index and the data of the instruction that it names, if it names one.
unfoldable pub by_index : ℤ → Option (List Object) → ℤ × Option (List ℕ)
by_index idx none = (idx, none)
by_index (pos i) (some ixs) = (pos i, data_of (get_elem? ixs i))
by_index (negsuc i) (some ixs) = (negsuc i, none)

found_target : Option (ℕ × Content) → Result (ℤ × Option (List ℕ))
found_target none = err value_error
found_target (some (j, instruction ix)) = ok (pos j, some ix.ix_data)
found_target (some (_, _)) = err value_error

unfoldable pub by_target : ℕ → Option (List Object) → Result (ℤ × Option (List ℕ))
unfolding found_target
by_target target none = err value_error
by_target target (some ixs) = found_target (index_of target ixs 0)

unfoldable pub locate : Option ℕ → Option ℤ → Option (List Object) → Result (ℤ × Option (List ℕ))
locate none none ixs = err value_error
locate (some _) (some _) ixs = err value_error
locate none (some idx) ixs = ok (by_index idx ixs)
locate (some target) none ixs = by_target target ixs

-- The first place, if there is no second.
unfoldable pub only : ℤ → ℕ → Option ℕ → Result (ℤ × ℤ)
only idx first none = ok (idx, pos first)
only idx first (some _) = err value_error

unfoldable pub search_in : ℤ → List ℕ → List ℕ → Option ℕ → Result (ℤ × ℤ)
search_in idx value bytes none = err value_error
search_in idx value bytes (some first) = only idx first (find_after value bytes (suc first))

unfoldable pub offset_in : Option ℤ → List ℕ → ℤ × Option (List ℕ) → Result (ℤ × ℤ)
offset_in (some offset) value (idx, _) = ok (idx, offset)
offset_in none value (idx, none) = err value_error
offset_in none value (idx, some bytes) = search_in idx value bytes (find_after value bytes 0)

-- `_resolve_ref`: the instruction's index and the byte offset.
unfoldable pub resolve_ref : Ref → List ℕ → Option (List Object) → Result (ℤ × ℤ)
resolve_ref r value ixs = do there ← locate r.target r.index ixs; offset_in r.offset value there

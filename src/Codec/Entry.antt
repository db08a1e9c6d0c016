-- ===== src/Codec/Entry.antt =====
-- `decode` and `encode` of _codec/codec.py.
use wake_sol.Prelude.{ℕ, suc, List, [], ◌==◌, if◌then◌else◌, length}
use wake_sol.Codec.Result.{Result, ok, err, borsh, trailing_bytes, ◌>>=◌}
use wake_sol.Codec.Value.{Value}
use wake_sol.Codec.Node.{Node, Env}
use wake_sol.Codec.Cursor.{Cursor, cursor, max_decode_depth}
use wake_sol.Codec.Read.{read}
use wake_sol.Codec.Write.{write}

pub data Mode : Type 0 where
  ix_data account_data : Mode

-- The trailing bytes that instruction data may not have.
unfoldable pub finish : Mode → Value × Cursor → Result Value
finish ix_data (value, cur) =
    if cur.pos == length cur.buf
    then ok value
    else err (borsh (trailing_bytes cur.pos (length cur.buf)) cur.pos [])
finish account_data (value, cur) = ok value

abbrev pub decode_fuel : ℕ
decode_fuel = suc max_decode_depth

unfoldable pub decode : Env → List ℕ → Node → Mode → Result Value
unfolding finish
decode env buf node mode = do r ← read env node decode_fuel [] (cursor buf); finish mode r

-- `fuel` bounds how deep the composite nodes of the value are nested.
unfoldable pub encode : Env → ℕ → Value → Node → Result (List ℕ)
encode env fuel value node = write env node fuel value [] []

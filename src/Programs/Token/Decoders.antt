-- ===== src/Programs/Token/Decoders.antt =====
-- The decode closures of _programs/token.py.
use wake_sol.Prelude.{ℕ, List, ltb, ◌==◌, if◌then◌else◌, length}
use wake_sol.Prelude.Int.{pos}
use wake_sol.Codec.Result.{Result, ok, ◌>>=◌}
use wake_sol.Codec.Value.{Value, Attrs, no_attrs, attr}
use wake_sol.Codec.Node.{Env}
use wake_sol.Programs.Pack.{item, unpack_from, u64_at, key_at}

-- `_none`
unfoldable pub no_args : List ℕ → Result Attrs
no_args d = ok no_attrs

unfoldable pub amount : List ℕ → Result Attrs
amount d = do r ← unpack_from 8 d 0; ok (attr "amount" (Value.int (pos (u64_at 0 r))) no_attrs)

unfoldable pub amount_decimals : List ℕ → Result Attrs
amount_decimals d = do
  r ← unpack_from 9 d 0
  decimals ← item r 8
  ok (
      attr "amount" (Value.int (pos (u64_at 0 r)))
        (attr "decimals" (Value.int (pos decimals)) no_attrs))

-- `d[33]`, where it is read only if it is there.
freeze_of : Env → List ℕ → Result Value
freeze_of env d =
    if ltb 33 (length d)
    then (do
      tag ← item d 33
      (if tag == 1 then (do key ← key_at env 34 d; ok (Value.pubkey key)) else ok Value.null))
    else ok Value.null

unfoldable pub initialize_mint : Env → List ℕ → Result Attrs
unfolding freeze_of
initialize_mint env d = do
  decimals ← item d 0
  mint_authority ← key_at env 1 d
  freeze_authority ← freeze_of env d
  ok (
      attr "decimals" (Value.int (pos decimals)) (
        attr "mint_authority" (Value.pubkey mint_authority)
          (attr "freeze_authority" freeze_authority no_attrs)))

unfoldable pub owner : Env → List ℕ → Result Attrs
owner env d = do key ← key_at env 0 d; ok (attr "owner" (Value.pubkey key) no_attrs)

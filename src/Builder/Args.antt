-- ===== src/Builder/Args.antt =====
-- `encode_ix_layout`, `make_borsh_decoder` and `make_returns_decoder` of _codec/builder.py.
use wake_sol.Prelude.{ℕ, List, [], ◌∷◌, ◌==◌, if◌then◌else◌, length}
use wake_sol.Codec.Result.{Result, ok, err, borsh, value_error, trailing_bytes, ◌>>=◌, name}
use wake_sol.Codec.Value.{Value, Values, nil, cons, Attrs, count}
use wake_sol.Codec.Node.{Node, Fields, Env}
use wake_sol.Codec.Cursor.{Cursor, cursor}
use wake_sol.Codec.Read.{read_fields, read}
use wake_sol.Codec.Write.{Writer, write}
use wake_sol.Codec.Entry.{decode_fuel}

-- `for node, value in zip(layout, values): node.write(value, out, ())`
unfoldable pub write_args : Env → ℕ → List Node → Values → Writer
write_args env fuel [] vs = λ out. ok out
write_args env fuel (node ∷ layout) nil = λ out. ok out
write_args env fuel (node ∷ layout) (cons v vs) =
    λ out. do out' ← write env node fuel v [] out; write_args env fuel layout vs out'

unfoldable pub encode_ix_layout : Env → ℕ → List ℕ → List Node → Values → Result (List ℕ)
encode_ix_layout env fuel discriminator layout values =
    if count values == length layout
    then write_args env fuel layout values discriminator
    else err value_error

-- Both decoders refuse bytes that are left over.
unfoldable pub exact {ℓ} : {A : Type ℓ} → A × Cursor → Result A
exact (a, cur) =
    if cur.pos == length cur.buf
    then ok a
    else err (borsh (trailing_bytes cur.pos (length cur.buf)) cur.pos [])

-- `make_borsh_decoder(layout)`: the arguments by name, in order.
unfoldable pub decode_args : Env → Fields → List ℕ → Result Attrs
decode_args env layout bytes = do
  r ← read_fields (λ k node. read env node decode_fuel (name k ∷ [])) layout (cursor bytes)
  exact r

-- `make_returns_decoder(node)`
unfoldable pub decode_return : Env → Node → List ℕ → Result Value
decode_return env node bytes = do
  r ← read env node decode_fuel (name "<returns>" ∷ []) (cursor bytes)
  exact r

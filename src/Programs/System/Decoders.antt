-- ===== src/Programs/System/Decoders.antt =====
-- The decode closures of _programs/system.py.
use wake_sol.Prelude.{ℕ, ◌+◌, Option, none, some, List, [], ◌∷◌, ◌++◌}
use wake_sol.Prelude.Int.{pos}
use wake_sol.Codec.Result.{Result, ok, ◌>>=◌}
use wake_sol.Codec.Utf8.{Decoding, start, inside, first_byte, next_byte}
use wake_sol.Codec.Value.{Value, Attrs, no_attrs, attr}
use wake_sol.Codec.Node.{Env}
use wake_sol.Programs.Pack.{slice, unpack_from, u64_at, key_at}

unfoldable pub create_account : Env → List ℕ → Result Attrs
create_account env d = do
  r ← unpack_from 16 d 0
  key ← key_at env 16 d
  ok (
      attr "lamports" (Value.int (pos (u64_at 0 r)))
        (attr "space" (Value.int (pos (u64_at 8 r))) (attr "owner" (Value.pubkey key) no_attrs)))

unfoldable pub assign : Env → List ℕ → Result Attrs
assign env d = do key ← key_at env 0 d; ok (attr "owner" (Value.pubkey key) no_attrs)

unfoldable pub transfer : List ℕ → Result Attrs
transfer d = do r ← unpack_from 8 d 0; ok (attr "lamports" (Value.int (pos (u64_at 0 r))) no_attrs)

unfoldable pub allocate : List ℕ → Result Attrs
allocate d = do r ← unpack_from 8 d 0; ok (attr "space" (Value.int (pos (u64_at 0 r))) no_attrs)

-- The replacement character.
abbrev pub replacement : ℕ
replacement = 0xfffd

replaced_at_start : Option (List ℕ × Decoding) → (Decoding → List ℕ) → List ℕ
replaced_at_start none rest = replacement ∷ rest start
replaced_at_start (some (cs, s)) rest = cs ++ rest s

-- A byte that cannot follow ends the code point, and is read again as the first of the next one.
replaced :
    Decoding
    → Option (List ℕ × Decoding)
    → Option (List ℕ × Decoding)
    → (Decoding → List ℕ)
    → List ℕ
replaced start next first rest = replaced_at_start first rest
replaced (inside k lo hi acc) (some (cs, s)) first rest = cs ++ rest s
replaced (inside k lo hi acc) none first rest = replacement ∷ replaced_at_start first rest

unfoldable pub decode_replacing : Decoding → List ℕ → List ℕ
unfolding replaced replaced_at_start
decode_replacing start [] = []
decode_replacing (inside k lo hi acc) [] = replacement ∷ []
decode_replacing s (b ∷ bs) =
    replaced s (next_byte s b) (first_byte b) (λ s'. decode_replacing s' bs)

unfoldable pub create_account_with_seed : Env → List ℕ → Result Attrs
create_account_with_seed env d = do
  base ← key_at env 0 d
  r ← unpack_from 8 d 32
  let slen = u64_at 0 r
  let off = 40 + slen
  q ← unpack_from 16 d off
  key ← key_at env (off + 16) d
  ok (
      attr "base" (Value.pubkey base) (
        attr "seed" (Value.str (decode_replacing start (slice 40 slen d))) (
          attr "lamports" (Value.int (pos (u64_at 0 q))) (
            attr "space" (Value.int (pos (u64_at 8 q)))
              (attr "owner" (Value.pubkey key) no_attrs)))))

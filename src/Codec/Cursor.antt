-- ===== src/Codec/Cursor.antt =====
-- `Cursor` of _codec/codec.py, the single source of bytes: `take` and `descend`.
use wake_sol.Prelude.{ℕ, ◌+◌, ◌-◌, List, ltb, leb, if◌then◌else◌, length, take as take_list, drop}
use wake_sol.Codec.Result as Outcome
use wake_sol.Codec.Result.{Result, ok, err, borsh, Error, Fault, Breadcrumb, short_read, too_deep}

pub record Cursor : Type 0 where
  pub buf : List ℕ
  pub pos : ℕ
  pub depth : ℕ

-- `Cursor(buf)`
abbrev pub cursor : List ℕ → Cursor
cursor buf = record { buf = buf; pos = 0; depth = 0 }

abbrev pub remaining : Cursor → ℕ
remaining cur = length cur.buf - cur.pos

abbrev pub max_decode_depth : ℕ
max_decode_depth = 64

-- A method that advances the cursor; when it raises, the cursor is lost with the call of `decode`.
abbrev pub Reader {ℓ} : Type ℓ → Type ℓ
Reader A = Cursor → Result (A × Cursor)

infixl 5 ◌>>=◌ ◌>>◌
abbrev pub ◌>>=◌ {ℓ κ} : {A : Type ℓ} {B : Type κ} → Reader A → (A → Reader B) → Reader B
m >>= f = λ cur. Outcome.◌>>=◌ (m cur) (λ (a, cur'). f a cur')

abbrev pub ◌>>◌ {ℓ κ} : {A : Type ℓ} {B : Type κ} → Reader A → Reader B → Reader B
m >> k = m >>= λ _. k

abbrev pub pure {ℓ} : {A : Type ℓ} → A → Reader A
pure a cur = ok (a, cur)

-- `raise BorshError(fault, offset=cur.pos - back, path=path)`
abbrev pub raise {ℓ} : {A : Type ℓ} → Fault → ℕ → Breadcrumb → Reader A
raise fault back path cur = err (borsh fault (cur.pos - back) path)

unfoldable pub take : ℕ → Breadcrumb → Reader (List ℕ)
take n path cur =
    if ltb (remaining cur) n
    then err (borsh (short_read n (remaining cur)) cur.pos path)
    else ok (take_list n (drop cur.pos cur.buf), record cur { pos = cur.pos + n })

unfoldable pub leave {ℓ} : {A : Type ℓ} → A → Reader A
leave a cur = ok (a, record cur { depth = cur.depth - 1 })

-- `with cur.descend(path): body`
unfoldable pub descend {ℓ} : {A : Type ℓ} → Breadcrumb → Reader A → Reader A
unfolding leave
descend path body cur =
    let entered = record cur { depth = cur.depth + 1 } in
    if leb (cur.depth + 1) max_decode_depth
    then (body >>= leave) entered
    else err (borsh too_deep cur.pos path)

-- ===== src/Codec/RoundTrip/Main.antt =====
-- Values that fit their node survive the wire (`encode` and `decode` of _codec/codec.py).
use wake_sol.Prelude.{
  ℕ, ◌+◌, ◌≤◌, ◌<◌, ◌≡◌, refl, ◌∙◌, List, [], ◌++◌, append-nil, arith, length, length-append, drop,
  drop-add, ap, sym,
}
use wake_sol.Codec.Result.{Result, ok, err, borsh, trailing_bytes}
use wake_sol.Codec.Value.{Value, Values, Attrs}
use wake_sol.Codec.Node.{Node, Fields, Env}
use wake_sol.Codec.Cursor.{Cursor, cursor, max_decode_depth}
use wake_sol.Codec.MinSize.{min_wire_size}
use wake_sol.Codec.Read.{read}
use wake_sol.Codec.Entry.{ix_data, account_data, finish, decode_fuel, decode, encode}
use wake_sol.Codec.RoundTrip.Reads.{Ahead, advance}
use wake_sol.Codec.RoundTrip.Shape.{Fits, FitsItems, FitsFields}
use wake_sol.Codec.RoundTrip.Codes.{Codes, ItemsCodes, FieldsCodes}
use wake_sol.Codec.RoundTrip.Leaves.{
  int-Codes, double-Codes, single-Codes, bool-Codes, str-Codes, bytes-Codes, fixed_bytes-Codes,
  pubkey-Codes,
}
use wake_sol.Codec.RoundTrip.Sequences.{
  nil-ItemsCodes, cons-ItemsCodes, no_attrs-FieldsCodes, attr-FieldsCodes,
}
use wake_sol.Codec.RoundTrip.Composites.{
  option_absent-Codes, option_present-Codes, opt_absent-Codes, opt_present-Codes, vec-Codes,
  fixed_array-Codes,
}
use wake_sol.Codec.RoundTrip.Defined.{struct-Codes, int_enum-Codes, variant-Codes}

mutual
  pub Fits-Codes :
      {env : Env} {d : ℕ} {node : Node} {value : Value}
      → Fits env d node value
      → Codes env d node value
  Fits-Codes {env} {d} (Fits.int bs h e) = int-Codes env d _ _ _ bs h e
  Fits-Codes {env} {d} (Fits.double number small) = double-Codes env d _ number small
  Fits-Codes {env} {d} (Fits.single raw number narrow widen small) =
      single-Codes env d _ raw number narrow widen small
  Fits-Codes {env} {d} Fits.bool = bool-Codes env d _
  Fits-Codes {env} {d} (Fits.str bs e small) = str-Codes env d _ bs e small
  Fits-Codes {env} {d} (Fits.bytes small) = bytes-Codes env d _ small
  Fits-Codes {env} {d} (Fits.fixed_bytes e) = fixed_bytes-Codes env d _ _ e
  Fits-Codes {env} {d} (Fits.pubkey e) = pubkey-Codes env d _ e
  Fits-Codes {env} (Fits.option_absent {d} {inner}) = option_absent-Codes env d inner
  Fits-Codes {env} (Fits.option_present {d} {inner} {v} present h) =
      option_present-Codes env d inner v present (Fits-Codes h)
  Fits-Codes {env} (Fits.opt_absent {d} {inner}) = opt_absent-Codes env d inner
  Fits-Codes {env} (Fits.opt_present {d} {inner} {v} h) =
      opt_present-Codes env d inner v (Fits-Codes h)
  Fits-Codes {env} (Fits.vec {d} {elem} {vs} small sized h) =
      vec-Codes env d elem vs small sized (FitsItems-Codes h)
  Fits-Codes {env} (Fits.fixed_array {d} {id} {n} {elem} {vs} e h) =
      fixed_array-Codes env d id n elem vs e (FitsItems-Codes h)
  Fits-Codes {env} (Fits.struct {d} {c} {fields} {attrs} e h) =
      struct-Codes env d c fields attrs e (FitsFields-Codes h)
  Fits-Codes {env} (Fits.int_enum {d} {c} {members} {tag} e known small) =
      int_enum-Codes env d c members tag e known small
  Fits-Codes {env}
        (Fits.variant {d} {c} {vcls} {tag} {variants} {fields} {attrs} e known entry small h) =
      variant-Codes env d c vcls tag variants fields attrs e known entry small (FitsFields-Codes h)

  pub FitsItems-Codes :
      {env : Env} {d : ℕ} {elem : Node} {vs : Values}
      → FitsItems env d elem vs
      → ItemsCodes env d elem vs
  FitsItems-Codes {env} {d} {elem} FitsItems.nil = nil-ItemsCodes env d elem
  FitsItems-Codes {env} {d} {elem} (FitsItems.cons {v = v} {vs = vs} h hs) =
      cons-ItemsCodes env d elem v vs (Fits-Codes h) (FitsItems-Codes hs)

  pub FitsFields-Codes :
      {env : Env} {d : ℕ} {whole : Value} {fields : Fields} {attrs : Attrs}
      → FitsFields env d whole fields attrs
      → FieldsCodes env d whole fields attrs
  FitsFields-Codes {env} {d} {whole} FitsFields.no_attrs = no_attrs-FieldsCodes env d whole
  FitsFields-Codes {env} {d} {whole}
        (FitsFields.attr {k = k} {node = node} {fields = fields} {v = v} {attrs = attrs} found h
          hs) =
      attr-FieldsCodes env d whole k node fields v attrs found (Fits-Codes h) (FitsFields-Codes hs)

pub Ahead-cursor :
    (levels : ℕ) (buf : List ℕ) → levels ≤ max_decode_depth → Ahead levels (cursor buf) buf
Ahead-cursor levels buf h = record { bytes = refl; in_buffer = omega arith; shallow = omega arith }

module _ {env : Env} {d : ℕ} {node : Node} {value : Value} (fits : Fits env d node value) where
  -- The encoding of a value that fits its node.
  pub wire : List ℕ
  wire = (Fits-Codes fits).enc

  pub encode-wire : (fuel : ℕ) → d ≤ fuel → encode env fuel value node ≡ ok wire
  unfolding encode wire
  encode-wire fuel h = (Fits-Codes fits).writes fuel [] [] h

  pub encode-eq-wire :
      (fuel : ℕ) (enc : List ℕ) → d ≤ fuel → encode env fuel value node ≡ ok enc → enc ≡ wire
  encode-eq-wire fuel enc h e = cc (encode-wire fuel h)

  read-wire :
      (rest : List ℕ)
      → d ≤ max_decode_depth
      → read env node decode_fuel [] (cursor (wire ++ rest))
        ≡ ok (value, advance (cursor (wire ++ rest)) (length wire))
  unfolding wire
  read-wire rest h =
      ((Fits-Codes fits).reads decode_fuel [] (omega arith)).at (cursor _) rest (Ahead-cursor d _ h)

-- The bytes that a read left.
left : Result (Value × Cursor) → List ℕ
left (ok (_, cur)) = drop cur.pos cur.buf
left _ = []

left-advance :
    (v : Value) (xs ys : List ℕ) → left (ok (v, advance (cursor (xs ++ ys)) (length xs))) ≡ ys
unfolding left
left-advance v xs ys = drop-add 0 (xs ++ ys) xs ys refl

-- A value that fits its node, nested at most 64 levels deep, is encoded whatever fuel beyond its
-- depth is given, and its bytes decode as instruction data to the same value.
pub decode-encode :
    (env : Env) (d fuel : ℕ) (node : Node) (value : Value)
    → Fits env d node value
    → d ≤ max_decode_depth
    → d ≤ fuel
    → (enc : List ℕ) × (encode env fuel value node ≡ ok enc)
      × (decode env enc node ix_data ≡ ok value)
decode-encode env d fuel node value fits shallow enough = (
  wire fits,
  encode-wire fits fuel enough,
  unfold decode finish in
      let whole = rw append-nil at (read-wire fits [] shallow) in rw whole (ground arith),
)

-- Account data ignores what follows.
pub decode_account-encode :
    (env : Env) (d fuel : ℕ) (node : Node) (value : Value) (enc slack : List ℕ)
    → Fits env d node value
    → d ≤ max_decode_depth
    → d ≤ fuel
    → encode env fuel value node ≡ ok enc
    → decode env (enc ++ slack) node account_data ≡ ok value
unfolding decode finish
decode_account-encode env d fuel node value enc slack fits shallow enough e =
    rw (encode-eq-wire fits fuel enc enough e, read-wire fits slack shallow)

-- One or more bytes after the encoding of a value that fits its node, nested at most 64 levels deep
-- and encoded with fuel not below that depth, are ignored in account data, and are refused in
-- instruction data with the position where they start.
pub decode-encode_slack :
    (env : Env) (d fuel : ℕ) (node : Node) (value : Value) (enc slack : List ℕ)
    → Fits env d node value
    → d ≤ max_decode_depth
    → d ≤ fuel
    → encode env fuel value node ≡ ok enc
    → 0 < length slack
    → (decode env (enc ++ slack) node account_data ≡ ok value)
      × (decode env (enc ++ slack) node ix_data
          ≡ err (borsh (trailing_bytes (length enc) (length enc + length slack)) (length enc) []))
decode-encode_slack env d fuel node value enc slack fits shallow enough e some_slack =
    let q = encode-eq-wire fits fuel enc enough e in
    rw q (
      unfold decode finish in
      let longer = length-append (wire fits) slack in
      (
        rw (read-wire fits slack shallow),
        rw (read-wire fits slack shallow) (ground (arith, longer)),
      ))

-- Of values that fit one node, nested at most 64 levels deep, no encoding is the beginning of
-- another: where two of them, made with fuel not below that depth and followed by whatever bytes,
-- agree, the values and what follows are the same.
pub encode_prefix_free :
    (env : Env) (d fuel : ℕ) (node : Node) (v w : Value) (enc enc' rest rest' : List ℕ)
    → Fits env d node v
    → Fits env d node w
    → d ≤ max_decode_depth
    → d ≤ fuel
    → encode env fuel v node ≡ ok enc
    → encode env fuel w node ≡ ok enc'
    → enc ++ rest ≡ enc' ++ rest'
    → (v ≡ w) × (rest ≡ rest')
encode_prefix_free env d fuel node v w enc enc' rest rest' fv fw shallow enough ev ew e =
    let qv = encode-eq-wire fv fuel enc enough ev in
    let qw = encode-eq-wire fw fuel enc' enough ew in
    let same = rw (qv, qw) at e in
    let runs = ap (λ buf. read env node decode_fuel [] (cursor buf)) same in
    let p = read-wire fv rest shallow in
    let q = read-wire fw rest' shallow in
    (
      cc,
      sym (left-advance v (wire fv) rest)
          ∙ ap left (sym p ∙ runs ∙ q)
          ∙ left-advance w (wire fw) rest',
    )

-- `min_wire_size`, by which vectors refuse a count too large for the buffer, is a lower bound for the
-- length of the encoding of a value that fits its node, made with fuel not below its depth.
pub min_wire_size-le-encode :
    (env : Env) (d fuel : ℕ) (node : Node) (value : Value) (enc : List ℕ)
    → Fits env d node value
    → d ≤ fuel
    → encode env fuel value node ≡ ok enc
    → min_wire_size env node ≤ length enc
unfolding min_wire_size
min_wire_size-le-encode env d fuel node value enc fits enough e =
    rw (encode-eq-wire fits fuel enc enough e) (unfold wire in (Fits-Codes fits).floor _ [])

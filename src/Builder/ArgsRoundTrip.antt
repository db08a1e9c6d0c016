-- ===== src/Builder/ArgsRoundTrip.antt =====
-- The arguments that a builder encodes are those that its decoder returns (_codec/builder.py).
use wake_sol.Prelude.{
  ℕ, suc, ◌≤◌, ◌≡◌, refl, sym, subst, ap, String, List, [], ◌∷◌, ◌++◌, append-nil, append_assoc,
  arith, ==_refl, length,
}
use wake_sol.Codec.Result.{ok, name}
use wake_sol.Codec.Value.{Value, Values, nil, cons, Attrs, no_attrs, attr, count}
use wake_sol.Codec.Node.{Node, Fields, Env}
use wake_sol.Codec.Cursor.{cursor, max_decode_depth}
use wake_sol.Codec.Read.{read_fields, read}
use wake_sol.Codec.Entry.{decode_fuel}
use wake_sol.Codec.RoundTrip.{Fits}
use wake_sol.Codec.RoundTrip.Reads.{Ahead, Reads, Reads-pure, Reads-map, Reads-bind}
use wake_sol.Codec.RoundTrip.Main.{Fits-Codes, Ahead-cursor}
use wake_sol.Builder.Args.{write_args, encode_ix_layout, exact, decode_args}

-- The arguments in order, under the names of the layout, each fitting its node.
pub data FitsArgs (env : Env) (d : ℕ) : Fields → Attrs → Type 0 where
  no_args : FitsArgs env d [] no_attrs
  arg :
      {k : String} {node : Node} {layout : Fields} {v : Value} {args : Attrs}
      → Fits env d node v
      → FitsArgs env d layout args
      → FitsArgs env d ((k, node) ∷ layout) (attr k v args)

unfoldable pub nodes_of : Fields → List Node
nodes_of [] = []
nodes_of ((_, node) ∷ layout) = node ∷ nodes_of layout

unfoldable pub values_of : Attrs → Values
values_of no_attrs = nil
values_of (attr _ v args) = cons v (values_of args)

record ArgsCodes (env : Env) (d : ℕ) (layout : Fields) (args : Attrs) : Type 0 where
  enc : List ℕ
  counted : count (values_of args) ≡ length (nodes_of layout)
  writes :
      (fuel : ℕ) (out : List ℕ)
      → d ≤ fuel
      → write_args env fuel (nodes_of layout) (values_of args) out ≡ ok (out ++ enc)
  reads :
      d ≤ decode_fuel
      → Reads d (read_fields (λ k node. read env node decode_fuel (name k ∷ [])) layout) enc args

FitsArgs-ArgsCodes :
    {env : Env} {d : ℕ} {layout : Fields} {args : Attrs}
    → FitsArgs env d layout args
    → ArgsCodes env d layout args
unfolding write_args read_fields nodes_of values_of
FitsArgs-ArgsCodes no_args = record {
  enc = [];
  counted = refl;
  writes = λ fuel out le. rw append-nil;
  reads = λ le. Reads-pure no_attrs;
}
FitsArgs-ArgsCodes (arg {k} {node} {layout} {v} {args} h hs) =
    let one = Fits-Codes h in
    let more = FitsArgs-ArgsCodes hs in
    record {
      enc = one.enc ++ more.enc;
      counted = ap suc more.counted;
      writes = λ fuel out le.
          rw (one.writes fuel [] out le, more.writes fuel (out ++ one.enc) le, append_assoc);
      reads = λ le.
          Reads-bind _ one.enc more.enc (one.reads decode_fuel (name k ∷ []) le)
            (Reads-map (λ ws. attr k v ws) more.enc (more.reads le));
    }

-- Arguments that fit the layout are appended to the discriminator, and the decoder of the same
-- layout reads them back, by name and in order, from what follows the discriminator.
pub decode_args-encode_ix_layout :
    (env : Env) (d fuel : ℕ) (discriminator : List ℕ) (layout : Fields) (args : Attrs)
    → FitsArgs env d layout args
    → d ≤ max_decode_depth
    → d ≤ fuel
    → (body : List ℕ) × (encode_ix_layout env fuel discriminator (nodes_of layout) (values_of args)
        ≡ ok (discriminator ++ body))
      × (decode_args env layout body ≡ ok args)
unfolding encode_ix_layout decode_args exact
decode_args-encode_ix_layout env d fuel discriminator layout args fits shallow enough =
    let codes = FitsArgs-ArgsCodes fits in
    let ahead =
      subst (λ xs. Ahead d (cursor codes.enc) xs) (sym (append-nil codes.enc))
        (Ahead-cursor d codes.enc shallow) in
    (
      codes.enc,
      rw (codes.counted, ==_refl) (codes.writes fuel discriminator enough),
      rw ((codes.reads (omega arith)).at (cursor codes.enc) [] ahead) (ground arith),
    )

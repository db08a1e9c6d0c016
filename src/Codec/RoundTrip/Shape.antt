-- ===== src/Codec/RoundTrip/Shape.antt =====
-- The values that a node stands for, with the number of composite levels that they nest.
use wake_sol.Prelude.{
  ℕ, suc, ◌≤◌, ◌<◌, ◌^◌, ◌≡◌, ◌≢◌, ◌⊎◌, Bool, true, false, String, some, List, [], ◌∷◌, length,
}
use wake_sol.Prelude.Int.{ℤ, pos}
use wake_sol.Prelude.Assoc.{by_number}
use wake_sol.Codec.Result.{ok}
use wake_sol.Codec.Bytes.{int_to_bytes}
use wake_sol.Codec.Utf8.{encode_utf8}
use wake_sol.Codec.Value.{
  ClassId, Value, Values, Attrs, null, list, member, object, count, is_nan, getattr,
}
use wake_sol.Codec.Node.{Node, Fields, Layout, Env, layout}
use wake_sol.Codec.MinSize.{min_wire_size}
use wake_sol.Codec.Read.{contains}

-- `Fits env levels node value`. A `null` under an `option` is the absent value, so what is present
-- is something else; a vector holds elements of at least a byte, or none; an instance has the fields
-- of its class in order, each found by `getattr`.
mutual
  pub data Fits (env : Env) : ℕ → Node → Value → Type 0 where
    int :
        {d nbytes : ℕ} {signed : Bool} {z : ℤ} (bs : List ℕ)
        → 0 < nbytes
        → int_to_bytes nbytes signed z ≡ some bs
        → Fits env d (Node.int nbytes signed) (Value.int z)
    double :
        {d bits : ℕ}
        → is_nan bits ≡ false
        → bits < 256 ^ 8
        → Fits env d (Node.float 8) (Value.float bits)
    single :
        {d bits : ℕ} (narrow : ℕ)
        → is_nan bits ≡ false
        → env.narrow bits ≡ some narrow
        → env.widen narrow ≡ bits
        → narrow < 256 ^ 4
        → Fits env d (Node.float 4) (Value.float bits)
    bool : {d : ℕ} {b : Bool} → Fits env d Node.bool (Value.bool b)
    str :
        {d : ℕ} {cs : List ℕ} (bs : List ℕ)
        → encode_utf8 cs ≡ some bs
        → length bs < 256 ^ 4
        → Fits env d Node.str (Value.str cs)
    bytes : {d : ℕ} {bs : List ℕ} → length bs < 256 ^ 4 → Fits env d Node.bytes (Value.bytes bs)
    fixed_bytes :
        {d n : ℕ} {bs : List ℕ} → length bs ≡ n → Fits env d (Node.fixed_bytes n) (Value.bytes bs)
    pubkey : {d : ℕ} {bs : List ℕ} → length bs ≡ 32 → Fits env d Node.pubkey (Value.pubkey bs)
    option_absent : {d : ℕ} {inner : Node} → Fits env (suc d) (Node.option inner) null
    option_present :
        {d : ℕ} {inner : Node} {v : Value}
        → v ≢ null
        → Fits env d inner v
        → Fits env (suc d) (Node.option inner) v
    opt_absent : {d : ℕ} {inner : Node} → Fits env (suc d) (Node.opt inner) null
    opt_present :
        {d : ℕ} {inner : Node} {v : Value}
        → Fits env d inner v
        → Fits env (suc d) (Node.opt inner) (Value.opt v)
    vec :
        {d : ℕ} {elem : Node} {vs : Values}
        → count vs < 256 ^ 4
        → (count vs ≡ 0) ⊎ (1 ≤ min_wire_size env elem)
        → FitsItems env d elem vs
        → Fits env (suc d) (Node.vec elem) (list vs)
    fixed_array :
        {d id n : ℕ} {elem : Node} {vs : Values}
        → count vs ≡ n
        → FitsItems env d elem vs
        → Fits env (suc d) (Node.fixed_array id elem n) (list vs)
    struct :
        {d : ℕ} {c : ClassId} {fields : Fields} {attrs : Attrs}
        → layout env c ≡ some (Layout.struct fields)
        → FitsFields env d (object c attrs) fields attrs
        → Fits env (suc d) (Node.defined c) (object c attrs)
    int_enum :
        {d : ℕ} {c : ClassId} {members : List ℕ} {tag : ℕ}
        → layout env c ≡ some (Layout.int_enum members)
        → contains tag members ≡ true
        → tag < 256
        → Fits env (suc d) (Node.defined c) (member c (pos tag))
    variant :
        {d : ℕ} {c vcls tag : ℕ} {variants : List (ℕ × (ClassId × Fields))} {fields : Fields}
        {attrs : Attrs}
        → layout env c ≡ some (Layout.borsh_enum variants)
        → env.variant_tag vcls ≡ some tag
        → by_number tag variants ≡ some (vcls, fields)
        → tag < 256
        → FitsFields env d (object vcls attrs) fields attrs
        → Fits env (suc d) (Node.defined c) (object vcls attrs)

  pub data FitsItems (env : Env) : ℕ → Node → Values → Type 0 where
    nil : {d : ℕ} {elem : Node} → FitsItems env d elem Values.nil
    cons :
        {d : ℕ} {elem : Node} {v : Value} {vs : Values}
        → Fits env d elem v
        → FitsItems env d elem vs
        → FitsItems env d elem (Values.cons v vs)

  pub data FitsFields (env : Env) : ℕ → Value → Fields → Attrs → Type 0 where
    no_attrs : {d : ℕ} {whole : Value} → FitsFields env d whole [] Attrs.no_attrs
    attr :
        {d : ℕ} {whole : Value} {k : String} {node : Node} {fields : Fields} {v : Value}
        {attrs : Attrs}
        → getattr whole k ≡ ok v
        → Fits env d node v
        → FitsFields env d whole fields attrs
        → FitsFields env d whole ((k, node) ∷ fields) (Attrs.attr k v attrs)

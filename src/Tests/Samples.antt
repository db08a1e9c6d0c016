-- ===== src/Tests/Samples.antt =====
-- Types and values for the tests: a struct that holds itself, an enum and an enum with data.
use wake_sol.Prelude.{
  ◌*◌, refl, inl, inr, false, true, none, some, [], ◌∷◌, arith, ltb, if◌then◌else◌,
}
use wake_sol.Prelude.Int.{pos, negsuc}
use wake_sol.Codec.Result.{err, value_error, type_error}
use wake_sol.Codec.Bytes.{le_bytes, int_to_bytes}
use wake_sol.Codec.Utf8.{encode_point, encode_utf8}
use wake_sol.Codec.MinSize.{node_size, min_wire_size}
use wake_sol.Codec.Read.{contains}
use wake_sol.Codec.RoundTrip.{Fits, FitsItems, FitsFields}
use wake_sol.Codec.Value.{
  Value, Attrs, nil, cons, no_attrs, attr, null, list, member, object, getattr, find_attr,
}
use wake_sol.Builder.ArgsRoundTrip.{FitsArgs}
use wake_sol.Codec.Node.{
  int, str, option, opt, vec, defined, Fields, struct, int_enum, borsh_enum, Env,
}

abbrev pub order_fields : Fields
order_fields =
    ("id", int 8 false)
    ∷ ("side", defined 1)
    ∷ ("tags", vec (int 2 false))
    ∷ ("note", option str)
    ∷ ("expiry", opt (opt (int 2 true)))
    ∷ ("parent", option (defined 0))
    ∷ []

abbrev pub move_fields : Fields
move_fields = ("x", int 8 true) ∷ []

-- 0 is the struct, 1 the enum, 2 the enum with data, whose variants are the classes 3 and 4; 5 is a
-- struct with no fields.
abbrev pub env : Env
env = record {
  layouts =
      struct order_fields
      ∷ int_enum (0 ∷ 1 ∷ [])
      ∷ borsh_enum ((0, (3, [])) ∷ (1, (4, move_fields)) ∷ [])
      ∷ struct []
      ∷ struct move_fields
      ∷ struct []
      ∷ [];
  variant_tag =
      λ c. if ltb c 3 then none else if ltb c 4 then some 0 else if ltb c 5 then some 1 else none;
  class_name = λ c. "Class";
  from_base58 = λ cs. err value_error;
  widen = λ s. s * 2;
  narrow = λ b. none;
  float_of_int = λ z. none;
  to_int = λ v. err type_error;
}

abbrev pub child : Value
child = object 0 (
    attr "id" (Value.int (pos 2)) (
      attr "side" (member 1 (pos 1)) (
        attr "tags" (list nil)
          (attr "note" null (attr "expiry" null (attr "parent" null no_attrs))))))

abbrev pub order : Value
order = object 0 (
    attr "id" (Value.int (pos 258)) (
      attr "side" (member 1 (pos 0)) (
        attr "tags" (list (cons (Value.int (pos 7)) (cons (Value.int (pos 65535)) nil))) (
          attr "note" (Value.str (233 ∷ [])) (
            attr "expiry" (Value.opt (Value.opt (Value.int (negsuc 0))))
              (attr "parent" child no_attrs))))))

child-Fits : Fits env 2 (defined 0) child
unfolding getattr find_attr int_to_bytes le_bytes contains
child-Fits = Fits.struct refl (
    FitsFields.attr refl (Fits.int (2 ∷ 0 ∷ 0 ∷ 0 ∷ 0 ∷ 0 ∷ 0 ∷ 0 ∷ []) (omega arith) refl) (
      FitsFields.attr refl (Fits.int_enum refl refl (omega arith)) (
        FitsFields.attr refl (Fits.vec (omega arith) (inl refl) FitsItems.nil) (
          FitsFields.attr refl Fits.option_absent (
            FitsFields.attr refl Fits.opt_absent
              (FitsFields.attr refl Fits.option_absent FitsFields.no_attrs))))))

pub order-Fits : Fits env 4 (defined 0) order
unfolding getattr find_attr int_to_bytes le_bytes contains encode_utf8 encode_point min_wire_size
    node_size
order-Fits = Fits.struct refl (
    FitsFields.attr refl (Fits.int (2 ∷ 1 ∷ 0 ∷ 0 ∷ 0 ∷ 0 ∷ 0 ∷ 0 ∷ []) (omega arith) refl) (
      FitsFields.attr refl (Fits.int_enum refl refl (omega arith)) (
        FitsFields.attr refl
          (Fits.vec (omega arith) (inr (omega arith)) (
            FitsItems.cons (Fits.int (7 ∷ 0 ∷ []) (omega arith) refl)
              (FitsItems.cons (Fits.int (255 ∷ 255 ∷ []) (omega arith) refl) FitsItems.nil)))
          (FitsFields.attr refl
            (Fits.option_present (λ e. cc) (Fits.str (195 ∷ 169 ∷ []) refl (omega arith)))
            (FitsFields.attr refl
              (Fits.opt_present (Fits.opt_present (Fits.int (255 ∷ 255 ∷ []) (omega arith) refl)))
              (FitsFields.attr refl (Fits.option_present (λ e. cc) child-Fits)
                FitsFields.no_attrs))))))

abbrev pub transfer_layout : Fields
transfer_layout = ("amount", int 8 false) ∷ ("memo", option str) ∷ []

abbrev pub transfer_args : Attrs
transfer_args = attr "amount" (Value.int (pos 513)) (attr "memo" (Value.str (233 ∷ [])) no_attrs)

pub transfer-Fits : FitsArgs env 2 transfer_layout transfer_args
unfolding int_to_bytes le_bytes encode_utf8 encode_point
transfer-Fits = FitsArgs.arg (Fits.int (1 ∷ 2 ∷ 0 ∷ 0 ∷ 0 ∷ 0 ∷ 0 ∷ 0 ∷ []) (omega arith) refl) (
    FitsArgs.arg (Fits.option_present (λ e. cc) (Fits.str (195 ∷ 169 ∷ []) refl (omega arith)))
      FitsArgs.no_args)

abbrev pub moved : Value
moved = Value.object 4 (attr "x" (Value.int (negsuc 0)) no_attrs)

pub moved-Fits : Fits env 2 (defined 4) moved
unfolding getattr find_attr int_to_bytes le_bytes
moved-Fits =
    Fits.struct refl (FitsFields.attr refl (Fits.int _ (omega arith) refl) FitsFields.no_attrs)

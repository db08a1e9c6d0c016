-- ===== src/Codec/RoundTrip/Defined.antt =====
-- The nodes of defined types of _codec/ir.py: structs, enums and enums with data.
use Prim.Native.Nat.{min}
use wake_sol.Prelude.{
  ℕ, zero, suc, ◌≤◌, ◌<◌, ◌≡◌, inl, inr, true, Bool-cases, some, List, [], ◌∷◌, ◌++◌, append_assoc,
  arith, lt→ltb, ==_refl, ◌==◌, length,
}
use wake_sol.Prelude.Int.{pos}
use wake_sol.Prelude.Assoc.{by_number}
use wake_sol.Codec.Result.{name, ◌/p◌}
use wake_sol.Codec.Value.{ClassId, Attrs, member, object, as_int}
use wake_sol.Codec.Node.{
  defined, Fields, Variants, Layout, struct, int_enum, borsh_enum, Env, layout,
}
use wake_sol.Codec.MinSize.{
  Stack, class, on_stack, node_size, fields_size, variants_size, layout_size, class_size,
}
use wake_sol.Codec.Read.{contains, read_member, read_variant, read_layout, read}
use wake_sol.Codec.Write.{class_of, write_layout, write}
use wake_sol.Codec.RoundTrip.Reads.{
  Reads-pure, Reads-map, Reads-bind, Reads-take_byte, Reads-descend,
}
use wake_sol.Codec.RoundTrip.Codes.{Codes, FieldsCodes}
use wake_sol.Codec.RoundTrip.Composites.{composite-Codes}

-- A class that is on the stack, or for which the fuel is gone, counts 0.
class_size-le :
    (env : Env) (c : ClassId) (contents : Layout) (len : ℕ)
    → layout env c ≡ some contents
    → ((fuel : ℕ) (stack : Stack) → layout_size (class_size env fuel) (some contents) stack ≤ len)
    → (fuel : ℕ) (stack : Stack) → class_size env fuel c stack ≤ len
unfolding class_size
class_size-le env c contents len e h zero stack = omega arith
class_size-le env c contents len e h (suc fuel) stack =
    elim (Bool-cases (on_stack (class c) stack)) [
      | inl again ↦ rw again (omega arith)
      | inr first ↦ rw (first, e) (h fuel (class c ∷ stack))
    ]

module _ (size : ClassId → Stack → ℕ) (stack : Stack) where
  variants_size-le-least :
      (least : ℕ) (variants : Variants) → variants_size size least variants stack ≤ least
  unfolding variants_size
  variants_size-le-least least [] = omega arith
  variants_size-le-least least ((_, (_, fields)) ∷ variants) =
      omega (arith, variants_size-le-least (min least (fields_size size fields stack)) variants)

  variants_size-le :
      (least tag : ℕ) (variants : Variants) {vcls : ClassId} {fields : Fields}
      → by_number tag variants ≡ some (vcls, fields)
      → variants_size size least variants stack ≤ fields_size size fields stack
  unfolding variants_size by_number
  variants_size-le least tag [] {fields = fields} e = cc
  variants_size-le least tag ((t, (c, fs)) ∷ variants) {fields = fields} e =
      elim (Bool-cases (t == tag)) [
        | inl here ↦
            let e' = rw here at e in
            let q : fs ≡ fields = cc in
            rw (← q) (
              omega
                (arith, variants_size-le-least (min least (fields_size size fs stack)) variants))
        | inr there ↦
            variants_size-le (min least (fields_size size fs stack)) tag variants (rw there at e)
      ]

  enum_size-le :
      (tag : ℕ) (variants : Variants) {vcls : ClassId} {fields : Fields}
      → by_number tag variants ≡ some (vcls, fields)
      → layout_size size (some (borsh_enum variants)) stack ≤ suc (fields_size size fields stack)
  unfolding layout_size
  enum_size-le tag [] e = unfold by_number in cc
  enum_size-le tag ((t, (c, fs)) ∷ variants) e =
      let x = fields_size size fs stack in
      let same : min x x ≡ x = omega arith in
      let bound = variants_size-le x tag ((t, (c, fs)) ∷ variants) e in
      unfold variants_size in omega (arith, rw same at bound)

module _ (env : Env) (d : ℕ) (c : ClassId) where
  pub struct-Codes :
      (fields : Fields) (attrs : Attrs)
      → layout env c ≡ some (struct fields)
      → FieldsCodes env d (object c attrs) fields attrs
      → Codes env (suc d) (defined c) (object c attrs)
  unfolding write write_layout read read_layout node_size
  struct-Codes fields attrs e h =
      composite-Codes env d (defined c) (object c attrs) h.enc
        (λ fuel path out le. rw e (h.writes fuel (λ k. path /p name k) out le))
        (λ fuel path le. rw e (
          Reads-descend path h.enc
            (Reads-map (λ values. object c values) h.enc (h.reads fuel (λ k. path /p name k) le))))
        (λ fuel stack.
          class_size-le env c (struct fields) (length h.enc) e (unfold layout_size in h.floor) fuel
            stack)

  pub int_enum-Codes :
      (members : List ℕ) (tag : ℕ)
      → layout env c ≡ some (int_enum members)
      → contains tag members ≡ true
      → tag < 256
      → Codes env (suc d) (defined c) (member c (pos tag))
  unfolding write write_layout as_int read read_layout read_member node_size
  int_enum-Codes members tag e known small =
      composite-Codes env d (defined c) (member c (pos tag)) (tag ∷ [])
        (λ fuel path out le. rw (e, lt→ltb _ _ small))
        (λ fuel path le. rw e (
          Reads-descend path (tag ∷ []) (
            Reads-bind _ (tag ∷ []) [] (Reads-take_byte tag path)
              (rw known (Reads-pure (member c (pos tag)))))))
        (λ fuel stack.
          class_size-le env c (int_enum members) 1 e (λ f s. unfold layout_size in omega arith) fuel
            stack)

  pub variant-Codes :
      (vcls tag : ℕ) (variants : Variants) (fields : Fields) (attrs : Attrs)
      → layout env c ≡ some (borsh_enum variants)
      → env.variant_tag vcls ≡ some tag
      → by_number tag variants ≡ some (vcls, fields)
      → tag < 256
      → FieldsCodes env d (object vcls attrs) fields attrs
      → Codes env (suc d) (defined c) (object vcls attrs)
  unfolding write write_layout class_of read read_layout read_variant node_size
  variant-Codes vcls tag variants fields attrs e known entry small h =
      composite-Codes env d (defined c) (object vcls attrs) (tag ∷ h.enc)
        (λ fuel path out le.
          rw (e, known, entry, ==_refl vcls, lt→ltb _ _ small)
            (rw (h.writes fuel (λ k. path /p name k) (out ++ tag ∷ []) le, append_assoc)))
        (λ fuel path le. rw e (
          Reads-descend path (tag ∷ h.enc) (
            Reads-bind _ (tag ∷ []) h.enc (Reads-take_byte tag path) (
              rw entry (
                Reads-map (λ values. object vcls values) h.enc
                  (h.reads fuel (λ k. path /p name (env.class_name vcls)) le))))))
        (λ fuel stack.
          class_size-le env c (borsh_enum variants) (suc (length h.enc)) e
            (λ f s.
              omega (arith, enum_size-le (class_size env f) s tag variants entry, h.floor f s))
            fuel stack)

-- ===== src/Codec/RoundTrip/Composites.antt =====
-- The composite nodes of _codec/ir.py, from their parts.
use wake_sol.Prelude.{
  ℕ, zero, suc, ◌*◌, ◌≤◌, ◌<◌, ◌^◌, ◌≡◌, ◌≢◌, refl, sym, ◌⊎◌, inl, inr, Bool-cases, List, [], ◌∷◌,
  ◌++◌, append_assoc, arith, lt→ltb, ==_refl, length, length-append,
}
use wake_sol.Codec.Result.{Result, ok, Breadcrumb}
use wake_sol.Codec.Bytes.{le_bytes, length-le_bytes}
use wake_sol.Codec.Value.{Value, Values, null, list, count, elements}
use wake_sol.Codec.Node.{Node, option, opt, vec, fixed_array, Env}
use wake_sol.Codec.MinSize.{Stack, array, on_stack, node_size, class_size, min_wire_size}
use wake_sol.Codec.Read.{read_tagged, read}
use wake_sol.Codec.Write.{write_len, write_option, write}
use wake_sol.Codec.RoundTrip.Reads.{
  Reads, Reads-pure, Reads-map, Reads-bind, Reads-take_byte, Reads-descend, Reads-counted,
}
use wake_sol.Codec.RoundTrip.Codes.{Codes, ItemsCodes}

module _ (env : Env) (d : ℕ) where
  -- The level of the node itself takes a unit of fuel, which leaves enough for its parts.
  pub composite-Codes :
      (node : Node) (value : Value) (enc : List ℕ)
      → ((fuel : ℕ) (path : Breadcrumb) (out : List ℕ)
          → d ≤ fuel
          → write env node (suc fuel) value path out ≡ ok (out ++ enc))
      → ((fuel : ℕ) (path : Breadcrumb)
          → d ≤ fuel
          → Reads (suc d) (read env node (suc fuel) path) enc value)
      → ((fuel : ℕ) (stack : Stack) → node_size (class_size env fuel) node stack ≤ length enc)
      → Codes env (suc d) node value
  composite-Codes node value enc w r f = record {
    enc = enc;
    writes = elim [
      | zero ↦ λ path out le. absurd (omega arith)
      | suc fuel ↦ λ path out le. w fuel path out (omega arith)
    ];
    reads = elim [
      | zero ↦ λ path le. absurd (omega arith)
      | suc fuel ↦ λ path le. r fuel path (omega arith)
    ];
    floor = f;
  }

  pub option_absent-Codes : (inner : Node) → Codes env (suc d) (option inner) null
  unfolding write read read_tagged node_size
  option_absent-Codes inner =
      composite-Codes (option inner) null (0 ∷ []) (λ fuel path out le. refl)
        (λ fuel path le.
          Reads-descend path (0 ∷ [])
            (Reads-bind _ (0 ∷ []) [] (Reads-take_byte 0 path) (Reads-pure null)))
        (λ fuel stack. omega arith)

  pub opt_absent-Codes : (inner : Node) → Codes env (suc d) (opt inner) null
  unfolding write read read_tagged node_size
  opt_absent-Codes inner =
      composite-Codes (opt inner) null (0 ∷ []) (λ fuel path out le. refl)
        (λ fuel path le.
          Reads-descend path (0 ∷ [])
            (Reads-bind _ (0 ∷ []) [] (Reads-take_byte 0 path) (Reads-pure null)))
        (λ fuel stack. omega arith)

  write_option_present :
      (wr : Value → List ℕ → Result (List ℕ)) (v : Value) (out : List ℕ)
      → v ≢ null
      → write_option wr v out ≡ wr v (out ++ 1 ∷ [])
  unfolding write_option
  write_option_present wr null out h = absurd (h refl)
  write_option_present wr _ out h = refl

  pub option_present-Codes :
      (inner : Node) (v : Value)
      → v ≢ null
      → Codes env d inner v
      → Codes env (suc d) (option inner) v
  unfolding write read read_tagged node_size
  option_present-Codes inner v present h =
      composite-Codes (option inner) v (1 ∷ h.enc)
        (λ fuel path out le. rw (
          write_option_present _ v out present,
          h.writes fuel path (out ++ 1 ∷ []) le,
          append_assoc,
        ))
        (λ fuel path le. Reads-descend path (1 ∷ h.enc) (
          Reads-bind _ (1 ∷ []) h.enc (Reads-take_byte 1 path)
            (Reads-map (λ x. x) h.enc (h.reads fuel path le))))
        (λ fuel stack. omega arith)

  pub opt_present-Codes :
      (inner : Node) (v : Value) → Codes env d inner v → Codes env (suc d) (opt inner) (Value.opt v)
  unfolding write read read_tagged node_size
  opt_present-Codes inner v h =
      composite-Codes (opt inner) (Value.opt v) (1 ∷ h.enc)
        (λ fuel path out le. rw (h.writes fuel path (out ++ 1 ∷ []) le, append_assoc))
        (λ fuel path le. Reads-descend path (1 ∷ h.enc) (
          Reads-bind _ (1 ∷ []) h.enc (Reads-take_byte 1 path)
            (Reads-map Value.opt h.enc (h.reads fuel path le))))
        (λ fuel stack. omega arith)

  -- A count is accepted if there are no elements, or each takes a byte at least.
  count-le-length : (n m len : ℕ) → (n ≡ 0) ⊎ (1 ≤ m) → n * m ≤ len → n ≤ len
  count-le-length n m len (inl empty) h = omega arith
  count-le-length n m len (inr sized) h = grind arith

  pub vec-Codes :
      (elem : Node) (vs : Values)
      → count vs < 256 ^ 4
      → (count vs ≡ 0) ⊎ (1 ≤ min_wire_size env elem)
      → ItemsCodes env d elem vs
      → Codes env (suc d) (vec elem) (list vs)
  unfolding write write_len elements read node_size min_wire_size
  vec-Codes elem vs small sized h =
      let room : count vs * min_wire_size env elem ≤ length h.enc = h.floor _ [] in
      composite-Codes (vec elem) (list vs) (le_bytes 4 (count vs) ++ h.enc)
        (λ fuel path out le.
          rw (
            lt→ltb _ _ small,
            h.writes fuel path 0 (out ++ le_bytes 4 (count vs)) le,
            append_assoc,
          ))
        (λ fuel path le. Reads-descend path _ (
          Reads-counted (count vs) _ path _ h.enc small (count-le-length (count vs) _ _ sized room)
            room (Reads-map list h.enc (h.reads fuel path 0 le))))
        (λ fuel stack.
          omega (arith, length-append (le_bytes 4 (count vs)) h.enc, length-le_bytes 4 (count vs)))

  pub fixed_array-Codes :
      (id n : ℕ) (elem : Node) (vs : Values)
      → count vs ≡ n
      → ItemsCodes env d elem vs
      → Codes env (suc d) (fixed_array id elem n) (list vs)
  unfolding write elements read node_size
  fixed_array-Codes id n elem vs e h =
      composite-Codes (fixed_array id elem n) (list vs) h.enc
        (λ fuel path out le. rw (e, ==_refl n) (h.writes fuel path 0 out le))
        (λ fuel path le.
          rw (sym e) (Reads-descend path h.enc (Reads-map list h.enc (h.reads fuel path 0 le))))
        (λ fuel stack. elim (Bool-cases (on_stack (array id) stack)) [
          | inl again ↦ rw again (omega arith)
          | inr first ↦ rw (first, sym e) (h.floor fuel (array id ∷ stack))
        ])

-- ===== src/Codec/RoundTrip/Sequences.antt =====
-- The loops over the elements of a sequence and over the fields of an instance.
use wake_sol.Prelude.{
  ℕ, ◌+◌, ◌≡◌, String, [], ◌∷◌, ◌++◌, append-nil, append_assoc, arith, length-append,
}
use wake_sol.Codec.Result.{ok}
use wake_sol.Codec.Value.{Value, Values, nil, cons, Attrs, no_attrs, attr, getattr}
use wake_sol.Codec.Node.{Node, Fields, Env}
use wake_sol.Codec.MinSize.{fields_size}
use wake_sol.Codec.Read.{read_items, read_fields}
use wake_sol.Codec.Write.{write_items, write_fields}
use wake_sol.Codec.RoundTrip.Reads.{Reads-pure, Reads-bind, Reads-map}
use wake_sol.Codec.RoundTrip.Codes.{Codes, ItemsCodes, FieldsCodes}

module _ (env : Env) (levels : ℕ) where
  pub nil-ItemsCodes : (elem : Node) → ItemsCodes env levels elem nil
  unfolding write_items read_items
  nil-ItemsCodes elem = record {
    enc = [];
    writes = λ fuel path i out k. rw append-nil;
    reads = λ fuel path i k. Reads-pure nil;
    floor = λ fuel stack. omega arith;
  }

  pub cons-ItemsCodes :
      (elem : Node) (v : Value) (vs : Values)
      → Codes env levels elem v
      → ItemsCodes env levels elem vs
      → ItemsCodes env levels elem (cons v vs)
  unfolding write_items read_items
  cons-ItemsCodes elem v vs h hs = record {
    enc = h.enc ++ hs.enc;
    writes = λ fuel path i out k.
        rw (h.writes fuel _ out k, hs.writes fuel path (i + 1) (out ++ h.enc) k, append_assoc);
    reads = λ fuel path i k.
        Reads-bind _ h.enc hs.enc (h.reads fuel _ k)
          (Reads-map (λ ws. cons v ws) hs.enc (hs.reads fuel path (i + 1) k));
    floor = λ fuel stack.
        omega (arith, h.floor fuel stack, hs.floor fuel stack, length-append h.enc hs.enc);
  }

  pub no_attrs-FieldsCodes : (whole : Value) → FieldsCodes env levels whole [] no_attrs
  unfolding write_fields read_fields fields_size
  no_attrs-FieldsCodes whole = record {
    enc = [];
    writes = λ fuel at out k. rw append-nil;
    reads = λ fuel at k. Reads-pure no_attrs;
    floor = λ fuel stack. omega arith;
  }

  pub attr-FieldsCodes :
      (whole : Value) (k : String) (node : Node) (fields : Fields) (v : Value) (attrs : Attrs)
      → getattr whole k ≡ ok v
      → Codes env levels node v
      → FieldsCodes env levels whole fields attrs
      → FieldsCodes env levels whole ((k, node) ∷ fields) (attr k v attrs)
  unfolding write_fields read_fields fields_size
  attr-FieldsCodes whole k node fields v attrs found h hs = record {
    enc = h.enc ++ hs.enc;
    writes = λ fuel at out le.
        rw (found, h.writes fuel (at k) out le, hs.writes fuel at (out ++ h.enc) le, append_assoc);
    reads = λ fuel at le.
        Reads-bind _ h.enc hs.enc (h.reads fuel (at k) le)
          (Reads-map (λ ws. attr k v ws) hs.enc (hs.reads fuel at le));
    floor = λ fuel stack.
        omega (arith, h.floor fuel stack, hs.floor fuel stack, length-append h.enc hs.enc);
  }

-- ===== src/Codec/RoundTrip/Leaves.antt =====
-- The nodes of _codec/ir.py that hold no other node.
use wake_sol.Prelude.{
  ℕ, ◌≤◌, ◌<◌, ◌^◌, ◌≡◌, refl, subst, Bool, true, false, some, List, [], ◌∷◌, ◌++◌, append_assoc,
  arith, lt→ltb, ==_refl, length, length-append,
}
use wake_sol.Prelude.Int.{ℤ}
use wake_sol.Codec.Result.{ok, Breadcrumb}
use wake_sol.Codec.Bytes.{
  le_bytes, int_to_bytes, int_from_bytes, length-le_bytes, from_le-le_bytes,
  int_from_bytes-to_bytes, length-int_to_bytes,
}
use wake_sol.Codec.Utf8.{encode_utf8, decode_utf8-encode}
use wake_sol.Codec.Value.{Value, is_nan, differs_from_itself}
use wake_sol.Codec.Node.{Node, int, float, bool, str, bytes, pubkey, fixed_bytes, Env}
use wake_sol.Codec.MinSize.{Stack, node_size, class_size}
use wake_sol.Codec.Read.{
  read_int, unpack_float, read_float, read_bool, read_bytes, decoded_str, read_str,
  read_fixed_bytes, read_pubkey, read,
}
use wake_sol.Codec.Write.{
  write_int, append_bits, pack_bits, pack_float, write_float, write_bool, write_len, write_prefixed,
  encoded_str, write_str, write_bytes, write_fixed_bytes, write_pubkey, write,
}
use wake_sol.Codec.RoundTrip.Reads.{
  Reads, Reads-pure, Reads-map, Reads-bind, Reads-take, Reads-take_exactly, Reads-take_byte,
  Reads-counted,
}
use wake_sol.Codec.RoundTrip.Codes.{Codes}

module _ (env : Env) (levels : ℕ) where
  pub int-Codes :
      (nbytes : ℕ) (signed : Bool) (z : ℤ) (bs : List ℕ)
      → 0 < nbytes
      → int_to_bytes nbytes signed z ≡ some bs
      → Codes env levels (int nbytes signed) (Value.int z)
  unfolding write write_int read read_int node_size
  int-Codes nbytes signed z bs h e = record {
    enc = bs;
    writes = λ fuel path out k. rw e;
    reads = λ fuel path k.
        subst (λ y. Reads levels (read env (int nbytes signed) fuel path) bs (Value.int y))
          (int_from_bytes-to_bytes nbytes signed z bs h e)
          (Reads-map (λ x. Value.int (int_from_bytes x signed)) bs
            (Reads-take_exactly nbytes bs path (length-int_to_bytes nbytes signed z bs e)));
    floor = λ fuel stack. omega (arith, length-int_to_bytes nbytes signed z bs e);
  }

  pub bool-Codes : (b : Bool) → Codes env levels bool (Value.bool b)
  unfolding write write_bool read read_bool node_size
  bool-Codes true = record {
    enc = 1 ∷ [];
    writes = λ fuel path out k. refl;
    reads = λ fuel path k.
        Reads-bind _ (1 ∷ []) [] (Reads-take_byte 1 path) (Reads-pure (Value.bool true));
    floor = λ fuel stack. omega arith;
  }
  bool-Codes false = record {
    enc = 0 ∷ [];
    writes = λ fuel path out k. refl;
    reads = λ fuel path k.
        Reads-bind _ (0 ∷ []) [] (Reads-take_byte 0 path) (Reads-pure (Value.bool false));
    floor = λ fuel stack. omega arith;
  }

  -- A count of bytes and the bytes.
  prefixed-Codes :
      (node : Node) (value : Value) (bs : List ℕ)
      → length bs < 256 ^ 4
      → ((fuel : ℕ) (path : Breadcrumb) (out : List ℕ)
          → write env node fuel value path out ≡ write_prefixed bs out)
      → ((fuel : ℕ) (path : Breadcrumb)
          → Reads levels (read env node fuel path) (le_bytes 4 (length bs) ++ bs) value)
      → ((fuel : ℕ) (stack : Stack) → node_size (class_size env fuel) node stack ≤ 4)
      → Codes env levels node value
  unfolding write_prefixed write_len
  prefixed-Codes node value bs small w r f = record {
    enc = le_bytes 4 (length bs) ++ bs;
    writes = λ fuel path out k. rw (w fuel path out, lt→ltb _ _ small, append_assoc);
    reads = λ fuel path k. r fuel path;
    floor = λ fuel stack. omega (
      arith,
      f fuel stack,
      length-append (le_bytes 4 (length bs)) bs,
      length-le_bytes 4 (length bs),
    );
  }

  pub bytes-Codes : (bs : List ℕ) → length bs < 256 ^ 4 → Codes env levels bytes (Value.bytes bs)
  unfolding write write_bytes read read_bytes node_size
  bytes-Codes bs small =
      prefixed-Codes bytes (Value.bytes bs) bs small (λ fuel path out. refl)
        (λ fuel path.
          Reads-counted (length bs) 1 path _ bs small (omega arith) (omega arith)
            (Reads-map Value.bytes bs (Reads-take bs path)))
        (λ fuel stack. omega arith)

  pub str-Codes :
      (cs bs : List ℕ)
      → encode_utf8 cs ≡ some bs
      → length bs < 256 ^ 4
      → Codes env levels str (Value.str cs)
  unfolding write write_str encoded_str read read_str decoded_str node_size
  str-Codes cs bs e small =
      prefixed-Codes str (Value.str cs) bs small (λ fuel path out. rw e)
        (λ fuel path.
          Reads-counted (length bs) 1 path _ bs small (omega arith) (omega arith) (record {
            at = λ cur rest h. rw ((Reads-take bs path).at cur rest h, decode_utf8-encode cs bs e);
          }))
        (λ fuel stack. omega arith)

  pub fixed_bytes-Codes :
      (n : ℕ) (bs : List ℕ) → length bs ≡ n → Codes env levels (fixed_bytes n) (Value.bytes bs)
  unfolding write write_fixed_bytes read read_fixed_bytes node_size
  fixed_bytes-Codes n bs e = record {
    enc = bs;
    writes = λ fuel path out k. rw (e, ==_refl n);
    reads = λ fuel path k. Reads-map Value.bytes bs (Reads-take_exactly n bs path e);
    floor = λ fuel stack. omega (arith, e);
  }

  pub pubkey-Codes : (bs : List ℕ) → length bs ≡ 32 → Codes env levels pubkey (Value.pubkey bs)
  unfolding write write_pubkey read read_pubkey node_size
  pubkey-Codes bs e = record {
    enc = bs;
    writes = λ fuel path out k. refl;
    reads = λ fuel path k. Reads-map Value.pubkey bs (Reads-take_exactly 32 bs path e);
    floor = λ fuel stack. omega (arith, e);
  }

  -- The bytes of a float are those of a pattern `raw`, from which `bits` are unpacked.
  float-Codes :
      (nbytes bits raw : ℕ)
      → is_nan bits ≡ false
      → raw < 256 ^ nbytes
      → unpack_float env nbytes (le_bytes nbytes raw) ≡ bits
      → ((out : List ℕ) → pack_bits env nbytes bits out ≡ ok (out ++ le_bytes nbytes raw))
      → Codes env levels (float nbytes) (Value.float bits)
  unfolding write write_float pack_float differs_from_itself read read_float node_size
  float-Codes nbytes bits raw number small unpacked packed = record {
    enc = le_bytes nbytes raw;
    writes = λ fuel path out k. rw (number, packed out);
    reads = λ fuel path k. record {
      at = λ cur rest h. rw (
        (Reads-take_exactly nbytes (le_bytes nbytes raw) path (length-le_bytes nbytes raw)).at cur
            rest h,
        unpacked,
        number,
      );
    };
    floor = λ fuel stack. omega (arith, length-le_bytes nbytes raw);
  }

  pub double-Codes :
      (bits : ℕ)
      → is_nan bits ≡ false
      → bits < 256 ^ 8
      → Codes env levels (float 8) (Value.float bits)
  unfolding unpack_float pack_bits append_bits
  double-Codes bits number small =
      float-Codes 8 bits bits number small (from_le-le_bytes 8 bits small) (λ out. refl)

  pub single-Codes :
      (bits raw : ℕ)
      → is_nan bits ≡ false
      → env.narrow bits ≡ some raw
      → env.widen raw ≡ bits
      → raw < 256 ^ 4
      → Codes env levels (float 4) (Value.float bits)
  unfolding unpack_float pack_bits append_bits
  single-Codes bits raw number narrow widen small =
      float-Codes 4 bits raw number small (rw (from_le-le_bytes 4 raw small, widen))
        (λ out. rw narrow)

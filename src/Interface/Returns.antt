-- ===== src/Interface/Returns.antt =====
-- Return values, decoded by the type of the instruction that set them (_interface.py).
use wake_sol.Prelude.{ℕ, ◌≤◌, ◌≡◌, sym, subst, String, some, List, [], ◌∷◌, append-nil, arith}
use wake_sol.Prelude.Assoc.{by_name}
use wake_sol.Codec.Result.{ok, name}
use wake_sol.Codec.Value.{Value}
use wake_sol.Codec.Node.{Node, Env}
use wake_sol.Codec.Cursor.{cursor, max_decode_depth}
use wake_sol.Codec.Entry.{decode_fuel, encode}
use wake_sol.Codec.RoundTrip.{Fits}
use wake_sol.Codec.RoundTrip.Reads.{Ahead}
use wake_sol.Codec.RoundTrip.Main.{Fits-Codes, Ahead-cursor}
use wake_sol.Builder.Args.{exact, decode_return}
use wake_sol.Interface.Defs.{InstructionDef, ProgramInterface}
use wake_sol.Interface.Match.{Chosen, match_iff}
use wake_sol.Interface.Registry.{
  Registry, returned, strict, return_by, return_of, return_from, decode_return_value,
}

-- The decoder of a return type reads what the codec writes of a value of that type.
decode_return-encode :
    (env : Env) (d fuel : ℕ) (node : Node) (value : Value)
    → Fits env d node value
    → d ≤ max_decode_depth
    → d ≤ fuel
    → (raw : List ℕ) × (encode env fuel value node ≡ ok raw)
      × (decode_return env node raw ≡ ok value)
unfolding encode decode_return exact
decode_return-encode env d fuel node value fits shallow enough =
    let codes = Fits-Codes fits in
    let ahead =
      subst (λ xs. Ahead d (cursor codes.enc) xs) (sym (append-nil codes.enc))
        (Ahead-cursor d codes.enc shallow) in
    (
      codes.enc,
      codes.writes fuel [] [] enough,
      rw
          ((codes.reads decode_fuel (name "<returns>" ∷ []) (omega arith)).at (cursor codes.enc) []
            ahead)
          (ground arith),
    )

-- Return data that encodes a value of the type that an instruction declares, set by a program whose
-- interface is registered, after instruction data for which that instruction's definition is the
-- first of the longest matching ones: it decodes to the value.
pub decode_return_value-encode :
    (env : Env) (d fuel : ℕ) (registry : Registry) (pid : String) (iface : ProgramInterface)
    (def : InstructionDef) (ix_data : List ℕ) (node : Node) (value : Value)
    → by_name pid registry ≡ some iface
    → Chosen ix_data def iface.defs
    → def.decode_return ≡ some (decode_return env node)
    → Fits env d node value
    → d ≤ max_decode_depth
    → d ≤ fuel
    → (raw : List ℕ) × (encode env fuel value node ≡ ok raw)
      × (decode_return_value registry pid (some ix_data) raw ≡ returned value)
unfolding decode_return_value return_from return_of return_by strict
decode_return_value-encode env d fuel registry pid iface def ix_data node value registered chosen
      declared fits shallow enough =
    let (raw, written, back) = decode_return-encode env d fuel node value fits shallow enough in
    let (_, found) = match_iff iface ix_data def in
    (raw, written, rw (registered, found chosen, declared, back))

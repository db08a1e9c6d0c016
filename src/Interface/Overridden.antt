-- ===== src/Interface/Overridden.antt =====
-- Decoding by a definition that reflection registered with an override (_codec/builder.py).
use wake_sol.Prelude.{ℕ, ◌≡◌, none, some, List, ◌++◌, map, drop-append}
use wake_sol.Codec.Result.{Result, ok}
use wake_sol.Codec.Value.{Attrs}
use wake_sol.Interface.Defs.{
  ProgramInterface, match, decode, decode_with, unless_refused, slot_names,
}
use wake_sol.Interface.Reflect.{Method, role_name, overridden}

-- Decoding by the definition that is matched.
pub decode-match :
    (iface : ProgramInterface) (m : Method) (override : List ℕ → Result Attrs) (body : List ℕ)
    (args : Attrs) (n : ℕ)
    → iface.refusal ≡ none
    → match iface (m.discriminator ++ body) ≡ some (overridden m override)
    → override body ≡ ok args
    → decode iface (m.discriminator ++ body) n
      ≡ ok (record {
        program_name = some iface.name;
        name = some m.name;
        args = args;
        account_names = slot_names (map role_name m.account_params) n;
      })
unfolding decode unless_refused decode_with
decode-match iface m override body args n free found back =
    rw (found, free, drop-append m.discriminator body, back)

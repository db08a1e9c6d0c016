-- ===== src/Interface/Dispatch.antt =====
-- What a builder or an event class encodes is what the registry decodes (_interface.py with
-- _codec/builder.py).
use wake_sol.Prelude.{
  ℕ, ◌≤◌, ◌≡◌, refl, inr, String, Bool, true, false, ◌||◌, none, some, List, [], ◌∷◌, ◌++◌,
  if◌then◌else◌, arith, length, take, take-append, drop-append, append-nil, str_eq, ltb, le→ltb_not,
  length-append, subst,
}
use wake_sol.Prelude.Assoc.{by_name, by_name-insert}
use wake_sol.Codec.Result.{Result, ok}
use wake_sol.Codec.Value.{ClassId, Value, Attrs}
use wake_sol.Codec.Node.{defined, Fields, Env}
use wake_sol.Codec.Cursor.{max_decode_depth}
use wake_sol.Codec.RoundTrip.{Fits}
use wake_sol.Builder.Args.{encode_ix_layout, decode_args}
use wake_sol.Builder.ArgsRoundTrip.{FitsArgs, nodes_of, values_of, decode_args-encode_ix_layout}
use wake_sol.Builder.Structs
use wake_sol.Builder.Structs.{BorshMeta, is_event, same_bytes}
use wake_sol.Builder.StructsRoundTrip.{decode-encode_struct, same_bytes_refl}
use wake_sol.Labels.{Labels}
use wake_sol.Interface.Defs.{
  InstructionDef, ProgramInterface, slot_names, unless_refused, decode_with, decode, set_event,
  add_event, find_event, attempt, decoded, decode_event,
}
use wake_sol.Interface.Match.{Chosen, match_iff}
use wake_sol.Interface.Registry.{
  Registry, register, decode_by, decode_instruction, known, event_by, or_unknown, decode_events,
}

-- A registered interface replaces the one of its program id, and no other.
pub decode_instruction-register :
    (iface : ProgramInterface) (registry : Registry) (labels : Labels) (pid : String)
    (bytes : List ℕ) (n : ℕ)
    → decode_instruction (register iface registry) labels pid bytes n ≡ (
        if str_eq iface.program_id pid
        then decode iface bytes n
        else decode_instruction registry labels pid bytes n)
unfolding decode_instruction register decode_by
decode_instruction-register iface registry labels pid bytes n =
    rw (by_name-insert iface.program_id pid iface registry) (ground arith)

-- Decoding by a definition that `_match` returns.
decode-Chosen :
    (iface : ProgramInterface) (d : InstructionDef) (body : List ℕ) (args : Attrs) (n : ℕ)
    → iface.refusal ≡ none
    → Chosen (d.discriminator ++ body) d iface.defs
    → d.decode_args body ≡ ok args
    → decode iface (d.discriminator ++ body) n
      ≡ ok (record {
        program_name = some iface.name;
        name = some d.name;
        args = args;
        account_names = slot_names d.account_names n;
      })
unfolding decode unless_refused decode_with
decode-Chosen iface d body args n free chosen back =
    let (_, found) = match_iff iface (d.discriminator ++ body) d in
    rw (found chosen, free, drop-append d.discriminator body, back)

-- Instruction data that a builder encodes from arguments that fit its layout, for a definition that
-- is the first of the longest whose discriminators start the data, in a registered interface that
-- does not refuse: it decodes to that definition's name, to the arguments by name and in order, and
-- to one name for each account slot.
pub decode_instruction-encode_ix_layout :
    (env : Env) (d fuel n : ℕ) (registry : Registry) (labels : Labels) (pid : String)
    (iface : ProgramInterface) (def : InstructionDef) (layout : Fields) (args : Attrs)
    (bytes : List ℕ)
    → by_name pid registry ≡ some iface
    → iface.refusal ≡ none
    → def.decode_args ≡ decode_args env layout
    → FitsArgs env d layout args
    → d ≤ max_decode_depth
    → d ≤ fuel
    → encode_ix_layout env fuel def.discriminator (nodes_of layout) (values_of args) ≡ ok bytes
    → Chosen bytes def iface.defs
    → decode_instruction registry labels pid bytes n
      ≡ ok (record {
        program_name = some iface.name;
        name = some def.name;
        args = args;
        account_names = slot_names def.account_names n;
      })
unfolding decode_instruction decode_by
decode_instruction-encode_ix_layout env d fuel n registry labels pid iface def layout args bytes
      registered free decoder fits shallow enough written chosen =
    let (body, written', back) =
      decode_args-encode_ix_layout env d fuel def.discriminator layout args fits shallow enough in
    let same : bytes ≡ def.discriminator ++ body = cc in
    rw (registered, same)
      (decode-Chosen iface def body args n free (rw same at chosen) (rw decoder back))

rooted : (a b : Bool) → b ≡ true → a || b ≡ true
rooted a b h = ground arith

find_event-set_event :
    (disc : List ℕ) (cls : List ℕ → Result Value) (events : List (List ℕ × (List ℕ → Result Value)))
    → find_event disc (set_event disc cls events) ≡ some cls
unfolding find_event set_event
find_event-set_event disc cls [] = rw (same_bytes_refl disc) refl
find_event-set_event disc cls ((e, f) ∷ events) =
    ground (arith, find_event-set_event disc cls events)

-- The class that was added decodes what starts with its discriminator.
decode_event-add_event :
    (disc body : List ℕ) (cls : List ℕ → Result Value) (iface : ProgramInterface)
    → length disc ≡ 8
    → decode_event (add_event disc cls iface) (disc ++ body) ≡ attempt (cls (disc ++ body))
unfolding decode_event add_event decoded
decode_event-add_event disc body cls iface eight =
    let long : ltb (length (disc ++ body)) 8 ≡ false =
      le→ltb_not _ _ (omega (arith, length-append disc body)) in
    let front : take 8 (disc ++ body) ≡ disc =
      subst (λ n. take n (disc ++ body) ≡ disc) eight (take-append disc body) in
    rw (long, front, find_event-set_event disc cls iface.events) refl

-- An event of a class with an 8-byte discriminator, once the class is added to the registered
-- interface: what `encode` makes of a value that fits is decoded to the value.
pub decode_events-encode :
    (env : Env) (d fuel : ℕ) (registry : Registry) (pid : String) (iface : ProgramInterface)
    (c : ClassId) (meta : BorshMeta) (value : Value)
    → by_name pid registry
      ≡ some (add_event meta.discriminator (λ b. Structs.decode env c (some meta) b true) iface)
    → is_event meta.kind ≡ true
    → length meta.discriminator ≡ 8
    → Fits env d (defined c) value
    → d ≤ max_decode_depth
    → d ≤ fuel
    → (payload : List ℕ) × (Structs.encode env fuel c (some meta) value true ≡ ok payload)
      × (decode_events registry pid (payload ∷ []) ≡ known value ∷ [])
unfolding decode_events event_by or_unknown attempt
decode_events-encode env d fuel registry pid iface c meta value registered is_ev eight fits shallow
      enough =
    let (wire, written, back) =
      decode-encode_struct env c meta d fuel value [] fits shallow enough (rooted _ _ is_ev)
        (inr refl) in
    let cls : List ℕ → Result Value = λ b. Structs.decode env c (some meta) b true in
    (
      meta.discriminator ++ wire,
      written,
      rw (
        registered,
        decode_event-add_event meta.discriminator wire cls iface eight,
        rw append-nil at back,
      ),
    )

-- ===== src/Interface/Slots.antt =====
-- The role names that decoding gives the account slots (_interface.py).
use wake_sol.Prelude.{
  ℕ, zero, suc, ◌-◌, ◌≡◌, refl, sym, ◌∙◌, drop, String, Option, none, some, List, [], ◌∷◌, arith,
  length, take, replicate, get_elem?, ltb, if◌then◌else◌,
}
use wake_sol.Codec.Result.{ok, first_returned}
use wake_sol.Interface.Defs.{
  InstructionDef, DecodedInstruction, ProgramInterface, slot_names, decode_with, unless_refused,
  match, decode,
}

-- What the slots of an instruction are called: the `i`-th name below `n`, and no slot from `n` on.
abbrev pub named : List String → ℕ → ℕ → Option (Option String)
named names n i = if ltb i n then some (get_elem? names i) else none

ltb-suc : (i n : ℕ) → ltb (suc i) (suc n) ≡ ltb i n
ltb-suc i n = ground arith

named-suc :
    (x : String) (names : List String) (n i : ℕ)
    → named (x ∷ names) (suc n) (suc i) ≡ named names n i
named-suc x names n i = rw (ltb-suc i n) refl

named-nil_suc : (n i : ℕ) → named [] (suc n) (suc i) ≡ named [] n i
named-nil_suc n i = rw (ltb-suc i n) refl

replicate-get : (n i : ℕ) → get_elem? (replicate n none) i ≡ named [] n i
replicate-get zero i = ground arith
replicate-get (suc n) zero = ground arith
replicate-get (suc n) (suc i) = replicate-get n i ∙ sym (named-nil_suc n i)

slot_names-get :
    (names : List String) (n i : ℕ) → get_elem? (slot_names names n) i ≡ named names n i
unfolding slot_names
slot_names-get names zero i = ground arith
slot_names-get [] (suc n) i =
    let q : suc n - 0 ≡ suc n = omega arith in rw q (replicate-get (suc n) i)
slot_names-get (x ∷ names) (suc n) zero = ground arith
slot_names-get (x ∷ names) (suc n) (suc i) =
    let q : suc n - suc (length (take n names)) ≡ n - length (take n names) = omega arith in
    rw q (slot_names-get names n i) ∙ sym (named-suc x names n i)

abbrev pub role_names : Option InstructionDef → List String
role_names none = []
role_names (some d) = d.account_names

decode_with-account_names :
    (iface : ProgramInterface) (bytes : List ℕ) (n i : ℕ) (def : Option InstructionDef)
    (r : DecodedInstruction)
    → decode_with iface bytes n def ≡ ok r
    → get_elem? r.account_names i ≡ named (role_names def) n i
unfolding decode_with
decode_with-account_names iface bytes n i none r e =
    let q : r.account_names ≡ replicate n none = ground arith in rw q (replicate-get n i)
decode_with-account_names iface bytes n i (some d) r e =
    let (args, back, done) =
      first_returned _ (d.decode_args (drop (length d.discriminator) bytes)) r e in
    let q : r.account_names ≡ slot_names d.account_names n = ground arith in
    rw q (slot_names-get d.account_names n i)

-- If decoding succeeds there is a name for each of the `n` slots and no more: that of the matched
-- definition at the same place, and `None` beyond its declared names or where nothing matched.
pub decode-account_names :
    (iface : ProgramInterface) (bytes : List ℕ) (n i : ℕ) (r : DecodedInstruction)
    → decode iface bytes n ≡ ok r
    → get_elem? r.account_names i ≡ named (role_names (match iface bytes)) n i
unfolding decode unless_refused
decode-account_names iface bytes n i r e = by_refusal iface.refusal e
  where
    by_refusal :
        (reason : Option String)
        → unless_refused reason (decode_with iface bytes n (match iface bytes)) ≡ ok r
        → get_elem? r.account_names i ≡ named (role_names (match iface bytes)) n i
    by_refusal none h = decode_with-account_names iface bytes n i (match iface bytes) r h
    by_refusal (some reason) h = cc

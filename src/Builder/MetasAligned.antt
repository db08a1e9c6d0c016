-- ===== src/Builder/MetasAligned.antt =====
-- Each slot has its meta at its own place (`build_metas` of _codec/builder.py).
use wake_sol.Prelude.{
  ℕ, ◌≡◌, refl, sym, ap, ◌∙◌, ◌↔◌, ◌⊎◌, Bool, true, false, not, ◌||◌, Option, none, some, List, [],
  ◌∷◌, ◌++◌, arith, inl, inr, Bool-cases, if◌then◌else◌,
}
use wake_sol.Codec.Result.{Result, ok, err, out_of_fuel, first_returned}
use wake_sol.Codec.Value.{Value}
use wake_sol.Codec.Node.{Env}
use wake_sol.Codec.Write.{to_pubkey}
use wake_sol.Builder.Metas.{
  AccountMeta, MetaLike, meta, address, account_meta, differ, Slot, Built, push, place, build_metas,
}

-- What a slot stands for, with the metas that are warned of: the program's id without privileges for
-- an omitted optional account, an explicit meta as it is, and an address with the declared flags. An
-- explicit meta is warned of if one of its flags is not the declared one.
pub data Stands (env : Env) (program_id : List ℕ) (s : Slot)
    : Option MetaLike → AccountMeta → List AccountMeta → Type 0 where
  sentinel :
      {m : AccountMeta} {warned : List AccountMeta}
      → s.is_optional ≡ true
      → m ≡ record { pubkey = program_id; is_signer = false; is_writable = false }
      → warned ≡ []
      → Stands env program_id s none m warned
  as_declared :
      {m : AccountMeta} {warned : List AccountMeta}
      → m.is_signer ≡ s.is_signer
      → m.is_writable ≡ s.is_writable
      → warned ≡ []
      → Stands env program_id s (some (meta m)) m warned
  other_signer :
      {m : AccountMeta} {warned : List AccountMeta}
      → m.is_signer ≡ not s.is_signer
      → warned ≡ m ∷ []
      → Stands env program_id s (some (meta m)) m warned
  other_writable :
      {m : AccountMeta} {warned : List AccountMeta}
      → m.is_writable ≡ not s.is_writable
      → warned ≡ m ∷ []
      → Stands env program_id s (some (meta m)) m warned
  flagged :
      {v : Value} {m : AccountMeta} {warned : List AccountMeta}
      → to_pubkey env v ≡ ok m.pubkey
      → m.is_signer ≡ s.is_signer
      → m.is_writable ≡ s.is_writable
      → warned ≡ []
      → Stands env program_id s (some (address v)) m warned

-- The metas and the warnings of a list of slots, each at its place.
pub data Aligned (env : Env) (program_id : List ℕ)
    : List Slot → List AccountMeta → List AccountMeta → Type 0 where
  done : Aligned env program_id [] [] []
  next :
      {s : Slot} {slots : List Slot} {m : AccountMeta} {metas here later warned : List AccountMeta}
      → Stands env program_id s s.value m here
      → Aligned env program_id slots metas later
      → warned ≡ here ++ later
      → Aligned env program_id (s ∷ slots) (m ∷ metas) warned

-- One slot was placed before the later ones.
record Placed (env : Env) (program_id : List ℕ) (s : Slot) (value : Option MetaLike)
    (rest : Result Built) (built : Built) : Type 0 where
  m : AccountMeta
  here : List AccountMeta
  later : Built
  stands : Stands env program_id s value m here
  rest_ok : rest ≡ ok later
  whole : built ≡ record { metas = m ∷ later.metas; warned = here ++ later.warned }

push-later :
    (m : AccountMeta) (warn : Bool) (rest : Result Built) (built : Built)
    → push m warn rest ≡ ok built
    → (later : Built) × (rest ≡ ok later)
      × (built ≡ record {
        metas = m ∷ later.metas;
        warned = if warn then m ∷ later.warned else later.warned;
      })
unfolding push
push-later m warn (ok later) built e = (later, refl, ground arith)
push-later m warn (err x) built e = cc
push-later m warn out_of_fuel built e = cc

-- Whether a flag is another than the declared one.
differ-cases : (a b : Bool) → ((differ a b ≡ true) × (a ≡ not b)) ⊎ ((differ a b ≡ false) × (a ≡ b))
differ-cases true true = inr (refl, refl)
differ-cases true false = inl (refl, refl)
differ-cases false true = inl (refl, refl)
differ-cases false false = inr (refl, refl)

-- Whether an explicit meta is warned of, and what it stands for.
explicit-Stands :
    (env : Env) (program_id : List ℕ) (s : Slot) (m : AccountMeta)
    → let warn = differ m.is_signer s.is_signer || differ m.is_writable s.is_writable in
      Stands env program_id s (some (meta m)) m (if warn then m ∷ [] else [])
explicit-Stands env program_id s m = elim (differ-cases m.is_signer s.is_signer) [
  | inl (d, q) ↦ rw d (Stands.other_signer q refl)
  | inr (d, q) ↦ rw d (elim (differ-cases m.is_writable s.is_writable) [
    | inl (d', q') ↦ rw d' (Stands.other_writable q' refl)
    | inr (d', q') ↦ rw d' (Stands.as_declared q q' refl)
  ])
]

if-append :
    (warn : Bool) (m : AccountMeta) (later : List AccountMeta)
    → (if warn then m ∷ later else later) ≡ (if warn then m ∷ [] else []) ++ later
if-append true m later = refl
if-append false m later = refl

differ_same : (a : Bool) → differ a a ≡ false
differ_same true = refl
differ_same false = refl

differ-not : (a : Bool) → differ (not a) a ≡ true
differ-not true = refl
differ-not false = refl

or-true : (a : Bool) → (a || true) ≡ true
or-true true = refl
or-true false = refl

ok_injective : {A : Type 0} {a b : A} → ◌≡◌ {A = Result A} (ok a) (ok b) → a ≡ b
ok_injective {A} {a} {b} e =
    ap (λ (r : Result A). elim r [ ok x ↦ x | err x ↦ a | out_of_fuel ↦ a ]) e

place-Placed :
    (env : Env) (program_id : List ℕ) (s : Slot) (value : Option MetaLike) (rest : Result Built)
    (built : Built)
    → place env program_id s value rest ≡ ok built
    → Placed env program_id s value rest built
unfolding place account_meta
place-Placed env program_id s none rest built e = elim (Bool-cases s.is_optional) [
  | inl optional ↦
      let (later, r, f) = push-later _ false rest built (rw optional at e) in
      record {
        m = _;
        here = [];
        later = later;
        stands = Stands.sentinel optional refl refl;
        rest_ok = r;
        whole = f;
      }
  | inr required ↦ let e' = rw required at e in cc
]
place-Placed env program_id s (some (meta m)) rest built e =
    let warn = differ m.is_signer s.is_signer || differ m.is_writable s.is_writable in
    let (later, r, f) = push-later m warn rest built e in
    record {
      m = m;
      here = if warn then m ∷ [] else [];
      later = later;
      stands = explicit-Stands env program_id s m;
      rest_ok = r;
      whole =
          f
          ∙ ap (λ w. record { metas = m ∷ later.metas; warned = w })
              (if-append warn m later.warned);
    }
place-Placed env program_id s (some (address v)) rest built e =
    let (m, pushed, coerced) =
      first_returned (λ m. push m false rest) (account_meta env v s.is_signer s.is_writable) built
        e in
    let (key, made, found) =
      first_returned
        (λ key. ok (record { pubkey = key; is_signer = s.is_signer; is_writable = s.is_writable }))
        (to_pubkey env v) m coerced in
    let q : ◌≡◌ {A = AccountMeta}
        (record { pubkey = key; is_signer = s.is_signer; is_writable = s.is_writable }) m =
      ok_injective made in
    let (later, r, f) = push-later m false rest built pushed in
    record {
      m = m;
      here = [];
      later = later;
      stands =
          Stands.flagged (found ∙ ap (λ a. ok a.pubkey) q) (sym (ap (λ a. a.is_signer) q))
            (sym (ap (λ a. a.is_writable) q)) refl;
      rest_ok = r;
      whole = f;
    }

to_Aligned :
    (env : Env) (program_id : List ℕ) (slots : List Slot) (built : Built)
    → build_metas env program_id slots ≡ ok built
    → Aligned env program_id slots built.metas built.warned
unfolding build_metas
to_Aligned env program_id [] built e =
    let q : built ≡ record { metas = []; warned = [] } = ground arith in rw q Aligned.done
to_Aligned env program_id (s ∷ slots) built e =
    let p = place-Placed env program_id s s.value (build_metas env program_id slots) built e in
    rw p.whole (Aligned.next p.stands (to_Aligned env program_id slots p.later p.rest_ok) refl)

place_lem :
    (env : Env) (program_id : List ℕ) (s : Slot) (value : Option MetaLike) (rest : Result Built)
    (m : AccountMeta) (metas here later : List AccountMeta)
    → Stands env program_id s value m here
    → rest ≡ ok (record { metas = metas; warned = later })
    → place env program_id s value rest ≡ ok (record { metas = m ∷ metas; warned = here ++ later })
unfolding place push account_meta
place_lem env program_id s none rest m metas here later (Stands.sentinel optional q w) e =
    rw (e, optional, q, w) refl
place_lem env program_id s (some (meta m)) rest m' metas here later (Stands.as_declared p q w) e =
    rw (e, w, p, q) (rw (differ_same s.is_signer, differ_same s.is_writable) refl)
place_lem env program_id s (some (meta m)) rest m' metas here later (Stands.other_signer p w) e =
    rw (e, w, p) (rw (differ-not s.is_signer) refl)
place_lem env program_id s (some (meta m)) rest m' metas here later (Stands.other_writable p w) e =
    rw (e, w, p) (rw (differ-not s.is_writable, or-true (differ m.is_signer s.is_signer)) refl)
place_lem env program_id s (some (address v)) rest m metas here later (Stands.flagged k p q w) e =
    rw (e, w, k, p, q) refl

of_Aligned :
    (env : Env) (program_id : List ℕ) (slots : List Slot) (metas warned : List AccountMeta)
    → Aligned env program_id slots metas warned
    → build_metas env program_id slots ≡ ok (record { metas = metas; warned = warned })
unfolding build_metas
of_Aligned env program_id [] metas warned Aligned.done = refl
of_Aligned env program_id (s ∷ slots) metas warned
      (Aligned.next {m = m} {metas = more} {here = here} {later = later} st rest w) =
    rw w (
      place_lem env program_id s s.value (build_metas env program_id slots) m more here later st
        (of_Aligned env program_id slots more later rest))

-- The metas are built, with the warnings, exactly if there is one meta for each slot, at its slot's
-- place: the program's id without privileges for an omitted slot, which is optional; an explicit meta
-- as it was given; and an address with the flags that the slot declares. There is a warning, in the
-- order of the slots, for each explicit meta with a flag that is not the declared one.
pub build_metas-Aligned :
    (env : Env) (program_id : List ℕ) (slots : List Slot) (built : Built)
    → (build_metas env program_id slots ≡ ok built)
      ↔ Aligned env program_id slots built.metas built.warned
build_metas-Aligned env program_id slots built = (
  to_Aligned env program_id slots built,
  of_Aligned env program_id slots built.metas built.warned,
)

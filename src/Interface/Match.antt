-- ===== src/Interface/Match.antt =====
-- `_match` of _interface.py chooses the first of the longest discriminators that start the data.
use wake_sol.Prelude.{
  ℕ, ◌≤◌, ◌<◌, ◌≡◌, ◌↔◌, ◌⊎◌, inl, inr, refl, sym, ap, true, false, ◌&&◌, Option, none, some, List,
  [], ◌∷◌, ◌++◌, arith, Bool-cases, length, All, ltb_not, ltb→lt, lt→ltb, and_left, and_right, ◌∙◌,
}
use wake_sol.Interface.Defs.{InstructionDef, ProgramInterface, starts, longer, match_from, match}

abbrev pub Starts : List ℕ → InstructionDef → Type 0
Starts bytes d = starts d.discriminator bytes ≡ true

-- Those of `ds` that start the data are shorter than `n`, or at most `n`.
abbrev pub Below : List ℕ → ℕ → List InstructionDef → Type 0
Below bytes n ds = All (λ e. Starts bytes e → length e.discriminator < n) ds

abbrev pub UpTo : List ℕ → ℕ → List InstructionDef → Type 0
UpTo bytes n ds = All (λ e. Starts bytes e → length e.discriminator ≤ n) ds

-- `d` starts the data; what stands before it and starts the data is shorter, what stands behind it
-- is not longer.
pub record Chosen (bytes : List ℕ) (d : InstructionDef) (ds : List InstructionDef) : Type 0 where
  pub before : List InstructionDef
  pub after : List InstructionDef
  pub split : ds ≡ before ++ d ∷ after
  pub fits : Starts bytes d
  pub longest : Below bytes (length d.discriminator) before
  pub first : UpTo bytes (length d.discriminator) after

Chosen-cons :
    {bytes : List ℕ} {d : InstructionDef} (e : InstructionDef) {ds : List InstructionDef}
    → (Starts bytes e → length e.discriminator < length d.discriminator)
    → Chosen bytes d ds
    → Chosen bytes d (e ∷ ds)
Chosen-cons e h c = record {
  before = e ∷ c.before;
  after = c.after;
  split = ap (λ l. e ∷ l) c.split;
  fits = c.fits;
  longest = (h, c.longest);
  first = c.first;
}

not_both : {a b : ℕ} → a < b → b ≤ a → ⊥
not_both h k = omega arith

shorter : {a b c : ℕ} → a ≤ b → b < c → a < c
shorter h k = omega arith

shorter_still : {a b c : ℕ} → a < b → b < c → a < c
shorter_still h k = omega arith

module _ (bytes : List ℕ) where
  not_longer :
      (e best : InstructionDef)
      → Starts bytes e
      → (starts e.discriminator bytes && longer e (some best)) ≡ false
      → length e.discriminator ≤ length best.discriminator
  unfolding longer
  not_longer e best s h = ltb_not _ _ (rw s at h)

  is_longer :
      (e best : InstructionDef)
      → (starts e.discriminator bytes && longer e (some best)) ≡ true
      → length best.discriminator < length e.discriminator
  unfolding longer
  is_longer e best h = ltb→lt _ _ (and_right _ _ h)

  beaten :
      (e d : InstructionDef)
      → (Starts bytes e → length e.discriminator ≤ length d.discriminator)
      → (starts e.discriminator bytes && longer e (some d)) ≡ true
      → ⊥
  beaten e d h better = not_both (is_longer e d better) (h (and_left _ _ better))

  -- The loop from a best so far.
  match_from-some :
      (best d : InstructionDef) (ds : List InstructionDef)
      → match_from bytes (some best) ds ≡ some d
      → ((d ≡ best) × UpTo bytes (length best.discriminator) ds)
        ⊎ (Chosen bytes d ds × (length best.discriminator < length d.discriminator))
  unfolding match_from
  match_from-some best d [] h = inl (cc, tt)
  match_from-some best d (e ∷ es) h =
      elim (Bool-cases (starts e.discriminator bytes && longer e (some best))) [
        | inl better ↦ elim (match_from-some e d es (rw better at h)) [
          | inl (same, rest) ↦ inr (
            record {
              before = [];
              after = es;
              split = ap (λ x. x ∷ es) (sym same);
              fits = rw same (and_left _ _ better);
              longest = tt;
              first = rw same rest;
            },
            rw same (is_longer e best better),
          )
          | inr (c, more) ↦
              inr (Chosen-cons e (λ s. more) c, shorter_still (is_longer e best better) more)
        ]
        | inr not_better ↦ elim (match_from-some best d es (rw not_better at h)) [
          | inl (same, rest) ↦ inl (same, ((λ s. not_longer e best s not_better), rest))
          | inr (c, more) ↦
              inr (Chosen-cons e (λ s. shorter (not_longer e best s not_better) more) c, more)
        ]
      ]

  match_from-none :
      (d : InstructionDef) (ds : List InstructionDef)
      → match_from bytes none ds ≡ some d
      → Chosen bytes d ds
  unfolding match_from
  match_from-none d [] h = cc
  match_from-none d (e ∷ es) h = elim (Bool-cases (starts e.discriminator bytes)) [
    | inl start ↦ elim (match_from-some e d es (rw start at h)) [
      | inl (same, rest) ↦ record {
        before = [];
        after = es;
        split = ap (λ x. x ∷ es) (sym same);
        fits = rw same start;
        longest = tt;
        first = rw same rest;
      }
      | inr (c, more) ↦ Chosen-cons e (λ s. more) c
    ]
    | inr other ↦ Chosen-cons e (λ s. cc) (match_from-none d es (rw other at h))
  ]

  -- The loop once `d` is the best.
  match_from-after :
      (d : InstructionDef) (ds : List InstructionDef)
      → UpTo bytes (length d.discriminator) ds
      → match_from bytes (some d) ds ≡ some d
  unfolding match_from
  match_from-after d [] h = refl
  match_from-after d (e ∷ es) (he, h) =
      elim (Bool-cases (starts e.discriminator bytes && longer e (some d))) [
        | inl better ↦ absurd (beaten e d he better)
        | inr not_better ↦ rw not_better (match_from-after d es h)
      ]

  match_from-take :
      (best : Option InstructionDef) (d : InstructionDef) (ds : List InstructionDef)
      → (starts d.discriminator bytes && longer d best) ≡ true
      → match_from bytes best (d ∷ ds) ≡ match_from bytes (some d) ds
  unfolding match_from
  match_from-take best d ds h = rw h refl

  match_from-skip :
      (best : Option InstructionDef) (d : InstructionDef) (ds : List InstructionDef)
      → (starts d.discriminator bytes && longer d best) ≡ false
      → match_from bytes best (d ∷ ds) ≡ match_from bytes best ds
  unfolding match_from
  match_from-skip best d ds h = rw h refl

  -- `d` is taken at its place, and what stands before it leaves a best that it beats.
  match_from-Chosen :
      (best : Option InstructionDef) (d : InstructionDef) (before after : List InstructionDef)
      → longer d best ≡ true
      → Starts bytes d
      → Below bytes (length d.discriminator) before
      → UpTo bytes (length d.discriminator) after
      → match_from bytes best (before ++ d ∷ after) ≡ some d
  unfolding match_from
  match_from-Chosen best d [] after better fits below up =
      match_from-take best d after (rw fits better) ∙ match_from-after d after up
  match_from-Chosen best d (e ∷ before) after better fits (he, below) up =
      elim (Bool-cases (starts e.discriminator bytes && longer e best)) [
        | inl taken ↦
            match_from-take best e (before ++ d ∷ after) taken
            ∙ match_from-Chosen (some e) d before after
                (unfold longer in lt→ltb _ _ (he (and_left _ _ taken))) fits below up
        | inr skipped ↦
            match_from-skip best e (before ++ d ∷ after) skipped
            ∙ (match_from-Chosen best d before after better fits below up)
      ]

-- The definition that `_match` returns is the first among the longest of those whose discriminator
-- starts the data; and whatever definition is that, `_match` returns it.
pub match_iff :
    (iface : ProgramInterface) (bytes : List ℕ) (d : InstructionDef)
    → (match iface bytes ≡ some d) ↔ Chosen bytes d iface.defs
unfolding match
match_iff iface bytes d = (
  match_from-none bytes d iface.defs,
  λ c. rw c.split (
      match_from-Chosen bytes none d c.before c.after (unfold longer in refl) c.fits c.longest
        c.first),
)

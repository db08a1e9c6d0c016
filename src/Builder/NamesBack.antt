-- ===== src/Builder/NamesBack.antt =====
-- When a mangled name gives its IDL name back (_codec/builder.py).
use wake_sol.Prelude.{
  ℕ, suc, ◌≡◌, ◌≢◌, ◌↔◌, ◌⊎◌, inl, inr, refl, ap, Bool, true, false, ◌&&◌, List, [], ◌∷◌, ◌++◌,
  arith, Bool-cases, length,
}
use wake_sol.Builder.Names.{is_taken, underscore, mangle, chop, ends_underscore, mangle_back}

chop-append : (name : List ℕ) (c : ℕ) → chop (name ++ c ∷ []) ≡ name
unfolding chop
chop-append [] c = refl
chop-append (a ∷ []) c = refl
chop-append (a ∷ b ∷ name) c = ap (λ t. a ∷ t) (chop-append (b ∷ name) c)

ends_underscore-append : (name : List ℕ) → ends_underscore (name ++ underscore ∷ []) ≡ true
unfolding ends_underscore
ends_underscore-append [] = refl
ends_underscore-append (a ∷ []) = refl
ends_underscore-append (a ∷ b ∷ name) = ends_underscore-append (b ∷ name)

length-chop : (c : ℕ) (name : List ℕ) → suc (length (chop (c ∷ name))) ≡ length (c ∷ name)
unfolding chop
length-chop c [] = refl
length-chop c (d ∷ name) = ap suc (length-chop d name)

chop-ne : (name : List ℕ) → ends_underscore name ≡ true → chop name ≢ name
chop-ne [] h e = unfold ends_underscore in cc
chop-ne (c ∷ name) h e = absurd (omega (arith, length-chop c name, ap length e))

both_left : (a b : Bool) → a && b ≡ true → a ≡ true
both_left a b h = ground arith

-- A name is recovered from its mangled form exactly when it is itself a keyword or reserved, or is
-- not such a name with an underscore behind it.
pub mangle_back-mangle_iff :
    (name : List ℕ)
    → (mangle_back (mangle name) ≡ name)
      ↔ ((is_taken name ≡ true) ⊎ (ends_underscore name && is_taken (chop name) ≡ false))
mangle_back-mangle_iff name = elim (Bool-cases (is_taken name)) [
  | inl taken ↦ (
    λ h. inl taken,
    λ h.
        unfold mangle mangle_back in
        rw (taken, ends_underscore-append name, chop-append name underscore, taken),
  )
  | inr free ↦ elim (Bool-cases (ends_underscore name && is_taken (chop name))) [
    | inl clash ↦ (
      λ h.
          absurd (
            chop-ne name (both_left _ _ clash)
              (unfold mangle mangle_back in rw (free, clash) at h)),
      elim [ inl taken ↦ cc | inr clear ↦ cc ],
    )
    | inr clear ↦ (λ h. inr clear, λ h. unfold mangle mangle_back in rw (free, clear))
  ]
]

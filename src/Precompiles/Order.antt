-- ===== src/Precompiles/Order.antt =====
-- What `materialize` of _precompiles.py makes of each object of a transaction.
use wake_sol.Prelude.{
  ℕ, zero, suc, ◌+◌, ◌≡◌, refl, ap, subst, Option, some, List, [], ◌∷◌, arith, length, get_elem?,
}
use wake_sol.Codec.Result.{ok, first_returned}
use wake_sol.Precompiles.Placement.{Instruction, Content, Object}
use wake_sol.Precompiles.Assembly.{concrete, materialize_from, materialize}

-- The list has the instruction that an object at place `j` resolves to, at the same place.
abbrev pub Resolved : ℕ → List Object → Content → Option Instruction → Type 0
Resolved i ixs c found = (ix : Instruction) × (concrete i ixs c ≡ ok ix) × (found ≡ some ix)

-- The first object was resolved, and then the others.
materialize_from-cons :
    (i : ℕ) (ixs rest : List Object) (o : Object) (out : List Instruction)
    → materialize_from i ixs (o ∷ rest) ≡ ok out
    → (ix : Instruction) × (more : List Instruction) × (concrete i ixs o.1 ≡ ok ix)
      × (materialize_from (suc i) ixs rest ≡ ok more)
      × (out ≡ ix ∷ more)
unfolding materialize_from
materialize_from-cons i ixs rest (id, c) out e =
    let (ix, e1, head) = first_returned _ (concrete i ixs c) out e in
    let (more, e2, tail) = first_returned _ (materialize_from (suc i) ixs rest) out e1 in
    (ix, more, head, tail, ground arith)

materialize_from-get :
    (i j : ℕ) (ixs rest : List Object) (o : Object) (out : List Instruction)
    → materialize_from i ixs rest ≡ ok out
    → get_elem? rest j ≡ some o
    → Resolved (i + j) ixs o.1 (get_elem? out j)
materialize_from-get i j ixs [] o out e h = cc
materialize_from-get i zero ixs (p ∷ rest) o out e h =
    let (ix, more, head, tail, q) = materialize_from-cons i ixs rest p out e in
    let same : p ≡ o = ground arith in
    let here : i + 0 ≡ i = omega arith in rw (q, here) (ix, rw same at head, refl)
materialize_from-get i (suc j) ixs (p ∷ rest) o out e h =
    let (ix, more, head, tail, q) = materialize_from-cons i ixs rest p out e in
    let there : i + suc j ≡ suc i + j = omega arith in
    rw (q, there) (materialize_from-get (suc i) j ixs rest o more tail h)

length-materialize_from :
    (i : ℕ) (ixs rest : List Object) (out : List Instruction)
    → materialize_from i ixs rest ≡ ok out
    → length out ≡ length rest
length-materialize_from i ixs [] out e =
    let q : out ≡ [] = unfold materialize_from in ground arith in rw q refl
length-materialize_from i ixs (p ∷ rest) out e =
    let (ix, more, head, tail, q) = materialize_from-cons i ixs rest p out e in
    rw q (ap suc (length-materialize_from (suc i) ixs rest more tail))

-- If a list of objects is materialized there is one instruction for each object, at its place: the
-- object itself, or what a deferred one resolves to at that index against the whole list.
pub materialize-concrete :
    (ixs : List Object) (out : List Instruction) (j : ℕ) (o : Object)
    → materialize ixs ≡ ok out
    → get_elem? ixs j ≡ some o
    → (length out ≡ length ixs) × Resolved j ixs o.1 (get_elem? out j)
unfolding materialize
materialize-concrete ixs out j o e h =
    let from_zero : 0 + j ≡ j = omega arith in
    (
      length-materialize_from 0 ixs ixs out e,
      subst (λ k. Resolved k ixs o.1 (get_elem? out j)) from_zero
          (materialize_from-get 0 j ixs ixs o out e h),
    )

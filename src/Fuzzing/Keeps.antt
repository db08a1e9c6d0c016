-- ===== src/Fuzzing/Keeps.antt =====
-- Triples for actions that may raise: what holds if the action returns, and what if it raises.
use wake_sol.Fuzzing.Run.{Run, Outcome, returned, raised, Code, M, ◌>>=◌, modify, in_run, call}

abbrev pub Post :
    {W A : Type 0} → (A → Run W → Type 0) → (Run W → Type 0) → Outcome (Run W) A → Type 0
Post Q R (returned a r) = Q a r
Post Q R (raised e r) = R r

abbrev pub Triple :
    {W A : Type 0} → (Run W → Type 0) → M W A → (A → Run W → Type 0) → (Run W → Type 0) → Type 0
Triple {W} P m Q R = (r : Run W) → P r → Post Q R (m r)

-- What the test's own code cannot change.
abbrev pub IgnoresWorld : {W : Type 0} → (Run W → Type 0) → Type 0
IgnoresWorld {W} P = (r : Run W) (w : W) → P r → P (record r { world = w })

module _ {W : Type 0} where
  after :
      {A B : Type 0} (Q : A → Run W → Type 0) (f : A → M W B) (Q' : B → Run W → Type 0)
      (R : Run W → Type 0) (o : Outcome (Run W) A)
      → Post Q R o
      → ((a : A) → Triple (Q a) (f a) Q' R)
      → Post Q' R (elim o [ returned a r' ↦ f a r' | raised e r' ↦ raised e r' ])
  after Q f Q' R (returned a r) h next = next a r h
  after Q f Q' R (raised e r) h next = h

  pub bind-Triple :
      {A B : Type 0} (P : Run W → Type 0) (m : M W A) (Q : A → Run W → Type 0) (f : A → M W B)
      (Q' : B → Run W → Type 0) (R : Run W → Type 0)
      → Triple P m Q R
      → ((a : A) → Triple (Q a) (f a) Q' R)
      → Triple P (m >>= f) Q' R
  bind-Triple P m Q f Q' R h next r p = after Q f Q' R (m r) (h r p) next

  in_run-Post :
      {A : Type 0} (P : Run W → Type 0) (r : Run W) (o : Outcome W A)
      → IgnoresWorld P
      → P r
      → Post (λ _. P) P (in_run r o)
  unfolding in_run
  in_run-Post P r (returned a w) ignores p = ignores r w p
  in_run-Post P r (raised e w) ignores p = ignores r w p

  pub call-Triple :
      {A : Type 0} (P : Run W → Type 0) (code : Code W A)
      → IgnoresWorld P
      → Triple P (call code) (λ _. P) P
  unfolding call
  call-Triple P code ignores r p = in_run-Post P r (code r.world) ignores p

  pub modify-Triple :
      (P P' R : Run W → Type 0) (f : Run W → Run W)
      → ((r : Run W) → P r → P' (f r))
      → Triple P (modify f) (λ _. P') R
  modify-Triple P P' R f h r p = h r p

  -- An action that keeps a property, and the same of one after it.
  abbrev pub Keeps : {A : Type 0} → (Run W → Type 0) → M W A → Type 0
  Keeps P m = Triple P m (λ _. P) P

  pub bind-Keeps :
      {A B : Type 0} (P : Run W → Type 0) (m : M W A) (f : A → M W B)
      → Keeps P m
      → ((a : A) → Keeps P (f a))
      → Keeps P (m >>= f)
  bind-Keeps P m f h next = bind-Triple P m (λ _. P) f (λ _. P) P h next

  Post-weaken :
      {A : Type 0} (Q : A → Run W → Type 0) (R R' : Run W → Type 0) (o : Outcome (Run W) A)
      → ((r : Run W) → R r → R' r)
      → Post Q R o
      → Post Q R' o
  Post-weaken Q R R' (returned a r) weaker h = h
  Post-weaken Q R R' (raised e r) weaker h = weaker r h

  pub weaken-Triple :
      {A : Type 0} (P : Run W → Type 0) (m : M W A) (Q : A → Run W → Type 0) (R R' : Run W → Type 0)
      → ((r : Run W) → R r → R' r)
      → Triple P m Q R
      → Triple P m Q R'
  weaken-Triple P m Q R R' weaker h r p = Post-weaken Q R R' (m r) weaker (h r p)

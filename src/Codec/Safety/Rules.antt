-- ===== src/Codec/Safety/Rules.antt =====
-- What every call of a reader keeps: the buffer, the bounds of the cursor and its depth; with a rule
-- for each way to build a reader.
use wake_sol.Prelude.{
  ℕ, suc, ◌+◌, ◌-◌, ◌≤◌, ◌<◌, ◌≡◌, refl, Bool, true, false, ◌∙◌, inl, inr, arith, ltb, leb, ltb_not,
  leb→le, Bool-cases, if◌then◌else◌, length,
}
use wake_sol.Codec.Result as Outcome
use wake_sol.Codec.Result.{Result, ok, err, Error, Fault, Breadcrumb}
use wake_sol.Codec.Cursor.{Cursor, Reader, max_decode_depth, ◌>>=◌, pure, raise, take, descend}

-- The position lies in the buffer, and the depth guard has not been passed.
pub record IsWithin (cur : Cursor) : Type 0 where
  pub in_buffer : cur.pos ≤ length cur.buf
  pub guarded : cur.depth ≤ max_decode_depth

-- From `cur` to `next` bytes were taken, and nothing else changed.
pub record Advances (cur next : Cursor) : Type 0 where
  pub same_buf : next.buf ≡ cur.buf
  pub same_depth : next.depth ≡ cur.depth
  pub forward : cur.pos ≤ next.pos
  pub in_buffer : next.pos ≤ length cur.buf

-- The call returned with `P`, or raised: it did not run out of fuel.
pub data Ends {ℓ} {A : Type ℓ} (P : Cursor → Type 0) : Result (A × Cursor) → Type ℓ where
  returned : {a : A} {next : Cursor} → P next → Ends P (ok (a, next))
  raised : {e : Error} → Ends P (err e)

-- With fuel for the levels that the depth guard still allows, the reader ends.
pub record IsSafe {ℓ} {A : Type ℓ} (fuel : ℕ) (m : Reader A) : Type ℓ where
  pub at :
      (cur : Cursor)
      → IsWithin cur
      → max_decode_depth < cur.depth + fuel
      → Ends (Advances cur) (m cur)

pub Advances-refl : {cur : Cursor} → IsWithin cur → Advances cur cur
Advances-refl w = record {
  same_buf = refl;
  same_depth = refl;
  forward = omega arith;
  in_buffer = w.in_buffer;
}

Advances-trans : {a b c : Cursor} → Advances a b → Advances b c → Advances a c
Advances-trans {a} {b} {c} h k = record {
  same_buf = k.same_buf ∙ h.same_buf;
  same_depth = k.same_depth ∙ h.same_depth;
  forward = omega (arith, h.forward, k.forward);
  in_buffer = rw h.same_buf at k.in_buffer;
}

Advances-IsWithin : {a b : Cursor} → IsWithin a → Advances a b → IsWithin b
Advances-IsWithin w h = record {
  in_buffer = rw h.same_buf h.in_buffer;
  guarded = rw h.same_depth w.guarded;
}

pub Ends-bind {ℓ κ} :
    {A : Type ℓ} {B : Type κ} {P Q : Cursor → Type 0} {r : Result (A × Cursor)} {f : A → Reader B}
    → Ends P r
    → ((a : A) (next : Cursor) → P next → Ends Q (f a next))
    → Ends Q (Outcome.◌>>=◌ r (λ (a, next). f a next))
Ends-bind (returned {a} {next} h) k = k a next h
Ends-bind raised k = raised

pub Ends-map {ℓ} :
    {A : Type ℓ} {P Q : Cursor → Type 0} {r : Result (A × Cursor)}
    → Ends P r
    → ((next : Cursor) → P next → Q next)
    → Ends Q r
Ends-map (returned {a} {next} h) k = returned (k next h)
Ends-map raised k = raised

module _ {ℓ} {A : Type ℓ} {fuel : ℕ} where
  pub IsSafe-pure : (a : A) → IsSafe fuel (pure a)
  IsSafe-pure a = record { at = λ cur w h. returned (Advances-refl w) }

  pub IsSafe-raise :
      (fault : Fault) (back : ℕ) (path : Breadcrumb) → IsSafe fuel (raise {A = A} fault back path)
  IsSafe-raise fault back path = record { at = λ cur w h. raised }

  pub IsSafe-error : (e : Error) → IsSafe {A = A} fuel (λ cur. err e)
  IsSafe-error e = record { at = λ cur w h. raised }

  pub IsSafe-if :
      (b : Bool) {m n : Reader A} → IsSafe fuel m → IsSafe fuel n → IsSafe fuel (if b then m else n)
  IsSafe-if true hm hn = hm
  IsSafe-if false hm hn = hn

module _ {ℓ κ} {A : Type ℓ} {B : Type κ} {fuel : ℕ} where
  pub IsSafe-bind :
      {m : Reader A} {f : A → Reader B}
      → IsSafe fuel m
      → ((a : A) → IsSafe fuel (f a))
      → IsSafe fuel (m >>= f)
  IsSafe-bind hm hf = record {
    at = λ cur w h. Ends-bind (hm.at cur w h) λ a next adv.
        Ends-map ((hf a).at next (Advances-IsWithin w adv) (rw adv.same_depth h))
          λ last more. Advances-trans adv more;
  }

pub IsSafe-take : {fuel : ℕ} (n : ℕ) (path : Breadcrumb) → IsSafe fuel (take n path)
unfolding take
IsSafe-take n path = record {
  at = λ cur w h. elim (Bool-cases (ltb (length cur.buf - cur.pos) n)) [
    | inl short ↦ rw short raised
    | inr enough ↦ rw enough (
        returned (record {
          same_buf = refl;
          same_depth = refl;
          forward = omega arith;
          in_buffer = omega (arith, ltb_not _ _ enough, w.in_buffer);
        }))
  ];
}

-- One level deeper there is a unit of fuel less.
pub IsSafe-descend {ℓ} :
    {A : Type ℓ} {fuel : ℕ} (path : Breadcrumb) {body : Reader A}
    → IsSafe fuel body
    → IsSafe (suc fuel) (descend path body)
unfolding descend
IsSafe-descend path hb = record {
  at = λ cur w h. elim (Bool-cases (leb (cur.depth + 1) max_decode_depth)) [
    | inr deep ↦ rw deep raised
    | inl shallow ↦ rw shallow (
        Ends-bind
          (hb.at (record cur { depth = cur.depth + 1 })
            (record { in_buffer = w.in_buffer; guarded = leb→le _ _ shallow }) (omega arith))
          λ a next adv. returned (record {
            same_buf = adv.same_buf;
            same_depth = omega (arith, adv.same_depth);
            forward = adv.forward;
            in_buffer = adv.in_buffer;
          }))
  ];
}

pub ruleset safe_rules =
    (IsSafe-pure, IsSafe-raise, IsSafe-error, IsSafe-if, IsSafe-bind, IsSafe-take, IsSafe-descend)

-- ===== src/Codec/SizeFuel.antt =====
-- `min_wire_size` of _codec/ir.py ends, since a class that is met again inside itself is not entered.
use wake_sol.Prelude.{
  ℕ, zero, suc, ◌+◌, ◌*◌, ◌≤◌, ◌<◌, ◌≡◌, refl, ap, false, Option, none, some, List, [], ◌∷◌, ◌==◌,
  if◌then◌else◌, length, get_elem?, arith, Bool-cases, inl, inr,
}
use Prim.Native.Nat.{min}
use wake_sol.Codec.Value.{ClassId}
use wake_sol.Codec.Node.{
  Node, int, float, bool, str, bytes, pubkey, fixed_bytes, option, opt, vec, fixed_array, defined,
  Fields, Variants, Layout, struct, int_enum, borsh_enum, Env, layout,
}
use wake_sol.Codec.MinSize.{
  array, class, Stack, on_stack, node_size, fields_size, variants_size, layout_size, class_size,
  min_wire_size,
}

-- How many of the first `k` classes are not on the stack.
unfoldable free : ℕ → Stack → ℕ
free zero stack = 0
free (suc k) stack = free k stack + (if on_stack (class k) stack then 0 else 1)

free-array : (k id : ℕ) (stack : Stack) → free k (array id ∷ stack) ≡ free k stack
unfolding free on_stack
free-array zero id stack = refl
free-array (suc k) id stack = rw (free-array k id stack) refl

free-class : (k c : ℕ) (stack : Stack) → free k (class c ∷ stack) ≤ free k stack
unfolding free on_stack
free-class zero c stack = omega arith
free-class (suc k) c stack = ground (arith, free-class k c stack)

free-new_class :
    (k c : ℕ) (stack : Stack)
    → c < k
    → on_stack (class c) stack ≡ false
    → free k (class c ∷ stack) < free k stack
unfolding free on_stack
free-new_class zero c stack h new = absurd (omega arith)
free-new_class (suc k) c stack h new = elim (Bool-cases (c == k)) [
  | inl last ↦
      let q : c ≡ k = ground arith in
      let new' : on_stack (class k) stack ≡ false = rw q at new in
      rw (last, new') (omega (arith, free-class k c stack))
  | inr earlier ↦
      let below : c < k = ground arith in
      rw earlier (omega (arith, free-new_class k c stack below new))
]

free-nil : (k : ℕ) → free k [] ≤ k
unfolding free on_stack
free-nil zero = omega arith
free-nil (suc k) = omega (arith, free-nil k)

get_elem?-some : {A : Type 0} (l : List A) (i : ℕ) (x : A) → get_elem? l i ≡ some x → i < length l
get_elem?-some [] i x h = cc
get_elem?-some (y ∷ l) zero x h = omega arith
get_elem?-some (y ∷ l) (suc i) x h = omega (arith, get_elem?-some l i x h)

-- Two ways to size a class that agree where at most `room` of the first `k` classes are off the stack.
module _ (k room : ℕ) (f g : ClassId → Stack → ℕ)
    (agree : (c : ClassId) (stack : Stack) → free k stack ≤ room → f c stack ≡ g c stack) where
  node_size-agree :
      (node : Node) (stack : Stack)
      → free k stack ≤ room
      → node_size f node stack ≡ node_size g node stack
  unfolding node_size
  node_size-agree (int nbytes _) stack h = refl
  node_size-agree (float nbytes) stack h = refl
  node_size-agree bool stack h = refl
  node_size-agree str stack h = refl
  node_size-agree bytes stack h = refl
  node_size-agree pubkey stack h = refl
  node_size-agree (fixed_bytes n) stack h = refl
  node_size-agree (option _) stack h = refl
  node_size-agree (opt _) stack h = refl
  node_size-agree (vec _) stack h = refl
  node_size-agree (fixed_array id elem n) stack h =
      let inner = node_size-agree elem (array id ∷ stack) (omega (arith, free-array k id stack)) in
      ap (λ s. if on_stack (array id) stack then 0 else n * s) inner
  node_size-agree (defined c) stack h = agree c stack h

  fields_size-agree :
      (fields : Fields) (stack : Stack)
      → free k stack ≤ room
      → fields_size f fields stack ≡ fields_size g fields stack
  unfolding fields_size
  fields_size-agree [] stack h = refl
  fields_size-agree ((name, node) ∷ fields) stack h =
      rw (node_size-agree node stack h, fields_size-agree fields stack h) refl

  variants_size-agree :
      (variants : Variants) (least : ℕ) (stack : Stack)
      → free k stack ≤ room
      → variants_size f least variants stack ≡ variants_size g least variants stack
  unfolding variants_size
  variants_size-agree [] least stack h = refl
  variants_size-agree ((tag, (cls, fields)) ∷ variants) least stack h =
      rw (fields_size-agree fields stack h)
        (variants_size-agree variants (min least (fields_size g fields stack)) stack h)

  layout_size-agree :
      (contents : Option Layout) (stack : Stack)
      → free k stack ≤ room
      → layout_size f contents stack ≡ layout_size g contents stack
  unfolding layout_size
  layout_size-agree none stack h = refl
  layout_size-agree (some (struct fields)) stack h = fields_size-agree fields stack h
  layout_size-agree (some (int_enum members)) stack h = refl
  layout_size-agree (some (borsh_enum [])) stack h = refl
  layout_size-agree (some (borsh_enum ((tag, (cls, fields)) ∷ variants))) stack h =
      rw (fields_size-agree fields stack h)
        (ap (λ n. 1 + n) (variants_size-agree variants (fields_size g fields stack) stack h))

layout_size-none :
    (f g : ClassId → Stack → ℕ) (stack : Stack)
    → layout_size f none stack ≡ layout_size g none stack
unfolding layout_size
layout_size-none f g stack = refl

-- With fuel for the classes that are off the stack, the fuel makes no difference.
class_size-fuel :
    (env : Env) (a b : ℕ) (c : ClassId) (stack : Stack)
    → free (length env.layouts) stack < a
    → free (length env.layouts) stack < b
    → class_size env a c stack ≡ class_size env b c stack
unfolding class_size
class_size-fuel env zero b c stack h k = absurd (omega arith)
class_size-fuel env (suc a) zero c stack h k = absurd (omega arith)
class_size-fuel env (suc a) (suc b) c stack h k = elim (Bool-cases (on_stack (class c) stack)) [
  | inl again ↦ rw again refl
  | inr first ↦ rw first (
      by_layout (layout env c) (λ d s h k. class_size-fuel env a b d s h k)
        (λ contents e.
          free-new_class (length env.layouts) c stack (get_elem?-some env.layouts c contents e)
            first))
]
  where
    by_layout :
        (o : Option Layout)
        → ((d : ClassId) (s : Stack)
            → free (length env.layouts) s < a
            → free (length env.layouts) s < b
            → class_size env a d s ≡ class_size env b d s)
        → ((contents : Layout)
            → o ≡ some contents
            → free (length env.layouts) (class c ∷ stack) < free (length env.layouts) stack)
        → layout_size (class_size env a) o (class c ∷ stack)
          ≡ layout_size (class_size env b) o (class c ∷ stack)
    by_layout none inner less =
        layout_size-none (class_size env a) (class_size env b) (class c ∷ stack)
    by_layout (some contents) inner less =
        let smaller = less contents refl in
        layout_size-agree (length env.layouts) (free (length env.layouts) (class c ∷ stack))
          (class_size env a) (class_size env b) (λ d s room. inner d s (omega arith) (omega arith))
          (some contents) (class c ∷ stack) (omega arith)

-- More fuel than `min_wire_size` takes makes no difference.
pub min_wire_size-fuel :
    (env : Env) (more : ℕ) (node : Node)
    → node_size (class_size env (suc (length env.layouts) + more)) node [] ≡ min_wire_size env node
unfolding min_wire_size
min_wire_size-fuel env more node =
    let n = length env.layouts in
    node_size-agree n n (class_size env (suc n + more)) (class_size env (suc n))
      (λ c s room. class_size-fuel env (suc n + more) (suc n) c s (omega arith) (omega arith)) node
      [] (free-nil n)

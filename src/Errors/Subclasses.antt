-- ===== src/Errors/Subclasses.antt =====
-- `issubclass`, `==` and `hash` on the errors of _errors_base.py.
use wake_sol.Prelude.{
  ℕ, ◌≡◌, refl, ◌↔◌, true, Option, none, some, eq_iff, arith, Bool-cases, inl, inr,
}
use wake_sol.Errors.Classes.{
  ErrorClass, transaction_failed, derived, same_code, same_class, is_subclass, TransactionFailed,
  instance_of, equals, hash_key,
}

pub same_code_iff : (a b : Option ℕ) → (same_code a b ≡ true) ↔ (a ≡ b)
unfolding same_code
same_code_iff none none = ground arith
same_code_iff none (some b) = ground arith
same_code_iff (some a) none = ground arith
same_code_iff (some a) (some b) = ground arith

pub same_class_iff : (a b : ErrorClass) → (same_class a b ≡ true) ↔ (a ≡ b)
unfolding same_class
same_class_iff transaction_failed transaction_failed = ground arith
same_class_iff transaction_failed (derived b m d) = ground arith
same_class_iff (derived a n c) transaction_failed = ground arith
same_class_iff (derived a n c) (derived b m d) =
    ground (arith, same_class_iff a b, same_code_iff c d, eq_iff n m)

pub same_class_refl : (a : ErrorClass) → same_class a a ≡ true
same_class_refl a = (same_class_iff a a).1 refl

pub is_subclass_refl : (a : ErrorClass) → is_subclass a a ≡ true
unfolding is_subclass
is_subclass_refl transaction_failed = same_class_refl transaction_failed
is_subclass_refl (derived b n c) = rw (same_class_refl (derived b n c)) refl

pub is_subclass_trans :
    (a b c : ErrorClass) → is_subclass a b ≡ true → is_subclass b c ≡ true → is_subclass a c ≡ true
unfolding is_subclass
is_subclass_trans transaction_failed b c h k =
    let q : transaction_failed ≡ b = (same_class_iff transaction_failed b).0 h in rw (← q) at k
is_subclass_trans (derived p n d) b c h k = elim (Bool-cases (same_class (derived p n d) b)) [
  | inl same ↦
      let q : derived p n d ≡ b = (same_class_iff (derived p n d) b).0 same in rw (← q) at k
  | inr other ↦
      let ih = is_subclass_trans p b c (rw other at h) k in
      elim (Bool-cases (same_class (derived p n d) c)) [ inl e ↦ rw e refl | inr e ↦ rw e ih ]
]

-- Every class is a subclass of TransactionFailed.
pub is_subclass_root : (a : ErrorClass) → is_subclass a transaction_failed ≡ true
unfolding is_subclass same_class
is_subclass_root transaction_failed = refl
is_subclass_root (derived b n c) = is_subclass_root b

-- Two errors are equal exactly when they hash the same key.
pub equals-hash_key :
    (a b : TransactionFailed) → (equals a (instance_of b) ≡ some true) ↔ (hash_key a ≡ hash_key b)
unfolding equals hash_key
equals-hash_key a b = ground (arith, same_class_iff a.cls b.cls, same_code_iff a.code b.code)

-- ===== src/Builder/StructsRoundTrip.antt =====
-- `BorshStruct.decode` undoes `BorshStruct.encode` (_codec/builder.py).
use wake_sol.Prelude.{
  ℕ, ◌≤◌, ◌≡◌, ◌≢◌, refl, inl, inr, true, ◌||◌, some, List, [], ◌∷◌, ◌++◌, ◌⊎◌, if◌then◌else◌,
  ==_refl, append-nil, Bool-cases, arith, length, take, take-append, drop-append,
}
use wake_sol.Codec.Result.{ok, err, borsh, discriminator_mismatch}
use wake_sol.Codec.Value.{ClassId, Value}
use wake_sol.Codec.Node.{defined, Env}
use wake_sol.Codec.Cursor.{max_decode_depth}
use wake_sol.Codec.Entry
use wake_sol.Codec.Entry.{ix_data, account_data}
use wake_sol.Codec.RoundTrip.{Fits}
use wake_sol.Codec.RoundTrip.Main.{decode-encode, decode_account-encode}
use wake_sol.Builder.Structs.{
  BorshMeta, is_event, same_bytes, encode, is_account, decode_prefix, decode,
}

pub same_bytes_refl : (xs : List ℕ) → same_bytes xs xs ≡ true
unfolding same_bytes
same_bytes_refl [] = refl
same_bytes_refl (x ∷ xs) = rw (==_refl x, same_bytes_refl xs)

pub same_bytes→eq : (xs ys : List ℕ) → same_bytes xs ys ≡ true → xs ≡ ys
unfolding same_bytes
same_bytes→eq [] [] h = refl
same_bytes→eq [] (y ∷ ys) h = cc
same_bytes→eq (x ∷ xs) [] h = cc
same_bytes→eq (x ∷ xs) (y ∷ ys) h = ground (arith, same_bytes→eq xs ys)

module _ (env : Env) (c : ClassId) (meta : BorshMeta) where
  -- What follows the right discriminator is decoded as the body.
  decode_body :
      (body : List ℕ)
      → (meta.is_account_root || is_event meta.kind) ≡ true
      → decode env c (some meta) (meta.discriminator ++ body) true
        ≡ Entry.decode env body (defined c) (if meta.is_account_root then account_data else ix_data)
  unfolding decode decode_prefix is_account
  decode_body body rooted = rw (
    rooted,
    take-append meta.discriminator body,
    same_bytes_refl meta.discriminator,
    drop-append meta.discriminator body,
  )

  -- An account root or an event is encoded behind its discriminator, and decoded from that: also if
  -- bytes follow in the case of an account, which are refused in the case of an event.
  pub decode-encode_struct :
      (d fuel : ℕ) (value : Value) (slack : List ℕ)
      → Fits env d (defined c) value
      → d ≤ max_decode_depth
      → d ≤ fuel
      → (meta.is_account_root || is_event meta.kind) ≡ true
      → (meta.is_account_root ≡ true) ⊎ (slack ≡ [])
      → (wire : List ℕ) × (encode env fuel c (some meta) value true
          ≡ ok (meta.discriminator ++ wire))
        × (decode env c (some meta) (meta.discriminator ++ (wire ++ slack)) true ≡ ok value)
  unfolding encode
  decode-encode_struct d fuel value slack fits shallow enough rooted ends =
      let (enc, written, back) = decode-encode env d fuel (defined c) value fits shallow enough in
      (
        enc,
        rw written,
        rw (decode_body (enc ++ slack) rooted) (elim (Bool-cases meta.is_account_root) [
          | inl account ↦ rw account (
              decode_account-encode env d fuel (defined c) value enc slack fits shallow enough
                written)
          | inr event ↦ elim ends [
            | inl account ↦ cc
            | inr nothing ↦ rw (event, nothing, append-nil) back
          ]
        ]),
      )

  -- Bytes that do not start with the discriminator are refused at their start, whatever else they
  -- hold.
  pub decode_mismatch :
      (bytes : List ℕ)
      → (meta.is_account_root || is_event meta.kind) ≡ true
      → take (length meta.discriminator) bytes ≢ meta.discriminator
      → decode env c (some meta) bytes true ≡ err (borsh discriminator_mismatch 0 [])
  unfolding decode decode_prefix
  decode_mismatch bytes rooted other =
      elim (Bool-cases (same_bytes (take (length meta.discriminator) bytes) meta.discriminator)) [
        | inl same ↦ absurd (other (same_bytes→eq _ _ same))
        | inr differ ↦ rw (rooted, differ)
      ]

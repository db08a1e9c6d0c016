-- ===== src/Programs/Token/Unpacked.antt =====
-- The decode closures of _programs/token.py undo the packing of the builders.
use wake_sol.Prelude.{
  ℕ, ◌≡◌, refl, ap, ◌∙◌, List, [], ◌∷◌, ◌++◌, arith, length, take, append-nil, take_all,
  length-append,
}
use wake_sol.Prelude.Int.{ℤ, pos}
use wake_sol.Codec.Result.{ok}
use wake_sol.Codec.Value.{Value, no_attrs, attr}
use wake_sol.Codec.Node.{Env}
use wake_sol.Precompiles.Claims.{pack_fields}
use wake_sol.Programs.Pack.{unpack_from, item}
use wake_sol.Programs.PackRoundTrip.{
  pack_fields-Packed, one_byte, key_front, key_whole, take_front, drop_past, item_at,
}
use wake_sol.Programs.Token.Decoders.{amount, amount_decimals, initialize_mint, owner}

-- Eight bytes are read back as the amount that was packed.
pub amount-pack :
    (z : ℤ) (bs : List ℕ)
    → pack_fields ((8, z) ∷ []) ≡ ok bs
    → amount bs ≡ ok (attr "amount" (Value.int z) no_attrs)
unfolding amount unpack_from pack_fields
amount-pack z bs h =
    let (a, b, p, last, q) = pack_fields-Packed 8 z [] bs h in
    let b_nil : b ≡ [] = ground arith in
    let whole : bs ≡ a = q ∙ ap (λ t. a ++ t) b_nil ∙ append-nil a in
    let all : take 8 a ≡ a = take_all 8 a p.size in rw (whole, p.size, all, p.value) refl

pub amount_decimals-pack :
    (z d : ℤ) (bs : List ℕ)
    → pack_fields ((8, z) ∷ (1, d) ∷ []) ≡ ok bs
    → amount_decimals bs ≡ ok (attr "amount" (Value.int z) (attr "decimals" (Value.int d) no_attrs))
unfolding amount_decimals unpack_from pack_fields
amount_decimals-pack z d bs h =
    let (a, b, p, last, q) = pack_fields-Packed 8 z ((1, d) ∷ []) bs h in
    let (a1, b1, p1, last1, q1) = pack_fields-Packed 1 d [] b last in
    let b1_nil : b1 ≡ [] = ground arith in
    let (x, single, value) = one_byte d a1 p1 in
    let last_byte : b ≡ x ∷ [] = q1 ∙ ap (λ t. a1 ++ t) b1_nil ∙ append-nil a1 ∙ single in
    let whole : bs ≡ a ++ x ∷ [] = q ∙ ap (λ t. a ++ t) last_byte in
    let size : length (a ++ x ∷ []) ≡ 9 = omega (arith, length-append a (x ∷ []), p.size) in
    rw (whole, size, item_at 8 x a [] p.size, take_front 8 a (x ∷ []) p.size, p.value, value) refl

pub initialize_mint-absent :
    (env : Env) (d : ℕ) (authority : List ℕ)
    → length authority ≡ 32
    → initialize_mint env (d ∷ (authority ++ 0 ∷ []))
      ≡ ok (
          attr "decimals" (Value.int (pos d)) (
            attr "mint_authority"
              (Value.pubkey authority)
              (attr "freeze_authority" Value.null no_attrs)))
unfolding initialize_mint item
initialize_mint-absent env d authority size =
    let long : length (authority ++ 0 ∷ []) ≡ 33 =
      omega (arith, length-append authority (0 ∷ [])) in
    rw (key_front env authority (0 ∷ []) size, long, item_at 33 0 (d ∷ authority) [] (omega arith))
      refl

pub initialize_mint-present :
    (env : Env) (d : ℕ) (authority freeze : List ℕ)
    → length authority ≡ 32
    → length freeze ≡ 32
    → initialize_mint env (d ∷ (authority ++ 1 ∷ freeze))
      ≡ ok (
          attr "decimals" (Value.int (pos d)) (
            attr "mint_authority"
              (Value.pubkey authority)
              (attr "freeze_authority" (Value.pubkey freeze) no_attrs)))
unfolding initialize_mint item
initialize_mint-present env d authority freeze size fsize =
    let long : length (authority ++ 1 ∷ freeze) ≡ 65 =
      omega (arith, length-append authority (1 ∷ freeze)) in
    let behind : take 32 freeze ≡ freeze = take_all 32 freeze fsize in
    rw
      (
        key_front env authority (1 ∷ freeze) size,
        long,
        item_at 33 1 (d ∷ authority) freeze (omega arith),
        drop_past 32 1 authority freeze size,
        key_whole env freeze fsize,
      )
      refl

pub owner-key :
    (env : Env) (key : List ℕ)
    → length key ≡ 32
    → owner env key ≡ ok (attr "owner" (Value.pubkey key) no_attrs)
unfolding owner
owner-key env key size = rw (key_whole env key size) refl

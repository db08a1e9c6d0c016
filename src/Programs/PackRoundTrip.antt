-- ===== src/Programs/PackRoundTrip.antt =====
-- What `struct` packs is what it unpacks.
use wake_sol.Prelude.{
  ℕ, zero, suc, ◌+◌, ◌≡◌, refl, sym, ap, ◌∙◌, subst, false, Option, none, some, List, [], ◌∷◌, ◌++◌,
  arith, length, take, drop, take-append, drop-append, get_elem?, get_elem?-append, take_all,
}
use wake_sol.Prelude.Int.{ℤ, pos, negsuc}
use wake_sol.Codec.Result.{Result, ok, first_returned, ◌>>=◌}
use wake_sol.Codec.Bytes.{from_le, int_to_bytes, length-le_bytes, from_le-le_bytes}
use wake_sol.Codec.Value.{Value}
use wake_sol.Codec.Node.{Env}
use wake_sol.Codec.Write.{to_pubkey, exactly_32}
use wake_sol.Builder.Metas.{AccountMeta, MetaLike, Slot, Built, build_metas}
use wake_sol.Precompiles.Claims.{pack_field, pack_fields}
use wake_sol.Precompiles.Placement.{Instruction}
use wake_sol.Programs.Pack.{
  byte_of, byte_or_error, item, item_or_error, Program, instruction_of, as_metas,
}

-- A number that was packed in `w` bytes.
pub record Packed (w : ℕ) (z : ℤ) (bs : List ℕ) : Type 0 where
  pub size : length bs ≡ w
  pub value : pos (from_le bs) ≡ z

int_to_bytes-Packed :
    (w : ℕ) (z : ℤ) (bs : List ℕ) → int_to_bytes w false z ≡ some bs → Packed w z bs
unfolding int_to_bytes
int_to_bytes-Packed w (pos v) bs e = record {
  size = ground (arith, length-le_bytes w v);
  value = ground (arith, from_le-le_bytes w v);
}
int_to_bytes-Packed w (negsuc v) bs e = cc

pack_field-Packed :
    (w : ℕ) (z : ℤ) (first : Option (List ℕ)) (rest : Result (List ℕ)) (bs : List ℕ)
    → int_to_bytes w false z ≡ first
    → pack_field first rest ≡ ok bs
    → (a : List ℕ) × (b : List ℕ) × Packed w z a × (rest ≡ ok b) × (bs ≡ a ++ b)
unfolding pack_field
pack_field-Packed w z none rest bs e h = cc
pack_field-Packed w z (some a) rest bs e h =
    let (b, h', more) = first_returned (λ b. ok (a ++ b)) rest bs h in
    (a, b, int_to_bytes-Packed w z a e, more, ground arith)

-- The first of the packed fields, and the others behind it.
pub pack_fields-Packed :
    (w : ℕ) (z : ℤ) (fields : List (ℕ × ℤ)) (bs : List ℕ)
    → pack_fields ((w, z) ∷ fields) ≡ ok bs
    → (a : List ℕ) × (b : List ℕ) × Packed w z a × (pack_fields fields ≡ ok b) × (bs ≡ a ++ b)
unfolding pack_fields
pack_fields-Packed w z fields bs h = pack_field-Packed w z _ (pack_fields fields) bs refl h

pub byte_of-Packed : (z : ℤ) (bs : List ℕ) → byte_of z ≡ ok bs → Packed 1 z bs
unfolding byte_of
byte_of-Packed z bs h = by_bytes (int_to_bytes 1 false z) refl h
  where
    by_bytes :
        (r : Option (List ℕ)) → int_to_bytes 1 false z ≡ r → byte_or_error r ≡ ok bs → Packed 1 z bs
    by_bytes none e h = cc
    by_bytes (some a) e h =
        let q : a ≡ bs = ground arith in int_to_bytes-Packed 1 z bs (e ∙ ap some q)

-- One byte is its own value.
pub one_byte : (z : ℤ) (bs : List ℕ) → Packed 1 z bs → (b : ℕ) × (bs ≡ b ∷ []) × (pos b ≡ z)
unfolding from_le
one_byte z [] p = let s = p.size in absurd (omega arith)
one_byte z (b ∷ []) p = (b, refl, (let q : b + 0 ≡ b = omega arith in rw q at p.value))
one_byte z (b ∷ c ∷ bs) p = let s = p.size in absurd (omega arith)

ok_injective : {x y : Instruction} → ok x ≡ ok y → x ≡ y
ok_injective h = cc

-- The instruction has the bytes and the program that it was given.
pub instruction_of-data :
    (env : Env) (program : Program) (slots : List Slot) (remaining : List MetaLike) (bytes : List ℕ)
    (ix : Instruction)
    → instruction_of env program slots remaining bytes ≡ ok ix
    → (ix.ix_data ≡ bytes) × (ix.program_id ≡ program.id)
unfolding instruction_of
instruction_of-data env program slots remaining bytes ix h =
    let made : Built → List AccountMeta → Instruction = λ built rest. record {
      program_id = program.id;
      accounts = built.metas ++ rest;
      ix_data = bytes;
    } in
    let (built, h1, _) =
      first_returned (λ built. do rest ← as_metas env remaining; ok (made built rest))
        (build_metas env program.key slots) ix h in
    let (rest, h2, _) =
      first_returned (λ rest. ok (made built rest)) (as_metas env remaining) ix h1 in
    let same : made built rest ≡ ix = ok_injective h2 in
    (
      sym (ap (λ (x : Instruction). x.ix_data) same),
      sym (ap (λ (x : Instruction). x.program_id) same),
    )

pub take_front : (n : ℕ) (xs ys : List ℕ) → length xs ≡ n → take n (xs ++ ys) ≡ xs
take_front n xs ys h = subst (λ k. take k (xs ++ ys) ≡ xs) h (take-append xs ys)

pub drop_front : (n : ℕ) (xs ys : List ℕ) → length xs ≡ n → drop n (xs ++ ys) ≡ ys
drop_front n xs ys h = subst (λ k. drop k (xs ++ ys) ≡ ys) h (drop-append xs ys)

pub drop_past : (n y : ℕ) (xs ys : List ℕ) → length xs ≡ n → drop (suc n) (xs ++ y ∷ ys) ≡ ys
drop_past zero y [] ys h = refl
drop_past zero y (x ∷ xs) ys h = absurd (omega arith)
drop_past (suc n) y [] ys h = absurd (omega arith)
drop_past (suc n) y (x ∷ xs) ys h = drop_past n y xs ys (omega arith)

pub item_at : (n y : ℕ) (xs ys : List ℕ) → length xs ≡ n → item (xs ++ y ∷ ys) n ≡ ok y
unfolding item item_or_error
item_at n y xs ys h =
    let place : length xs + 0 ≡ n = omega arith in
    rw (subst (λ k. get_elem? (xs ++ y ∷ ys) k ≡ some y) place (get_elem?-append xs (y ∷ ys) 0))
      refl

-- The key of 32 bytes that stands at the front of `rest`.
pub key_front :
    (env : Env) (key rest : List ℕ)
    → length key ≡ 32
    → to_pubkey env (Value.bytes (take 32 (key ++ rest))) ≡ ok key
unfolding to_pubkey exactly_32
key_front env key rest h = rw (take_front 32 key rest h, h) refl

pub key_whole :
    (env : Env) (key : List ℕ)
    → length key ≡ 32
    → to_pubkey env (Value.bytes (take 32 key)) ≡ ok key
unfolding to_pubkey exactly_32
key_whole env key h = rw (take_all 32 key h, h) refl

-- A part was computed, and then the instruction was made of it behind the tag.
pub behind :
    (env : Env) (program : Program) (slots : List Slot) (rest : List MetaLike) (tag : List ℕ)
    (part : Result (List ℕ)) (ix : Instruction)
    → (part >>= λ packed. instruction_of env program slots rest (tag ++ packed)) ≡ ok ix
    → (packed : List ℕ) × (part ≡ ok packed)
      × (ix.ix_data ≡ tag ++ packed)
      × (ix.program_id ≡ program.id)
behind env program slots rest tag part ix h =
    let (packed, made, e) = first_returned _ part ix h in
    let (bytes, id) = instruction_of-data env program slots rest (tag ++ packed) ix made in
    (packed, e, bytes, id)

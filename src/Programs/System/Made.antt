-- ===== src/Programs/System/Made.antt =====
-- What an instruction made by a builder of _programs/system.py holds.
use wake_sol.Prelude.{
  ℕ, ◌≡◌, refl, ap, ◌∙◌, true, Option, List, [], ◌∷◌, ◌++◌, append-nil, take, drop, length,
  length-append, arith, take_all, append_assoc, leb, le→leb,
}
use wake_sol.Prelude.Int.{ℤ, pos}
use wake_sol.Codec.Result.{Result, ok, first_returned, ◌>>=◌}
use wake_sol.Codec.Bytes.{from_le}
use wake_sol.Codec.Value.{Value, no_attrs, attr}
use wake_sol.Codec.Node.{Env}
use wake_sol.Codec.Write.{to_pubkey}
use wake_sol.Builder.Metas.{MetaLike, Slot}
use wake_sol.Precompiles.Claims.{pack_fields}
use wake_sol.Precompiles.Placement.{Instruction}
use wake_sol.Programs.Pack.{instruction_of, slot, unpack_from}
use wake_sol.Programs.Made.{Made, part-Made}
use wake_sol.Programs.PackRoundTrip.{
  pack_fields-Packed, instruction_of-data, behind, key_whole, take_front, drop_front,
}
use wake_sol.Programs.System.Builders
use wake_sol.Programs.System.Builders.{system_program, tag}
use wake_sol.Programs.System.Decoders
use wake_sol.Programs.System.Calls.{
  SystemCall, build, method_of, args_of, HasKey, HasKeys, decoder_of,
}

abbrev pub Built : Env → SystemCall → Instruction → Type 0
Built env call ix =
    Made system_program (method_of call).discriminator (args_of env call) (decoder_of env call) ix

-- One u64 that was packed.
one_u64 :
    (z : ℤ) (bs : List ℕ)
    → pack_fields ((8, z) ∷ []) ≡ ok bs
    → (length bs ≡ 8) × (pos (from_le (take 8 bs)) ≡ z)
unfolding pack_fields
one_u64 z bs h =
    let (a, b, p, last, q) = pack_fields-Packed 8 z [] bs h in
    let b_nil : b ≡ [] = ground arith in
    let whole : bs ≡ a = q ∙ ap (λ t. a ++ t) b_nil ∙ append-nil a in
    (rw whole p.size, rw (whole, take_all 8 a p.size) p.value)

transfer-pack :
    (z : ℤ) (bs : List ℕ)
    → pack_fields ((8, z) ∷ []) ≡ ok bs
    → Decoders.transfer bs ≡ ok (attr "lamports" (Value.int z) no_attrs)
unfolding Decoders.transfer unpack_from
transfer-pack z bs h = let (size, value) = one_u64 z bs h in rw (size, value) refl

allocate-pack :
    (z : ℤ) (bs : List ℕ)
    → pack_fields ((8, z) ∷ []) ≡ ok bs
    → Decoders.allocate bs ≡ ok (attr "space" (Value.int z) no_attrs)
unfolding Decoders.allocate unpack_from
allocate-pack z bs h = let (size, value) = one_u64 z bs h in rw (size, value) refl

create_account-pack :
    (env : Env) (z s : ℤ) (bs key : List ℕ)
    → pack_fields ((8, z) ∷ (8, s) ∷ []) ≡ ok bs
    → length key ≡ 32
    → Decoders.create_account env (bs ++ key)
      ≡ ok (
          attr "lamports"
            (Value.int z)
            (attr "space" (Value.int s) (attr "owner" (Value.pubkey key) no_attrs)))
unfolding Decoders.create_account unpack_from
create_account-pack env z s bs key h size =
    let (a, b, p, last, q) = pack_fields-Packed 8 z ((8, s) ∷ []) bs h in
    let (b_size, b_value) = one_u64 s b last in
    let joined : (a ++ b) ++ key ≡ a ++ (b ++ key) = append_assoc a b key in
    let sixteen : length (a ++ b) ≡ 16 = omega (arith, length-append a b, p.size) in
    let long : leb 16 (length ((a ++ b) ++ key)) ≡ true =
      le→leb _ _ (omega (arith, length-append (a ++ b) key)) in
    let first : take 8 ((a ++ b) ++ key) ≡ a =
      ap (λ t. take 8 t) joined ∙ take_front 8 a (b ++ key) p.size in
    let behind_first : drop 8 ((a ++ b) ++ key) ≡ b ++ key =
      ap (λ t. drop 8 t) joined ∙ drop_front 8 a (b ++ key) p.size in
    let b_read = rw (take_all 8 b b_size) at b_value in
    rw
      (
        q,
        long,
        drop_front 16 (a ++ b) key sixteen,
        key_whole env key size,
        first,
        behind_first,
        take_front 8 b key b_size,
        p.value,
        b_read,
      )
      refl

assign-key :
    (env : Env) (key : List ℕ)
    → length key ≡ 32
    → Decoders.assign env key ≡ ok (attr "owner" (Value.pubkey key) no_attrs)
unfolding Decoders.assign
assign-key env key size = rw (key_whole env key size) refl

assign-Built :
    (env : Env) (o : Value) (a : Option MetaLike) (slots : List Slot) (rest : List MetaLike)
    (ix : Instruction)
    → HasKey env o
    → (to_pubkey env o >>= λ key. instruction_of env system_program slots rest (tag 1 ++ key))
      ≡ ok ix
    → Built env (SystemCall.assign o a) ix
assign-Built env o a slots rest ix k h =
    let (key, e, bytes, id) = behind env system_program slots rest (tag 1) (to_pubkey env o) ix h in
    record {
      args = _;
      body = key;
      named = ap (λ r. r >>= λ key'. ok (attr "owner" (Value.pubkey key') no_attrs)) e;
      tagged = bytes;
      decoded = assign-key env key (k key e);
      addressed = id;
    }

create-Built :
    (env : Env) (z s : ℤ) (o : Value) (from to : Option MetaLike) (rest : List MetaLike)
    (ix : Instruction)
    → HasKey env o
    → Builders.create_account env z s o from to rest ≡ ok ix
    → Built env (SystemCall.create_account z s o from to) ix
unfolding Builders.create_account
create-Built env z s o from to rest ix k h =
    let make : List ℕ → List ℕ → Result Instruction = λ packed key.
      instruction_of env system_program (slot from true true ∷ slot to true true ∷ []) rest
        (tag 0 ++ (packed ++ key)) in
    let (packed, h1, e1) =
      first_returned (λ packed. do key ← to_pubkey env o; make packed key)
        (pack_fields ((8, z) ∷ (8, s) ∷ [])) ix h in
    let (key, h2, e2) = first_returned (λ key. make packed key) (to_pubkey env o) ix h1 in
    let (bytes, id) = instruction_of-data env system_program _ rest _ ix h2 in
    record {
      args = _;
      body = packed ++ key;
      named =
          ap
            (λ r. r >>= λ key'. ok (
              attr "lamports" (Value.int z)
                (attr "space" (Value.int s) (attr "owner" (Value.pubkey key') no_attrs))))
            e2;
      tagged = bytes;
      decoded = create_account-pack env z s packed key e1 (k key e2);
      addressed = id;
    }

pub build-Built :
    (env : Env) (call : SystemCall) (rest : List MetaLike) (ix : Instruction)
    → HasKeys env call
    → build env call rest ≡ ok ix
    → Built env call ix
unfolding Builders.transfer Builders.assign Builders.allocate
build-Built env (SystemCall.transfer z from to) rest ix k h =
    part-Made env system_program _ _ _ _ rest ix _ _ refl (transfer-pack z) h
build-Built env (SystemCall.create_account z s o from to) rest ix k h =
    create-Built env z s o from to rest ix k h
build-Built env (SystemCall.assign o a) rest ix k h = assign-Built env o a _ rest ix k h
build-Built env (SystemCall.allocate s a) rest ix k h =
    part-Made env system_program _ _ _ _ rest ix _ _ refl (allocate-pack s) h

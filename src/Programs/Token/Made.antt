-- ===== src/Programs/Token/Made.antt =====
-- What an instruction made by a builder of _programs/token.py holds.
use wake_sol.Prelude.{
  ℕ, ◌≡◌, refl, ap, ◌∙◌, Option, none, some, List, [], ◌∷◌, ◌++◌, true, false, length, arith,
}
use wake_sol.Prelude.Int.{ℤ, pos}
use wake_sol.Codec.Result.{Result, ok, first_returned, ◌>>=◌}
use wake_sol.Codec.Value.{Value, no_attrs, attr}
use wake_sol.Codec.Node.{Env}
use wake_sol.Codec.Write.{to_pubkey}
use wake_sol.Builder.Metas.{MetaLike, Slot}
use wake_sol.Precompiles.Placement.{Instruction}
use wake_sol.Programs.Pack.{byte_of, instruction_of, slot}
use wake_sol.Programs.Made.{Made, part-Made, no_args-Made}
use wake_sol.Programs.PackRoundTrip.{byte_of-Packed, one_byte, instruction_of-data, behind}
use wake_sol.Programs.Token.Builders.{
  token_program, freeze_bytes, initialize_mint2, initialize_account3, transfer_checked, transfer,
  mint_to_checked, burn_checked, close_account, approve, revoke,
}
use wake_sol.Programs.Token.Decoders.{no_args, initialize_mint}
use wake_sol.Programs.Token.Unpacked.{
  amount-pack, amount_decimals-pack, initialize_mint-absent, initialize_mint-present, owner-key,
}
use wake_sol.Programs.Token.Calls.{
  TokenCall, build, method_of, args_of, freeze_arg, HasKey, FreezeHasKey, HasKeys, decoder_of,
}

abbrev pub Built : Env → TokenCall → Instruction → Type 0
Built env call ix =
    Made token_program (method_of call).discriminator (args_of env call) (decoder_of env call) ix

owner-Built :
    (env : Env) (o : Value) (a m : Option MetaLike) (slots : List Slot) (rest : List MetaLike)
    (ix : Instruction)
    → HasKey env o
    → (to_pubkey env o >>= λ key. instruction_of env token_program slots rest (0x12 ∷ key)) ≡ ok ix
    → Built env (TokenCall.initialize_account3 o a m) ix
owner-Built env o a m slots rest ix k h =
    let (key, e, bytes, id) =
      behind env token_program slots rest (0x12 ∷ []) (to_pubkey env o) ix h in
    record {
      args = _;
      body = key;
      named = ap (λ r. r >>= λ key'. ok (attr "owner" (Value.pubkey key') no_attrs)) e;
      tagged = bytes;
      decoded = owner-key env key (k key e);
      addressed = id;
    }

-- The freeze authority's part, and what is read from it.
freeze_decoded :
    (env : Env) (d : ℕ) (key : List ℕ) (freeze : Option Value) (part : List ℕ)
    → length key ≡ 32
    → FreezeHasKey env freeze
    → freeze_bytes env freeze ≡ ok part
    → (v : Value) × (freeze_arg env freeze ≡ ok v)
      × (initialize_mint env (d ∷ (key ++ part))
          ≡ ok (
              attr "decimals"
                (Value.int (pos d))
                (attr "mint_authority" (Value.pubkey key) (attr "freeze_authority" v no_attrs))))
unfolding freeze_bytes
freeze_decoded env d key none part size k e =
    let q : part ≡ 0 ∷ [] = ground arith in
    (Value.null, refl, rw q (initialize_mint-absent env d key size))
freeze_decoded env d key (some v) part size k e =
    let (fkey, made, coerced) = first_returned (λ fkey. ok (1 ∷ fkey)) (to_pubkey env v) part e in
    let q : part ≡ 1 ∷ fkey = ground arith in
    (
      Value.pubkey fkey,
      rw coerced refl,
      rw q (initialize_mint-present env d key fkey size (k fkey coerced)),
    )

named_of :
    (env : Env) (d : ℤ) (a : Value) (f : Option Value) (key : List ℕ) (v : Value)
    → to_pubkey env a ≡ ok key
    → freeze_arg env f ≡ ok v
    → (do
      key' ← to_pubkey env a
      freeze ← freeze_arg env f
      ok (
          attr "decimals"
            (Value.int d)
            (attr "mint_authority" (Value.pubkey key') (attr "freeze_authority" freeze no_attrs))))
      ≡ ok (
          attr "decimals"
            (Value.int d)
            (attr "mint_authority" (Value.pubkey key) (attr "freeze_authority" v no_attrs)))
named_of env d a f key v e1 e2 = rw (e1, e2) refl

mint-Built :
    (env : Env) (d : ℤ) (a : Value) (f : Option Value) (m : Option MetaLike) (rest : List MetaLike)
    (ix : Instruction)
    → HasKey env a
    → FreezeHasKey env f
    → initialize_mint2 env d a f m rest ≡ ok ix
    → Built env (TokenCall.initialize_mint2 d a f m) ix
unfolding initialize_mint2
mint-Built env d a f m rest ix ka kf h =
    let make : List ℕ → List ℕ → List ℕ → Result Instruction = λ ds key part.
      instruction_of env token_program (slot m false true ∷ []) rest
        (0x14 ∷ (ds ++ (key ++ part))) in
    let (ds, h1, e1) =
      first_returned (λ ds. do key ← to_pubkey env a; part ← freeze_bytes env f; make ds key part)
        (byte_of d) ix h in
    let (key, h2, e2) =
      first_returned (λ key. do part ← freeze_bytes env f; make ds key part) (to_pubkey env a) ix
        h1 in
    let (part, h3, e3) = first_returned (λ part. make ds key part) (freeze_bytes env f) ix h2 in
    let (bytes, id) = instruction_of-data env token_program _ rest _ ix h3 in
    let (x, single, value) = one_byte d ds (byte_of-Packed d ds e1) in
    let (v, read, back) = freeze_decoded env x key f part (ka key e2) kf e3 in
    record {
      args = _;
      body = x ∷ (key ++ part);
      named = named_of env d a f key v e2 read;
      tagged = bytes ∙ ap (λ t. 0x14 ∷ (t ++ (key ++ part))) single;
      decoded =
          back
          ∙ ap
              (λ z. ok (
                attr "decimals" (Value.int z)
                  (attr "mint_authority" (Value.pubkey key) (attr "freeze_authority" v no_attrs))))
              value;
      addressed = id;
    }

pub build-Built :
    (env : Env) (call : TokenCall) (rest : List MetaLike) (ix : Instruction)
    → HasKeys env call
    → build env call rest ≡ ok ix
    → Built env call ix
unfolding initialize_account3 transfer_checked transfer mint_to_checked burn_checked close_account
    approve revoke no_args
build-Built env (TokenCall.initialize_mint2 d a f m) rest ix (ka, kf) h =
    mint-Built env d a f m rest ix ka kf h
build-Built env (TokenCall.initialize_account3 o a m) rest ix k h =
    owner-Built env o a m _ rest ix k h
build-Built env (TokenCall.transfer_checked z d s m t a) rest ix k h =
    part-Made env token_program _ _ _ _ rest ix _ _ refl (amount_decimals-pack z d) h
build-Built env (TokenCall.transfer z s d a) rest ix k h =
    part-Made env token_program _ _ _ _ rest ix _ _ refl (amount-pack z) h
build-Built env (TokenCall.mint_to_checked z d m c a) rest ix k h =
    part-Made env token_program _ _ _ _ rest ix _ _ refl (amount_decimals-pack z d) h
build-Built env (TokenCall.burn_checked z d c m a) rest ix k h =
    part-Made env token_program _ _ _ _ rest ix _ _ refl (amount_decimals-pack z d) h
build-Built env (TokenCall.approve z s d a) rest ix k h =
    part-Made env token_program _ _ _ _ rest ix _ _ refl (amount-pack z) h
build-Built env (TokenCall.close_account a d o) rest ix k h =
    no_args-Made env token_program _ _ _ _ rest ix refl refl h
build-Built env (TokenCall.revoke s a) rest ix k h =
    no_args-Made env token_program _ _ _ _ rest ix refl refl h

-- ===== src/Tests/Builder.antt =====
-- The builder on concrete inputs.
use wake_sol.Prelude.{
  ℕ, ◌≡◌, ◌↔◌, ◌⊎◌, inl, refl, true, false, ◌&&◌, none, some, List, [], ◌∷◌, ◌++◌, arith,
}
use wake_sol.Codec.Result.{ok}
use wake_sol.Builder.Args.{encode_ix_layout, decode_args}
use wake_sol.Builder.ArgsRoundTrip.{nodes_of, values_of, decode_args-encode_ix_layout}
use wake_sol.Builder.Structs.{BorshMeta, account, encode, decode, same_bytes}
use wake_sol.Builder.StructsRoundTrip.{decode-encode_struct}
use wake_sol.Builder.Metas.{AccountMeta, meta, Slot, Built, push, place, build_metas}
use wake_sol.Builder.MetasAligned.{Aligned, build_metas-Aligned}
use wake_sol.Builder.Names.{codes, is_one_of, is_taken, mangle, chop, ends_underscore, mangle_back}
use wake_sol.Builder.NamesBack.{mangle_back-mangle_iff}
use wake_sol.Tests.Samples.{env, transfer_layout, transfer_args, transfer-Fits, moved, moved-Fits}

decode_args-encode_ix_layout_example :
    (body : List ℕ) × (encode_ix_layout env 3
        (3 ∷ [])
        (nodes_of transfer_layout)
        (values_of transfer_args)
      ≡ ok (3 ∷ body))
    × (decode_args env transfer_layout body ≡ ok transfer_args)
decode_args-encode_ix_layout_example =
    decode_args-encode_ix_layout env 2 3 (3 ∷ []) transfer_layout transfer_args transfer-Fits
      (omega arith) (omega arith)

abbrev position : BorshMeta
position = record { kind = account; is_account_root = true; discriminator = 8 ∷ 9 ∷ [] }

decode-encode_struct_example :
    (wire : List ℕ) × (encode env 2 4 (some position) moved true ≡ ok (8 ∷ 9 ∷ wire))
    × (decode env 4 (some position) (8 ∷ 9 ∷ (wire ++ 0 ∷ [])) true ≡ ok moved)
decode-encode_struct_example =
    decode-encode_struct env 4 position 2 2 moved (0 ∷ []) moved-Fits (omega arith) (omega arith)
      refl (inl refl)

abbrev signer : AccountMeta
signer = record { pubkey = 1 ∷ []; is_signer = true; is_writable = false }

abbrev slots : List Slot
slots =
    record {
      value = some (meta signer);
      is_signer = false;
      is_writable = false;
      is_optional = false;
    }
    ∷ record { value = none; is_signer = true; is_writable = true; is_optional = true }
    ∷ []

abbrev built : Built
built = record {
  metas = signer ∷ record { pubkey = 7 ∷ []; is_signer = false; is_writable = false } ∷ [];
  warned = signer ∷ [];
}

build_metas-slots : build_metas env (7 ∷ []) slots ≡ ok built
unfolding build_metas place push
build_metas-slots = refl

build_metas-Aligned_example :
    (build_metas env (7 ∷ []) slots ≡ ok built)
    ↔ Aligned env (7 ∷ []) slots built.metas built.warned
build_metas-Aligned_example = build_metas-Aligned env (7 ∷ []) slots built

mangle_back-mangle_iff_example : (mangle_back (mangle (codes "class_")) ≡ codes "class_") ↔ (
    (is_taken (codes "class_") ≡ true)
    ⊎ (ends_underscore (codes "class_") && is_taken (chop (codes "class_")) ≡ false))
mangle_back-mangle_iff_example = mangle_back-mangle_iff (codes "class_")

mangle-clash : mangle (codes "class") ≡ mangle (codes "class_")
unfolding mangle is_taken is_one_of same_bytes
mangle-clash = refl

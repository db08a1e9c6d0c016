-- ===== src/Tests/Codec.antt =====
-- The codec on concrete inputs.
use wake_sol.Prelude.{suc, ◌+◌, length, ℕ, ◌≤◌, ◌≡◌, ◌≢◌, refl, List, [], ◌∷◌, ◌++◌, arith}
use wake_sol.Codec.Result.{ok, err, out_of_fuel, borsh, trailing_bytes, bool_byte, name}
use wake_sol.Codec.Bytes.{le_bytes, from_le, int_to_bytes, int_from_bytes}
use wake_sol.Codec.Utf8.{encode_point, encode_utf8, first_byte, next_byte, decode_from, decode_utf8}
use wake_sol.Codec.Value
use wake_sol.Codec.Value.{Value, nil, cons, list, object, no_attrs, getattr, find_attr, elements}
use wake_sol.Codec.Node.{vec, defined, bool}
use wake_sol.Codec.Cursor.{cursor, take, descend}
use wake_sol.Codec.MinSize.{node_size, class_size, min_wire_size}
use wake_sol.Codec.Read.{
  check_len, take_byte, read_int, read_bool, read_seq_len, read_str, read_items, read_fields,
  read_tagged, contains, read_member, read_layout, read,
}
use wake_sol.Codec.Write.{
  write_int, write_len, write_prefixed, write_str, write_items, write_fields, int_of, write_tag,
  write_layout, write,
}
use wake_sol.Codec.Entry.{ix_data, account_data, decode, encode}
use wake_sol.Codec.Safety.{Advances, Ends}
use wake_sol.Codec.Safety.Decode.{read_safe, decode-ne-out_of_fuel}
use wake_sol.Codec.RoundTrip.Main.{
  decode-encode, decode-encode_slack, encode_prefix_free, min_wire_size-le-encode,
}
use wake_sol.Tests.Samples.{env, order, order-Fits}

abbrev order_bytes : List ℕ
order_bytes =
    2 ∷ 1 ∷ 0 ∷ 0 ∷ 0 ∷ 0 ∷ 0 ∷ 0 ∷ 0 ∷ 2 ∷ 0 ∷ 0 ∷ 0 ∷ 7 ∷ 0 ∷ 255 ∷ 255 ∷ 1 ∷ 2 ∷ 0 ∷ 0 ∷ 0 ∷ 195
    ∷ 169 ∷ 1 ∷ 1 ∷ 255 ∷ 255 ∷ 1 ∷ 2 ∷ 0 ∷ 0 ∷ 0 ∷ 0 ∷ 0 ∷ 0 ∷ 0 ∷ 1 ∷ 0 ∷ 0 ∷ 0 ∷ 0 ∷ 0 ∷ 0 ∷ 0
    ∷ []

encode-order : encode env 4 order (defined 0) ≡ ok order_bytes
unfolding encode write write_layout write_fields getattr find_attr write_int int_to_bytes le_bytes
    int_of Value.as_int write_tag elements write_len write_items write_str write_prefixed
    encode_utf8 encode_point
encode-order = refl

decode-order_bytes : decode env order_bytes (defined 0) ix_data ≡ ok order
unfolding decode read descend read_layout read_fields read_int take int_from_bytes from_le
    read_member take_byte contains read_tagged read_seq_len check_len min_wire_size node_size
    read_items read_str decode_utf8 decode_from next_byte first_byte
decode-order_bytes = refl

bad_bool : decode env (2 ∷ []) bool ix_data ≡ err (borsh (bool_byte 2) 0 [])
unfolding decode read read_bool take_byte take from_le
bad_bool = refl

decode-encode_example :
    (enc : List ℕ) × (encode env 5 order (defined 0) ≡ ok enc)
    × (decode env enc (defined 0) ix_data ≡ ok order)
decode-encode_example =
    decode-encode env 4 5 (defined 0) order order-Fits (omega arith) (omega arith)

decode-encode_slack_example :
    (decode env (order_bytes ++ 0 ∷ 0 ∷ []) (defined 0) account_data ≡ ok order)
    × (decode env (order_bytes ++ 0 ∷ 0 ∷ []) (defined 0) ix_data
        ≡ err (borsh (trailing_bytes 45 47) 45 []))
decode-encode_slack_example =
    decode-encode_slack env 4 4 (defined 0) order order_bytes (0 ∷ 0 ∷ []) order-Fits (omega arith)
      (omega arith) encode-order (omega arith)

encode_prefix_free_example : (order ≡ order) × (◌≡◌ {A = List ℕ} (9 ∷ []) (9 ∷ []))
encode_prefix_free_example =
    encode_prefix_free env 4 4 (defined 0) order order order_bytes order_bytes (9 ∷ []) (9 ∷ [])
      order-Fits order-Fits (omega arith) (omega arith) encode-order encode-order refl

min_wire_size-le-encode_example : min_wire_size env (defined 0) ≤ 45
min_wire_size-le-encode_example =
    min_wire_size-le-encode env 4 4 (defined 0) order order_bytes order-Fits (omega arith)
      encode-order

read_safe_example :
    Ends
      (Advances (cursor (1 ∷ [])))
      (read env (vec (defined 0)) 65 (name "x" ∷ []) (cursor (1 ∷ [])))
read_safe_example =
    read_safe env (vec (defined 0)) 65 (name "x" ∷ []) (cursor (1 ∷ []))
      (record { in_buffer = omega arith; guarded = omega arith }) (omega arith)

decode-ne-out_of_fuel_example :
    (decode env (1 ∷ []) (defined 0) account_data ≢ out_of_fuel)
    × (node_size (class_size env (suc (length env.layouts) + 5)) (defined 0) []
        ≡ min_wire_size env (defined 0))
decode-ne-out_of_fuel_example =
    decode-ne-out_of_fuel env (1 ∷ []) (defined 0) account_data 5 (defined 0)

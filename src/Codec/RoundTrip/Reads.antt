-- ===== src/Codec/RoundTrip/Reads.antt =====
-- `m` reads `a` off the bytes `enc`, whatever follows them, with rules for each way to build a reader.
use wake_sol.Prelude.{
  ℕ, suc, ◌+◌, ◌-◌, ◌*◌, ◌/◌, ◌^◌, ◌≤◌, ◌<◌, ◌≡◌, ap, subst, true, false, List, [], zero, ◌∷◌, ◌++◌,
  append_assoc, arith, ltb, leb, le→ltb_not, le→leb, length, length-append, length-drop,
  take-append, drop, drop-add,
}
use native.Mathlib.Nat.{le-div_iff_mul-le}
use wake_sol.Codec.Result.{ok, Breadcrumb}
use wake_sol.Codec.Bytes.{le_bytes, from_le, length-le_bytes, from_le-le_bytes}
use wake_sol.Codec.Cursor.{
  Cursor, Reader, remaining, max_decode_depth, ◌>>=◌, pure, take, leave, descend,
}
use wake_sol.Codec.Read.{take_byte, check_len, read_seq_len}

-- The cursor after `n` bytes more.
abbrev pub advance : Cursor → ℕ → Cursor
advance cur n = record cur { pos = cur.pos + n }

-- The bytes ahead of `cur` are `xs`, and `levels` more may be entered.
pub record Ahead (levels : ℕ) (cur : Cursor) (xs : List ℕ) : Type 0 where
  pub bytes : drop cur.pos cur.buf ≡ xs
  pub in_buffer : cur.pos ≤ length cur.buf
  pub shallow : cur.depth + levels ≤ max_decode_depth

pub record Reads {ℓ} {A : Type ℓ} (levels : ℕ) (m : Reader A) (enc : List ℕ) (a : A) : Type ℓ where
  pub at :
      (cur : Cursor) (rest : List ℕ)
      → Ahead levels cur (enc ++ rest)
      → m cur ≡ ok (a, advance cur (length enc))

pub remaining-Ahead :
    {levels : ℕ} {cur : Cursor} (xs : List ℕ) → Ahead levels cur xs → remaining cur ≡ length xs
remaining-Ahead {cur = cur} xs h = omega (arith, length-drop cur.pos cur.buf, ap length h.bytes)

Ahead-advance :
    {levels : ℕ} {cur : Cursor} (xs ys : List ℕ)
    → Ahead levels cur (xs ++ ys)
    → Ahead levels (advance cur (length xs)) ys
Ahead-advance {cur = cur} xs ys h = record {
  bytes = drop-add cur.pos cur.buf xs ys h.bytes;
  in_buffer = omega (arith, remaining-Ahead (xs ++ ys) h, length-append xs ys, h.in_buffer);
  shallow = h.shallow;
}

module _ {ℓ} {A : Type ℓ} {levels : ℕ} where
  pub Reads-pure : (a : A) → Reads levels (pure a) [] a
  Reads-pure a = record { at = λ cur rest h. let e : cur.pos + 0 ≡ cur.pos = omega arith in rw e }

  pub Reads-bind {κ} :
      {B : Type κ} {m : Reader A} (f : A → Reader B) (xs ys : List ℕ) {a : A} {b : B}
      → Reads levels m xs a
      → Reads levels (f a) ys b
      → Reads levels (m >>= f) (xs ++ ys) b
  Reads-bind f xs ys hm hf = record {
    at = λ cur rest h.
        let h' = rw append_assoc at h in
        let e : cur.pos + length (xs ++ ys) ≡ cur.pos + length xs + length ys =
          omega (arith, length-append xs ys) in
        rw (hm.at cur (ys ++ rest) h', hf.at _ rest (Ahead-advance xs (ys ++ rest) h'), e);
  }

  -- A last step that takes nothing.
  pub Reads-map {κ} :
      {B : Type κ} {m : Reader A} (g : A → B) (xs : List ℕ) {a : A}
      → Reads levels m xs a
      → Reads levels (m >>= λ x. pure (g x)) xs (g a)
  Reads-map g xs hm = record { at = λ cur rest h. rw (hm.at cur rest h) }

pub Reads-take :
    {levels : ℕ} (bs : List ℕ) (path : Breadcrumb) → Reads levels (take (length bs) path) bs bs
unfolding take
Reads-take bs path = record {
  at = λ cur rest h.
      let fits : ltb (remaining cur) (length bs) ≡ false =
        le→ltb_not _ _ (omega (arith, remaining-Ahead (bs ++ rest) h, length-append bs rest)) in
      rw (fits, h.bytes, take-append);
}

-- A fixed count of bytes.
pub Reads-take_exactly :
    {levels : ℕ} (n : ℕ) (bs : List ℕ) (path : Breadcrumb)
    → length bs ≡ n
    → Reads levels (take n path) bs bs
Reads-take_exactly {levels} n bs path e =
    subst (λ k. Reads levels (take k path) bs bs) e (Reads-take bs path)

pub Reads-take_byte :
    {levels : ℕ} (b : ℕ) (path : Breadcrumb) → Reads levels (take_byte path) (b ∷ []) b
unfolding take_byte from_le
Reads-take_byte {levels} b path =
    let e : b + 256 * 0 ≡ b = omega arith in
    subst (λ k. Reads levels (take_byte path) (b ∷ []) k) e
      (Reads-map from_le (b ∷ []) (Reads-take (b ∷ []) path))

pub Reads-descend {ℓ} :
    {A : Type ℓ} {levels : ℕ} (path : Breadcrumb) {body : Reader A} (enc : List ℕ) {a : A}
    → Reads levels body enc a
    → Reads (suc levels) (descend path body) enc a
unfolding descend leave
Reads-descend path enc hb = record {
  at = λ cur rest h.
      let shallow : leb (cur.depth + 1) max_decode_depth ≡ true =
        le→leb _ _ (omega (arith, h.shallow)) in
      let out : cur.depth + 1 - 1 ≡ cur.depth = omega arith in
      rw shallow (
        rw
          (hb.at (record cur { depth = cur.depth + 1 }) rest
            (record {
              bytes = h.bytes;
              in_buffer = h.in_buffer;
              shallow = omega (arith, h.shallow);
            }))
          (rw out));
}

check_len-Ahead :
    {levels : ℕ} {cur : Cursor} (n min_elem : ℕ) (path : Breadcrumb) (xs : List ℕ)
    → Ahead levels cur xs
    → n ≤ length xs
    → n * min_elem ≤ length xs
    → check_len n min_elem path cur ≡ ok (n, cur)
unfolding check_len
check_len-Ahead n zero path xs h few room = rw (remaining-Ahead xs h) (ground arith)
check_len-Ahead n (suc m) path xs h few room =
    let fits : n ≤ length xs / suc m =
      (le-div_iff_mul-le {k = suc m} {x = n} {y = length xs} (omega arith)).1 room in
    rw (remaining-Ahead xs h) (ground arith)

-- A counted sequence: the count is accepted if what follows holds a byte, and the floor, for each
-- element.
pub Reads-counted {ℓ} :
    {A : Type ℓ} {levels : ℕ} (n min_elem : ℕ) (path : Breadcrumb) (f : ℕ → Reader A) (xs : List ℕ)
    {a : A}
    → n < 256 ^ 4
    → n ≤ length xs
    → n * min_elem ≤ length xs
    → Reads levels (f n) xs a
    → Reads levels (read_seq_len min_elem path >>= f) (le_bytes 4 n ++ xs) a
unfolding read_seq_len
Reads-counted n min_elem path f xs small few room hf = record {
  at = λ cur rest h.
      let prefix = le_bytes 4 n in
      let h' = rw append_assoc at h in
      let after = Ahead-advance prefix (xs ++ rest) h' in
      let size = length-append xs rest in
      let e : cur.pos + length (prefix ++ xs) ≡ cur.pos + length prefix + length xs =
        omega (arith, length-append prefix xs) in
      rw (
        (Reads-take_exactly 4 prefix path (length-le_bytes 4 n)).at cur (xs ++ rest) h',
        from_le-le_bytes 4 n small,
        check_len-Ahead n min_elem path (xs ++ rest) after (omega (arith, size))
            (omega (arith, size)),
        hf.at (advance cur (length prefix)) rest after,
        e,
      );
}

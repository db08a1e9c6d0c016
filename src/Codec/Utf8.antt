-- ===== src/Codec/Utf8.antt =====
-- Strict UTF-8, which `str.encode("utf-8")` and `bytes.decode("utf-8")` of the string node are.
-- A `str` is its list of code points.
use wake_sol.Prelude.{
  ℕ, zero, suc, ◌+◌, ◌-◌, ◌*◌, ◌/◌, ◌%◌, ◌≡◌, refl, ◌&&◌, Option, none, some, List, [], ◌∷◌, ◌++◌,
  arith, ltb, leb, ◌==◌, if◌then◌else◌,
}

-- The bytes of one code point; `none` is a UnicodeEncodeError (a lone surrogate).
unfoldable pub encode_point : ℕ → Option (List ℕ)
encode_point c =
    if ltb c 0x80
    then some (c ∷ [])
    else if ltb c 0x800
    then some ((0xc0 + c / 64) ∷ (0x80 + c % 64) ∷ [])
    else if leb 0xd800 c && ltb c 0xe000
    then none
    else if ltb c 0x10000
    then some ((0xe0 + c / 4096) ∷ (0x80 + c / 64 % 64) ∷ (0x80 + c % 64) ∷ [])
    else if ltb c 0x110000
    then some
        ((0xf0 + c / 262144) ∷ (0x80 + c / 4096 % 64) ∷ (0x80 + c / 64 % 64) ∷ (0x80 + c % 64) ∷ [])
    else none

prepend : Option (List ℕ) → Option (List ℕ) → Option (List ℕ)
prepend (some xs) (some ys) = some (xs ++ ys)
prepend (some xs) none = none
prepend none _ = none

unfoldable pub encode_utf8 : List ℕ → Option (List ℕ)
unfolding prepend
encode_utf8 [] = some []
encode_utf8 (c ∷ cs) = prepend (encode_point c) (encode_utf8 cs)

-- Between two code points, or inside one: how many bytes are left, the range of the next byte, and
-- the bits read so far.
pub data Decoding : Type 0 where
  start : Decoding
  inside : ℕ → ℕ → ℕ → ℕ → Decoding

-- The first byte of a code point decides its length and excludes overlong forms and surrogates.
unfoldable pub first_byte : ℕ → Option (List ℕ × Decoding)
first_byte b =
    if ltb b 0x80
    then some (b ∷ [], start)
    else if ltb b 0xc2
    then none
    else if ltb b 0xe0
    then some ([], inside 0 0x80 0xbf (b - 0xc0))
    else if b == 0xe0
    then some ([], inside 1 0xa0 0xbf 0)
    else if b == 0xed
    then some ([], inside 1 0x80 0x9f 13)
    else if ltb b 0xf0
    then some ([], inside 1 0x80 0xbf (b - 0xe0))
    else if b == 0xf0
    then some ([], inside 2 0x90 0xbf 0)
    else if ltb b 0xf4
    then some ([], inside 2 0x80 0xbf (b - 0xf0))
    else if b == 0xf4
    then some ([], inside 2 0x80 0x8f 4)
    else none

-- `inside k …` waits for `k + 1` bytes.
unfoldable pub next_byte : Decoding → ℕ → Option (List ℕ × Decoding)
next_byte start b = first_byte b
next_byte (inside k lo hi acc) b =
    let acc' = acc * 64 + (b - 0x80) in
    if leb lo b && leb b hi
    then (elim k [ zero ↦ some (acc' ∷ [], start) | suc j ↦ some ([], inside j 0x80 0xbf acc') ])
    else none

unfoldable pub decode_from : Decoding → List ℕ → Option (List ℕ)
unfolding prepend
decode_from start [] = some []
decode_from (inside k lo hi acc) [] = none
decode_from s (b ∷ bs) = elim (next_byte s b) [
  | none ↦ none
  | some (cs, s') ↦ prepend (some cs) (decode_from s' bs)
]

-- `none` is a UnicodeDecodeError.
unfoldable pub decode_utf8 : List ℕ → Option (List ℕ)
decode_utf8 = decode_from start

-- One code point read back, whatever follows.
decode_from-encode_point :
    (c : ℕ) (bs rest : List ℕ)
    → encode_point c ≡ some bs
    → decode_from start (bs ++ rest) ≡ prepend (some (c ∷ [])) (decode_from start rest)
unfolding encode_point decode_from next_byte first_byte
decode_from-encode_point c bs rest e = ground arith

prepend-eq-some :
    (xs ys : Option (List ℕ)) (zs : List ℕ)
    → prepend xs ys ≡ some zs
    → (a : List ℕ) × (b : List ℕ) × (xs ≡ some a) × (ys ≡ some b) × (zs ≡ a ++ b)
unfolding prepend
prepend-eq-some (some a) (some b) zs e = (a, b, refl, refl, cc)
prepend-eq-some (some a) none zs e = cc
prepend-eq-some none ys zs e = cc

-- The bytes of a text decode to the text.
pub decode_utf8-encode : (cs bs : List ℕ) → encode_utf8 cs ≡ some bs → decode_utf8 bs ≡ some cs
unfolding encode_utf8 decode_utf8
decode_utf8-encode [] bs e = let q : bs ≡ [] = cc in rw q (unfold decode_from in refl)
decode_utf8-encode (c ∷ cs) bs e =
    let (a, b, ea, eb, ez) = prepend-eq-some (encode_point c) (encode_utf8 cs) bs e in
    rw (ez, decode_from-encode_point c a b ea, decode_utf8-encode cs b eb)

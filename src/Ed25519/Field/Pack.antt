-- ===== src/Ed25519/Field/Pack.antt =====
-- The bytes of `Fe::to_bytes`, and `fe_eq`.
use nmerkar.Base.{
  ℕ, ◌+◌, ◌*◌, ◌/◌, ◌%◌, ◌^◌, ◌<◌, ◌≡◌, ◌↔◌, sym, ap, ◌∙◌, arith, ◌++◌, length, true, length-append,
  u64, bit_or, bit_or_fields, ◌<<<◌, le_bytes, le_value, IsBytes, length-le_bytes,
  le_value-le_bytes, le_value-append, le_bytes-IsBytes, text_eq_iff, le_value_injective,
  IsBytes-append,
}
use nmerkar.Ed25519.Field.{Fe, carry, reduce, pack, to_bytes, fe_eq}
use nmerkar.Ed25519.Field.Carry.{prime, value, Below, IsLoose, value-carry, carry-IsLoose}
use nmerkar.Ed25519.Field.Encode.{value-reduce, reduce-Below}

-- Two adjacent limbs in one word: the low one shifted right, the high one shifted left and cut.
word_fields :
    (low high k j : ℕ)
    → low < 2 ^ k
    → u64 (high * 2 ^ k) ≡ high % 2 ^ j * 2 ^ k
    → bit_or low (u64 (high <<< k)) ≡ low + high % 2 ^ j * 2 ^ k
word_fields low high k j h e = ap (λ (t : ℕ). bit_or low t) e ∙ bit_or_fields k low (high % 2 ^ j) h

four_words :
    (w0 w1 w2 w3 : ℕ)
    → w0 < 2 ^ 64
    → w1 < 2 ^ 64
    → w2 < 2 ^ 64
    → w3 < 2 ^ 64
    → le_value (le_bytes 8 w0 ++ (le_bytes 8 w1 ++ (le_bytes 8 w2 ++ le_bytes 8 w3)))
      ≡ w0 + 2 ^ 64 * w1 + 2 ^ 128 * w2 + 2 ^ 192 * w3
four_words w0 w1 w2 w3 h0 h1 h2 h3 =
    rw
      (
        le_value-append (le_bytes 8 w0) (le_bytes 8 w1 ++ (le_bytes 8 w2 ++ le_bytes 8 w3)),
        le_value-append (le_bytes 8 w1) (le_bytes 8 w2 ++ le_bytes 8 w3),
        le_value-append (le_bytes 8 w2) (le_bytes 8 w3),
        length-le_bytes 8 w0,
        length-le_bytes 8 w1,
        length-le_bytes 8 w2,
        le_value-le_bytes 8 w0 h0,
        le_value-le_bytes 8 w1 h1,
        le_value-le_bytes 8 w2 h2,
        le_value-le_bytes 8 w3 h3,
      )
      (omega arith)

le_value-pack : (t : Fe) → Below (2 ^ 51) t → le_value (pack t) ≡ value t
unfolding pack
le_value-pack t b =
    let e0 = word_fields t.l0 t.l1 51 13 b.b0 (omega arith) in
    let e1 = word_fields (t.l1 / 2 ^ 13) t.l2 38 26 (omega arith) (omega arith) in
    let e2 = word_fields (t.l2 / 2 ^ 26) t.l3 25 39 (omega arith) (omega arith) in
    let e3 = word_fields (t.l3 / 2 ^ 39) t.l4 12 52 (omega arith) (omega arith) in
    rw (e0, e1, e2, e3)
      (four_words (t.l0 + t.l1 % 2 ^ 13 * 2 ^ 51) (t.l1 / 2 ^ 13 + t.l2 % 2 ^ 26 * 2 ^ 38)
          (t.l2 / 2 ^ 26 + t.l3 % 2 ^ 39 * 2 ^ 25) (t.l3 / 2 ^ 39 + t.l4 % 2 ^ 52 * 2 ^ 12)
          (omega arith) (omega arith) (omega arith) (omega arith)
        ∙ omega arith)

pack_shape : (t : Fe) → IsBytes (pack t) × (length (pack t) ≡ 32)
unfolding pack
pack_shape t = (
  IsBytes-append _ _ (le_bytes-IsBytes 8 _) (
      IsBytes-append _ _ (le_bytes-IsBytes 8 _)
        (IsBytes-append _ _ (le_bytes-IsBytes 8 _) (le_bytes-IsBytes 8 _))),
  rw (length-append, length-append, length-append) (omega (arith, length-le_bytes)),
)

-- Where the limbs are below the bound 2^51 + 2^13, `to_bytes` gives 32 bytes, the value modulo
-- 2^255 - 19 with the lowest byte first.
pub to_bytes_lem :
    (a : Fe)
    → IsLoose a
    → (le_value (to_bytes a) ≡ value a % prime) × IsBytes (to_bytes a) × (length (to_bytes a) ≡ 32)
unfolding to_bytes
to_bytes_lem a la =
    let small : Below (2 ^ 62) a = omega arith in
    let loose = carry-IsLoose a small in
    let t = reduce (carry a) in
    let (bytes, long) = pack_shape t in
    (
      le_value-pack t (reduce-Below (carry a) loose)
          ∙ value-reduce (carry a) loose
          ∙ value-carry a small,
      bytes,
      long,
    )

-- Where the limbs of both are below the bound 2^51 + 2^13, `fe_eq` holds exactly when the values
-- are the same modulo 2^255 - 19.
pub fe_eq_iff :
    (a b : Fe) → IsLoose a → IsLoose b → (fe_eq a b ≡ true) ↔ (value a % prime ≡ value b % prime)
unfolding fe_eq
fe_eq_iff a b la lb =
    let (va, ba, na) = to_bytes_lem a la in
    let (vb, bb, nb) = to_bytes_lem b lb in
    (
      λ h. sym va ∙ ap le_value ((text_eq_iff (to_bytes a) (to_bytes b)).0 h) ∙ vb,
      λ e.
          (text_eq_iff (to_bytes a) (to_bytes b)).1
            (le_value_injective (to_bytes a) (to_bytes b) ba bb (na ∙ sym nb) (va ∙ e ∙ sym vb)),
    )

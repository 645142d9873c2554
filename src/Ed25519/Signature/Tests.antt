-- ===== src/Ed25519/Signature/Tests.antt =====
-- Runs of the scalar arithmetic, SHA-512, the group and the signatures of comp/src/ed25519.rs,
-- and their theorems at such inputs.
use nmerkar.Base.{
  ℕ, ◌+◌, ◌-◌, ◌*◌, ◌%◌, ◌^◌, ◌<◌, ◌≤◌, ◌≡◌, refl, true, some, List, ◌++◌, arith, length, le_bytes,
  be_bytes, le_value, be_value, IsBytes, replicate, text_eq, codes, take, drop,
}
use nmerkar.Ed25519.Field.{
  fe_eq, fe_mul, fe_add, fe_neg, fe_one, products, narrow, to_bytes, carry, reduce, pack, mask51,
  fe_sub,
}
use nmerkar.Ed25519.Scalar.{
  sc_reduce, sc_muladd, load_words, store_words, reduce_mod_l, reduce_loop, reduce_round, l_shifted,
  words_geq, first_difference, words_sub, sub_loop, mul_rows, mul_row, add_loop,
}
use nmerkar.Ed25519.Scalar.Reduce.{order, sc_reduce_lem}
use nmerkar.Ed25519.Scalar.Product.{sc_muladd_lem}
use nmerkar.Ed25519.Sha512.{
  Sha512, initial_state, update, fill, absorb, compress, rounds, round, schedule, fill_schedule,
  next_word, block_words, finalize, digest, sha512,
}
use nmerkar.Ed25519.Sha512.Stream.{update-append}
use nmerkar.Ed25519.Sha512.Padding.{sha512_lem, hash_blocks, padded, block_count}
use nmerkar.Ed25519.Group.{base_point, ge_scalar_mul, ge_to_bytes, curve_d, curve_2d, sqrt_minus_1}
use nmerkar.Ed25519.Group.Extended.{IsExtended, ge_scalar_mul-IsExtended}
use nmerkar.Ed25519.Signature.{clamp, sign, challenge, public_from_seed, expand_seed}
use nmerkar.Ed25519.Signature.Clamp.{clamp_lem}
use nmerkar.Ed25519.Signature.Sign.{sign_lem, nonce, base_point-IsExtended}
use nmerkar.Ed25519.Signature.Hex.{from_hex32, to_hex, from_hex32-to_hex}

abbrev ones : List ℕ
ones = replicate 32 255

-- The `sha512_vectors` test of comp/src/ed25519.rs, by its first eight bytes.
abc_digest : take 8 (sha512 (codes "abc")) ≡ be_bytes 8 0xddaf35a193617aba
unfolding sha512 finalize update fill absorb compress rounds round schedule fill_schedule next_word
    block_words digest be_bytes be_value le_bytes le_value
abc_digest = refl

-- (2^256 - 1)^2 + 2^256 - 1 modulo the order.
ones_muladd :
    le_value (sc_muladd ones ones ones) ≡ ((2 ^ 256 - 1) * (2 ^ 256 - 1) + (2 ^ 256 - 1)) % order
unfolding sc_muladd load_words store_words reduce_mod_l reduce_loop reduce_round l_shifted words_geq
    first_difference words_sub sub_loop mul_rows mul_row add_loop le_value le_bytes
ones_muladd = refl

-- The square of `SQRTM1` is -1.
root_of_minus_1 : fe_eq (fe_mul sqrt_minus_1 sqrt_minus_1) (fe_neg fe_one) ≡ true
unfolding fe_eq fe_mul fe_neg fe_sub products narrow to_bytes carry reduce pack mask51 le_bytes
    text_eq
root_of_minus_1 = refl

twice_d : fe_eq (fe_add curve_d curve_d) curve_2d ≡ true
unfolding fe_eq fe_add to_bytes carry reduce pack mask51 le_bytes text_eq
twice_d = refl

sc_reduce_lem_example :
    (le_value (sc_reduce (replicate 64 255)) ≡ le_value (replicate 64 255) % order)
    × IsBytes (sc_reduce (replicate 64 255))
    × (length (sc_reduce (replicate 64 255)) ≡ 32)
sc_reduce_lem_example = sc_reduce_lem (replicate 64 255) (omega arith) refl

sc_muladd_lem_example :
    (le_value (sc_muladd ones ones ones) ≡ (le_value ones * le_value ones + le_value ones) % order)
    × IsBytes (sc_muladd ones ones ones)
    × (length (sc_muladd ones ones ones) ≡ 32)
sc_muladd_lem_example =
    sc_muladd_lem ones ones ones (omega arith) (omega arith) (omega arith) refl refl refl

abbrev started : Sha512
started = record { state = initial_state; buf = codes "ab"; total = 2 }

update-append_example :
    update (update started (replicate 130 7)) (codes "c")
    ≡ update started (replicate 130 7 ++ codes "c")
update-append_example = update-append started (replicate 130 7) (codes "c") (omega arith)

sha512_lem_example :
    (sha512 (replicate 112 7)
      ≡ digest
          (hash_blocks (block_count (replicate 112 7)) initial_state (padded (replicate 112 7))))
    × (length (padded (replicate 112 7)) ≡ 128 * block_count (replicate 112 7))
sha512_lem_example = sha512_lem (replicate 112 7) (omega arith)

ge_scalar_mul-IsExtended_example : IsExtended (ge_scalar_mul base_point ones)
ge_scalar_mul-IsExtended_example = ge_scalar_mul-IsExtended base_point ones base_point-IsExtended

clamp_lem_example :
    (le_value (clamp ones) % 8 ≡ 0)
    × (2 ^ 254 ≤ le_value (clamp ones))
    × (le_value (clamp ones) < 2 ^ 255)
    × IsBytes (clamp ones)
    × (length (clamp ones) ≡ 32)
clamp_lem_example = clamp_lem ones (omega arith) refl

sign_lem_example :
    (length (sign ones (codes "x")) ≡ 64)
    × (take 32 (sign ones (codes "x"))
        ≡ ge_to_bytes (ge_scalar_mul base_point (nonce ones (codes "x"))))
    × (le_value (drop 32 (sign ones (codes "x")))
        ≡ (le_value
                (challenge (take 32 (sign ones (codes "x"))) (public_from_seed ones) (codes "x"))
              * le_value (expand_seed ones).0
            + le_value (nonce ones (codes "x")))
          % order)
sign_lem_example = sign_lem ones (codes "x")

from_hex32-to_hex_example : from_hex32 (to_hex ones) ≡ some ones
from_hex32-to_hex_example = from_hex32-to_hex ones (omega arith) refl

-- ===== src/Ed25519/Signature/Sign.antt =====
-- comp/src/ed25519.rs: what `sign` puts into the 64 bytes of a signature.
use nmerkar.Base.{
  ℕ, zero, suc, ◌+◌, ◌*◌, ◌%◌, ◌≡◌, refl, sym, ap, ◌∙◌, arith, List, [], ◌∷◌, ◌++◌, length, take,
  drop, le_value, IsBytes, IsBytes-append, IsBytes-take, be_bytes, be_bytes-IsBytes, length-append,
  length-take, length-be_bytes,
}
use nmerkar.Ed25519.Field.{fe_mul, fe_invert, to_bytes}
use nmerkar.Ed25519.Field.Mul.{value-fe_mul}
use nmerkar.Ed25519.Field.Pack.{to_bytes_lem}
use nmerkar.Ed25519.Field.Power.{fe_invert_lem}
use nmerkar.Ed25519.Sha512.{State, Sha512, new, update, finalize, digest, sha512}
use nmerkar.Ed25519.Scalar.{sc_reduce, sc_muladd}
use nmerkar.Ed25519.Scalar.Reduce.{order, sc_reduce_lem}
use nmerkar.Ed25519.Scalar.Product.{sc_muladd_lem}
use nmerkar.Ed25519.Group.{Ge, base_point, ge_scalar_mul, ge_to_bytes, modify}
use nmerkar.Ed25519.Group.Extended.{IsExtended, ge_scalar_mul-IsExtended}
use nmerkar.Ed25519.Signature.{expand_seed, public_from_seed, challenge, sign}
use nmerkar.Ed25519.Signature.Clamp.{clamp_lem}

-- The digest is 64 bytes.
digest-IsBytes : (s : State) → IsBytes (digest s) × (length (digest s) ≡ 64)
unfolding digest
digest-IsBytes s = joined s.h0 _ (
    joined s.h1 _ (
      joined s.h2 _ (
        joined s.h3 _ (
          joined s.h4 _
            (joined s.h5 _ (joined s.h6 _ (be_bytes-IsBytes 8 s.h7, length-be_bytes 8 s.h7)))))))
  where
    joined :
        (x : ℕ) (rest : List ℕ) {n : ℕ}
        → IsBytes rest × (length rest ≡ n)
        → IsBytes (be_bytes 8 x ++ rest) × (length (be_bytes 8 x ++ rest) ≡ 8 + n)
    joined x rest (h, len) = (
      IsBytes-append (be_bytes 8 x) rest (be_bytes-IsBytes 8 x) h,
      length-append (be_bytes 8 x) rest ∙ omega (arith, length-be_bytes 8 x, len),
    )

finalize-IsBytes : (st : Sha512) → IsBytes (finalize st) × (length (finalize st) ≡ 64)
unfolding finalize
finalize-IsBytes st = digest-IsBytes _

length-modify : (n : ℕ) (f : ℕ → ℕ) (xs : List ℕ) → length (modify n f xs) ≡ length xs
length-modify zero f [] = refl
length-modify (suc n) f [] = refl
length-modify zero f (x ∷ xs) = refl
length-modify (suc n) f (x ∷ xs) = ap suc (length-modify n f xs)

-- An encoded point is 32 bytes.
pub length-ge_to_bytes : (p : Ge) → IsExtended p → length (ge_to_bytes p) ≡ 32
unfolding ge_to_bytes
length-ge_to_bytes p h =
    let (_, inverse) = fe_invert_lem p.z h.z_loose in
    let (_, loose) = value-fe_mul p.y (fe_invert p.z) h.y_loose inverse in
    let (_, _, count) = to_bytes_lem (fe_mul p.y (fe_invert p.z)) loose in
    length-modify 31 _ (to_bytes (fe_mul p.y (fe_invert p.z))) ∙ count

pub base_point-IsExtended : IsExtended base_point
base_point-IsExtended = record {
  x_loose = omega arith;
  y_loose = omega arith;
  z_loose = omega arith;
  t_loose = omega arith;
  fits = refl;
}

take_exact : (xs ys : List ℕ) (n : ℕ) → length xs ≡ n → take n (xs ++ ys) ≡ xs
take_exact [] ys zero e = refl
take_exact [] ys (suc n) e = absurd (omega arith)
take_exact (x ∷ xs) ys zero e = absurd (omega arith)
take_exact (x ∷ xs) ys (suc n) e = ap (λ t. x ∷ t) (take_exact xs ys n (omega arith))

drop_exact : (xs ys : List ℕ) (n : ℕ) → length xs ≡ n → drop n (xs ++ ys) ≡ ys
drop_exact [] ys zero e = refl
drop_exact [] ys (suc n) e = absurd (omega arith)
drop_exact (x ∷ xs) ys zero e = absurd (omega arith)
drop_exact (x ∷ xs) ys (suc n) e = drop_exact xs ys n (omega arith)

-- The scalar of a seed, whatever the seed.
expand_seed-IsBytes :
    (seed : List ℕ) → IsBytes (expand_seed seed).0 × (length (expand_seed seed).0 ≡ 32)
unfolding expand_seed sha512
expand_seed-IsBytes seed =
    let (bytes, len) = finalize-IsBytes (update new seed) in
    let (_, _, _, clamped, count) =
      clamp_lem (take 32 (finalize (update new seed)))
        (IsBytes-take 32 (finalize (update new seed)) bytes)
        (length-take 32 (finalize (update new seed)) ∙ omega (arith, len)) in
    (clamped, count)

-- The nonce of a signature: the hash of the second half of the expanded seed and the message.
abbrev pub nonce : List ℕ → List ℕ → List ℕ
nonce seed message = sc_reduce (finalize (update (update new (expand_seed seed).1) message))

-- A signature is 64 bytes: the encoded multiple of the base point by the nonce, and the number
-- k * a + nonce modulo the group order, where a is the scalar of the seed and k the challenge that
-- `verify` computes from the first half of the signature, the public key and the message.
pub sign_lem :
    (seed message : List ℕ)
    → (length (sign seed message) ≡ 64)
      × (take 32 (sign seed message) ≡ ge_to_bytes (ge_scalar_mul base_point (nonce seed message)))
      × (le_value (drop 32 (sign seed message))
          ≡ (le_value (challenge (take 32 (sign seed message)) (public_from_seed seed) message)
                * le_value (expand_seed seed).0
              + le_value (nonce seed message))
            % order)
sign_lem seed message =
    let r : List ℕ = nonce seed message in
    let rb : List ℕ = ge_to_bytes (ge_scalar_mul base_point r) in
    let k : List ℕ = challenge rb (public_from_seed seed) message in
    let (hb, hl) = finalize-IsBytes (update (update new (expand_seed seed).1) message) in
    let (_, r_bytes, r_len) =
      sc_reduce_lem (finalize (update (update new (expand_seed seed).1) message)) hb hl in
    let (k_bytes, k_len) = challenge-IsBytes rb (public_from_seed seed) message in
    let (a_bytes, a_len) = expand_seed-IsBytes seed in
    let (value, s_bytes, s_len) =
      sc_muladd_lem k (expand_seed seed).0 r k_bytes a_bytes r_bytes k_len a_len r_len in
    let first : length rb ≡ 32 =
      length-ge_to_bytes (ge_scalar_mul base_point r)
        (ge_scalar_mul-IsExtended base_point r base_point-IsExtended) in
    let s : List ℕ = sc_muladd k (expand_seed seed).0 r in
    let parts : sign seed message ≡ rb ++ s = unfold sign public_from_seed in refl in
    let taken : take 32 (sign seed message) ≡ rb = ap (take 32) parts ∙ take_exact rb s 32 first in
    (
      ap length parts ∙ length-append rb s ∙ omega (arith, first, s_len),
      taken,
      ap (λ (t : List ℕ). le_value (drop 32 t)) parts
          ∙ ap le_value (drop_exact rb s 32 first)
          ∙ value
          ∙ ap
              (λ (t : List ℕ).
                (le_value (challenge t (public_from_seed seed) message)
                    * le_value (expand_seed seed).0
                  + le_value r)
                % order)
              (sym taken),
    )
  where
    challenge-IsBytes :
        (rb public message : List ℕ)
        → IsBytes (challenge rb public message) × (length (challenge rb public message) ≡ 32)
    challenge-IsBytes rb public message =
        let st : Sha512 = update (update (update new rb) public) message in
        let (bytes, len) = finalize-IsBytes st in
        let (_, kept, count) = sc_reduce_lem (finalize st) bytes len in
        unfold challenge in (kept, count)

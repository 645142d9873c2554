-- ===== src/Ed25519/Signature.antt =====
-- comp/src/ed25519.rs: keys, signatures (RFC 8032) and hexadecimal text.
pub mod Hex
pub mod Clamp
pub mod Sign
mod Tests
use nmerkar.Base.{
  ℕ, zero, suc, ◌+◌, ◌-◌, ◌*◌, ◌/◌, ◌%◌, bit_and, bit_or, Bool, true, false, ◌&&◌, List, [], ◌∷◌,
  ◌++◌, Option, none, some, if◌then◌else◌, ◌==◌, leb, length, take, drop, get_or,
}
use nmerkar.Ed25519.Sha512.{Sha512, new, update, finalize, sha512}
use nmerkar.Ed25519.Scalar.{sc_reduce, sc_muladd}
use nmerkar.Ed25519.Group.{
  Ge, base_point, ge_scalar_mul, ge_to_bytes, ge_decompress, ge_add, ge_eq, modify,
}

-- The scalar of a seed: the lowest three bits and the highest are cleared, the next is set.
unfoldable pub clamp : List ℕ → List ℕ
clamp a =
    modify 31 (λ b. bit_or b 64) (modify 31 (λ b. bit_and b 127) (modify 0 (λ b. bit_and b 248) a))

-- `expand_seed`
unfoldable pub expand_seed : List ℕ → List ℕ × List ℕ
expand_seed seed = let h = sha512 seed in (clamp (take 32 h), drop 32 h)

unfoldable pub public_from_seed : List ℕ → List ℕ
public_from_seed seed = let (a, _) = expand_seed seed in ge_to_bytes (ge_scalar_mul base_point a)

-- The scalar that three parts hash to.
unfoldable pub challenge : List ℕ → List ℕ → List ℕ → List ℕ
challenge rb public message = sc_reduce (finalize (update (update (update new rb) public) message))

unfoldable pub sign : List ℕ → List ℕ → List ℕ
sign seed message =
    let (a, prefix) = expand_seed seed in
    let public = ge_to_bytes (ge_scalar_mul base_point a) in
    let r = sc_reduce (finalize (update (update new prefix) message)) in
    let rb = ge_to_bytes (ge_scalar_mul base_point r) in
    let k = challenge rb public message in let s = sc_muladd k a r in rb ++ s

-- The last lines of `verify`: [S]B = R + [k]A.
unfoldable pub verify_equation : Ge → Ge → List ℕ → List ℕ → Bool
verify_equation a r k sb = ge_eq (ge_scalar_mul base_point sb) (ge_add (ge_scalar_mul a k) r)

unfoldable pub verify : List ℕ → List ℕ → List ℕ → Bool
verify public message sig =
    let rb = take 32 sig in
    let sb = drop 32 sig in
    elim (ge_decompress public) [
      | none ↦ false
      | some a ↦ elim (ge_decompress rb) [
        | none ↦ false
        | some r ↦ verify_equation a r (challenge rb public message) sb
      ]
    ]

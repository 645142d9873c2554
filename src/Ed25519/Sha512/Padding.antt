-- ===== src/Ed25519/Sha512/Padding.antt =====
-- comp/src/ed25519.rs: `sha512` against the padding and the blocks of FIPS 180-4.
use native.Mathlib.Decide.{dec_lt}
use nmerkar.Base.{
  ℕ, zero, suc, ◌+◌, ◌-◌, ◌*◌, ◌/◌, ◌%◌, ◌^◌, ◌≤◌, ◌<◌, ◌≡◌, refl, ap, ap₂, ◌∙◌, arith, List, ◌∷◌,
  ◌++◌, length, take, drop, u128, length-append, length-drop, replicate, be_bytes, length-replicate,
}
use nmerkar.Base.{length-be_bytes}
use nmerkar.Ed25519.Sha512.{
  State, Sha512, compress, absorb, absorb_all, update, initial_state, finalize, sha512, new, digest,
}
use nmerkar.Ed25519.Sha512.Stream.{absorb_short, absorb_step, update_lem, update-append, absorbed}

-- The state after `n` blocks of 128 bytes.
unfoldable pub hash_blocks : ℕ → State → List ℕ → State
hash_blocks zero s d = s
hash_blocks (suc n) s d = hash_blocks n (compress s (take 128 d)) (drop 128 d)

-- The message with the padding of FIPS 180-4: a one bit, zeros up to 112 bytes modulo 128, and
-- the length in bits in 16 bytes, the highest first.
abbrev pub padded : List ℕ → List ℕ
padded d =
    d ++ ((128 ∷ replicate ((111 + 128 - length d % 128) % 128) 0) ++ be_bytes 16 (8 * length d))

length-absorb_mod :
    (fuel : ℕ) (s : State) (d : List ℕ)
    → length d ≤ fuel
    → length (absorb fuel s d).1 ≡ length d % 128
length-absorb_mod zero s d h = rw (absorb_short 0 s d (omega arith)) (omega arith)
length-absorb_mod (suc fuel) s d h = elim (dec_lt (length d) 128) [
  | yes short ↦ rw (absorb_short (suc fuel) s d short) (omega arith)
  | no long ↦ rw (absorb_step fuel s d (omega arith)) (
      length-absorb_mod fuel (compress s (take 128 d)) (drop 128 d)
        (omega (arith, length-drop 128 d))
      ∙ omega (arith, length-drop 128 d))
]

absorb_blocks :
    (n fuel : ℕ) (s : State) (d : List ℕ)
    → length d ≤ fuel
    → length d ≡ 128 * n
    → (absorb fuel s d).0 ≡ hash_blocks n s d
unfolding hash_blocks
absorb_blocks zero fuel s d h e = rw (absorb_short fuel s d (omega arith)) refl
absorb_blocks (suc n) zero s d h e = absurd (omega arith)
absorb_blocks (suc n) (suc fuel) s d h e = rw (absorb_step fuel s d (omega arith)) (
    absorb_blocks n fuel (compress s (take 128 d)) (drop 128 d) (omega (arith, length-drop 128 d))
      (omega (arith, length-drop 128 d)))

-- The number of blocks of the padded message.
abbrev pub block_count : List ℕ → ℕ
block_count d = (length d + 144) / 128

length-padded : (d : List ℕ) → length (padded d) ≡ 128 * block_count d
length-padded d =
    let zeros : ℕ = (111 + 128 - length d % 128) % 128 in
    omega (
      arith,
      length-append d ((128 ∷ replicate zeros 0) ++ be_bytes 16 (8 * length d)),
      length-append (128 ∷ replicate zeros 0) (be_bytes 16 (8 * length d)),
      length-replicate {A = ℕ} zeros 0,
      length-be_bytes 16 (8 * length d),
    )

abbrev mark : ℕ → List ℕ
mark z = 128 ∷ replicate (z % 128) 0

-- For a message of less than 2^125 bytes, `sha512` is the digest of the state that the blocks of
-- the padded message give, one after the other, and these blocks are the whole padded message.
pub sha512_lem :
    (d : List ℕ)
    → length d < 2 ^ 125
    → (sha512 d ≡ digest (hash_blocks (block_count d) initial_state (padded d)))
      × (length (padded d) ≡ 128 * block_count d)
unfolding sha512 finalize
sha512_lem d small =
    let st = update new d in
    let first : st ≡ absorbed (u128 (0 + length d)) (absorb_all initial_state d) =
      update_lem new d (omega arith) in
    let total : st.total ≡ length d = ap (λ (t : Sha512). t.total) first ∙ omega arith in
    let buffered : length st.buf ≡ length d % 128 =
      ap (λ (t : Sha512). length t.buf) first
      ∙ length-absorb_mod (length d) initial_state d (omega arith) in
    let same_zeros : (111 + 128 - length st.buf) % 128 ≡ (111 + 128 - length d % 128) % 128 =
      omega (arith, buffered) in
    let same_bits : u128 (st.total * 8) ≡ 8 * length d = omega (arith, total) in
    let parts : update (update st (mark (111 + 128 - length st.buf)))
          (be_bytes 16 (u128 (st.total * 8)))
        ≡ update (update st (mark (111 + 128 - length d % 128))) (be_bytes 16 (8 * length d)) =
      ap₂ (λ (z b : ℕ). update (update st (128 ∷ replicate z 0)) (be_bytes 16 b)) same_zeros
        same_bits in
    let one : update (update st (mark (111 + 128 - length d % 128))) (be_bytes 16 (8 * length d))
        ≡ update new (padded d) =
      update-append st (mark (111 + 128 - length d % 128)) (be_bytes 16 (8 * length d))
        (omega (arith, buffered))
      ∙ update-append new d _ (omega arith) in
    let blocks : (update new (padded d)).state
        ≡ hash_blocks (block_count d) initial_state (padded d) =
      ap (λ (t : Sha512). t.state) (update_lem new (padded d) (omega arith))
      ∙ absorb_blocks (block_count d) (length (padded d)) initial_state (padded d) (omega arith)
          (length-padded d) in
    (ap (λ (t : Sha512). digest t.state) (parts ∙ one) ∙ ap digest blocks, length-padded d)

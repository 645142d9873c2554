-- ===== src/Ed25519/Sha512.antt =====
-- comp/src/ed25519.rs: SHA-512. An array of a fixed length is a list; a write into `buf` at
-- `buf_len` keeps the bytes before it, so `buf` is here its first `buf_len` bytes.
pub mod Stream
pub mod Padding
use nmerkar.Base.{
  ℕ, zero, suc, ◌+◌, ◌-◌, ◌*◌, ◌/◌, ◌%◌, ◌^◌, min, bit_and, bit_or, bit_xor, u64, u128, ◌>>>◌,
  ◌<<<◌, Bool, true, false, List, [], ◌∷◌, ◌++◌, if◌then◌else◌, ltb, leb, ◌==◌, take, drop, get_or,
  be_value, be_bytes, replicate, length, map,
}

-- `K512`
abbrev pub round_constants : List ℕ
round_constants =
    0x428a2f98d728ae22 ∷ 0x7137449123ef65cd ∷ 0xb5c0fbcfec4d3b2f ∷ 0xe9b5dba58189dbbc
    ∷ 0x3956c25bf348b538 ∷ 0x59f111f1b605d019 ∷ 0x923f82a4af194f9b ∷ 0xab1c5ed5da6d8118
    ∷ 0xd807aa98a3030242 ∷ 0x12835b0145706fbe ∷ 0x243185be4ee4b28c ∷ 0x550c7dc3d5ffb4e2
    ∷ 0x72be5d74f27b896f ∷ 0x80deb1fe3b1696b1 ∷ 0x9bdc06a725c71235 ∷ 0xc19bf174cf692694
    ∷ 0xe49b69c19ef14ad2 ∷ 0xefbe4786384f25e3 ∷ 0x0fc19dc68b8cd5b5 ∷ 0x240ca1cc77ac9c65
    ∷ 0x2de92c6f592b0275 ∷ 0x4a7484aa6ea6e483 ∷ 0x5cb0a9dcbd41fbd4 ∷ 0x76f988da831153b5
    ∷ 0x983e5152ee66dfab ∷ 0xa831c66d2db43210 ∷ 0xb00327c898fb213f ∷ 0xbf597fc7beef0ee4
    ∷ 0xc6e00bf33da88fc2 ∷ 0xd5a79147930aa725 ∷ 0x06ca6351e003826f ∷ 0x142929670a0e6e70
    ∷ 0x27b70a8546d22ffc ∷ 0x2e1b21385c26c926 ∷ 0x4d2c6dfc5ac42aed ∷ 0x53380d139d95b3df
    ∷ 0x650a73548baf63de ∷ 0x766a0abb3c77b2a8 ∷ 0x81c2c92e47edaee6 ∷ 0x92722c851482353b
    ∷ 0xa2bfe8a14cf10364 ∷ 0xa81a664bbc423001 ∷ 0xc24b8b70d0f89791 ∷ 0xc76c51a30654be30
    ∷ 0xd192e819d6ef5218 ∷ 0xd69906245565a910 ∷ 0xf40e35855771202a ∷ 0x106aa07032bbd1b8
    ∷ 0x19a4c116b8d2d0c8 ∷ 0x1e376c085141ab53 ∷ 0x2748774cdf8eeb99 ∷ 0x34b0bcb5e19b48a8
    ∷ 0x391c0cb3c5c95a63 ∷ 0x4ed8aa4ae3418acb ∷ 0x5b9cca4f7763e373 ∷ 0x682e6ff3d6b2b8a3
    ∷ 0x748f82ee5defb2fc ∷ 0x78a5636f43172f60 ∷ 0x84c87814a1f0ab72 ∷ 0x8cc702081a6439ec
    ∷ 0x90befffa23631e28 ∷ 0xa4506cebde82bde9 ∷ 0xbef9a3f7b2c67915 ∷ 0xc67178f2e372532b
    ∷ 0xca273eceea26619c ∷ 0xd186b8c721c0c207 ∷ 0xeada7dd6cde0eb1e ∷ 0xf57d4f7fee6ed178
    ∷ 0x06f067aa72176fba ∷ 0x0a637dc5a2c898a6 ∷ 0x113f9804bef90dae ∷ 0x1b710b35131c471b
    ∷ 0x28db77f523047d84 ∷ 0x32caab7b40c72493 ∷ 0x3c9ebe0a15c9bebc ∷ 0x431d67c49c100d4c
    ∷ 0x4cc5d4becb3e42b6 ∷ 0x597f299cfc657e2a ∷ 0x5fcb6fab3ad6faec ∷ 0x6c44198c4a475817 ∷ []

-- `h` in `Sha512`: eight words.
pub record State : Type 0 where
  pub h0 : ℕ
  pub h1 : ℕ
  pub h2 : ℕ
  pub h3 : ℕ
  pub h4 : ℕ
  pub h5 : ℕ
  pub h6 : ℕ
  pub h7 : ℕ

abbrev pub initial_state : State
initial_state = record {
  h0 = 0x6a09e667f3bcc908;
  h1 = 0xbb67ae8584caa73b;
  h2 = 0x3c6ef372fe94f82b;
  h3 = 0xa54ff53a5f1d36f1;
  h4 = 0x510e527fade682d1;
  h5 = 0x9b05688c2b3e6c1f;
  h6 = 0x1f83d9abfb41bd6b;
  h7 = 0x5be0cd19137e2179;
}

-- `rotate_right` of a `u64`
abbrev pub rotate_right : ℕ → ℕ → ℕ
rotate_right x k = bit_or (x >>> k) (u64 (x <<< (64 - k)))

-- `wrapping_add`
abbrev pub wrapping_add : ℕ → ℕ → ℕ
wrapping_add x y = u64 (x + y)

-- `!x` on a `u64`
abbrev pub complement : ℕ → ℕ
complement x = 2 ^ 64 - 1 - x

-- The first 16 words of the schedule: big-endian words of the block.
unfoldable pub block_words : ℕ → List ℕ → List ℕ
block_words zero block = []
block_words (suc n) block = be_value (take 8 block) ∷ block_words n (drop 8 block)

-- `w[i]` for `i >= 16`, from the words before it.
unfoldable pub next_word : List ℕ → ℕ → ℕ
next_word w i =
    let x = get_or w (i - 15) 0 in
    let y = get_or w (i - 2) 0 in
    let s0 = bit_xor (bit_xor (rotate_right x 1) (rotate_right x 8)) (x >>> 7) in
    let s1 = bit_xor (bit_xor (rotate_right y 19) (rotate_right y 61)) (y >>> 6) in
    wrapping_add (wrapping_add (wrapping_add (get_or w (i - 16) 0) s0) (get_or w (i - 7) 0)) s1

-- The loop that fills the schedule, `n` words at its end.
unfoldable pub fill_schedule : ℕ → List ℕ → List ℕ
fill_schedule zero w = w
fill_schedule (suc n) w = fill_schedule n (w ++ next_word w (length w) ∷ [])

unfoldable pub schedule : List ℕ → List ℕ
schedule block = fill_schedule 64 (block_words 16 block)

-- One round of `compress` under the constant `k` and the word `w`.
unfoldable pub round : ℕ → ℕ → State → State
round k w s =
    let s1 =
      bit_xor (bit_xor (rotate_right s.h4 14) (rotate_right s.h4 18)) (rotate_right s.h4 41) in
    let ch = bit_xor (bit_and s.h4 s.h5) (bit_and (complement s.h4) s.h6) in
    let t1 = wrapping_add (wrapping_add (wrapping_add (wrapping_add s.h7 s1) ch) k) w in
    let s0 =
      bit_xor (bit_xor (rotate_right s.h0 28) (rotate_right s.h0 34)) (rotate_right s.h0 39) in
    let maj = bit_xor (bit_xor (bit_and s.h0 s.h1) (bit_and s.h0 s.h2)) (bit_and s.h1 s.h2) in
    let t2 = wrapping_add s0 maj in
    record {
      h0 = wrapping_add t1 t2;
      h1 = s.h0;
      h2 = s.h1;
      h3 = s.h2;
      h4 = wrapping_add s.h3 t1;
      h5 = s.h4;
      h6 = s.h5;
      h7 = s.h6;
    }

unfoldable pub rounds : List ℕ → List ℕ → State → State
rounds (k ∷ ks) (w ∷ ws) s = rounds ks ws (round k w s)
rounds _ _ s = s

-- `compress`
unfoldable pub compress : State → List ℕ → State
compress s block =
    let r = rounds round_constants (schedule block) s in
    record {
      h0 = wrapping_add s.h0 r.h0;
      h1 = wrapping_add s.h1 r.h1;
      h2 = wrapping_add s.h2 r.h2;
      h3 = wrapping_add s.h3 r.h3;
      h4 = wrapping_add s.h4 r.h4;
      h5 = wrapping_add s.h5 r.h5;
      h6 = wrapping_add s.h6 r.h6;
      h7 = wrapping_add s.h7 r.h7;
    }

-- `Sha512`
pub record Sha512 : Type 0 where
  pub state : State
  pub buf : List ℕ
  pub total : ℕ

-- `Sha512::new`
abbrev pub new : Sha512
new = record { state = initial_state; buf = []; total = 0 }

-- The loop over whole blocks of `data` and the rest that goes into `buf`, on fuel.
unfoldable pub absorb : ℕ → State → List ℕ → State × List ℕ
absorb zero s data' = (s, data')
absorb (suc fuel) s data' =
    if leb 128 (length data')
    then absorb fuel (compress s (take 128 data')) (drop 128 data')
    else (s, data')

-- `update` for an empty `buf`, and the bytes that filled one.
abbrev pub absorb_all : State → List ℕ → State × List ℕ
absorb_all s data' = absorb (length data') s data'

-- The first branch of `update`: a partial block is filled up.
unfoldable pub fill : State → List ℕ → List ℕ → State × List ℕ
fill s buf data' =
    let n = min (128 - length buf) (length data') in
    let full = buf ++ take n data' in
    if length full == 128 then absorb_all (compress s full) (drop n data') else (s, full)

unfoldable pub update : Sha512 → List ℕ → Sha512
update st data' =
    let (state, buf) =
      (if ltb 0 (length st.buf) then fill st.state st.buf data' else absorb_all st.state data') in
    record { state = state; buf = buf; total = u128 (st.total + length data') }

-- The bytes of the eight words.
unfoldable pub digest : State → List ℕ
digest s =
    be_bytes 8 s.h0
    ++ (be_bytes 8 s.h1
        ++ (be_bytes 8 s.h2
            ++ (be_bytes 8 s.h3
                ++ (be_bytes 8 s.h4 ++ (be_bytes 8 s.h5 ++ (be_bytes 8 s.h6 ++ be_bytes 8 s.h7))))))

-- `finalize`
unfoldable pub finalize : Sha512 → List ℕ
finalize st =
    let bits = u128 (st.total * 8) in
    let zeros = (111 + 128 - length st.buf) % 128 in
    let padded = update st (128 ∷ replicate zeros 0) in
    digest (update padded (be_bytes 16 bits)).state

-- `sha512`
unfoldable pub sha512 : List ℕ → List ℕ
sha512 data' = finalize (update new data')

-- ===== src/Ed25519/Sha512/Stream.antt =====
-- comp/src/ed25519.rs: `update` of SHA-512 does not depend on how the data is cut into calls.
use native.Mathlib.Decide.{dec_lt}
use nmerkar.Base.{
  ℕ, zero, suc, ◌+◌, ◌-◌, ◌≤◌, ◌<◌, ◌≡◌, refl, sym, ap, ap₂, ◌∙◌, arith, List, [], ◌∷◌, ◌++◌,
  length, take, drop, ltb, ◌==◌, u128, min, true, false, append_assoc, length-append, length-take,
  length-drop, if◌then◌else◌, lt→ltb, le→leb, ==_iff,
}
use nmerkar.Ed25519.Sha512.{State, Sha512, compress, absorb, absorb_all, fill, update}

take-append : (xs ys : List ℕ) (n : ℕ) → take (length xs + n) (xs ++ ys) ≡ xs ++ take n ys
take-append [] ys n = ap (λ (k : ℕ). take k ys) (omega arith)
take-append (x ∷ xs) ys n =
    let e : suc (length xs) + n ≡ suc (length xs + n) = omega arith in
    ap (λ (k : ℕ). take k (x ∷ xs ++ ys)) e ∙ ap (λ t. x ∷ t) (take-append xs ys n)

drop-append : (xs ys : List ℕ) (n : ℕ) → drop (length xs + n) (xs ++ ys) ≡ drop n ys
drop-append [] ys n = ap (λ (k : ℕ). drop k ys) (omega arith)
drop-append (x ∷ xs) ys n =
    let e : suc (length xs) + n ≡ suc (length xs + n) = omega arith in
    ap (λ (k : ℕ). drop k (x ∷ xs ++ ys)) e ∙ drop-append xs ys n

take_of_long : (n : ℕ) (xs ys : List ℕ) → n ≤ length xs → take n (xs ++ ys) ≡ take n xs
take_of_long zero xs ys h = refl
take_of_long (suc n) [] ys h = absurd (omega arith)
take_of_long (suc n) (x ∷ xs) ys h = ap (λ t. x ∷ t) (take_of_long n xs ys (omega arith))

drop_of_long : (n : ℕ) (xs ys : List ℕ) → n ≤ length xs → drop n (xs ++ ys) ≡ drop n xs ++ ys
drop_of_long zero xs ys h = refl
drop_of_long (suc n) [] ys h = absurd (omega arith)
drop_of_long (suc n) (x ∷ xs) ys h = drop_of_long n xs ys (omega arith)

take_whole : (n : ℕ) (xs : List ℕ) → length xs ≤ n → take n xs ≡ xs
take_whole zero [] h = refl
take_whole zero (x ∷ xs) h = absurd (omega arith)
take_whole (suc n) [] h = refl
take_whole (suc n) (x ∷ xs) h = ap (λ t. x ∷ t) (take_whole n xs (omega arith))

pub absorb_short : (fuel : ℕ) (s : State) (d : List ℕ) → length d < 128 → absorb fuel s d ≡ (s, d)
unfolding absorb
absorb_short zero s d h = refl
absorb_short (suc fuel) s d h = ground arith

pub absorb_step :
    (fuel : ℕ) (s : State) (d : List ℕ)
    → 128 ≤ length d
    → absorb (suc fuel) s d ≡ absorb fuel (compress s (take 128 d)) (drop 128 d)
unfolding absorb
absorb_step fuel s d h = rw (le→leb 128 (length d) h) refl

-- More fuel than bytes changes nothing.
absorb_fuel :
    (f g : ℕ) (s : State) (d : List ℕ) → length d ≤ f → length d ≤ g → absorb f s d ≡ absorb g s d
absorb_fuel zero g s d hf hg =
    let short : length d < 128 = omega arith in
    absorb_short 0 s d short ∙ sym (absorb_short g s d short)
absorb_fuel (suc f) zero s d hf hg =
    let short : length d < 128 = omega arith in
    absorb_short (suc f) s d short ∙ sym (absorb_short 0 s d short)
absorb_fuel (suc f) (suc g) s d hf hg = elim (dec_lt (length d) 128) [
  | yes short ↦ absorb_short (suc f) s d short ∙ sym (absorb_short (suc g) s d short)
  | no long ↦
      absorb_step f s d (omega arith)
      ∙ absorb_fuel f g (compress s (take 128 d)) (drop 128 d) (omega (arith, length-drop 128 d))
          (omega (arith, length-drop 128 d))
      ∙ sym (absorb_step g s d (omega arith))
]

pub absorb_all_long :
    (s : State) (d : List ℕ)
    → 128 ≤ length d
    → absorb_all s d ≡ absorb_all (compress s (take 128 d)) (drop 128 d)
absorb_all_long s d h =
    absorb_fuel (length d) (suc (length d)) s d (omega arith) (omega arith)
    ∙ absorb_step (length d) s d h
    ∙ absorb_fuel (length d) (length (drop 128 d)) (compress s (take 128 d)) (drop 128 d)
        (omega (arith, length-drop 128 d)) (omega arith)

-- What stays in the buffer is less than a block.
pub length-absorb :
    (fuel : ℕ) (s : State) (d : List ℕ) → length d ≤ fuel → length (absorb fuel s d).1 < 128
length-absorb zero s d h = rw (absorb_short 0 s d (omega arith)) (omega arith)
length-absorb (suc fuel) s d h = elim (dec_lt (length d) 128) [
  | yes short ↦ rw (absorb_short (suc fuel) s d short) short
  | no long ↦
      rw (absorb_step fuel s d (omega arith)) (
        length-absorb fuel (compress s (take 128 d)) (drop 128 d)
          (omega (arith, length-drop 128 d)))
]

-- Whole blocks taken early leave the rest as it is.
absorb_append :
    (fuel : ℕ) (s : State) (x y : List ℕ)
    → length x ≤ fuel
    → absorb_all (absorb fuel s x).0 ((absorb fuel s x).1 ++ y) ≡ absorb_all s (x ++ y)
absorb_append zero s x y h = rw (absorb_short 0 s x (omega arith)) refl
absorb_append (suc fuel) s x y h = elim (dec_lt (length x) 128) [
  | yes short ↦ rw (absorb_short (suc fuel) s x short) refl
  | no long ↦
      let enough : 128 ≤ length x = omega arith in
      rw (absorb_step fuel s x enough) (
        absorb_append fuel (compress s (take 128 x)) (drop 128 x) y
          (omega (arith, length-drop 128 x))
        ∙ sym (
            absorb_all_long s (x ++ y) (omega (arith, length-append x y))
            ∙ ap₂ (λ (b r : List ℕ). absorb_all (compress s b) r) (take_of_long 128 x y enough)
                (drop_of_long 128 x y enough)))
]

-- The two outcomes of the first branch of `update`.
fill_short :
    (s : State) (buf d : List ℕ)
    → length buf + length d < 128
    → fill s buf d ≡ absorb_all s (buf ++ d)
unfolding fill
fill_short s buf d h =
    let all' : min (128 - length buf) (length d) ≡ length d = omega arith in
    let not_full : (length (buf ++ d) == 128) ≡ false = ground (arith, length-append buf d) in
    rw (all', take_whole (length d) d (omega arith), not_full)
      (sym (absorb_short (length (buf ++ d)) s (buf ++ d) (omega (arith, length-append buf d))))

fill_long :
    (s : State) (buf d : List ℕ)
    → length buf < 128
    → 128 ≤ length buf + length d
    → fill s buf d ≡ absorb_all s (buf ++ d)
unfolding fill
fill_long s buf d h k =
    let n : ℕ = 128 - length buf in
    let taken : min (128 - length buf) (length d) ≡ n = omega arith in
    let whole : 128 ≡ length buf + n = omega arith in
    let first : take 128 (buf ++ d) ≡ buf ++ take n d =
      ap (λ (m : ℕ). take m (buf ++ d)) whole ∙ take-append buf d n in
    let rest : drop 128 (buf ++ d) ≡ drop n d =
      ap (λ (m : ℕ). drop m (buf ++ d)) whole ∙ drop-append buf d n in
    let full : (length (buf ++ take n d) == 128) ≡ true =
      (==_iff (length (buf ++ take n d)) 128).1
        (omega (arith, length-append buf (take n d), length-take n d)) in
    let goal : absorb_all (compress s (buf ++ take n d)) (drop n d) ≡ absorb_all s (buf ++ d) =
      sym (
        absorb_all_long s (buf ++ d) (omega (arith, length-append buf d))
        ∙ ap₂ (λ (b r : List ℕ). absorb_all (compress s b) r) first rest) in
    rw (taken, full) goal

absorb_buffer :
    (s : State) (buf d : List ℕ)
    → length buf < 128
    → if◌then◌else◌ (ltb 0 (length buf)) (fill s buf d) (absorb_all s d) ≡ absorb_all s (buf ++ d)
absorb_buffer s [] d h = refl
absorb_buffer s (b ∷ bs) d h =
    let filled : fill s (b ∷ bs) d ≡ absorb_all s (b ∷ bs ++ d) =
      elim (dec_lt (length (b ∷ bs) + length d) 128) [
        | yes short ↦ fill_short s (b ∷ bs) d short
        | no long ↦ fill_long s (b ∷ bs) d h (omega arith)
      ] in
    rw (lt→ltb 0 (length (b ∷ bs)) (omega arith)) filled

-- What `update` leaves after absorbing.
abbrev pub absorbed : ℕ → State × List ℕ → Sha512
absorbed total (s, rest) = record { state = s; buf = rest; total = total }

-- `update` absorbs the buffer and the data together.
pub update_lem :
    (st : Sha512) (d : List ℕ)
    → length st.buf < 128
    → update st d ≡ absorbed (u128 (st.total + length d)) (absorb_all st.state (st.buf ++ d))
unfolding update
update_lem st d h = ap (absorbed (u128 (st.total + length d))) (absorb_buffer st.state st.buf d h)

-- After a call of `update` less than a block is buffered.
pub length-update :
    (st : Sha512) (d : List ℕ) → length st.buf < 128 → length (update st d).buf < 128
length-update st d h =
    rw (update_lem st d h)
      (length-absorb (length (st.buf ++ d)) st.state (st.buf ++ d) (omega arith))

-- Two calls of `update` do what one call with all the data does, where less than a block of 128
-- bytes is buffered before them.
pub update-append :
    (st : Sha512) (x y : List ℕ) → length st.buf < 128 → update (update st x) y ≡ update st (x ++ y)
update-append st x y h =
    let r = absorb_all st.state (st.buf ++ x) in
    let mid : Sha512 = absorbed (u128 (st.total + length x)) r in
    let less : length r.1 < 128 =
      length-absorb (length (st.buf ++ x)) st.state (st.buf ++ x) (omega arith) in
    let joined : absorb_all r.0 (r.1 ++ y) ≡ absorb_all st.state (st.buf ++ (x ++ y)) =
      absorb_append (length (st.buf ++ x)) st.state (st.buf ++ x) y (omega arith)
      ∙ ap (absorb_all st.state) (append_assoc st.buf x y) in
    ap (λ (t : Sha512). update t y) (update_lem st x h)
    ∙ update_lem mid y less
    ∙ ap₂ absorbed (omega (arith, length-append x y)) joined
    ∙ sym (update_lem st (x ++ y) h)

-- ===== src/Trans/Parser/Reads/Steps.antt =====
-- The assertions on the helpers of trans/src/parser.rs that move the cursor.
use nmerkar.Base.{ℕ, suc, ◌≤◌, ◌≡◌, refl, ap, arith, true, false, List, [], ◌∷◌, Text, length}
use nmerkar.Base.Results.{ok}
use nmerkar.Trans.Token.{
  Kind, int, str, char, ident, punct, eof, is_kind, Token, is_punct, is_ident,
}
use nmerkar.Trans.Run.{◌>>◌}
use nmerkar.Trans.Lexer.Shapes.{is_shaped}
use nmerkar.Trans.Parser.{Parser, bump, advance, on_punct, on_ident, expect_punct, expect_ident}
use nmerkar.Trans.Parser.Reads.{
  Any, Ready, Sat, at, fail_at-Reads, forget_value, if-ReadsAt, le_suc, look-Reads, pure-Reads,
  Reads, ReadsAt, step_at, weaken_at,
}

advance-Sat :
    (u t : Token) (us : List Token) (c d : ℕ)
    → u ≡ t
    → is_kind t.kind eof ≡ false
    → Ready d (record { here = u; rest = us; loop_depth = c })
    → Sat 1 (λ v. (v ≡ t) × (is_shaped t ≡ true)) d (length us) (ok (u, advance u us c))
advance-Sat u t [] c d e h k =
    let same : is_kind u.kind eof ≡ is_kind t.kind eof = ap (λ v. is_kind v.kind eof) e in
    absurd (ground (arith, same, h, k))
advance-Sat u t (v ∷ us) c d e h k =
    let same : is_shaped u ≡ is_shaped t = ap is_shaped e in
    ((e, ground (arith, same, k)), omega arith, (ground (arith, k), k.1))

-- A step over a token that is not the last.
pub bump-ReadsAt :
    {d n : ℕ} (t : Token)
    → is_kind t.kind eof ≡ false
    → ReadsAt t 1 (λ u. (u ≡ t) × (is_shaped t ≡ true)) d d n bump
unfolding bump
bump-ReadsAt {d} {n} t h = record {
  run = λ s e lt r. advance-Sat s.here t s.rest s.loop_depth d e h r;
}

pub kind_not_last :
    (k m : Kind) → is_kind k m ≡ true → is_kind m eof ≡ false → is_kind k eof ≡ false
kind_not_last eof eof h e = cc
kind_not_last int m h e = refl
kind_not_last ident m h e = refl
kind_not_last str m h e = refl
kind_not_last char m h e = refl
kind_not_last punct m h e = refl
kind_not_last eof _ h e = absurd (ground arith)

advance_last :
    (t : Token) (us : List Token) (c d : ℕ)
    → Ready d (record { here = t; rest = us; loop_depth = c })
    → Sat 0 Any d (length us) (ok (t, advance t us c))
advance_last t [] c d k = (tt, omega arith, k)
advance_last t (v ∷ us) c d k = (tt, omega arith, (ground (arith, k), k.1))

-- A step over any token.
pub bump-Reads : {d n : ℕ} → Reads 0 Any d d n bump
unfolding bump
bump-Reads {d} = record { run = λ s lt r. advance_last s.here s.rest s.loop_depth d r }

-- A token that the parser looks for is not the last.
pub is_punct-not_last : (t : Token) (p : Text) → is_punct t p ≡ true → is_kind t.kind eof ≡ false
unfolding is_punct
is_punct-not_last t p h = kind_not_last t.kind punct (ground (arith, h)) refl

pub is_ident-not_last : (t : Token) (w : Text) → is_ident t w ≡ true → is_kind t.kind eof ≡ false
unfolding is_ident
is_ident-not_last t w h = kind_not_last t.kind ident (ground (arith, h)) refl

module _ {A : Type 0} {P : A → Type 0} where
  -- Over the current token, which is not the last.
  pub over :
      {j d e m n : ℕ} (t : Token) {x : Parser A}
      → j ≤ 1
      → n ≤ suc m
      → is_kind t.kind eof ≡ false
      → Reads 0 P d e m x
      → ReadsAt t j P d e n (bump >> x)
  over {j} {d} {e} {m} {n} t le lt h g = weaken_at le (step_at lt (bump-ReadsAt t h) (λ a q. g))

  pub over_shaped :
      {j d e m n : ℕ} (t : Token) {x : Parser A}
      → j ≤ 1
      → n ≤ suc m
      → is_kind t.kind eof ≡ false
      → (is_shaped t ≡ true → Reads 0 P d e m x)
      → ReadsAt t j P d e n (bump >> x)
  over_shaped {j} {d} {e} {m} {n} t le lt h g =
      weaken_at le (step_at lt (bump-ReadsAt t h) (λ a q. g q.1))

  -- Over the punctuation `p`, or on without it.
  pub on_punct-Reads :
      {j d e m n : ℕ} (p : Text) {x y : Parser A}
      → j ≤ 1
      → n ≤ suc m
      → Reads 0 P d e m x
      → Reads j P d e n y
      → Reads j P d e n (on_punct p x y)
  unfolding on_punct
  on_punct-Reads p le lt g h = look-Reads (λ t.
      if-ReadsAt (is_punct t p) _ _ (λ e. over t le lt (is_punct-not_last t p e) g) (λ e. at h))

  pub on_ident-Reads :
      {j d e m n : ℕ} (w : Text) {x y : Parser A}
      → j ≤ 1
      → n ≤ suc m
      → Reads 0 P d e m x
      → Reads j P d e n y
      → Reads j P d e n (on_ident w x y)
  unfolding on_ident
  on_ident-Reads w le lt g h = look-Reads (λ t.
      if-ReadsAt (is_ident t w) _ _ (λ e. over t le lt (is_ident-not_last t w e) g) (λ e. at h))

pub expect_punct-Reads : {d n : ℕ} (p : Text) → Reads 1 Any d d n (expect_punct p)
unfolding expect_punct
expect_punct-Reads {d} {n} p = look-Reads (λ t.
    if-ReadsAt (is_punct t p) _ _
      (λ e. over t (omega arith) (le_suc n) (is_punct-not_last t p e) (pure-Reads tt tt))
      (λ e. at (fail_at-Reads t _)))

pub expect_ident-Reads : {d n : ℕ} → Reads 1 Any d d n expect_ident
unfolding expect_ident
expect_ident-Reads = look-Reads (λ t.
    if-ReadsAt (is_kind t.kind ident) _ _
      (λ e. forget_value (bump-ReadsAt t (kind_not_last t.kind ident e refl)))
      (λ e. at (fail_at-Reads t _)))

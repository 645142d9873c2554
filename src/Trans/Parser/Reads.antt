-- ===== src/Trans/Parser/Reads.antt =====
-- Assertions on the parsers: from a stream of tokens at loop depth `d`, fewer than `n` of them
-- behind the current one, a parser ends with a positioned error, or `k` tokens further on in the
-- stream, at depth `e`, with a result that has the property `P`.
pub mod Steps
pub mod Exprs
pub mod Operands
pub mod Decls
pub mod Stmts
pub mod Programs
use nmerkar.Base.{
  ℕ, zero, suc, ◌+◌, ◌≤◌, ◌<◌, ◌≡◌, refl, sym, ap, arith, Bool, true, false, List, [], ◌∷◌, Text,
  if◌then◌else◌, length,
}
use nmerkar.Base.Results.{Result, ok, err}
use nmerkar.Trans.Token.{
  Kind, int, str, char, ident, punct, eof, is_kind, Token, is_punct, is_ident, Fault, failed,
  panicked, out_of_fuel,
}
use nmerkar.Trans.Run.{pure, ◌>>=◌, ◌>>◌}
use nmerkar.Trans.Lexer.Shapes.{is_shaped, is_stream}
use nmerkar.Trans.Parser.{
  State, Parser, look, look2, second, bump, advance, with_fuel, fail_at, on_punct, on_ident,
  expect_punct, expect_ident,
}

-- A state on a stream of tokens, at a loop depth.
abbrev pub Ready : ℕ → State → Type 0
Ready d s = (is_stream (s.here ∷ s.rest) ≡ true) × (s.loop_depth ≡ d)

module _ {A : Type 0} where
  -- An end that is no panic and not for want of fuel, from a state with `m` tokens ahead.
  abbrev pub Sat : ℕ → (A → Type 0) → ℕ → ℕ → Result Fault (A × State) → Type 0
  Sat k P e m (ok (a, s)) = P a × (length s.rest + k ≤ m) × Ready e s
  Sat k P e m (err (failed x)) = Unit {0}
  Sat k P e m (err panicked) = ⊥
  Sat k P e m (err out_of_fuel) = ⊥

  pub record Reads (k : ℕ) (P : A → Type 0) (d e n : ℕ) (p : Parser A) : Type 0 where
    pub run : (s : State) → length s.rest < n → Ready d s → Sat k P e (length s.rest) (p s)

  -- The same from a state whose current token is `t`.
  pub record ReadsAt (t : Token) (k : ℕ) (P : A → Type 0) (d e n : ℕ) (p : Parser A) : Type 0 where
    pub run :
        (s : State) → s.here ≡ t → length s.rest < n → Ready d s → Sat k P e (length s.rest) (p s)

  Sat-weaken :
      (P Q : A → Type 0) (k j e m n : ℕ) (r : Result Fault (A × State))
      → ((a : A) → P a → Q a)
      → m + j ≤ n + k
      → Sat k P e m r
      → Sat j Q e n r
  Sat-weaken P Q k j e m n (ok (a, s)) f h g = (f a g.0, omega (arith, g.1), g.2)
  Sat-weaken P Q k j e m n (err (failed x)) f h g = tt
  Sat-weaken P Q k j e m n (err panicked) f h g = g
  Sat-weaken P Q k j e m n (err out_of_fuel) f h g = g

module _ {A B : Type 0} where
  Sat->>= :
      (P : A → Type 0) (Q : B → Type 0) (k j e e2 m : ℕ) (r : Result Fault (A × State))
      (f : A → Parser B)
      → Sat k P e m r
      → ((a : A) (s : State)
          → P a
          → length s.rest + k ≤ m
          → Ready e s
          → Sat j Q e2 (length s.rest) (f a s))
      → Sat (k + j) Q e2 m (elim r [ err x ↦ err x | ok r ↦ f r.0 r.1 ])
  Sat->>= P Q k j e e2 m (ok (a, s)) f g h =
      Sat-weaken Q Q j (k + j) e2 (length s.rest) m (f a s) (λ b q. q) (omega (arith, g.1))
        (h a s g.0 g.1 g.2)
  Sat->>= P Q k j e e2 m (err (failed x)) f g h = tt
  Sat->>= P Q k j e e2 m (err panicked) f g h = g
  Sat->>= P Q k j e e2 m (err out_of_fuel) f g h = g

pub le_suc : (n : ℕ) → n ≤ suc n
le_suc n = omega arith

module _ {A B : Type 0} {P : A → Type 0} {Q : B → Type 0} where
  -- The first part moves on: what follows has a token less.
  pub step :
      {d e e2 m n : ℕ} {p : Parser A} {f : A → Parser B}
      → n ≤ suc m
      → Reads 1 P d e n p
      → ((a : A) → P a → Reads 0 Q e e2 m (f a))
      → Reads 1 Q d e2 n (p >>= f)
  step {d} {e} {e2} {m} {n} {p} {f} lq g h = record {
    run = λ s lt r.
        Sat->>= P Q 1 0 e e2 (length s.rest) (p s) f (g.run s lt r)
          (λ a s2 q le r2. (h a q).run s2 (omega arith) r2);
  }

  -- The first part moves on by `k` tokens at least.
  pub keep :
      {k d e e2 n : ℕ} {p : Parser A} {f : A → Parser B}
      → Reads k P d e n p
      → ((a : A) → P a → Reads 0 Q e e2 n (f a))
      → Reads k Q d e2 n (p >>= f)
  keep {k} {d} {e} {e2} {n} {p} {f} g h = record {
    run = λ s lt r.
        Sat-weaken Q Q (k + 0) k e2 (length s.rest) (length s.rest) ((p >>= f) s) (λ b q. q)
          (omega arith)
          (Sat->>= P Q k 0 e e2 (length s.rest) (p s) f (g.run s lt r)
            (λ a s2 q le r2. (h a q).run s2 (omega arith) r2));
  }

  -- What follows moves on.
  pub later :
      {k d e e2 n : ℕ} {p : Parser A} {f : A → Parser B}
      → Reads 0 P d e n p
      → ((a : A) → P a → Reads k Q e e2 n (f a))
      → Reads k Q d e2 n (p >>= f)
  later {k} {d} {e} {e2} {n} {p} {f} g h = record {
    run = λ s lt r.
        Sat-weaken Q Q (0 + k) k e2 (length s.rest) (length s.rest) ((p >>= f) s) (λ b q. q)
          (omega arith)
          (Sat->>= P Q 0 k e e2 (length s.rest) (p s) f (g.run s lt r)
            (λ a s2 q le r2. (h a q).run s2 (omega arith) r2));
  }

  pub step_at :
      {t : Token} {d e e2 m n : ℕ} {p : Parser A} {f : A → Parser B}
      → n ≤ suc m
      → ReadsAt t 1 P d e n p
      → ((a : A) → P a → Reads 0 Q e e2 m (f a))
      → ReadsAt t 1 Q d e2 n (p >>= f)
  step_at {t} {d} {e} {e2} {m} {n} {p} {f} lq g h = record {
    run = λ s q lt r.
        Sat->>= P Q 1 0 e e2 (length s.rest) (p s) f (g.run s q lt r)
          (λ a s2 q le r2. (h a q).run s2 (omega arith) r2);
  }

abbrev pub Any : {A : Type 0} → A → Type 0
Any a = Unit {0}

module _ {A : Type 0} {P : A → Type 0} where
  pub relax : {d e n : ℕ} {p : Parser A} → Reads 1 P d e n p → Reads 0 P d e n p
  relax {d} {e} {n} {p} g = record {
    run = λ s lt r.
        Sat-weaken P P 1 0 e (length s.rest) (length s.rest) (p s) (λ a q. q) (omega arith)
          (g.run s lt r);
  }

  pub weaken_at :
      {t : Token} {j d e n : ℕ} {p : Parser A}
      → j ≤ 1
      → ReadsAt t 1 P d e n p
      → ReadsAt t j P d e n p
  weaken_at {t} {j} {d} {e} {n} {p} le g = record {
    run = λ s q lt r.
        Sat-weaken P P 1 j e (length s.rest) (length s.rest) (p s) (λ a x. x) (omega arith)
          (g.run s q lt r);
  }

  pub forget_value :
      {t : Token} {k d e n : ℕ} {p : Parser A} → ReadsAt t k P d e n p → ReadsAt t k Any d e n p
  forget_value {t} {k} {d} {e} {n} {p} g = record {
    run = λ s q lt r.
        Sat-weaken P Any k k e (length s.rest) (length s.rest) (p s) (λ a x. tt) (omega arith)
          (g.run s q lt r);
  }

  pub shrink : {k d e m n : ℕ} {p : Parser A} → m ≤ n → Reads k P d e n p → Reads k P d e m p
  shrink le g = record { run = λ s lt r. g.run s (omega arith) r }

  pub at : {t : Token} {k d e n : ℕ} {p : Parser A} → Reads k P d e n p → ReadsAt t k P d e n p
  at g = record { run = λ s q. g.run s }

  pub no_fuel : {k d e : ℕ} {p : Parser A} → Reads k P d e 0 p
  no_fuel = record { run = λ s lt r. absurd (omega arith) }

  pub pure-Reads : {d n : ℕ} (a : A) → P a → Reads 0 P d d n (pure a)
  pure-Reads a q = record { run = λ s lt r. (q, omega arith, r) }

  pub fail_at-Reads : {k d e n : ℕ} (t : Token) (m : Text) → Reads k P d e n (fail_at t m)
  fail_at-Reads t m = record { run = λ s lt r. tt }

  pub look-Reads :
      {k d e n : ℕ} {f : Token → Parser A}
      → ((t : Token) → ReadsAt t k P d e n (f t))
      → Reads k P d e n (look >>= f)
  unfolding look
  look-Reads h = record { run = λ s lt r. (h s.here).run s refl lt r }

  pub look2-Reads :
      {k d e n : ℕ} {t : Token} {f : Token → Parser A}
      → ((u : Token) → ReadsAt t k P d e n (f u))
      → ReadsAt t k P d e n (look2 >>= f)
  unfolding look2
  look2-Reads h = record { run = λ s q. (h (second s.here s.rest)).run s q }

  -- A loop gets as much fuel as its bound allows.
  pub with_fuel-Reads :
      {k d e n : ℕ} {p : ℕ → Parser A}
      → ((f : ℕ) → f ≤ n → Reads k P d e f (p f))
      → Reads k P d e n (with_fuel p)
  with_fuel-Reads h = record {
    run = λ s lt r. (h (suc (length s.rest)) (omega arith)).run s (omega arith) r;
  }

  pub if-ReadsAt :
      {t : Token} {k d e n : ℕ} (c : Bool) (x y : Parser A)
      → (c ≡ true → ReadsAt t k P d e n x)
      → (c ≡ false → ReadsAt t k P d e n y)
      → ReadsAt t k P d e n (if c then x else y)
  if-ReadsAt true x y g h = g refl
  if-ReadsAt false x y g h = h refl

  pub if-Reads :
      {k d e n : ℕ} (c : Bool) (x y : Parser A)
      → (c ≡ true → Reads k P d e n x)
      → (c ≡ false → Reads k P d e n y)
      → Reads k P d e n (if c then x else y)
  if-Reads true x y g h = g refl
  if-Reads false x y g h = h refl

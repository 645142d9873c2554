-- ===== src/Trans/Parser/Reads/Operands.antt =====
-- trans/src/parser.rs: the assertions on the parsers of operands, and on `expr`.
use nmerkar.Base.{
  ℕ, zero, suc, ◌≤◌, ◌≡◌, refl, sym, ap, ◌∙◌, arith, true, false, ◌&&◌, ◌||◌, Option, none, some,
  Text, codes, text_eq, if◌then◌else◌, and_iff,
}
use nmerkar.Trans.Token.{Kind, int, str, char, ident, punct, eof, is_kind, Token, is_punct}
use nmerkar.Trans.Run.{pure, ◌>>=◌, ◌>>◌}
use nmerkar.Trans.Syntax.{Expr, arg, no_args, UnOp, unary, pre, char_lit, assign}
use nmerkar.Trans.Lexer.Shapes.{is_shaped, has_shape}
use nmerkar.Trans.Parser.{Parser, bump, expect_punct, expect_ident}
use nmerkar.Trans.Parser.Formed.{formed_expr}
use nmerkar.Trans.Parser.Exprs.{
  more_args, call_args, name_expr, ident_expr, constant, is_step, delta_of, compound, is_assign_op,
  primary_at, primary, step_of, name_of, sign, postfix, unary_loop, unary_expr, assignment,
  expr_loop, expr,
}
use nmerkar.Trans.Parser.Reads.{
  Reads, ReadsAt, keep, step_at, relax, weaken_at, at, shrink, no_fuel, pure-Reads, fail_at-Reads,
  look-Reads, look2-Reads, with_fuel-Reads, if-ReadsAt, if-Reads,
}
use nmerkar.Trans.Parser.Reads.Steps.{
  bump-Reads, over_shaped, bump-ReadsAt, over, kind_not_last, on_punct-Reads, expect_punct-Reads,
  expect_ident-Reads,
}
use nmerkar.Trans.Parser.Reads.Exprs.{Formed, FormedArgs, logical_or-Reads, two_join}

module _ {d n : ℕ} {e : Parser Expr} (g : Reads 1 Formed d d n e) where
  more_args-Reads : (f : ℕ) → f ≤ n → Reads 0 FormedArgs d d f (more_args f e)
  unfolding more_args formed_expr
  more_args-Reads zero le = no_fuel
  more_args-Reads (suc f) le =
      on_punct-Reads _ (omega arith) (omega arith)
        (keep (relax (shrink (omega arith) g)) (λ a q.
          keep (more_args-Reads f (omega arith))
            (λ xs w. pure-Reads (arg a xs) (ground (arith, q, w)))))
        (pure-Reads no_args refl)

  call_args-Reads : Reads 0 FormedArgs d d n (call_args e)
  unfolding call_args formed_expr
  call_args-Reads = look-Reads (λ t.
      if-ReadsAt (is_punct t (codes ")")) _ _ (λ h. at (pure-Reads no_args refl))
        (λ h. at (
          keep (relax g) (λ a q.
            keep (with_fuel-Reads more_args-Reads)
              (λ xs w. pure-Reads (arg a xs) (ground (arith, q, w)))))))

  -- An expression behind one punctuation and in front of another.
  enclosed :
      (p q : Text) (node : Expr → Expr)
      → ((x : Expr) → formed_expr (node x) ≡ formed_expr x)
      → Reads 0 Formed d d n (do expect_punct p; x ← e; expect_punct q; pure (node x))
  enclosed p q node h = keep (relax (expect_punct-Reads p)) (λ u v.
      keep (relax g)
        (λ x w. keep (relax (expect_punct-Reads q)) (λ u2 v2. pure-Reads (node x) (h x ∙ w))))

  name_expr-Reads : (t : Token) → Reads 0 Formed d d n (name_expr e t)
  unfolding name_expr formed_expr
  name_expr-Reads t =
      on_punct-Reads _ (omega arith) (omega arith)
        (keep call_args-Reads (λ xs w. keep (relax (expect_punct-Reads _)) (λ u v. pure-Reads _ w)))
        (on_punct-Reads _ (omega arith) (omega arith)
          (keep (relax g) (λ x w. keep (relax (expect_punct-Reads _)) (λ u v. pure-Reads _ w)))
          (pure-Reads _ refl))

  ident_expr-Reads :
      (t : Token) (o : Option Expr)
      → ((x : Expr) → o ≡ some x → Formed x)
      → Reads 0 Formed d d n (ident_expr e t o)
  unfolding ident_expr formed_expr
  ident_expr-Reads t (some x) h = pure-Reads x (h x refl)
  ident_expr-Reads t none h =
      if-Reads (text_eq t.text (codes "argv")) _ _ (λ k. enclosed _ _ _ (λ x. refl))
        (λ k.
          if-Reads (text_eq t.text (codes "__byte")) _ _ (λ k2. enclosed _ _ _ (λ x. refl))
            (λ k2. name_expr-Reads t))

constant-Formed : (s : Text) (l c : ℕ) (x : Expr) → constant s l c ≡ some x → Formed x
unfolding formed_expr
constant-Formed s l c x h = ground (arith, h)

shape_of : (t : Token) (k : Kind) → t.kind ≡ k → is_shaped t ≡ true → has_shape k t.text ≡ true
shape_of t k e h = sym (ap (λ k. has_shape k t.text) e) ∙ h

not_last : (t : Token) {k : Kind} → t.kind ≡ k → is_kind k eof ≡ false → is_kind t.kind eof ≡ false
not_last t q h = ap (λ k. is_kind k eof) q ∙ h

step_of-Reads :
    {d n : ℕ} (t : Token) (o : Option Text)
    → is_kind t.kind eof ≡ false
    → ReadsAt t 0 Formed d d (suc n) (step_of t o)
unfolding formed_expr
step_of-Reads {d} {n} t (some m) h =
    over {m = n} t (omega arith) (omega arith) h (pure-Reads _ refl)
step_of-Reads t none h = at (fail_at-Reads t _)

module _ {d n : ℕ} {e : Parser Expr} (g : Reads 1 Formed d d n e) where
  primary_at-Reads :
      (t : Token) (k : Kind) → t.kind ≡ k → ReadsAt t 1 Formed d d (suc n) (primary_at e t k)
  unfolding primary_at formed_expr
  primary_at-Reads t int q =
      over {m = n} t (omega arith) (omega arith) (not_last t q refl) (pure-Reads _ refl)
  primary_at-Reads t str q =
      over {m = n} t (omega arith) (omega arith) (not_last t q refl) (pure-Reads _ refl)
  primary_at-Reads t char q =
      over_shaped {m = n} t (omega arith) (omega arith) (not_last t q refl)
        (λ w. pure-Reads (char_lit t.text t.line t.col) (shape_of t char q w))
  primary_at-Reads t punct q =
      if-ReadsAt (text_eq t.text (codes "(")) _ _
        (λ h.
          over {m = n} t (omega arith) (omega arith) (not_last t q refl)
            (keep (relax g) (λ x w. keep (relax (expect_punct-Reads _)) (λ u v. pure-Reads x w))))
        (λ h. at (fail_at-Reads t _))
  primary_at-Reads t ident q =
      over {m = n} t (omega arith) (omega arith) (not_last t q refl)
        (ident_expr-Reads g t (constant t.text t.line t.col) (constant-Formed t.text t.line t.col))
  primary_at-Reads t eof q = at (fail_at-Reads t _)

  primary-Reads : Reads 1 Formed d d (suc n) (primary e)
  unfolding primary
  primary-Reads = look-Reads (λ t. primary_at-Reads t t.kind refl)

  postfix-Reads : Reads 1 Formed d d (suc n) (postfix e)
  unfolding postfix formed_expr
  postfix-Reads = keep primary-Reads (λ x w. look-Reads (λ t.
      if-ReadsAt (is_step t) _ _ (λ h. step_of-Reads t (name_of x) (two_join t _ _ h))
        (λ h. at (pure-Reads x w))))

  sign_round :
      {f : ℕ} {loop : Parser Expr} (t : Token) (o : Option UnOp)
      → is_kind t.kind eof ≡ false
      → f ≤ n
      → Reads 0 Formed d d f loop
      → ReadsAt t 1 Formed d d (suc f) (elim o [
        | some op ↦ do _ ← bump; x ← loop; pure (unary op x t.line t.col)
        | none ↦
            if text_eq t.text (codes "+")
            then (bump >> loop)
            else if is_step t
            then (do _ ← bump; m ← expect_ident; pure (pre m.text (delta_of t) t.line t.col))
            else postfix e
      ])
  unfolding formed_expr
  sign_round t (some op) h le r =
      over t (omega arith) (omega arith) h (keep r (λ x w. pure-Reads _ w))
  sign_round {f} t none h le r =
      if-ReadsAt (text_eq t.text (codes "+")) _ _ (λ k. over t (omega arith) (omega arith) h r)
        (λ k.
          if-ReadsAt (is_step t) _ _
            (λ k2.
              over {m = f} t (omega arith) (omega arith) h
                (keep (relax expect_ident-Reads) (λ u v. pure-Reads _ refl)))
            (λ k2. at (shrink (omega arith) postfix-Reads)))

  unary_loop-Reads : (f : ℕ) → f ≤ suc n → Reads 1 Formed d d f (unary_loop f e)
  unfolding unary_loop formed_expr
  unary_loop-Reads zero le = no_fuel
  unary_loop-Reads (suc f) le = look-Reads (λ t.
      if-ReadsAt (is_kind t.kind punct) _ _
        (λ h.
          sign_round t (sign t.text) (kind_not_last t.kind punct h refl) (omega arith)
            (relax (unary_loop-Reads f (omega arith))))
        (λ h. at (shrink le postfix-Reads)))

  unary_expr-Reads : Reads 1 Formed d d (suc n) (unary_expr e)
  unfolding unary_expr
  unary_expr-Reads = with_fuel-Reads unary_loop-Reads

  assignment-Reads : Reads 1 Formed d d (suc n) (assignment e)
  unfolding assignment formed_expr
  assignment-Reads = look-Reads (λ t. look2-Reads (λ u.
      if-ReadsAt (is_kind t.kind ident && (is_kind u.kind punct && is_assign_op u.text)) _ _
        (λ h. weaken_at (omega arith) (
          step_at {m = n} (omega arith)
            (bump-ReadsAt t (kind_not_last t.kind ident ((and_iff _ _).0 h).0 refl))
            (λ name w. keep bump-Reads (λ op w2.
              if-Reads (text_eq op.text (codes "/=") || text_eq op.text (codes "%=")) _ _
                (λ k. fail_at-Reads op (codes "no division in subset"))
                (λ k. keep (relax g) (λ x w3.
                  pure-Reads (assign name.text (compound op.text) x name.line name.col) w3))))))
        (λ h. at (logical_or-Reads unary_expr-Reads))))

module _ {d : ℕ} where
  expr_loop-Reads : (f : ℕ) → Reads 1 Formed d d f (expr_loop f)
  unfolding expr_loop
  expr_loop-Reads zero = no_fuel
  expr_loop-Reads (suc f) = assignment-Reads (expr_loop-Reads f)

  -- An expression takes a token at least.
  pub expr-Reads : {n : ℕ} → Reads 1 Formed d d n expr
  unfolding expr
  expr-Reads = with_fuel-Reads (λ f le. expr_loop-Reads f)

-- ===== src/Trans/Parser/Reads/Decls.antt =====
-- trans/src/parser.rs: the assertions on the parsers of statements, functions and programs.
use nmerkar.Base.{
  ℕ, zero, suc, ◌≡◌, refl, arith, Bool, true, false, [], ◌∷◌, none, some, codes, all, and_iff,
}
use nmerkar.Trans.Token.{ident, eof, is_kind, Token, is_punct, is_type_word}
use nmerkar.Trans.Run.{◌>>=◌}
use nmerkar.Trans.Syntax.{Stmt, decl, return, Stmts}
use nmerkar.Trans.Parser.{
  Parser, type_spec, type_spec_loop, is_type_part, enter_loop, leave_loop, depth,
}
use nmerkar.Trans.Parser.Formed.{formed_option, formed_decl, formed_init, formed_stmt, formed_stmts}
use nmerkar.Trans.Parser.Stmts.{
  initializer, declarator, more_declarators, declaration, return_stmt, condition, for_init,
  for_cond, for_post,
}
use nmerkar.Trans.Parser.Reads.{
  Reads, Any, keep, later, relax, at, no_fuel, pure-Reads, look-Reads, with_fuel-Reads, if-ReadsAt,
}
use nmerkar.Trans.Parser.Reads.Steps.{
  bump-Reads, over, kind_not_last, is_punct-not_last, on_punct-Reads, expect_punct-Reads,
  expect_ident-Reads,
}
use nmerkar.Trans.Parser.Reads.Exprs.{Formed}
use nmerkar.Trans.Parser.Reads.Operands.{expr-Reads}

-- A loop is open at depth `d`.
abbrev pub inside : ℕ → Bool
inside zero = false
inside (suc d) = true

abbrev pub FormedStmt : ℕ → Stmt → Type 0
FormedStmt d s = formed_stmt (inside d) s ≡ true

abbrev pub FormedStmts : ℕ → Stmts → Type 0
FormedStmts d ss = formed_stmts (inside d) ss ≡ true

pub enter_loop-Reads : {d n : ℕ} → Reads 0 Any d (suc d) n enter_loop
unfolding enter_loop
enter_loop-Reads = record { run = λ s lt r. (tt, omega arith, (r.0, omega (arith, r.1))) }

pub leave_loop-Reads : {d n : ℕ} → Reads 0 Any (suc d) d n leave_loop
unfolding leave_loop
leave_loop-Reads = record { run = λ s lt r. (tt, omega arith, (r.0, omega (arith, r.1))) }

pub depth-Reads :
    {A : Type 0} {P : A → Type 0} {k d e n : ℕ} {f : ℕ → Parser A}
    → ((c : ℕ) → c ≡ d → Reads k P d e n (f c))
    → Reads k P d e n (depth >>= f)
unfolding depth
depth-Reads h = record { run = λ s lt r. (h s.loop_depth r.1).run s lt r }

pub is_type_word-not_last : (t : Token) → is_type_word t ≡ true → is_kind t.kind eof ≡ false
unfolding is_type_word
is_type_word-not_last t h = kind_not_last t.kind ident ((and_iff _ _).0 h).0 refl

is_type_part-not_last : (t : Token) → is_type_part t ≡ true → is_kind t.kind eof ≡ false
is_type_part-not_last t h =
    ground (arith, h, is_type_word-not_last t, is_punct-not_last t (codes "*"))

module _ {d : ℕ} where
  type_spec_loop-Reads : (f : ℕ) → Reads 0 Any d d f (type_spec_loop f)
  unfolding type_spec_loop
  type_spec_loop-Reads zero = no_fuel
  type_spec_loop-Reads (suc f) = look-Reads (λ t.
      if-ReadsAt (is_type_part t) _ _
        (λ h.
          over t (omega arith) (omega arith) (is_type_part-not_last t h) (type_spec_loop-Reads f))
        (λ h. at (pure-Reads tt tt)))

  pub type_spec-Reads : {n : ℕ} → Reads 0 Any d d n type_spec
  unfolding type_spec
  type_spec-Reads = with_fuel-Reads (λ f le. type_spec_loop-Reads f)

  initializer-Reads : {n : ℕ} → Reads 0 (λ o. formed_option o ≡ true) d d n initializer
  unfolding initializer
  initializer-Reads {n} =
      on_punct-Reads {m = n} _ (omega arith) (omega arith)
        (keep (relax expr-Reads) (λ e q. pure-Reads (some e) q)) (pure-Reads none refl)

  declarator-Reads : {n : ℕ} → Reads 1 (λ x. formed_decl x ≡ true) d d n declarator
  unfolding declarator
  declarator-Reads = keep expect_ident-Reads (λ t q. keep initializer-Reads (λ i w. pure-Reads _ w))

  more_declarators-Reads :
      (f : ℕ) → Reads 0 (λ xs. all formed_decl xs ≡ true) d d f (more_declarators f)
  unfolding more_declarators
  more_declarators-Reads zero = no_fuel
  more_declarators-Reads (suc f) =
      on_punct-Reads _ (omega arith) (omega arith)
        (keep (relax declarator-Reads) (λ x q.
          keep (more_declarators-Reads f) (λ xs w. pure-Reads (x ∷ xs) (ground (arith, q, w)))))
        (pure-Reads [] refl)

  pub declaration-Reads : {n : ℕ} → Reads 1 (FormedStmt d) d d n declaration
  unfolding declaration formed_stmt
  declaration-Reads = later type_spec-Reads (λ u v. keep declarator-Reads (λ x q.
      keep (with_fuel-Reads (λ f le. more_declarators-Reads f)) (λ xs w.
        keep (relax (expect_punct-Reads _))
          (λ u2 v2. pure-Reads (decl (x ∷ xs)) (ground (arith, q, w))))))

  pub return_stmt-Reads : {n : ℕ} → Reads 1 (FormedStmt d) d d n return_stmt
  unfolding return_stmt formed_stmt
  return_stmt-Reads = later bump-Reads (λ kw u. keep expr-Reads (λ e q.
      keep (relax (expect_punct-Reads (codes ";")))
        (λ u2 v2. pure-Reads (return e kw.line kw.col) q)))

  pub condition-Reads : {n : ℕ} → Reads 1 Formed d d n condition
  unfolding condition
  condition-Reads = keep (expect_punct-Reads _) (λ u v.
      keep (relax expr-Reads)
        (λ e q. keep (relax (expect_punct-Reads _)) (λ u2 v2. pure-Reads e q)))

  pub for_init-Reads : {n : ℕ} → Reads 1 (λ o. formed_init o ≡ true) d d n for_init
  unfolding for_init
  for_init-Reads {n} = on_punct-Reads {m = n} _ (omega arith) (omega arith) (pure-Reads none refl) (
      look-Reads (λ t.
        if-ReadsAt (is_type_word t) _ _
          (λ h. at (
            later type_spec-Reads (λ u v. keep expect_ident-Reads (λ m q.
              keep (relax (expect_punct-Reads _)) (λ u2 v2.
                keep (relax expr-Reads)
                  (λ e w. keep (relax (expect_punct-Reads _)) (λ u3 v3. pure-Reads _ w)))))))
          (λ h. at (
            keep expr-Reads
              (λ e w. keep (relax (expect_punct-Reads _)) (λ u3 v3. pure-Reads _ w))))))

  pub for_cond-Reads : {n : ℕ} → Reads 1 (λ o. formed_option o ≡ true) d d n for_cond
  unfolding for_cond
  for_cond-Reads {n} =
      on_punct-Reads {m = n} _ (omega arith) (omega arith) (pure-Reads none refl)
        (keep expr-Reads (λ e w. keep (relax (expect_punct-Reads _)) (λ u v. pure-Reads _ w)))

  pub for_post-Reads : {n : ℕ} → Reads 0 (λ o. formed_option o ≡ true) d d n for_post
  unfolding for_post
  for_post-Reads = look-Reads (λ t.
      if-ReadsAt (is_punct t (codes ")")) _ _ (λ h. at (pure-Reads none refl))
        (λ h. at (keep (relax expr-Reads) (λ e w. pure-Reads (some e) w))))

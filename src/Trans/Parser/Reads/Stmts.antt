-- ===== src/Trans/Parser/Reads/Stmts.antt =====
-- trans/src/parser.rs: the assertions on the parsers of statements.
use nmerkar.Base.{
  ℕ, zero, suc, ◌≤◌, ◌≡◌, refl, arith, true, false, ◌&&◌, not, Text, codes, text_eq, ◌==◌,
}
use nmerkar.Trans.Token.{ident, eof, is_kind, Token, is_punct, is_ident, is_type_word}
use nmerkar.Trans.Syntax.{
  Stmt, if_then, if_else, while, do_while, for, break, continue, block, expr, empty, no_stmts, stmt,
}
use nmerkar.Trans.Parser.{Parser}
use nmerkar.Trans.Parser.Formed.{formed_stmt, formed_stmts}
use nmerkar.Trans.Parser.Stmts.{
  if_stmt, loop_body, while_stmt, do_stmt, for_stmt, jump, block_loop, block_stmts, plain_stmt,
  word_stmt, stmt_of, stmt_loop,
}
use nmerkar.Trans.Parser.Reads.{
  Reads, ReadsAt, step, keep, later, relax, at, shrink, no_fuel, pure-Reads, fail_at-Reads,
  look-Reads, with_fuel-Reads, if-ReadsAt, if-Reads,
}
use nmerkar.Trans.Parser.Reads.Steps.{
  bump-Reads, over, kind_not_last, is_punct-not_last, on_ident-Reads, expect_punct-Reads,
}
use nmerkar.Trans.Parser.Reads.Decls.{
  inside, FormedStmt, FormedStmts, enter_loop-Reads, leave_loop-Reads, depth-Reads,
  declaration-Reads, return_stmt-Reads, condition-Reads, for_init-Reads, for_cond-Reads,
  for_post-Reads,
}
use nmerkar.Trans.Parser.Reads.Operands.{expr-Reads}

inside_of : (c d : ℕ) → c ≡ d → (c == 0) ≡ false → inside d ≡ true
inside_of c zero e h = absurd (ground (arith, e, h))
inside_of c (suc d) e h = refl

module _ {d n : ℕ} {s : Parser Stmt} (g : (d : ℕ) → Reads 1 (FormedStmt d) d d n s) where
  loop_body-Reads : Reads 0 (λ b. formed_stmt true b ≡ true) d d n (loop_body s)
  unfolding loop_body
  loop_body-Reads =
      keep enter_loop-Reads
        (λ u v. keep (relax (g (suc d))) (λ b q. keep leave_loop-Reads (λ u2 v2. pure-Reads b q)))

  if_stmt-Reads :
      (t : Token) → is_kind t.kind eof ≡ false → ReadsAt t 1 (FormedStmt d) d d (suc n) (if_stmt s)
  unfolding if_stmt formed_stmt
  if_stmt-Reads t h = over {m = n} t (omega arith) (omega arith) h (
      keep (relax condition-Reads) (λ c q. keep (relax (g d)) (λ a w.
        on_ident-Reads {m = n} _ (omega arith) (omega arith)
          (keep (relax (g d)) (λ b w2. pure-Reads (if_else c a b) (ground (arith, q, w, w2))))
          (pure-Reads (if_then c a) (ground (arith, q, w))))))

  while_stmt-Reads :
      (t : Token)
      → is_kind t.kind eof ≡ false
      → ReadsAt t 1 (FormedStmt d) d d (suc n) (while_stmt s)
  unfolding while_stmt formed_stmt
  while_stmt-Reads t h = over {m = n} t (omega arith) (omega arith) h (
      keep (relax condition-Reads)
        (λ c q. keep loop_body-Reads (λ b w. pure-Reads (while c b) (ground (arith, q, w)))))

  do_stmt-Reads :
      (t : Token) → is_kind t.kind eof ≡ false → ReadsAt t 1 (FormedStmt d) d d (suc n) (do_stmt s)
  unfolding do_stmt formed_stmt
  do_stmt-Reads t h = over {m = n} t (omega arith) (omega arith) h (
      keep loop_body-Reads (λ b w. look-Reads (λ u.
        if-ReadsAt (not (is_ident u (codes "while"))) _ _
          (λ k. at (fail_at-Reads u (codes "expected 'while' after do-body")))
          (λ k. at (
            keep bump-Reads (λ u2 v2. keep (relax condition-Reads) (λ c q.
              keep (relax (expect_punct-Reads (codes ";")))
                (λ u3 v3. pure-Reads (do_while b c) (ground (arith, q, w))))))))))

  for_stmt-Reads :
      (t : Token) → is_kind t.kind eof ≡ false → ReadsAt t 1 (FormedStmt d) d d (suc n) (for_stmt s)
  unfolding for_stmt formed_stmt
  for_stmt-Reads t h = over {m = n} t (omega arith) (omega arith) h (
      keep (relax (expect_punct-Reads (codes "("))) (λ u v. keep (relax for_init-Reads) (λ i qi.
        keep (relax for_cond-Reads) (λ c qc. keep for_post-Reads (λ p qp.
          keep (relax (expect_punct-Reads (codes ")"))) (λ u2 v2.
            keep loop_body-Reads
              (λ b w. pure-Reads (for i c p b) (ground (arith, qi, qc, qp, w)))))))))

  jump-Reads :
      (t : Token) (message : Text) (b : Stmt)
      → is_kind t.kind eof ≡ false
      → (inside d ≡ true → FormedStmt d b)
      → ReadsAt t 1 (FormedStmt d) d d (suc n) (jump t message b)
  unfolding jump
  jump-Reads t message b h f = over {m = n} t (omega arith) (omega arith) h (
      keep (relax (expect_punct-Reads (codes ";"))) (λ u v. depth-Reads (λ c e.
        if-Reads (c == 0) _ _ (λ k. fail_at-Reads t message)
          (λ k. pure-Reads b (f (inside_of c d e k))))))

  block_loop-Reads : (f : ℕ) → f ≤ n → Reads 0 (FormedStmts d) d d f (block_loop s f)
  unfolding block_loop formed_stmts
  block_loop-Reads zero le = no_fuel
  block_loop-Reads (suc f) le = look-Reads (λ t.
      if-ReadsAt (not (is_punct t (codes "}")) && not (is_kind t.kind eof)) _ _
        (λ h. at (
          relax (
            step (omega arith) (shrink le (g d)) (λ a q.
              keep (block_loop-Reads f (omega arith))
                (λ ss w. pure-Reads (stmt a ss) (ground (arith, q, w)))))))
        (λ h. at (pure-Reads no_stmts refl)))

  pub block_stmts-Reads : Reads 1 (FormedStmts d) d d n (block_stmts s)
  unfolding block_stmts
  block_stmts-Reads =
      later (with_fuel-Reads block_loop-Reads)
        (λ ss q. keep (expect_punct-Reads (codes "}")) (λ u v. pure-Reads ss q))

  plain_stmt-Reads : (t : Token) → ReadsAt t 1 (FormedStmt d) d d (suc n) (plain_stmt s t)
  unfolding plain_stmt formed_stmt
  plain_stmt-Reads t =
      if-ReadsAt (is_punct t (codes "{")) _ _
        (λ h.
          over {m = n} t (omega arith) (omega arith) (is_punct-not_last t _ h)
            (keep (relax block_stmts-Reads) (λ ss q. pure-Reads (block ss) q)))
        (λ h.
          if-ReadsAt (is_punct t (codes ";")) _ _
            (λ k.
              over {m = n} t (omega arith) (omega arith) (is_punct-not_last t _ k)
                (pure-Reads empty refl))
            (λ k. at (
              keep expr-Reads (λ e q.
                keep (relax (expect_punct-Reads (codes ";"))) (λ u v. pure-Reads (expr e) q)))))

  word_stmt-Reads :
      (t : Token)
      → is_kind t.kind eof ≡ false
      → ReadsAt t 1 (FormedStmt d) d d (suc n) (word_stmt s t)
  unfolding word_stmt formed_stmt
  word_stmt-Reads t h =
      if-ReadsAt (text_eq t.text (codes "return")) _ _ (λ k. at return_stmt-Reads)
        (λ k.
          if-ReadsAt (text_eq t.text (codes "if")) _ _ (λ k. if_stmt-Reads t h)
            (λ k.
              if-ReadsAt (text_eq t.text (codes "while")) _ _ (λ k. while_stmt-Reads t h)
                (λ k.
                  if-ReadsAt (text_eq t.text (codes "for")) _ _ (λ k. for_stmt-Reads t h)
                    (λ k.
                      if-ReadsAt (text_eq t.text (codes "do")) _ _ (λ k. do_stmt-Reads t h)
                        (λ k.
                          if-ReadsAt (text_eq t.text (codes "break")) _ _
                            (λ k. jump-Reads t _ (break t.line t.col) h (λ i. i))
                            (λ k.
                              if-ReadsAt (text_eq t.text (codes "continue")) _ _
                                (λ k. jump-Reads t _ (continue t.line t.col) h (λ i. i))
                                (λ k. plain_stmt-Reads t)))))))

  stmt_of-Reads : Reads 1 (FormedStmt d) d d (suc n) (stmt_of s)
  unfolding stmt_of
  stmt_of-Reads = look-Reads (λ t.
      if-ReadsAt (is_type_word t) _ _ (λ h. at declaration-Reads)
        (λ h.
          if-ReadsAt (is_kind t.kind ident) _ _
            (λ k. word_stmt-Reads t (kind_not_last t.kind ident k refl)) (λ k. plain_stmt-Reads t)))

pub stmt_loop-Reads : (f d : ℕ) → Reads 1 (FormedStmt d) d d f (stmt_loop f)
unfolding stmt_loop
stmt_loop-Reads zero d = no_fuel
stmt_loop-Reads (suc f) d = stmt_of-Reads (stmt_loop-Reads f)

-- ===== src/Trans/Emit/Kept/Lists.antt =====
-- trans/src/emit.rs: the emitter of statements on what the parser gives.
use nmerkar.Base.{◌+◌, refl, arith, ◌≡◌, Bool, true, false, Option, none, some, codes, and_iff}
use nmerkar.Trans.Run.{pure, ◌>>=◌, get}
use nmerkar.Trans.Syntax.{
  Expr, ForInit, init_decl, init_expr, Stmt, decl, return, if_then, if_else, while, do_while, for,
  break, continue, block, expr, empty, Stmts, no_stmts, stmt,
}
use nmerkar.Trans.Parser.Formed.{formed_expr, formed_option, formed_init, formed_stmt, formed_stmts}
use nmerkar.Trans.Emit.{ListCtx, Env, Buf, empty_buf, add_code}
use nmerkar.Trans.Emit.Stmts.{
  Emits, put_if, put_if_else, put_while, put_do_while, put_for_init, put_for_cond, put_for_post,
  put_for, put_stmt, put_stmts,
}
use nmerkar.Trans.Emit.Words.{
  named, continue_words, with_post, post_labels, if_out, if_else_out, while_out, do_start,
  do_while_out,
}
use nmerkar.Trans.Emit.Counts.{body_guards, init_slots, labels_of, labels_in, slots_of, slots_in}
use nmerkar.Trans.Emit.Kept.Bodies.{AllKeep, OneKeeps, list-Keeps, put_body-Keeps, loop_body-Keeps}
use nmerkar.Trans.Emit.Kept.{
  Ends, Kept-refl, Keeps, exactly, pure-Keeps, >>=-Keeps, with_hoisted-Keeps, fresh_label-Keeps,
  put_expr-Keeps, declare-Keeps, put_init-Keeps, put_decls-Keeps,
}

put_if-Keeps :
    (inside : Bool) (e : Expr) (s : Stmt) (one : Emits) (b : Buf)
    → formed_expr e ≡ true
    → formed_stmt inside s ≡ true
    → OneKeeps s one
    → Keeps (1 + (labels_of s + body_guards s)) (slots_of s) (put_if e s one b)
unfolding put_if
put_if-Keeps inside e s one b he h k =
    exactly
      (>>=-Keeps (put_expr-Keeps e b he) (λ c. >>=-Keeps fresh_label-Keeps (λ t.
        >>=-Keeps (put_body-Keeps inside s one empty_buf h k)
          (λ r. pure-Keeps (if_out t r c, false)))))
      (omega arith) (omega arith)

put_if_else-Keeps :
    (inside : Bool) (e : Expr) (s t : Stmt) (one two : Emits) (b : Buf)
    → formed_expr e ≡ true
    → formed_stmt inside s ≡ true
    → formed_stmt inside t ≡ true
    → OneKeeps s one
    → OneKeeps t two
    → Keeps
        (2 + ((labels_of s + body_guards s) + (labels_of t + body_guards t)))
        (slots_of s + slots_of t)
        (put_if_else e s one t two b)
unfolding put_if_else
put_if_else-Keeps inside e s t one two b he hs ht k k2 =
    exactly
      (>>=-Keeps (put_expr-Keeps e b he) (λ c. >>=-Keeps fresh_label-Keeps (λ i.
        >>=-Keeps fresh_label-Keeps (λ f.
          >>=-Keeps (put_body-Keeps inside s one empty_buf hs k) (λ r.
            >>=-Keeps (put_body-Keeps inside t two empty_buf ht k2)
              (λ q. pure-Keeps (if_else_out i f r q c, false)))))))
      (omega arith) (omega arith)

put_while-Keeps :
    (e : Expr) (s : Stmt) (one : Emits) (b : Buf)
    → formed_expr e ≡ true
    → formed_stmt true s ≡ true
    → OneKeeps s one
    → Keeps (2 + (labels_of s + body_guards s)) (slots_of s) (put_while e s one b)
unfolding put_while
put_while-Keeps e s one b he h k =
    exactly
      (>>=-Keeps fresh_label-Keeps (λ c. >>=-Keeps fresh_label-Keeps (λ m.
        >>=-Keeps (put_expr-Keeps e empty_buf he) (λ q.
          >>=-Keeps (loop_body-Keeps none s one empty_buf h k)
            (λ r. pure-Keeps (while_out c m q r b, false))))))
      (omega arith) (omega arith)

put_do_while-Keeps :
    (s : Stmt) (one : Emits) (e : Expr) (b : Buf)
    → formed_expr e ≡ true
    → formed_stmt true s ≡ true
    → OneKeeps s one
    → Keeps (3 + (labels_of s + body_guards s)) (slots_of s) (put_do_while s one e b)
unfolding put_do_while
put_do_while-Keeps s one e b he h k =
    exactly
      (>>=-Keeps fresh_label-Keeps (λ df. >>=-Keeps fresh_label-Keeps (λ c.
        >>=-Keeps fresh_label-Keeps (λ m.
          >>=-Keeps (loop_body-Keeps none s one (do_start df) h k) (λ r.
            >>=-Keeps (put_expr-Keeps e empty_buf he)
              (λ q. pure-Keeps (do_while_out df c m q r b, false)))))))
      (omega arith) (omega arith)

put_for_init-Keeps :
    (i : Option ForInit) (b : Buf)
    → formed_init i ≡ true
    → Keeps 0 (init_slots i) (put_for_init i b)
unfolding put_for_init
put_for_init-Keeps none b h = pure-Keeps b
put_for_init-Keeps (some (init_decl d)) b h =
    >>=-Keeps (declare-Keeps d) (λ s. put_init-Keeps s d.init b h)
put_for_init-Keeps (some (init_expr e)) b h = >>=-Keeps (put_expr-Keeps e b h) (λ c. pure-Keeps _)

put_for_cond-Keeps : (o : Option Expr) → formed_option o ≡ true → Keeps 0 0 (put_for_cond o)
unfolding put_for_cond
put_for_cond-Keeps none h = pure-Keeps _
put_for_cond-Keeps (some e) h = put_expr-Keeps e empty_buf h

put_for_post-Keeps : (o : Option Expr) → formed_option o ≡ true → Keeps 0 0 (put_for_post o)
unfolding put_for_post
put_for_post-Keeps none h = pure-Keeps _
put_for_post-Keeps (some e) h = put_expr-Keeps e empty_buf h

put_for-Keeps :
    (i : Option ForInit) (c p : Option Expr) (s : Stmt) (one : Emits) (b : Buf)
    → formed_init i ≡ true
    → formed_option c ≡ true
    → formed_option p ≡ true
    → formed_stmt true s ≡ true
    → OneKeeps s one
    → Keeps (3 + (labels_of s + body_guards s)) (init_slots i + slots_of s) (put_for i c p s one b)
unfolding put_for
put_for-Keeps i c p s one b hi hc hp h k =
    exactly
      (>>=-Keeps (put_for_init-Keeps i b hi) (λ start. >>=-Keeps fresh_label-Keeps (λ lc.
        >>=-Keeps fresh_label-Keeps (λ lb. >>=-Keeps fresh_label-Keeps (λ n.
          >>=-Keeps (put_for_cond-Keeps c hc) (λ q.
            >>=-Keeps (loop_body-Keeps (some (named (codes "n") n)) s one empty_buf h k) (λ r.
              >>=-Keeps (put_for_post-Keeps p hp) (λ w.
                >>=-Keeps (with_hoisted-Keeps (post_labels n w)) (λ u.
                  pure-Keeps
                    (while_out lc lb q (with_post (named (codes "n") n) r) start, false))))))))))
      (omega arith) (omega arith)

continue-Keeps :
    (b : Buf)
    → Keeps {A = Buf × Bool} 0 0 (do v ← get; pure (add_code (continue_words v.ctx.loops) b, false))
continue-Keeps b = record { run = λ v. Kept-refl v }

mutual
  unfolding put_stmt formed_stmt labels_of slots_of

  stmt_keeps : (inside : Bool) (s : Stmt) → formed_stmt inside s ≡ true → OneKeeps s (put_stmt s)
  stmt_keeps inside (decl ds) h q b l =
      exactly (>>=-Keeps (put_decls-Keeps ds b h) (λ c. pure-Keeps _)) refl (omega arith)
  stmt_keeps inside (expr e) h q b l = >>=-Keeps (put_expr-Keeps e b h) (λ c. pure-Keeps _)
  stmt_keeps inside empty h q b l = pure-Keeps _
  stmt_keeps inside (break x y) h q b l = pure-Keeps _
  stmt_keeps inside (continue x y) h q b l = continue-Keeps b
  stmt_keeps inside (return e x y) h q b l = absurd cc
  stmt_keeps inside (block ss) h q b l = stmts_keep inside ss h b l
  stmt_keeps inside (if_then e s) h q b l =
      put_if-Keeps inside e s (put_stmt s) b ((and_iff _ _).0 h).0 ((and_iff _ _).0 h).1
        (stmt_keeps inside s ((and_iff _ _).0 h).1)
  stmt_keeps inside (if_else e s t) h q b l =
      let h2 = (and_iff _ _).0 ((and_iff _ _).0 h).1 in
      put_if_else-Keeps inside e s t (put_stmt s) (put_stmt t) b ((and_iff _ _).0 h).0 h2.0 h2.1
        (stmt_keeps inside s h2.0) (stmt_keeps inside t h2.1)
  stmt_keeps inside (while e s) h q b l =
      put_while-Keeps e s (put_stmt s) b ((and_iff _ _).0 h).0 ((and_iff _ _).0 h).1
        (stmt_keeps true s ((and_iff _ _).0 h).1)
  stmt_keeps inside (do_while s e) h q b l =
      put_do_while-Keeps s (put_stmt s) e b ((and_iff _ _).0 h).1 ((and_iff _ _).0 h).0
        (stmt_keeps true s ((and_iff _ _).0 h).0)
  stmt_keeps inside (for i c p s) h q b l =
      let h2 = (and_iff _ _).0 ((and_iff _ _).0 h).1 in
      let h3 = (and_iff _ _).0 h2.1 in
      put_for-Keeps i c p s (put_stmt s) b ((and_iff _ _).0 h).0 h2.0 h3.0 h3.1
        (stmt_keeps true s h3.1)

  stmts_keep :
      (inside : Bool) (ss : Stmts)
      → formed_stmts inside ss ≡ true
      → AllKeep (labels_in ss) (slots_in ss) (put_stmts ss)
  stmts_keep inside no_stmts h b l = pure-Keeps (b, false)
  stmts_keep inside (stmt s ss) h b l =
      list-Keeps inside s ss (put_stmt s) (put_stmts ss) ((and_iff _ _).0 h).0
        (stmt_keeps inside s ((and_iff _ _).0 h).0) (stmts_keep inside ss ((and_iff _ _).0 h).1) b l

pub put_stmts-Keeps :
    (inside : Bool) (ss : Stmts)
    → formed_stmts inside ss ≡ true
    → AllKeep (labels_in ss) (slots_in ss) (put_stmts ss)
put_stmts-Keeps inside ss h = stmts_keep inside ss h

-- A list of statements whose `break` and `continue` stand in loops, and whose character literals
-- begin and end with a quote, is emitted or refused with a position, from any state of the emitter.
-- Where it is emitted, the function and its open loops are those of the start. The counter of slots
-- has risen by the number of variables that are declared, and the counter of labels by one for an
-- `if`, two for an `if` with `else`, two for a `while`, three for a `do` or a `for`, and two for the
-- rest of a list behind a statement with a `return` in it. A body that is no
-- block is a list of one; what stands behind a `return` in its list counts for nothing.
pub put_stmts-Ends :
    (inside : Bool) (ss : Stmts) (b : Buf) (l : ListCtx) (v : Env)
    → formed_stmts inside ss ≡ true
    → Ends (labels_in ss) (slots_in ss) v (put_stmts ss b l v)
put_stmts-Ends inside ss b l v h = (put_stmts-Keeps inside ss h b l).run v

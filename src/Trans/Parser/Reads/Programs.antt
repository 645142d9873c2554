-- ===== src/Trans/Parser/Reads/Programs.antt =====
-- trans/src/parser.rs: the assertions on the parsers of functions and programs.
use nmerkar.Base.{ℕ, zero, suc, ◌≡◌, refl, arith, true, false, ◌||◌, List, [], ◌∷◌, codes, length}
use nmerkar.Base.Results.{Result, ok, err}
use nmerkar.Trans.Token.{
  eof, is_kind, Token, is_punct, is_type_word, Fault, failed, panicked, out_of_fuel,
}
use nmerkar.Trans.Syntax.{Program}
use nmerkar.Trans.Lexer.Shapes.{is_stream}
use nmerkar.Trans.Parser.{State, with_fuel}
use nmerkar.Trans.Parser.Formed.{formed_stmts, formed_program}
use nmerkar.Trans.Parser.Programs.{param_loop, function, program_loop, result_of, parse_program}
use nmerkar.Trans.Parser.Reads.{
  Reads, Any, Sat, step, keep, later, relax, at, no_fuel, pure-Reads, look-Reads, with_fuel-Reads,
  if-ReadsAt,
}
use nmerkar.Trans.Parser.Reads.Steps.{
  over, is_punct-not_last, expect_punct-Reads, expect_ident-Reads,
}
use nmerkar.Trans.Parser.Reads.Stmts.{stmt_loop-Reads, block_stmts-Reads}
use nmerkar.Trans.Parser.Reads.Decls.{type_spec-Reads, is_type_word-not_last}

param_loop-Reads : {d : ℕ} (f : ℕ) → Reads 0 Any d d f (param_loop f)
unfolding param_loop
param_loop-Reads zero = no_fuel
param_loop-Reads (suc f) = look-Reads (λ t.
    if-ReadsAt (is_punct t (codes ")")) _ _ (λ h. at (pure-Reads [] tt))
      (λ h.
        if-ReadsAt (is_punct t (codes ",") || is_type_word t || is_punct t (codes "*")) _ _
          (λ k.
            over t (omega arith) (omega arith)
              (ground (
                arith,
                k,
                is_punct-not_last t (codes ","),
                is_punct-not_last t (codes "*"),
                is_type_word-not_last t,
              ))
              (param_loop-Reads f))
          (λ k. at (
            relax (
              step (omega arith) expect_ident-Reads
                (λ m u. keep (param_loop-Reads f) (λ ms v. pure-Reads (m.text ∷ ms) tt)))))))

function-Reads : {n : ℕ} → Reads 1 (λ f. formed_stmts false f.body ≡ true) 0 0 n function
unfolding function
function-Reads = look-Reads (λ t. at (
    later type_spec-Reads (λ u v. keep expect_ident-Reads (λ name u1.
      keep (relax (expect_punct-Reads (codes "("))) (λ u2 v2.
        keep (with_fuel-Reads (λ f le. param_loop-Reads f)) (λ ps u3.
          keep (relax (expect_punct-Reads (codes ")"))) (λ u4 v4.
            keep (relax (expect_punct-Reads (codes "{"))) (λ u5 v5.
              keep (relax (with_fuel-Reads (λ f le. block_stmts-Reads (stmt_loop-Reads f)))) (λ b q.
                pure-Reads
                  (record { name = name.text; params = ps; body = b; line = t.line; col = t.col })
                  q)))))))))

program_loop-Reads : (f : ℕ) → Reads 0 (λ p. formed_program p ≡ true) 0 0 f (program_loop f)
unfolding program_loop formed_program
program_loop-Reads zero = no_fuel
program_loop-Reads (suc f) = look-Reads (λ t.
    if-ReadsAt (is_kind t.kind eof) _ _ (λ h. at (pure-Reads [] refl))
      (λ h. at (
        relax (
          step (omega arith) function-Reads (λ x q.
            keep (program_loop-Reads f) (λ xs w. pure-Reads (x ∷ xs) (ground (arith, q, w))))))))

-- A well formed program, or an error with a position.
abbrev pub ParseOk : Result Fault Program → Type 0
ParseOk (ok p) = formed_program p ≡ true
ParseOk (err (failed e)) = Unit {0}
ParseOk (err panicked) = ⊥
ParseOk (err out_of_fuel) = ⊥

result_of-ParseOk :
    (m : ℕ) (r : Result Fault (Program × State))
    → Sat 0 (λ p. formed_program p ≡ true) 0 m r
    → ParseOk (result_of r)
result_of-ParseOk m (ok (p, s)) h = h.0
result_of-ParseOk m (err (failed e)) h = tt
result_of-ParseOk m (err panicked) h = h
result_of-ParseOk m (err out_of_fuel) h = h

pub parse_program-ParseOk : (ts : List Token) → is_stream ts ≡ true → ParseOk (parse_program ts)
unfolding parse_program
parse_program-ParseOk [] h = absurd cc
parse_program-ParseOk (t ∷ ts) h =
    let r : Reads 0 (λ p. formed_program p ≡ true) 0 0 (suc (length ts)) (with_fuel program_loop) =
      with_fuel-Reads (λ f le. program_loop-Reads f) in
    result_of-ParseOk (length ts)
      (with_fuel program_loop (record { here = t; rest = ts; loop_depth = 0 }))
      (r.run (record { here = t; rest = ts; loop_depth = 0 }) (omega arith) (h, refl))

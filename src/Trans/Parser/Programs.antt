-- ===== src/Trans/Parser/Programs.antt =====
-- trans/src/parser.rs: functions and programs.
use nmerkar.Base.{ℕ, zero, suc, ◌||◌, List, [], ◌∷◌, Text, codes, if◌then◌else◌}
use nmerkar.Base.Results.{Result, ok, err}
use nmerkar.Trans.Token.{eof, is_kind, Token, is_punct, is_type_word, Fault, panicked, out_of_fuel}
use nmerkar.Trans.Syntax.{Function, Program}
use nmerkar.Trans.Run.{pure, ◌>>=◌, ◌>>◌, fail}
use nmerkar.Trans.Parser.{
  State, Parser, look, bump, with_fuel, expect_punct, expect_ident, type_spec,
}
use nmerkar.Trans.Parser.Stmts.{block_stmts, stmt_loop}

-- The loop of `Parser::function` over the parameter list.
unfoldable pub param_loop : ℕ → Parser (List Text)
unfolding look bump expect_ident
param_loop zero = fail out_of_fuel
param_loop (suc f) = do
  t ← look
  if is_punct t (codes ")")
      then pure []
      else if is_punct t (codes ",") || is_type_word t || is_punct t (codes "*")
      then (bump >> param_loop f)
      else (do n ← expect_ident; ns ← param_loop f; pure (n.text ∷ ns))

-- `Parser::function`
unfoldable pub function : Parser Function
unfolding look type_spec expect_ident expect_punct param_loop block_stmts stmt_loop
function = do
  t ← look
  type_spec
  name ← expect_ident
  expect_punct (codes "(")
  params ← with_fuel param_loop
  expect_punct (codes ")")
  expect_punct (codes "{")
  body ← with_fuel (λ f. block_stmts (stmt_loop f))
  pure (record { name = name.text; params = params; body = body; line = t.line; col = t.col })

unfoldable pub program_loop : ℕ → Parser Program
unfolding look function
program_loop zero = fail out_of_fuel
program_loop (suc f) = do
  t ← look
  if is_kind t.kind eof then pure [] else (do f1 ← function; fs ← program_loop f; pure (f1 ∷ fs))

abbrev pub result_of : {A : Type 0} → Result Fault (A × State) → Result Fault A
result_of (ok (a, s)) = ok a
result_of (err e) = err e

-- `Parser::new(toks).parse_program()`: `peek` panics where there is no token.
unfoldable pub parse_program : List Token → Result Fault Program
unfolding program_loop
parse_program [] = err panicked
parse_program (t ∷ ts) =
    result_of (with_fuel program_loop (record { here = t; rest = ts; loop_depth = 0 }))

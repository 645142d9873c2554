-- ===== src/Trans/Parser/Stmts.antt =====
-- trans/src/parser.rs: statements, functions and programs. A statement's parser for its parts is
-- an argument, and `stmt_loop` ties them.
use nmerkar.Base.{
  ℕ, zero, suc, ◌&&◌, not, List, [], ◌∷◌, Option, none, some, Text, codes, text_eq, if◌then◌else◌,
  ◌==◌,
}
use nmerkar.Trans.Token.{ident, eof, is_kind, Token, is_punct, is_ident, is_type_word, out_of_fuel}
use nmerkar.Trans.Syntax.{
  Expr, Declarator, ForInit, init_decl, init_expr, Stmt, decl, return, if_then, if_else, while,
  do_while, for, break, continue, block, empty, Stmts, no_stmts, stmt, Function, Program,
}
use nmerkar.Trans.Syntax
use nmerkar.Trans.Run.{pure, ◌>>=◌, ◌>>◌, fail}
use nmerkar.Trans.Parser.{
  Parser, look, bump, with_fuel, fail_at, on_punct, on_ident, expect_punct, expect_ident, type_spec,
  enter_loop, leave_loop, depth,
}
use nmerkar.Trans.Parser.Exprs.{expr}

unfoldable pub initializer : Parser (Option Expr)
unfolding on_punct expr
initializer = on_punct (codes "=") (do e ← expr; pure (some e)) (pure none)

-- `Parser::declarator`
unfoldable pub declarator : Parser Declarator
unfolding initializer expect_ident
declarator = do
  t ← expect_ident
  i ← initializer
  pure (record { name = t.text; init = i; line = t.line; col = t.col })

unfoldable pub more_declarators : ℕ → Parser (List Declarator)
unfolding on_punct declarator
more_declarators zero = fail out_of_fuel
more_declarators (suc f) =
    on_punct (codes ",") (do d ← declarator; ds ← more_declarators f; pure (d ∷ ds)) (pure [])

-- `Parser::declaration`
unfoldable pub declaration : Parser Stmt
unfolding type_spec declarator more_declarators expect_punct
declaration = do
  type_spec
  d ← declarator
  ds ← with_fuel more_declarators
  expect_punct (codes ";")
  pure (decl (d ∷ ds))

-- `Parser::return_stmt`
unfoldable pub return_stmt : Parser Stmt
unfolding bump expr expect_punct
return_stmt = do
  kw ← bump
  value ← expr
  expect_punct (codes ";")
  pure (return value kw.line kw.col)

-- `( expr )`
unfoldable pub condition : Parser Expr
unfolding expect_punct expr
condition = do expect_punct (codes "("); c ← expr; expect_punct (codes ")"); pure c

-- `Parser::if_stmt`
unfoldable pub if_stmt : Parser Stmt → Parser Stmt
unfolding bump condition on_ident
if_stmt s = do
  _ ← bump
  c ← condition
  a ← s
  on_ident (codes "else") (do b ← s; pure (if_else c a b)) (pure (if_then c a))

-- The body of a loop, one level deeper.
unfoldable pub loop_body : Parser Stmt → Parser Stmt
unfolding enter_loop leave_loop
loop_body s = do enter_loop; b ← s; leave_loop; pure b

-- `Parser::while_stmt`
unfoldable pub while_stmt : Parser Stmt → Parser Stmt
unfolding bump condition loop_body
while_stmt s = do _ ← bump; c ← condition; b ← loop_body s; pure (while c b)

-- `Parser::do_stmt`
unfoldable pub do_stmt : Parser Stmt → Parser Stmt
unfolding bump look loop_body condition expect_punct
do_stmt s = do
  _ ← bump
  b ← loop_body s
  t ← look
  if not (is_ident t (codes "while"))
      then fail_at t (codes "expected 'while' after do-body")
      else (do _ ← bump; c ← condition; expect_punct (codes ";"); pure (do_while b c))

-- The first part of a `for`: with a type word it is a declaration, which needs its `=`.
unfoldable pub for_init : Parser (Option ForInit)
unfolding on_punct look type_spec expect_ident expect_punct expr
for_init = on_punct (codes ";") (pure none) (do
  t ← look
  if is_type_word t
      then (do
        type_spec
        n ← expect_ident
        expect_punct (codes "=")
        v ← expr
        expect_punct (codes ";")
        pure (
            some (init_decl (record { name = n.text; init = some v; line = n.line; col = n.col }))))
      else (do e ← expr; expect_punct (codes ";"); pure (some (init_expr e))))

unfoldable pub for_cond : Parser (Option Expr)
unfolding on_punct expr expect_punct
for_cond = on_punct (codes ";") (pure none) (do e ← expr; expect_punct (codes ";"); pure (some e))

unfoldable pub for_post : Parser (Option Expr)
unfolding look expr
for_post = do t ← look; if is_punct t (codes ")") then pure none else (do e ← expr; pure (some e))

-- `Parser::for_stmt`
unfoldable pub for_stmt : Parser Stmt → Parser Stmt
unfolding bump expect_punct for_init for_cond for_post loop_body
for_stmt s = do
  _ ← bump
  expect_punct (codes "(")
  i ← for_init
  c ← for_cond
  p ← for_post
  expect_punct (codes ")")
  b ← loop_body s
  pure (for i c p b)

-- `break` and `continue`, refused where no loop is open.
unfoldable pub jump : Token → Text → Stmt → Parser Stmt
unfolding bump expect_punct depth
jump t message s = do
  _ ← bump
  expect_punct (codes ";")
  d ← depth
  if d == 0 then fail_at t message else pure s

unfoldable pub block_loop : Parser Stmt → ℕ → Parser Stmts
unfolding look
block_loop s zero = fail out_of_fuel
block_loop s (suc f) = do
  t ← look
  if not (is_punct t (codes "}")) && not (is_kind t.kind eof)
      then (do a ← s; rest ← block_loop s f; pure (stmt a rest))
      else pure no_stmts

-- `Parser::block_stmts`
unfoldable pub block_stmts : Parser Stmt → Parser Stmts
unfolding block_loop expect_punct
block_stmts s = do ss ← with_fuel (block_loop s); expect_punct (codes "}"); pure ss

-- A statement that starts with no keyword.
unfoldable pub plain_stmt : Parser Stmt → Token → Parser Stmt
unfolding bump block_stmts expr expect_punct
plain_stmt s t =
    if is_punct t (codes "{")
    then (do _ ← bump; ss ← block_stmts s; pure (block ss))
    else if is_punct t (codes ";")
    then (bump >> pure empty)
    else (do e ← expr; expect_punct (codes ";"); pure (Syntax.expr e))

-- A statement that starts with an identifier.
unfoldable pub word_stmt : Parser Stmt → Token → Parser Stmt
unfolding return_stmt if_stmt while_stmt for_stmt do_stmt jump plain_stmt
word_stmt s t =
    if text_eq t.text (codes "return")
    then return_stmt
    else if text_eq t.text (codes "if")
    then if_stmt s
    else if text_eq t.text (codes "while")
    then while_stmt s
    else if text_eq t.text (codes "for")
    then for_stmt s
    else if text_eq t.text (codes "do")
    then do_stmt s
    else if text_eq t.text (codes "break")
    then jump t (codes "break outside loop") (break t.line t.col)
    else if text_eq t.text (codes "continue")
    then jump t (codes "continue outside loop") (continue t.line t.col)
    else plain_stmt s t

-- The body of `Parser::stmt`.
unfoldable pub stmt_of : Parser Stmt → Parser Stmt
unfolding look declaration word_stmt plain_stmt
stmt_of s = do
  t ← look
  if is_type_word t
      then declaration
      else if is_kind t.kind ident
      then word_stmt s t
      else plain_stmt s t

unfoldable pub stmt_loop : ℕ → Parser Stmt
unfolding stmt_of
stmt_loop zero = fail out_of_fuel
stmt_loop (suc f) = stmt_of (stmt_loop f)

-- ===== src/Trans/Parser/Exprs.antt =====
-- trans/src/parser.rs: expressions, by descent through the levels of precedence. What one level
-- calls of the levels behind it is an argument, and `expr` ties them.
use nmerkar.Base.{
  ℕ, zero, suc, Bool, ◌&&◌, ◌||◌, [], ◌∷◌, ◌++◌, Option, none, some, Text, codes, text_eq, contains,
  if◌then◌else◌,
}
use nmerkar.Trans.Token.{
  Kind, int, ident, str, char, punct, eof, is_kind, Token, is_punct, out_of_fuel,
}
use nmerkar.Trans.Syntax.{
  BinOp, add, sub, mul, UnOp, neg, not, bit_not, Delta, up, down, Expr, int_lit, str_lit, char_lit,
  var, assign, unary, pre, post, call, index, argc, stream, argv, byte, null, eof_lit, Args,
  no_args, arg, stdout, stdin, stderr,
}
use nmerkar.Trans.Run.{pure, ◌>>=◌, ◌>>◌, fail}
use nmerkar.Trans.Parser.{
  Parser, look, look2, bump, with_fuel, fail_at, on_punct, expect_punct, expect_ident,
}
use nmerkar.Trans.Parser.Levels.{logical_or}

-- The loop over the arguments of a call behind the first: `, expr`.
unfoldable pub more_args : ℕ → Parser Expr → Parser Args
unfolding on_punct
more_args zero e = fail out_of_fuel
more_args (suc f) e =
    on_punct (codes ",") (do a ← e; rest ← more_args f e; pure (arg a rest)) (pure no_args)

unfoldable pub call_args : Parser Expr → Parser Args
unfolding more_args
call_args e = do
  t ← look
  if is_punct t (codes ")")
      then pure no_args
      else (do a ← e; rest ← with_fuel (λ f. more_args f e); pure (arg a rest))

-- The reserved names without operands.
abbrev pub constant : Text → ℕ → ℕ → Option Expr
constant s l c =
    if text_eq s (codes "argc")
    then some (argc l c)
    else if text_eq s (codes "stdout")
    then some (stream stdout l c)
    else if text_eq s (codes "stdin")
    then some (stream stdin l c)
    else if text_eq s (codes "stderr")
    then some (stream stderr l c)
    else if text_eq s (codes "NULL")
    then some (null l c)
    else if text_eq s (codes "EOF")
    then some (eof_lit l c)
    else none

-- A call, an indexed name or a variable.
unfoldable pub name_expr : Parser Expr → Token → Parser Expr
unfolding call_args on_punct expect_punct
name_expr e t =
    on_punct (codes "(")
      (do args ← call_args e; expect_punct (codes ")"); pure (call t.text args t.line t.col))
      (on_punct (codes "[") (do i ← e; expect_punct (codes "]"); pure (index t.text i t.line t.col))
        (pure (var t.text t.line t.col)))

-- `Parser::primary` behind an identifier.
unfoldable pub ident_expr : Parser Expr → Token → Option Expr → Parser Expr
unfolding name_expr expect_punct
ident_expr e t (some k) = pure k
ident_expr e t none =
    if text_eq t.text (codes "argv")
    then (do expect_punct (codes "["); i ← e; expect_punct (codes "]"); pure (argv i t.line t.col))
    else if text_eq t.text (codes "__byte")
    then (do expect_punct (codes "("); i ← e; expect_punct (codes ")"); pure (byte i t.line t.col))
    else name_expr e t

abbrev pub unexpected : Token → Text
unexpected t = codes "unexpected token '" ++ (t.text ++ codes "'")

unfoldable pub primary_at : Parser Expr → Token → Kind → Parser Expr
unfolding bump ident_expr expect_punct
primary_at e t int = bump >> pure (int_lit t.text t.line t.col)
primary_at e t str = bump >> pure (str_lit t.text t.line t.col)
primary_at e t char = bump >> pure (char_lit t.text t.line t.col)
primary_at e t punct =
    if text_eq t.text (codes "(")
    then (do _ ← bump; x ← e; expect_punct (codes ")"); pure x)
    else fail_at t (unexpected t)
primary_at e t ident = bump >> ident_expr e t (constant t.text t.line t.col)
primary_at e t eof = fail_at t (unexpected t)

-- `Parser::primary`
unfoldable pub primary : Parser Expr → Parser Expr
unfolding look primary_at
primary e = do t ← look; primary_at e t t.kind

abbrev pub is_step : Token → Bool
is_step t = is_punct t (codes "++") || is_punct t (codes "--")

abbrev pub delta_of : Token → Delta
delta_of t = if text_eq t.text (codes "++") then up else down

abbrev pub name_of : Expr → Option Text
name_of (var n l c) = some n
name_of _ = none

abbrev pub step_of : Token → Option Text → Parser Expr
step_of t (some n) = bump >> pure (post n (delta_of t) t.line t.col)
step_of t none = fail_at t (codes "postfix ++ needs a variable")

-- `Parser::postfix`
unfoldable pub postfix : Parser Expr → Parser Expr
unfolding primary look bump
postfix e = do x ← primary e; t ← look; if is_step t then step_of t (name_of x) else pure x

abbrev pub sign : Text → Option UnOp
sign s =
    if text_eq s (codes "-")
    then some neg
    else if text_eq s (codes "!")
    then some not
    else if text_eq s (codes "~")
    then some bit_not
    else none

-- `Parser::unary`, on fuel for its calls of itself.
unfoldable pub unary_loop : ℕ → Parser Expr → Parser Expr
unfolding postfix look bump expect_ident
unary_loop zero e = fail out_of_fuel
unary_loop (suc f) e = do
  t ← look
  if is_kind t.kind punct
      then elim (sign t.text) [
        | some op ↦ do _ ← bump; x ← unary_loop f e; pure (unary op x t.line t.col)
        | none ↦
            if text_eq t.text (codes "+")
            then (bump >> unary_loop f e)
            else if is_step t
            then (do _ ← bump; n ← expect_ident; pure (pre n.text (delta_of t) t.line t.col))
            else postfix e
      ]
      else postfix e

unfoldable pub unary_expr : Parser Expr → Parser Expr
unfolding unary_loop
unary_expr e = with_fuel (λ f. unary_loop f e)

-- `Parser::is_assign_op`
unfoldable pub is_assign_op : Text → Bool
is_assign_op =
    contains (codes "=" ∷ codes "+=" ∷ codes "-=" ∷ codes "*=" ∷ codes "/=" ∷ codes "%=" ∷ [])

abbrev pub compound : Text → Option BinOp
compound s =
    if text_eq s (codes "+=")
    then some add
    else if text_eq s (codes "-=")
    then some sub
    else if text_eq s (codes "*=")
    then some mul
    else none

-- `Parser::assignment`; the value of an assignment is one more expression.
unfoldable pub assignment : Parser Expr → Parser Expr
unfolding logical_or unary_expr look look2 bump is_assign_op
assignment e = do
  t ← look
  t2 ← look2
  if is_kind t.kind ident && (is_kind t2.kind punct && is_assign_op t2.text)
      then (do
        name ← bump
        op ← bump
        if text_eq op.text (codes "/=") || text_eq op.text (codes "%=")
            then fail_at op (codes "no division in subset")
            else (do
              value ← e
              pure (assign name.text (compound op.text) value name.line name.col)))
      else logical_or (unary_expr e)

unfoldable pub expr_loop : ℕ → Parser Expr
unfolding assignment
expr_loop zero = fail out_of_fuel
expr_loop (suc f) = assignment (expr_loop f)

-- `Parser::expr`
unfoldable pub expr : Parser Expr
unfolding expr_loop
expr = with_fuel expr_loop

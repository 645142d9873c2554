-- ===== src/Trans/Parser/Levels.antt =====
-- trans/src/parser.rs: the levels of binary operators.
use nmerkar.Base.{ℕ, zero, suc, ◌&&◌, ◌||◌, [], ◌∷◌, Text, codes, text_eq, contains, if◌then◌else◌}
use nmerkar.Trans.Token.{punct, is_kind, Token, is_punct, out_of_fuel}
use nmerkar.Trans.Syntax.{
  BinOp, add, sub, mul, shl, shr, lt, le, gt, ge, eq, ne, bit_and, bit_xor, bit_or, and, or, Expr,
  binary, logical,
}
use nmerkar.Trans.Run.{pure, ◌>>=◌, fail}
use nmerkar.Trans.Parser.{Parser, look, bump, with_fuel, fail_at}

-- What a level of binary operators does at a token.
pub data Infix : Type 0 where
  stop : Infix
  join : (Expr → Expr → Expr) → Infix
  division : Infix

abbrev pub bin : BinOp → Infix
bin op = join (λ l r. binary op l r 0 0)

-- `while … { self.bump(); let rhs = sub()?; lhs = … }`
unfoldable pub left_loop : ℕ → (Token → Infix) → Parser Expr → Expr → Parser Expr
left_loop zero level next lhs = fail out_of_fuel
left_loop (suc f) level next lhs = do
  t ← look
  elim (level t) [
    | stop ↦ pure lhs
    | division ↦ fail_at t (codes "no division in subset")
    | join node ↦ do _ ← bump; rhs ← next; left_loop f level next (node lhs rhs)
  ]

unfoldable pub left_assoc : (Token → Infix) → Parser Expr → Parser Expr
unfolding left_loop
left_assoc level next = do lhs ← next; with_fuel (λ f. left_loop f level next lhs)

unfoldable pub or_level : Token → Infix
or_level t = if is_punct t (codes "||") then join (λ l r. logical or l r 0 0) else stop

unfoldable pub and_level : Token → Infix
and_level t = if is_punct t (codes "&&") then join (λ l r. logical and l r 0 0) else stop

unfoldable pub bit_or_level : Token → Infix
bit_or_level t = if is_punct t (codes "|") then bin bit_or else stop

unfoldable pub bit_xor_level : Token → Infix
bit_xor_level t = if is_punct t (codes "^") then bin bit_xor else stop

unfoldable pub bit_and_level : Token → Infix
bit_and_level t = if is_punct t (codes "&") then bin bit_and else stop

unfoldable pub equality_level : Token → Infix
equality_level t =
    if is_punct t (codes "==") || is_punct t (codes "!=")
    then bin (if text_eq t.text (codes "==") then eq else ne)
    else stop

abbrev pub relational_op : Text → BinOp
relational_op s =
    if text_eq s (codes "<")
    then lt
    else if text_eq s (codes "<=")
    then le
    else if text_eq s (codes ">")
    then gt
    else ge

unfoldable pub relational_level : Token → Infix
relational_level t =
    if contains (codes "<" ∷ codes "<=" ∷ codes ">" ∷ codes ">=" ∷ []) t.text
      && is_kind t.kind punct
    then bin (relational_op t.text)
    else stop

unfoldable pub shift_level : Token → Infix
shift_level t =
    if is_punct t (codes "<<") || is_punct t (codes ">>")
    then bin (if text_eq t.text (codes "<<") then shl else shr)
    else stop

unfoldable pub additive_level : Token → Infix
additive_level t =
    if is_punct t (codes "+") || is_punct t (codes "-")
    then bin (if text_eq t.text (codes "+") then add else sub)
    else stop

unfoldable pub multiplicative_level : Token → Infix
multiplicative_level t =
    if is_punct t (codes "*")
    then bin mul
    else if is_punct t (codes "/") || is_punct t (codes "%")
    then division
    else stop

-- From `Parser::logical_or` down to `Parser::multiplicative`, above a parser for `unary`.
unfoldable pub logical_or : Parser Expr → Parser Expr
unfolding left_assoc
logical_or u = left_assoc or_level (
    left_assoc and_level (
      left_assoc bit_or_level (
        left_assoc bit_xor_level (
          left_assoc bit_and_level (
            left_assoc equality_level (
              left_assoc relational_level (
                left_assoc shift_level
                  (left_assoc additive_level (left_assoc multiplicative_level u)))))))))

-- ===== src/Trans/Parser/Reads/Exprs.antt =====
-- trans/src/parser.rs: the assertions on the parsers of expressions.
use nmerkar.Base.{
  ℕ, zero, suc, ◌≤◌, ◌≡◌, refl, arith, Bool, true, false, ◌&&◌, ◌||◌, [], ◌∷◌, Text, codes,
  contains, if◌then◌else◌, and_iff,
}
use nmerkar.Trans.Token.{punct, eof, is_kind, Token, is_punct}
use nmerkar.Trans.Run.{pure, ◌>>=◌}
use nmerkar.Trans.Syntax.{Expr, Args}
use nmerkar.Trans.Parser.{Parser, bump, fail_at}
use nmerkar.Trans.Parser.Formed.{formed_expr, formed_args}
use nmerkar.Trans.Parser.Levels.{
  Infix, stop, join, division, bin, relational_op, left_loop, left_assoc, or_level, and_level,
  bit_or_level, bit_xor_level, bit_and_level, equality_level, relational_level, shift_level,
  additive_level, multiplicative_level, logical_or,
}
use nmerkar.Trans.Parser.Reads.{
  Reads, ReadsAt, keep, relax, at, shrink, no_fuel, pure-Reads, fail_at-Reads, look-Reads,
  with_fuel-Reads,
}
use nmerkar.Trans.Parser.Reads.Steps.{over, kind_not_last, is_punct-not_last}

abbrev pub Formed : Expr → Type 0
Formed x = formed_expr x ≡ true

abbrev pub FormedArgs : Args → Type 0
FormedArgs xs = formed_args xs ≡ true

-- A level stops at the end token, and its nodes are well formed.
abbrev LevelAt : Token → Infix → Type 0
LevelAt t stop = Unit {0}
LevelAt t division = Unit {0}
LevelAt t (join node) =
    (is_kind t.kind eof ≡ false) × ((l r : Expr) → Formed l → Formed r → Formed (node l r))

abbrev Level : (Token → Infix) → Type 0
Level level = (t : Token) → LevelAt t (level t)

module _ {d : ℕ} where
  left_round :
      (f : ℕ) (t : Token) (next : Parser Expr) (loop : Expr → Parser Expr) (lhs : Expr) (i : Infix)
      → Formed lhs
      → LevelAt t i
      → Reads 1 Formed d d f next
      → ((x : Expr) → Formed x → Reads 0 Formed d d f (loop x))
      → ReadsAt t 0 Formed d d (suc f) (elim i [
        | stop ↦ pure lhs
        | division ↦ fail_at t (codes "no division in subset")
        | join node ↦ do _ ← bump; rhs ← next; loop (node lhs rhs)
      ])
  left_round f t next loop lhs stop q k g h = at (pure-Reads lhs q)
  left_round f t next loop lhs division q k g h = at (fail_at-Reads t _)
  left_round f t next loop lhs (join node) q k g h =
      over t (omega arith) (omega arith) k.0
        (keep (relax g) (λ rhs w. h (node lhs rhs) (k.1 lhs rhs q w)))

  left_loop-Reads :
      (level : Token → Infix) (n : ℕ) (next : Parser Expr)
      → Level level
      → Reads 1 Formed d d n next
      → (f : ℕ) → f ≤ n
      → (lhs : Expr) → Formed lhs
      → Reads 0 Formed d d f (left_loop f level next lhs)
  unfolding left_loop
  left_loop-Reads level n next h g zero le lhs q = no_fuel
  left_loop-Reads level n next h g (suc f) le lhs q = look-Reads (λ t.
      left_round f t next (left_loop f level next) lhs (level t) q (h t) (shrink (omega arith) g)
        (left_loop-Reads level n next h g f (omega arith)))

  left_assoc-Reads :
      {n : ℕ} {next : Parser Expr} (level : Token → Infix)
      → Level level
      → Reads 1 Formed d d n next
      → Reads 1 Formed d d n (left_assoc level next)
  unfolding left_assoc
  left_assoc-Reads {n} {next} level h g =
      keep g (λ lhs q. with_fuel-Reads (λ f le. left_loop-Reads level n next h g f le lhs q))

pub two_join :
    (t : Token) (p q : Text) → (is_punct t p || is_punct t q) ≡ true → is_kind t.kind eof ≡ false
two_join t p q h = ground (arith, h, is_punct-not_last t p, is_punct-not_last t q)

binary-Formed : (x y : Expr) → Formed x → Formed y → (formed_expr x && formed_expr y) ≡ true
binary-Formed x y h k = ground (arith, h, k)

if-LevelAt :
    (t : Token) (c : Bool) (i j : Infix)
    → (c ≡ true → LevelAt t i)
    → LevelAt t j
    → LevelAt t (if c then i else j)
if-LevelAt t true i j h k = h refl
if-LevelAt t false i j h k = k

or_level-Level : Level or_level
unfolding or_level formed_expr
or_level-Level t =
    if-LevelAt t (is_punct t (codes "||")) _ _ (λ e. (is_punct-not_last t _ e, binary-Formed)) tt

and_level-Level : Level and_level
unfolding and_level formed_expr
and_level-Level t =
    if-LevelAt t (is_punct t (codes "&&")) _ _ (λ e. (is_punct-not_last t _ e, binary-Formed)) tt

bit_or_level-Level : Level bit_or_level
unfolding bit_or_level formed_expr
bit_or_level-Level t =
    if-LevelAt t (is_punct t (codes "|")) _ _ (λ e. (is_punct-not_last t _ e, binary-Formed)) tt

bit_xor_level-Level : Level bit_xor_level
unfolding bit_xor_level formed_expr
bit_xor_level-Level t =
    if-LevelAt t (is_punct t (codes "^")) _ _ (λ e. (is_punct-not_last t _ e, binary-Formed)) tt

bit_and_level-Level : Level bit_and_level
unfolding bit_and_level formed_expr
bit_and_level-Level t =
    if-LevelAt t (is_punct t (codes "&")) _ _ (λ e. (is_punct-not_last t _ e, binary-Formed)) tt

equality_level-Level : Level equality_level
unfolding equality_level formed_expr
equality_level-Level t =
    if-LevelAt t (is_punct t (codes "==") || is_punct t (codes "!=")) _ _
      (λ e. (two_join t _ _ e, binary-Formed)) tt

shift_level-Level : Level shift_level
unfolding shift_level formed_expr
shift_level-Level t =
    if-LevelAt t (is_punct t (codes "<<") || is_punct t (codes ">>")) _ _
      (λ e. (two_join t _ _ e, binary-Formed)) tt

additive_level-Level : Level additive_level
unfolding additive_level formed_expr
additive_level-Level t =
    if-LevelAt t (is_punct t (codes "+") || is_punct t (codes "-")) _ _
      (λ e. (two_join t _ _ e, binary-Formed)) tt

relational_level-Level : Level relational_level
unfolding relational_level formed_expr
relational_level-Level t =
    if-LevelAt t
      (contains (codes "<" ∷ codes "<=" ∷ codes ">" ∷ codes ">=" ∷ []) t.text
        && is_kind t.kind punct)
      (bin (relational_op t.text)) stop
      (λ e. (kind_not_last t.kind punct ((and_iff _ _).0 e).1 refl, binary-Formed)) tt

multiplicative_level-Level : Level multiplicative_level
unfolding multiplicative_level formed_expr
multiplicative_level-Level t =
    if-LevelAt t (is_punct t (codes "*")) _ _ (λ e. (is_punct-not_last t _ e, binary-Formed))
      (if-LevelAt t (is_punct t (codes "/") || is_punct t (codes "%")) _ _ (λ e. tt) tt)

pub logical_or-Reads :
    {d n : ℕ} {u : Parser Expr} → Reads 1 Formed d d n u → Reads 1 Formed d d n (logical_or u)
unfolding logical_or
logical_or-Reads g = left_assoc-Reads or_level or_level-Level (
    left_assoc-Reads and_level and_level-Level (
      left_assoc-Reads bit_or_level bit_or_level-Level (
        left_assoc-Reads bit_xor_level bit_xor_level-Level (
          left_assoc-Reads bit_and_level bit_and_level-Level (
            left_assoc-Reads equality_level equality_level-Level (
              left_assoc-Reads relational_level relational_level-Level (
                left_assoc-Reads shift_level shift_level-Level (
                  left_assoc-Reads additive_level additive_level-Level
                    (left_assoc-Reads multiplicative_level multiplicative_level-Level g)))))))))

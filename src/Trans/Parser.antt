-- ===== src/Trans/Parser.antt =====
-- trans/src/parser.rs: the token cursor of the parser, and the helpers that move it.
pub mod Programs
pub mod Levels
pub mod Exprs
pub mod Stmts
pub mod Formed
pub mod Reads
use nmerkar.Base.{
  ℕ, zero, suc, ◌+◌, ◌-◌, Bool, true, false, ◌&&◌, ◌||◌, List, [], ◌∷◌, ◌++◌, Text, codes,
  if◌then◌else◌, length,
}
use nmerkar.Base.Results.{ok}
use nmerkar.Trans.Run.{Run, pure, ◌>>=◌, ◌>>◌, fail}
use nmerkar.Trans.Token.{
  ident, eof, is_kind, Token, is_punct, is_ident, is_type_word, Fault, failed_at, out_of_fuel,
}

-- The state of `Parser`: the tokens from `pos` on, of which there always is one, and `loop_depth`.
pub record State : Type 0 where
  pub here : Token
  pub rest : List Token
  pub loop_depth : ℕ

abbrev pub Parser : Type 0 → Type 0
Parser = Run State

-- `self.peek().clone()`
unfoldable pub look : Parser Token
look s = ok (s.here, s)

abbrev pub second : Token → List Token → Token
second t [] = t
second t (u ∷ us) = u

-- `self.peek2().clone()`: at the last token it is that token.
unfoldable pub look2 : Parser Token
look2 s = ok (second s.here s.rest, s)

abbrev pub advance : Token → List Token → ℕ → State
advance t [] d = record { here = t; rest = []; loop_depth = d }
advance t (u ∷ us) d = record { here = u; rest = us; loop_depth = d }

-- `Parser::bump`: the last token is never left.
unfoldable pub bump : Parser Token
bump s = ok (s.here, advance s.here s.rest s.loop_depth)

-- A loop gets a round for each token that is left, and one.
abbrev pub with_fuel : {A : Type 0} → (ℕ → Parser A) → Parser A
with_fuel p s = p (suc (length s.rest)) s

-- `Err(Error::new(t.line, t.col, m))`
abbrev pub fail_at : {A : Type 0} → Token → Text → Parser A
fail_at t m = fail (failed_at t.line t.col m)

-- `if self.peek().is_punct(p) { self.bump(); hit } else { miss }`
unfoldable pub on_punct : {A : Type 0} → Text → Parser A → Parser A → Parser A
unfolding look bump
on_punct p hit miss = do t ← look; if is_punct t p then (bump >> hit) else miss

-- `if self.peek().is_ident(w) { self.bump(); hit } else { miss }`
unfoldable pub on_ident : {A : Type 0} → Text → Parser A → Parser A → Parser A
unfolding look bump
on_ident w hit miss = do t ← look; if is_ident t w then (bump >> hit) else miss

-- `Parser::expect_punct`
unfoldable pub expect_punct : Text → Parser (Unit {0})
unfolding look bump
expect_punct p = do
  t ← look
  if is_punct t p
      then (bump >> pure tt)
      else fail_at t (codes "expected '" ++ (p ++ (codes "', got '" ++ (t.text ++ codes "'"))))

-- `Parser::expect_ident`
unfoldable pub expect_ident : Parser Token
unfolding look bump
expect_ident = do
  t ← look
  if is_kind t.kind ident
      then bump
      else fail_at t (codes "expected identifier, got '" ++ (t.text ++ codes "'"))

-- A type keyword or a `*`.
abbrev pub is_type_part : Token → Bool
is_type_part t = is_type_word t || is_punct t (codes "*")

unfoldable pub type_spec_loop : ℕ → Parser (Unit {0})
unfolding look bump
type_spec_loop zero = fail out_of_fuel
type_spec_loop (suc f) = do t ← look; if is_type_part t then (bump >> type_spec_loop f) else pure tt

-- `Parser::type_spec`
unfoldable pub type_spec : Parser (Unit {0})
unfolding type_spec_loop
type_spec = with_fuel type_spec_loop

-- `self.loop_depth += 1`
unfoldable pub enter_loop : Parser (Unit {0})
enter_loop s = ok (tt, record { here = s.here; rest = s.rest; loop_depth = s.loop_depth + 1 })

-- `self.loop_depth -= 1`
unfoldable pub leave_loop : Parser (Unit {0})
leave_loop s = ok (tt, record { here = s.here; rest = s.rest; loop_depth = s.loop_depth - 1 })

-- `self.loop_depth`
unfoldable pub depth : Parser ℕ
depth s = ok (s.loop_depth, s)

-- ===== src/Trans/Lexer/Streams.antt =====
-- trans/src/lexer.rs: what `lex` gives.
use nmerkar.Base.{ℕ, zero, suc, ◌≤◌, ◌<◌, ◌≡◌, refl, arith, true, List, [], ◌∷◌, Text, length}
use nmerkar.Base.Results.{Result, ok, err, ◌>>=◌}
use nmerkar.Trans.Token.{Token, Fault, failed, panicked, out_of_fuel}
use nmerkar.Trans.Lexer.{Cursor, at, Step, skip, made, fail, step, lex_loop, lex}
use nmerkar.Trans.Lexer.Shapes.{is_shaped, is_stream}
use nmerkar.Trans.Lexer.Rounds.{step-StepOk}
use nmerkar.Trans.Lexer.Literals.{StepOk}

-- A stream of tokens, or an error with a position.
abbrev pub LexOk : Result Fault (List Token) → Type 0
LexOk (ok ts) = is_stream ts ≡ true
LexOk (err (failed e)) = Unit {0}
LexOk (err panicked) = ⊥
LexOk (err out_of_fuel) = ⊥

stream_cons :
    (t : Token) (ts : List Token)
    → is_shaped t ≡ true
    → is_stream ts ≡ true
    → is_stream (t ∷ ts) ≡ true
stream_cons t [] h k = absurd (ground (arith, k))
stream_cons t (u ∷ us) h k = ground (arith, h, k)

LexOk-cons :
    (t : Token) (r : Result Fault (List Token))
    → is_shaped t ≡ true
    → LexOk r
    → LexOk (r >>= λ ts. ok (t ∷ ts))
LexOk-cons t (ok ts) h k = stream_cons t ts h k
LexOk-cons t (err (failed e)) h k = tt
LexOk-cons t (err panicked) h k = k
LexOk-cons t (err out_of_fuel) h k = k

round-LexOk :
    (loop : Cursor → Result Fault (List Token)) (n : ℕ) (r : Step)
    → ((s : Cursor) → length s.bytes ≤ n → LexOk (loop s))
    → StepOk n r
    → LexOk (elim r [
      | skip s ↦ loop s
      | made t s ↦ loop s >>= λ ts. ok (t ∷ ts)
      | fail e ↦ err (failed e)
    ])
round-LexOk loop n (skip s) h k = h s k
round-LexOk loop n (made t s) h k = LexOk-cons t (loop s) k.1 (h s k.0)
round-LexOk loop n (fail e) h k = tt

-- Fuel for one round more than there are bytes is enough.
lex_loop-LexOk : (f : ℕ) (bs : Text) (l c : ℕ) → length bs < f → LexOk (lex_loop f (at bs l c))
unfolding lex_loop
lex_loop-LexOk zero bs l c h = absurd (omega arith)
lex_loop-LexOk (suc f) [] l c h = refl
lex_loop-LexOk (suc f) (b ∷ bs) l c h =
    round-LexOk (lex_loop f) (length bs) (step b bs l c)
      (λ s k. lex_loop-LexOk f s.bytes s.line s.col (omega arith)) (step-StepOk b bs l c)

-- `lex` ends on every text, with a positioned error or with tokens of the shape of their kind
-- and one end token behind them: the rounds that the model counts are always enough.
pub lex-LexOk : (src : Text) → LexOk (lex src)
unfolding lex
lex-LexOk src = lex_loop-LexOk (suc (length src)) src 1 1 (omega arith)

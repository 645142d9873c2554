-- ===== src/Trans/Lexer/Rounds.antt =====
-- What one round of the scanner reads.
use nmerkar.Base.{ℕ, refl, arith, ◌&&◌, ◌∷◌, Text, codes, starts_with, ◌==◌, length}
use nmerkar.Trans.Lexer.{at, bumps, is_blank, step}
use nmerkar.Trans.Lexer.Literals.{block_lem, bump_lem, comment_lem, token_lem, StepOk, if-StepOk}

-- A round reads at least the byte that it starts at, and its token has the shape of its kind.
pub step-StepOk : (b : ℕ) (bs : Text) (l c : ℕ) → StepOk (length bs) (step b bs l c)
unfolding step
step-StepOk b bs l c =
    if-StepOk (length bs) (is_blank b) _ _ (λ e. omega (arith, bump_lem (at (b ∷ bs) l c)))
      (λ e1.
        if-StepOk (length bs) (b == b'/' && starts_with (codes "/") bs) _ _
          (λ e. comment_lem b bs l c (ground (arith, e)))
          (λ e2.
            if-StepOk (length bs) (b == b'/' && starts_with (codes "*") bs) _ _
              (λ e. block_lem b bs l c l c (bumps 2 (at (b ∷ bs) l c)) refl)
              (λ e3.
                if-StepOk (length bs) (b == b'#') _ _
                  (λ e. comment_lem b bs l c (ground (arith, e))) (λ e4. token_lem b bs l c))))

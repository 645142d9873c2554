-- ===== src/Trans/Run.antt =====
-- Steps on a state that may end with a fault: the `&mut self` methods of trans/src that return
-- a `Result`.
use nmerkar.Base.Results.{Result, ok, err}
use nmerkar.Trans.Token.{Fault}

abbrev pub Run : Type 0 → Type 0 → Type 0
Run S A = S → Result Fault (A × S)

module _ {S : Type 0} where
  abbrev pub pure : {A : Type 0} → A → Run S A
  pure a s = ok (a, s)

  infixl 1 ◌>>=◌ ◌>>◌
  abbrev pub ◌>>=◌ : {A B : Type 0} → Run S A → (A → Run S B) → Run S B
  p >>= f = λ s. elim (p s) [ err e ↦ err e | ok r ↦ f r.0 r.1 ]

  abbrev pub ◌>>◌ : {A B : Type 0} → Run S A → Run S B → Run S B
  p >> q = p >>= λ _. q

  abbrev pub fail : {A : Type 0} → Fault → Run S A
  fail e s = err e

  -- The state, and a change of it.
  abbrev pub get : Run S S
  get s = ok (s, s)

  abbrev pub modify : (S → S) → Run S (Unit {0})
  modify f s = ok (tt, f s)

abbrev pub lift : {S A : Type 0} → Result Fault A → Run S A
lift (ok a) s = ok (a, s)
lift (err e) s = err e

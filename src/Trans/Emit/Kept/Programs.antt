-- ===== src/Trans/Emit/Kept/Programs.antt =====
-- trans/src/emit.rs and trans/src/main.rs: the translator ends with its output or with a
-- positioned error.
use nmerkar.Base.{
  ℕ, Bool, length, refl, arith, ◌≡◌, true, false, List, [], ◌∷◌, ◌++◌, Text, codes, text_eq,
  and_iff, if◌then◌else◌,
}
use nmerkar.Base.Results.{Result, ok, err}
use nmerkar.Trans.Token.{Fault, failed, panicked, out_of_fuel}
use nmerkar.Trans.Run.{pure}
use nmerkar.Trans.Syntax.{Function, Program}
use nmerkar.Trans.Parser.Formed.{formed_stmts, formed_program}
use nmerkar.Trans.Emit.{fn_body, empty_buf, Env, Emit, on_ctx, on_emitter, clear_hoisted}
use nmerkar.Trans.Emit.Stmts.{put_stmts}
use nmerkar.Trans.Emit.Program.{
  bind_params, put_function, put_functions, start, out_of, emit, new_ctx,
}
use nmerkar.Trans.Emit.Safe.{Positioned}
use nmerkar.Trans.Emit.Kept.{
  Ends, Keeps, pure-Keeps, >>=-Keeps, fresh_slot-Keeps, bind_slot-Keeps, exactly,
}
use nmerkar.Trans.Emit.Kept.Lists.{put_stmts-Keeps}

of_Ends :
    {A : Type 0} (k m : ℕ) (v : Env) (r : Result Fault (A × Env)) → Ends k m v r → Positioned r
of_Ends k m v (ok a) h = tt
of_Ends k m v (err (failed e)) h = tt
of_Ends k m v (err panicked) h = h
of_Ends k m v (err out_of_fuel) h = h

of_Keeps : {A : Type 0} {k m : ℕ} (p : Emit A) → Keeps k m p → (v : Env) → Positioned (p v)
of_Keeps {k} {m} p h v = of_Ends k m v (p v) (h.run v)

then_Positioned :
    {A B : Type 0} (r : Result Fault (A × Env)) (f : A → Emit B)
    → Positioned r
    → ((a : A) (v : Env) → Positioned (f a v))
    → Positioned (elim r [ err e ↦ err e | ok q ↦ f q.0 q.1 ])
then_Positioned (ok (a, v)) f h k = k a v
then_Positioned (err (failed e)) f h k = tt
then_Positioned (err panicked) f h k = h
then_Positioned (err out_of_fuel) f h k = h

bind_params-Keeps : (ps : List Text) → Keeps 0 (length ps) (bind_params ps)
unfolding bind_params
bind_params-Keeps [] = pure-Keeps []
bind_params-Keeps (p ∷ ps) =
    exactly
      (>>=-Keeps fresh_slot-Keeps (λ s.
        >>=-Keeps (bind_slot-Keeps p s) (λ u.
          >>=-Keeps (bind_params-Keeps ps) (λ rest. pure-Keeps (s ++ (codes "!\n" ++ rest))))))
      refl (ground arith)

bound :
    (c : Bool) (ps : List Text) (v : Env) → Positioned ((if c then pure [] else bind_params ps) v)
bound true ps v = tt
bound false ps v = of_Keeps (bind_params ps) (bind_params-Keeps ps) v

put_function-Positioned :
    (f : Function) → formed_stmts false f.body ≡ true → (v : Env) → Positioned (put_function f v)
unfolding put_function
put_function-Positioned f h v =
    then_Positioned
      ((if text_eq f.name (codes "main") then pure [] else bind_params f.params)
        (on_ctx (λ c. new_ctx (text_eq f.name (codes "main"))) v))
      _
      (bound (text_eq f.name (codes "main")) f.params
        (on_ctx (λ c. new_ctx (text_eq f.name (codes "main"))) v))
      (λ binds w.
        then_Positioned (put_stmts f.body empty_buf fn_body (on_emitter clear_hoisted w)) _
          (of_Keeps (put_stmts f.body empty_buf fn_body)
            (put_stmts-Keeps false f.body h empty_buf fn_body) (on_emitter clear_hoisted w))
          (λ r u. tt))

put_functions-Positioned :
    (fs : Program) → formed_program fs ≡ true → (v : Env) → Positioned (put_functions fs v)
unfolding put_functions formed_program
put_functions-Positioned [] h v = tt
put_functions-Positioned (f ∷ fs) h v =
    then_Positioned (put_function f v) _ (put_function-Positioned f ((and_iff _ _).0 h).0 v)
      (λ u w. put_functions-Positioned fs ((and_iff _ _).0 h).1 w)

out_of-Positioned : (r : Result Fault ((Unit {0}) × Env)) → Positioned r → Positioned (out_of r)
out_of-Positioned (ok q) h = tt
out_of-Positioned (err (failed e)) h = tt
out_of-Positioned (err panicked) h = h
out_of-Positioned (err out_of_fuel) h = h

-- A program of the kind the parser makes is emitted, or refused with a positioned error.
pub emit-Positioned : (fs : Program) → formed_program fs ≡ true → Positioned (emit fs)
unfolding emit
emit-Positioned fs h = out_of-Positioned _ (put_functions-Positioned fs h (start fs))

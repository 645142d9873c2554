-- ===== src/Base/Decimal.antt =====
-- Numbers printed in decimal digits.
use Prim.Native.Nat.{ℕ, zero, suc, ◌/◌, ◌%◌}
use mathlib.Core.List.{[], ◌∷◌}
use nmerkar.Base.Tests.{if◌then◌else◌, ltb}
use nmerkar.Base.Lists.{get_or}
use nmerkar.Base.Texts.{Text, codes}

-- The decimal digits of a number, in front of a text.
unfoldable pub decimal_loop : ℕ → ℕ → Text → Text
decimal_loop zero n t = t
decimal_loop (suc f) n t =
    let digit = get_or (codes "0123456789") (n % 10) 0 in
    let higher = decimal_loop f (n / 10) (digit ∷ t) in if ltb n 10 then digit ∷ t else higher

-- `{n}` of a format text
unfoldable pub decimal : ℕ → Text
unfolding decimal_loop
decimal n = decimal_loop (suc n) n []

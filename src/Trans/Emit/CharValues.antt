-- ===== src/Trans/Emit/CharValues.antt =====
-- trans/src/emit.rs: which character literals have a value.
use nmerkar.Base.{
  ℕ, ◌≡◌, refl, ◌∙◌, arith, Bool, true, false, ◌&&◌, ◌||◌, not, none, some, Text, if◌then◌else◌,
  ◌==◌, text_eq, [], ◌∷◌, take, length,
}
use nmerkar.Trans.Emit.Exprs.{decode_char, Decoded, value, decode_escape, escape_value}

-- Behind the backslash: one byte of `ntr0\'`, and the quote that closes the literal.
abbrev pub is_escape : Text → Bool
is_escape (e ∷ q ∷ []) =
    e == b'n' || (e == b't' || (e == b'r' || (e == b'0' || (e == b'\\' || e == b'\''))))
is_escape _ = false

-- Something stands between the quotes, and where it begins with a backslash it is one of the six
-- escapes.
abbrev pub has_value : Text → Bool
has_value (q ∷ b ∷ c ∷ t) = not (b == b'\\') || is_escape (c ∷ t)
has_value _ = false

abbrev pub is_value : Decoded → Bool
is_value (value v) = true
is_value _ = false

escape_ok :
    (t : Text) (n u r z b q : Bool)
    → is_value (
        decode_escape t (
          if n
          then some 10
          else if u
          then some 9
          else if r
          then some 13
          else if z
          then some 0
          else if b
          then some 92
          else if q
          then some 39
          else none))
      ≡ (n || (u || (r || (z || (b || q)))))
escape_ok t true u r z b q = refl
escape_ok t false true r z b q = refl
escape_ok t false false true z b q = refl
escape_ok t false false false true b q = refl
escape_ok t false false false false true q = refl
escape_ok t false false false false false true = refl
escape_ok t false false false false false false = refl

inner_ok :
    (t : Text) (v : ℕ) (p r : Bool)
    → is_value (decode_escape t (escape_value t)) ≡ r
    → is_value (if p then decode_escape t (escape_value t) else value v) ≡ (not p || r)
inner_ok t v true r h = h
inner_ok t v false r h = refl

short_escape :
    (c d : ℕ) → is_value (decode_escape (c ∷ []) (escape_value (c ∷ []))) ≡ is_escape (c ∷ d ∷ [])
unfolding text_eq
short_escape c d =
    escape_ok (c ∷ []) (c == b'n' && true) (c == b't' && true) (c == b'r' && true)
      (c == b'0' && true) (c == b'\\' && true) (c == b'\'' && true)
    ∙ ground arith

long_escape :
    (c d : ℕ) (t : Text) → is_value (decode_escape (c ∷ d ∷ t) (escape_value (c ∷ d ∷ t))) ≡ false
unfolding text_eq
long_escape c d t =
    escape_ok (c ∷ d ∷ t) (c == b'n' && false) (c == b't' && false) (c == b'r' && false)
      (c == b'0' && false) (c == b'\\' && false) (c == b'\'' && false)
    ∙ ground arith

pub decode_char-has_value : (t : Text) → is_value (decode_char t) ≡ has_value t
unfolding decode_char text_eq
decode_char-has_value [] = refl
decode_char-has_value (q ∷ []) = refl
decode_char-has_value (q ∷ b ∷ []) = refl
decode_char-has_value (q ∷ b ∷ c ∷ []) = inner_ok [] b (b == b'\\') false refl
decode_char-has_value (q ∷ b ∷ c ∷ d ∷ []) =
    inner_ok (c ∷ []) b (b == b'\\') (is_escape (c ∷ d ∷ [])) (short_escape c d)
decode_char-has_value (q ∷ b ∷ c ∷ d ∷ x ∷ t) =
    inner_ok (c ∷ d ∷ take (length t) (x ∷ t)) b (b == b'\\') false
      (long_escape c d (take (length t) (x ∷ t)))

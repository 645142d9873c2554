-- ===== src/Trans/Lexer/Shapes.antt =====
-- The texts that tokens of each kind have, and the streams of tokens of the scanner.
use nmerkar.Base.{ℕ, Bool, false, ◌&&◌, ◌||◌, List, [], ◌∷◌, Text, contains, all, ◌==◌}
use nmerkar.Trans.Token.{Kind, int, ident, str, char, punct, eof, is_kind, Token, multi_punct}
use nmerkar.Trans.Lexer.{is_digit, is_hex_digit, is_name_start, is_name_byte, is_graphic}

-- Behind the first digit: `x` or `X`, and at least one hexadecimal digit.
abbrev pub is_hex_tail : Text → Bool
is_hex_tail (x ∷ d ∷ ds) = (x == b'x' || x == b'X') && all is_hex_digit (d ∷ ds)
is_hex_tail _ = false

abbrev pub is_number : Text → Bool
is_number [] = false
is_number (b ∷ bs) = all is_digit (b ∷ bs) || (b == b'0' && is_hex_tail bs)

abbrev pub is_name : Text → Bool
is_name [] = false
is_name (b ∷ bs) = is_name_start b && all is_name_byte bs

abbrev pub ends_in : ℕ → Text → Bool
ends_in q [] = false
ends_in q (b ∷ []) = b == q
ends_in q (b ∷ d ∷ bs) = ends_in q (d ∷ bs)

-- The quote at both ends.
abbrev pub is_quoted : ℕ → Text → Bool
is_quoted q [] = false
is_quoted q (b ∷ bs) = b == q && ends_in q bs

abbrev pub is_one_graphic : Text → Bool
is_one_graphic (b ∷ []) = is_graphic b
is_one_graphic _ = false

abbrev pub has_shape : Kind → Text → Bool
has_shape int s = is_number s
has_shape ident s = is_name s
has_shape str s = is_quoted b'"' s
has_shape char s = is_quoted b'\'' s
has_shape punct s = contains multi_punct s || is_one_graphic s
has_shape eof s = false

abbrev pub is_shaped : Token → Bool
is_shaped t = has_shape t.kind t.text

-- Tokens with the shape of their kind, then one end token.
abbrev pub is_stream : List Token → Bool
is_stream [] = false
is_stream (t ∷ []) = is_kind t.kind eof
is_stream (t ∷ u ∷ us) = is_shaped t && is_stream (u ∷ us)

-- ===== src/Base/Lines.antt =====
-- Texts cut into lines and words, as `lines`, `trim`, `split_whitespace`, `split_once` and
-- `split(ch).next()` of Rust's standard library do.
use Prim.Native.Nat.{ℕ}
use mathlib.Core.Path.{◌≡◌, refl, ap}
use mathlib.Core.Bool.{Bool, true, false, not, ◌&&◌, ◌||◌}
use mathlib.Core.Option.{Option, none, some}
use mathlib.Core.List.{List, [], ◌∷◌, ◌++◌}
use native.Mathlib.Omega.{arith}
use nmerkar.Base.Tests.{leb, ◌==◌, if◌then◌else◌, ==_iff}
use nmerkar.Base.Lists.{all}
use nmerkar.Base.Texts.{Text}

-- `char::is_whitespace`, the White_Space property of Unicode.
unfoldable pub is_whitespace : ℕ → Bool
is_whitespace c =
    c == 32
    || (leb 9 c && leb c 13)
    || c == 0x85
    || c == 0xA0
    || c == 0x1680
    || (leb 0x2000 c && leb c 0x200A)
    || c == 0x2028
    || c == 0x2029
    || c == 0x202F
    || c == 0x205F
    || c == 0x3000

unfoldable pub trim_start : Text → Text
trim_start [] = []
trim_start (c ∷ s) = if is_whitespace c then trim_start s else c ∷ s

abbrev keep_first : ℕ → Text → Text
keep_first c [] = if is_whitespace c then [] else c ∷ []
keep_first c (d ∷ s) = c ∷ d ∷ s

unfoldable pub trim_end : Text → Text
trim_end [] = []
trim_end (c ∷ s) = keep_first c (trim_end s)

abbrev pub trim : Text → Text
trim s = trim_end (trim_start s)

-- The text before the first `ch`, or all of it.
unfoldable pub before_first : ℕ → Text → Text
before_first ch [] = []
before_first ch (c ∷ s) = if c == ch then [] else c ∷ before_first ch s

abbrev pub cons_key : ℕ → Option (Text × Text) → Option (Text × Text)
cons_key c none = none
cons_key c (some (k, v)) = some (c ∷ k, v)

unfoldable pub split_once : ℕ → Text → Option (Text × Text)
split_once ch [] = none
split_once ch (c ∷ s) = if c == ch then some ([], s) else cons_key c (split_once ch s)

abbrev pub push : ℕ → List Text → List Text
push c [] = (c ∷ []) ∷ []
push c (l ∷ ls) = (c ∷ l) ∷ ls

abbrev pub at_feed : Text → Bool
at_feed [] = false
at_feed (c ∷ s) = c == 10

-- A line ends at LF or CRLF; there is no empty line behind the last end.
unfoldable pub lines : Text → List Text
lines [] = []
lines (c ∷ s) =
    let rest = lines s in
    if c == 10 then [] ∷ rest else if c == 13 && at_feed s then rest else push c rest

abbrev pub at_gap : Text → Bool
at_gap [] = true
at_gap (c ∷ s) = is_whitespace c

unfoldable pub words : Text → List Text
words [] = []
words (c ∷ s) =
    let rest = words s in
    if is_whitespace c then rest else if at_gap s then (c ∷ []) ∷ rest else push c rest

-- No white space.
abbrev pub is_word : Text → Bool
is_word = all (λ c. not (is_whitespace c))

-- A line without line ends in front of an LF is a line of the text.
abbrev pub is_line : Text → Bool
is_line = all (λ c. not (c == 10) && not (c == 13))

pub lines_lem : (l s : Text) → is_line l ≡ true → lines (l ++ (10 ∷ s)) ≡ l ∷ lines s
unfolding lines
lines_lem [] s h = refl
lines_lem (c ∷ l) s h = ground (arith, lines_lem l s)

blank : is_whitespace 32 ≡ true
unfolding is_whitespace
blank = refl

pub words_lem :
    (c : ℕ) (w s : Text) → is_word (c ∷ w) ≡ true → words (c ∷ w ++ (32 ∷ s)) ≡ (c ∷ w) ∷ words s
unfolding words
words_lem c [] s h = ground (arith, blank)
words_lem c (d ∷ w) s h = ground (arith, words_lem d w s)

pub words_last : (c : ℕ) (w : Text) → is_word (c ∷ w) ≡ true → words (c ∷ w) ≡ (c ∷ w) ∷ []
unfolding words
words_last c [] h = ground arith
words_last c (d ∷ w) h = ground (arith, words_last d w)

pub before_first_lem :
    (ch : ℕ) (s : Text) → all (λ c. not (c == ch)) s ≡ true → before_first ch s ≡ s
unfolding before_first
before_first_lem ch [] h = refl
before_first_lem ch (c ∷ s) h = ground (arith, before_first_lem ch s)

pub split_once_lem :
    (ch : ℕ) (k v : Text)
    → all (λ c. not (c == ch)) k ≡ true
    → split_once ch (k ++ (ch ∷ v)) ≡ some (k, v)
unfolding split_once
split_once_lem ch [] v h = rw ((==_iff ch ch).1 refl) refl
split_once_lem ch (c ∷ k) v h = ground (arith, split_once_lem ch k v)

-- A text whose tail is not cut at its end is not cut either.
pub trim_end_cons :
    (c d : ℕ) (t : Text) → trim_end (d ∷ t) ≡ d ∷ t → trim_end (c ∷ d ∷ t) ≡ c ∷ d ∷ t
unfolding trim_end
trim_end_cons c d t h = ap (keep_first c) h

-- ===== src/Pkg/Lock/RoundTrip.antt =====
-- comp/src/pkg.rs: `parse_lock` reads what `render` writes.
use nmerkar.Base.{
  ℕ, Bool, true, false, ◌&&◌, not, ◌==◌, all-append, all-weaken, ◌≡◌, ◌≢◌, refl, ap, ◌∙◌, arith,
  some, List, [], ◌∷◌, ◌++◌, Text, codes, text_eq, strip_prefix, lookup, insert, all, lines, words,
  trim_start, trim_end, before_first, split_once, lines_lem, words_lem, words_last,
  before_first_lem, trim_end_cons, is_word, is_line, is_whitespace, and_iff,
}
use nmerkar.Base.Results.{ok, ◌>>=◌}
use nmerkar.Pkg.Lock.{
  Pin, add_fields, parse_kv_fields, pin_of, checked, parse_line, read_pin, parse_lines, parse_lock,
  mark, pin_line, render_pins, render, lock_header, stripped,
}

-- A value that a field can hold: no white space and no semicolon.
abbrev pub is_value : Text → Bool
is_value = all (λ c. not (is_whitespace c) && not (c == b';'))

pub record IsWritable (p : Pin) : Type 0 where
  pub source_value : is_value p.source ≡ true
  pub ref_value : is_value p.ref ≡ true
  pub sha_value : is_value p.sha ≡ true
  pub root_value : is_value p.root ≡ true
  pub has_source : p.source ≢ []
  pub has_root : p.root ≢ []

abbrev not_semicolon : ℕ → Bool
not_semicolon c = not (c == b';')

abbrev not_line_end : ℕ → Bool
not_line_end c = not (c == 10) && not (c == 13)

value_char :
    (c : ℕ)
    → (not (is_whitespace c) && not (c == b';')) ≡ true
    → (not (is_whitespace c) ≡ true) × (not_semicolon c ≡ true) × (not_line_end c ≡ true)
unfolding is_whitespace
value_char c h = ground arith

-- What the fields of a pin look like, by the test of their characters.
module _ (q : ℕ → Bool)
    (weaken : (c : ℕ) → (not (is_whitespace c) && not (c == b';')) ≡ true → q c ≡ true) where
  value-all : (v : Text) → is_value v ≡ true → all q v ≡ true
  value-all = all-weaken (λ c. not (is_whitespace c) && not (c == b';')) q weaken

  field-all : (key v : Text) → all q key ≡ true → is_value v ≡ true → all q (key ++ v) ≡ true
  field-all key v h k = all-append q key v h (value-all v k)

mark-value : (b : Bool) → is_value (mark b) ≡ true
unfolding is_whitespace
mark-value true = refl
mark-value false = refl

-- A text that is not empty and does not end in white space.
record IsSolid (t : Text) : Type 0 where
  untrimmed : trim_end t ≡ t
  not_empty : t ≢ []

IsSolid-cons : (c : ℕ) (t : Text) → IsSolid t → IsSolid (c ∷ t)
IsSolid-cons c [] h = absurd (h.not_empty refl)
IsSolid-cons c (d ∷ t) h = record {
  untrimmed = trim_end_cons c d t h.untrimmed;
  not_empty = λ e. cc;
}

IsSolid-append : (s t : Text) → IsSolid t → IsSolid (s ++ t)
IsSolid-append [] t h = h
IsSolid-append (c ∷ s) t h = IsSolid-cons c (s ++ t) (IsSolid-append s t h)

IsSolid-sig : (b : Bool) → IsSolid (codes "sig=" ++ mark b)
unfolding trim_end is_whitespace
IsSolid-sig true = record { untrimmed = refl; not_empty = λ e. cc }
IsSolid-sig false = record { untrimmed = refl; not_empty = λ e. cc }

-- The parts of a line, named.
abbrev source_part : Pin → Text
source_part p = codes "source=" ++ p.source

abbrev ref_part : Pin → Text
ref_part p = codes "ref=" ++ p.ref

abbrev sha_part : Pin → Text
sha_part p = codes "sha=" ++ p.sha

abbrev root_part : Pin → Text
root_part p = codes "root=" ++ p.root

abbrev sig_part : Pin → Text
sig_part p = codes "sig=" ++ mark p.signed

abbrev fields_text : Pin → Text
fields_text p =
    source_part p
    ++ (32 ∷ (ref_part p ++ (32 ∷ (sha_part p ++ (32 ∷ (root_part p ++ (32 ∷ sig_part p)))))))

-- Every part is a value itself.
record PartsAreValues (p : Pin) : Type 0 where
  source_is : is_value (source_part p) ≡ true
  ref_is : is_value (ref_part p) ≡ true
  sha_is : is_value (sha_part p) ≡ true
  root_is : is_value (root_part p) ≡ true
  sig_is : is_value (sig_part p) ≡ true

parts_are_values : (p : Pin) → IsWritable p → PartsAreValues p
unfolding is_whitespace
parts_are_values p w = record {
  source_is = all-append _ (codes "source=") p.source refl w.source_value;
  ref_is = all-append _ (codes "ref=") p.ref refl w.ref_value;
  sha_is = all-append _ (codes "sha=") p.sha refl w.sha_value;
  root_is = all-append _ (codes "root=") p.root refl w.root_value;
  sig_is = all-append _ (codes "sig=") (mark p.signed) refl (mark-value p.signed);
}

all-gap :
    (q : ℕ → Bool) (x y : Text)
    → q 32 ≡ true
    → all q x ≡ true
    → all q y ≡ true
    → all q (x ++ (32 ∷ y)) ≡ true
all-gap q x y space h k = all-append q x (32 ∷ y) h ((and_iff (q 32) (all q y)).1 (space, k))

-- Every character of a line passes a test that spaces, the first word and the values pass.
line-all :
    (q : ℕ → Bool) (p : Pin)
    → ((c : ℕ) → (not (is_whitespace c) && not (c == b';')) ≡ true → q c ≡ true)
    → q 32 ≡ true
    → all q (codes "pkg ") ≡ true
    → IsWritable p
    → all q (pin_line p) ≡ true
line-all q p weaken space first w =
    let parts = parts_are_values p w in
    all-append q (codes "pkg ") (fields_text p) first (
      all-gap q (source_part p) _ space (value-all q weaken (source_part p) parts.source_is) (
        all-gap q (ref_part p) _ space (value-all q weaken (ref_part p) parts.ref_is) (
          all-gap q (sha_part p) _ space (value-all q weaken (sha_part p) parts.sha_is) (
            all-gap q (root_part p) (sig_part p) space
              (value-all q weaken (root_part p) parts.root_is)
              (value-all q weaken (sig_part p) parts.sig_is)))))

line-not_semicolon : (p : Pin) → IsWritable p → all not_semicolon (pin_line p) ≡ true
line-not_semicolon p w = line-all not_semicolon p (λ c h. (value_char c h).1) refl refl w

pub line-IsLine : (p : Pin) → IsWritable p → is_line (pin_line p) ≡ true
line-IsLine p w = line-all not_line_end p (λ c h. (value_char c h).2) refl refl w

line-untrimmed : (p : Pin) → trim_end (pin_line p) ≡ pin_line p
line-untrimmed p =
    let sig = IsSolid-cons 32 (sig_part p) (IsSolid-sig p.signed) in
    let root = IsSolid-cons 32 _ (IsSolid-append (root_part p) _ sig) in
    let sha = IsSolid-cons 32 _ (IsSolid-append (sha_part p) _ root) in
    let ref = IsSolid-cons 32 _ (IsSolid-append (ref_part p) _ sha) in
    let line = IsSolid-append (codes "pkg ") _ (IsSolid-append (source_part p) _ ref) in
    line.untrimmed

stripped_line : (p : Pin) → IsWritable p → stripped (pin_line p) ≡ pin_line p
stripped_line p w =
    ap (λ (t : Text). trim_end (trim_start t))
      (before_first_lem b';' (pin_line p) (line-not_semicolon p w))
    ∙ starts_solid
    ∙ line-untrimmed p
  where
    starts_solid : trim_end (trim_start (pin_line p)) ≡ trim_end (pin_line p)
    starts_solid = unfold trim_start is_whitespace in refl

value-is_word : (v : Text) → is_value v ≡ true → is_word v ≡ true
value-is_word = value-all (λ c. not (is_whitespace c)) (λ c h. (value_char c h).0)

split_words :
    (p : Pin)
    → IsWritable p
    → words (fields_text p)
      ≡ source_part p ∷ ref_part p ∷ sha_part p ∷ root_part p ∷ sig_part p ∷ []
split_words p w =
    let parts = parts_are_values p w in
    words_lem b's' (codes "ource=" ++ p.source) _ (value-is_word (source_part p) parts.source_is)
    ∙ ap (λ ws. source_part p ∷ ws)
        (words_lem b'r' (codes "ef=" ++ p.ref) _ (value-is_word (ref_part p) parts.ref_is)
          ∙ ap (λ ws. ref_part p ∷ ws)
              (words_lem b's' (codes "ha=" ++ p.sha) _ (value-is_word (sha_part p) parts.sha_is)
                ∙ ap (λ ws. sha_part p ∷ ws)
                    (words_lem b'r' (codes "oot=" ++ p.root) _
                        (value-is_word (root_part p) parts.root_is)
                      ∙ ap (λ ws. root_part p ∷ ws)
                          (words_last b's' (codes "ig=" ++ mark p.signed)
                            (value-is_word (sig_part p) parts.sig_is)))))

mark_read : (b : Bool) → text_eq (mark b) (codes "ok") ≡ b
unfolding text_eq
mark_read true = refl
mark_read false = refl

from_parts :
    (p : Pin)
    → pin_of
        (add_fields [] (source_part p ∷ ref_part p ∷ sha_part p ∷ root_part p ∷ sig_part p ∷ []))
      ≡ p
unfolding add_fields insert lookup text_eq split_once
from_parts p = ap (λ b. record p { signed = b }) (mark_read p.signed)

fields_read : (p : Pin) → IsWritable p → pin_of (parse_kv_fields (fields_text p)) ≡ p
unfolding parse_kv_fields
fields_read p w = ap (λ ws. pin_of (add_fields [] ws)) (split_words p w) ∙ from_parts p

nonempty_test : (t : Text) → t ≢ [] → text_eq t [] ≡ false
unfolding text_eq
nonempty_test [] h = absurd (h refl)
nonempty_test (c ∷ t) h = refl

checked_lem : (line : Text) (p : Pin) → IsWritable p → checked line p ≡ ok p
checked_lem line p w =
    rw (nonempty_test p.source w.has_source, nonempty_test p.root w.has_root) refl

-- The steps of `parse_line` for a line that is a pin.
parse_line-steps :
    (line kept rest : Text) (p : Pin)
    → stripped line ≡ kept
    → strip_prefix (codes "pkg ") kept ≡ some rest
    → pin_of (parse_kv_fields rest) ≡ p
    → checked kept p ≡ ok p
    → parse_line line ≡ ok (p ∷ [])
unfolding parse_line
parse_line-steps line kept rest p e1 e2 e3 e4 =
    ap (λ k. read_pin k (strip_prefix (codes "pkg ") k)) e1
    ∙ ap (read_pin kept) e2
    ∙ ap (λ q. checked kept q >>= λ pin. ok (pin ∷ [])) e3
    ∙ ap (λ r. r >>= λ pin. ok (pin ∷ [])) e4

parse_line_lem : (p : Pin) → IsWritable p → parse_line (pin_line p) ≡ ok (p ∷ [])
parse_line_lem p w =
    parse_line-steps (pin_line p) (pin_line p) (fields_text p) p (stripped_line p w)
      (unfold strip_prefix in refl) (fields_read p w) (checked_lem (pin_line p) p w)

-- Every pin of a list can be written.
abbrev pub AreWritable : List Pin → Type 0
AreWritable [] = Unit
AreWritable (p ∷ ps) = IsWritable p × AreWritable ps

parse_lines-render_pins :
    (ps : List Pin) → AreWritable ps → parse_lines (lines (render_pins ps)) ≡ ok ps
unfolding parse_lines render_pins
parse_lines-render_pins [] w = unfold lines in refl
parse_lines-render_pins (p ∷ ps) (w, ws) =
    rw (lines_lem (pin_line p) (render_pins ps) (line-IsLine p w))
      (rw (parse_line_lem p w, parse_lines-render_pins ps ws) refl)

-- The header is a comment: no pin is read from it.
header_skipped : parse_line lock_header ≡ ok []
unfolding parse_line strip_prefix before_first trim_start trim_end
header_skipped = refl

-- A lock file that `render` writes is read back by `parse_lock` as the same pins in the same
-- order, where no value has white space or a semicolon and every pin has a source and a root.
pub parse_lock-render : (ps : List Pin) → AreWritable ps → parse_lock (render ps) ≡ ok ps
unfolding parse_lock render
parse_lock-render ps w =
    ap parse_lines (lines_lem lock_header (render_pins ps) refl)
    ∙ after_header (parse_lines-render_pins ps w)
  where
    after_header :
        parse_lines (lines (render_pins ps)) ≡ ok ps
        → parse_lines (lock_header ∷ lines (render_pins ps)) ≡ ok ps
    after_header e = unfold parse_lines in rw (header_skipped, e) refl

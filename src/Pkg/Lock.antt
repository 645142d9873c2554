-- ===== src/Pkg/Lock.antt =====
-- comp/src/pkg.rs: the lock file `.nk/lock`, its pins and its text.
pub mod RoundTrip
use nmerkar.Base.{
  ℕ, Bool, true, false, ◌&&◌, ◌||◌, not, Option, none, some, List, [], ◌∷◌, ◌++◌, Text, codes,
  text_eq, strip_prefix, lookup, insert, if◌then◌else◌, keep, find, lines, words, trim,
  before_first, split_once,
}
use nmerkar.Base.Results.{Result, ok, err, ◌>>=◌}

-- `Pin`
pub record Pin : Type 0 where
  pub source : Text
  pub ref : Text
  pub sha : Text
  pub root : Text
  pub signed : Bool

-- The `user_err!` exit of `parse_lock`, with the line.
pub data LockError : Type 0 where
  bad_pin : Text → LockError

-- `parse_kv_fields`: a part without `=` is skipped, a later key replaces an earlier one.
abbrev add_field : List (Text × Text) → Option (Text × Text) → List (Text × Text)
add_field m none = m
add_field m (some (k, v)) = insert k v m

unfoldable pub add_fields : List (Text × Text) → List Text → List (Text × Text)
add_fields m [] = m
add_fields m (part ∷ parts) = add_fields (add_field m (split_once b'=' part)) parts

unfoldable pub parse_kv_fields : Text → List (Text × Text)
parse_kv_fields rest = add_fields [] (words rest)

-- `f.get(key).cloned().unwrap_or(default)`
abbrev pub field_or : Text → Text → List (Text × Text) → Text
field_or key default f = elim (lookup key f) [ none ↦ default | some v ↦ v ]

abbrev is_ok_mark : Option Text → Bool
is_ok_mark none = false
is_ok_mark (some s) = text_eq s (codes "ok")

abbrev pub pin_of : List (Text × Text) → Pin
pin_of f = record {
  source = field_or (codes "source") [] f;
  ref = field_or (codes "ref") (codes "-") f;
  sha = field_or (codes "sha") (codes "-") f;
  root = field_or (codes "root") [] f;
  signed = is_ok_mark (lookup (codes "sig") f);
}

-- A pin needs a source and a root.
abbrev pub checked : Text → Pin → Result LockError Pin
checked line pin =
    if text_eq pin.source [] || text_eq pin.root [] then err (bad_pin line) else ok pin

-- `line.split(';').next().unwrap_or("").trim()`
abbrev pub stripped : Text → Text
stripped line = trim (before_first b';' line)

-- A line behind the word `pkg` is a pin, any other is skipped.
abbrev pub read_pin : Text → Option Text → Result LockError (List Pin)
read_pin line none = ok []
read_pin line (some rest) = do pin ← checked line (pin_of (parse_kv_fields rest)); ok (pin ∷ [])

-- One round of `parse_lock`.
unfoldable pub parse_line : Text → Result LockError (List Pin)
parse_line line = read_pin (stripped line) (strip_prefix (codes "pkg ") (stripped line))

unfoldable pub parse_lines : List Text → Result LockError (List Pin)
parse_lines [] = ok []
parse_lines (line ∷ rest) = do
  first ← parse_line line
  others ← parse_lines rest
  ok (first ++ others)

-- `parse_lock`
unfoldable pub parse_lock : Text → Result LockError (List Pin)
parse_lock src = parse_lines (lines src)

-- `for_source`, `for_source_ref`
unfoldable pub for_source : List Pin → Text → List Pin
for_source pins id = keep (λ p. text_eq p.source id) pins

unfoldable pub for_source_ref : List Pin → Text → Text → Option Pin
for_source_ref pins id r = find (λ p. text_eq p.source id && text_eq p.ref r) pins

abbrev pub mark : Bool → Text
mark true = codes "ok"
mark false = codes "-"

-- The line of a pin in `render`, without its end.
abbrev pub pin_line : Pin → Text
pin_line p =
    codes "pkg "
    ++ ((codes "source=" ++ p.source)
        ++ (32
            ∷ ((codes "ref=" ++ p.ref)
                ++ (32
                    ∷ ((codes "sha=" ++ p.sha)
                        ++ (32
                            ∷ ((codes "root=" ++ p.root)
                                ++ (32 ∷ (codes "sig=" ++ mark p.signed)))))))))

unfoldable pub render_pins : List Pin → Text
render_pins [] = []
render_pins (p ∷ ps) = pin_line p ++ (10 ∷ render_pins ps)

abbrev pub lock_header : Text
lock_header = codes "; nk package lock v1 — resolved pins; latest never appears here"

-- `render`
unfoldable pub render : List Pin → Text
render pins = lock_header ++ (10 ∷ render_pins pins)

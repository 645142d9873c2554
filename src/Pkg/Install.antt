-- ===== src/Pkg/Install.antt =====
-- comp/src/pkg.rs: the approval gate, and the installation of one source.
pub mod Safe
pub mod Progress
mod Tests
use mathlib.Core.List.{reverse}
use nmerkar.Base.{
  ℕ, ◌+◌, leb, Bool, true, false, not, ◌&&◌, ◌||◌, List, [], ◌∷◌, ◌++◌, map, find, Option, none,
  some, Text, codes, text_eq, if◌then◌else◌, trim,
}
use nmerkar.Base.Results.{Result, ok, err, ◌>>=◌}
use nmerkar.Pkg.Lock.{Pin, LockError, parse_lock, for_source, for_source_ref}
use nmerkar.Pkg.Approval.{Approval, parse_approvals, approved}
use nmerkar.Pkg.Envelope.{Envelope, SignatureError, verify_signature}
use nmerkar.Pkg.Diff.{tree_diff}

-- `InstallOpts`, as far as one installation reads it.
pub record InstallOpts : Type 0 where
  pub yes : Bool
  pub locked : Bool

-- What an installation reads: the two files below `.nk`, the terminal and what is typed on it, the
-- name of the user, the date, and the store by the root of a tree.
pub record World : Type 0 where
  pub approvals : Option Text
  pub lock : Option Text
  pub is_terminal : Bool
  pub answer : Text
  pub user : Text
  pub today : Text
  pub store_tree : Text → Option (List (Text × Text))

-- `Fetched` and `PackageContent`: the resolved reference and hash, the envelope, the root and the
-- files of what was fetched.
pub record Fetched : Type 0 where
  pub resolved_ref : Text
  pub sha : Text
  pub envelope : Envelope
  pub root : Text
  pub files : List (Text × Text)

pub data GateError : Type 0 where
  drift : Text → Text → GateError
  needs_terminal : Text → Text → Text → GateError

abbrev lower : ℕ → ℕ
lower c = if leb b'A' c && leb c b'Z' then c + 32 else c

abbrev is_yes : Text → Bool
unfolding text_eq
is_yes line = let a = map lower (trim line) in text_eq a (codes "y") || text_eq a (codes "yes")

-- The question on the terminal, unless `--yes` answers it.
unfoldable pub asked : InstallOpts → World → Text → Text → Text → Result GateError Bool
unfolding is_yes
asked o w id root diff =
    if o.yes
    then ok true
    else if not w.is_terminal
    then err (needs_terminal id root diff)
    else ok (is_yes w.answer)

abbrev approver : InstallOpts → World → Text
approver o w = if o.yes then codes "flag(--yes)" else w.user

-- The approvals behind the gate: passed or not, and the list, with the new entry where it is written.
pub record Gate : Type 0 where
  pub passed : Bool
  pub entries : List Approval
  pub is_new : Bool

abbrev recorded : InstallOpts → World → Text → Text → Option Text → List Approval → Bool → Gate
recorded o w id root key apps false = record { passed = false; entries = apps; is_new = false }
recorded o w id root key apps true = record {
  passed = true;
  entries =
      apps
      ++ (record { source = id; root = root; date = w.today; by = approver o w; key = key } ∷ []);
  is_new = true;
}

abbrev or_empty : Option Text → Text
or_empty none = []
or_empty (some t) = t

-- `approval_gate_key`
unfoldable pub approval_gate_key :
    InstallOpts → World → Text → Text → Text → Option Text → Result GateError Gate
unfolding asked
approval_gate_key o w id root diff key =
    let apps = parse_approvals (or_empty w.approvals) in
    if o.locked
    then err (drift id root)
    else if approved apps id root
    then ok (record { passed = true; entries = apps; is_new = false })
    else asked o w id root diff >>= λ yes. ok (recorded o w id root key apps yes)

abbrev key_part : Option Text → Text
key_part none = []
key_part (some k) = codes " key=" ++ k

unfoldable pub approval_text : List Approval → Text
approval_text [] = []
approval_text (a ∷ rest) =
    codes "approve source="
    ++ (a.source
        ++ (codes " root="
            ++ (a.root
                ++ (codes " date="
                    ++ (a.date
                        ++ (codes " by="
                            ++ (a.by ++ (key_part a.key ++ (10 ∷ approval_text rest)))))))))

-- The text of the approvals file
unfoldable pub render_approvals : List Approval → Text
unfolding approval_text
render_approvals apps =
    codes "; nk package approvals — content-roots a human approved" ++ (10 ∷ approval_text apps)

pub data InstallError : Type 0 where
  bad_lock : LockError → InstallError
  bad_envelope : SignatureError → InstallError
  refused : GateError → InstallError
  unsigned_drift : Text → Text → InstallError

abbrev from : {E A : Type 0} → (E → InstallError) → Result E A → Result InstallError A
from c (ok a) = ok a
from c (err e) = err (c e)

abbrev first_pin : List Pin → Option Pin
first_pin [] = none
first_pin (p ∷ ps) = some p

-- `old_pin`
unfoldable pub old_pin_of : List Pin → Text → Option Text → Option Pin
unfolding for_source for_source_ref
old_pin_of pins id none = first_pin (for_source pins id)
old_pin_of pins id (some r) = for_source_ref pins id r

abbrev is_signed : Option Text → Bool
is_signed none = false
is_signed (some k) = true

-- A pin that was signed must not become unsigned under `--locked`, and is noted otherwise.
unfoldable pub continuity : InstallOpts → Text → Option Pin → Bool → Text → Result InstallError Text
continuity o id none signed diff = ok diff
continuity o id (some p) signed diff =
    if p.signed && not signed
    then (if o.locked
        then err (unsigned_drift id p.root)
        else ok (diff ++ codes " [UNSIGNED after a signed pin]"))
    else ok diff

abbrev key_of : Option Approval → Option Text
key_of none = none
key_of (some a) = a.key

abbrev rotated : Text → Option Text → Text
unfolding text_eq
rotated k none = []
rotated k (some pk) =
    if not (text_eq pk k) then codes " [PUBLISHER KEY ROTATED — verify out of band]" else []

abbrev rotation : Text → Option Text → Option Text → Text
unfolding parse_approvals rotated
rotation id (some k) (some src) =
    rotated k (key_of (find (λ a. text_eq a.source id) (reverse (parse_approvals src))))
rotation id _ _ = []

abbrev tree_of : World → Option Pin → Option (List (Text × Text))
tree_of w none = none
tree_of w (some p) = w.store_tree p.root

-- What an installation gives: the pin, none where the human declined; the approvals; and the pin is
-- a new one or the one of the lock file.
pub record Installed : Type 0 where
  pub pin : Option Pin
  pub entries : List Approval
  pub is_new : Bool

abbrev pinned : Text → Fetched → Bool → Gate → Installed
pinned id f signed g =
    if g.passed
    then record {
      pin = some (record {
        source = id;
        ref = f.resolved_ref;
        sha = f.sha;
        root = f.root;
        signed = signed;
      });
      entries = g.entries;
      is_new = true;
    }
    else record { pin = none; entries = g.entries; is_new = false }

-- The part of `install_one` behind the comparison with the old pin
unfoldable pub install_new :
    InstallOpts → World → Text → Fetched → Option Pin → Result InstallError Installed
unfolding verify_signature approval_gate_key continuity tree_diff rotation
install_new o w id f old = do
  key ← from bad_envelope (verify_signature f.envelope.nk_pub f.envelope.nk_sig f.root)
  diff ← continuity o id old (is_signed key) (tree_diff (tree_of w old) f.files)
  gate ← from refused (approval_gate_key o w id f.root (diff ++ rotation id key w.approvals) key)
  ok (pinned id f (is_signed key) gate)

abbrev pub same_root : Text → Option Pin → Option Pin
unfolding text_eq
same_root root none = none
same_root root (some p) = if text_eq p.root root then some p else none

abbrev verified : World → Option Pin → Result InstallError Installed → Result InstallError Installed
unfolding parse_approvals
verified w none other = other
verified w (some p) other =
    ok (record { pin = some p; entries = parse_approvals (or_empty w.approvals); is_new = false })

-- `install_one`
unfoldable pub install_one :
    InstallOpts → World → Text → Option Text → Fetched → Result InstallError Installed
unfolding install_new old_pin_of parse_lock same_root verified
install_one o w id ref f = do
  pins ← from bad_lock (parse_lock (or_empty w.lock))
  let old = old_pin_of pins id ref
  verified w (same_root f.root old) (install_new o w id f old)

-- ===== src/Pkg/Install/Progress.antt =====
-- comp/src/pkg.rs: an installation that is not stopped ends with a pin.
use nmerkar.Base.{
  codes, ◌≡◌, refl, Bool, true, false, not, ◌&&◌, List, ◌++◌, Option, none, some, inl, inr, Text,
  Bool-cases,
}
use nmerkar.Base.Results.{Result, ok}
use nmerkar.Pkg.Lock.{Pin, parse_lock}
use nmerkar.Pkg.Approval.{parse_approvals, approved}
use nmerkar.Pkg.Envelope.{verify_signature}
use nmerkar.Pkg.Diff.{tree_diff}
use nmerkar.Pkg.Install.{
  InstallOpts, World, Fetched, Gate, asked, recorded, pinned, or_empty, approval_gate_key,
  InstallError, old_pin_of, is_signed, continuity, rotation, tree_of, Installed, install_new,
  same_root, verified, install_one,
}
use nmerkar.Pkg.Install.Safe.{same_root-some}

-- A result that is a pin with this root.
abbrev pub Pins : Text → Result InstallError Installed → Type 0
Pins root m = (r : Installed) × (p : Pin) × (m ≡ ok r) × (r.pin ≡ some p) × (p.root ≡ root)

continuity-ok :
    (o : InstallOpts) (id : Text) (old : Option Pin) (b : Bool) (diff : Text)
    → o.locked ≡ false
    → (d : Text) × (continuity o id old b diff ≡ ok d)
unfolding continuity
continuity-ok o id none b diff l = (diff, refl)
continuity-ok o id (some p) b diff l = elim (Bool-cases (p.signed && not b)) [
  | inl e ↦ (diff ++ codes " [UNSIGNED after a signed pin]", rw (e, l) refl)
  | inr e ↦ (diff, rw e refl)
]

gate-ok :
    (o : InstallOpts) (w : World) (id root diff : Text) (key : Option Text)
    → o.yes ≡ true
    → o.locked ≡ false
    → (g : Gate) × (approval_gate_key o w id root diff key ≡ ok g) × (g.passed ≡ true)
unfolding approval_gate_key asked
gate-ok o w id root diff key y l =
    let apps = parse_approvals (or_empty w.approvals) in
    elim (Bool-cases (approved apps id root)) [
      | inl e ↦ (record { passed = true; entries = apps; is_new = false }, rw (l, e) refl, refl)
      | inr e ↦ (recorded o w id root key apps true, rw (l, e, y) refl, refl)
    ]

install_new-Pins :
    (o : InstallOpts) (w : World) (id : Text) (f : Fetched) (old : Option Pin) (key : Option Text)
    → o.yes ≡ true
    → o.locked ≡ false
    → verify_signature f.envelope.nk_pub f.envelope.nk_sig f.root ≡ ok key
    → Pins f.root (install_new o w id f old)
unfolding install_new
install_new-Pins o w id f old key y l v =
    let (d, a) = continuity-ok o id old (is_signed key) (tree_diff (tree_of w old) f.files) l in
    let (g, b, c) = gate-ok o w id f.root (d ++ rotation id key w.approvals) key y l in
    (
      pinned id f (is_signed key) g,
      record {
        source = id;
        ref = f.resolved_ref;
        sha = f.sha;
        root = f.root;
        signed = is_signed key;
      },
      rw v (rw a (rw b refl)),
      rw c refl,
      refl,
    )

chosen-Pins :
    (w : World) (root : Text) (old s : Option Pin) (other : Result InstallError Installed)
    → same_root root old ≡ s
    → Pins root other
    → Pins root (verified w s other)
unfolding verified
chosen-Pins w root old none other e h = h
chosen-Pins w root old (some p) other e h = (
  record { pin = some p; entries = parse_approvals (or_empty w.approvals); is_new = false },
  p,
  refl,
  refl,
  (same_root-some root old p e).1,
)

-- With `--yes` and without `--locked`, where the lock file can be read and the envelope is absent or
-- verifies, an installation ends with a pin for the root of the fetched content: no gate, prompt or
-- missing terminal stops it.
pub install_one-Pins :
    (o : InstallOpts) (w : World) (id : Text) (ref : Option Text) (f : Fetched) (pins : List Pin)
    (key : Option Text)
    → o.yes ≡ true
    → o.locked ≡ false
    → parse_lock (or_empty w.lock) ≡ ok pins
    → verify_signature f.envelope.nk_pub f.envelope.nk_sig f.root ≡ ok key
    → Pins f.root (install_one o w id ref f)
unfolding install_one
install_one-Pins o w id ref f pins key y l k v = rw k (
    chosen-Pins w f.root (old_pin_of pins id ref) _ (install_new o w id f (old_pin_of pins id ref))
      refl (install_new-Pins o w id f (old_pin_of pins id ref) key y l v))

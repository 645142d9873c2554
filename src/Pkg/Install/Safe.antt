-- ===== src/Pkg/Install/Safe.antt =====
-- comp/src/pkg.rs: what justifies a pin that `install_one` gives.
use nmerkar.Base.{
  ◌⊎◌, ◌∙◌, ℕ, ◌≡◌, refl, sym, ap, arith, Bool, true, false, not, ◌||◌, List, [], ◌∷◌, ◌++◌, length,
  Option, none, some, inl, inr, Text, text_eq, text_eq_iff, text_eq_refl, if◌then◌else◌, trim,
  Bool-cases, ◌==◌, ==_iff, all,
}
use nmerkar.Base.Results.{Result, ok, err, >>=-eq-ok}
use nmerkar.Ed25519.Signature.{verify}
use nmerkar.Ed25519.Signature.Hex.{from_hex32}
use nmerkar.Pkg.Lock.{Pin, parse_lock}
use nmerkar.Pkg.Approval.{Approval, parse_approvals, approved}
use nmerkar.Pkg.Envelope.{
  bad_signature, failed, is_hex, hex_bytes, check_signature, verify_signature,
}
use nmerkar.Pkg.Diff.{tree_diff}
use nmerkar.Pkg.Install.{
  InstallOpts, World, Fetched, GateError, Gate, asked, recorded, or_empty, approval_gate_key,
  InstallError, from, bad_lock, bad_envelope, refused, old_pin_of, is_signed, continuity, rotation,
  tree_of, Installed, pinned, install_new, same_root, verified, install_one,
}

-- A signature over a root, as the two files of an envelope hold it: the key is the trimmed text of
-- `nk.pub`, and it verifies the bytes of `nk.sig`.
pub record IsSignedBy (nk_pub nk_sig : Option Text) (root key : Text) : Type 0 where
  pub pub_text : Text
  pub sig_text : Text
  pub public : List ℕ
  pub pub_file : nk_pub ≡ some pub_text
  pub sig_file : nk_sig ≡ some sig_text
  pub is_key : key ≡ trim pub_text
  pub is_public : from_hex32 key ≡ some public
  pub is_long : length (trim sig_text) ≡ 128
  pub holds : verify public root (hex_bytes (trim sig_text)) ≡ true

both_pass :
    {E A : Type 0} (b c : Bool) (x y : E) (v a : A)
    → (if b then err x else if c then err y else ok v) ≡ ok a
    → (b ≡ false) × (c ≡ false) × (v ≡ a)
both_pass true c x y v a h = absurd cc
both_pass false true x y v a h = absurd cc
both_pass false false x y v a h = (refl, refl, cc)

check_signature-ok :
    (k : Text) (o : Option (List ℕ)) (s root key : Text)
    → check_signature k o s root ≡ ok (some key)
    → (pk : List ℕ) × (o ≡ some pk)
      × (key ≡ k)
      × (length s ≡ 128)
      × (verify pk root (hex_bytes s) ≡ true)
unfolding check_signature
check_signature-ok k none s root key h = absurd cc
check_signature-ok k (some pk) s root key h =
    let (a, b, c) =
      both_pass (not (length s == 128) || not (all is_hex s)) (not (verify pk root (hex_bytes s)))
        bad_signature (failed root) (some k) (some key) h in
    (pk, refl, cc, ground (arith, a, ==_iff (length s) 128), ground (arith, b))

-- A key that `verify_signature` gives has signed the root.
pub verify_signature-IsSignedBy :
    (np ns : Option Text) (root key : Text)
    → verify_signature np ns root ≡ ok (some key)
    → IsSignedBy np ns root key
unfolding verify_signature
verify_signature-IsSignedBy none none root key h = absurd cc
verify_signature-IsSignedBy none (some s) root key h = absurd cc
verify_signature-IsSignedBy (some p) none root key h = absurd cc
verify_signature-IsSignedBy (some p) (some s) root key h =
    let (pk, a, b, c, d) = check_signature-ok (trim p) (from_hex32 (trim p)) (trim s) root key h in
    record {
      pub_text = p;
      sig_text = s;
      public = pk;
      pub_file = refl;
      sig_file = refl;
      is_key = b;
      is_public = rw b a;
      is_long = c;
      holds = d;
    }

approved-last :
    (apps : List Approval) (a : Approval) → approved (apps ++ (a ∷ [])) a.source a.root ≡ true
unfolding approved
approved-last [] a = rw (text_eq_refl a.source, text_eq_refl a.root) refl
approved-last (b ∷ apps) a = ground (arith, approved-last apps a)

recorded-approved :
    (o : InstallOpts) (w : World) (id root : Text) (key : Option Text) (apps : List Approval)
    (b : Bool)
    → (recorded o w id root key apps b).passed ≡ true
    → approved (recorded o w id root key apps b).entries id root ≡ true
recorded-approved o w id root key apps false h = absurd cc
recorded-approved o w id root key apps true h = approved-last apps _

gate_passes :
    (locked known : Bool) (x : GateError) (old g : Gate) (rest : Result GateError Gate)
    → (if locked then err x else if known then ok old else rest) ≡ ok g
    → (locked ≡ false) × (((known ≡ true) × (old ≡ g)) ⊎ (rest ≡ ok g))
gate_passes true known x old g rest h = absurd cc
gate_passes false true x old g rest h = (refl, inl (refl, cc))
gate_passes false false x old g rest h = (refl, inr h)

-- Behind a gate that is passed the content is approved, and `--locked` passes none.
pub approval_gate_key-approved :
    (o : InstallOpts) (w : World) (id root diff : Text) (key : Option Text) (g : Gate)
    → approval_gate_key o w id root diff key ≡ ok g
    → g.passed ≡ true
    → (o.locked ≡ false) × (approved g.entries id root ≡ true)
unfolding approval_gate_key
approval_gate_key-approved o w id root diff key g h t =
    let apps = parse_approvals (or_empty w.approvals) in
    let (open_gate, c) = gate_passes o.locked (approved apps id root) _ _ g _ h in
    (
      open_gate,
      elim c [
        | inl (known, e) ↦ let z : g.entries ≡ apps = ap (λ q. q.entries) (sym e) in rw z known
        | inr q ↦
            let (b, a, e) =
              >>=-eq-ok (asked o w id root diff) (λ yes. ok (recorded o w id root key apps yes))
                q in
            let z : recorded o w id root key apps b ≡ g = cc in
            let k : (recorded o w id root key apps b).passed ≡ true = rw z t in
            rw (← z) (recorded-approved o w id root key apps b k)
      ],
    )

from-ok :
    {E A : Type 0} (c : E → InstallError) (m : Result E A) {a : A} → from c m ≡ ok a → m ≡ ok a
from-ok c (ok b) h = ap ok cc
from-ok c (err e) h = absurd cc

-- What justifies a pin: it is the one that the lock file holds, and its root is that of the content;
-- or it is a new one for the content, whose root is approved, outside `--locked`, and signed by the
-- key of the envelope if the pin says that it is signed.
pub data IsJustified (o : InstallOpts) (w : World) (id : Text) (ref : Option Text) (f : Fetched)
    (r : Installed) (p : Pin) : Type 0 where
  kept :
      (pins : List Pin)
      → parse_lock (or_empty w.lock) ≡ ok pins
      → old_pin_of pins id ref ≡ some p
      → p.root ≡ f.root
      → r.is_new ≡ false
      → IsJustified o w id ref f r p
  approves :
      o.locked ≡ false
      → p.source ≡ id
      → p.root ≡ f.root
      → approved r.entries id f.root ≡ true
      → (key : Option Text) → verify_signature f.envelope.nk_pub f.envelope.nk_sig f.root ≡ ok key
      → p.signed ≡ is_signed key
      → ((k : Text) → key ≡ some k → IsSignedBy f.envelope.nk_pub f.envelope.nk_sig f.root k)
      → IsJustified o w id ref f r p

pinned-some :
    (id : Text) (f : Fetched) (b : Bool) (g : Gate) (p : Pin)
    → (pinned id f b g).pin ≡ some p
    → (g.passed ≡ true)
      × (p.source ≡ id)
      × (p.root ≡ f.root)
      × (p.signed ≡ b)
      × ((pinned id f b g).entries ≡ g.entries)
pinned-some id f b g p h = ground arith

install_new-IsJustified :
    (o : InstallOpts) (w : World) (id : Text) (ref : Option Text) (f : Fetched) (old : Option Pin)
    (r : Installed) (p : Pin)
    → install_new o w id f old ≡ ok r
    → r.pin ≡ some p
    → IsJustified o w id ref f r p
unfolding install_new
install_new-IsJustified o w id ref f old r p h t =
    let (key, a, h1) =
      >>=-eq-ok (from bad_envelope (verify_signature f.envelope.nk_pub f.envelope.nk_sig f.root)) _
        h in
    let (diff, b, h2) =
      >>=-eq-ok (continuity o id old (is_signed key) (tree_diff (tree_of w old) f.files)) _ h1 in
    let text = diff ++ rotation id key w.approvals in
    let (gate, c, h3) = >>=-eq-ok (from refused (approval_gate_key o w id f.root text key)) _ h2 in
    let made : pinned id f (is_signed key) gate ≡ r = cc in
    let t' : (pinned id f (is_signed key) gate).pin ≡ some p = rw made t in
    let (passed, src, root, sig, ents) = pinned-some id f (is_signed key) gate p t' in
    let (unlocked, known) =
      approval_gate_key-approved o w id f.root text key gate (from-ok refused _ c) passed in
    let same : r.entries ≡ gate.entries = ap (λ q. q.entries) (sym made) ∙ ents in
    approves unlocked src root (rw same known) key (from-ok bad_envelope _ a) sig (λ k e.
      verify_signature-IsSignedBy f.envelope.nk_pub f.envelope.nk_sig f.root k
        (from-ok bad_envelope _ a ∙ ap ok e))

pub same_root-some :
    (root : Text) (old : Option Pin) (p : Pin)
    → same_root root old ≡ some p
    → (old ≡ some p) × (p.root ≡ root)
unfolding same_root
same_root-some root none p h = absurd cc
same_root-some root (some q) p h = elim (Bool-cases (text_eq q.root root)) [
  | inl e ↦
      let z : ◌≡◌ {A = Option Pin} (some q) (some p) = rw e at h in
      let k : q ≡ p = cc in (z, ap (λ x. x.root) (sym k) ∙ (text_eq_iff q.root root).0 e)
  | inr e ↦ let z : ◌≡◌ {A = Option Pin} none (some p) = rw e at h in absurd cc
]

chosen-IsJustified :
    (o : InstallOpts) (w : World) (id : Text) (ref : Option Text) (f : Fetched) (pins : List Pin)
    (s : Option Pin) (r : Installed) (p : Pin)
    → parse_lock (or_empty w.lock) ≡ ok pins
    → same_root f.root (old_pin_of pins id ref) ≡ s
    → verified w s (install_new o w id f (old_pin_of pins id ref)) ≡ ok r
    → r.pin ≡ some p
    → IsJustified o w id ref f r p
unfolding verified
chosen-IsJustified o w id ref f pins none r p a e h t =
    install_new-IsJustified o w id ref f (old_pin_of pins id ref) r p h t
chosen-IsJustified o w id ref f pins (some q) r p a e h t =
    let k : record {
      pin = some q;
      entries = parse_approvals (or_empty w.approvals);
      is_new = false;
    }
        ≡ r =
      cc in
    let z : ◌≡◌ {A = Option Pin} (some q) (some p) = ap (λ x. x.pin) k ∙ t in
    let (b, c) = same_root-some f.root (old_pin_of pins id ref) p (e ∙ z) in
    kept pins a b c (ap (λ x. x.is_new) (sym k))

-- A pin that `install_one` gives is justified: it is the one of the lock file and its root is that of
-- the fetched content; or it is a new one for this source and this content, `--locked` is off, the
-- approvals hold the source with the root of the content, and the pin says that it is signed exactly
-- where `verify_signature` gives a key, which has then signed that root.
pub install_one-IsJustified :
    (o : InstallOpts) (w : World) (id : Text) (ref : Option Text) (f : Fetched) (r : Installed)
    (p : Pin)
    → install_one o w id ref f ≡ ok r
    → r.pin ≡ some p
    → IsJustified o w id ref f r p
unfolding install_one
install_one-IsJustified o w id ref f r p h t =
    let (pins, a, k) = >>=-eq-ok (from bad_lock (parse_lock (or_empty w.lock))) _ h in
    chosen-IsJustified o w id ref f pins (same_root f.root (old_pin_of pins id ref)) r p
      (from-ok bad_lock _ a) refl k t

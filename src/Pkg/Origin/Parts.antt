-- ===== src/Pkg/Origin/Parts.antt =====
-- comp/src/pkg.rs: what a GitHub source is made of.
use nmerkar.Base.{
  ℕ, ◌≡◌, ◌≢◌, refl, sym, ap, arith, Bool, true, false, ◌||◌, not, all, any, [], ◌∷◌, ◌++◌, Option,
  none, some, inl, inr, Text, codes, strip_prefix, strip_prefix_iff, if◌then◌else◌, ◌==◌, ==_iff,
  split_once, split_once_lem, Bool-cases, cons_key, ◌↔◌,
}
use nmerkar.Base.Results.{ok, err}
use nmerkar.Pkg.Origin.{
  bad_gh, gh, is_empty, gh_source, two_parts, path_source, url_source, dir_source, any_source,
  parse_source, or_else,
}

some_pair :
    (a b c d : Text)
    → ◌≡◌ {A = Option (Text × Text)} (some (a, b)) (some (c, d))
    → (a ≡ c) × (b ≡ d)
some_pair a b c d h =
    let e : ◌≡◌ {A = Text × Text} (a, b) (c, d) = cc in (ap (λ p. p.0) e, ap (λ p. p.1) e)

cons_key_sound :
    (c : ℕ) (o : Option (Text × Text)) (k v : Text)
    → cons_key c o ≡ some (k, v)
    → (j : Text) × (k ≡ c ∷ j) × (o ≡ some (j, v))
cons_key_sound c none k v h = absurd cc
cons_key_sound c (some (j, w)) k v h =
    let e = some_pair (c ∷ j) w k v h in (j, sym e.0, ap (λ x. some (j, x)) e.1)

split_once_sound :
    (ch : ℕ) (s k v : Text)
    → split_once ch s ≡ some (k, v)
    → (s ≡ k ++ (ch ∷ v)) × (all (λ c. not (c == ch)) k ≡ true)
unfolding split_once
split_once_sound ch [] k v h = absurd cc
split_once_sound ch (c ∷ s) k v h = elim (Bool-cases (c == ch)) [
  | inl e ↦
      let g : ◌≡◌ {A = Option (Text × Text)} (some ([], s)) (some (k, v)) = rw e at h in
      let p = some_pair [] s k v g in
      rw (sym p.0, sym p.1) ((ap (λ x. x ∷ s) ((==_iff c ch).0 e), refl))
  | inr e ↦
      let g : cons_key c (split_once ch s) ≡ some (k, v) = rw e at h in
      let (j, q, r) = cons_key_sound c (split_once ch s) k v g in
      let ih = split_once_sound ch s j v r in rw q ((ap (◌∷◌ c) ih.0, ground (arith, e, ih.1)))
]

-- A source that is read as a GitHub one.
abbrev pub Names : Text → Text → Text → Type 0
Names rest owner repo =
    (rest ≡ owner ++ (b'/' ∷ repo))
    × (all (λ c. not (c == b'/')) owner ≡ true)
    × (any (λ c. c == b'/') repo ≡ false)
    × (is_empty owner ≡ false)
    × (is_empty repo ≡ false)

gh_if :
    (b : Bool) (id x y owner repo : Text)
    → (if b then err (bad_gh id) else ok (gh x y)) ≡ ok (gh owner repo)
    → (b ≡ false) × (x ≡ owner) × (y ≡ repo)
gh_if true id x y owner repo h = absurd cc
gh_if false id x y owner repo h = (refl, cc, cc)

gh_source_sound :
    (id rest owner repo : Text) (o : Option (Text × Text))
    → split_once b'/' rest ≡ o
    → gh_source id (two_parts rest o) ≡ ok (gh owner repo)
    → Names rest owner repo
gh_source_sound id rest owner repo none e h =
    let g = gh_if (is_empty rest || true) id rest [] owner repo h in absurd (ground (arith, g.0))
gh_source_sound id rest owner repo (some (a, b)) e h =
    let g = gh_if (is_empty a || (is_empty b || any (λ c. c == b'/') b)) id a b owner repo h in
    let p = split_once_sound b'/' rest a b e in
    rw (sym g.1, sym g.2)
      ((p.0, p.1, ground (arith, g.0), ground (arith, g.0), ground (arith, g.0)))

no_gh_path : (t owner repo : Text) → path_source t ≢ ok (gh owner repo)
no_gh_path [] owner repo = λ h. cc
no_gh_path (c ∷ t) owner repo = λ h. cc

no_gh_url : (id : Text) (o : Option Text) (owner repo : Text) → url_source id o ≢ ok (gh owner repo)
no_gh_url id none owner repo = λ h. cc
no_gh_url id (some []) owner repo = λ h. cc
no_gh_url id (some (c ∷ t)) owner repo = λ h. cc

no_gh_dir : (id : Text) (o : Option Text) (owner repo : Text) → dir_source id o ≢ ok (gh owner repo)
no_gh_dir id none owner repo =
    no_gh_url id (or_else (strip_prefix (codes "https://") id) (strip_prefix (codes "http://") id))
      owner repo
no_gh_dir id (some t) owner repo = no_gh_path t owner repo

any_source_sound :
    (id owner repo : Text) (o : Option Text)
    → strip_prefix (codes "gh:") id ≡ o
    → any_source id o ≡ ok (gh owner repo)
    → (rest : Text) × (id ≡ codes "gh:" ++ rest) × Names rest owner repo
any_source_sound id owner repo none e h =
    absurd (no_gh_dir id (strip_prefix (codes "path:") id) owner repo h)
any_source_sound id owner repo (some rest) e h = (
  rest,
  (strip_prefix_iff (codes "gh:") id rest).0 e,
  gh_source_sound id rest owner repo (split_once b'/' rest) refl h,
)

gh_source_complete :
    (id rest owner repo : Text)
    → Names rest owner repo
    → gh_source id (two_parts rest (split_once b'/' rest)) ≡ ok (gh owner repo)
gh_source_complete id rest owner repo (e, f, g, h, k) =
    let q : split_once b'/' rest ≡ some (owner, repo) = rw e (split_once_lem b'/' owner repo f) in
    rw (q, h, k, g) refl

-- A source is read as a GitHub one with this owner and this repository just where it is `gh:`, the
-- owner, a slash and the repository, neither part is empty, and neither has a slash in it.
pub parse_source-gh :
    (id owner repo : Text)
    → (parse_source id ≡ ok (gh owner repo))
      ↔ ((rest : Text) × (id ≡ codes "gh:" ++ rest) × Names rest owner repo)
unfolding parse_source
parse_source-gh id owner repo = (
  λ h. any_source_sound id owner repo (strip_prefix (codes "gh:") id) refl h,
  λ (rest, e, n).
      rw ((strip_prefix_iff (codes "gh:") id rest).1 e) (gh_source_complete id rest owner repo n),
)

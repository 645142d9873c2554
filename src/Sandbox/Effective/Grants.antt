-- ===== src/Sandbox/Effective/Grants.antt =====
-- `caps_for_grants`: the compile-time gate of a package allows its grants and nothing else.
use nmerkar.Base.{
  not, ℕ, ◌≤◌, ◌≡◌, refl, Bool, true, false, ◌&&◌, Option, none, some, List, [], ◌∷◌, Text, codes,
  ◌==◌, contains, contains_iff, text_eq, text_eq_iff, arith, Bool-cases, Option-cases, inl, inr,
  Elem, subst, all,
}
use nmerkar.Sandbox.Files.{FileSystem}
use nmerkar.Sandbox.Pattern.{cap_names, pattern_matches}
use nmerkar.Sandbox.Pattern.Meaning.{Matches, pattern_matches_iff}
use nmerkar.Sandbox.Resolve.{Rules}
use nmerkar.Sandbox.Resolve.Laws.{DeniedBy, resolve_cap-denied_iff}
use nmerkar.Sandbox.Caps.{Caps, cap}
use nmerkar.Sandbox.Caps.Laws.{resolves}
use nmerkar.Sandbox.Effective.{Outcome, ok, effective, grants_file, caps_for_grants}
use nmerkar.Sandbox.Effective.Laws.{cap-effective}

-- A listed name, as a pattern, matches itself (exactly) and no other listed name.
abbrev plain_match : Option ℕ → Bool → Bool
plain_match none same = not same
plain_match (some s) same = same && s == 2

names_table :
    all (λ q. all (λ n. plain_match (pattern_matches q n) (text_eq q n)) cap_names) cap_names ≡ true
unfolding pattern_matches
names_table = refl

all_sound : (p : Text → Bool) (xs : List Text) (x : Text) → all p xs ≡ true → Elem x xs → p x ≡ true
all_sound p [] x h m = absurd m
all_sound p (y ∷ xs) x h (inl e) = ground (arith, e)
all_sound p (y ∷ xs) x h (inr m) = all_sound p xs x (ground arith) m

plain_names :
    (q n : Text)
    → Elem q cap_names
    → Elem n cap_names
    → plain_match (pattern_matches q n) (text_eq q n) ≡ true
plain_names q n mq mn =
    all_sound (λ n. plain_match (pattern_matches q n) (text_eq q n)) cap_names n
      (all_sound (λ q. all (λ n. plain_match (pattern_matches q n) (text_eq q n)) cap_names)
        cap_names q names_table mq)
      mn

-- A listed name matched by a listed name is that name.
same_name : (q n : Text) (s : ℕ) → Elem q cap_names → Elem n cap_names → Matches q n s → q ≡ n
same_name q n s mq mn fits =
    ground (arith, plain_names q n mq mn, (pattern_matches_iff q n s).1 fits, text_eq_iff q n)

own_name : (n : Text) → Elem n cap_names → pattern_matches n n ≡ some 2
own_name n m = elim (Option-cases (pattern_matches n n)) [
  | inl e ↦ absurd (ground (arith, e, plain_names n n m m, text_eq_iff n n))
  | inr (s, e) ↦ ground (arith, e, plain_names n n m m)
]

star_everything : (name : Text) → pattern_matches (codes "*") name ≡ some 0
unfolding pattern_matches
star_everything name = refl

abbrev rules_for : List Text → Rules
rules_for grants = (grants_file grants).base

granted :
    (grants : List Text) (name : Text)
    → Elem name cap_names
    → Elem name grants
    → resolves (rules_for grants) name ≡ true
granted grants name m g = elim (Bool-cases (resolves (rules_for grants) name)) [
  | inl e ↦ e
  | inr e ↦
      let by = (resolve_cap-denied_iff (rules_for grants) name).0 (ground (arith, e)) in
      let two : 2 ≤ by.specificity =
        by.unbeaten name 2 g ((pattern_matches_iff name name 2).0 (own_name name m)) in
      let zero_s = (pattern_matches_iff by.pattern' name by.specificity).1 by.matches in
      absurd (ground (arith, two, zero_s, by.listed, star_everything name))
]

not_granted :
    (grants : List Text) (name : Text)
    → Elem name cap_names
    → ((q : Text) → Elem q grants → Elem q cap_names)
    → ¬ Elem name grants
    → resolves (rules_for grants) name ≡ false
not_granted grants name m all_named no_grant =
    let by : DeniedBy (rules_for grants) name = record {
      pattern' = codes "*";
      specificity = 0;
      listed = inl refl;
      matches = (pattern_matches_iff (codes "*") name 0).0 (star_everything name);
      unbeaten = λ q a mq fits.
          absurd
            (no_grant (subst (λ t. Elem t grants) (same_name q name a (all_named q mq) m fits) mq));
    } in
    ground (arith, (resolve_cap-denied_iff (rules_for grants) name).1 by)

abbrev IsOk : Outcome → Type 0
IsOk o = (c : Caps) × (o ≡ ok c)

-- For a list of capability names `caps_for_grants` gives a capability set, which allows, among the
-- capability names, exactly those on the list.
pub caps_for_grants_lem :
    (fs : FileSystem) (grants : List Text) (base_dir : Text)
    → ((q : Text) → Elem q grants → Elem q cap_names)
    → (c : Caps) × (caps_for_grants fs grants base_dir ≡ ok c)
      × ((name : Text) → Elem name cap_names → cap c name ≡ contains grants name)
caps_for_grants_lem fs grants base_dir all_named =
    let (c, e) = made in (c, e, λ name m. exactly c e name m)
  where
    made : (c : Caps) × (caps_for_grants fs grants base_dir ≡ ok c)
    made = unfold caps_for_grants effective in (_, refl)

    exactly :
        (c : Caps)
        → caps_for_grants fs grants base_dir ≡ ok c
        → (name : Text) → Elem name cap_names
        → cap c name ≡ contains grants name
    exactly c e name m =
        let layers =
          cap-effective fs (some (grants_file grants, codes "package use grants")) none [] []
            base_dir c name m (unfold caps_for_grants in e) in
        elim (Bool-cases (contains grants name)) [
          | inl g ↦
              ground (arith, layers, g, granted grants name m ((contains_iff grants name).0 g))
          | inr g ↦ ground (
            arith,
            layers,
            g,
            not_granted grants name m all_named
                (λ x. absurd (ground (arith, g, (contains_iff grants name).1 x))),
          )
        ]

-- ===== src/Pkg/Samples.antt =====
-- Runs of the sources, dates, locks, approvals and metadata of comp/src/pkg.rs on small inputs, and
-- their theorems at such inputs.
use nmerkar.Base.{
  ℕ, ◌/◌, ◌≡◌, refl, true, false, some, List, [], ◌∷◌, ◌++◌, codes, strip_prefix, is_whitespace,
  split_once, ◌↔◌, lines, trim_end, trim_start, before_first, words, lookup, insert, text_eq,
}
use nmerkar.Base.Results.{ok, err}
use nmerkar.Pkg.Source.{normalize, sanitize_alias}
use nmerkar.Pkg.Date.{civil_date, civil_date_lem, IsDate, days_of, month_and_day, year_of_era}
use nmerkar.Pkg.Lock.{add_fields, Pin, parse_lock, render}
use nmerkar.Pkg.Meta.{bad_caps_entry, parse_nkpkg, meta_lines, meta_line}
use nmerkar.Pkg.Approval.{parse_approvals, approval_lines, approved}
use nmerkar.Pkg.Origin.{gh, bad_gh, parse_source}
use nmerkar.Pkg.Origin.Parts.{Names, parse_source-gh}
use nmerkar.Pkg.Lock.RoundTrip.{parse_lock-render}

sanitized : sanitize_alias (codes "9a-b") ≡ codes "p9a_b"
unfolding sanitize_alias
sanitized = refl

line_ends : normalize (65 ∷ 13 ∷ 10 ∷ 66 ∷ 13 ∷ 67 ∷ []) ≡ 65 ∷ 10 ∷ 66 ∷ 10 ∷ 67 ∷ []
unfolding normalize
line_ends = refl

leap_date : civil_date 1709164800 ≡ record { year = 2024; month = 2; day = 29 }
unfolding civil_date month_and_day year_of_era
leap_date = refl

civil_date_lem_example :
    IsDate (civil_date 1709164800) × (days_of (civil_date 1709164800) ≡ 1709164800 / 86400)
civil_date_lem_example = civil_date_lem 1709164800

abbrev two_pins : List Pin
two_pins =
    record {
      source = codes "gh:x/y";
      ref = codes "v1.2";
      sha = codes "abc";
      root = codes "nkph1:0";
      signed = true;
    }
    ∷ record {
      source = codes "path:z";
      ref = codes "-";
      sha = codes "-";
      root = codes "nkph1:1";
      signed = false;
    }
    ∷ []

parse_lock-render_example : parse_lock (render two_pins) ≡ ok two_pins
unfolding is_whitespace
parse_lock-render_example = parse_lock-render two_pins (
  record {
    source_value = refl;
    ref_value = refl;
    sha_value = refl;
    root_value = refl;
    has_source = λ e. cc;
    has_root = λ e. cc;
  },
  (
    record {
      source_value = refl;
      ref_value = refl;
      sha_value = refl;
      root_value = refl;
      has_source = λ e. cc;
      has_root = λ e. cc;
    },
    tt,
  ),
)

gh_read : parse_source (codes "gh:me/lib") ≡ ok (gh (codes "me") (codes "lib"))
unfolding parse_source strip_prefix split_once
gh_read = refl

too_deep : parse_source (codes "gh:a/b/c") ≡ err (bad_gh (codes "gh:a/b/c"))
unfolding parse_source strip_prefix split_once
too_deep = refl

parse_source-gh_example :
    (parse_source (codes "gh:me/lib") ≡ ok (gh (codes "me") (codes "lib"))) ↔ (
      (rest : List ℕ) × (codes "gh:me/lib" ≡ codes "gh:" ++ rest)
      × Names rest (codes "me") (codes "lib"))
parse_source-gh_example = parse_source-gh (codes "gh:me/lib") (codes "me") (codes "lib")

meta_read :
    parse_nkpkg (codes "name lib ; n\ncaps fs.read optional\n\nbin b = b.nk\n")
    ≡ ok record {
      name = some (codes "lib");
      caps = (codes "fs.read", false) ∷ [];
      bins = (codes "b", codes "b.nk") ∷ [];
    }
unfolding parse_nkpkg meta_lines meta_line lines trim_end trim_start before_first is_whitespace
    words text_eq
meta_read = refl

bad_caps : parse_nkpkg (codes "caps fs.read maybe\nname x\n") ≡ err (bad_caps_entry (codes "maybe"))
unfolding parse_nkpkg meta_lines meta_line lines trim_end trim_start before_first is_whitespace
    words text_eq
bad_caps = refl

approval_read :
    approved
      (parse_approvals (codes "approve source=a root=b\napprove source=c\n"))
      (codes "a")
      (codes "b")
    ≡ true
unfolding parse_approvals approval_lines approved lines strip_prefix trim_end trim_start
    before_first is_whitespace lookup add_fields words split_once insert
approval_read = refl

-- ===== src/Pkg/Install/Tests.antt =====
-- Installations of comp/src/pkg.rs: of a new source, of one whose pin is kept, and under `--locked`;
-- and `tree_diff_summary`.
use nmerkar.Base.{
  text_eq, lookup, insert, ◌≡◌, refl, true, false, [], ◌∷◌, none, some, Text, codes, lines,
  trim_end, trim_start, before_first, is_whitespace, words, split_once, strip_prefix,
}
use nmerkar.Base.Results.{ok, err}
use nmerkar.Pkg.Lock.{Pin, parse_lines, parse_line, add_fields}
use nmerkar.Pkg.Approval.{approved}
use nmerkar.Pkg.Lock.{parse_lock, parse_kv_fields}
use nmerkar.Pkg.Envelope.{verify_signature}
use nmerkar.Pkg.Install.Progress.{Pins, install_one-Pins}
use nmerkar.Pkg.Diff.{tree_diff}
use nmerkar.Pkg.Install.{InstallOpts, World, Fetched, Installed, refused, drift, install_one}
use nmerkar.Pkg.Install.Safe.{IsJustified, install_one-IsJustified}

abbrev by_flag : InstallOpts
by_flag = record { yes = true; locked = false }

abbrev in_ci : InstallOpts
in_ci = record { yes = true; locked = true }

abbrev world : World
world = record {
  approvals = none;
  lock = some (codes "pkg source=gh:a/b ref=v1 sha=- root=r1 sig=-\n");
  is_terminal = false;
  answer = [];
  user = codes "me";
  today = codes "2026-01-02";
  store_tree = λ r. none;
}

abbrev content : Text → Fetched
content root = record {
  resolved_ref = codes "v2";
  sha = codes "s";
  envelope = record { nk_pub = none; nk_sig = none };
  root = root;
  files = [];
}

abbrev new_pin : Pin
new_pin = record {
  source = codes "gh:a/b";
  ref = codes "v2";
  sha = codes "s";
  root = codes "r2";
  signed = false;
}

abbrev installed : Installed
installed = record {
  pin = some new_pin;
  entries =
      record {
        source = codes "gh:a/b";
        root = codes "r2";
        date = codes "2026-01-02";
        by = codes "flag(--yes)";
        key = none;
      }
      ∷ [];
  is_new = true;
}

installs : install_one by_flag world (codes "gh:a/b") none (content (codes "r2")) ≡ ok installed
unfolding install_one parse_lines lines parse_line strip_prefix trim_end trim_start before_first
    is_whitespace add_fields words split_once approved
installs = refl

install_one-IsJustified_example :
    IsJustified by_flag world (codes "gh:a/b") none (content (codes "r2")) installed new_pin
install_one-IsJustified_example =
    install_one-IsJustified by_flag world (codes "gh:a/b") none (content (codes "r2")) installed
      new_pin installs refl

locked_drifts :
    install_one in_ci world (codes "gh:a/b") none (content (codes "r2"))
    ≡ err (refused (drift (codes "gh:a/b") (codes "r2")))
unfolding install_one parse_lines lines parse_line strip_prefix trim_end trim_start before_first
    is_whitespace add_fields words split_once
locked_drifts = refl

locked_keeps :
    install_one in_ci world (codes "gh:a/b") none (content (codes "r1"))
    ≡ ok record {
      pin = some record {
        source = codes "gh:a/b";
        ref = codes "v1";
        sha = codes "-";
        root = codes "r1";
        signed = false;
      };
      entries = [];
      is_new = false;
    }
unfolding install_one parse_lines lines parse_line strip_prefix trim_end trim_start before_first
    is_whitespace add_fields words split_once
locked_keeps = refl

-- `tree_diff_summary`
summarised :
    tree_diff
      (some ((codes "a.n", codes "1") ∷ (codes "b.n", codes "2") ∷ []))
      ((codes "a.n", codes "9") ∷ (codes "c.n", codes "3") ∷ [])
    ≡ codes " (1 added, 1 removed, 1 changed: +c.n -b.n ~a.n)"
unfolding tree_diff
summarised = refl

lock_read :
    parse_lock (codes "pkg source=gh:a/b ref=v1 sha=- root=r1 sig=-\n")
    ≡ ok (
        record {
          source = codes "gh:a/b";
          ref = codes "v1";
          sha = codes "-";
          root = codes "r1";
          signed = false;
        }
        ∷ [])
unfolding parse_lock parse_lines lines parse_line strip_prefix trim_end trim_start before_first
    is_whitespace add_fields words split_once text_eq lookup parse_kv_fields insert
lock_read = refl

no_envelope : verify_signature none none (codes "r2") ≡ ok none
unfolding verify_signature
no_envelope = refl

install_one-Pins_example :
    Pins (codes "r2") (install_one by_flag world (codes "gh:a/b") none (content (codes "r2")))
install_one-Pins_example =
    install_one-Pins by_flag world (codes "gh:a/b") none (content (codes "r2")) _ none refl refl
      lock_read no_envelope

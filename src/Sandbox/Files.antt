-- ===== src/Sandbox/Files.antt =====
-- The file system as the sandbox sees it: the calls of `std::path` and `std::env`, as parameters.
use nmerkar.Base.{◌<◌, ◌≡◌, Bool, Option, some, Text, length}

-- A path is its text. `temp_dir` is `$TMPDIR`, or `/tmp` where it is unset.
pub record FileSystem : Type 0 where
  pub is_absolute : Text → Bool
  pub current_dir : Text
  pub temp_dir : Text
  pub join : Text → Text → Text
  pub canonicalize : Text → Option Text
  pub path_starts_with : Text → Text → Bool
  pub exists : Text → Bool
  pub parent : Text → Option Text

-- `Path::parent` drops the last component, so it is shorter.
abbrev pub ParentIsShorter : FileSystem → Type 0
ParentIsShorter fs = (p q : Text) → fs.parent p ≡ some q → length q < length p

-- ===== src/Pkg/Version/Tests.antt =====
-- The keys of some tags by comp/src/pkg.rs.
use nmerkar.Base.{◌≡◌, refl, none, some, codes}
use nmerkar.Pkg.Version.{semver_key}

plain_release : semver_key (codes "v1.10.0") ≡ some (1, 10, 0, 1)
unfolding semver_key
plain_release = refl

candidate : semver_key (codes "v1.10.0-rc1") ≡ some (1, 10, 0, 0)
unfolding semver_key
candidate = refl

too_large : semver_key (codes "18446744073709551616.0.0") ≡ none
unfolding semver_key
too_large = refl

-- A pre-release of two identifiers, which Semantic Versioning allows, has no key.
dotted_candidate : semver_key (codes "v1.10.0-rc.1") ≡ none
unfolding semver_key
dotted_candidate = refl

-- A release whose build metadata has a hyphen sorts as a pre-release.
build_metadata : semver_key (codes "v1.10.0+a-b") ≡ some (1, 10, 0, 0)
unfolding semver_key
build_metadata = refl

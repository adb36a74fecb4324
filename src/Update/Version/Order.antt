-- ===== src/Update/Version/Order.antt =====
-- The order of src/update/version.rs, and which version is offered as an upgrade.
use Prim.Native.Nat.{compare}
use anemone_rs.Base.{ℕ, ◌+◌, ◌*◌, ◌≤◌, ◌<◌, ◌≡◌, ◌↔◌, true, false, Option, none, some, arith, Text}
use anemone_rs.Update.Version.{Version, u32_max, cmp, partial_cmp, is_prerelease, is_upgrade_from}

pub record IsBounded (v : Version) : Type 0 where
  pub major : v.major ≤ u32_max
  pub minor : v.minor ≤ u32_max
  pub patch : v.patch ≤ u32_max

abbrev pub release_bit : Option Text → ℕ
release_bit none = 1
release_bit (some p) = 0

-- One number for a version: its three numbers as digits, and a last bit for a release.
abbrev pub rank : Version → ℕ
rank v = ((v.major * 4294967296 + v.minor) * 4294967296 + v.patch) * 2 + release_bit v.pre

-- The order of versions with 32-bit numbers is the order of their ranks.
pub cmp-compare-rank :
    (v w : Version) → IsBounded v → IsBounded w → cmp v w ≡ compare (rank v) (rank w)
unfolding cmp
cmp-compare-rank v w a b = ground arith

-- A version with 32-bit numbers is offered as an upgrade exactly when it is a release and its rank
-- is higher than that of the running version.
pub is_upgrade_from_iff :
    (v w : Version)
    → IsBounded v
    → IsBounded w
    → (is_upgrade_from v w ≡ true) ↔ ((v.pre ≡ none) × (rank w < rank v))
unfolding is_upgrade_from is_prerelease partial_cmp
is_upgrade_from_iff v w a b = ground (arith, cmp-compare-rank v w a b)

-- The upgrade of an upgrade is an upgrade, and no version of such a chain is offered again to a
-- later one.
pub is_upgrade_from_chain :
    (u v w : Version)
    → IsBounded u
    → IsBounded v
    → IsBounded w
    → is_upgrade_from v u ≡ true
    → is_upgrade_from w v ≡ true
    → (is_upgrade_from w u ≡ true) × (is_upgrade_from u w ≡ false) × (is_upgrade_from v w ≡ false)
is_upgrade_from_chain u v w a b c p q = ground (
  arith,
  is_upgrade_from_iff v u b a,
  is_upgrade_from_iff w v c b,
  is_upgrade_from_iff w u c a,
  is_upgrade_from_iff u w a c,
  is_upgrade_from_iff v w b c,
)

-- A release has no identifier.
pub is_prerelease-pre : (v : Version) → is_prerelease v ≡ false → v.pre ≡ none
unfolding is_prerelease
is_prerelease-pre v h = ground arith

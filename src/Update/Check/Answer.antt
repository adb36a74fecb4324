-- ===== src/Update/Check/Answer.antt =====
-- The answers of src/update/check.rs against the releases they come from.
use anemone_rs.Base.{
  ◌≤◌, ◌≡◌, ◌≢◌, inl, inr, true, none, Option-cases, Bool-cases, Sum-cases, List, arith,
}
use anemone_rs.Update.Version.{Version, is_upgrade_from}
use anemone_rs.Update.Version.Order.{IsBounded, rank, is_upgrade_from_iff}
use anemone_rs.Update.Schedule.{UpdateCheck, AvailableUpdate}
use anemone_rs.Update.Check.{
  Release, ReleaseAsset, UrlLibrary, update_asset_name, checksum_asset_name, check_url, candidate,
  asset, offer, evaluate_release, parse_releases,
}
use anemone_rs.Update.Check.Choice.{
  Offered, Highest, candidate-Highest, candidate-none, from_Offered,
}
use anemone_rs.Update.Check.Trust.{IsTrusted, check_url-IsTrusted}

evaluate_release-update :
    (lib : UrlLibrary) (r : Release) (v current : Version)
    → is_upgrade_from v current ≡ true
    → evaluate_release lib r v current ≢ inr UpdateCheck.up_to_date
unfolding evaluate_release offer
evaluate_release-update lib r v current h = ground (arith, h)

higher-is_upgrade_from :
    (v w current : Version)
    → IsBounded v
    → IsBounded w
    → IsBounded current
    → w.pre ≡ none
    → rank v ≤ rank w
    → is_upgrade_from v current ≡ true
    → is_upgrade_from w current ≡ true
higher-is_upgrade_from v w current p q b e h u =
    ground (arith, is_upgrade_from_iff v current p b, is_upgrade_from_iff w current q b)

-- When a release of the list that is no draft and no prerelease is an upgrade of the running
-- version, the answer is never that the program is up to date.
pub parse_releases_keeps_updates :
    (lib : UrlLibrary) (rs : List Release) (current : Version) (c : Release × Version)
    → IsBounded current
    → Offered c rs
    → is_upgrade_from c.1 current ≡ true
    → parse_releases lib (inr rs) current ≢ inr UpdateCheck.up_to_date
unfolding parse_releases Highest
parse_releases_keeps_updates lib rs current c b o h = elim (Option-cases (candidate rs)) [
  | inl e ↦ absurd (candidate-none rs c e o)
  | inr (m, e) ↦
      let (o', i, p) = candidate-Highest rs m e in
      rw (parse_releases, e)
        (evaluate_release-update lib m.0 m.1 current (
          higher-is_upgrade_from c.1 m.1 current (from_Offered rs c o).0 p b
            (from_Offered rs m o').1 (i c o) h))
]

-- What an update that is offered promises about the list and the running version.
pub record IsSound (lib : UrlLibrary) (rs : List Release) (current : Version) (u : AvailableUpdate)
    : Type 0 where
  pub release : Release
  pub offered : Offered (release, u.version) rs
  pub highest : Highest (release, u.version) rs
  pub upgrade : is_upgrade_from u.version current ≡ true
  pub asset_trusted : IsTrusted lib u.asset_url
  pub checksum_trusted : IsTrusted lib u.checksum_url

-- The part of it that `evaluate_release` decides.
record Evaluated (lib : UrlLibrary) (v current : Version) (u : AvailableUpdate) : Type 0 where
  same : u.version ≡ v
  upgrade : is_upgrade_from v current ≡ true
  asset_trusted : IsTrusted lib u.asset_url
  checksum_trusted : IsTrusted lib u.checksum_url

offer-Evaluated :
    (lib : UrlLibrary) (r : Release) (v current : Version) (a c : ReleaseAsset)
    (u : AvailableUpdate)
    → is_upgrade_from v current ≡ true
    → offer lib r v a c ≡ inr (UpdateCheck.available u)
    → Evaluated lib v current u
unfolding offer
offer-Evaluated lib r v current a c u up h =
    elim (Sum-cases (check_url lib a.browser_download_url)) [
      | inl (x, e) ↦ ground (arith, e, h)
      | inr (x, e) ↦ elim (Sum-cases (check_url lib c.browser_download_url)) [
        | inl (y, f) ↦ ground (arith, e, f, h)
        | inr (y, f) ↦
            let fields : (u.version ≡ v)
                × (u.asset_url ≡ a.browser_download_url)
                × (u.checksum_url ≡ c.browser_download_url) =
              ground (arith, e, f, h) in
            record {
              same = fields.0;
              upgrade = up;
              asset_trusted = rw fields.1 (check_url-IsTrusted lib a.browser_download_url x e);
              checksum_trusted = rw fields.2 (check_url-IsTrusted lib c.browser_download_url y f);
            }
      ]
    ]

evaluate_release-Evaluated :
    (lib : UrlLibrary) (r : Release) (v current : Version) (u : AvailableUpdate)
    → evaluate_release lib r v current ≡ inr (UpdateCheck.available u)
    → Evaluated lib v current u
unfolding evaluate_release
evaluate_release-Evaluated lib r v current u h = elim (Bool-cases (is_upgrade_from v current)) [
  | inr e ↦ ground (arith, e, h)
  | inl e ↦ elim (Option-cases (asset r update_asset_name)) [
    | inl f ↦ ground (arith, e, f, h)
    | inr (a, f) ↦ elim (Option-cases (asset r checksum_asset_name)) [
      | inl g ↦ ground (arith, e, f, g, h)
      | inr (c, g) ↦ offer-Evaluated lib r v current a c u e (ground (arith, e, f, g, h))
    ]
  ]
]

-- An update that is offered is a release of the list that is marked neither as a draft nor as a
-- prerelease and whose tag is a version without a prerelease part, with the highest version of those,
-- which is an upgrade of the running version; the program and its checksum come from addresses under
-- https on the hosts that the program allows.
pub parse_releases-IsSound :
    (lib : UrlLibrary) (rs : List Release) (current : Version) (u : AvailableUpdate)
    → parse_releases lib (inr rs) current ≡ inr (UpdateCheck.available u)
    → IsSound lib rs current u
unfolding parse_releases
parse_releases-IsSound lib rs current u h = elim (Option-cases (candidate rs)) [
  | inl e ↦ ground (arith, e, h)
  | inr (m, e) ↦
      let (o, i, p) = candidate-Highest rs m e in
      let ev = evaluate_release-Evaluated lib m.0 m.1 current u (ground (arith, e, h)) in
      record {
        release = m.0;
        offered = rw ev.same o;
        highest = rw ev.same i;
        upgrade = rw ev.same ev.upgrade;
        asset_trusted = ev.asset_trusted;
        checksum_trusted = ev.checksum_trusted;
      }
]

-- ===== src/Update/Check.antt =====
-- src/update/check.rs: the choice of a release from a list of releases, and what it offers.
-- The HTTP client, the JSON parser and the URL parser are other code: they come as arguments.
pub mod Choice
pub mod Trust
pub mod Answer
use Prim.Native.Nat.{Ordering}
use anemone_rs.Base.{
  ℕ, ◌+◌, ◌⊎◌, inl, inr, Bool, true, false, not, ◌&&◌, ◌||◌, Option, none, some, List, [], ◌∷◌,
  ◌++◌, ltb, ◌==◌, if◌then◌else◌, length, saturating_add, Text, text_eq,
}
use anemone_rs.Update.Schedule.{UpdateError, UpdateCheck, AvailableUpdate}
use anemone_rs.Update.Version.{Version, cmp, is_prerelease, is_upgrade_from, from_str}

-- `"api.github.com"`
abbrev pub api_host : Text
api_host = 97 ∷ 112 ∷ 105 ∷ 46 ∷ 103 ∷ 105 ∷ 116 ∷ 104 ∷ 117 ∷ 98 ∷ 46 ∷ 99 ∷ 111 ∷ 109 ∷ []

-- `"github.com"`
abbrev pub github_host : Text
github_host = 103 ∷ 105 ∷ 116 ∷ 104 ∷ 117 ∷ 98 ∷ 46 ∷ 99 ∷ 111 ∷ 109 ∷ []

-- `"objects.githubusercontent.com"`
abbrev pub objects_host : Text
objects_host =
    111 ∷ 98 ∷ 106 ∷ 101 ∷ 99 ∷ 116 ∷ 115 ∷ 46 ∷ 103 ∷ 105 ∷ 116 ∷ 104 ∷ 117 ∷ 98 ∷ 117 ∷ 115 ∷ 101
    ∷ 114 ∷ 99 ∷ 111 ∷ 110 ∷ 116 ∷ 101 ∷ 110 ∷ 116 ∷ 46 ∷ 99 ∷ 111 ∷ 109 ∷ []

-- `"release-assets.githubusercontent.com"`
abbrev pub assets_host : Text
assets_host =
    114 ∷ 101 ∷ 108 ∷ 101 ∷ 97 ∷ 115 ∷ 101 ∷ 45 ∷ 97 ∷ 115 ∷ 115 ∷ 101 ∷ 116 ∷ 115 ∷ 46 ∷ 103 ∷ 105
    ∷ 116 ∷ 104 ∷ 117 ∷ 98 ∷ 117 ∷ 115 ∷ 101 ∷ 114 ∷ 99 ∷ 111 ∷ 110 ∷ 116 ∷ 101 ∷ 110 ∷ 116 ∷ 46
    ∷ 99 ∷ 111 ∷ 109 ∷ []

abbrev pub allowed_hosts : List Text
allowed_hosts = api_host ∷ github_host ∷ objects_host ∷ assets_host ∷ []

-- `"https"`
abbrev pub https : Text
https = 104 ∷ 116 ∷ 116 ∷ 112 ∷ 115 ∷ []

-- `"anemone_rs-x86_64-pc-windows-msvc.exe"`
abbrev pub update_asset_name : Text
update_asset_name =
    97 ∷ 110 ∷ 101 ∷ 109 ∷ 111 ∷ 110 ∷ 101 ∷ 95 ∷ 114 ∷ 115 ∷ 45 ∷ 120 ∷ 56 ∷ 54 ∷ 95 ∷ 54 ∷ 52 ∷ 45
    ∷ 112 ∷ 99 ∷ 45 ∷ 119 ∷ 105 ∷ 110 ∷ 100 ∷ 111 ∷ 119 ∷ 115 ∷ 45 ∷ 109 ∷ 115 ∷ 118 ∷ 99 ∷ 46 ∷ 101
    ∷ 120 ∷ 101 ∷ []

-- `".sha256"`
abbrev pub checksum_asset_name : Text
checksum_asset_name = update_asset_name ++ 46 ∷ 115 ∷ 104 ∷ 97 ∷ 50 ∷ 53 ∷ 54 ∷ []

-- "이 릴리스에는 자동 업데이트 파일이 없습니다"
abbrev pub no_update_asset : Text
no_update_asset =
    0xC774 ∷ 32 ∷ 0xB9B4 ∷ 0xB9AC ∷ 0xC2A4 ∷ 0xC5D0 ∷ 0xB294 ∷ 32 ∷ 0xC790 ∷ 0xB3D9 ∷ 32 ∷ 0xC5C5
    ∷ 0xB370 ∷ 0xC774 ∷ 0xD2B8 ∷ 32 ∷ 0xD30C ∷ 0xC77C ∷ 0xC774 ∷ 32 ∷ 0xC5C6 ∷ 0xC2B5 ∷ 0xB2C8
    ∷ 0xB2E4 ∷ []

-- "이 릴리스에는 무결성 검증 파일이 없습니다"
abbrev pub no_checksum_asset : Text
no_checksum_asset =
    0xC774 ∷ 32 ∷ 0xB9B4 ∷ 0xB9AC ∷ 0xC2A4 ∷ 0xC5D0 ∷ 0xB294 ∷ 32 ∷ 0xBB34 ∷ 0xACB0 ∷ 0xC131 ∷ 32
    ∷ 0xAC80 ∷ 0xC99D ∷ 32 ∷ 0xD30C ∷ 0xC77C ∷ 0xC774 ∷ 32 ∷ 0xC5C6 ∷ 0xC2B5 ∷ 0xB2C8 ∷ 0xB2E4 ∷ []

-- `reqwest::Url`: its parser, with an error's text, and the parts that the code reads.
pub record UrlLibrary : Type 1 where
  pub Url : Type 0
  pub parse : Text → Text ⊎ Url
  pub scheme : Url → Text
  pub host_str : Url → Option Text
  pub to_string : Url → Text

pub record ReleaseAsset : Type 0 where
  pub name : Text
  pub browser_download_url : Text

pub record Release : Type 0 where
  pub tag_name : Text
  pub html_url : Text
  pub draft : Bool
  pub prerelease : Bool
  pub assets : List ReleaseAsset

-- `ALLOWED_HOSTS.contains(&host)`
unfoldable pub contains : List Text → Text → Bool
contains [] host = false
contains (h ∷ hs) host = text_eq h host || contains hs host

unfoldable pub find_asset : List ReleaseAsset → Text → Option ReleaseAsset
find_asset [] name = none
find_asset (a ∷ rest) name = if text_eq a.name name then some a else find_asset rest name

unfoldable pub asset : Release → Text → Option ReleaseAsset
asset r name = find_asset r.assets name

-- The `filter` and the `filter_map` of `parse_releases`, for one release.
unfoldable pub eligible : Release → Option (Release × Version)
eligible r =
    if not r.draft && not r.prerelease
    then elim (from_str r.tag_name) [
      | inl e ↦ none
      | inr v ↦ if not (is_prerelease v) then some (r, v) else none
    ]
    else none

-- `max_by`: of two equal ones the later stays.
unfoldable pub better : Release × Version → Release × Version → Release × Version
better best next = elim (cmp best.1 next.1) [ Ordering.gt ↦ best | _ ↦ next ]

unfoldable pub max_from : Release × Version → List Release → Release × Version
max_from best [] = best
max_from best (r ∷ rs) = max_from (elim (eligible r) [ none ↦ best | some c ↦ better best c ]) rs

unfoldable pub candidate : List Release → Option (Release × Version)
candidate [] = none
candidate (r ∷ rs) = elim (eligible r) [ none ↦ candidate rs | some c ↦ some (max_from c rs) ]

module _ (lib : UrlLibrary) where
  unfoldable pub ensure_trusted_url : lib.Url → UpdateError ⊎ Unit {0}
  ensure_trusted_url url =
      if not (text_eq (lib.scheme url) https)
      then inl (UpdateError.untrusted_url (lib.to_string url))
      else elim (lib.host_str url) [
        | none ↦ inl (UpdateError.untrusted_url (lib.to_string url))
        | some host ↦
            if contains allowed_hosts host
            then inr tt
            else inl (UpdateError.untrusted_url (lib.to_string url))
      ]

  -- One turn of the loop over the two addresses.
  unfoldable pub check_url : Text → UpdateError ⊎ Unit {0}
  check_url url = elim (lib.parse url) [
    | inl error ↦ inl (UpdateError.parse error)
    | inr parsed ↦ ensure_trusted_url parsed
  ]

  -- The end of `evaluate_release`, with both assets found.
  unfoldable pub offer : Release → Version → ReleaseAsset → ReleaseAsset → UpdateError ⊎ UpdateCheck
  offer release version a c = elim (check_url a.browser_download_url) [
    | inl error ↦ inl error
    | inr _ ↦ elim (check_url c.browser_download_url) [
      | inl error ↦ inl error
      | inr _ ↦ inr (
          UpdateCheck.available (record {
            version = version;
            asset_url = a.browser_download_url;
            checksum_url = c.browser_download_url;
            release_page_url = release.html_url;
          }))
    ]
  ]

  unfoldable pub evaluate_release : Release → Version → Version → UpdateError ⊎ UpdateCheck
  evaluate_release release version current =
      if not (is_upgrade_from version current)
      then inr UpdateCheck.up_to_date
      else elim (asset release update_asset_name) [
        | none ↦ inr (UpdateCheck.unsupported version no_update_asset release.html_url)
        | some a ↦ elim (asset release checksum_asset_name) [
          | none ↦ inr (UpdateCheck.unsupported version no_checksum_asset release.html_url)
          | some c ↦ offer release version a c
        ]
      ]

  -- The body comes as the JSON parser leaves it: a list of releases, or its error's text.
  unfoldable pub parse_releases : Text ⊎ List Release → Version → UpdateError ⊎ UpdateCheck
  parse_releases (inl error) current = inl (UpdateError.parse error)
  parse_releases (inr releases) current = elim (candidate releases) [
    | none ↦ inr UpdateCheck.up_to_date
    | some c ↦ evaluate_release c.0 c.1 current
  ]

-- `fetch_latest` on a status that is no success: `exhausted` is what the rate limit's header says.
unfoldable pub status_error : ℕ → Bool → UpdateError
status_error code exhausted =
    if (code == 429) || ((code == 403) && exhausted)
    then UpdateError.rate_limited
    else UpdateError.api code

-- The loop of `read_limited` over the chunks of a body.
unfoldable pub read_chunks : ℕ → List ℕ → List (Text ⊎ List ℕ) → UpdateError ⊎ List ℕ
read_chunks limit bytes [] = inr bytes
read_chunks limit bytes (inl error ∷ cs) = inl (UpdateError.network error)
read_chunks limit bytes (inr chunk ∷ cs) =
    let rest = read_chunks limit (bytes ++ chunk) cs in
    if ltb limit (saturating_add (length bytes) (length chunk))
    then inl (UpdateError.too_large limit)
    else rest

-- `read_limited`, down to the decoding of the bytes.
unfoldable pub read_limited : ℕ → Option ℕ → List (Text ⊎ List ℕ) → UpdateError ⊎ List ℕ
read_limited limit content_length chunks =
    if elim content_length [ none ↦ false | some n ↦ ltb limit n ]
    then inl (UpdateError.too_large limit)
    else read_chunks limit [] chunks

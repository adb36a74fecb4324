-- ===== src/Update/Tests.antt =====
-- Runs of src/update over the tags of the repository's own tests, with the theorems at concrete
-- versions and releases.
use anemone_rs.Base.{
  ◌≡◌, ◌↔◌, refl, inl, inr, true, false, none, some, List, [], ◌∷◌, ◌++◌, arith, Text,
  is_whitespace, text_eq, pos,
}
use Prim.Native.Nat.{compare, ◌<◌}
use anemone_rs.Update.Version.{
  Version, cmp, partial_cmp, is_prerelease, is_upgrade_from, show_digits, show_pre, fmt, trim_start,
  trim_end, trim, strip_v, before, cons_first, split_once, cons_head, split, digit_step,
  parse_digits, parse_u32, next_part, parse_core, split_pre, from_str_core, from_str,
}
use anemone_rs.Update.Version.Order
use anemone_rs.Update.Version.Order.{IsBounded, rank}
use anemone_rs.Update.Version.RoundTrip
use anemone_rs.Update.Version.RoundTrip.{IsIdentifier}
use anemone_rs.Update.Schedule.{
  AvailableUpdate, saturating_sub_i64, should_auto_check, should_update_last_check,
}
use anemone_rs.Update.Check.{
  find_asset, UrlLibrary, Release, ReleaseAsset, update_asset_name, checksum_asset_name, api_host,
  https, contains, asset, eligible, better, max_from, candidate, ensure_trusted_url, check_url,
  offer, evaluate_release, parse_releases, status_error, read_chunks, read_limited,
}
use anemone_rs.Update.Check.Answer
use anemone_rs.Update.Check.Answer.{IsSound}

program : Unit {0}
unfolding is_whitespace text_eq find_asset cmp partial_cmp is_prerelease is_upgrade_from show_digits
    show_pre fmt trim_start trim_end trim strip_v before cons_first split_once cons_head split
    digit_step parse_digits parse_u32 next_part parse_core split_pre from_str_core from_str contains
    asset eligible better max_from candidate ensure_trusted_url check_url offer evaluate_release
    parse_releases status_error read_chunks read_limited saturating_sub_i64 should_auto_check
    should_update_last_check
program = tt

-- 0.1.0, 0.2.0-r and 0.2.0.
abbrev old : Version
old = record { major = 0; minor = 1; patch = 0; pre = none }

abbrev candidate_build : Version
candidate_build = record { major = 0; minor = 2; patch = 0; pre = some (b'r' ∷ []) }

abbrev next : Version
next = record { major = 0; minor = 2; patch = 0; pre = none }

abbrev newer : Version
newer = record { major = 10; minor = 0; patch = 7; pre = none }

abbrev tag : Text
tag = b'v' ∷ b'0' ∷ b'.' ∷ b'2' ∷ b'.' ∷ b'0' ∷ []

tag_run : from_str (b' ' ∷ (tag ++ b'-' ∷ b'r' ∷ b' ' ∷ [])) ≡ inr candidate_build
unfolding program
tag_run = refl

fmt_run : fmt newer ≡ b'1' ∷ b'0' ∷ b'.' ∷ b'0' ∷ b'.' ∷ b'7' ∷ []
unfolding program
fmt_run = refl

empty_pre_run : from_str (tag ++ b'-' ∷ []) ≡ inl (record { value = tag ++ b'-' ∷ [] })
unfolding program
empty_pre_run = refl

overflow_run :
    parse_u32 (b'4' ∷ b'2' ∷ b'9' ∷ b'4' ∷ b'9' ∷ b'6' ∷ b'7' ∷ b'2' ∷ b'9' ∷ b'6' ∷ []) ≡ none
unfolding program
overflow_run = refl

upgrade_run : is_upgrade_from next candidate_build ≡ true
unfolding program
upgrade_run = refl

old-IsBounded : IsBounded old
old-IsBounded = record { major = omega arith; minor = omega arith; patch = omega arith }

candidate_build-IsBounded : IsBounded candidate_build
candidate_build-IsBounded = record { major = omega arith; minor = omega arith; patch = omega arith }

next-IsBounded : IsBounded next
next-IsBounded = record { major = omega arith; minor = omega arith; patch = omega arith }

newer-IsBounded : IsBounded newer
newer-IsBounded = record { major = omega arith; minor = omega arith; patch = omega arith }

candidate_build-IsIdentifier : IsIdentifier candidate_build.pre
unfolding program
candidate_build-IsIdentifier = IsIdentifier.identifier refl refl

from_str-fmt_example : from_str (fmt candidate_build) ≡ inr candidate_build
from_str-fmt_example =
    RoundTrip.from_str-fmt candidate_build candidate_build-IsBounded candidate_build-IsIdentifier

cmp-compare-rank_example : cmp candidate_build next ≡ compare (rank candidate_build) (rank next)
cmp-compare-rank_example =
    Order.cmp-compare-rank candidate_build next candidate_build-IsBounded next-IsBounded

is_upgrade_from_iff_example :
    (is_upgrade_from next candidate_build ≡ true)
    ↔ ((next.pre ≡ none) × (rank candidate_build < rank next))
is_upgrade_from_iff_example =
    Order.is_upgrade_from_iff next candidate_build next-IsBounded candidate_build-IsBounded

-- Every address parses to itself, on the host of the program's list.
abbrev urls : UrlLibrary
urls = record {
  Url = Text;
  parse = λ t. inr t;
  scheme = λ u. https;
  host_str = λ u. some api_host;
  to_string = λ u. u;
}

abbrev program_file : ReleaseAsset
program_file = record { name = update_asset_name; browser_download_url = b'p' ∷ [] }

abbrev checksum_file : ReleaseAsset
checksum_file = record { name = checksum_asset_name; browser_download_url = b'c' ∷ [] }

abbrev release_next : Release
release_next = record {
  tag_name = tag;
  html_url = [];
  draft = false;
  prerelease = false;
  assets = program_file ∷ checksum_file ∷ [];
}

abbrev releases : List Release
releases =
    record { tag_name = []; html_url = []; draft = false; prerelease = false; assets = [] }
    ∷ release_next
    ∷ []

abbrev update_next : AvailableUpdate
update_next = record {
  version = next;
  asset_url = b'p' ∷ [];
  checksum_url = b'c' ∷ [];
  release_page_url = [];
}

parse_releases-IsSound_example : IsSound urls releases old update_next
unfolding program
parse_releases-IsSound_example = Answer.parse_releases-IsSound urls releases old update_next refl

backwards_run : should_auto_check true (pos 100) (pos 40) (pos 86400) ≡ false
unfolding program
backwards_run = refl

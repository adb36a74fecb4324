-- ===== src/Update/Schedule.antt =====
-- src/update/schedule.rs, with the types of src/update/mod.rs and src/update/check.rs: when the
-- program looks for an update by itself, and which results count as a look.
use anemone_rs.Base.{
  ℕ, ◌+◌, ◌-◌, Bool, true, false, ◌⊎◌, inl, inr, ltb, leb, if◌then◌else◌, min, Text, ℤ, pos, negsuc,
}
use anemone_rs.Update.Version.{Version}

pub data UpdateError : Type 0 where
  network : Text → UpdateError
  rate_limited : UpdateError
  api : ℕ → UpdateError
  parse : Text → UpdateError
  untrusted_url : Text → UpdateError
  too_large : ℕ → UpdateError
  checksum_mismatch : UpdateError
  hash : UpdateError
  not_writable : Text → UpdateError
  rollback_failed : Text → Text → UpdateError
  io : Text → UpdateError

pub record AvailableUpdate : Type 0 where
  pub version : Version
  pub asset_url : Text
  pub checksum_url : Text
  pub release_page_url : Text

pub data UpdateCheck : Type 0 where
  up_to_date : UpdateCheck
  available : AvailableUpdate → UpdateCheck
  unsupported : Version → Text → Text → UpdateCheck

abbrev pub i64_max : ℕ
i64_max = 9223372036854775807

abbrev pub auto_check_interval_secs : ℤ
auto_check_interval_secs = pos 86400

-- `saturating_sub` on `i64`.
unfoldable pub saturating_sub_i64 : ℤ → ℤ → ℤ
saturating_sub_i64 (pos a) (pos b) = if ltb a b then negsuc (b - a - 1) else pos (a - b)
saturating_sub_i64 (pos a) (negsuc b) = pos (min (a + b + 1) i64_max)
saturating_sub_i64 (negsuc a) (pos b) = negsuc (min (a + b) i64_max)
saturating_sub_i64 (negsuc a) (negsuc b) =
    if ltb a b then pos (b - a) else (if ltb b a then negsuc (a - b - 1) else pos 0)

-- `a >= b`
abbrev pub at_least : ℤ → ℤ → Bool
at_least (pos a) (pos b) = leb b a
at_least (pos a) (negsuc b) = true
at_least (negsuc a) (pos b) = false
at_least (negsuc a) (negsuc b) = leb a b

unfoldable pub should_auto_check : Bool → ℤ → ℤ → ℤ → Bool
should_auto_check false last_check now interval_secs = false
should_auto_check true last_check now interval_secs =
    if at_least (pos 0) last_check
    then true
    else at_least (saturating_sub_i64 now last_check) interval_secs

unfoldable pub should_update_last_check : UpdateError ⊎ UpdateCheck → Bool
should_update_last_check (inr check) = true
should_update_last_check (inl (UpdateError.network error)) = false
should_update_last_check (inl _) = true

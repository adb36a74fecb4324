-- ===== src/Config/Hook.antt =====
-- src/config/hook.rs: the settings of the hook, with the profile that is kept for each game.
pub mod Laws
use anemone_rs.Base.{
  ℕ, ◌-◌, ◌+◌, ◌≤◌, Bool, true, false, not, ◌&&◌, ◌||◌, Option, none, some, List, [], ◌∷◌, ◌++◌,
  ltb, leb, if◌then◌else◌, length, drop, filter, find, Text, text_eq, is_empty,
  eq_ignore_ascii_case, option_text_eq,
}
use anemone_rs.Config.Limits.{clamp_u32}

abbrev pub max_saved_profiles : ℕ
max_saved_profiles = 64

abbrev pub min_merge_window_ms : ℕ
min_merge_window_ms = 100

abbrev pub max_merge_window_ms : ℕ
max_merge_window_ms = 5000

pub record SavedHookProfile : Type 0 where
  pub process_name : Text
  pub exe_sha256 : Option Text
  pub hook_name : Text
  pub hook_code : Option Text

pub record HookConfig : Type 0 where
  pub enabled : Bool
  pub auto_attach_last : Bool
  pub last_target_pid : ℕ
  pub last_target_name : Text
  pub merge_window_ms : ℕ
  pub max_text_length : ℕ
  pub debug_log : Bool
  pub diag_token : Text
  pub saved_profiles : List SavedHookProfile

abbrev pub default_hook : HookConfig
default_hook = record {
  enabled = false;
  auto_attach_last = true;
  last_target_pid = 0;
  last_target_name = [];
  merge_window_ms = 100;
  max_text_length = 2000;
  debug_log = false;
  diag_token = [];
  saved_profiles = [];
}

abbrev pub is_some : Option Text → Bool
is_some none = false
is_some (some s) = true

abbrev pub short_code : Option Text → Bool
short_code none = true
short_code (some code) = leb (length code) 2048

-- The test of the `retain` in `normalize`.
unfoldable pub keeps_profile : SavedHookProfile → Bool
keeps_profile p =
    (not (is_empty p.process_name) || is_some p.exe_sha256)
    && leb (length p.process_name) 260
    && leb (length p.hook_name) 128
    && short_code p.hook_code

-- The oldest profiles leave when there are too many.
unfoldable pub drain_excess : List SavedHookProfile → List SavedHookProfile
drain_excess ps =
    if ltb max_saved_profiles (length ps) then drop (length ps - max_saved_profiles) ps else ps

unfoldable pub normalize : HookConfig → HookConfig
normalize c = record c {
  merge_window_ms = clamp_u32 min_merge_window_ms max_merge_window_ms c.merge_window_ms;
  saved_profiles = drain_excess (filter keeps_profile c.saved_profiles);
}

abbrev pub or_else : Option SavedHookProfile → Option SavedHookProfile → Option SavedHookProfile
or_else none other = other
or_else (some p) other = some p

unfoldable pub saved_profile : HookConfig → Text → Option Text → Option SavedHookProfile
saved_profile c process_name none =
    find (λ p. eq_ignore_ascii_case p.process_name process_name) c.saved_profiles
saved_profile c process_name (some digest) =
    or_else (find (λ p. option_text_eq p.exe_sha256 (some digest)) c.saved_profiles) (
      find (λ p. not (is_some p.exe_sha256) && eq_ignore_ascii_case p.process_name process_name)
        c.saved_profiles)

-- The test of the `retain` in `save_profile`: a saved profile of another game stays.
unfoldable pub is_other_game : SavedHookProfile → SavedHookProfile → Bool
is_other_game profile saved =
    not (is_some profile.exe_sha256 && option_text_eq saved.exe_sha256 profile.exe_sha256)
    && not (eq_ignore_ascii_case saved.process_name profile.process_name)

unfoldable pub save_profile : HookConfig → SavedHookProfile → HookConfig
save_profile c profile = record c {
  saved_profiles = drain_excess (filter (is_other_game profile) c.saved_profiles ++ profile ∷ []);
}

-- ===== src/Config/Tests.antt =====
-- Runs of src/config at concrete settings, with the theorems there.
use anemone_rs.Base.{
  ℕ, ◌+◌, true, false, none, some, [], ◌∷◌, ◌≡◌, refl, inl, inr, Text, text_eq, is_whitespace,
  ascii_lower, to_ascii_lowercase, eq_ignore_ascii_case, option_text_eq, int_lt, clamp, is_finite,
  is_nan, f32_lt, clamp_f32,
}
use anemone_rs.Update.Version.{trim, trim_start, trim_end, split, cons_head, show_digits}
use anemone_rs.Config.Limits.{
  border_width, margin, shadow_offset, text_size, outline_size, clamp_u32, eztrans_process_count,
  llm_max_tokens, llm_debounce_ms, llm_temperature, llm_top_p, llm_penalty,
}
use anemone_rs.Config.CustomApi.{default_custom, custom_eq, is_default}
use anemone_rs.Config.Hook
use anemone_rs.Config.Hook.{
  SavedHookProfile, HookConfig, default_hook, keeps_profile, drain_excess, is_other_game,
  saved_profile, save_profile,
}
use anemone_rs.Config.Hook.Laws.{saved_profile-save_profile}
use anemone_rs.Config.Llm
use anemone_rs.Config.Llm.{
  LlmConfig, LlmProvider, to_str, from_str, provider_of, get_provider, active_profile,
  apply_profile, same_provider, activate, store, set_provider, normalize_profile,
}
use anemone_rs.Config.Llm.Switch.{set_provider_and_back}
use anemone_rs.Config.Hotkey
use anemone_rs.Config.Hotkey.{
  HotkeySpec, HotkeySlot, HotkeyConfig, HotkeyParseError, default_hotkeys, spec_eq, join_plus,
  is_one_of, finish, rows, vk_from_key_name, key_name_from_vk, is_valid, parts, fmt, read_token,
  read_tokens, get, entries, conflict_with, first_conflict, find_conflict,
}
use anemone_rs.Config.Hotkey.RoundTrip.{from_str-fmt_key}
use anemone_rs.Config.Translation.{
  TranslationConfig, Paths, validate_from, contains, active_from, active_custom_api, migrate_apis,
  migrate_legacy_custom_api, move_ehnd_path, migrate_legacy_ehnd_path, dat_to_sibling_ehnd,
}
use anemone_rs.Config.Translation.Laws.{active_custom_api-migrate}
use anemone_rs.Config.App.{
  Config, ConfigDecodeError, default_config, default_llm, normalize_style, normalize_translation,
  normalize, migrate,
}
use anemone_rs.Config.App.Normal.{normalize-default_config}
use anemone_rs.Config.File.{
  Disk, Entry, Toml, System, ConfigLoadError, decoded, from_toml_str, load_content, load_from_file,
  write_normal, save_to_file, is_bundled_eztrans_path, is_missing_bundle, relocate_into,
  relocate_missing_bundled_eztrans_paths, quarantine_name, quarantine_from, quarantine_corrupt_file,
  loaded_or, load_or_default_from, put_entry,
}
use anemone_rs.Config.File.RoundTrip.{load_from_file-save_to_file}
use anemone_rs.Config.File.Loaded.{load_or_default_from-normal}
use anemone_rs.Config.File.Kept.{load_or_default_from_keeps}

program : Unit {0}
unfolding text_eq is_whitespace ascii_lower to_ascii_lowercase eq_ignore_ascii_case option_text_eq
    int_lt clamp is_finite is_nan f32_lt clamp_f32 trim trim_start trim_end split cons_head
    show_digits border_width margin shadow_offset text_size outline_size clamp_u32
    eztrans_process_count llm_max_tokens llm_debounce_ms llm_temperature llm_top_p llm_penalty
    custom_eq is_default keeps_profile drain_excess Hook.normalize is_other_game saved_profile
    save_profile to_str from_str provider_of get_provider active_profile apply_profile same_provider
    activate store set_provider normalize_profile Llm.normalize spec_eq join_plus is_one_of finish
    rows vk_from_key_name key_name_from_vk is_valid parts fmt read_token read_tokens Hotkey.from_str
    get entries conflict_with first_conflict find_conflict validate_from contains active_from
    active_custom_api migrate_apis migrate_legacy_custom_api move_ehnd_path migrate_legacy_ehnd_path
    dat_to_sibling_ehnd normalize_style normalize_translation normalize migrate decoded
    from_toml_str load_content load_from_file write_normal save_to_file is_bundled_eztrans_path
    is_missing_bundle relocate_into relocate_missing_bundled_eztrans_paths quarantine_name
    quarantine_from quarantine_corrupt_file loaded_or load_or_default_from
program = tt

-- "a.exe", "A.EXE" and "text".
abbrev game : Text
game = 97 ∷ 46 ∷ 101 ∷ 120 ∷ 101 ∷ []

abbrev same_game : Text
same_game = 65 ∷ 46 ∷ 69 ∷ 88 ∷ 69 ∷ []

abbrev hook_text : Text
hook_text = 116 ∷ 101 ∷ 120 ∷ 116 ∷ []

abbrev profile_of : Text → SavedHookProfile
profile_of name = record {
  process_name = name;
  exe_sha256 = none;
  hook_name = hook_text;
  hook_code = none;
}

-- A game is found again whatever the case of its name, and its profile is kept once.
same_game_is_replaced :
    (save_profile
      (save_profile default_hook (profile_of game))
      (profile_of same_game)).saved_profiles
    ≡ profile_of same_game ∷ []
unfolding program
same_game_is_replaced = refl

saved_profile-save_profile_example :
    saved_profile (save_profile default_hook (profile_of game)) game none ≡ some (profile_of game)
saved_profile-save_profile_example = saved_profile-save_profile default_hook (profile_of game)

set_provider_and_back_example :
    active_profile (set_provider (set_provider default_llm LlmProvider.gemini) LlmProvider.open_ai)
    ≡ active_profile default_llm
unfolding program
set_provider_and_back_example =
    set_provider_and_back default_llm LlmProvider.open_ai LlmProvider.gemini refl

-- The codes of the rows, here from 65 on.
abbrev codes : ℕ → ℕ
codes n = n + 65

abbrev ctrl_alt_c : HotkeySpec
ctrl_alt_c = record { ctrl = true; shift = false; alt = true; win = false; vk = 67 }

-- " control + ALT + c "
abbrev written : Text
written =
    32 ∷ 99 ∷ 111 ∷ 110 ∷ 116 ∷ 114 ∷ 111 ∷ 108 ∷ 32 ∷ 43 ∷ 32 ∷ 65 ∷ 76 ∷ 84 ∷ 32 ∷ 43 ∷ 32 ∷ 99
    ∷ 32 ∷ []

ctrl_alt_c_is_read : Hotkey.from_str codes written ≡ inr ctrl_alt_c
unfolding program
ctrl_alt_c_is_read = refl

modifiers_alone_are_refused :
    Hotkey.from_str codes (67 ∷ 116 ∷ 114 ∷ 108 ∷ 43 ∷ []) ≡ inl HotkeyParseError.missing_key
unfolding program
modifiers_alone_are_refused = refl

from_str-fmt_key_example : Hotkey.from_str codes (fmt codes ctrl_alt_c) ≡ inr ctrl_alt_c
unfolding program
from_str-fmt_key_example = from_str-fmt_key codes ctrl_alt_c refl

abbrev same_path : Text → Text
same_path s = s

abbrev base : Config
base = default_config same_path codes

-- Old settings with one service of the user's.
abbrev with_service : TranslationConfig
with_service = record base.translation {
  custom = record default_custom { name = game; url = hook_text };
}

active_custom_api-migrate_example :
    active_custom_api (migrate_legacy_custom_api with_service) ≡ active_custom_api with_service
unfolding program
active_custom_api-migrate_example = active_custom_api-migrate with_service refl

abbrev paths : Paths
paths = record { file_name = λ p. some p; parent = λ p. none; join = λ p q. q }

-- A system on which everything succeeds, and texts that stand for `base`.
abbrev sys : System
sys = record {
  paths = paths;
  is_absolute = λ p. false;
  extension = λ p. none;
  with_file_name = λ p name. name;
  can_write = λ disk p. true;
  can_rename = λ disk p q. true;
}

abbrev toml : Toml
toml = record { from_str = λ t. some base; to_string_pretty = λ c. some hook_text }

abbrev empty_disk : Disk
empty_disk p = none

load_from_file-save_to_file_example :
    load_from_file toml sys (put_entry game (some (Entry.file hook_text)) empty_disk) game
    ≡ inr (normalize base)
unfolding program
load_from_file-save_to_file_example =
    load_from_file-save_to_file toml sys empty_disk
      (put_entry game (some (Entry.file hook_text)) empty_disk) game base base refl
      (λ content h. refl) refl

load_or_default_from-normal_example :
    normalize (load_or_default_from toml sys empty_disk game 5 base).0
    ≡ (load_or_default_from toml sys empty_disk game 5 base).0
load_or_default_from-normal_example =
    load_or_default_from-normal toml sys empty_disk game 5 base
      (normalize-default_config same_path codes)

-- Texts that are not settings.
abbrev no_toml : Toml
no_toml = record { from_str = λ t. none; to_string_pretty = λ c. none }

abbrev corrupt_disk : Disk
corrupt_disk = put_entry game (some (Entry.file hook_text)) empty_disk

-- "a.exe.corrupt-5"
abbrev quarantined : Text
quarantined = 97 ∷ 46 ∷ 101 ∷ 120 ∷ 101 ∷ 46 ∷ 99 ∷ 111 ∷ 114 ∷ 114 ∷ 117 ∷ 112 ∷ 116 ∷ 45 ∷ 53 ∷ []

corrupt_file_is_moved :
    (load_or_default_from no_toml sys corrupt_disk game 5 base).1 quarantined
    ≡ some (Entry.file hook_text)
unfolding program
corrupt_file_is_moved = refl

load_or_default_from_keeps_example :
    (p : Text) × ((load_or_default_from no_toml sys corrupt_disk game 5 base).1 p
      ≡ some (Entry.file hook_text))
unfolding program
load_or_default_from_keeps_example =
    load_or_default_from_keeps no_toml sys corrupt_disk game 5 base (Entry.file hook_text)
      (ConfigLoadError.decode ConfigDecodeError.toml) refl refl

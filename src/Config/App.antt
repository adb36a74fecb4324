-- ===== src/Config/App.antt =====
-- src/config/app.rs: the settings as a whole, their defaults, limits and migration. The paths of the
-- EzTrans bundle and the codes of the hotkeys are parameters of the defaults.
pub mod Normal
use anemone_rs.Base.{
  ℕ, ◌%◌, ℤ, pos, Bool, true, false, not, Option, none, some, List, [], ◌∷◌, if◌then◌else◌, ltb,
  ◌==◌, Text, ◌⊎◌, inl, inr,
}
use anemone_rs.Config.Text.{
  TextAlign, TextStyle, TextType, ColorType, default_style, get_color, set_size,
}
use anemone_rs.Config.Limits
use anemone_rs.Config.Limits.{f32_zero, f32_one}
use anemone_rs.Config.CustomApi.{default_custom}
use anemone_rs.Config.Llm
use anemone_rs.Config.Llm.{LlmConfig, default_system_prompt, to_str, LlmProvider}
use anemone_rs.Config.Translation.{
  TranslationConfig, Paths, migrate_legacy_custom_api, migrate_legacy_ehnd_path,
}
use anemone_rs.Config.Hotkey.{HotkeyConfig, default_hotkeys}
use anemone_rs.Config.Hook
use anemone_rs.Config.Hook.{HookConfig, default_hook}

abbrev pub current_schema_version : ℕ
current_schema_version = 1

pub record Config : Type 0 where
  pub schema_version : ℕ
  pub window_visible : Bool
  pub window_topmost : Bool
  pub click_through : Bool
  pub window_x : Option ℤ
  pub window_y : Option ℤ
  pub window_width : Option ℤ
  pub window_height : Option ℤ
  pub clipboard_watch : Bool
  pub clipboard_max_length : ℕ
  pub clipboard_cache_enabled : Bool
  pub clipboard_source_language_guard : Bool
  pub background_visible : Bool
  pub background_color : ℕ
  pub border_visible : Bool
  pub border_width : ℤ
  pub border_color : ℕ
  pub magnetic_mode : Bool
  pub magnetic_minimize : Bool
  pub show_name : Bool
  pub show_original : Bool
  pub show_translation : Bool
  pub text_align : TextAlign
  pub name_style : TextStyle
  pub original_style : TextStyle
  pub translation_style : TextStyle
  pub text_margin_x : ℤ
  pub text_margin_y : ℤ
  pub name_margin : ℤ
  pub shadow_offset_x : ℤ
  pub shadow_offset_y : ℤ
  pub separate_name : Bool
  pub translation : TranslationConfig
  pub hotkeys : HotkeyConfig
  pub hook : HookConfig
  pub update_check_enabled : Bool
  pub last_update_check : ℤ

-- "openai", "eztrans", "ja", "ko", "failover", "JisJK.flat.bin" and "Ehnd".
abbrev pub openai : Text
openai = 111 ∷ 112 ∷ 101 ∷ 110 ∷ 97 ∷ 105 ∷ []

abbrev pub eztrans : Text
eztrans = 101 ∷ 122 ∷ 116 ∷ 114 ∷ 97 ∷ 110 ∷ 115 ∷ []

abbrev pub ja : Text
ja = 106 ∷ 97 ∷ []

abbrev pub ko : Text
ko = 107 ∷ 111 ∷ []

abbrev pub failover : Text
failover = 102 ∷ 97 ∷ 105 ∷ 108 ∷ 111 ∷ 118 ∷ 101 ∷ 114 ∷ []

abbrev pub dictionary_leaf : Text
dictionary_leaf = 74 ∷ 105 ∷ 115 ∷ 74 ∷ 75 ∷ 46 ∷ 102 ∷ 108 ∷ 97 ∷ 116 ∷ 46 ∷ 98 ∷ 105 ∷ 110 ∷ []

abbrev pub ehnd_leaf : Text
ehnd_leaf = 69 ∷ 104 ∷ 110 ∷ 100 ∷ []

abbrev pub default_llm : LlmConfig
default_llm = record {
  provider = openai;
  model = [];
  api_key = [];
  base_url = [];
  system_prompt = default_system_prompt;
  temperature = f32_one;
  top_p = f32_one;
  frequency_penalty = f32_zero;
  presence_penalty = f32_zero;
  max_tokens = 1024;
  reasoning_effort = none;
  glossary = [];
  debounce_ms = 300;
  provider_profiles = λ k. none;
}

abbrev pub default_translation : (Text → Text) → TranslationConfig
default_translation subpath = record {
  engine = eztrans;
  source_lang = ja;
  target_lang = ko;
  manual = none;
  file = none;
  eztrans_dictionary_path = subpath dictionary_leaf;
  eztrans_ehnd_path = subpath ehnd_leaf;
  eztrans_dat_path = none;
  eztrans_process_count = 2;
  eztrans_postprocess_dictionary = [];
  deepl_api_key = [];
  deepl_keys = [];
  deepl_strategy = failover;
  papago_client_id = [];
  papago_client_secret = [];
  mys_translater_url = [];
  mys_translater_api_key = [];
  llm = default_llm;
  custom = default_custom;
  custom_api = [];
  custom_apis = [];
}

abbrev pub default_config : (Text → Text) → (ℕ → ℕ) → Config
default_config subpath codes = record {
  schema_version = 1;
  window_visible = true;
  window_topmost = true;
  click_through = false;
  window_x = none;
  window_y = none;
  window_width = some (pos 844);
  window_height = some (pos 200);
  clipboard_watch = true;
  clipboard_max_length = 300;
  clipboard_cache_enabled = true;
  clipboard_source_language_guard = true;
  background_visible = true;
  background_color = 0xC8282828;
  border_visible = true;
  border_width = pos 2;
  border_color = 0x80AAAAAA;
  magnetic_mode = false;
  magnetic_minimize = true;
  show_name = true;
  show_original = false;
  show_translation = true;
  text_align = TextAlign.left;
  name_style = default_style;
  original_style = default_style;
  translation_style = default_style;
  text_margin_x = pos 10;
  text_margin_y = pos 10;
  name_margin = pos 5;
  shadow_offset_x = pos 0;
  shadow_offset_y = pos 0;
  separate_name = true;
  translation = default_translation subpath;
  hotkeys = default_hotkeys codes;
  hook = default_hook;
  update_check_enabled = true;
  last_update_check = pos 0;
}

-- The loop over the styles in `normalize`; `&= 0b11` is the remainder by four.
unfoldable pub normalize_style : TextStyle → TextStyle
normalize_style s = record s {
  size = Limits.text_size s.size;
  outline1_size = Limits.outline_size s.outline1_size;
  outline2_size = Limits.outline_size s.outline2_size;
  font_style = s.font_style % 4;
}

unfoldable pub normalize_translation : TranslationConfig → TranslationConfig
normalize_translation t = record t {
  eztrans_process_count = Limits.eztrans_process_count t.eztrans_process_count;
  llm = Llm.normalize t.llm;
}

unfoldable pub normalize : Config → Config
normalize c = record c {
  border_width = Limits.border_width c.border_width;
  text_margin_x = Limits.margin c.text_margin_x;
  text_margin_y = Limits.margin c.text_margin_y;
  name_margin = Limits.margin c.name_margin;
  shadow_offset_x = Limits.shadow_offset c.shadow_offset_x;
  shadow_offset_y = Limits.shadow_offset c.shadow_offset_y;
  name_style = normalize_style c.name_style;
  original_style = normalize_style c.original_style;
  translation_style = normalize_style c.translation_style;
  translation = normalize_translation c.translation;
  hook = Hook.normalize c.hook;
}

-- What the toml crate reports in an error is left out.
pub data ConfigDecodeError : Type 0 where
  toml : ConfigDecodeError
  unsupported_schema : ℕ → ℕ → ConfigDecodeError

unfoldable pub migrate : Paths → Config → ConfigDecodeError ⊎ Config
migrate paths c =
    if ltb current_schema_version c.schema_version
    then inl (ConfigDecodeError.unsupported_schema c.schema_version current_schema_version)
    else inr (
        if c.schema_version == 0
        then record c {
          schema_version = 1;
          translation = migrate_legacy_ehnd_path paths (migrate_legacy_custom_api c.translation);
        }
        else record c { translation = migrate_legacy_ehnd_path paths c.translation })

unfoldable pub toggle_window_visible : Config → Config
toggle_window_visible c = record c { window_visible = not c.window_visible }

unfoldable pub toggle_click_through : Config → Config
toggle_click_through c = record c { click_through = not c.click_through }

unfoldable pub toggle_background_visible : Config → Config
toggle_background_visible c = record c { background_visible = not c.background_visible }

unfoldable pub toggle_border_visible : Config → Config
toggle_border_visible c = record c { border_visible = not c.border_visible }

unfoldable pub get_text_style : Config → TextType → TextStyle
get_text_style c TextType.name = c.name_style
get_text_style c TextType.original = c.original_style
get_text_style c TextType.translation = c.translation_style

unfoldable pub get_text_color : Config → TextType → ColorType → ℕ
get_text_color c text_type color_type = get_color (get_text_style c text_type) color_type

unfoldable pub set_all_text_size : Config → ColorType → ℤ → Config
set_all_text_size c size_type size = record c {
  name_style = set_size c.name_style size_type size;
  original_style = set_size c.original_style size_type size;
  translation_style = set_size c.translation_style size_type size;
}

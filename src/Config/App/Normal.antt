-- ===== src/Config/App/Normal.antt =====
-- src/config/app.rs: normal settings, and what the migration leaves.
use anemone_rs.Base.{
  ℕ, ◌%◌, ◌≡◌, refl, arith, Text, is_finite, is_nan, f32_lt, clamp_f32, clamp, int_lt,
}
use anemone_rs.Config.Limits.{
  border_width, margin, shadow_offset, text_size, outline_size, clamp_u32, eztrans_process_count,
  llm_max_tokens, llm_debounce_ms, llm_temperature, llm_top_p, llm_penalty,
}
use anemone_rs.Config.Limits.Idem.{
  border_width_idem, margin_idem, shadow_offset_idem, text_size_idem, outline_size_idem,
  eztrans_process_count_idem,
}
use anemone_rs.Config.Text.{TextStyle}
use anemone_rs.Config.Llm
use anemone_rs.Config.Llm.Switch
use anemone_rs.Config.Hook
use anemone_rs.Config.Hook.{keeps_profile, drain_excess}
use anemone_rs.Config.Hook.Laws
use anemone_rs.Config.Translation.{TranslationConfig}
use anemone_rs.Config.App.{
  Config, default_config, normalize_style, normalize_translation, normalize,
}

mod_mod : (n : ℕ) → n % 4 % 4 ≡ n % 4
mod_mod n = omega arith

normalize_style_idem : (s : TextStyle) → normalize_style (normalize_style s) ≡ normalize_style s
unfolding normalize_style
normalize_style_idem s = rw (
  text_size_idem s.size,
  outline_size_idem s.outline1_size,
  outline_size_idem s.outline2_size,
  mod_mod s.font_style,
)

normalize_translation_idem :
    (t : TranslationConfig)
    → normalize_translation (normalize_translation t) ≡ normalize_translation t
unfolding normalize_translation
normalize_translation_idem t =
    rw (eztrans_process_count_idem t.eztrans_process_count, Llm.Switch.normalize_idem t.llm)

-- Settings that were brought within their limits once stay as they are.
pub normalize_idem : (c : Config) → normalize (normalize c) ≡ normalize c
unfolding normalize
normalize_idem c = rw (
  border_width_idem c.border_width,
  margin_idem c.text_margin_x,
  margin_idem c.text_margin_y,
  margin_idem c.name_margin,
  shadow_offset_idem c.shadow_offset_x,
  shadow_offset_idem c.shadow_offset_y,
  normalize_style_idem c.name_style,
  normalize_style_idem c.original_style,
  normalize_style_idem c.translation_style,
  normalize_translation_idem c.translation,
  Hook.Laws.normalize_idem c.hook,
)

-- The defaults are within the limits.
pub normalize-default_config :
    (subpath : Text → Text) (codes : ℕ → ℕ)
    → normalize (default_config subpath codes) ≡ default_config subpath codes
unfolding normalize normalize_style normalize_translation Llm.normalize Hook.normalize border_width
    margin shadow_offset text_size outline_size clamp_u32 eztrans_process_count llm_max_tokens
    llm_debounce_ms llm_temperature llm_top_p llm_penalty is_finite is_nan f32_lt clamp_f32 clamp
    int_lt keeps_profile drain_excess
normalize-default_config subpath codes = refl

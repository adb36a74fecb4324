-- ===== src/Config/Limits.antt =====
-- src/config/limits.rs: the ranges of the settings' values. The limits are written at their use.
pub mod Idem
use anemone_rs.Base.{
  ℕ, ℤ, pos, clamp, F32, is_finite, clamp_f32, Bool, true, false, if◌then◌else◌, ltb,
}

unfoldable pub border_width : ℤ → ℤ
border_width value = clamp (pos 0) (pos 10) value

unfoldable pub margin : ℤ → ℤ
margin value = clamp (pos 0) (pos 300) value

unfoldable pub shadow_offset : ℤ → ℤ
shadow_offset value = clamp (pos 0) (pos 20) value

unfoldable pub text_size : ℤ → ℤ
text_size value = clamp (pos 6) (pos 100) value

unfoldable pub outline_size : ℤ → ℤ
outline_size value = clamp (pos 0) (pos 20) value

-- `Ord::clamp` on `u32`.
unfoldable pub clamp_u32 : ℕ → ℕ → ℕ → ℕ
clamp_u32 low high value = if ltb value low then low else if ltb high value then high else value

unfoldable pub eztrans_process_count : ℕ → ℕ
eztrans_process_count value = clamp_u32 1 16 value

unfoldable pub llm_max_tokens : ℕ → ℕ
llm_max_tokens value = clamp_u32 1 32000 value

unfoldable pub llm_debounce_ms : ℕ → ℕ
llm_debounce_ms value = clamp_u32 0 10000 value

-- 0.0, 1.0, 2.0 and -2.0.
abbrev pub f32_zero : F32
f32_zero = record { negative = false; magnitude = 0 }

abbrev pub f32_one : F32
f32_one = record { negative = false; magnitude = 0x3F800000 }

abbrev pub f32_two : F32
f32_two = record { negative = false; magnitude = 0x40000000 }

abbrev pub f32_minus_two : F32
f32_minus_two = record { negative = true; magnitude = 0x40000000 }

unfoldable pub llm_temperature : F32 → F32
llm_temperature value = if is_finite value then clamp_f32 f32_zero f32_two value else f32_one

unfoldable pub llm_top_p : F32 → F32
llm_top_p value = if is_finite value then clamp_f32 f32_zero f32_one value else f32_one

unfoldable pub llm_penalty : F32 → F32
llm_penalty value = if is_finite value then clamp_f32 f32_minus_two f32_two value else f32_zero

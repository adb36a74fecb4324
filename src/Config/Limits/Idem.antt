-- ===== src/Config/Limits/Idem.antt =====
-- Every limit leaves the values that it gave alone.
use anemone_rs.Base.{
  ℕ, ℤ, pos, int_lt, clamp_idem, F32, is_finite, is_nan, f32_lt, clamp_f32, clamp_f32-F32Within,
  clamp_f32_within, true, false, ◌≡◌, refl, if◌then◌else◌, Bool-cases, inl, inr, arith, ltb,
}
use anemone_rs.Config.Limits.{
  border_width, margin, shadow_offset, text_size, outline_size, clamp_u32, eztrans_process_count,
  llm_max_tokens, llm_debounce_ms, f32_zero, f32_one, f32_two, f32_minus_two, llm_temperature,
  llm_top_p, llm_penalty,
}

pub clamp_u32_idem :
    (low high value : ℕ)
    → ltb high low ≡ false
    → clamp_u32 low high (clamp_u32 low high value) ≡ clamp_u32 low high value
unfolding clamp_u32
clamp_u32_idem low high value h = ground arith

is_finite-clamp_f32 :
    (low high value : F32)
    → is_finite low ≡ true
    → is_finite high ≡ true
    → is_finite value ≡ true
    → is_finite (clamp_f32 low high value) ≡ true
unfolding clamp_f32
is_finite-clamp_f32 low high value hl hh hv = elim (Bool-cases (f32_lt value low)) [
  | inl below ↦ elim (Bool-cases (f32_lt high low)) [
    | inl over ↦ rw (below, over) hh
    | inr under ↦ rw (below, under) hl
  ]
  | inr above ↦ elim (Bool-cases (f32_lt high value)) [
    | inl over ↦ rw (above, over) hh
    | inr under ↦ rw (above, under) hv
  ]
]

-- A clamp that replaces what is not finite leaves its own results alone.
guarded_idem :
    (low high default value : F32)
    → is_finite low ≡ true
    → is_finite high ≡ true
    → f32_lt high low ≡ false
    → (if is_finite default then clamp_f32 low high default else default) ≡ default
    → (let limited = if is_finite value then clamp_f32 low high value else default in
        if is_finite limited then clamp_f32 low high limited else default)
      ≡ (if is_finite value then clamp_f32 low high value else default)
guarded_idem low high default value hl hh h fixed = elim (Bool-cases (is_finite value)) [
  | inl finite ↦
      rw (finite, is_finite-clamp_f32 low high value hl hh finite)
        (clamp_f32_within low high (clamp_f32 low high value)
          (clamp_f32-F32Within low high value h))
  | inr infinite ↦ rw (infinite) fixed
]

pub border_width_idem : (v : ℤ) → border_width (border_width v) ≡ border_width v
unfolding border_width int_lt
border_width_idem v = clamp_idem (pos 0) (pos 10) v refl

pub margin_idem : (v : ℤ) → margin (margin v) ≡ margin v
unfolding margin int_lt
margin_idem v = clamp_idem (pos 0) (pos 300) v refl

pub shadow_offset_idem : (v : ℤ) → shadow_offset (shadow_offset v) ≡ shadow_offset v
unfolding shadow_offset int_lt
shadow_offset_idem v = clamp_idem (pos 0) (pos 20) v refl

pub text_size_idem : (v : ℤ) → text_size (text_size v) ≡ text_size v
unfolding text_size int_lt
text_size_idem v = clamp_idem (pos 6) (pos 100) v refl

pub outline_size_idem : (v : ℤ) → outline_size (outline_size v) ≡ outline_size v
unfolding outline_size int_lt
outline_size_idem v = clamp_idem (pos 0) (pos 20) v refl

pub eztrans_process_count_idem :
    (v : ℕ) → eztrans_process_count (eztrans_process_count v) ≡ eztrans_process_count v
unfolding eztrans_process_count
eztrans_process_count_idem v = clamp_u32_idem 1 16 v refl

pub llm_max_tokens_idem : (v : ℕ) → llm_max_tokens (llm_max_tokens v) ≡ llm_max_tokens v
unfolding llm_max_tokens
llm_max_tokens_idem v = clamp_u32_idem 1 32000 v refl

pub llm_debounce_ms_idem : (v : ℕ) → llm_debounce_ms (llm_debounce_ms v) ≡ llm_debounce_ms v
unfolding llm_debounce_ms
llm_debounce_ms_idem v = clamp_u32_idem 0 10000 v refl

pub llm_temperature_idem : (v : F32) → llm_temperature (llm_temperature v) ≡ llm_temperature v
unfolding llm_temperature is_finite f32_lt is_nan clamp_f32
llm_temperature_idem v = guarded_idem f32_zero f32_two f32_one v refl refl refl refl

pub llm_top_p_idem : (v : F32) → llm_top_p (llm_top_p v) ≡ llm_top_p v
unfolding llm_top_p is_finite f32_lt is_nan clamp_f32
llm_top_p_idem v = guarded_idem f32_zero f32_one f32_one v refl refl refl refl

pub llm_penalty_idem : (v : F32) → llm_penalty (llm_penalty v) ≡ llm_penalty v
unfolding llm_penalty is_finite f32_lt is_nan clamp_f32
llm_penalty_idem v = guarded_idem f32_minus_two f32_two f32_zero v refl refl refl refl

-- ===== src/RenderCache/Measure.antt =====
-- src/d2d/cache/measure.rs: the direct-mapped cache of measured heights, one entry for a slot.
pub mod Laws
use anemone_rs.Base.{
  ℕ, Bool, true, false, ◌&&◌, ◌==◌, Option, none, some, if◌then◌else◌, Text, text_eq, ℤ, int_eq,
}
use mathlib.Core.Option
use anemone_rs.RenderCache.{MeasureSlot, Slots, at, put, repeated}
use anemone_rs.RenderCache.Keys.{TextAlign, align_eq, TextRenderStyle}

pub record MeasureKey : Type 0 where
  pub text : Text
  pub font_face : Text
  pub font_size : ℤ
  pub font_style : ℕ
  pub text_align : TextAlign
  pub max_width_bits : ℕ

-- `MeasureKeyRef` borrows the same fields.
abbrev pub MeasureKeyRef : Type 0
MeasureKeyRef = MeasureKey

pub measure_from_style : Text → TextRenderStyle → ℕ → MeasureKeyRef
measure_from_style text style max_width = record {
  text = text;
  font_face = style.font_face;
  font_size = style.font_size;
  font_style = style.font_style;
  text_align = style.text_align;
  max_width_bits = max_width;
}

unfoldable pub measure_matches : MeasureKeyRef → MeasureKey → Bool
measure_matches r key =
    int_eq r.font_size key.font_size
    && (r.font_style == key.font_style
        && (align_eq r.text_align key.text_align
            && (r.max_width_bits == key.max_width_bits
                && (text_eq r.text key.text && text_eq r.font_face key.font_face))))

-- A height is an `f32`, by its bits.
pub record MeasureCacheEntry : Type 0 where
  pub key : MeasureKey
  pub height : ℕ

pub record MeasureCache : Type 0 where
  pub entries : Slots (Option MeasureCacheEntry)

unfoldable pub new : MeasureCache
new = record { entries = repeated none }

abbrev hit : MeasureKeyRef → Option MeasureCacheEntry → Option ℕ
hit key none = none
hit key (some entry) = if measure_matches key entry.key then some entry.height else none

unfoldable pub get : MeasureCache → MeasureSlot → MeasureKeyRef → Option ℕ
get c slot key = hit key (at c.entries slot)

unfoldable pub insert : MeasureCache → MeasureSlot → MeasureKey → ℕ → MeasureCache
insert c slot key height = record {
  entries = put c.entries slot (some (record { key = key; height = height }));
}

-- ===== src/RenderCache/Outline.antt =====
-- src/d2d/cache/effective_style.rs and outline_bitmap.rs: the part of a style that reaches the
-- pixels of an outline, and the key of the bitmaps.
pub mod Laws
use anemone_rs.Base.{
  ℕ, Bool, true, false, not, ◌&&◌, ◌||◌, ◌==◌, if◌then◌else◌, Text, text_eq, ℤ, pos, int_eq,
  max_zero, is_positive, saturating_add_i32,
}
use anemone_rs.RenderCache.Keys.{TextAlign, align_eq, TextRenderStyle, TextLayoutKey, LayoutKeyRef}

pub record EffectiveOutlineStyle : Type 0 where
  pub outline1_size : ℤ
  pub outline1_color : ℕ
  pub outline2_size : ℤ
  pub outline2_color : ℕ
  pub outline_total : ℤ
  pub has_shadow : Bool
  pub shadow_color : ℕ
  pub shadow_offset_x : ℤ
  pub shadow_offset_y : ℤ

unfoldable pub effective_from_style : TextRenderStyle → EffectiveOutlineStyle
unfolding saturating_add_i32
effective_from_style style =
    let outline1_size = max_zero style.outline1_size in
    let outline2_size = max_zero style.outline2_size in
    let has_shadow =
      style.shadow_enabled
      && (not (int_eq style.shadow_offset_x (pos 0))
          || not (int_eq style.shadow_offset_y (pos 0))) in
    record {
      outline1_size = outline1_size;
      outline1_color = if is_positive outline1_size then style.outline1_color else 0;
      outline2_size = outline2_size;
      outline2_color = if is_positive outline2_size then style.outline2_color else 0;
      outline_total = saturating_add_i32 outline1_size outline2_size;
      has_shadow = has_shadow;
      shadow_color = if has_shadow then style.shadow_color else 0;
      shadow_offset_x = if has_shadow then style.shadow_offset_x else pos 0;
      shadow_offset_y = if has_shadow then style.shadow_offset_y else pos 0;
    }

pub record OutlineBitmapKey : Type 0 where
  pub text : Text
  pub font_face : Text
  pub font_size : ℤ
  pub font_style : ℕ
  pub text_align : TextAlign
  pub max_width_bits : ℕ
  pub max_height_bits : ℕ
  pub outline1_size : ℤ
  pub outline1_color : ℕ
  pub outline2_size : ℤ
  pub outline2_color : ℕ
  pub shadow_enabled : Bool
  pub shadow_color : ℕ
  pub shadow_offset_x : ℤ
  pub shadow_offset_y : ℤ

-- `OutlineBitmapKeyRef` borrows the same fields.
abbrev pub OutlineBitmapKeyRef : Type 0
OutlineBitmapKeyRef = OutlineBitmapKey

abbrev with_effects : Text → TextRenderStyle → ℕ → ℕ → EffectiveOutlineStyle → OutlineBitmapKeyRef
with_effects text style max_width max_height effects = record {
  text = text;
  font_face = style.font_face;
  font_size = style.font_size;
  font_style = style.font_style;
  text_align = style.text_align;
  max_width_bits = max_width;
  max_height_bits = max_height;
  outline1_size = effects.outline1_size;
  outline1_color = effects.outline1_color;
  outline2_size = effects.outline2_size;
  outline2_color = effects.outline2_color;
  shadow_enabled = effects.has_shadow;
  shadow_color = effects.shadow_color;
  shadow_offset_x = effects.shadow_offset_x;
  shadow_offset_y = effects.shadow_offset_y;
}

unfoldable pub outline_from_style : Text → TextRenderStyle → ℕ → ℕ → OutlineBitmapKeyRef
unfolding effective_from_style
outline_from_style text style max_width max_height =
    with_effects text style max_width max_height (effective_from_style style)

abbrev pub bool_eq : Bool → Bool → Bool
bool_eq true b = b
bool_eq false b = not b

abbrev same_effects : OutlineBitmapKeyRef → OutlineBitmapKey → Bool
same_effects r key =
    int_eq r.outline1_size key.outline1_size
    && (r.outline1_color == key.outline1_color
        && (int_eq r.outline2_size key.outline2_size
            && (r.outline2_color == key.outline2_color
                && (bool_eq r.shadow_enabled key.shadow_enabled
                    && (r.shadow_color == key.shadow_color
                        && (int_eq r.shadow_offset_x key.shadow_offset_x
                            && int_eq r.shadow_offset_y key.shadow_offset_y))))))

abbrev same_layout : OutlineBitmapKeyRef → OutlineBitmapKey → Bool
same_layout r key =
    int_eq r.font_size key.font_size
    && (r.font_style == key.font_style
        && (align_eq r.text_align key.text_align
            && (r.max_width_bits == key.max_width_bits
                && r.max_height_bits == key.max_height_bits)))

unfoldable pub outline_matches : OutlineBitmapKeyRef → OutlineBitmapKey → Bool
outline_matches r key =
    same_layout r key
    && (same_effects r key && (text_eq r.text key.text && text_eq r.font_face key.font_face))

-- The strings are those of the layout's key.
unfoldable pub outline_to_owned_reusing_layout :
    OutlineBitmapKeyRef → TextLayoutKey → OutlineBitmapKey
outline_to_owned_reusing_layout r layout_key = record r {
  text = layout_key.text;
  font_face = layout_key.font_face;
}

unfoldable pub matches_ignoring_max_height : LayoutKeyRef → TextLayoutKey → Bool
matches_ignoring_max_height r key =
    int_eq r.font_size key.font_size
    && (r.font_style == key.font_style
        && (align_eq r.text_align key.text_align
            && (r.max_width_bits == key.max_width_bits
                && (text_eq r.text key.text && text_eq r.font_face key.font_face))))

-- The view that the debug assertion of `to_owned_reusing_layout` compares.
unfoldable pub layout_view : OutlineBitmapKeyRef → ℕ → LayoutKeyRef
layout_view r max_height = record {
  text = r.text;
  font_face = r.font_face;
  font_size = r.font_size;
  font_style = r.font_style;
  text_align = r.text_align;
  max_width_bits = r.max_width_bits;
  max_height_bits = max_height;
}

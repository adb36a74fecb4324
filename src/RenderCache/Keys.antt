-- ===== src/RenderCache/Keys.antt =====
-- The keys of src/d2d/cache: layout.rs and hit_test.rs. A key
-- and its borrowed view hold the same fields; the view is compared field by field.
pub mod Laws
use anemone_rs.Base.{
  ℕ, zero, suc, ◌+◌, min, Bool, true, false, not, ◌&&◌, ◌||◌, ◌==◌, if◌then◌else◌, Text, text_eq, ℤ,
  pos, negsuc, int_eq, max_zero, is_positive,
}

-- src/config/text.rs
pub data TextAlign : Type 0 where
  left center right : TextAlign

abbrev pub align_eq : TextAlign → TextAlign → Bool
align_eq left left = true
align_eq center center = true
align_eq right right = true
align_eq _ _ = false

-- src/d2d/style.rs
pub record TextRenderStyle : Type 0 where
  pub font_size : ℤ
  pub font_face : Text
  pub font_style : ℕ
  pub text_align : TextAlign
  pub color : ℕ
  pub outline1_size : ℤ
  pub outline1_color : ℕ
  pub outline2_size : ℤ
  pub outline2_color : ℕ
  pub shadow_enabled : Bool
  pub shadow_color : ℕ
  pub shadow_offset_x : ℤ
  pub shadow_offset_y : ℤ

pub record TextLayoutKey : Type 0 where
  pub text : Text
  pub font_face : Text
  pub font_size : ℤ
  pub font_style : ℕ
  pub text_align : TextAlign
  pub max_width_bits : ℕ
  pub max_height_bits : ℕ

pub record LayoutKeyRef : Type 0 where
  pub text : Text
  pub font_face : Text
  pub font_size : ℤ
  pub font_style : ℕ
  pub text_align : TextAlign
  pub max_width_bits : ℕ
  pub max_height_bits : ℕ

unfoldable pub layout_from_style : Text → TextRenderStyle → ℕ → ℕ → LayoutKeyRef
layout_from_style text style max_width max_height = record {
  text = text;
  font_face = style.font_face;
  font_size = style.font_size;
  font_style = style.font_style;
  text_align = style.text_align;
  max_width_bits = max_width;
  max_height_bits = max_height;
}

unfoldable pub layout_matches : LayoutKeyRef → TextLayoutKey → Bool
layout_matches r key =
    int_eq r.font_size key.font_size
    && (r.font_style == key.font_style
        && (align_eq r.text_align key.text_align
            && (r.max_width_bits == key.max_width_bits
                && (r.max_height_bits == key.max_height_bits
                    && (text_eq r.text key.text && text_eq r.font_face key.font_face)))))

unfoldable pub layout_to_owned : LayoutKeyRef → TextLayoutKey
layout_to_owned r = record {
  text = r.text;
  font_face = r.font_face;
  font_size = r.font_size;
  font_style = r.font_style;
  text_align = r.text_align;
  max_width_bits = r.max_width_bits;
  max_height_bits = r.max_height_bits;
}

pub record HitTestKey : Type 0 where
  pub layout : TextLayoutKey
  pub origin_x_bits : ℕ
  pub origin_y_bits : ℕ
  pub inflate_bits : ℕ

pub record HitTestKeyRef : Type 0 where
  pub layout : LayoutKeyRef
  pub origin_x_bits : ℕ
  pub origin_y_bits : ℕ
  pub inflate_bits : ℕ

unfoldable pub hit_test_matches : HitTestKeyRef → HitTestKey → Bool
unfolding layout_matches
hit_test_matches r key =
    layout_matches r.layout key.layout
    && (r.origin_x_bits == key.origin_x_bits
        && (r.origin_y_bits == key.origin_y_bits && r.inflate_bits == key.inflate_bits))

unfoldable pub hit_test_to_owned_reusing_layout : HitTestKeyRef → TextLayoutKey → HitTestKey
hit_test_to_owned_reusing_layout r layout = record {
  layout = layout;
  origin_x_bits = r.origin_x_bits;
  origin_y_bits = r.origin_y_bits;
  inflate_bits = r.inflate_bits;
}

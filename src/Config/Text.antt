-- ===== src/Config/Text.antt =====
-- src/config/text.rs: the style of a text.
use anemone_rs.Base.{ℕ, ℤ, pos, Bool, true, Text, ◌∷◌, []}

pub data TextType : Type 0 where
  name original translation : TextType

pub data ColorType : Type 0 where
  primary outline1 outline2 shadow : ColorType

pub data TextAlign : Type 0 where
  left center right : TextAlign

pub record TextStyle : Type 0 where
  pub font_face : Text
  pub font_style : ℕ
  pub size : ℤ
  pub outline1_size : ℤ
  pub outline2_size : ℤ
  pub shadow_enabled : Bool
  pub color_primary : ℕ
  pub color_outline1 : ℕ
  pub color_outline2 : ℕ
  pub color_shadow : ℕ

-- "맑은 고딕"
abbrev pub default_style : TextStyle
default_style = record {
  font_face = 47569 ∷ 51008 ∷ 32 ∷ 44256 ∷ 46357 ∷ [];
  font_style = 0;
  size = pos 22;
  outline1_size = pos 1;
  outline2_size = pos 0;
  shadow_enabled = true;
  color_primary = 0xFFFFFFFF;
  color_outline1 = 0xFF000000;
  color_outline2 = 0xFF404040;
  color_shadow = 0x80000000;
}

unfoldable pub get_color : TextStyle → ColorType → ℕ
get_color s primary = s.color_primary
get_color s outline1 = s.color_outline1
get_color s outline2 = s.color_outline2
get_color s shadow = s.color_shadow

unfoldable pub set_color : TextStyle → ColorType → ℕ → TextStyle
set_color s primary color = record s { color_primary = color }
set_color s outline1 color = record s { color_outline1 = color }
set_color s outline2 color = record s { color_outline2 = color }
set_color s shadow color = record s { color_shadow = color }

unfoldable pub set_size : TextStyle → ColorType → ℤ → TextStyle
set_size s primary size = record s { size = size }
set_size s outline1 size = record s { outline1_size = size }
set_size s outline2 size = record s { outline2_size = size }
set_size s shadow size = s

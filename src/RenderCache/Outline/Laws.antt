-- ===== src/RenderCache/Outline/Laws.antt =====
-- The bitmap key of src/d2d/cache/outline_bitmap.rs holds what reaches the pixels, and nothing else.
use anemone_rs.Base.{
  ℕ, ◌≡◌, ap, sym, ◌∙◌, subst, ◌↔◌, true, Text, text_eq→eq, text_eq_refl, int_eq→eq, int_eq_refl,
  arith,
}
use anemone_rs.RenderCache.Keys.{TextRenderStyle, TextLayoutKey}
use anemone_rs.RenderCache.Keys.Laws.{align_eq→eq, align_eq_refl}
use anemone_rs.RenderCache.Outline.{
  effective_from_style, OutlineBitmapKey, OutlineBitmapKeyRef, with_effects, outline_from_style,
  same_effects, same_layout, outline_matches, outline_to_owned_reusing_layout,
  matches_ignoring_max_height, layout_view,
}

same_effects→eq :
    (r k : OutlineBitmapKey)
    → same_effects r k ≡ true
    → (r.outline1_size ≡ k.outline1_size)
      × (r.outline1_color ≡ k.outline1_color)
      × (r.outline2_size ≡ k.outline2_size)
      × (r.outline2_color ≡ k.outline2_color)
      × (r.shadow_enabled ≡ k.shadow_enabled)
      × (r.shadow_color ≡ k.shadow_color)
      × (r.shadow_offset_x ≡ k.shadow_offset_x)
      × (r.shadow_offset_y ≡ k.shadow_offset_y)
same_effects→eq r k h = ground (
  arith,
  int_eq→eq r.outline1_size k.outline1_size,
  int_eq→eq r.outline2_size k.outline2_size,
  int_eq→eq r.shadow_offset_x k.shadow_offset_x,
  int_eq→eq r.shadow_offset_y k.shadow_offset_y,
)

same_layout→eq :
    (r k : OutlineBitmapKey)
    → same_layout r k ≡ true
    → (r.font_size ≡ k.font_size)
      × (r.font_style ≡ k.font_style)
      × (r.text_align ≡ k.text_align)
      × (r.max_width_bits ≡ k.max_width_bits)
      × (r.max_height_bits ≡ k.max_height_bits)
same_layout→eq r k h =
    ground (arith, int_eq→eq r.font_size k.font_size, align_eq→eq r.text_align k.text_align)

matches→eq : (r k : OutlineBitmapKey) → outline_matches r k ≡ true → r ≡ k
unfolding outline_matches
matches→eq r k h = ground (
  arith,
  same_layout→eq r k (ground arith),
  same_effects→eq r k (ground arith),
  text_eq→eq r.text k.text,
  text_eq→eq r.font_face k.font_face,
)

same_effects_refl : (r : OutlineBitmapKey) → same_effects r r ≡ true
same_effects_refl r = ground (
  arith,
  int_eq_refl r.outline1_size,
  int_eq_refl r.outline2_size,
  int_eq_refl r.shadow_offset_x,
  int_eq_refl r.shadow_offset_y,
)

matches_refl : (r : OutlineBitmapKey) → outline_matches r r ≡ true
unfolding outline_matches
matches_refl r = ground (
  arith,
  same_effects_refl r,
  int_eq_refl r.font_size,
  align_eq_refl r.text_align,
  text_eq_refl r.text,
  text_eq_refl r.font_face,
)

owned-eq :
    (r : OutlineBitmapKeyRef) (n : ℕ) (l : TextLayoutKey)
    → matches_ignoring_max_height (layout_view r n) l ≡ true
    → outline_to_owned_reusing_layout r l ≡ r
unfolding matches_ignoring_max_height layout_view outline_to_owned_reusing_layout
owned-eq r n l h = ground (arith, text_eq→eq r.text l.text, text_eq→eq r.font_face l.font_face)

-- Where the layout of a view has its text and font, the view matches a bitmap key exactly when the
-- key that it would be stored under, with the strings of that layout, is that key.
pub outline_matches_iff :
    (r : OutlineBitmapKeyRef) (k : OutlineBitmapKey) (n : ℕ) (l : TextLayoutKey)
    → matches_ignoring_max_height (layout_view r n) l ≡ true
    → (outline_matches r k ≡ true) ↔ (outline_to_owned_reusing_layout r l ≡ k)
outline_matches_iff r k n l h = (
  λ m. owned-eq r n l h ∙ matches→eq r k m,
  λ e. subst (λ x. outline_matches r x ≡ true) (sym (owned-eq r n l h) ∙ e) (matches_refl r),
)

-- A style with another text colour, with no colour for an outline of no size, and with no shadow
-- where the shadow is off or does not move.
pub normalised : TextRenderStyle → ℕ → TextRenderStyle
normalised style color =
    let effects = effective_from_style style in
    record style {
      color = color;
      outline1_size = effects.outline1_size;
      outline1_color = effects.outline1_color;
      outline2_size = effects.outline2_size;
      outline2_color = effects.outline2_color;
      shadow_enabled = effects.has_shadow;
      shadow_color = effects.shadow_color;
      shadow_offset_x = effects.shadow_offset_x;
      shadow_offset_y = effects.shadow_offset_y;
    }

effective-normalised :
    (style : TextRenderStyle) (color : ℕ)
    → effective_from_style (normalised style color) ≡ effective_from_style style
unfolding effective_from_style normalised
effective-normalised style color = ground arith

-- What does not reach the pixels of the outline does not reach the key: a style and its normalised
-- form, with any text colour, have one bitmap key.
pub outline_from_style-normalised :
    (text : Text) (style : TextRenderStyle) (color width height : ℕ)
    → outline_from_style text (normalised style color) width height
      ≡ outline_from_style text style width height
unfolding outline_from_style normalised
outline_from_style-normalised text style color width height =
    ap (with_effects text style width height) (effective-normalised style color)

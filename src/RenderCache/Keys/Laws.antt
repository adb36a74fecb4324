-- ===== src/RenderCache/Keys/Laws.antt =====
-- The comparisons of src/d2d/cache/layout.rs and hit_test.rs decide whether the owned key of a view
-- is the cached key.
use anemone_rs.Base.{
  ◌≡◌, refl, subst, ◌↔◌, true, text_eq→eq, text_eq_refl, int_eq→eq, int_eq_refl, arith,
}
use anemone_rs.RenderCache.Keys.{
  TextAlign, left, align_eq, TextLayoutKey, LayoutKeyRef, layout_matches, layout_to_owned,
  HitTestKey, HitTestKeyRef, hit_test_matches, hit_test_to_owned_reusing_layout,
}

pub align_eq→eq : (a b : TextAlign) → align_eq a b ≡ true → a ≡ b
align_eq→eq a b h = ground arith

pub align_eq_refl : (a : TextAlign) → align_eq a a ≡ true
align_eq_refl left = refl
align_eq_refl _ = refl

matches→owned :
    (r : LayoutKeyRef) (k : TextLayoutKey) → layout_matches r k ≡ true → layout_to_owned r ≡ k
unfolding layout_matches layout_to_owned
matches→owned r k h = ground (
  arith,
  int_eq→eq r.font_size k.font_size,
  align_eq→eq r.text_align k.text_align,
  text_eq→eq r.text k.text,
  text_eq→eq r.font_face k.font_face,
)

matches_owned : (r : LayoutKeyRef) → layout_matches r (layout_to_owned r) ≡ true
unfolding layout_matches layout_to_owned
matches_owned r = ground (
  arith,
  int_eq_refl r.font_size,
  align_eq_refl r.text_align,
  text_eq_refl r.text,
  text_eq_refl r.font_face,
)

-- A view matches a layout key exactly when the key that it would be stored under is that key.
pub layout_matches_iff :
    (r : LayoutKeyRef) (k : TextLayoutKey) → (layout_matches r k ≡ true) ↔ (layout_to_owned r ≡ k)
layout_matches_iff r k =
    (matches→owned r k, λ e. subst (λ x. layout_matches r x ≡ true) e (matches_owned r))

-- The same of a hit-test key, whose layout part is stored from the layout of the view.
pub hit_test_matches_iff :
    (r : HitTestKeyRef) (k : HitTestKey)
    → (hit_test_matches r k ≡ true)
      ↔ (hit_test_to_owned_reusing_layout r (layout_to_owned r.layout) ≡ k)
unfolding hit_test_matches hit_test_to_owned_reusing_layout
hit_test_matches_iff r k = (
  λ h. ground (arith, matches→owned r.layout k.layout),
  λ e. subst (λ x. hit_test_matches r x ≡ true) e (ground (arith, matches_owned r.layout)),
)

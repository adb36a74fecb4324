-- ===== src/RenderCache/Tests.antt =====
-- The theorems on the rendering caches of src/d2d at concrete keys, slots and histories.
use anemone_rs.Base.{
  ◌≡◌, ◌≤◌, refl, ◌↔◌, Bool, true, false, none, List, [], ◌∷◌, length, take, Text, text_eq, pos,
  negsuc, int_eq, saturating_add_i32,
}
use anemone_rs.RenderCache.{MeasureSlot, Slots, repeated}
use anemone_rs.RenderCache.Keys.{
  TextAlign, TextRenderStyle, layout_from_style, layout_matches, layout_to_owned, HitTestKey,
  HitTestKeyRef, hit_test_matches, hit_test_to_owned_reusing_layout,
}
use anemone_rs.RenderCache.Keys.Laws as KeyLaws
use anemone_rs.RenderCache.Outline.{
  effective_from_style, outline_from_style, outline_matches, outline_to_owned_reusing_layout,
  matches_ignoring_max_height, layout_view,
}
use anemone_rs.RenderCache.Measure
use anemone_rs.RenderCache.Unused
use anemone_rs.RenderCache.Miss
use anemone_rs.RenderCache.Miss.Laws as MissLaws

program : Unit {0}
unfolding text_eq int_eq saturating_add_i32 layout_from_style layout_matches layout_to_owned
    hit_test_matches hit_test_to_owned_reusing_layout effective_from_style outline_from_style
    outline_matches outline_to_owned_reusing_layout matches_ignoring_max_height layout_view
    Measure.measure_matches Measure.new Measure.get Measure.insert Unused.record_slot
    Unused.record_used Unused.run Unused.streak Unused.new Miss.new Miss.is_overloaded
    Miss.count_ones Miss.record_miss Miss.reset MissLaws.record_all
program = tt

abbrev style : TextRenderStyle
style = record {
  font_size = pos 20;
  font_face = b'G' ∷ [];
  font_style = 0;
  text_align = TextAlign.left;
  color = 0xFFFFFFFF;
  outline1_size = pos 2;
  outline1_color = 7;
  outline2_size = negsuc 0;
  outline2_color = 9;
  shadow_enabled = true;
  shadow_color = 5;
  shadow_offset_x = pos 0;
  shadow_offset_y = pos 0;
}

abbrev text : Text
text = b'a' ∷ []

-- Neither the outline of no size nor the shadow that does not move is kept.
effective_run : (effective_from_style style).outline2_color ≡ 0
unfolding program
effective_run = refl

layout_matches_iff_example :
    (layout_matches
        (layout_from_style text style 1 2)
        (layout_to_owned (layout_from_style text style 1 2))
      ≡ true)
    ↔ (layout_to_owned (layout_from_style text style 1 2)
        ≡ layout_to_owned (layout_from_style text style 1 2))
layout_matches_iff_example =
    KeyLaws.layout_matches_iff (layout_from_style text style 1 2)
      (layout_to_owned (layout_from_style text style 1 2))

abbrev hit_view : HitTestKeyRef
hit_view = record {
  layout = layout_from_style text style 1 2;
  origin_x_bits = 3;
  origin_y_bits = 4;
  inflate_bits = 5;
}

abbrev hit_key : HitTestKey
hit_key = record {
  layout = layout_to_owned (layout_from_style text style 1 2);
  origin_x_bits = 3;
  origin_y_bits = 4;
  inflate_bits = 6;
}

abbrev key : Measure.MeasureKey
key = record {
  text = text;
  font_face = b'G' ∷ [];
  font_size = pos 20;
  font_style = 0;
  text_align = TextAlign.left;
  max_width_bits = 1;
}

abbrev filled : Measure.MeasureCache
filled = Measure.insert Measure.new MeasureSlot.name key 42

abbrev idle : Slots Bool
idle = repeated false

abbrev fifteen : List (Slots Bool)
fifteen =
    idle ∷ idle ∷ idle ∷ idle ∷ idle ∷ idle ∷ idle ∷ idle ∷ idle ∷ idle ∷ idle ∷ idle ∷ idle ∷ idle
    ∷ idle ∷ []

prune_run : (Unused.record_used (Unused.run fifteen) idle).1 ≡ repeated true
unfolding program
prune_run = refl

abbrev results : List Bool
results = true ∷ true ∷ false ∷ true ∷ true ∷ false ∷ true ∷ false ∷ true ∷ []

overloaded_run :
    Miss.is_overloaded
      (MissLaws.record_all (Miss.new none) MeasureSlot.name results)
      MeasureSlot.name
    ≡ true
unfolding program
overloaded_run = refl

is_overloaded-record_all_iff_example :
    (Miss.is_overloaded
        (MissLaws.record_all (Miss.new none) MeasureSlot.name results)
        MeasureSlot.name
      ≡ true)
    ↔ ((8 ≤ length results) × ((Miss.new none).threshold ≤ MissLaws.misses (take 8 results)))
is_overloaded-record_all_iff_example =
    MissLaws.is_overloaded-record_all_iff (Miss.new none) MeasureSlot.name results

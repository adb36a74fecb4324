-- ===== src/RenderCache/Miss.antt =====
-- `MissTracker` of src/d2d/cache/tracker.rs: when the bitmaps of a slot keep missing, the text is
-- drawn directly. The threshold that the environment gives is a field.
pub mod Laws
use anemone_rs.Base.{
  ℕ, zero, suc, ◌+◌, ◌*◌, ◌/◌, ◌%◌, Bool, true, false, ◌&&◌, Option, none, some, ltb, leb,
  if◌then◌else◌,
}
use anemone_rs.RenderCache.{MeasureSlot, Slots, at, put, repeated}
use anemone_rs.RenderCache.Outline.{OutlineBitmapKey}

abbrev pub window : ℕ
window = 8

pub record MissTracker : Type 0 where
  pub rings : Slots ℕ
  pub filled : Slots ℕ
  pub threshold : ℕ
  pub last_keys : Slots (Option OutlineBitmapKey)

-- `resolve_threshold`, of the number that the environment variable holds.
unfoldable pub resolve_threshold : Option ℕ → ℕ
resolve_threshold none = 5
resolve_threshold (some v) = if leb 1 v && leb v window then v else 5

unfoldable pub new : Option ℕ → MissTracker
unfolding resolve_threshold
new variable = record {
  rings = repeated 0;
  filled = repeated 0;
  threshold = resolve_threshold variable;
  last_keys = repeated none;
}

pub last_key : MissTracker → MeasureSlot → Option OutlineBitmapKey
last_key t slot = at t.last_keys slot

pub set_last_key : MissTracker → MeasureSlot → Option OutlineBitmapKey → MissTracker
set_last_key t slot key = record t { last_keys = put t.last_keys slot key }

unfoldable pub reset : MissTracker → MeasureSlot → MissTracker
reset t slot = record t {
  rings = put t.rings slot 0;
  filled = put t.filled slot 0;
  last_keys = put t.last_keys slot none;
}

-- `((ring << 1) & RING_MASK) | miss`: the shift leaves the lowest bit clear.
unfoldable pub push_bit : ℕ → Bool → ℕ
push_bit ring miss = (ring * 2 % 65536) % 256 + (if miss then 1 else 0)

unfoldable pub count_up : ℕ → ℕ
count_up filled = if ltb filled window then filled + 1 else filled

unfoldable pub record_miss : MissTracker → MeasureSlot → Bool → MissTracker
unfolding push_bit count_up
record_miss t slot miss = record t {
  rings = put t.rings slot (push_bit (at t.rings slot) miss);
  filled = put t.filled slot (count_up (at t.filled slot));
}

-- `u16::count_ones`, over the bits that are left.
unfoldable pub count_ones : ℕ → ℕ → ℕ
count_ones zero n = 0
count_ones (suc bits) n = n % 2 + count_ones bits (n / 2)

unfoldable pub is_overloaded : MissTracker → MeasureSlot → Bool
is_overloaded t slot =
    leb window (at t.filled slot) && leb t.threshold (count_ones 16 (at t.rings slot))

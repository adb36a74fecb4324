-- ===== src/RenderCache/Unused.antt =====
-- `UnusedSlotTracker` of src/d2d/cache/tracker.rs: a slot that sixteen paints in a row left unused
-- is reported for pruning.
use anemone_rs.Base.{
  ℕ, ◌+◌, ◌%◌, ◌≡◌, ◌↔◌, refl, ap, ◌∙◌, Bool, true, false, List, [], ◌∷◌, leb, if◌then◌else◌, min,
  arith,
}
use anemone_rs.RenderCache.{MeasureSlot, all_slots, Slots, at, put, repeated}

abbrev pub grace : ℕ
grace = 16

pub record UnusedSlotTracker : Type 0 where
  pub paints : Slots ℕ

unfoldable pub new : UnusedSlotTracker
new = record { paints = repeated 0 }

-- The loop's body for one slot: the new counter, and whether the slot is to be pruned. The counter
-- is a `u8`, and its increment saturates.
unfoldable pub record_slot : Bool → ℕ → ℕ × Bool
record_slot true paints = (0, false)
record_slot false paints =
    let more = min (paints + 1) 255 in if leb grace more then (0, true) else (more, false)

-- The loop over `MeasureSlot::ALL.into_iter().zip(used)`, where a slot's place is its index.
unfoldable pub record_loop :
    Slots Bool → List MeasureSlot → Slots ℕ → Slots Bool → Slots ℕ × Slots Bool
record_loop used [] paints to_prune = (paints, to_prune)
record_loop used (slot ∷ slots) paints to_prune =
    let (more, prune) = record_slot (at used slot) (at paints slot) in
    record_loop used slots (put paints slot more) (put to_prune slot prune)

unfoldable pub record_used : UnusedSlotTracker → Slots Bool → UnusedSlotTracker × Slots Bool
unfolding record_loop
record_used t used =
    let (paints, to_prune) = record_loop used all_slots t.paints (repeated false) in
    (record { paints = paints }, to_prune)

-- The tracker after some paints, the last one first.
unfoldable pub run : List (Slots Bool) → UnusedSlotTracker
unfolding new
run [] = new
run (used ∷ earlier) = (record_used (run earlier) used).0

-- How many paints in a row, up to the last one, left a slot unused.
unfoldable pub streak : MeasureSlot → List (Slots Bool) → ℕ
streak slot [] = 0
streak slot (used ∷ earlier) = if at used slot then 0 else streak slot earlier + 1

-- Each slot is treated by itself.
record_used-at :
    (t : UnusedSlotTracker) (used : Slots Bool) (slot : MeasureSlot)
    → (at (record_used t used).0.paints slot ≡ (record_slot (at used slot) (at t.paints slot)).0)
      × (at (record_used t used).1 slot ≡ (record_slot (at used slot) (at t.paints slot)).1)
unfolding record_used
record_used-at t used MeasureSlot.name = (refl, refl)
record_used-at t used _ = (refl, refl)

record_slot-streak :
    (used : Bool) (n : ℕ)
    → ((record_slot used (n % 16)).0 ≡ (if used then 0 else n + 1) % 16)
      × (((record_slot used (n % 16)).1 ≡ true)
          ↔ ((used ≡ false) × ((if used then 0 else n + 1) % 16 ≡ 0)))
unfolding record_slot
record_slot-streak true n = (refl, ((λ h. cc), (λ h. cc)))
record_slot-streak false n = ground arith

-- The counter of a slot is its streak of unused paints, counted anew after every sixteen.
pub paints-run :
    (slot : MeasureSlot) (paints : List (Slots Bool))
    → at (run paints).paints slot ≡ streak slot paints % 16
unfolding run streak new
paints-run slot [] = ground arith
paints-run slot (used ∷ earlier) =
    (record_used-at (run earlier) used slot).0
    ∙ ap (λ n. (record_slot (at used slot) n).0) (paints-run slot earlier)
    ∙ (record_slot-streak (at used slot) (streak slot earlier)).0

-- A paint reports a slot for pruning exactly when it leaves the slot unused and completes a
-- multiple of sixteen unused paints in a row.
pub record_used-prunes_iff :
    (slot : MeasureSlot) (used : Slots Bool) (earlier : List (Slots Bool))
    → (at (record_used (run earlier) used).1 slot ≡ true)
      ↔ ((at used slot ≡ false) × (streak slot (used ∷ earlier) % 16 ≡ 0))
unfolding streak
record_used-prunes_iff slot used earlier =
    rw ((record_used-at (run earlier) used slot).1, paints-run slot earlier)
      ((record_slot-streak (at used slot) (streak slot earlier)).1)

-- ===== src/RenderCache.antt =====
-- src/d2d: the keys and slots of the text rendering caches. An `f32` is its bit pattern.
pub mod Keys
pub mod Outline
pub mod Measure
pub mod Unused
pub mod Miss
mod Tests
use anemone_rs.Base.{ℕ, arith, if◌then◌else◌, ◌≡◌, refl, Bool, true, false, List, [], ◌∷◌}

-- src/d2d/mod.rs
pub data MeasureSlot : Type 0 where
  name original translation notice : MeasureSlot

abbrev pub slot_eq : MeasureSlot → MeasureSlot → Bool
slot_eq MeasureSlot.name MeasureSlot.name = true
slot_eq MeasureSlot.original MeasureSlot.original = true
slot_eq MeasureSlot.translation MeasureSlot.translation = true
slot_eq MeasureSlot.notice MeasureSlot.notice = true
slot_eq _ _ = false

-- `MeasureSlot::ALL`
abbrev pub all_slots : List MeasureSlot
all_slots =
    MeasureSlot.name ∷ MeasureSlot.original ∷ MeasureSlot.translation ∷ MeasureSlot.notice ∷ []

-- An array `[A; MeasureSlot::COUNT]` that is indexed by `slot as usize`.
pub record Slots {ℓ} (A : Type ℓ) : Type ℓ where
  pub at_name : A
  pub at_original : A
  pub at_translation : A
  pub at_notice : A

module _ {ℓ} {A : Type ℓ} where
  abbrev pub at : Slots A → MeasureSlot → A
  at s MeasureSlot.name = s.at_name
  at s MeasureSlot.original = s.at_original
  at s MeasureSlot.translation = s.at_translation
  at s MeasureSlot.notice = s.at_notice

  abbrev pub put : Slots A → MeasureSlot → A → Slots A
  put s MeasureSlot.name a = record s { at_name = a }
  put s MeasureSlot.original a = record s { at_original = a }
  put s MeasureSlot.translation a = record s { at_translation = a }
  put s MeasureSlot.notice a = record s { at_notice = a }

  abbrev pub repeated : A → Slots A
  repeated a = record { at_name = a; at_original = a; at_translation = a; at_notice = a }

  pub at-put :
      (s : Slots A) (i j : MeasureSlot) (a : A)
      → at (put s i a) j ≡ (if slot_eq i j then a else at s j)
  at-put s MeasureSlot.name j a = ground arith
  at-put s MeasureSlot.original j a = ground arith
  at-put s MeasureSlot.translation j a = ground arith
  at-put s MeasureSlot.notice j a = ground arith

pub slot_eq→eq : (i j : MeasureSlot) → slot_eq i j ≡ true → i ≡ j
slot_eq→eq i j h = ground arith

pub slot_eq_refl : (i : MeasureSlot) → slot_eq i i ≡ true
slot_eq_refl i = ground arith

-- ===== src/Base/Float.antt =====
-- Rust's `f32` as its bits: the sign, and the exponent and the fraction as one number. Only the
-- comparisons and the clamp of the settings are defined.
use Prim.Native.Nat.{ℕ, ◌+◌}
use mathlib.Core.Path.{◌≡◌}
use mathlib.Core.Bool.{Bool, false, not, ◌||◌, ◌&&◌}
use mathlib.Core.Logic.{inl, inr}
use native.Mathlib.Omega.{arith}
use anemone_rs.Base.Tests.{ltb, if◌then◌else◌, Bool-cases}

pub record F32 : Type 0 where
  pub negative : Bool
  pub magnitude : ℕ

-- The magnitude of an infinity.
abbrev pub infinite : ℕ
infinite = 0x7F800000

unfoldable pub is_nan : F32 → Bool
is_nan a = ltb infinite a.magnitude

unfoldable pub is_finite : F32 → Bool
is_finite a = ltb a.magnitude infinite

-- `<`, on which a comparison with a NaN fails, and for which the two zeros are equal.
unfoldable pub f32_lt : F32 → F32 → Bool
unfolding is_nan
f32_lt a b =
    if is_nan a || is_nan b
    then false
    else (if a.negative
        then (if b.negative then ltb b.magnitude a.magnitude else ltb 0 (a.magnitude + b.magnitude))
        else not b.negative && ltb a.magnitude b.magnitude)

-- `f32::clamp`
unfoldable pub clamp_f32 : F32 → F32 → F32 → F32
clamp_f32 low high value =
    let raised = if f32_lt value low then low else value in
    if f32_lt high raised then high else raised

-- A value lies from `low` to `high`.
abbrev pub F32Within : F32 → F32 → F32 → Type 0
F32Within low high value = (f32_lt value low ≡ false) × (f32_lt high value ≡ false)

pub f32_lt_irrefl : (a : F32) → f32_lt a a ≡ false
unfolding f32_lt is_nan
f32_lt_irrefl a = ground arith

pub clamp_f32-F32Within :
    (low high value : F32) → f32_lt high low ≡ false → F32Within low high (clamp_f32 low high value)
unfolding clamp_f32
clamp_f32-F32Within low high value h = elim (Bool-cases (f32_lt value low)) [
  | inl below ↦ rw (below, h) (f32_lt_irrefl low, h)
  | inr above ↦ elim (Bool-cases (f32_lt high value)) [
    | inl over ↦ rw (above, over) (h, f32_lt_irrefl high)
    | inr under ↦ rw (above, under) (above, under)
  ]
]

pub clamp_f32_within :
    (low high value : F32) → F32Within low high value → clamp_f32 low high value ≡ value
unfolding clamp_f32
clamp_f32_within low high value w = rw (w.0, w.1)

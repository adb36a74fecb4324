-- ===== src/Base/Int.antt =====
-- Signed machine integers, as integers over the native numbers.
use Prim.Native.Nat.{ℕ, zero, suc, ◌+◌, ◌-◌, min}
use mathlib.Core.Path.{◌≡◌, refl, ap}
use mathlib.Core.Bool.{Bool, true, false}
use mathlib.Core.Logic.{inl, inr}
use native.Mathlib.Omega.{arith}
use anemone_rs.Base.Tests.{◌==◌, ==_iff, ==_refl, ltb, if◌then◌else◌, Bool-cases}

-- `negsuc n` is -(n + 1).
pub data ℤ : Type 0 where
  pos : ℕ → ℤ
  negsuc : ℕ → ℤ

unfoldable pub int_eq : ℤ → ℤ → Bool
int_eq (pos a) (pos b) = a == b
int_eq (negsuc a) (negsuc b) = a == b
int_eq _ _ = false

pub int_eq→eq : (a b : ℤ) → int_eq a b ≡ true → a ≡ b
unfolding int_eq
int_eq→eq (pos a) (pos b) h = ap pos ((==_iff a b).0 h)
int_eq→eq (pos a) (negsuc b) h = cc
int_eq→eq (negsuc a) (pos b) h = cc
int_eq→eq (negsuc a) (negsuc b) h = ap negsuc ((==_iff a b).0 h)

pub int_eq_refl : (a : ℤ) → int_eq a a ≡ true
unfolding int_eq
int_eq_refl (pos a) = ==_refl a
int_eq_refl (negsuc a) = ==_refl a

-- `a.max(0)`
abbrev pub max_zero : ℤ → ℤ
max_zero (pos a) = pos a
max_zero (negsuc a) = pos 0

abbrev pub is_positive : ℤ → Bool
is_positive (pos a) = elim a [ zero ↦ false | suc n ↦ true ]
is_positive (negsuc a) = false

-- `saturating_add` on `i32`.
unfoldable pub saturating_add_i32 : ℤ → ℤ → ℤ
saturating_add_i32 (pos a) (pos b) = pos (min (a + b) 2147483647)
saturating_add_i32 (pos a) (negsuc b) = if ltb b a then pos (a - b - 1) else negsuc (b - a)
saturating_add_i32 (negsuc a) (pos b) = if ltb a b then pos (b - a - 1) else negsuc (a - b)
saturating_add_i32 (negsuc a) (negsuc b) = negsuc (min (a + b + 1) 2147483647)

-- `<` on machine integers.
unfoldable pub int_lt : ℤ → ℤ → Bool
int_lt (pos a) (pos b) = ltb a b
int_lt (pos a) (negsuc b) = false
int_lt (negsuc a) (pos b) = true
int_lt (negsuc a) (negsuc b) = ltb b a

pub int_lt_irrefl : (a : ℤ) → int_lt a a ≡ false
unfolding int_lt
int_lt_irrefl (pos a) = ground arith
int_lt_irrefl (negsuc a) = ground arith

pub int_lt_asym : (a b : ℤ) → int_lt a b ≡ true → int_lt b a ≡ false
unfolding int_lt
int_lt_asym (pos a) (pos b) h = ground arith
int_lt_asym (pos a) (negsuc b) h = cc
int_lt_asym (negsuc a) (pos b) h = refl
int_lt_asym (negsuc a) (negsuc b) h = ground arith

-- `Ord::clamp`
unfoldable pub clamp : ℤ → ℤ → ℤ → ℤ
clamp low high value = if int_lt value low then low else if int_lt high value then high else value

-- A value lies from `low` to `high`.
abbrev pub IntWithin : ℤ → ℤ → ℤ → Type 0
IntWithin low high value = (int_lt value low ≡ false) × (int_lt high value ≡ false)

pub clamp-IntWithin :
    (low high value : ℤ) → int_lt high low ≡ false → IntWithin low high (clamp low high value)
unfolding clamp
clamp-IntWithin low high value h = elim (Bool-cases (int_lt value low)) [
  | inl below ↦ rw (below) (int_lt_irrefl low, h)
  | inr above ↦ elim (Bool-cases (int_lt high value)) [
    | inl over ↦ rw (above, over) (h, int_lt_irrefl high)
    | inr under ↦ rw (above, under) (above, under)
  ]
]

pub clamp_within : (low high value : ℤ) → IntWithin low high value → clamp low high value ≡ value
unfolding clamp
clamp_within low high value w = rw (w.0, w.1)

pub clamp_idem :
    (low high value : ℤ)
    → int_lt high low ≡ false
    → clamp low high (clamp low high value) ≡ clamp low high value
clamp_idem low high value h =
    clamp_within low high (clamp low high value) (clamp-IntWithin low high value h)

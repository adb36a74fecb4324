-- ===== src/Update/Version/Decimal.antt =====
-- The decimal digits of src/update/version.rs: what is written for a `u32` reads back.
use anemone_rs.Base.{
  ℕ, zero, suc, ◌+◌, ◌/◌, ◌%◌, ◌^◌, ◌≤◌, ◌<◌, ◌≡◌, ap, ◌∙◌, Bool-cases, inl, inr, ltb, ltb→lt,
  lt→ltb, Option-cases, some, [], ◌∷◌, ◌++◌, arith, Text, ◌>>=◌,
}
use native.Mathlib.Nat.{pow-suc}
use anemone_rs.Update.Version.{u32_max, show_digits, digit_step, parse_digits}

abbrev pub IsDigit : ℕ → Type 0
IsDigit c = (48 ≤ c) × (c ≤ 57)

pub data AllDigits : Text → Type 0 where
  none_left : AllDigits []
  digit : {c : ℕ} {s : Text} → IsDigit c → AllDigits s → AllDigits (c ∷ s)

AllDigits-snoc : (s : Text) (c : ℕ) → AllDigits s → IsDigit c → AllDigits (s ++ c ∷ [])
AllDigits-snoc [] c a d = digit d none_left
AllDigits-snoc (x ∷ s) c (digit e a) d = digit e (AllDigits-snoc s c a d)

pub show_digits-AllDigits : (fuel n : ℕ) → AllDigits (show_digits fuel n)
unfolding show_digits
show_digits-AllDigits zero n = none_left
show_digits-AllDigits (suc fuel) n = elim (Bool-cases (ltb n 10)) [
  | inl e ↦ rw e (digit (omega (arith, ltb→lt n 10 e)) none_left)
  | inr e ↦ rw e (
      AllDigits-snoc (show_digits fuel (n / 10)) (48 + n % 10) (show_digits-AllDigits fuel (n / 10))
        (omega arith))
]

parse_digits-snoc :
    (s : Text) (c value : ℕ)
    → parse_digits value (s ++ c ∷ []) ≡ (parse_digits value s >>= λ n. digit_step n c)
unfolding parse_digits
parse_digits-snoc [] c value = elim (Option-cases (digit_step value c)) [
  | inl e ↦ rw e
  | inr e ↦ rw e.1
]
parse_digits-snoc (x ∷ s) c value = elim (Option-cases (digit_step value x)) [
  | inl e ↦ rw e
  | inr e ↦ rw e.1 (parse_digits-snoc s c e.0)
]

digit_step-show : (n : ℕ) → n ≤ u32_max → digit_step (n / 10) (48 + n % 10) ≡ some n
unfolding digit_step
digit_step-show n k = ground arith

parse_digits-single : (n : ℕ) → n < 10 → parse_digits 0 ((48 + n) ∷ []) ≡ some n
unfolding parse_digits digit_step
parse_digits-single n h = ground arith

-- Fuel for as many digits as the number has gives all of them.
pub parse_digits-show_digits :
    (fuel n : ℕ)
    → n < 10 ^ suc fuel
    → n ≤ u32_max
    → parse_digits 0 (show_digits (suc fuel) n) ≡ some n
unfolding show_digits
parse_digits-show_digits zero n h k =
    rw (lt→ltb n 10 (omega (arith, h))) (parse_digits-single n (omega (arith, h)))
parse_digits-show_digits (suc fuel) n h k = elim (Bool-cases (ltb n 10)) [
  | inl e ↦ rw e (parse_digits-single n (ltb→lt n 10 e))
  | inr e ↦
      let shorter : n / 10 < 10 ^ suc fuel = omega (arith, h, pow-suc 10 (suc fuel)) in
      let rest = parse_digits-show_digits fuel (n / 10) shorter (omega arith) in
      rw e (
        parse_digits-snoc (show_digits (suc fuel) (n / 10)) (48 + n % 10) 0
        ∙ ap (λ o. o >>= λ m. digit_step m (48 + n % 10)) rest
        ∙ digit_step-show n k)
]

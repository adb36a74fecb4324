-- ===== src/Update/Version/Split.antt =====
-- How the scans of src/update/version.rs pass over numbers and points.
use anemone_rs.Base.{
  ℕ, suc, ◌+◌, ◌≤◌, ◌<◌, ◌≡◌, refl, Bool-cases, inl, inr, ◌/◌, ◌%◌, ltb, none, some, [], ◌∷◌, ◌++◌,
  arith, Text, is_whitespace, false, length, length-append,
}
use anemone_rs.Update.Version.{
  show_digits, trim_start, trim_end, strip_v, before, split_once, cons_first, cons_head, split,
}
use anemone_rs.Update.Version.Decimal.{AllDigits}

-- Digits and points.
pub data AllDotted : Text → Type 0 where
  none_left : AllDotted []
  dotted : {c : ℕ} {s : Text} → 46 ≤ c → c ≤ 57 → AllDotted s → AllDotted (c ∷ s)

AllDotted-append : {s : Text} (t : Text) → AllDotted s → AllDotted t → AllDotted (s ++ t)
AllDotted-append t AllDotted.none_left b = b
AllDotted-append t (AllDotted.dotted g h a) b = AllDotted.dotted g h (AllDotted-append t a b)

pub AllDigits-AllDotted : {s : Text} → AllDigits s → AllDotted s
AllDigits-AllDotted AllDigits.none_left = AllDotted.none_left
AllDigits-AllDotted (AllDigits.digit d a) =
    AllDotted.dotted (omega (arith, d.0)) d.1 (AllDigits-AllDotted a)

pub AllDotted-three :
    {s t u : Text} → AllDigits s → AllDigits t → AllDigits u → AllDotted (s ++ 46 ∷ (t ++ 46 ∷ u))
AllDotted-three {s} {t} {u} a b c = AllDotted-append _ (AllDigits-AllDotted a) (
    AllDotted.dotted (omega arith) (omega arith) (
      AllDotted-append _ (AllDigits-AllDotted b)
        (AllDotted.dotted (omega arith) (omega arith) (AllDigits-AllDotted c))))

dotted-is_whitespace : (c : ℕ) → 46 ≤ c → c ≤ 57 → is_whitespace c ≡ false
unfolding is_whitespace
dotted-is_whitespace c g h = ground arith

pub trim_start-dotted : {s : Text} (t : Text) → AllDotted s → trim_start (s ++ 46 ∷ t) ≡ s ++ 46 ∷ t
unfolding trim_start
trim_start-dotted t AllDotted.none_left = rw (dotted-is_whitespace 46 (omega arith) (omega arith))
trim_start-dotted t (AllDotted.dotted {c} g h a) = rw (dotted-is_whitespace c g h)

pub trim_end-cons :
    (c : ℕ) (s : Text) → is_whitespace c ≡ false → trim_end s ≡ s → trim_end (c ∷ s) ≡ c ∷ s
unfolding trim_end
trim_end-cons c [] h e = rw h
trim_end-cons c (d ∷ s) h e = rw e

pub trim_end-dotted :
    {s : Text} (t : Text) → AllDotted s → trim_end t ≡ t → trim_end (s ++ t) ≡ s ++ t
trim_end-dotted t AllDotted.none_left e = e
trim_end-dotted t (AllDotted.dotted {c} g h a) e =
    trim_end-cons c _ (dotted-is_whitespace c g h) (trim_end-dotted t a e)

pub strip_v-dotted : {s : Text} (t : Text) → AllDotted s → strip_v (s ++ 46 ∷ t) ≡ s ++ 46 ∷ t
unfolding strip_v
strip_v-dotted t AllDotted.none_left = refl
strip_v-dotted t (AllDotted.dotted g h a) = ground arith

pub before-dotted : {s : Text} (t : Text) → AllDotted s → before 43 (s ++ t) ≡ s ++ before 43 t
unfolding before
before-dotted t AllDotted.none_left = refl
before-dotted t (AllDotted.dotted g h a) = ground (arith, before-dotted t a)

pub split_once-dotted : {s : Text} → AllDotted s → split_once 45 s ≡ none
unfolding split_once cons_first
split_once-dotted AllDotted.none_left = refl
split_once-dotted (AllDotted.dotted g h a) = ground (arith, split_once-dotted a)

pub split_once-minus :
    {s : Text} (t : Text) → AllDotted s → split_once 45 (s ++ 45 ∷ t) ≡ some (s, t)
unfolding split_once cons_first
split_once-minus t AllDotted.none_left = refl
split_once-minus t (AllDotted.dotted g h a) = ground (arith, split_once-minus t a)

pub split-digits : {s : Text} → AllDigits s → split 46 s ≡ s ∷ []
unfolding split cons_head
split-digits AllDigits.none_left = refl
split-digits (AllDigits.digit d a) = ground (arith, split-digits a)

pub split-point : {s : Text} (t : Text) → AllDigits s → split 46 (s ++ 46 ∷ t) ≡ s ∷ split 46 t
unfolding split cons_head
split-point t AllDigits.none_left = refl
split-point t (AllDigits.digit d a) = ground (arith, split-point t a)

pub show_digits_positive : (fuel n : ℕ) → 0 < length (show_digits (suc fuel) n)
unfolding show_digits
show_digits_positive fuel n = elim (Bool-cases (ltb n 10)) [
  | inl e ↦ rw e (omega arith)
  | inr e ↦ rw e (omega (arith, length-append (show_digits fuel (n / 10)) ((48 + n % 10) ∷ [])))
]

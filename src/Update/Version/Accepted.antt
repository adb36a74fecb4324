-- ===== src/Update/Version/Accepted.antt =====
-- What the parser of src/update/version.rs accepts.
use anemone_rs.Base.{
  ℕ, ◌≤◌, ◌≡◌, inl, inr, Option, some, Option-cases, List, [], ◌∷◌, arith, Text, bind_some, subst,
}
use mathlib.Core.Option.{some-injective}
use anemone_rs.Update.Version.{
  Version, u32_max, digit_step, parse_digits, parse_u32, next_part, no_more, split, parse_core,
  split_pre, from_str_core, from_str, before, strip_v, trim,
}
use anemone_rs.Update.Version.Order.{IsBounded}

digit_step-le : (value c n : ℕ) → digit_step value c ≡ some n → n ≤ u32_max
unfolding digit_step
digit_step-le value c n h = ground arith

parse_digits-le :
    (value n : ℕ) (s : Text) → value ≤ u32_max → parse_digits value s ≡ some n → n ≤ u32_max
unfolding parse_digits
parse_digits-le value n [] b h = ground arith
parse_digits-le value n (c ∷ s) b h =
    let (next, e, h') = bind_some (digit_step value c) (λ m. parse_digits m s) h in
    parse_digits-le next n s (digit_step-le value c next e) h'

parse_u32-le : (s : Text) (n : ℕ) → parse_u32 s ≡ some n → n ≤ u32_max
unfolding parse_u32
parse_u32-le [] n h = ground arith
parse_u32-le (c ∷ []) n h = parse_digits-le 0 n (c ∷ []) (omega arith) h
parse_u32-le (c ∷ d ∷ s) n h = ground (
  arith,
  parse_digits-le 0 n (d ∷ s) (omega arith),
  parse_digits-le 0 n (c ∷ d ∷ s) (omega arith),
)

next_part-le : (ps qs : List Text) (n : ℕ) → next_part ps ≡ some (n, qs) → n ≤ u32_max
unfolding next_part
next_part-le [] qs n h = ground arith
next_part-le ([] ∷ ps) qs n h = ground arith
next_part-le ((c ∷ s) ∷ ps) qs n h =
    let (m, e, h') = bind_some (parse_u32 (c ∷ s)) (λ m. some (m, ps)) h in
    ground (arith, parse_u32-le (c ∷ s) m e)

parse_core-IsBounded :
    (core : Text) (pre : Option Text) (v : Version) → parse_core core pre ≡ some v → IsBounded v
unfolding parse_core
parse_core-IsBounded core pre v h =
    let (major, e, h1) = bind_some (next_part (split 46 core)) _ h in
    let (minor, f, h2) = bind_some (next_part major.1) _ h1 in
    let (patch, g, h3) = bind_some (next_part minor.1) _ h2 in
    let (last, _, h4) = bind_some (no_more patch.1) _ h3 in
    subst IsBounded (some-injective _ _ h4) (record {
      major = next_part-le _ _ _ e;
      minor = next_part-le _ _ _ f;
      patch = next_part-le _ _ _ g;
    })

-- Every version that is accepted has 32-bit numbers.
pub from_str-IsBounded : (value : Text) (v : Version) → from_str value ≡ inr v → IsBounded v
unfolding from_str from_str_core
from_str-IsBounded value v h = elim (Option-cases (from_str_core value)) [
  | inl e ↦ ground (arith, e)
  | inr e ↦
      let ((core, pre), _, h') = bind_some (split_pre (before 43 (strip_v (trim value)))) _ e.1 in
      subst IsBounded (ground (arith, e.1, h)) (parse_core-IsBounded core pre e.0 h')
]

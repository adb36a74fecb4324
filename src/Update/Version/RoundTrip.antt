-- ===== src/Update/Version/RoundTrip.antt =====
-- What src/update/version.rs writes for a version, and what tags hold, reads back.
use anemone_rs.Base.{
  ℕ, ◌≤◌, ◌<◌, ◌≡◌, refl, ap, sym, ◌∙◌, inr, Option, none, some, List, [], ◌∷◌, ◌++◌, arith,
  append_assoc, append-nil, Text, is_whitespace, length,
}
use anemone_rs.Update.Version.{
  Version, show_digits, show_pre, fmt, trim_start, trim_end, trim, strip_v, before, parse_digits,
  parse_u32, next_part, parse_core, split_pre, from_str_core, from_str,
}
use anemone_rs.Update.Version.Order.{IsBounded}
use anemone_rs.Update.Version.Decimal.{AllDigits, show_digits-AllDigits, parse_digits-show_digits}
use anemone_rs.Update.Version.Split.{
  AllDotted, AllDotted-three, trim_end-cons, AllDigits-AllDotted, trim_start-dotted,
  trim_end-dotted, strip_v-dotted, before-dotted, split_once-dotted, split_once-minus, split-digits,
  split-point, show_digits_positive,
}

-- An identifier of a prerelease that a text can carry: not empty, without `+`, not ending in space.
pub data IsIdentifier : Option Text → Type 0 where
  release : IsIdentifier none
  identifier :
      {c : ℕ} {p : Text}
      → before 43 (c ∷ p) ≡ c ∷ p
      → trim_end (c ∷ p) ≡ c ∷ p
      → IsIdentifier (some (c ∷ p))

parse_u32-digits : {s : Text} → AllDigits s → 0 < length s → parse_u32 s ≡ parse_digits 0 s
unfolding parse_u32
parse_u32-digits AllDigits.none_left h = ground arith
parse_u32-digits (AllDigits.digit d AllDigits.none_left) h = refl
parse_u32-digits (AllDigits.digit d (AllDigits.digit e a)) h = ground arith

next_part-digits :
    {s : Text} {n : ℕ} (ps : List Text)
    → AllDigits s
    → 0 < length s
    → parse_digits 0 s ≡ some n
    → next_part (s ∷ ps) ≡ some (n, ps)
unfolding next_part
next_part-digits ps AllDigits.none_left h e = ground arith
next_part-digits ps (AllDigits.digit d a) h e = rw (parse_u32-digits (AllDigits.digit d a) h, e)

next_part-show_digits :
    (n : ℕ) (ps : List Text) → n ≤ 4294967295 → next_part (show_digits 10 n ∷ ps) ≡ some (n, ps)
next_part-show_digits n ps h =
    next_part-digits ps (show_digits-AllDigits 10 n) (show_digits_positive 9 n)
      (parse_digits-show_digits 9 n (omega (arith, h)) h)

-- The three numbers with their points.
show_core : Version → Text
show_core v =
    show_digits 10 v.major ++ (46 ∷ (show_digits 10 v.minor ++ 46 ∷ show_digits 10 v.patch))

fmt-show_core : (v : Version) → fmt v ≡ show_core v ++ show_pre v.pre
unfolding fmt show_core
fmt-show_core v =
    ap (λ t. show_digits 10 v.major ++ 46 ∷ t)
      (sym (append_assoc (show_digits 10 v.minor) (46 ∷ show_digits 10 v.patch) (show_pre v.pre)))
    ∙ sym (append_assoc (show_digits 10 v.major) _ (show_pre v.pre))

parse_core-show_core : (v : Version) → IsBounded v → parse_core (show_core v) v.pre ≡ some v
unfolding parse_core show_core
parse_core-show_core v b =
    let major = show_digits-AllDigits 10 v.major in
    let minor = show_digits-AllDigits 10 v.minor in
    let patch = show_digits-AllDigits 10 v.patch in
    rw
      (
        split-point (show_digits 10 v.minor ++ 46 ∷ show_digits 10 v.patch) major,
        split-point (show_digits 10 v.patch) minor,
        split-digits patch,
        next_part-show_digits v.major (show_digits 10 v.minor ∷ show_digits 10 v.patch ∷ [])
            b.major,
        next_part-show_digits v.minor (show_digits 10 v.patch ∷ []) b.minor,
        next_part-show_digits v.patch [] b.patch,
      )
      refl

show_core-AllDotted : (v : Version) → AllDotted (show_core v)
unfolding show_core
show_core-AllDotted v =
    AllDotted-three (show_digits-AllDigits 10 v.major) (show_digits-AllDigits 10 v.minor)
      (show_digits-AllDigits 10 v.patch)

split_pre-core :
    {pre : Option Text} {s : Text}
    → AllDotted s
    → IsIdentifier pre
    → split_pre (s ++ show_pre pre) ≡ some (s, pre)
unfolding split_pre show_pre
split_pre-core {s = s} a IsIdentifier.release =
    ap split_pre (append-nil s) ∙ rw (split_pre, split_once-dotted a) refl
split_pre-core a (IsIdentifier.identifier f g) = rw (split_pre, split_once-minus _ a) refl

-- What `from_str` leaves of a text that it has trimmed, freed of its `v` and of its build.
from_str-core :
    (value : Text) (v : Version)
    → IsBounded v
    → IsIdentifier v.pre
    → before 43 (strip_v (trim value)) ≡ show_core v ++ show_pre v.pre
    → from_str value ≡ inr v
unfolding from_str from_str_core
from_str-core value v b i e =
    rw
      (
        from_str,
        from_str_core,
        e,
        split_pre-core (show_core-AllDotted v) i,
        parse_core-show_core v b,
      )
      refl

before-build : (s t : Text) → before 43 s ≡ s → before 43 (s ++ 43 ∷ t) ≡ s
unfolding before
before-build [] t h = refl
before-build (c ∷ s) t h = ground (arith, before-build s t)

before-show_pre : {pre : Option Text} → IsIdentifier pre → before 43 (show_pre pre) ≡ show_pre pre
unfolding before show_pre
before-show_pre IsIdentifier.release = refl
before-show_pre (IsIdentifier.identifier f g) = ap (◌∷◌ 45) f

trim_end-show_pre : {pre : Option Text} → IsIdentifier pre → trim_end (show_pre pre) ≡ show_pre pre
unfolding show_pre trim_end
trim_end-show_pre IsIdentifier.release = refl
trim_end-show_pre (IsIdentifier.identifier {c} {p} f g) = rw (trim_end (c ∷ p), g) refl

trim_end-append :
    (s t : Text) (d : ℕ) → trim_end (d ∷ t) ≡ d ∷ t → trim_end (s ++ d ∷ t) ≡ s ++ d ∷ t
unfolding trim_end
trim_end-append [] t d h = h
trim_end-append (c ∷ []) t d h = rw (trim_end (c ∷ d ∷ t), h) refl
trim_end-append (c ∷ e ∷ s) t d h =
    rw (trim_end (c ∷ e ∷ (s ++ d ∷ t)), trim_end-append (e ∷ s) t d h) refl

trim_start-core : (v : Version) (t : Text) → trim_start (show_core v ++ t) ≡ show_core v ++ t
unfolding show_core
trim_start-core v t =
    ap trim_start (append_assoc (show_digits 10 v.major) _ t)
    ∙ trim_start-dotted _ (AllDigits-AllDotted (show_digits-AllDigits 10 v.major))
    ∙ sym (append_assoc (show_digits 10 v.major) _ t)

strip_v-core : (v : Version) (t : Text) → strip_v (show_core v ++ t) ≡ show_core v ++ t
unfolding show_core
strip_v-core v t =
    ap strip_v (append_assoc (show_digits 10 v.major) _ t)
    ∙ strip_v-dotted _ (AllDigits-AllDotted (show_digits-AllDigits 10 v.major))
    ∙ sym (append_assoc (show_digits 10 v.major) _ t)

before-core :
    (v : Version)
    → IsIdentifier v.pre
    → before 43 (show_core v ++ show_pre v.pre) ≡ show_core v ++ show_pre v.pre
before-core v i =
    before-dotted (show_pre v.pre) (show_core-AllDotted v)
    ∙ ap (λ t. show_core v ++ t) (before-show_pre i)

trim_tag :
    (s build : Text)
    → trim_end build ≡ build
    → strip_v (trim (118 ∷ (s ++ 43 ∷ build))) ≡ s ++ 43 ∷ build
unfolding trim trim_start is_whitespace strip_v
trim_tag s build h = ap strip_v (trim_end-append (118 ∷ s) build 43 (trim_end-cons 43 build refl h))

trim-core :
    (v : Version)
    → IsIdentifier v.pre
    → trim (show_core v ++ show_pre v.pre) ≡ show_core v ++ show_pre v.pre
unfolding trim
trim-core v i =
    ap trim_end (trim_start-core v (show_pre v.pre))
    ∙ trim_end-dotted (show_pre v.pre) (show_core-AllDotted v) (trim_end-show_pre i)

-- A version with 32-bit numbers is read back from its text, when its identifier, if it has one, is
-- not empty, holds no `+` and does not end in space.
pub from_str-fmt : (v : Version) → IsBounded v → IsIdentifier v.pre → from_str (fmt v) ≡ inr v
from_str-fmt v b i = from_str-core (fmt v) v b i (
    ap (λ t. before 43 (strip_v (trim t))) (fmt-show_core v)
    ∙ ap (λ t. before 43 (strip_v t)) (trim-core v i)
    ∙ ap (before 43) (strip_v-core v (show_pre v.pre))
    ∙ before-core v i)

-- A tag reads back as its version: a `v`, the text of a version as for `from_str-fmt`, and build
-- metadata that does not end in space.
pub from_str-tag :
    (v : Version) (build : Text)
    → IsBounded v
    → IsIdentifier v.pre
    → trim_end build ≡ build
    → from_str (118 ∷ (fmt v ++ 43 ∷ build)) ≡ inr v
from_str-tag v build b i h = from_str-core _ v b i (
    ap (before 43) (trim_tag (fmt v) build h)
    ∙ ap (λ t. before 43 (t ++ 43 ∷ build)) (fmt-show_core v)
    ∙ before-build (show_core v ++ show_pre v.pre) build (before-core v i))

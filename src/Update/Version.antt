-- ===== src/Update/Version.antt =====
-- src/update/version.rs: the versions of releases, their order, their text and its parser.
-- The numbers of this build come from Cargo, so `Version::current` is left to its caller.
pub mod Order
pub mod Decimal
pub mod Split
pub mod Accepted
pub mod RoundTrip
use Prim.Native.Nat.{compare, Ordering}
use anemone_rs.Base.{
  ◌>>=◌, ◌+◌, ℕ, zero, suc, ◌-◌, ◌*◌, ◌/◌, ◌%◌, ◌⊎◌, inl, inr, Bool, true, false, not, ◌&&◌, Option,
  none, some, List, [], ◌∷◌, ◌++◌, ltb, leb, ◌==◌, if◌then◌else◌, Text, is_whitespace,
}

abbrev pub u32_max : ℕ
u32_max = 4294967295

pub record Version : Type 0 where
  pub major : ℕ
  pub minor : ℕ
  pub patch : ℕ
  pub pre : Option Text

pub record VersionParseError : Type 0 where
  pub value : Text

-- `Ordering::then`
abbrev pub then_cmp : Ordering → Ordering → Ordering
then_cmp Ordering.eq o = o
then_cmp Ordering.lt o = Ordering.lt
then_cmp Ordering.gt o = Ordering.gt

abbrev pub cmp_pre : Option Text → Option Text → Ordering
cmp_pre none none = Ordering.eq
cmp_pre (some p) (some q) = Ordering.eq
cmp_pre none (some q) = Ordering.gt
cmp_pre (some p) none = Ordering.lt

unfoldable pub cmp : Version → Version → Ordering
cmp v w =
    then_cmp (compare v.major w.major) (
      then_cmp (compare v.minor w.minor) (then_cmp (compare v.patch w.patch) (cmp_pre v.pre w.pre)))

unfoldable pub partial_cmp : Version → Version → Option Ordering
partial_cmp v w = some (cmp v w)

abbrev pub is_greater : Option Ordering → Bool
is_greater (some Ordering.gt) = true
is_greater _ = false

unfoldable pub is_prerelease : Version → Bool
is_prerelease v = elim v.pre [ none ↦ false | some p ↦ true ]

unfoldable pub is_upgrade_from : Version → Version → Bool
is_upgrade_from v current = not (is_prerelease v) && is_greater (partial_cmp v current)

-- The decimal digits that `{}` writes for a `u32`: ten of them are enough.
unfoldable pub show_digits : ℕ → ℕ → Text
show_digits zero n = []
show_digits (suc fuel) n =
    if ltb n 10 then (48 + n) ∷ [] else show_digits fuel (n / 10) ++ (48 + n % 10) ∷ []

unfoldable pub show_pre : Option Text → Text
show_pre none = []
show_pre (some p) = b'-' ∷ p

unfoldable pub fmt : Version → Text
fmt v =
    show_digits 10 v.major
    ++ (b'.' ∷ (show_digits 10 v.minor ++ (b'.' ∷ (show_digits 10 v.patch ++ show_pre v.pre))))

-- `str::trim`
unfoldable pub trim_start : Text → Text
trim_start [] = []
trim_start (c ∷ s) = if is_whitespace c then trim_start s else c ∷ s

unfoldable pub trim_end : Text → Text
trim_end [] = []
trim_end (c ∷ s) = elim (trim_end s) [
  | [] ↦ (if is_whitespace c then [] else c ∷ [])
  | d ∷ t ↦ c ∷ d ∷ t
]

unfoldable pub trim : Text → Text
trim s = trim_end (trim_start s)

-- `text.strip_prefix('v').unwrap_or(text)`
unfoldable pub strip_v : Text → Text
strip_v [] = []
strip_v (c ∷ s) = if c == b'v' then s else c ∷ s

-- `text.split(c).next().unwrap_or(text)`
unfoldable pub before : ℕ → Text → Text
before c [] = []
before c (d ∷ s) = if d == c then [] else d ∷ before c s

unfoldable pub cons_first : ℕ → Option (Text × Text) → Option (Text × Text)
cons_first c none = none
cons_first c (some p) = some (c ∷ p.0, p.1)

-- `text.split_once(c)`
unfoldable pub split_once : ℕ → Text → Option (Text × Text)
unfolding cons_first
split_once c [] = none
split_once c (d ∷ s) = if d == c then some ([], s) else cons_first d (split_once c s)

unfoldable pub cons_head : ℕ → List Text → List Text
cons_head c [] = (c ∷ []) ∷ []
cons_head c (p ∷ ps) = (c ∷ p) ∷ ps

-- `core.split(c)`
unfoldable pub split : ℕ → Text → List Text
unfolding cons_head
split c [] = [] ∷ []
split c (d ∷ s) = if d == c then [] ∷ split c s else cons_head d (split c s)

-- One step of `u32::from_str`, with the checked product and the checked sum.
unfoldable pub digit_step : ℕ → ℕ → Option ℕ
digit_step value c =
    if leb 48 c && leb c 57
    then (if leb (value * 10) u32_max
        then (if leb (value * 10 + (c - 48)) u32_max then some (value * 10 + (c - 48)) else none)
        else none)
    else none

unfoldable pub parse_digits : ℕ → Text → Option ℕ
unfolding digit_step
parse_digits value [] = some value
parse_digits value (c ∷ s) = do next ← digit_step value c; parse_digits next s

-- `part.parse::<u32>().ok()`: one sign `+` may stand before the digits.
unfoldable pub parse_u32 : Text → Option ℕ
unfolding parse_digits
parse_u32 [] = none
parse_u32 (c ∷ []) = parse_digits 0 (c ∷ [])
parse_u32 (c ∷ d ∷ s) = if c == b'+' then parse_digits 0 (d ∷ s) else parse_digits 0 (c ∷ d ∷ s)

-- The closure `next` of `from_str`: the part that stands first, and the parts left.
unfoldable pub next_part : List Text → Option (ℕ × List Text)
next_part [] = none
next_part (p ∷ ps) = do n ← elim p [ [] ↦ none | c ∷ s ↦ parse_u32 (c ∷ s) ]; some (n, ps)

abbrev pub no_more : List Text → Option (List Text)
no_more [] = some []
no_more (p ∷ ps) = none

unfoldable pub parse_core : Text → Option Text → Option Version
parse_core core pre = do
  (major, parts1) ← next_part (split b'.' core)
  (minor, parts2) ← next_part parts1
  (patch, parts3) ← next_part parts2
  parts ← no_more parts3
  some (record { major = major; minor = minor; patch = patch; pre = pre })

-- The `match` on `split_once('-')`.
unfoldable pub split_pre : Text → Option (Text × Option Text)
split_pre text = elim (split_once b'-' text) [
  | none ↦ some (text, none)
  | some p ↦ elim p.1 [ [] ↦ none | c ∷ s ↦ some (p.0, some (c ∷ s)) ]
]

unfoldable pub from_str_core : Text → Option Version
from_str_core value = do
  (core, pre) ← split_pre (before b'+' (strip_v (trim value)))
  parse_core core pre

unfoldable pub from_str : Text → VersionParseError ⊎ Version
from_str value = elim (from_str_core value) [
  | none ↦ inl (record { value = value })
  | some v ↦ inr v
]

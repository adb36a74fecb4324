-- ===== src/Base/Utf.antt =====
-- `String::from_utf8_lossy` and `String::from_utf16_lossy`: what is not well formed becomes U+FFFD.
use Prim.Native.Nat.{ℕ, ◌+◌, ◌*◌, ◌-◌, ◌/◌, ◌%◌}
use mathlib.Core.Path.{◌≡◌, refl, sym, ap, ◌∙◌}
use mathlib.Core.Bool.{Bool, true, false, ◌&&◌}
use mathlib.Core.Option.{Option, none, some}
use mathlib.Core.List.{List, [], ◌∷◌, ◌++◌}
use mathlib.Core.Logic.{inl, inr}
use anemone_rs.Base.Tests.{Option-cases, ltb, leb, ◌==◌, if◌then◌else◌}
use native.Mathlib.Omega.{arith}
use anemone_rs.Base.Lists.{all}
use anemone_rs.Base.Options.{◌>>=◌}
use anemone_rs.Base.Encoding.{Text}

abbrev pub between : ℕ → ℕ → ℕ → Bool
between low high n = leb low n && leb n high

-- Where a decoder of UTF-8 stands: before a character, or inside one with the bytes it still needs,
-- the bits read so far and the range of the next byte.
pub data Utf8State : Type 0 where
  idle : Utf8State
  inside : ℕ → ℕ → ℕ → ℕ → Utf8State

unfoldable pub utf8_begin : ℕ → Text × Utf8State
utf8_begin b =
    if ltb b 128
    then (b ∷ [], idle)
    else if between 194 223 b
    then ([], inside 1 (b % 32) 128 191)
    else if b == 224
    then ([], inside 2 0 160 191)
    else if b == 237
    then ([], inside 2 13 128 159)
    else if between 225 239 b
    then ([], inside 2 (b % 16) 128 191)
    else if b == 240
    then ([], inside 3 0 144 191)
    else if b == 244
    then ([], inside 3 4 128 143)
    else if between 241 243 b
    then ([], inside 3 (b % 8) 128 191)
    else (65533 ∷ [], idle)

unfoldable pub utf8_step : Utf8State → ℕ → Text × Utf8State
utf8_step idle b = utf8_begin b
utf8_step (inside needed bits low high) b =
    if between low high b
    then if needed == 1
      then ((bits * 64 + b % 64) ∷ [], idle)
      else ([], inside (needed - 1) (bits * 64 + b % 64) 128 191)
    else (65533 ∷ (utf8_begin b).0, (utf8_begin b).1)

-- A character that the end cuts off is replaced once.
unfoldable pub utf8_from : Utf8State → List ℕ → Text
utf8_from idle [] = []
utf8_from (inside needed bits low high) [] = 65533 ∷ []
utf8_from state (b ∷ bytes) = let next = utf8_step state b in next.0 ++ utf8_from (next.1) bytes

unfoldable pub from_utf8_lossy : List ℕ → Text
from_utf8_lossy bytes = utf8_from idle bytes

-- Bytes of ASCII are their own text.
pub from_utf8_lossy-ascii :
    (bytes : List ℕ) → all (λ b. ltb b 128) bytes ≡ true → from_utf8_lossy bytes ≡ bytes
unfolding from_utf8_lossy utf8_from utf8_step utf8_begin
from_utf8_lossy-ascii [] h = refl
from_utf8_lossy-ascii (b ∷ bytes) h =
    let first : ltb b 128 ≡ true = ground arith in
    let rest : utf8_from idle bytes ≡ bytes = from_utf8_lossy-ascii bytes (ground arith) in
    rw (first, rest) refl

abbrev is_high : ℕ → Bool
is_high unit = between 55296 56319 unit

abbrev is_low : ℕ → Bool
is_low unit = between 56320 57343 unit

-- With the high surrogate that waits for its low one.
unfoldable pub utf16_step : Option ℕ → ℕ → Text × Option ℕ
utf16_step none unit =
    if is_high unit
    then ([], some unit)
    else if is_low unit
    then (65533 ∷ [], none)
    else (unit ∷ [], none)
utf16_step (some high) unit =
    if is_low unit
    then ((65536 + (high - 55296) * 1024 + (unit - 56320)) ∷ [], none)
    else if is_high unit
    then (65533 ∷ [], some unit)
    else (65533 ∷ unit ∷ [], none)

unfoldable pub utf16_from : Option ℕ → List ℕ → Text
utf16_from none [] = []
utf16_from (some high) [] = 65533 ∷ []
utf16_from state (unit ∷ units) =
    let next = utf16_step state unit in next.0 ++ utf16_from (next.1) units

unfoldable pub from_utf16_lossy : List ℕ → Text
from_utf16_lossy units = utf16_from none units

-- `str::encode_utf16`: a character outside the basic plane becomes two surrogates.
unfoldable pub encode_utf16 : Text → List ℕ
encode_utf16 [] = []
encode_utf16 (c ∷ s) =
    let rest = encode_utf16 s in
    if ltb c 65536
    then c ∷ rest
    else (55296 + (c - 65536) / 1024) ∷ (56320 + (c - 65536) % 1024) ∷ rest

abbrev lead : Utf8State → Option Utf8State
lead idle = none
lead (inside needed bits low high) = some (inside needed bits low high)

-- A decoder that stops at what is not well formed.
unfoldable pub utf8_next : Utf8State → ℕ → Option Utf8State
utf8_next idle b = if ltb b 128 then some idle else lead ((utf8_begin b).1)
utf8_next (inside needed bits low high) b =
    if between low high b
    then some (if needed == 1 then idle else inside (needed - 1) (bits * 64 + b % 64) 128 191)
    else none

unfoldable pub utf8_check : Utf8State → List ℕ → Option Utf8State
utf8_check state [] = some state
utf8_check state (b ∷ bytes) = utf8_next state b >>= (λ next. utf8_check next bytes)

abbrev pub ended : Option Utf8State → Bool
ended (some idle) = true
ended (some (inside needed bits low high)) = false
ended none = false

-- `String::from_utf8` succeeds.
unfoldable pub is_utf8 : List ℕ → Bool
is_utf8 bytes = ended (utf8_check idle bytes)

-- `str::from_utf8`: where the end cuts a character off, the bytes of that character, which start at
-- `valid_up_to`.
pub data Utf8Result : Type 0 where
  valid : Utf8Result
  incomplete : List ℕ → Utf8Result
  invalid : Utf8Result

-- The bytes from the start of the character that is read.
abbrev pub tail_at : Utf8State → List ℕ → List ℕ → List ℕ
tail_at idle tail bytes = bytes
tail_at (inside needed bits low high) tail bytes = tail

abbrev at_end : Utf8State → List ℕ → Utf8Result
at_end idle tail = valid
at_end (inside needed bits low high) tail = incomplete tail

unfoldable pub utf8_scan : Utf8State → List ℕ → List ℕ → Utf8Result
utf8_scan state tail [] = at_end state tail
utf8_scan state tail (b ∷ bytes) = elim (utf8_next state b) [
  | none ↦ invalid
  | some next ↦ utf8_scan next (tail_at next tail bytes) bytes
]

unfoldable pub from_utf8 : List ℕ → Utf8Result
from_utf8 bytes = utf8_scan idle bytes bytes

-- What the check makes of the bytes that a scan leaves for later is what it makes of all.
unfoldable pub scanned : Utf8Result → Option Utf8State
scanned valid = some idle
scanned (incomplete tail) = utf8_check idle tail
scanned invalid = none

from_boundary :
    (next : Utf8State) (tail bytes : List ℕ)
    → utf8_check idle tail ≡ utf8_check next bytes
    → utf8_check idle (tail_at next tail bytes) ≡ utf8_check next bytes
from_boundary idle tail bytes h = refl
from_boundary (inside needed bits low high) tail bytes h = h

scanned-at_end :
    (state : Utf8State) (tail : List ℕ)
    → utf8_check idle tail ≡ some state
    → scanned (at_end state tail) ≡ some state
unfolding scanned
scanned-at_end idle tail h = refl
scanned-at_end (inside needed bits low high) tail h = h

scanned-utf8_scan :
    (state : Utf8State) (tail bytes : List ℕ)
    → utf8_check idle tail ≡ utf8_check state bytes
    → scanned (utf8_scan state tail bytes) ≡ utf8_check state bytes
unfolding scanned utf8_scan utf8_check
scanned-utf8_scan state tail [] h = scanned-at_end state tail h
scanned-utf8_scan state tail (b ∷ bytes) h = elim (Option-cases (utf8_next state b)) [
  | inl refused ↦ rw (utf8_scan, refused) refl
  | inr (next, read) ↦
      let rest : utf8_check state (b ∷ bytes) ≡ utf8_check next bytes = rw (read) refl in
      let here : utf8_check idle (tail_at next tail bytes) ≡ utf8_check next bytes =
        from_boundary next tail bytes (h ∙ rest) in
      let scan : utf8_scan state tail (b ∷ bytes) ≡ utf8_scan next (tail_at next tail bytes) bytes =
        rw (utf8_scan, read) refl in
      ap scanned scan ∙ scanned-utf8_scan next (tail_at next tail bytes) bytes here ∙ sym rest
]

pub scanned-from_utf8 : (bytes : List ℕ) → scanned (from_utf8 bytes) ≡ utf8_check idle bytes
unfolding from_utf8
scanned-from_utf8 bytes = scanned-utf8_scan idle bytes bytes refl

pub utf8_check-append :
    (state : Utf8State) (xs ys : List ℕ)
    → utf8_check state (xs ++ ys) ≡ (utf8_check state xs >>= (λ next. utf8_check next ys))
unfolding utf8_check
utf8_check-append state [] ys = refl
utf8_check-append state (b ∷ xs) ys = elim (Option-cases (utf8_next state b)) [
  | inl refused ↦ rw (refused) refl
  | inr (next, read) ↦ rw (read) (utf8_check-append next xs ys)
]

-- The bytes are well formed to the end.
unfoldable pub is_valid : Utf8Result → Bool
is_valid valid = true
is_valid (incomplete tail) = false
is_valid invalid = false

is_valid-utf8_scan :
    (state : Utf8State) (tail bytes : List ℕ)
    → is_valid (utf8_scan state tail bytes) ≡ ended (utf8_check state bytes)
unfolding is_valid utf8_scan utf8_check
is_valid-utf8_scan idle tail [] = refl
is_valid-utf8_scan (inside needed bits low high) tail [] = refl
is_valid-utf8_scan state tail (b ∷ bytes) = elim (Option-cases (utf8_next state b)) [
  | inl refused ↦ rw (utf8_scan, refused) refl
  | inr (next, read) ↦
      rw (utf8_scan, read) (is_valid-utf8_scan next (tail_at next tail bytes) bytes)
]

pub is_valid-from_utf8 :
    (bytes : List ℕ) → is_valid (from_utf8 bytes) ≡ ended (utf8_check idle bytes)
unfolding from_utf8
is_valid-from_utf8 bytes = is_valid-utf8_scan idle bytes bytes

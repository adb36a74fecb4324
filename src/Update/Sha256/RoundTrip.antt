-- ===== src/Update/Sha256/RoundTrip.antt =====
-- What src/update/sha256.rs writes for a digest reads back.
use anemone_rs.Base.{
  ℕ, ◌*◌, ◌/◌, ◌%◌, ◌<◌, ◌≡◌, refl, false, some, List, [], ◌∷◌, arith, length, utf8_len,
  is_whitespace, ◌==◌,
}
use anemone_rs.Update.Version.{trim, trim_start, trim_end}
use anemone_rs.Update.Version.Split.{trim_end-cons}
use anemone_rs.Update.Sha256.{hex_value, from_str_radix, parse_pairs, from_hex, hex_digit, fmt}

pub data AllBytes : List ℕ → Type 0 where
  none_left : AllBytes []
  byte : {b : ℕ} {bs : List ℕ} → b < 256 → AllBytes bs → AllBytes (b ∷ bs)

hex_value-hex_digit : (n : ℕ) → n < 16 → hex_value (hex_digit n) ≡ some n
unfolding hex_value hex_digit
hex_value-hex_digit n h = ground arith

hex_digit-ne : (n : ℕ) → n < 16 → (hex_digit n == 43) ≡ false
unfolding hex_digit
hex_digit-ne n h = ground arith

hex_digit-is_whitespace : (n : ℕ) → n < 16 → is_whitespace (hex_digit n) ≡ false
unfolding hex_digit is_whitespace
hex_digit-is_whitespace n h = ground arith

from_str_radix-hex_digit :
    (b : ℕ) → b < 256 → from_str_radix (hex_digit (b / 16)) (hex_digit (b % 16)) ≡ some b
unfolding from_str_radix
from_str_radix-hex_digit b h = ground (
  arith,
  hex_digit-ne (b / 16) (omega arith),
  hex_value-hex_digit (b / 16) (omega arith),
  hex_value-hex_digit (b % 16) (omega arith),
)

parse_pairs-fmt : {bs : List ℕ} → AllBytes bs → parse_pairs (fmt bs) ≡ some bs
unfolding parse_pairs fmt
parse_pairs-fmt AllBytes.none_left = refl
parse_pairs-fmt (AllBytes.byte {b} h a) = rw (from_str_radix-hex_digit b h, parse_pairs-fmt a) refl

utf8_len-fmt : {bs : List ℕ} → AllBytes bs → utf8_len (fmt bs) ≡ length bs * 2
unfolding utf8_len fmt hex_digit
utf8_len-fmt AllBytes.none_left = omega arith
utf8_len-fmt (AllBytes.byte {b} h a) = ground (arith, utf8_len-fmt a)

trim_end-fmt : {bs : List ℕ} → AllBytes bs → trim_end (fmt bs) ≡ fmt bs
unfolding fmt trim_end
trim_end-fmt AllBytes.none_left = refl
trim_end-fmt (AllBytes.byte {b} h a) =
    trim_end-cons _ _ (hex_digit-is_whitespace (b / 16) (omega arith))
      (trim_end-cons _ _ (hex_digit-is_whitespace (b % 16) (omega arith)) (trim_end-fmt a))

trim-fmt : {bs : List ℕ} → AllBytes bs → trim (fmt bs) ≡ fmt bs
unfolding trim trim_start fmt
trim-fmt AllBytes.none_left = trim_end-fmt AllBytes.none_left
trim-fmt (AllBytes.byte {b} h a) =
    rw (hex_digit-is_whitespace (b / 16) (omega arith)) (trim_end-fmt (AllBytes.byte h a))

-- A digest of 32 bytes is read back from its text.
pub from_hex-fmt : (bs : List ℕ) → AllBytes bs → length bs ≡ 32 → from_hex (fmt bs) ≡ some bs
unfolding from_hex
from_hex-fmt bs a l = rw (trim-fmt a, utf8_len-fmt a, l) (parse_pairs-fmt a)

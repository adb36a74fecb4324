-- ===== src/Update/Sha256/Tests.antt =====
-- Runs of src/update/sha256.rs, and the round trip at a digest.
use anemone_rs.Base.{
  ℕ, zero, suc, ◌≡◌, refl, none, some, List, [], ◌∷◌, arith, Text, is_whitespace, utf8_len,
}
use anemone_rs.Update.Version.{trim, trim_start, trim_end}
use anemone_rs.Update.Sha256.{hex_value, from_str_radix, parse_pairs, from_hex, hex_digit, fmt}
use anemone_rs.Update.Sha256.RoundTrip.{AllBytes}

program : Unit {0}
unfolding is_whitespace utf8_len trim trim_start trim_end hex_value from_str_radix parse_pairs
    from_hex hex_digit fmt
program = tt

abbrev signed : ℕ → Text
signed zero = []
signed (suc n) = b'+' ∷ b'f' ∷ signed n

abbrev filled : ℕ → ℕ → List ℕ
filled zero b = []
filled (suc n) b = b ∷ filled n b

-- Pairs that begin with a sign are taken for bytes.
signed_run : from_hex (signed 32) ≡ some (filled 32 15)
unfolding program
signed_run = refl

short_run : from_hex (signed 31) ≡ none
unfolding program
short_run = refl

filled-AllBytes : (n : ℕ) → AllBytes (filled n 171)
filled-AllBytes zero = AllBytes.none_left
filled-AllBytes (suc n) = AllBytes.byte (omega arith) (filled-AllBytes n)

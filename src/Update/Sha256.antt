-- ===== src/Update/Sha256.antt =====
-- src/update/sha256.rs: the text of a digest and its parser. The hash itself is the ring crate's.
pub mod RoundTrip
mod Tests
use anemone_rs.Base.{
  ℕ, ◌+◌, ◌-◌, ◌*◌, ◌/◌, ◌%◌, Bool, true, false, ◌&&◌, not, Option, none, some, ◌>>=◌, List, [],
  ◌∷◌, ltb, leb, ◌==◌, if◌then◌else◌, Text, utf8_len,
}
use anemone_rs.Update.Version.{trim}

abbrev pub digest_len : ℕ
digest_len = 32

-- One hexadecimal digit, in either case.
pub hex_value : ℕ → Option ℕ
hex_value c =
    if leb 48 c && leb c 57
    then some (c - 48)
    else (if leb 97 c && leb c 102
        then some (c - 87)
        else (if leb 65 c && leb c 70 then some (c - 55) else none))

-- `u8::from_str_radix(pair, 16)` on two characters: a sign `+` may stand for the first digit.
pub from_str_radix : ℕ → ℕ → Option ℕ
unfolding hex_value
from_str_radix a b =
    if a == 43
    then hex_value b
    else (do high ← hex_value a; low ← hex_value b; some (high * 16 + low))

-- The loop over the chunks of two bytes. A text of the right length that is not ASCII has a chunk
-- that is no number, and one that is has no byte left over.
pub parse_pairs : Text → Option (List ℕ)
unfolding from_str_radix
parse_pairs [] = some []
parse_pairs (a ∷ []) = none
parse_pairs (a ∷ b ∷ s) = do byte ← from_str_radix a b; bytes ← parse_pairs s; some (byte ∷ bytes)

pub from_hex : Text → Option (List ℕ)
unfolding parse_pairs utf8_len
from_hex text =
    if not (utf8_len (trim text) == digest_len * 2) then none else parse_pairs (trim text)

pub hex_digit : ℕ → ℕ
hex_digit n = if ltb n 10 then 48 + n else 87 + n

-- `Display` of a digest: `{byte:02x}` for each byte.
pub fmt : List ℕ → Text
unfolding hex_digit
fmt [] = []
fmt (byte ∷ bytes) = hex_digit (byte / 16) ∷ hex_digit (byte % 16) ∷ fmt bytes

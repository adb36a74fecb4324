-- ===== src/HookPipe/Bytes.antt =====
-- src/hook/pipe_client/notification.rs and command.rs: little-endian fields of a message, read and
-- written at offsets. A byte is a number below 256.
use anemone_rs.Base.{
  ℕ, zero, suc, ◌+◌, ◌-◌, ◌*◌, ◌/◌, ◌%◌, ◌<◌, ℤ, pos, negsuc, Bool, true, List, [], ◌∷◌, ◌++◌, ◌≡◌,
  refl, ap, ap₂, ◌∙◌, arith, ltb, leb, if◌then◌else◌, length, take, drop, all,
}

-- `to_le_bytes` and `from_le_bytes`, by the number of bytes.
unfoldable pub to_le : ℕ → ℕ → List ℕ
to_le zero n = []
to_le (suc k) n = n % 256 ∷ to_le k (n / 256)

unfoldable pub from_le : List ℕ → ℕ
from_le [] = 0
from_le (b ∷ bs) = b + 256 * from_le bs

-- `bytes.get(offset..offset + n)` and what is read where it fails.
unfoldable pub read_le : ℕ → List ℕ → ℕ → ℕ
read_le n bytes offset =
    if leb (offset + n) (length bytes) then from_le (take n (drop offset bytes)) else 0

unfoldable pub read_u32 : List ℕ → ℕ → ℕ
read_u32 bytes offset = read_le 4 bytes offset

unfoldable pub read_u64 : List ℕ → ℕ → ℕ
read_u64 bytes offset = read_le 8 bytes offset

-- The two's complement of a number of `2 * half` values.
unfoldable pub to_signed : ℕ → ℕ → ℤ
to_signed half n = if ltb n half then pos n else negsuc (2 * half - 1 - n)

unfoldable pub of_signed : ℕ → ℤ → ℕ
of_signed half (pos n) = n
of_signed half (negsuc n) = 2 * half - 1 - n

unfoldable pub read_i16 : List ℕ → ℕ → ℤ
read_i16 bytes offset = to_signed 32768 (read_le 2 bytes offset)

unfoldable pub read_i32 : List ℕ → ℕ → ℤ
read_i32 bytes offset = to_signed 2147483648 (read_le 4 bytes offset)

-- An array of zeros.
unfoldable pub zeros : ℕ → List ℕ
zeros zero = []
zeros (suc n) = 0 ∷ zeros n

unfoldable pub read_u8_array : ℕ → List ℕ → ℕ → List ℕ
read_u8_array n bytes offset =
    if leb (offset + n) (length bytes) then take n (drop offset bytes) else zeros n

-- `as_chunks::<2>` with `from_le_bytes`: a byte that is left over is dropped.
unfoldable pub units : List ℕ → List ℕ
units [] = []
units (a ∷ []) = []
units (a ∷ b ∷ bytes) = (a + 256 * b) ∷ units bytes

unfoldable pub read_u16_array : ℕ → List ℕ → ℕ → List ℕ
read_u16_array n bytes offset =
    if leb (offset + n * 2) (length bytes)
    then units (take (n * 2) (drop offset bytes))
    else zeros n

-- `out[offset..offset + value.len()].copy_from_slice(value)`; past the end, where the code panics, the
-- list would become longer.
unfoldable pub write_bytes : List ℕ → ℕ → List ℕ → List ℕ
write_bytes out offset value = take offset out ++ value ++ drop (offset + length value) out

-- The loop of `write_u16_array`, from the unit that is to be written at `start`.
unfoldable pub write_u16_array : List ℕ → ℕ → List ℕ → List ℕ
write_u16_array out start [] = out
write_u16_array out start (unit ∷ value) =
    write_u16_array (write_bytes out start (to_le 2 unit)) (start + 2) value

-- What the loop writes.
unfoldable pub unit_bytes : List ℕ → List ℕ
unit_bytes [] = []
unit_bytes (unit ∷ rest) = to_le 2 unit ++ unit_bytes rest

unfoldable pub write_u32 : List ℕ → ℕ → ℕ → List ℕ
write_u32 out offset value = write_bytes out offset (to_le 4 value)

unfoldable pub write_u64 : List ℕ → ℕ → ℕ → List ℕ
write_u64 out offset value = write_bytes out offset (to_le 8 value)

unfoldable pub write_i16 : List ℕ → ℕ → ℤ → List ℕ
write_i16 out offset value = write_bytes out offset (to_le 2 (of_signed 32768 value))

unfoldable pub write_i32 : List ℕ → ℕ → ℤ → List ℕ
write_i32 out offset value = write_bytes out offset (to_le 4 (of_signed 2147483648 value))

pub length-to_le : (k n : ℕ) → length (to_le k n) ≡ k
unfolding to_le
length-to_le zero n = refl
length-to_le (suc k) n = ap suc (length-to_le k (n / 256))

pub from_le-to_le_4 : (n : ℕ) → n < 4294967296 → from_le (to_le 4 n) ≡ n
unfolding from_le to_le
from_le-to_le_4 n h = omega arith

pub from_le-to_le_2 : (n : ℕ) → n < 65536 → from_le (to_le 2 n) ≡ n
unfolding from_le to_le
from_le-to_le_2 n h = omega arith

pub from_le-to_le_8 : (n : ℕ) → n < 18446744073709551616 → from_le (to_le 8 n) ≡ n
unfolding from_le to_le
from_le-to_le_8 n h = omega arith

-- Every element is a byte.
unfoldable pub are_bytes : List ℕ → Bool
are_bytes = all (λ b. ltb b 256)

pub to_le-from_le :
    (k : ℕ) (bytes : List ℕ)
    → are_bytes bytes ≡ true
    → length bytes ≡ k
    → to_le k (from_le bytes) ≡ bytes
unfolding to_le from_le are_bytes
to_le-from_le zero [] h len = refl
to_le-from_le zero (b ∷ bytes) h len = ground arith
to_le-from_le (suc k) [] h len = ground arith
to_le-from_le (suc k) (b ∷ bytes) h len =
    let byte : b < 256 = ground arith in
    ap₂ ◌∷◌ (omega (arith, byte))
      (ap (to_le k) (omega (arith, byte)) ∙ to_le-from_le k bytes (ground arith) (omega arith))

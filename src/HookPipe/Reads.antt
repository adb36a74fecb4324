-- ===== src/HookPipe/Reads.antt =====
-- src/hook/pipe_client: the reads of the fields that `parse_found_hook_args` takes out of the image
-- that `serialize_raw_hook_param` makes.
use anemone_rs.Base.{
  ℕ, ◌+◌, ◌-◌, ◌*◌, ◌≤◌, ◌<◌, ℤ, pos, negsuc, Bool, true, false, List, [], ◌∷◌, ◌≡◌, refl, ap, sym,
  ◌∙◌, arith, length, take, drop, all, ltb, leb, length-take, length-drop, Bool-cases, inl, inr,
}
use anemone_rs.HookPipe.Bytes.{
  to_le, from_le, read_le, read_u32, read_u64, read_i16, read_i32, read_u8_array, read_u16_array,
  to_signed, of_signed, units, unit_bytes, zeros, length-to_le, from_le-to_le_2, from_le-to_le_4,
  from_le-to_le_8,
}
use anemone_rs.HookPipe.Units.{units-unit_bytes, length-unit_bytes}

-- A number of `2 * half` values by its sign.
unfoldable pub signed_fits : ℕ → ℤ → Bool
signed_fits half (pos n) = ltb n half
signed_fits half (negsuc n) = ltb n half

to_signed-of_signed :
    (half : ℕ) (z : ℤ)
    → signed_fits half z ≡ true
    → (to_signed half (of_signed half z) ≡ z) × (of_signed half z < 2 * half)
unfolding to_signed of_signed signed_fits
to_signed-of_signed half (pos n) h = (rw (h) refl, ground arith)
to_signed-of_signed half (negsuc n) h =
    let small : n < half = ground arith in
    let high : ltb (2 * half - 1 - n) half ≡ false = ground (arith, small) in
    let back : 2 * half - 1 - (2 * half - 1 - n) ≡ n = omega (arith, small) in
    (rw (high, back) refl, omega (arith, small))

-- Bytes that are held at a place stand within the whole.
pub held_within :
    (bytes value : List ℕ) (offset size : ℕ)
    → length value ≡ size
    → 0 < size
    → take (length value) (drop offset bytes) ≡ value
    → (offset + size ≤ length bytes) × (take size (drop offset bytes) ≡ value)
held_within bytes value offset size len some_bytes h = (
  omega (
    arith,
    ap length h,
    length-take (length value) (drop offset bytes),
    length-drop offset bytes,
    len,
  ),
  ap (λ n. take n (drop offset bytes)) (sym len) ∙ h,
)

le_held :
    (k n : ℕ) (bytes : List ℕ) (offset : ℕ)
    → 0 < k
    → take (length (to_le k n)) (drop offset bytes) ≡ to_le k n
    → read_le k bytes offset ≡ from_le (to_le k n)
unfolding read_le
le_held k n bytes offset some_bytes h =
    let (within, here) = held_within bytes (to_le k n) offset k (length-to_le k n) some_bytes h in
    let inside : leb (offset + k) (length bytes) ≡ true = ground (arith, within) in
    rw (inside) (ap from_le here)

pub u64_held :
    (bytes : List ℕ) (offset n : ℕ)
    → n < 18446744073709551616
    → take (length (to_le 8 n)) (drop offset bytes) ≡ to_le 8 n
    → read_u64 bytes offset ≡ n
unfolding read_u64
u64_held bytes offset n small h = le_held 8 n bytes offset (omega arith) h ∙ from_le-to_le_8 n small

pub u32_held :
    (bytes : List ℕ) (offset n : ℕ)
    → n < 4294967296
    → take (length (to_le 4 n)) (drop offset bytes) ≡ to_le 4 n
    → read_u32 bytes offset ≡ n
unfolding read_u32
u32_held bytes offset n small h = le_held 4 n bytes offset (omega arith) h ∙ from_le-to_le_4 n small

pub i32_held :
    (bytes : List ℕ) (offset : ℕ) (z : ℤ)
    → signed_fits 2147483648 z ≡ true
    → (let value = to_le 4 (of_signed 2147483648 z) in
        take (length value) (drop offset bytes) ≡ value)
    → read_i32 bytes offset ≡ z
unfolding read_i32
i32_held bytes offset z small h =
    let (back, fits) = to_signed-of_signed 2147483648 z small in
    ap (to_signed 2147483648) (
      le_held 4 (of_signed 2147483648 z) bytes offset (omega arith) h
      ∙ from_le-to_le_4 (of_signed 2147483648 z) fits)
    ∙ back

pub i16_held :
    (bytes : List ℕ) (offset : ℕ) (z : ℤ)
    → signed_fits 32768 z ≡ true
    → (let value = to_le 2 (of_signed 32768 z) in take (length value) (drop offset bytes) ≡ value)
    → read_i16 bytes offset ≡ z
unfolding read_i16
i16_held bytes offset z small h =
    let (back, fits) = to_signed-of_signed 32768 z small in
    ap (to_signed 32768) (
      le_held 2 (of_signed 32768 z) bytes offset (omega arith) h
      ∙ from_le-to_le_2 (of_signed 32768 z) fits)
    ∙ back

no_bytes : (bytes : List ℕ) (offset n : ℕ) → 0 ≡ n → read_u8_array n bytes offset ≡ []
unfolding read_u8_array zeros
no_bytes bytes offset n len = elim (Bool-cases (leb (offset + 0) (length bytes))) [
  | inl inside ↦ ap (λ k. read_u8_array k bytes offset) (sym len) ∙ rw (inside) refl
  | inr outside ↦ ap (λ k. read_u8_array k bytes offset) (sym len) ∙ rw (outside) refl
]

pub u8_array_held :
    (n : ℕ) (bytes : List ℕ) (offset : ℕ) (value : List ℕ)
    → length value ≡ n
    → take (length value) (drop offset bytes) ≡ value
    → read_u8_array n bytes offset ≡ value
unfolding read_u8_array
u8_array_held n bytes offset [] len h = no_bytes bytes offset n len
u8_array_held n bytes offset (b ∷ value) len h =
    let (within, here) = held_within bytes (b ∷ value) offset n len (omega (arith, len)) h in
    let inside : leb (offset + n) (length bytes) ≡ true = ground (arith, within) in rw (inside) here

no_units : (bytes : List ℕ) (offset n : ℕ) → 0 ≡ n → read_u16_array n bytes offset ≡ []
unfolding read_u16_array zeros units
no_units bytes offset n len = elim (Bool-cases (leb (offset + 0 * 2) (length bytes))) [
  | inl inside ↦ ap (λ k. read_u16_array k bytes offset) (sym len) ∙ rw (inside) refl
  | inr outside ↦ ap (λ k. read_u16_array k bytes offset) (sym len) ∙ rw (outside) refl
]

pub u16_array_held :
    (n : ℕ) (bytes : List ℕ) (offset : ℕ) (value : List ℕ)
    → length value ≡ n
    → all (λ unit. ltb unit 65536) value ≡ true
    → take (length (unit_bytes value)) (drop offset bytes) ≡ unit_bytes value
    → read_u16_array n bytes offset ≡ value
unfolding read_u16_array
u16_array_held n bytes offset [] len small h = no_units bytes offset n len
u16_array_held n bytes offset (u ∷ value) len small h =
    let size : length (unit_bytes (u ∷ value)) ≡ n * 2 =
      length-unit_bytes (u ∷ value) ∙ omega (arith, len) in
    let (within, here) =
      held_within bytes (unit_bytes (u ∷ value)) offset (n * 2) size (omega (arith, len)) h in
    let inside : leb (offset + n * 2) (length bytes) ≡ true = ground (arith, within) in
    rw (inside) (ap units here ∙ units-unit_bytes (u ∷ value) small)

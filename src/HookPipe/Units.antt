-- ===== src/HookPipe/Units.antt =====
-- src/hook/pipe_client/notification.rs: numbers and texts of code units as the fields of an argument.
use anemone_rs.Base.{
  ℕ, ◌+◌, ◌-◌, ◌*◌, ◌/◌, ◌<◌, Bool, true, false, ◌&&◌, List, [], ◌∷◌, ◌++◌, ◌≡◌, refl, ap, ap₂, ◌∙◌,
  arith, ltb, ◌==◌, length, take, min, all, from_utf16_lossy,
}
use anemone_rs.HookPipe.Bytes.{
  to_le, read_le, read_u32, read_u64, units, unit_bytes, from_le-to_le_4, from_le-to_le_8,
}
use anemone_rs.HookPipe.Notification.{until_nul, field, read_fixed_utf16}

-- A code unit that does not end its text.
abbrev pub is_code_unit : ℕ → Bool
is_code_unit unit = ltb 0 unit && ltb unit 65536

pub read_u64-to_le : (n : ℕ) → n < 18446744073709551616 → read_u64 (to_le 8 n) 0 ≡ n
unfolding read_u64 read_le to_le
read_u64-to_le n h = from_le-to_le_8 n h

pub read_u32-to_le_4 : (n : ℕ) → n < 4294967296 → read_u32 (to_le 4 n) 0 ≡ n
unfolding read_u32 read_le to_le
read_u32-to_le_4 n h = from_le-to_le_4 n h

pub length-unit_bytes : (us : List ℕ) → length (unit_bytes us) ≡ 2 * length us
unfolding unit_bytes to_le
length-unit_bytes [] = refl
length-unit_bytes (u ∷ us) = omega (arith, length-unit_bytes us)

pub units-unit_bytes :
    (us : List ℕ) → all (λ unit. ltb unit 65536) us ≡ true → units (unit_bytes us) ≡ us
unfolding units unit_bytes to_le
units-unit_bytes [] h = refl
units-unit_bytes (u ∷ us) h =
    let small : u < 65536 = ground arith in
    ap₂ ◌∷◌ (omega (arith, small)) (units-unit_bytes us (ground arith))

ended_units :
    (code : List ℕ)
    → all is_code_unit code ≡ true
    → all (λ unit. ltb unit 65536) (code ++ 0 ∷ []) ≡ true
ended_units [] h = refl
ended_units (u ∷ us) h =
    let rest : all (λ unit. ltb unit 65536) (us ++ 0 ∷ []) ≡ true = ended_units us (ground arith) in
    ground arith

nonzero_units :
    (code : List ℕ) → all is_code_unit code ≡ true → all (λ unit. ltb 0 unit) code ≡ true
nonzero_units [] h = refl
nonzero_units (u ∷ us) h =
    let rest : all (λ unit. ltb 0 unit) us ≡ true = nonzero_units us (ground arith) in ground arith

-- A text ends at its first zero.
pub until_nul_stop :
    (us rest : List ℕ) → all (λ unit. ltb 0 unit) us ≡ true → until_nul (us ++ 0 ∷ rest) ≡ us
unfolding until_nul
until_nul_stop [] rest h = refl
until_nul_stop (u ∷ us) rest h =
    let kept : (u == 0) ≡ false = ground arith in
    let more : until_nul (us ++ 0 ∷ rest) ≡ us = until_nul_stop us rest (ground arith) in
    rw (kept, more) refl

take_all : (xs : List ℕ) → take (length xs) xs ≡ xs
take_all [] = refl
take_all (x ∷ xs) = ap (◌∷◌ x) (take_all xs)

field_whole : (xs : List ℕ) (len : ℕ) → len ≡ length xs → field xs 0 len ≡ xs
field_whole xs len h =
    let start : min 0 (min (0 + len) (length xs)) ≡ 0 = omega arith in
    let size : min (0 + len) (length xs) - min 0 (min (0 + len) (length xs)) ≡ length xs =
      omega arith in
    rw (size, start) (take_all xs)

pub read_fixed_utf16_whole :
    (code : List ℕ)
    → all is_code_unit code ≡ true
    → (let bytes = unit_bytes (code ++ 0 ∷ []) in read_fixed_utf16 bytes 0 (length bytes / 2))
      ≡ from_utf16_lossy code
unfolding read_fixed_utf16
read_fixed_utf16_whole code h =
    let bytes = unit_bytes (code ++ 0 ∷ []) in
    let whole : field bytes 0 (length bytes / 2 * 2) ≡ bytes =
      field_whole bytes (length bytes / 2 * 2)
        (omega (arith, length-unit_bytes (code ++ 0 ∷ []))) in
    ap (λ xs. from_utf16_lossy (until_nul xs))
      (ap units whole ∙ units-unit_bytes (code ++ 0 ∷ []) (ended_units code h))
    ∙ ap from_utf16_lossy (until_nul_stop code [] (nonzero_units code h))

-- ===== src/HookPipe/Writes.antt =====
-- src/hook/pipe_client/command.rs: what a write leaves of the bytes.
use anemone_rs.Base.{
  ℕ, zero, suc, ◌+◌, ◌≤◌, List, [], ◌∷◌, ◌++◌, ◌≡◌, refl, ap, ap₂, sym, ◌∙◌, arith, append-nil,
  take-append-drop, drop-length_append, drop-drop, length, take, drop, length-append, length-take,
  length-drop, take-length_append,
}
use anemone_rs.HookPipe.Bytes.{to_le, unit_bytes, write_bytes, write_u16_array}

-- Of a field that begins a struct, what is written.
write_bytes-suc :
    (offset x : ℕ) (xs value : List ℕ)
    → write_bytes (x ∷ xs) (suc offset) value ≡ x ∷ write_bytes xs offset value
unfolding write_bytes
write_bytes-suc offset x xs value =
    let next : suc offset + length value ≡ suc (offset + length value) = omega arith in
    rw (next) refl

pub length-write_bytes :
    (out : List ℕ) (offset : ℕ) (value : List ℕ)
    → offset + length value ≤ length out
    → length (write_bytes out offset value) ≡ length out
unfolding write_bytes
length-write_bytes out offset value h =
    let size : length (take offset out ++ value ++ drop (offset + length value) out) ≡ length out =
      omega (
        arith,
        length-append (take offset out ++ value) (drop (offset + length value) out),
        length-append (take offset out) value,
        length-take offset out,
        length-drop (offset + length value) out,
      ) in
    size

pub written :
    (out : List ℕ) (offset : ℕ) (value : List ℕ)
    → offset + length value ≤ length out
    → take (length value) (drop offset (write_bytes out offset value)) ≡ value
unfolding write_bytes
written out zero value h = take-length_append value (drop (zero + length value) out)
written [] (suc offset) value h = ground arith
written (x ∷ xs) (suc offset) value h =
    ap (λ bytes. take (length value) (drop (suc offset) bytes)) (write_bytes-suc offset x xs value)
    ∙ written xs offset value (omega arith)

take-write_bytes :
    (n offset : ℕ) (out value : List ℕ)
    → n ≤ offset
    → offset + length value ≤ length out
    → take n (write_bytes out offset value) ≡ take n out
unfolding write_bytes
take-write_bytes zero offset out value h fits = refl
take-write_bytes (suc n) zero out value h fits = ground arith
take-write_bytes (suc n) (suc offset) [] value h fits = ground arith
take-write_bytes (suc n) (suc offset) (x ∷ xs) value h fits =
    ap (take (suc n)) (write_bytes-suc offset x xs value)
    ∙ ap (λ bytes. x ∷ bytes) (take-write_bytes n offset xs value (omega arith) (omega arith))

-- What stands before a field is not changed.
pub unchanged :
    (n start offset : ℕ) (out value : List ℕ)
    → start + n ≤ offset
    → offset + length value ≤ length out
    → take n (drop start (write_bytes out offset value)) ≡ take n (drop start out)
unfolding write_bytes
unchanged n zero offset out value h fits = take-write_bytes n offset out value (omega arith) fits
unchanged n (suc start) zero out value h fits = ground arith
unchanged n (suc start) (suc offset) [] value h fits = ground arith
unchanged n (suc start) (suc offset) (x ∷ xs) value h fits =
    ap (λ bytes. take n (drop (suc start) bytes)) (write_bytes-suc offset x xs value)
    ∙ unchanged n start offset xs value (omega arith) (omega arith)

-- Of an array of code units, the loop writes the bytes in one.
write_bytes_join :
    (out : List ℕ) (offset : ℕ) (a b : List ℕ)
    → offset + length a + length b ≤ length out
    → write_bytes (write_bytes out offset a) (offset + length a) b ≡ write_bytes out offset (a ++ b)
unfolding write_bytes
write_bytes_join out zero a b h =
    let rest = drop (0 + length a) out in
    let zero_add : 0 + length a ≡ length a = omega arith in
    let head : take (0 + length a) (a ++ rest) ≡ a =
      ap (λ n. take n (a ++ rest)) zero_add ∙ take-length_append a rest in
    let middle : drop (0 + length a) (a ++ rest) ≡ rest =
      ap (λ n. drop n (a ++ rest)) zero_add ∙ drop-length_append a rest in
    let sizes : 0 + length a + length b ≡ 0 + length (a ++ b) = omega (arith, length-append a b) in
    let tail : drop (0 + length a + length b) (a ++ rest) ≡ drop (0 + length (a ++ b)) out =
      sym (drop-drop (0 + length a) (length b) (a ++ rest))
      ∙ ap (drop (length b)) middle
      ∙ drop-drop (0 + length a) (length b) out
      ∙ ap (λ n. drop n out) sizes in
    ap₂ (λ p q. p ++ b ++ q) head tail
write_bytes_join [] (suc offset) a b h = ground arith
write_bytes_join (x ∷ xs) (suc offset) a b h =
    let next : suc offset + length a ≡ suc (offset + length a) = omega arith in
    ap (λ w. write_bytes w (suc offset + length a) b) (write_bytes-suc offset x xs a)
    ∙ ap (λ n. write_bytes (x ∷ write_bytes xs offset a) n b) next
    ∙ write_bytes-suc (offset + length a) x (write_bytes xs offset a) b
    ∙ ap (λ w. x ∷ w) (write_bytes_join xs offset a b (omega arith))
    ∙ sym (write_bytes-suc offset x xs (a ++ b))

write_bytes_none : (out : List ℕ) (start : ℕ) → write_bytes out start [] ≡ out
unfolding write_bytes
write_bytes_none out start =
    let none_left : start + 0 ≡ start = omega arith in
    ap₂ (λ p n. p ++ drop n out) (append-nil (take start out)) none_left
    ∙ take-append-drop start out

pub write_u16_array-bytes :
    (out : List ℕ) (start : ℕ) (value : List ℕ)
    → start + length (unit_bytes value) ≤ length out
    → write_u16_array out start value ≡ write_bytes out start (unit_bytes value)
unfolding write_u16_array unit_bytes to_le
write_u16_array-bytes out start [] h = sym (write_bytes_none out start)
write_u16_array-bytes out start (unit ∷ value) h =
    let bytes = unit_bytes value in
    let one = to_le 2 unit in
    let size = length-write_bytes out start one (omega arith) in
    let next : start + 2 ≡ start + length one = refl in
    write_u16_array-bytes (write_bytes out start one) (start + 2) value (omega (arith, size))
    ∙ write_bytes_join out start one bytes (omega arith)

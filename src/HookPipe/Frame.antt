-- ===== src/HookPipe/Frame.antt =====
-- src/hook/pipe_client/notification.rs: the frame of a message, an identifier and its arguments. The
-- size of the header is a parameter, since its type is the library's.
use anemone_rs.Base.{
  ℕ, zero, suc, ◌+◌, ◌≤◌, ◌<◌, true, false, Option, none, some, List, [], ◌∷◌, ◌++◌, ◌≡◌, refl, ap,
  sym, ◌∙◌, arith, ltb, leb, if◌then◌else◌, length, take, drop, length-append, length-drop,
  append_assoc, ◌>>=◌, take-length_append, drop-length_append,
}
use anemone_rs.HookPipe.Bytes.{to_le, from_le, read_le, read_u32, length-to_le}

-- One turn of the loop of `parse_rpc_args`, on what is left of the payload.
unfoldable pub next_arg : List ℕ → Option (List ℕ × List ℕ)
next_arg payload =
    if ltb (length payload) 4
    then none
    else let len = read_u32 payload 0 in
      let rest = drop 4 payload in
      if ltb (length rest) len then none else some (take len rest, drop len rest)

-- The loop, with fuel for its turns, each of which takes at least four bytes.
unfoldable pub parse_args : ℕ → List ℕ → Option (List (List ℕ))
parse_args fuel [] = some []
parse_args zero (b ∷ payload) = none
parse_args (suc fuel) (b ∷ payload) =
    next_arg (b ∷ payload) >>= (λ r. parse_args fuel r.1 >>= (λ args. some (r.0 ∷ args)))

unfoldable pub parse_rpc_args : ℕ → List ℕ → Option (ℕ × List (List ℕ))
parse_rpc_args header_size bytes =
    if ltb (length bytes) header_size
    then none
    else let payload_len = read_u32 bytes 4 in
      if ltb (length bytes) (header_size + payload_len)
      then none
      else parse_args payload_len (take payload_len (drop header_size bytes))
        >>= (λ args. some (read_u32 bytes 0, args))

-- The format: the number of bytes of an argument stands before it, and that of the payload before
-- the payload, after the identifier.
unfoldable pub encode_arg : List ℕ → List ℕ
encode_arg a = to_le 4 (length a) ++ a

unfoldable pub encode_args : List (List ℕ) → List ℕ
encode_args [] = []
encode_args (a ∷ args) = encode_arg a ++ encode_args args

unfoldable pub encode_frame : ℕ → List (List ℕ) → List ℕ
encode_frame id args = to_le 4 id ++ to_le 4 (length (encode_args args)) ++ encode_args args

from_le_first :
    (n : ℕ) (rest : List ℕ) → n < 4294967296 → from_le (take 4 (drop 0 (to_le 4 n ++ rest))) ≡ n
unfolding to_le from_le
from_le_first n rest h = omega arith

-- A number of four bytes is read where it stands.
read_u32_at :
    (offset n : ℕ) (bytes rest : List ℕ)
    → n < 4294967296
    → drop offset bytes ≡ to_le 4 n ++ rest
    → read_u32 bytes offset ≡ n
unfolding read_u32 read_le to_le
read_u32_at offset n bytes rest h at =
    let sizes = sym (length-drop offset bytes) ∙ ap length at in
    let enough : offset + 4 ≤ length bytes = omega (arith, sizes) in
    let long : leb (offset + 4) (length bytes) ≡ true = ground arith in
    rw (read_u32, read_le, long) (ap (λ xs. from_le (take 4 xs)) at ∙ from_le_first n rest h)

read_u32-to_le : (n : ℕ) (rest : List ℕ) → n < 4294967296 → read_u32 (to_le 4 n ++ rest) 0 ≡ n
read_u32-to_le n rest h = read_u32_at 0 n (to_le 4 n ++ rest) rest h refl

drop-to_le : (n : ℕ) (rest : List ℕ) → drop 4 (to_le 4 n ++ rest) ≡ rest
unfolding to_le
drop-to_le n rest = refl

length-encode_args :
    (a : List ℕ) (args : List (List ℕ))
    → length (encode_arg a ++ encode_args args) ≡ 4 + length a + length (encode_args args)
unfolding encode_arg
length-encode_args a args = omega (
  arith,
  length-append (to_le 4 (length a) ++ a) (encode_args args),
  length-append (to_le 4 (length a)) a,
  length-to_le 4 (length a),
)

parse_args_none : (fuel : ℕ) → parse_args fuel [] ≡ some []
unfolding parse_args
parse_args_none fuel = refl

next_arg_at :
    (payload : List ℕ) (len : ℕ)
    → 4 ≤ length payload
    → read_u32 payload 0 ≡ len
    → len ≤ length (drop 4 payload)
    → next_arg payload ≡ some (take len (drop 4 payload), drop len (drop 4 payload))
unfolding next_arg
next_arg_at payload len long read within =
    let enough : ltb (length payload) 4 ≡ false = ground arith in
    let fits : ltb (length (drop 4 payload)) len ≡ false = ground arith in
    rw (next_arg, enough, read, fits) refl

next_arg-encode_arg :
    (a rest : List ℕ) → length a < 4294967296 → next_arg (encode_arg a ++ rest) ≡ some (a, rest)
unfolding encode_arg to_le
next_arg-encode_arg a rest h = rw (append_assoc (to_le 4 (length a)) a rest) (
    next_arg_at (to_le 4 (length a) ++ a ++ rest) (length a)
      (omega (arith, length-append (to_le 4 (length a)) (a ++ rest), length-to_le 4 (length a)))
      (read_u32-to_le (length a) (a ++ rest) h)
      (omega (arith, ap length (drop-to_le (length a) (a ++ rest)), length-append a rest))
    ∙ rw (drop-to_le (length a) (a ++ rest), take-length_append a rest, drop-length_append a rest)
        refl)

parse_args_step :
    (fuel : ℕ) (payload a rest : List ℕ)
    → 0 < length payload
    → next_arg payload ≡ some (a, rest)
    → parse_args (suc fuel) payload ≡ (parse_args fuel rest >>= (λ args. some (a ∷ args)))
unfolding parse_args
parse_args_step fuel [] a rest some_left h = ground arith
parse_args_step fuel (b ∷ payload) a rest some_left h = rw (h) refl

parse_args-encode_args :
    (fuel : ℕ) (args : List (List ℕ))
    → length (encode_args args) ≤ fuel
    → length (encode_args args) < 4294967296
    → parse_args fuel (encode_args args) ≡ some args
unfolding encode_args
parse_args-encode_args fuel [] h short = parse_args_none fuel
parse_args-encode_args zero (a ∷ args) h short = ground (arith, length-encode_args a args)
parse_args-encode_args (suc fuel) (a ∷ args) h short =
    let size = length-encode_args a args in
    parse_args_step fuel (encode_arg a ++ encode_args args) a (encode_args args)
      (omega (arith, size)) (next_arg-encode_arg a (encode_args args) (omega (arith, size)))
    ∙ ap (λ o. o >>= (λ rest. some (a ∷ rest)))
        (parse_args-encode_args fuel args (omega (arith, size)) (omega (arith, size)))

parse_rpc_args_at :
    (header_size payload_len : ℕ) (bytes : List ℕ) (args : List (List ℕ))
    → header_size + payload_len ≤ length bytes
    → read_u32 bytes 4 ≡ payload_len
    → parse_args payload_len (take payload_len (drop header_size bytes)) ≡ some args
    → parse_rpc_args header_size bytes ≡ some (read_u32 bytes 0, args)
unfolding parse_rpc_args
parse_rpc_args_at header_size payload_len bytes args long read parsed =
    let header : ltb (length bytes) header_size ≡ false = ground arith in
    let fits : ltb (length bytes) (header_size + payload_len) ≡ false = ground arith in
    rw (parse_rpc_args, header, read, fits, parsed) refl

-- A frame is read as the identifier and the arguments that it was made of, whatever follows it,
-- when the header has eight bytes and the numbers fit in four.
pub parse_rpc_args-encode_frame :
    (header_size id : ℕ) (args : List (List ℕ)) (rest : List ℕ)
    → header_size ≡ 8
    → id < 4294967296
    → length (encode_args args) < 4294967296
    → parse_rpc_args header_size (encode_frame id args ++ rest) ≡ some (id, args)
unfolding encode_frame to_le
parse_rpc_args-encode_frame header_size id args rest size small short =
    let payload = encode_args args in
    let frame = encode_frame id args ++ rest in
    let whole : drop header_size frame ≡ payload ++ rest = ap (λ n. drop n frame) size in
    let taken : take (length payload) (drop header_size frame) ≡ payload =
      rw (whole) (take-length_append payload rest) in
    let long : header_size + length payload ≤ length frame =
      omega (arith, size, length-append payload rest) in
    parse_rpc_args_at header_size (length payload) frame args long
      (read_u32_at 4 (length payload) frame (payload ++ rest) short refl)
      (ap (parse_args (length payload)) taken
        ∙ parse_args-encode_args (length payload) args (omega arith) short)
    ∙ ap (λ n. some (n, args))
        (read_u32_at 0 id frame (to_le 4 (length payload) ++ payload ++ rest) small refl)

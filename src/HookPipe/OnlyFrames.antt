-- ===== src/HookPipe/OnlyFrames.antt =====
-- src/hook/pipe_client/notification.rs: what `parse_rpc_args` accepts is a frame. Of a message that
-- is not one, none is returned.
use anemone_rs.Base.{
  ℕ, zero, suc, ◌+◌, ◌≤◌, true, none, some, List, [], ◌∷◌, ◌++◌, ◌≡◌, refl, ap, ap₂, sym, ◌∙◌,
  arith, ltb, leb, length, take, drop, length-take, length-drop, all-take, all-drop, Bool-cases,
  inl, inr, take-append-drop, append_assoc, ◌>>=◌, bind_some, some_injective, take-length_append,
  drop-drop,
}
use anemone_rs.HookPipe.Bytes.{to_le, read_le, read_u32, to_le-from_le, are_bytes}
use anemone_rs.HookPipe.Frame.{
  next_arg, parse_args, parse_rpc_args, encode_arg, encode_args, encode_frame,
}

-- The four bytes at an offset are those of the number that is read there.
to_le-read_u32 :
    (offset : ℕ) (bytes : List ℕ)
    → offset + 4 ≤ length bytes
    → are_bytes bytes ≡ true
    → to_le 4 (read_u32 bytes offset) ≡ take 4 (drop offset bytes)
unfolding read_u32 read_le are_bytes
to_le-read_u32 offset bytes long h =
    let inside : leb (offset + 4) (length bytes) ≡ true = ground arith in
    rw (read_u32, read_le, inside)
      (to_le-from_le 4 (take 4 (drop offset bytes))
        (all-take _ 4 (drop offset bytes) (all-drop _ offset bytes h))
        (omega (arith, length-take 4 (drop offset bytes), length-drop offset bytes)))

next_arg-some :
    (payload a rest : List ℕ)
    → next_arg payload ≡ some (a, rest)
    → (4 ≤ length payload)
      × (a ≡ take (read_u32 payload 0) (drop 4 payload))
      × (rest ≡ drop (read_u32 payload 0) (drop 4 payload))
      × (read_u32 payload 0 ≤ length (drop 4 payload))
unfolding next_arg
next_arg-some payload a rest h = elim (Bool-cases (ltb (length payload) 4)) [
  | inl early ↦ let refused : next_arg payload ≡ none = rw (next_arg, early) refl in cc
  | inr enough ↦ elim (Bool-cases (ltb (length (drop 4 payload)) (read_u32 payload 0))) [
    | inl over ↦ let refused : next_arg payload ≡ none = rw (next_arg, enough, over) refl in cc
    | inr fits ↦
        let len = read_u32 payload 0 in
        let found : next_arg payload ≡ some (take len (drop 4 payload), drop len (drop 4 payload)) =
          rw (next_arg, enough, fits) refl in
        let same = some_injective (sym h ∙ found) in
        (ground arith, ap (λ r. r.0) same, ap (λ r. r.1) same, ground arith)
  ]
]

encode_arg-next_arg :
    (payload a rest : List ℕ)
    → are_bytes payload ≡ true
    → next_arg payload ≡ some (a, rest)
    → encode_arg a ++ rest ≡ payload
unfolding encode_arg
encode_arg-next_arg payload a rest h e =
    let (long, ea, er, within) = next_arg-some payload a rest e in
    let size : length a ≡ read_u32 payload 0 =
      omega (arith, ap length ea, length-take (read_u32 payload 0) (drop 4 payload)) in
    let head : to_le 4 (length a) ≡ take 4 payload =
      ap (to_le 4) size ∙ to_le-read_u32 0 payload long h in
    let body : a ++ rest ≡ drop 4 payload =
      ap₂ ◌++◌ ea er ∙ take-append-drop (read_u32 payload 0) (drop 4 payload) in
    append_assoc (to_le 4 (length a)) a rest ∙ ap₂ ◌++◌ head body ∙ take-append-drop 4 payload

encode_args-parse_args :
    (fuel : ℕ) (payload : List ℕ) (args : List (List ℕ))
    → are_bytes payload ≡ true
    → parse_args fuel payload ≡ some args
    → encode_args args ≡ payload
unfolding parse_args encode_args are_bytes
encode_args-parse_args fuel [] args h e = ap encode_args (sym (some_injective e))
encode_args-parse_args zero (b ∷ payload) args h e = cc
encode_args-parse_args (suc fuel) (b ∷ payload) args h e =
    let (r, found, e') = bind_some (next_arg (b ∷ payload)) _ e in
    let (others, parsed, e'') = bind_some (parse_args fuel r.1) _ e' in
    let (long, ea, er, within) = next_arg-some (b ∷ payload) (r.0) (r.1) found in
    let bytes : are_bytes (r.1) ≡ true =
      ap are_bytes er
      ∙ all-drop _ (read_u32 (b ∷ payload) 0) (drop 4 (b ∷ payload))
          (all-drop _ 4 (b ∷ payload) h) in
    ap encode_args (sym (some_injective e''))
    ∙ ap (λ o. encode_arg (r.0) ++ o) (encode_args-parse_args fuel (r.1) others bytes parsed)
    ∙ encode_arg-next_arg (b ∷ payload) (r.0) (r.1) h found

parse_rpc_args-some :
    (header_size id : ℕ) (bytes : List ℕ) (args : List (List ℕ))
    → parse_rpc_args header_size bytes ≡ some (id, args)
    → (header_size + read_u32 bytes 4 ≤ length bytes)
      × (id ≡ read_u32 bytes 0)
      × (parse_args (read_u32 bytes 4) (take (read_u32 bytes 4) (drop header_size bytes))
          ≡ some args)
unfolding parse_rpc_args
parse_rpc_args-some header_size id bytes args e =
    elim (Bool-cases (ltb (length bytes) header_size)) [
      | inl early ↦
          let refused : parse_rpc_args header_size bytes ≡ none = rw (parse_rpc_args, early) refl in
          cc
      | inr enough ↦ elim (Bool-cases (ltb (length bytes) (header_size + read_u32 bytes 4))) [
        | inl over ↦
            let refused : parse_rpc_args header_size bytes ≡ none =
              rw (parse_rpc_args, enough, over) refl in
            cc
        | inr fits ↦
            let payload = take (read_u32 bytes 4) (drop header_size bytes) in
            let found : parse_rpc_args header_size bytes ≡ (
                parse_args (read_u32 bytes 4) payload >>= (λ read. some (read_u32 bytes 0, read))) =
              rw (parse_rpc_args, enough, fits) refl in
            let (read, parsed, same) =
              bind_some (parse_args (read_u32 bytes 4) payload) _ (sym found ∙ e) in
            let result = some_injective same in
            (ground arith, sym (ap (λ r. r.0) result), parsed ∙ ap (λ r. some (r.1)) result)
      ]
    ]

frame_start :
    (id : ℕ) (bytes : List ℕ) (args : List (List ℕ))
    → 8 + read_u32 bytes 4 ≤ length bytes
    → are_bytes bytes ≡ true
    → id ≡ read_u32 bytes 0
    → parse_args (read_u32 bytes 4) (take (read_u32 bytes 4) (drop 8 bytes)) ≡ some args
    → encode_frame id args ++ drop (read_u32 bytes 4) (drop 8 bytes) ≡ bytes
unfolding encode_frame are_bytes to_le encode_args
frame_start id bytes args long h same_id parsed =
    let len = read_u32 bytes 4 in
    let payload : encode_args args ≡ take len (drop 8 bytes) =
      encode_args-parse_args len (take len (drop 8 bytes)) args
        (all-take _ len (drop 8 bytes) (all-drop _ 8 bytes h)) parsed in
    let size : length (encode_args args) ≡ len =
      omega (arith, ap length payload, length-take len (drop 8 bytes), length-drop 8 bytes) in
    let first : to_le 4 id ≡ take 4 bytes =
      ap (to_le 4) same_id ∙ to_le-read_u32 0 bytes (omega (arith, long)) h in
    let second : to_le 4 (length (encode_args args)) ≡ take 4 (drop 4 bytes) =
      ap (to_le 4) size ∙ to_le-read_u32 4 bytes (omega (arith, long)) h in
    let rest = drop len (drop 8 bytes) in
    let tail : encode_args args ++ rest ≡ drop 4 (drop 4 bytes) =
      ap (λ xs. xs ++ rest) payload
      ∙ take-append-drop len (drop 8 bytes)
      ∙ sym (drop-drop 4 4 bytes) in
    append_assoc (to_le 4 id) (to_le 4 (length (encode_args args)) ++ encode_args args) rest
    ∙ ap (λ xs. to_le 4 id ++ xs)
        (append_assoc (to_le 4 (length (encode_args args))) (encode_args args) rest
          ∙ ap₂ ◌++◌ second tail
          ∙ take-append-drop 4 (drop 4 bytes))
    ∙ ap (λ xs. xs ++ drop 4 bytes) first
    ∙ take-append-drop 4 bytes

-- A message of bytes from which an identifier and arguments are read starts with the frame that
-- they make, when the header has eight bytes.
pub encode_frame-parse_rpc_args :
    (header_size id : ℕ) (bytes : List ℕ) (args : List (List ℕ))
    → header_size ≡ 8
    → are_bytes bytes ≡ true
    → parse_rpc_args header_size bytes ≡ some (id, args)
    → take (length (encode_frame id args)) bytes ≡ encode_frame id args
encode_frame-parse_rpc_args header_size id bytes args size h e =
    let (long, same_id, parsed) = parse_rpc_args-some header_size id bytes args e in
    let len = read_u32 bytes 4 in
    let at_8 : parse_args len (take len (drop 8 bytes)) ≡ some args =
      ap (λ n. parse_args len (take len (drop n bytes))) (sym size) ∙ parsed in
    let frame = frame_start id bytes args (omega (arith, size, long)) h same_id at_8 in
    ap (take (length (encode_frame id args))) (sym frame)
    ∙ take-length_append (encode_frame id args) (drop len (drop 8 bytes))

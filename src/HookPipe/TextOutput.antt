-- ===== src/HookPipe/TextOutput.antt =====
-- src/hook/pipe_client/notification.rs: the hooked text that `parse_text_output` reads is the one that
-- the bytes of its header and its payload hold.
use anemone_rs.Base.{
  ℕ, zero, suc, ◌+◌, ◌-◌, ◌≤◌, ◌<◌, true, false, some, List, [], ◌∷◌, ◌++◌, ◌≡◌, refl, ap, sym, ◌∙◌,
  arith, ltb, leb, length, length-append, take, drop, min, all, from_utf8_lossy, drop-length_append,
}
use anemone_rs.HookPipe.Bytes.{to_le, read_u32, read_u64, length-to_le}
use anemone_rs.HookPipe.Layout.{HookLayout, TextLayout}
use anemone_rs.HookPipe.Notification.{until_nul, field, read_fixed_utf8, parse_text_output}
use anemone_rs.HookPipe.Units.{until_nul_stop}
use anemone_rs.HookPipe.Reads.{held_within, u64_held, u32_held}
use anemone_rs.HookPipe.Sent.{TextSent, Holds, HeaderHolds, text_seen}

take_within : (n : ℕ) (xs ys : List ℕ) → n ≤ length xs → take n (xs ++ ys) ≡ take n xs
take_within zero xs ys h = refl
take_within (suc n) [] ys h = ground arith
take_within (suc n) (x ∷ xs) ys h = ap (λ zs. x ∷ zs) (take_within n xs ys (omega arith))

slice_within :
    (n offset : ℕ) (xs ys : List ℕ)
    → offset + n ≤ length xs
    → take n (drop offset (xs ++ ys)) ≡ take n (drop offset xs)
slice_within n zero xs ys h = take_within n xs ys (omega arith)
slice_within n (suc offset) [] ys h = ground arith
slice_within n (suc offset) (x ∷ xs) ys h = slice_within n offset xs ys (omega arith)

-- What a header holds, the header and what follows it hold.
Holds-append :
    (header payload value : List ℕ) (offset : ℕ)
    → 0 < length value
    → Holds header offset value
    → Holds (header ++ payload) offset value
Holds-append header payload value offset some_bytes h =
    let (within, here) = held_within header value offset (length value) refl some_bytes h in
    slice_within (length value) offset header payload within ∙ h

u64_sent :
    (header payload : List ℕ) (offset n : ℕ)
    → (n < 18446744073709551616) × Holds header offset (to_le 8 n)
    → read_u64 (header ++ payload) offset ≡ n
u64_sent header payload offset n (small, h) =
    u64_held (header ++ payload) offset n small
      (Holds-append header payload (to_le 8 n) offset (omega (arith, length-to_le 8 n)) h)

u32_sent :
    (header payload : List ℕ) (offset n : ℕ)
    → (n < 4294967296) × Holds header offset (to_le 4 n)
    → read_u32 (header ++ payload) offset ≡ n
u32_sent header payload offset n (small, h) =
    u32_held (header ++ payload) offset n small
      (Holds-append header payload (to_le 4 n) offset (omega (arith, length-to_le 4 n)) h)

field_held :
    (bytes value : List ℕ) (offset len : ℕ)
    → length value ≡ len
    → 0 < len
    → Holds bytes offset value
    → field bytes offset len ≡ value
field_held bytes value offset len size some_bytes h =
    let (within, here) = held_within bytes value offset len size some_bytes h in
    let start : min offset (min (offset + len) (length bytes)) ≡ offset = omega (arith, within) in
    let count : min (offset + len) (length bytes) - min offset (min (offset + len) (length bytes))
        ≡ len =
      omega (arith, within) in
    rw (count, start) here

name_sent :
    (bytes name padding : List ℕ) (offset len : ℕ)
    → all (λ b. ltb 0 b) name ≡ true
    → length (name ++ 0 ∷ padding) ≡ len
    → Holds bytes offset (name ++ 0 ∷ padding)
    → read_fixed_utf8 bytes offset len ≡ from_utf8_lossy name
unfolding read_fixed_utf8
name_sent bytes name padding offset len free size h =
    let some_bytes : 0 < len = omega (arith, size, length-append name (0 ∷ padding)) in
    ap (λ xs. from_utf8_lossy (until_nul xs))
      (field_held bytes (name ++ 0 ∷ padding) offset len size some_bytes h)
    ∙ ap from_utf8_lossy (until_nul_stop name padding free)

pub parse_text_output-sent :
    (t : TextLayout) (h : HookLayout) (n : TextSent) (header : List ℕ)
    → HeaderHolds t h n header
    → parse_text_output t h (header ++ n.payload) ≡ some (text_seen n)
unfolding parse_text_output text_seen
parse_text_output-sent t h n header holds =
    let long : leb (length (header ++ n.payload)) t.header_len ≡ false =
      ground (arith, length-append header n.payload, holds.size, holds.some_payload) in
    let rest : drop t.header_len (header ++ n.payload) ≡ n.payload =
      ap (λ k. drop k (header ++ n.payload)) (sym holds.size)
      ∙ drop-length_append header n.payload in
    let some_name : 0 < length (n.hook_name ++ 0 ∷ holds.padding) =
      omega (arith, length-append n.hook_name (0 ∷ holds.padding)) in
    rw
      (
        long,
        rest,
        u32_sent header n.payload t.at_tp n.process_id holds.process_id,
        u64_sent header n.payload (t.at_tp + t.at_addr) n.thread_addr holds.thread_addr,
        u64_sent header n.payload (t.at_tp + t.at_ctx) n.thread_ctx holds.thread_ctx,
        u64_sent header n.payload (t.at_tp + t.at_ctx2) n.thread_ctx2 holds.thread_ctx2,
        u64_sent header n.payload (t.at_hp + h.at_address) n.hook_address holds.hook_address,
        u64_sent header n.payload t.at_kind n.hook_type_flags holds.hook_type_flags,
        u32_sent header n.payload (t.at_hp + h.at_detected_codepage) n.detected_codepage
            holds.detected_codepage,
        name_sent (header ++ n.payload) n.hook_name holds.padding (t.at_hp + h.at_name) h.name_len
            holds.name_bytes holds.name_size
            (Holds-append header n.payload (n.hook_name ++ 0 ∷ holds.padding) (t.at_hp + h.at_name)
              some_name holds.hook_name),
      )
      refl

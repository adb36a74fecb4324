-- ===== src/HookPipe/Written.antt =====
-- src/hook/pipe_client/command.rs: the image of a struct holds each field at its place.
use anemone_rs.Base.{
  ℕ, zero, suc, ◌+◌, ◌≤◌, true, some, List, [], ◌∷◌, ◌≡◌, refl, ap, sym, ◌∙◌, arith, length, take,
  map, drop, get_elem?,
}
use anemone_rs.HookPipe.Bytes.{
  to_le, of_signed, zeros, unit_bytes, write_bytes, write_u16_array, write_i16, write_i32,
  write_u32, write_u64,
}
use anemone_rs.HookPipe.Layout.{RawHookParam, HookLayout, SearchParam, SearchLayout}
use anemone_rs.HookPipe.Command.{serialize_raw_hook_param, serialize_search_param}
use anemone_rs.HookPipe.Writes.{length-write_bytes, write_u16_array-bytes}
use anemone_rs.HookPipe.Fields.{length-write_all, write_all, in_order, in_order_tail, held}

-- A field that is written: bytes, or an array of code units.
pub data Wire : Type 0 where
  bytes_at : ℕ → List ℕ → Wire
  units_at : ℕ → List ℕ → Wire

-- Where it stands and its bytes.
unfoldable pub wire_field : Wire → ℕ × List ℕ
wire_field (bytes_at offset value) = (offset, value)
wire_field (units_at offset value) = (offset, unit_bytes value)

unfoldable pub write_wire : List ℕ → Wire → List ℕ
write_wire out (bytes_at offset value) = write_bytes out offset value
write_wire out (units_at offset value) = write_u16_array out offset value

unfoldable pub write_wires : List ℕ → List Wire → List ℕ
write_wires out [] = out
write_wires out (w ∷ wires) = write_wires (write_wire out w) wires

-- The fields of the two structs, by the order in which they are written.
unfoldable pub hook_wires : HookLayout → RawHookParam → List Wire
hook_wires at v =
    bytes_at at.at_address (to_le 8 v.address)
    ∷ bytes_at at.at_offset (to_le 4 (of_signed 2147483648 v.offset))
    ∷ bytes_at at.at_index (to_le 4 (of_signed 2147483648 v.index))
    ∷ bytes_at at.at_split (to_le 4 (of_signed 2147483648 v.split))
    ∷ bytes_at at.at_split_index (to_le 4 (of_signed 2147483648 v.split_index))
    ∷ units_at at.at_module v.module_units
    ∷ bytes_at at.at_function v.function
    ∷ bytes_at at.at_hook_type (to_le 8 v.hook_type)
    ∷ bytes_at at.at_codepage (to_le 4 v.codepage)
    ∷ bytes_at at.at_length_offset (to_le 2 (of_signed 32768 v.length_offset))
    ∷ bytes_at at.at_padding (to_le 8 v.padding)
    ∷ bytes_at at.at_user_value (to_le 8 v.user_value)
    ∷ bytes_at at.at_text_fun (to_le 8 v.text_fun)
    ∷ bytes_at at.at_filter_fun (to_le 8 v.filter_fun)
    ∷ bytes_at at.at_embed_fun (to_le 8 v.embed_fun)
    ∷ bytes_at at.at_embed_hook_font (to_le 8 v.embed_hook_font)
    ∷ bytes_at at.at_line_separator (to_le 8 v.line_separator)
    ∷ bytes_at at.at_name v.name
    ∷ units_at at.at_hookcode v.hookcode
    ∷ bytes_at at.at_detected_codepage (to_le 4 v.detected_codepage)
    ∷ bytes_at at.at_emu_addr (to_le 4 v.emu_addr)
    ∷ bytes_at at.at_jittype (to_le 4 v.jittype)
    ∷ []

unfoldable pub search_wires : SearchLayout → SearchParam → List Wire
search_wires at v =
    bytes_at at.at_pattern v.pattern
    ∷ bytes_at at.at_address_method (to_le 4 (of_signed 2147483648 v.address_method))
    ∷ bytes_at at.at_search_method (to_le 4 (of_signed 2147483648 v.search_method))
    ∷ bytes_at at.at_length (to_le 4 (of_signed 2147483648 v.search_length))
    ∷ bytes_at at.at_offset (to_le 4 (of_signed 2147483648 v.offset))
    ∷ bytes_at at.at_search_time_ms (to_le 4 (of_signed 2147483648 v.search_time_ms))
    ∷ bytes_at at.at_max_records (to_le 4 (of_signed 2147483648 v.max_records))
    ∷ bytes_at at.at_codepage (to_le 4 (of_signed 2147483648 v.codepage))
    ∷ bytes_at at.at_padding (to_le 8 v.padding)
    ∷ bytes_at at.at_min_address (to_le 8 v.min_address)
    ∷ bytes_at at.at_max_address (to_le 8 v.max_address)
    ∷ units_at at.at_boundary_module v.boundary_module
    ∷ units_at at.at_export_module v.export_module
    ∷ units_at at.at_text v.text_units
    ∷ bytes_at at.at_is_jit_hook (v.is_jit_hook ∷ [])
    ∷ units_at at.at_share_mem_name v.share_mem_name
    ∷ bytes_at at.at_share_mem_size (to_le 8 v.share_mem_size)
    ∷ []

write_wire-field :
    (out : List ℕ) (w : Wire)
    → (let f = wire_field w in f.0 + length (f.1)) ≤ length out
    → write_wire out w ≡ write_bytes out ((wire_field w).0) ((wire_field w).1)
unfolding write_wire wire_field
write_wire-field out (bytes_at offset value) h = refl
write_wire-field out (units_at offset value) h = write_u16_array-bytes out offset value h

write_wires-fields :
    (from size : ℕ) (wires : List Wire) (out : List ℕ)
    → in_order from size (map wire_field wires) ≡ true
    → size ≡ length out
    → write_wires out wires ≡ write_all out (map wire_field wires)
unfolding write_wires write_all
write_wires-fields from size [] out order len = refl
write_wires-fields from size (w ∷ wires) out order len =
    let f = wire_field w in
    let (later, rest, fits) = in_order_tail from size f (map wire_field wires) order in
    let inside : f.0 + length (f.1) ≤ length out = omega (arith, fits, len) in
    ap (λ bytes. write_wires bytes wires) (write_wire-field out w inside)
    ∙ write_wires-fields (f.0 + length (f.1)) size wires (write_bytes out (f.0) (f.1)) rest
        (len ∙ sym (length-write_bytes out (f.0) (f.1) inside))

length-zeros : (n : ℕ) → n ≡ length (zeros n)
unfolding zeros
length-zeros zero = refl
length-zeros (suc n) = ap suc (length-zeros n)

-- What is written on zeros holds each field where it stands.
image-held :
    (i size : ℕ) (wires : List Wire) (f : ℕ × List ℕ)
    → in_order 0 size (map wire_field wires) ≡ true
    → get_elem? (map wire_field wires) i ≡ some f
    → take (length (f.1)) (drop (f.0) (write_wires (zeros size) wires)) ≡ f.1
image-held i size wires f order h =
    ap (λ bytes. take (length (f.1)) (drop (f.0) bytes))
      (write_wires-fields 0 size wires (zeros size) order (length-zeros size))
    ∙ held i 0 size (map wire_field wires) (zeros size) f order (length-zeros size) h

-- The image of a hook holds the bytes of each of its fields at the field's place, when the fields
-- stand in the order in which they are written and do not overlap.
pub serialize_raw_hook_param-held :
    (i : ℕ) (at : HookLayout) (v : RawHookParam) (f : ℕ × List ℕ)
    → in_order 0 at.size (map wire_field (hook_wires at v)) ≡ true
    → get_elem? (map wire_field (hook_wires at v)) i ≡ some f
    → take (length (f.1)) (drop (f.0) (serialize_raw_hook_param at v)) ≡ f.1
unfolding serialize_raw_hook_param write_wires write_wire hook_wires write_u64 write_u32 write_i32
    write_i16
serialize_raw_hook_param-held i at v f order h = image-held i at.size (hook_wires at v) f order h

-- The image of a search holds the bytes of each of its fields at the field's place, when the fields
-- stand in the order in which they are written and do not overlap.
pub serialize_search_param-held :
    (i : ℕ) (at : SearchLayout) (v : SearchParam) (f : ℕ × List ℕ)
    → in_order 0 at.size (map wire_field (search_wires at v)) ≡ true
    → get_elem? (map wire_field (search_wires at v)) i ≡ some f
    → take (length (f.1)) (drop (f.0) (serialize_search_param at v)) ≡ f.1
unfolding serialize_search_param write_wires write_wire search_wires write_u64 write_u32 write_i32
    write_i16
serialize_search_param-held i at v f order h = image-held i at.size (search_wires at v) f order h

-- The image of a hook is as long as the struct.
pub length-serialize_raw_hook_param :
    (at : HookLayout) (v : RawHookParam)
    → in_order 0 at.size (map wire_field (hook_wires at v)) ≡ true
    → length (serialize_raw_hook_param at v) ≡ at.size
unfolding serialize_raw_hook_param write_wires write_wire hook_wires write_u64 write_u32 write_i32
    write_i16
length-serialize_raw_hook_param at v order =
    ap length
      (write_wires-fields 0 at.size (hook_wires at v) (zeros at.size) order (length-zeros at.size))
    ∙ length-write_all 0 at.size (map wire_field (hook_wires at v)) (zeros at.size) order
        (length-zeros at.size)

-- ===== src/HookPipe/Command.antt =====
-- src/hook/pipe_client/command.rs: the commands that the program sends to the injected library. The
-- frame is the library's, of which `rpc_frame` is a parameter.
use anemone_rs.Base.{ℕ, ◌-◌, pos, Option, none, some, List, [], ◌∷◌, take, Text, encode_utf16}
use anemone_rs.HookPipe.Bytes.{
  to_le, zeros, write_bytes, write_u16_array, write_i16, write_i32, write_u32, write_u64,
}
use anemone_rs.HookPipe.Layout.{RawHookParam, HookLayout, SearchParam, SearchLayout}

unfoldable pub serialize_raw_hook_param : HookLayout → RawHookParam → List ℕ
serialize_raw_hook_param at v =
    let b1 = write_u64 (zeros at.size) at.at_address v.address in
    let b2 = write_i32 b1 at.at_offset v.offset in
    let b3 = write_i32 b2 at.at_index v.index in
    let b4 = write_i32 b3 at.at_split v.split in
    let b5 = write_i32 b4 at.at_split_index v.split_index in
    let b6 = write_u16_array b5 at.at_module v.module_units in
    let b7 = write_bytes b6 at.at_function v.function in
    let b8 = write_u64 b7 at.at_hook_type v.hook_type in
    let b9 = write_u32 b8 at.at_codepage v.codepage in
    let b10 = write_i16 b9 at.at_length_offset v.length_offset in
    let b11 = write_u64 b10 at.at_padding v.padding in
    let b12 = write_u64 b11 at.at_user_value v.user_value in
    let b13 = write_u64 b12 at.at_text_fun v.text_fun in
    let b14 = write_u64 b13 at.at_filter_fun v.filter_fun in
    let b15 = write_u64 b14 at.at_embed_fun v.embed_fun in
    let b16 = write_u64 b15 at.at_embed_hook_font v.embed_hook_font in
    let b17 = write_u64 b16 at.at_line_separator v.line_separator in
    let b18 = write_bytes b17 at.at_name v.name in
    let b19 = write_u16_array b18 at.at_hookcode v.hookcode in
    let b20 = write_u32 b19 at.at_detected_codepage v.detected_codepage in
    let b21 = write_u32 b20 at.at_emu_addr v.emu_addr in
    let b22 = write_u32 b21 at.at_jittype v.jittype in b22

unfoldable pub serialize_search_param : SearchLayout → SearchParam → List ℕ
serialize_search_param at v =
    let b1 = write_bytes (zeros at.size) at.at_pattern v.pattern in
    let b2 = write_i32 b1 at.at_address_method v.address_method in
    let b3 = write_i32 b2 at.at_search_method v.search_method in
    let b4 = write_i32 b3 at.at_length v.search_length in
    let b5 = write_i32 b4 at.at_offset v.offset in
    let b6 = write_i32 b5 at.at_search_time_ms v.search_time_ms in
    let b7 = write_i32 b6 at.at_max_records v.max_records in
    let b8 = write_i32 b7 at.at_codepage v.codepage in
    let b9 = write_u64 b8 at.at_padding v.padding in
    let b10 = write_u64 b9 at.at_min_address v.min_address in
    let b11 = write_u64 b10 at.at_max_address v.max_address in
    let b12 = write_u16_array b11 at.at_boundary_module v.boundary_module in
    let b13 = write_u16_array b12 at.at_export_module v.export_module in
    let b14 = write_u16_array b13 at.at_text v.text_units in
    let b15 = write_bytes b14 at.at_is_jit_hook (v.is_jit_hook ∷ []) in
    let b16 = write_u16_array b15 at.at_share_mem_name v.share_mem_name in
    let b17 = write_u64 b16 at.at_share_mem_size v.share_mem_size in b17

abbrev pub frame_or_empty : Option (List ℕ) → List ℕ
frame_or_empty none = []
frame_or_empty (some frame) = frame

-- `sp.text[..units.len()].copy_from_slice(&units)`.
abbrev pub write_units : List ℕ → List ℕ → List ℕ
write_units out units = write_bytes out 0 units

-- A frame that the library refuses is logged and sent as an empty one.
unfoldable pub frame_or_log : (ℕ → List (List ℕ) → Option (List ℕ)) → ℕ → List (List ℕ) → List ℕ
frame_or_log rpc_frame id args = frame_or_empty (rpc_frame id args)

unfoldable pub build_new_hook :
    (ℕ → List (List ℕ) → Option (List ℕ)) → ℕ → HookLayout → RawHookParam → List ℕ
build_new_hook rpc_frame new_hook at hp =
    frame_or_log rpc_frame new_hook (serialize_raw_hook_param at hp ∷ [])

unfoldable pub build_remove_hook : (ℕ → List (List ℕ) → Option (List ℕ)) → ℕ → ℕ → List ℕ
build_remove_hook rpc_frame remove_hook address =
    frame_or_log rpc_frame remove_hook (to_le 8 address ∷ [])

unfoldable pub build_find_hook :
    (ℕ → List (List ℕ) → Option (List ℕ)) → ℕ → SearchLayout → SearchParam → List ℕ
build_find_hook rpc_frame find_hook at sp =
    frame_or_log rpc_frame find_hook (serialize_search_param at sp ∷ [])

-- `zeroed` is the value of which every byte is zero.
unfoldable pub build_text_search_param : SearchLayout → SearchParam → Text → SearchParam
build_text_search_param at zeroed text = record zeroed {
  search_time_ms = pos 30000;
  max_records = pos 20;
  codepage = pos 932;
  text_units = write_units zeroed.text_units (take (at.pattern_size - 1) (encode_utf16 text));
}

unfoldable pub build_general_search_param : SearchParam → SearchParam
build_general_search_param zeroed = record zeroed {
  search_time_ms = pos 30000;
  max_records = pos 50;
  codepage = pos 932;
}

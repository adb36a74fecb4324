-- ===== src/HookPipe/Tests.antt =====
-- Runs of src/hook/pipe_client/notification.rs and command.rs, and the theorems at these runs.
use anemone_rs.Base.{
  ℕ, pos, negsuc, some, List, [], ◌∷◌, ◌++◌, ◌≡◌, refl, arith, length, take, drop,
}
use anemone_rs.HookPipe.Bytes.{
  write_u32, write_u64, write_bytes, zeros, to_le, read_u32, read_le, from_le, are_bytes,
  unit_bytes, of_signed,
}
use anemone_rs.HookPipe.Frame
use anemone_rs.HookPipe.Frame.{
  next_arg, parse_args, parse_rpc_args, encode_arg, encode_args, encode_frame,
}
use anemone_rs.HookPipe.OnlyFrames
use anemone_rs.HookPipe.Layout.{
  RawHookParam, HookLayout, SearchParam, SearchLayout, TextLayout, RpcNames,
}
use anemone_rs.HookPipe.Notification.{parse_notification, read_fixed_utf16, parse_found_hook_args}
use anemone_rs.HookPipe.Sent.{
  Sent, TextSent, HeaderHolds, sent_text, sent_id, sent_args, seen, rpc_differ, no_repeat,
}
use anemone_rs.HookPipe.Delivered
use anemone_rs.HookPipe.Command.{serialize_raw_hook_param, serialize_search_param}
use anemone_rs.HookPipe.Fields.{in_order}
use anemone_rs.HookPipe.Written
use anemone_rs.HookPipe.Written.{wire_field, hook_wires, search_wires}
use anemone_rs.HookPipe.Reads.{signed_fits}
use anemone_rs.HookPipe.RoundTrip
use anemone_rs.HookPipe.FieldReads.{ParamFits}
use anemone_rs.HookPipe.RoundTrip.{carried}

-- The payload of two arguments, of which the second is empty.
frame_run :
    encode_frame 7 ((b'o' ∷ b'k' ∷ []) ∷ [] ∷ [])
    ≡ 7 ∷ 0 ∷ 0 ∷ 0 ∷ 10 ∷ 0 ∷ 0 ∷ 0 ∷ 2 ∷ 0 ∷ 0 ∷ 0 ∷ b'o' ∷ b'k' ∷ 0 ∷ 0 ∷ 0 ∷ 0 ∷ []
unfolding encode_frame encode_args encode_arg to_le
frame_run = refl

parse_rpc_args-encode_frame_example :
    parse_rpc_args 8 (encode_frame 7 ((b'o' ∷ b'k' ∷ []) ∷ [] ∷ []) ++ 255 ∷ [])
    ≡ some (7, (b'o' ∷ b'k' ∷ []) ∷ [] ∷ [])
unfolding encode_args encode_arg to_le
parse_rpc_args-encode_frame_example =
    Frame.parse_rpc_args-encode_frame 8 7 ((b'o' ∷ b'k' ∷ []) ∷ [] ∷ []) (255 ∷ []) refl
      (omega arith) (omega arith)

abbrev message : List ℕ
message = 9 ∷ 0 ∷ 0 ∷ 0 ∷ 5 ∷ 0 ∷ 0 ∷ 0 ∷ 1 ∷ 0 ∷ 0 ∷ 0 ∷ 42 ∷ 99 ∷ []

message_run : parse_rpc_args 8 message ≡ some (9, (42 ∷ []) ∷ [])
unfolding parse_rpc_args parse_args next_arg read_u32 read_le from_le
message_run = refl

encode_frame-parse_rpc_args_example :
    take (length (encode_frame 9 ((42 ∷ []) ∷ []))) message ≡ encode_frame 9 ((42 ∷ []) ∷ [])
unfolding are_bytes
encode_frame-parse_rpc_args_example =
    OnlyFrames.encode_frame-parse_rpc_args 8 9 message ((42 ∷ []) ∷ []) refl refl message_run

abbrev rpc : RpcNames
rpc = record {
  header_size = 8;
  output_text = 1;
  notify_text = 2;
  notify_text_w = 3;
  notify_hook_found = 4;
  notify_hook_removed = 5;
  notify_hook_inserting = 6;
  notify_engine_detected = 7;
  console = 0;
}

abbrev text_layout : TextLayout
text_layout = record {
  header_len = 157;
  at_tp = 0;
  at_hp = 28;
  at_kind = 149;
  at_addr = 4;
  at_ctx = 12;
  at_ctx2 = 20;
}

abbrev layout : HookLayout
layout = record {
  size = 121;
  at_address = 0;
  at_offset = 8;
  at_index = 12;
  at_split = 16;
  at_split_index = 20;
  at_module = 24;
  at_function = 28;
  at_hook_type = 30;
  at_codepage = 38;
  at_length_offset = 42;
  at_padding = 44;
  at_user_value = 52;
  at_text_fun = 60;
  at_filter_fun = 68;
  at_embed_fun = 76;
  at_embed_hook_font = 84;
  at_line_separator = 92;
  at_name = 100;
  at_hookcode = 103;
  at_detected_codepage = 107;
  at_emu_addr = 111;
  at_jittype = 115;
  module_len = 2;
  function_len = 2;
  name_len = 3;
  hookcode_len = 2;
}

abbrev param : RawHookParam
param = record {
  address = 4660;
  offset = negsuc 3;
  index = pos 1;
  split = pos 0;
  split_index = pos 0;
  module_units = b'm' ∷ 0 ∷ [];
  function = b'f' ∷ 0 ∷ [];
  hook_type = 7;
  codepage = 932;
  length_offset = negsuc 0;
  padding = 7;
  user_value = 7;
  text_fun = 7;
  filter_fun = 7;
  embed_fun = 7;
  embed_hook_font = 7;
  line_separator = 7;
  name = b'n' ∷ b'm' ∷ 0 ∷ [];
  hookcode = b'H' ∷ 0 ∷ [];
  detected_codepage = 932;
  emu_addr = 932;
  jittype = 932;
}

-- The hook at 4660, with the name "nm", gives the byte "a".
abbrev hooked : TextSent
hooked = record {
  process_id = 7;
  thread_addr = 4660;
  thread_ctx = 1;
  thread_ctx2 = 2;
  hook_address = 4660;
  hook_type_flags = 3;
  detected_codepage = 932;
  hook_name = b'n' ∷ b'm' ∷ [];
  payload = b'a' ∷ [];
}

abbrev hooked_header : List ℕ
hooked_header =
    write_u32
      (write_bytes
        (write_u64
          (write_u64
            (write_u64 (write_u64 (write_u64 (write_u32 (zeros 157) 0 7) 4 4660) 12 1) 20 2) 28
            4660)
          149 3)
        128 (b'n' ∷ b'm' ∷ 0 ∷ []))
      135 932

hooked-HeaderHolds : HeaderHolds text_layout layout hooked hooked_header
unfolding write_u32 write_u64 write_bytes zeros to_le
hooked-HeaderHolds = record {
  size = refl;
  some_payload = omega arith;
  process_id = (omega arith, refl);
  thread_addr = (omega arith, refl);
  thread_ctx = (omega arith, refl);
  thread_ctx2 = (omega arith, refl);
  hook_address = (omega arith, refl);
  hook_type_flags = (omega arith, refl);
  detected_codepage = (omega arith, refl);
  name_bytes = refl;
  padding = [];
  name_size = refl;
  hook_name = refl;
}

abbrev notified : Sent
notified = sent_text hooked hooked_header

parse_notification-encode_frame_example :
    parse_notification rpc text_layout layout param
      (encode_frame (sent_id rpc notified) (sent_args layout notified) ++ [])
    ≡ some (seen rpc param notified)
unfolding rpc_differ no_repeat sent_id sent_args encode_args encode_arg to_le write_u32 write_u64
    write_bytes zeros
parse_notification-encode_frame_example =
    Delivered.parse_notification-encode_frame rpc text_layout layout param notified [] refl refl
      hooked-HeaderHolds (omega arith) (omega arith)

param-ParamFits : ParamFits layout param
unfolding signed_fits
param-ParamFits = record {
  address_fits = omega arith;
  offset_fits = refl;
  index_fits = refl;
  split_fits = refl;
  split_index_fits = refl;
  module_units_fits = (refl, refl);
  function_fits = refl;
  hook_type_fits = omega arith;
  codepage_fits = omega arith;
  length_offset_fits = refl;
  padding_fits = omega arith;
  user_value_fits = omega arith;
  line_separator_fits = omega arith;
  name_fits = refl;
  hookcode_fits = (refl, refl);
  detected_codepage_fits = omega arith;
  emu_addr_fits = omega arith;
}

parse_found_hook_args-serialize_example :
    parse_found_hook_args layout param
      (serialize_raw_hook_param layout param ∷ (b'a' ∷ 0 ∷ []) ∷ [])
    ≡ some (record {
      hook_type_flags = param.hook_type;
      hook_address = param.address;
      hook_param = carried param param;
      text = read_fixed_utf16 (b'a' ∷ 0 ∷ []) 0 1;
    })
unfolding in_order wire_field hook_wires to_le unit_bytes of_signed
parse_found_hook_args-serialize_example =
    RoundTrip.parse_found_hook_args-serialize layout param param (b'a' ∷ 0 ∷ []) param-ParamFits
      refl

abbrev search_layout : SearchLayout
search_layout = record {
  size = 78;
  pattern_size = 2;
  at_pattern = 0;
  at_address_method = 4;
  at_search_method = 8;
  at_length = 12;
  at_offset = 16;
  at_search_time_ms = 20;
  at_max_records = 24;
  at_codepage = 28;
  at_padding = 32;
  at_min_address = 40;
  at_max_address = 48;
  at_boundary_module = 56;
  at_export_module = 58;
  at_text = 60;
  at_is_jit_hook = 64;
  at_share_mem_name = 65;
  at_share_mem_size = 67;
}

abbrev search : SearchParam
search = record {
  pattern = 0 ∷ 0 ∷ 0 ∷ 0 ∷ [];
  address_method = pos 2;
  search_method = pos 2;
  search_length = pos 2;
  offset = pos 2;
  search_time_ms = pos 30000;
  max_records = pos 2;
  codepage = pos 2;
  padding = 7;
  min_address = 7;
  max_address = 7;
  boundary_module = 0 ∷ [];
  export_module = 0 ∷ [];
  text_units = 12354 ∷ 0 ∷ [];
  is_jit_hook = 0;
  share_mem_name = 0 ∷ [];
  share_mem_size = 7;
}

-- The sixth field is the time of the search.
serialize_search_param-held_example :
    take 4 (drop 20 (serialize_search_param search_layout search)) ≡ 48 ∷ 117 ∷ 0 ∷ 0 ∷ []
unfolding in_order wire_field search_wires to_le unit_bytes of_signed
serialize_search_param-held_example =
    Written.serialize_search_param-held 5 search_layout search (20, 48 ∷ 117 ∷ 0 ∷ 0 ∷ []) refl refl

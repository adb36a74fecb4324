-- ===== src/HookPipe/Notification.antt =====
-- src/hook/pipe_client/notification.rs: the notifications that the injected library sends.
use anemone_rs.Base.{
  ℕ, ◌+◌, ◌-◌, ◌*◌, ◌/◌, Bool, not, Option, none, some, List, [], ◌∷◌, ltb, leb, ◌==◌,
  if◌then◌else◌, length, take, drop, min, Text, get_elem?, ◌>>=◌, from_utf8_lossy, from_utf16_lossy,
}
use anemone_rs.HookPipe.Bytes.{
  read_u32, read_u64, read_i16, read_i32, read_u8_array, read_u16_array, units,
}
use anemone_rs.HookPipe.Frame.{parse_rpc_args}
use anemone_rs.HookPipe.Layout.{RawHookParam, HookLayout, TextLayout, RpcNames}

pub record TextNotification : Type 0 where
  pub process_id : ℕ
  pub thread_addr : ℕ
  pub thread_ctx : ℕ
  pub thread_ctx2 : ℕ
  pub hook_address : ℕ
  pub hook_type_flags : ℕ
  pub detected_codepage : ℕ
  pub hook_name : Text
  pub payload : List ℕ

pub record FoundHook : Type 0 where
  pub hook_type_flags : ℕ
  pub hook_address : ℕ
  pub hook_param : RawHookParam
  pub text : Text

pub data Notification : Type 0 where
  text : TextNotification → Notification
  engine_detected : Text → Notification
  found_hook : FoundHook → Notification
  removed : ℕ → Notification
  inserting : ℕ → Text → Notification
  info : Bool → Text → Notification
  ignored : ℕ → Notification

-- `take_while(|unit| *unit != 0)`, which is also where `position` of a zero stops.
unfoldable pub until_nul : List ℕ → List ℕ
until_nul [] = []
until_nul (unit ∷ rest) = if unit == 0 then [] else unit ∷ until_nul rest

-- `&bytes[offset.min(end)..end]` with `end = (offset + len).min(bytes.len())`.
abbrev pub field : List ℕ → ℕ → ℕ → List ℕ
field bytes offset len =
    let end = min (offset + len) (length bytes) in
    take (end - min offset end) (drop (min offset end) bytes)

unfoldable pub read_fixed_utf16 : List ℕ → ℕ → ℕ → Text
read_fixed_utf16 bytes offset count =
    from_utf16_lossy (until_nul (units (field bytes offset (count * 2))))

unfoldable pub read_fixed_utf8 : List ℕ → ℕ → ℕ → Text
read_fixed_utf8 bytes offset len = from_utf8_lossy (until_nul (field bytes offset len))

unfoldable pub parse_text_output : TextLayout → HookLayout → List ℕ → Option TextNotification
parse_text_output t h bytes =
    if leb (length bytes) t.header_len
    then none
    else some (record {
      process_id = read_u32 bytes t.at_tp;
      thread_addr = read_u64 bytes (t.at_tp + t.at_addr);
      thread_ctx = read_u64 bytes (t.at_tp + t.at_ctx);
      thread_ctx2 = read_u64 bytes (t.at_tp + t.at_ctx2);
      hook_address = read_u64 bytes (t.at_hp + h.at_address);
      hook_type_flags = read_u64 bytes t.at_kind;
      detected_codepage = read_u32 bytes (t.at_hp + h.at_detected_codepage);
      hook_name = read_fixed_utf8 bytes (t.at_hp + h.at_name) h.name_len;
      payload = drop t.header_len bytes;
    })

-- The fields that mean something in this process, on top of the default.
unfoldable pub hook_param_of : HookLayout → RawHookParam → List ℕ → RawHookParam
hook_param_of h default_param hp = record default_param {
  address = read_u64 hp h.at_address;
  offset = read_i32 hp h.at_offset;
  index = read_i32 hp h.at_index;
  split = read_i32 hp h.at_split;
  split_index = read_i32 hp h.at_split_index;
  module_units = read_u16_array h.module_len hp h.at_module;
  function = read_u8_array h.function_len hp h.at_function;
  hook_type = read_u64 hp h.at_hook_type;
  codepage = read_u32 hp h.at_codepage;
  length_offset = read_i16 hp h.at_length_offset;
  padding = read_u64 hp h.at_padding;
  user_value = read_u64 hp h.at_user_value;
  line_separator = read_u64 hp h.at_line_separator;
  name = read_u8_array h.name_len hp h.at_name;
  hookcode = read_u16_array h.hookcode_len hp h.at_hookcode;
  detected_codepage = read_u32 hp h.at_detected_codepage;
  emu_addr = read_u32 hp h.at_emu_addr;
}

unfoldable pub parse_found_hook_args : HookLayout → RawHookParam → List (List ℕ) → Option FoundHook
parse_found_hook_args h default_param args = get_elem? args 0 >>= (λ hp.
    get_elem? args 1 >>= (λ text.
      if ltb (length hp) h.size
      then none
      else let param = hook_param_of h default_param hp in
        some (record {
          hook_type_flags = param.hook_type;
          hook_address = param.address;
          hook_param = param;
          text = read_fixed_utf16 text 0 (length text / 2);
        })))

-- The first argument, when it has as many bytes as are read.
abbrev pub first_of : ℕ → (List ℕ → ℕ) → List (List ℕ) → Option ℕ
first_of size read args =
    get_elem? args 0 >>= (λ arg. if leb size (length arg) then some (read arg) else none)

-- The `match` on the identifier.
unfoldable pub notification_of :
    RpcNames → TextLayout → HookLayout → RawHookParam → ℕ → List (List ℕ) → Option Notification
notification_of rpc t h default_param id args =
    if id == rpc.output_text
    then get_elem? args 0 >>= (λ blob. parse_text_output t h blob >>= (λ n. some (text n)))
    else if id == rpc.notify_text
    then first_of 4 (λ arg. read_u32 arg 0) args >>= (λ kind.
      get_elem? args 2 >>= (λ arg. some (info (not (kind == rpc.console)) (from_utf8_lossy arg))))
    else if id == rpc.notify_text_w
    then first_of 4 (λ arg. read_u32 arg 0) args >>= (λ kind. get_elem? args 1 >>= (λ arg.
      some (info (not (kind == rpc.console)) (read_fixed_utf16 arg 0 (length arg / 2)))))
    else if id == rpc.notify_hook_found
    then parse_found_hook_args h default_param args >>= (λ found. some (found_hook found))
    else if id == rpc.notify_hook_removed
    then first_of 8 (λ arg. read_u64 arg 0) args >>= (λ address. some (removed address))
    else if id == rpc.notify_hook_inserting
    then first_of 8 (λ arg. read_u64 arg 0) args >>= (λ address.
      get_elem? args 1
      >>= (λ code. some (inserting address (read_fixed_utf16 code 0 (length code / 2)))))
    else if id == rpc.notify_engine_detected
    then get_elem? args 0 >>= (λ name. some (engine_detected (from_utf8_lossy name)))
    else some (ignored id)

unfoldable pub parse_notification :
    RpcNames → TextLayout → HookLayout → RawHookParam → List ℕ → Option Notification
parse_notification rpc t h default_param bytes =
    parse_rpc_args rpc.header_size bytes
    >>= (λ call. notification_of rpc t h default_param (call.0) (call.1))

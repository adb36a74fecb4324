-- ===== src/HookPipe/Sent.antt =====
-- src/hook/pipe_client/notification.rs: what the injected library sends, in the bytes of its wire
-- format, and the notifications that they are.
use anemone_rs.Base.{
  ℕ, ◌+◌, ◌<◌, Bool, true, not, ◌&&◌, List, [], ◌∷◌, ◌++◌, ◌≡◌, ltb, ◌==◌, length, map, take, drop,
  all, from_utf8_lossy, from_utf16_lossy,
}
use anemone_rs.HookPipe.Bytes.{to_le, unit_bytes}
use anemone_rs.HookPipe.Layout.{RawHookParam, HookLayout, TextLayout, RpcNames}
use anemone_rs.HookPipe.Notification.{
  Notification, TextNotification, engine_detected, removed, inserting, info, found_hook, ignored,
}
use anemone_rs.HookPipe.Command.{serialize_raw_hook_param}
use anemone_rs.HookPipe.Fields.{in_order}
use anemone_rs.HookPipe.Written.{wire_field, hook_wires}
use anemone_rs.HookPipe.FieldReads.{ParamFits}
use anemone_rs.HookPipe.RoundTrip.{carried}
use anemone_rs.HookPipe.Units.{is_code_unit}

-- A text that a hook gives: the thread, the hook with the bytes of its name, and the bytes of the text.
pub record TextSent : Type 0 where
  pub process_id : ℕ
  pub thread_addr : ℕ
  pub thread_ctx : ℕ
  pub thread_ctx2 : ℕ
  pub hook_address : ℕ
  pub hook_type_flags : ℕ
  pub detected_codepage : ℕ
  pub hook_name : List ℕ
  pub payload : List ℕ

-- The library's side of the notifications: a text with the bytes of its header, a message of bytes and
-- one of code units, a hook that was found with its text, the address of a hook that went, an address
-- and the code of the hook that is put there, the name of an engine, and a call of another number.
pub data Sent : Type 0 where
  sent_text : TextSent → List ℕ → Sent
  sent_info : ℕ → ℕ → List ℕ → Sent
  sent_info_w : ℕ → List ℕ → Sent
  sent_found : RawHookParam → List ℕ → Sent
  sent_removed : ℕ → Sent
  sent_inserting : ℕ → List ℕ → Sent
  sent_engine : List ℕ → Sent
  sent_other : ℕ → List (List ℕ) → Sent

-- A text of code units ends with a zero.
abbrev pub ended_text : List ℕ → List ℕ
ended_text code = unit_bytes (code ++ 0 ∷ [])

unfoldable pub sent_args : HookLayout → Sent → List (List ℕ)
sent_args h (sent_text n header) = (header ++ n.payload) ∷ []
sent_args h (sent_info kind page message) = to_le 4 kind ∷ to_le 4 page ∷ message ∷ []
sent_args h (sent_info_w kind message) = to_le 4 kind ∷ ended_text message ∷ []
sent_args h (sent_found v text) = serialize_raw_hook_param h v ∷ ended_text text ∷ []
sent_args h (sent_removed address) = to_le 8 address ∷ []
sent_args h (sent_inserting address code) = to_le 8 address ∷ ended_text code ∷ []
sent_args h (sent_engine name) = name ∷ []
sent_args h (sent_other id args) = args

unfoldable pub sent_id : RpcNames → Sent → ℕ
sent_id rpc (sent_text n header) = rpc.output_text
sent_id rpc (sent_info kind page message) = rpc.notify_text
sent_id rpc (sent_info_w kind message) = rpc.notify_text_w
sent_id rpc (sent_found v text) = rpc.notify_hook_found
sent_id rpc (sent_removed address) = rpc.notify_hook_removed
sent_id rpc (sent_inserting address code) = rpc.notify_hook_inserting
sent_id rpc (sent_engine name) = rpc.notify_engine_detected
sent_id rpc (sent_other id args) = id

-- Bytes that hold a value at an offset.
abbrev pub Holds : List ℕ → ℕ → List ℕ → Type 0
Holds bytes offset value = take (length value) (drop offset bytes) ≡ value

-- The header holds the numbers of the text, which fit in their fields, and the name, which a zero ends;
-- and there are bytes after it.
pub record HeaderHolds (t : TextLayout) (h : HookLayout) (n : TextSent) (header : List ℕ)
    : Type 0 where
  pub size : length header ≡ t.header_len
  pub some_payload : 0 < length n.payload
  pub process_id : (n.process_id < 4294967296) × Holds header t.at_tp (to_le 4 n.process_id)
  pub thread_addr :
      (n.thread_addr < 18446744073709551616)
      × Holds header (t.at_tp + t.at_addr) (to_le 8 n.thread_addr)
  pub thread_ctx :
      (n.thread_ctx < 18446744073709551616)
      × Holds header (t.at_tp + t.at_ctx) (to_le 8 n.thread_ctx)
  pub thread_ctx2 :
      (n.thread_ctx2 < 18446744073709551616)
      × Holds header (t.at_tp + t.at_ctx2) (to_le 8 n.thread_ctx2)
  pub hook_address :
      (n.hook_address < 18446744073709551616)
      × Holds header (t.at_hp + h.at_address) (to_le 8 n.hook_address)
  pub hook_type_flags :
      (n.hook_type_flags < 18446744073709551616)
      × Holds header t.at_kind (to_le 8 n.hook_type_flags)
  pub detected_codepage :
      (n.detected_codepage < 4294967296)
      × Holds header (t.at_hp + h.at_detected_codepage) (to_le 4 n.detected_codepage)
  pub name_bytes : all (λ b. ltb 0 b) n.hook_name ≡ true
  pub padding : List ℕ
  pub name_size : length (n.hook_name ++ 0 ∷ padding) ≡ h.name_len
  pub hook_name : Holds header (t.at_hp + h.at_name) (n.hook_name ++ 0 ∷ padding)

-- No number of a call is that of an earlier one.
unfoldable pub no_repeat : List ℕ → Bool
no_repeat [] = true
no_repeat (x ∷ xs) = all (λ y. not (y == x)) xs && no_repeat xs

abbrev pub rpc_ids : RpcNames → List ℕ
rpc_ids rpc =
    rpc.output_text ∷ rpc.notify_text ∷ rpc.notify_text_w ∷ rpc.notify_hook_found
    ∷ rpc.notify_hook_removed ∷ rpc.notify_hook_inserting ∷ rpc.notify_engine_detected ∷ []

unfoldable pub rpc_differ : RpcNames → Bool
rpc_differ rpc = no_repeat (rpc_ids rpc)

-- The numbers fit in their fields, and no text of code units has a zero, which would end it.
abbrev pub Fits : RpcNames → TextLayout → HookLayout → Sent → Type 0
Fits rpc t h (sent_text n header) = HeaderHolds t h n header
Fits rpc t h (sent_info kind page message) = kind < 4294967296
Fits rpc t h (sent_info_w kind message) = (kind < 4294967296) × (all is_code_unit message ≡ true)
Fits rpc t h (sent_found v text) =
    ParamFits h v
    × (in_order 0 h.size (map wire_field (hook_wires h v)) ≡ true)
    × (all is_code_unit text ≡ true)
Fits rpc t h (sent_removed address) = address < 18446744073709551616
Fits rpc t h (sent_inserting address code) =
    (address < 18446744073709551616) × (all is_code_unit code ≡ true)
Fits rpc t h (sent_engine name) = Unit {0}
Fits rpc t h (sent_other id args) = all (λ y. not (id == y)) (rpc_ids rpc) ≡ true

-- The notification of a text.
unfoldable pub text_seen : TextSent → TextNotification
text_seen n = record {
  process_id = n.process_id;
  thread_addr = n.thread_addr;
  thread_ctx = n.thread_ctx;
  thread_ctx2 = n.thread_ctx2;
  hook_address = n.hook_address;
  hook_type_flags = n.hook_type_flags;
  detected_codepage = n.detected_codepage;
  hook_name = from_utf8_lossy n.hook_name;
  payload = n.payload;
}

-- The notification that each is.
unfoldable pub seen : RpcNames → RawHookParam → Sent → Notification
seen rpc default_param (sent_text n header) = Notification.text (text_seen n)
seen rpc default_param (sent_info kind page message) =
    info (not (kind == rpc.console)) (from_utf8_lossy message)
seen rpc default_param (sent_info_w kind message) =
    info (not (kind == rpc.console)) (from_utf16_lossy message)
seen rpc default_param (sent_found v text) = found_hook (record {
  hook_type_flags = v.hook_type;
  hook_address = v.address;
  hook_param = carried default_param v;
  text = from_utf16_lossy text;
})
seen rpc default_param (sent_removed address) = removed address
seen rpc default_param (sent_inserting address code) = inserting address (from_utf16_lossy code)
seen rpc default_param (sent_engine name) = engine_detected (from_utf8_lossy name)
seen rpc default_param (sent_other id args) = ignored id

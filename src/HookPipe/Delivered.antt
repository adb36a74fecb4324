-- ===== src/HookPipe/Delivered.antt =====
-- src/hook/pipe_client/notification.rs: a notification that is sent is the one that is read.
use anemone_rs.Base.{
  ℕ, ◌/◌, ◌<◌, true, not, some, List, [], ◌∷◌, ◌++◌, ◌≡◌, refl, ap, ◌∙◌, ◌==◌, length, ◌>>=◌,
  from_utf8_lossy,
}
use anemone_rs.HookPipe.Bytes.{length-to_le, to_le, read_u32, read_u64}
use anemone_rs.HookPipe.Frame.{encode_args, encode_frame, parse_rpc_args-encode_frame}
use anemone_rs.HookPipe.Layout.{RawHookParam, HookLayout, TextLayout, RpcNames}
use anemone_rs.HookPipe.Notification.{
  Notification, removed, inserting, info, found_hook, first_of, read_fixed_utf16, notification_of,
  parse_notification,
}
use anemone_rs.HookPipe.Units.{read_u64-to_le, read_u32-to_le_4, read_fixed_utf16_whole}
use anemone_rs.HookPipe.Sent.{
  Sent, sent_text, sent_info, sent_info_w, sent_found, sent_removed, sent_inserting, sent_engine,
  sent_other, sent_id, sent_args, Fits, seen, rpc_differ, ended_text,
}
use anemone_rs.HookPipe.Arms.{
  text_arm, info_arm, info_w_arm, found_arm, removed_arm, inserting_arm, engine_arm, other_arm,
}
use anemone_rs.HookPipe.RoundTrip.{carried, parse_found_hook_args-serialize}
use anemone_rs.HookPipe.TextOutput.{parse_text_output-sent}
use anemone_rs.HookPipe.Command.{serialize_raw_hook_param}

first_address :
    (address : ℕ) (args : List (List ℕ))
    → address < 18446744073709551616
    → first_of 8 (λ arg. read_u64 arg 0) (to_le 8 address ∷ args) ≡ some address
first_address address args small = rw (length-to_le 8 address, read_u64-to_le address small) refl

first_kind :
    (kind : ℕ) (args : List (List ℕ))
    → kind < 4294967296
    → first_of 4 (λ arg. read_u32 arg 0) (to_le 4 kind ∷ args) ≡ some kind
first_kind kind args small = rw (length-to_le 4 kind, read_u32-to_le_4 kind small) refl

notification_of-sent :
    (rpc : RpcNames) (t : TextLayout) (h : HookLayout) (default_param : RawHookParam) (s : Sent)
    → rpc_differ rpc ≡ true
    → Fits rpc t h s
    → notification_of rpc t h default_param (sent_id rpc s) (sent_args h s)
      ≡ some (seen rpc default_param s)
unfolding sent_id sent_args seen
notification_of-sent rpc t h default_param (sent_text n header) differ fits =
    text_arm rpc t h default_param ((header ++ n.payload) ∷ []) differ
    ∙ ap (λ o. o >>= (λ m. some (Notification.text m))) (parse_text_output-sent t h n header fits)
notification_of-sent rpc t h default_param (sent_info kind page message) differ fits =
    info_arm rpc t h default_param (to_le 4 kind ∷ to_le 4 page ∷ message ∷ []) differ
    ∙ ap (λ o. o >>= (λ k. some (info (not (k == rpc.console)) (from_utf8_lossy message))))
        (first_kind kind (to_le 4 page ∷ message ∷ []) fits)
notification_of-sent rpc t h default_param (sent_info_w kind message) differ (small, clean) =
    let bytes = ended_text message in
    info_w_arm rpc t h default_param (to_le 4 kind ∷ bytes ∷ []) differ
    ∙ ap
        (λ o. o >>= (λ k.
          some (info (not (k == rpc.console)) (read_fixed_utf16 bytes 0 (length bytes / 2)))))
        (first_kind kind (bytes ∷ []) small)
    ∙ ap (λ x. some (info (not (kind == rpc.console)) x)) (read_fixed_utf16_whole message clean)
notification_of-sent rpc t h default_param (sent_found v text) differ (fits, order, clean) =
    let bytes = ended_text text in
    found_arm rpc t h default_param (serialize_raw_hook_param h v ∷ bytes ∷ []) differ
    ∙ ap (λ o. o >>= (λ found. some (found_hook found)))
        (parse_found_hook_args-serialize h default_param v bytes fits order)
    ∙ ap
        (λ x. some (
          found_hook (record {
            hook_type_flags = v.hook_type;
            hook_address = v.address;
            hook_param = carried default_param v;
            text = x;
          })))
        (read_fixed_utf16_whole text clean)
notification_of-sent rpc t h default_param (sent_removed address) differ fits =
    removed_arm rpc t h default_param (to_le 8 address ∷ []) differ
    ∙ ap (λ o. o >>= (λ a. some (removed a))) (first_address address [] fits)
notification_of-sent rpc t h default_param (sent_inserting address code) differ (small, clean) =
    let bytes = ended_text code in
    inserting_arm rpc t h default_param (to_le 8 address ∷ bytes ∷ []) differ
    ∙ ap (λ o. o >>= (λ a. some (inserting a (read_fixed_utf16 bytes 0 (length bytes / 2)))))
        (first_address address (bytes ∷ []) small)
    ∙ ap (λ x. some (inserting address x)) (read_fixed_utf16_whole code clean)
notification_of-sent rpc t h default_param (sent_engine name) differ fits =
    engine_arm rpc t h default_param (name ∷ []) differ
notification_of-sent rpc t h default_param (sent_other id args) differ fits =
    other_arm rpc t h default_param id args fits

-- Every notification that the library sends, of any of its seven kinds or of another number, in a frame
-- that fits and whatever follows it, is read as that notification, when the header has eight bytes, no
-- two calls have the same number, and its numbers and its fields fit.
pub parse_notification-encode_frame :
    (rpc : RpcNames) (t : TextLayout) (h : HookLayout) (default_param : RawHookParam) (s : Sent)
    (rest : List ℕ)
    → rpc.header_size ≡ 8
    → rpc_differ rpc ≡ true
    → Fits rpc t h s
    → sent_id rpc s < 4294967296
    → length (encode_args (sent_args h s)) < 4294967296
    → parse_notification rpc t h default_param
        (encode_frame (sent_id rpc s) (sent_args h s) ++ rest)
      ≡ some (seen rpc default_param s)
unfolding parse_notification
parse_notification-encode_frame rpc t h default_param s rest header differ fits small short =
    ap (λ call. call >>= (λ c. notification_of rpc t h default_param (c.0) (c.1)))
      (parse_rpc_args-encode_frame rpc.header_size (sent_id rpc s) (sent_args h s) rest header small
        short)
    ∙ notification_of-sent rpc t h default_param s differ fits

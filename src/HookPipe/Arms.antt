-- ===== src/HookPipe/Arms.antt =====
-- src/hook/pipe_client/notification.rs: the arm of the `match` that each number of a call comes to.
use anemone_rs.Base.{
  ℕ, ◌/◌, true, false, not, some, List, ◌≡◌, refl, arith, ◌==◌, ==_refl, length, all, get_elem?,
  ◌>>=◌, from_utf8_lossy,
}
use anemone_rs.HookPipe.Bytes.{read_u32, read_u64}
use anemone_rs.HookPipe.Layout.{RawHookParam, HookLayout, TextLayout, RpcNames}
use anemone_rs.HookPipe.Notification.{
  Notification, ignored, found_hook, parse_text_output, parse_found_hook_args, engine_detected,
  removed, inserting, info, first_of, read_fixed_utf16, notification_of,
}
use anemone_rs.HookPipe.Sent.{no_repeat, rpc_differ, rpc_ids}

pub text_arm :
    (rpc : RpcNames) (t : TextLayout) (h : HookLayout) (default_param : RawHookParam)
    (args : List (List ℕ))
    → rpc_differ rpc ≡ true
    → notification_of rpc t h default_param rpc.output_text args ≡ (
        get_elem? args 0
        >>= (λ blob. parse_text_output t h blob >>= (λ n. some (Notification.text n))))
unfolding notification_of rpc_differ no_repeat
text_arm rpc t h default_param args differ = rw (==_refl rpc.output_text) refl

pub info_arm :
    (rpc : RpcNames) (t : TextLayout) (h : HookLayout) (default_param : RawHookParam)
    (args : List (List ℕ))
    → rpc_differ rpc ≡ true
    → notification_of rpc t h default_param rpc.notify_text args ≡ (
        first_of 4 (λ arg. read_u32 arg 0) args >>= (λ kind.
          get_elem? args 2
          >>= (λ arg. some (info (not (kind == rpc.console)) (from_utf8_lossy arg)))))
unfolding notification_of rpc_differ no_repeat
info_arm rpc t h default_param args differ =
    let a : (rpc.notify_text == rpc.output_text) ≡ false = ground arith in
    rw (a, ==_refl rpc.notify_text) refl

pub info_w_arm :
    (rpc : RpcNames) (t : TextLayout) (h : HookLayout) (default_param : RawHookParam)
    (args : List (List ℕ))
    → rpc_differ rpc ≡ true
    → notification_of rpc t h default_param rpc.notify_text_w args ≡ (
        first_of 4 (λ arg. read_u32 arg 0) args >>= (λ kind. get_elem? args 1 >>= (λ arg.
          some (info (not (kind == rpc.console)) (read_fixed_utf16 arg 0 (length arg / 2))))))
unfolding notification_of rpc_differ no_repeat
info_w_arm rpc t h default_param args differ =
    let a : (rpc.notify_text_w == rpc.output_text) ≡ false = ground arith in
    let b : (rpc.notify_text_w == rpc.notify_text) ≡ false = ground arith in
    rw (a, b, ==_refl rpc.notify_text_w) refl

pub found_arm :
    (rpc : RpcNames) (t : TextLayout) (h : HookLayout) (default_param : RawHookParam)
    (args : List (List ℕ))
    → rpc_differ rpc ≡ true
    → notification_of rpc t h default_param rpc.notify_hook_found args
      ≡ (parse_found_hook_args h default_param args >>= (λ found. some (found_hook found)))
unfolding notification_of rpc_differ no_repeat
found_arm rpc t h default_param args differ =
    let a : (rpc.notify_hook_found == rpc.output_text) ≡ false = ground arith in
    let b : (rpc.notify_hook_found == rpc.notify_text) ≡ false = ground arith in
    let c : (rpc.notify_hook_found == rpc.notify_text_w) ≡ false = ground arith in
    rw (a, b, c, ==_refl rpc.notify_hook_found) refl

pub removed_arm :
    (rpc : RpcNames) (t : TextLayout) (h : HookLayout) (default_param : RawHookParam)
    (args : List (List ℕ))
    → rpc_differ rpc ≡ true
    → notification_of rpc t h default_param rpc.notify_hook_removed args
      ≡ (first_of 8 (λ arg. read_u64 arg 0) args >>= (λ address. some (removed address)))
unfolding notification_of rpc_differ no_repeat
removed_arm rpc t h default_param args differ =
    let a : (rpc.notify_hook_removed == rpc.output_text) ≡ false = ground arith in
    let b : (rpc.notify_hook_removed == rpc.notify_text) ≡ false = ground arith in
    let c : (rpc.notify_hook_removed == rpc.notify_text_w) ≡ false = ground arith in
    let d : (rpc.notify_hook_removed == rpc.notify_hook_found) ≡ false = ground arith in
    rw (a, b, c, d, ==_refl rpc.notify_hook_removed) refl

pub inserting_arm :
    (rpc : RpcNames) (t : TextLayout) (h : HookLayout) (default_param : RawHookParam)
    (args : List (List ℕ))
    → rpc_differ rpc ≡ true
    → notification_of rpc t h default_param rpc.notify_hook_inserting args ≡ (
        first_of 8 (λ arg. read_u64 arg 0) args >>= (λ address.
          get_elem? args 1
          >>= (λ code. some (inserting address (read_fixed_utf16 code 0 (length code / 2))))))
unfolding notification_of rpc_differ no_repeat
inserting_arm rpc t h default_param args differ =
    let a : (rpc.notify_hook_inserting == rpc.output_text) ≡ false = ground arith in
    let b : (rpc.notify_hook_inserting == rpc.notify_text) ≡ false = ground arith in
    let c : (rpc.notify_hook_inserting == rpc.notify_text_w) ≡ false = ground arith in
    let d : (rpc.notify_hook_inserting == rpc.notify_hook_found) ≡ false = ground arith in
    let e : (rpc.notify_hook_inserting == rpc.notify_hook_removed) ≡ false = ground arith in
    rw (a, b, c, d, e, ==_refl rpc.notify_hook_inserting) refl

pub engine_arm :
    (rpc : RpcNames) (t : TextLayout) (h : HookLayout) (default_param : RawHookParam)
    (args : List (List ℕ))
    → rpc_differ rpc ≡ true
    → notification_of rpc t h default_param rpc.notify_engine_detected args
      ≡ (get_elem? args 0 >>= (λ name. some (engine_detected (from_utf8_lossy name))))
unfolding notification_of rpc_differ no_repeat
engine_arm rpc t h default_param args differ =
    let a : (rpc.notify_engine_detected == rpc.output_text) ≡ false = ground arith in
    let b : (rpc.notify_engine_detected == rpc.notify_text) ≡ false = ground arith in
    let c : (rpc.notify_engine_detected == rpc.notify_text_w) ≡ false = ground arith in
    let d : (rpc.notify_engine_detected == rpc.notify_hook_found) ≡ false = ground arith in
    let e : (rpc.notify_engine_detected == rpc.notify_hook_removed) ≡ false = ground arith in
    let f : (rpc.notify_engine_detected == rpc.notify_hook_inserting) ≡ false = ground arith in
    rw (a, b, c, d, e, f, ==_refl rpc.notify_engine_detected) refl

pub other_arm :
    (rpc : RpcNames) (t : TextLayout) (h : HookLayout) (default_param : RawHookParam) (id : ℕ)
    (args : List (List ℕ))
    → all (λ y. not (id == y)) (rpc_ids rpc) ≡ true
    → notification_of rpc t h default_param id args ≡ some (ignored id)
unfolding notification_of
other_arm rpc t h default_param id args other =
    let a : (id == rpc.output_text) ≡ false = ground arith in
    let b : (id == rpc.notify_text) ≡ false = ground arith in
    let c : (id == rpc.notify_text_w) ≡ false = ground arith in
    let d : (id == rpc.notify_hook_found) ≡ false = ground arith in
    let e : (id == rpc.notify_hook_removed) ≡ false = ground arith in
    let f : (id == rpc.notify_hook_inserting) ≡ false = ground arith in
    let g : (id == rpc.notify_engine_detected) ≡ false = ground arith in
    rw (a, b, c, d, e, f, g) refl

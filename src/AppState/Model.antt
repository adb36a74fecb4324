-- ===== src/AppState/Model.antt =====
-- src/app/state.rs: the data of the application's state, its actions and its effects. An instant is
-- a number of nanoseconds.
use anemone_rs.Base.{
  ℕ, ℤ, Bool, true, false, not, ◌&&◌, ◌||◌, Option, none, some, List, Text, is_positive,
  if◌then◌else◌,
}
use anemone_rs.Config.App.{Config}
use anemone_rs.Config.Translation.{TranslationRoute, TranslationRouteConfig}
use anemone_rs.Backlog.{BacklogStore}
use anemone_rs.HookText.Merger.{TextMerger}

pub record ClientSize : Type 0 where
  pub width : ℤ
  pub height : ℤ

unfoldable pub drawable : ℤ → ℤ → Option ClientSize
drawable width height =
    if is_positive width && is_positive height
    then some (record { width = width; height = height })
    else none

pub record CacheKey : Type 0 where
  pub engine_id : Text
  pub source_lang : Text
  pub target_lang : Text
  pub original : Text

pub record PendingTranslation : Type 0 where
  pub req_id : ℕ
  pub original : Text
  pub cache_key : CacheKey
  pub requested_at : ℕ

pub record QueuedHookText : Type 0 where
  pub text : Text
  pub full_string : Bool

pub data OverlayNotice : Type 0 where
  select_magnetic_target magnetic_target_attached : OverlayNotice

pub record HookSessionInfo : Type 0 where
  pub pid : ℕ
  pub process_name : Text
  pub exe_sha256 : Option Text
  pub arch_label : Text
  pub detected_engines : List Text

pub record ClipboardDebounce : Type 0 where
  pub pending : Option Text

pub record AppState : Type 0 where
  pub client_size : ClientSize
  pub resizing : Bool
  pub pending_resize : Option ClientSize
  pub original_text : Text
  pub translated_text : Text
  pub overlay_notice : Option OverlayNotice
  pub pending_translation : Option PendingTranslation
  pub clipboard_debounce : ClipboardDebounce
  pub hook_session : Option HookSessionInfo
  pub hook_merger : TextMerger
  pub hook_text_queue : List QueuedHookText

pub record AppModel : Type 0 where
  pub config : Config
  pub backlog : BacklogStore
  pub runtime : AppState

pub data AppCommand : Type 0 where
  window_show click_through clipboard_watch background_toggle border_toggle : AppCommand
  magnetic_mode settings translate backlog file_trans : AppCommand
  text_size_up text_size_down hook_find hook_stop exit : AppCommand

-- A draft of the settings is the settings it was made from, as edited.
pub data AppAction : Type 0 where
  command : AppCommand → AppAction
  preview_settings commit_settings : Config → AppAction
  clear_backlog clear_translation_cache : AppAction
  set_translation_route : TranslationRoute → TranslationRouteConfig → AppAction
  save_hook_profile : Text → Option Text → AppAction
  set_hook_merge_window : ℕ → AppAction
  settings_dialog_closed : AppAction
  translate_dialog_closed file_trans_dialog_closed : ℕ → AppAction
  update_check_settled : Option ℤ → AppAction
  request_update_check request_update_apply : AppAction

pub data DialogKind : Type 0 where
  settings translate backlog file_translation hook_find : DialogKind

pub data Effect : Type 0 where
  repaint sync_window_state save_config : Effect
  set_window_visible set_click_through set_clipboard_watch set_magnetic : Bool → Effect
  reregister_hotkeys clear_translation_cache : Effect
  open_dialog : DialogKind → Effect
  settings_dialog_closed : Effect
  translate_dialog_closed file_trans_dialog_closed : ℕ → Effect
  close request_update_check request_update_apply hook_stop : Effect

pub data MagneticAction : Type 0 where
  noop start stop : MagneticAction

unfoldable pub magnetic_action : Bool → Bool → MagneticAction
magnetic_action true false = MagneticAction.start
magnetic_action false true = MagneticAction.stop
magnetic_action _ _ = MagneticAction.noop

unfoldable pub should_watch_clipboard : Bool → Bool → Bool
should_watch_clipboard configured translate_dialog_active =
    configured && not translate_dialog_active

unfoldable pub clipboard_capture_is_paused : Bool → Bool → Bool → Bool → Bool → Bool → Bool
clipboard_capture_is_paused translation_dialog file_translation_dialog settings_dialog context_menu
      overlay_notice hook_session =
    translation_dialog || file_translation_dialog || settings_dialog || context_menu
    || overlay_notice || hook_session

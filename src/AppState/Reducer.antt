-- ===== src/AppState/Reducer.antt =====
-- src/app/state.rs: `AppModel::update`.
use anemone_rs.Base.{
  ℕ, ℤ, pos, negsuc, suc, zero, Bool, true, false, not, Option, none, some, List, [], ◌∷◌, ◌++◌,
  if◌then◌else◌, int_lt, ◌==◌, Text,
}
use anemone_rs.Config.App.{
  Config, toggle_window_visible, toggle_click_through, toggle_background_visible,
  toggle_border_visible,
}
use anemone_rs.Config.Limits.{clamp_u32}
use anemone_rs.Config.Hook.{save_profile, min_merge_window_ms, max_merge_window_ms}
use anemone_rs.Config.Hotkey.{hotkeys_eq}
use anemone_rs.Config.Translation.{set_route_config}
use anemone_rs.Backlog
use anemone_rs.HookText.Merger
use anemone_rs.AppState.Model.{HookSessionInfo, AppModel, AppCommand, AppAction, DialogKind, Effect}

pub record WindowPlacement : Type 0 where
  pub x : Option ℤ
  pub y : Option ℤ
  pub width : Option ℤ
  pub height : Option ℤ

unfoldable pub capture : Config → WindowPlacement
capture c = record {
  x = c.window_x;
  y = c.window_y;
  width = c.window_width;
  height = c.window_height;
}

unfoldable pub restore : WindowPlacement → Config → Config
restore p c = record c {
  window_x = p.x;
  window_y = p.y;
  window_width = p.width;
  window_height = p.height;
}

-- `value + 1` and `value - 1` on `i32`.
unfoldable pub succ_i32 : ℤ → ℤ
succ_i32 (pos n) = if n == 2147483647 then negsuc 2147483647 else pos (suc n)
succ_i32 (negsuc zero) = pos 0
succ_i32 (negsuc (suc n)) = negsuc n

unfoldable pub pred_i32 : ℤ → ℤ
pred_i32 (pos zero) = negsuc 0
pred_i32 (pos (suc n)) = pos n
pred_i32 (negsuc n) = if n == 2147483647 then pos 2147483647 else negsuc (suc n)

-- `Ord::min` and `Ord::max` on `i32`.
unfoldable pub min_i32 : ℤ → ℤ → ℤ
min_i32 a b = if int_lt b a then b else a

unfoldable pub max_i32 : ℤ → ℤ → ℤ
max_i32 a b = if int_lt b a then a else b

unfoldable pub set_all_text_sizes : Config → ℤ → Config
set_all_text_sizes c size = record c {
  translation_style = record c.translation_style { size = size };
  name_style = record c.name_style { size = size };
  original_style = record c.original_style { size = size };
}

-- A change of the settings with its effects.
abbrev pub Reduced : Type 0
Reduced = AppModel × List Effect

abbrev pub with_config : AppModel → Config → List Effect → Reduced
with_config m c effects = (record m { config = c }, effects)

-- `ClipboardWatch`, which is ignored while there is a session.
unfoldable pub toggle_clipboard_watch : AppModel → Option HookSessionInfo → Reduced
toggle_clipboard_watch m (some session) = (m, [])
toggle_clipboard_watch m none =
    with_config m (record m.config { clipboard_watch = not m.config.clipboard_watch })
      (Effect.set_clipboard_watch (not m.config.clipboard_watch) ∷ [])

unfoldable pub update_command : AppModel → AppCommand → Reduced
update_command m AppCommand.window_show =
    let c = toggle_window_visible m.config in
    with_config m c (Effect.set_window_visible c.window_visible ∷ [])
update_command m AppCommand.click_through =
    let c = toggle_click_through m.config in
    with_config m c (Effect.set_click_through c.click_through ∷ [])
update_command m AppCommand.clipboard_watch = toggle_clipboard_watch m m.runtime.hook_session
update_command m AppCommand.background_toggle =
    with_config m (toggle_background_visible m.config) (Effect.repaint ∷ [])
update_command m AppCommand.border_toggle =
    with_config m (toggle_border_visible m.config) (Effect.repaint ∷ [])
update_command m AppCommand.magnetic_mode =
    with_config m (record m.config { magnetic_mode = not m.config.magnetic_mode })
      (Effect.set_magnetic (not m.config.magnetic_mode) ∷ [])
update_command m AppCommand.settings = (m, Effect.open_dialog DialogKind.settings ∷ [])
update_command m AppCommand.translate = (m, Effect.open_dialog DialogKind.translate ∷ [])
update_command m AppCommand.backlog = (m, Effect.open_dialog DialogKind.backlog ∷ [])
update_command m AppCommand.file_trans = (m, Effect.open_dialog DialogKind.file_translation ∷ [])
update_command m AppCommand.hook_find = (m, Effect.open_dialog DialogKind.hook_find ∷ [])
update_command m AppCommand.hook_stop = (m, Effect.hook_stop ∷ [])
update_command m AppCommand.text_size_up =
    with_config m
      (set_all_text_sizes m.config (min_i32 (succ_i32 m.config.translation_style.size) (pos 100)))
      (Effect.repaint ∷ [])
update_command m AppCommand.text_size_down =
    with_config m
      (set_all_text_sizes m.config (max_i32 (pred_i32 m.config.translation_style.size) (pos 6)))
      (Effect.repaint ∷ [])
update_command m AppCommand.exit = (m, Effect.close ∷ [])

-- What `PreviewSettings` and `CommitSettings` both keep of the settings.
unfoldable pub keep_background : Config → Config → Config
keep_background old draft = restore (capture old) (record draft {
  last_update_check = old.last_update_check;
  hook = old.hook;
  translation = record draft.translation {
    manual = old.translation.manual;
    file = old.translation.file;
  };
})

unfoldable pub save_hook_profile : AppModel → Option HookSessionInfo → Text → Option Text → Reduced
save_hook_profile m none hook_name hook_code = (m, [])
save_hook_profile m (some session) hook_name hook_code =
    with_config m
      (record m.config {
        hook = save_profile m.config.hook (record {
          process_name = session.process_name;
          exe_sha256 = session.exe_sha256;
          hook_name = hook_name;
          hook_code = hook_code;
        });
      })
      (Effect.save_config ∷ [])

unfoldable pub set_hook_merge_window : AppModel → ℕ → Reduced
set_hook_merge_window m window_ms =
    if m.config.hook.merge_window_ms == window_ms then (m, []) else (
      record m {
        config = record m.config { hook = record m.config.hook { merge_window_ms = window_ms } };
        runtime = record m.runtime {
          hook_merger = Merger.set_window_ms m.runtime.hook_merger window_ms;
        };
      },
      Effect.save_config ∷ [],
    )

unfoldable pub route_set : AppModel → Bool × Config → Reduced
route_set m (false, c) = (m, [])
route_set m (true, c) = with_config m c (Effect.save_config ∷ [])

unfoldable pub update : AppModel → AppAction → Reduced
update m (AppAction.command c) = update_command m c
update m (AppAction.preview_settings draft) =
    with_config m (record (keep_background m.config draft) { hotkeys = m.config.hotkeys })
      (Effect.sync_window_state ∷ Effect.repaint ∷ [])
update m (AppAction.commit_settings draft) = with_config m (keep_background m.config draft) (
    Effect.sync_window_state
    ∷ Effect.repaint
    ∷ Effect.save_config
    ∷ (if hotkeys_eq m.config.hotkeys draft.hotkeys then [] else Effect.reregister_hotkeys ∷ []))
update m AppAction.clear_backlog = (record m { backlog = Backlog.clear m.backlog }, [])
update m AppAction.clear_translation_cache = (m, Effect.clear_translation_cache ∷ [])
update m (AppAction.set_translation_route route selection) =
    let (changed, translation) = set_route_config m.config.translation route selection in
    route_set m (changed, record m.config { translation = translation })
update m (AppAction.save_hook_profile hook_name hook_code) =
    save_hook_profile m m.runtime.hook_session hook_name hook_code
update m (AppAction.set_hook_merge_window window_ms) =
    set_hook_merge_window m (clamp_u32 min_merge_window_ms max_merge_window_ms window_ms)
update m AppAction.settings_dialog_closed = (m, Effect.settings_dialog_closed ∷ [])
update m (AppAction.translate_dialog_closed session) =
    (m, Effect.translate_dialog_closed session ∷ [])
update m (AppAction.file_trans_dialog_closed session) =
    (m, Effect.file_trans_dialog_closed session ∷ [])
update m (AppAction.update_check_settled none) = (m, [])
update m (AppAction.update_check_settled (some timestamp)) =
    with_config m (record m.config { last_update_check = timestamp }) (Effect.save_config ∷ [])
update m AppAction.request_update_check = (m, Effect.request_update_check ∷ [])
update m AppAction.request_update_apply = (m, Effect.request_update_apply ∷ [])

-- The actions of a list, one after the other, with all their effects.
unfoldable pub run : AppModel → List AppAction → Reduced
run m [] = (m, [])
run m (a ∷ as') =
    let (m1, effects) = update m a in let (m2, rest) = run m1 as' in (m2, effects ++ rest)

-- ===== src/AppState/Effects.antt =====
-- src/app/state.rs: the effects tell what the state has become.
use anemone_rs.Base.{
  ℕ, Bool, true, false, ◌||◌, Option, none, some, List, [], ◌∷◌, ◌≡◌, refl, sym, ap, arith, ◌==◌,
  Bool-cases, inl, inr, Text,
}
use anemone_rs.Config.App.{Config}
use anemone_rs.AppState.Model.{AppModel, AppCommand, AppAction, Effect, HookSessionInfo}
use anemone_rs.AppState.Valid.{window_kept, window_changed}
use anemone_rs.AppState.Reducer.{
  toggle_clipboard_watch, update_command, save_hook_profile, set_hook_merge_window, route_set,
  update,
}

-- An effect that sets something on the window sets what the settings say.
abbrev pub Agrees : Config → Effect → Type 0
Agrees c (Effect.set_window_visible b) = b ≡ c.window_visible
Agrees c (Effect.set_click_through b) = b ≡ c.click_through
Agrees c (Effect.set_clipboard_watch b) = b ≡ c.clipboard_watch
Agrees c (Effect.set_magnetic b) = b ≡ c.magnetic_mode
Agrees c _ = Unit

abbrev pub AllAgree : Config → List Effect → Type 0
AllAgree c [] = Unit
AllAgree c (e ∷ es) = Agrees c e × AllAgree c es

toggle_clipboard_watch-AllAgree :
    (m : AppModel) (session : Option HookSessionInfo)
    → AllAgree (toggle_clipboard_watch m session).0.config (toggle_clipboard_watch m session).1
unfolding toggle_clipboard_watch
toggle_clipboard_watch-AllAgree m none = (refl, tt)
toggle_clipboard_watch-AllAgree m (some session) = tt

-- Whatever the command, the window is told what the settings have become.
pub update_command-AllAgree :
    (m : AppModel) (c : AppCommand) → AllAgree (update_command m c).0.config (update_command m c).1
unfolding update_command
update_command-AllAgree m AppCommand.window_show = (refl, tt)
update_command-AllAgree m AppCommand.click_through = (refl, tt)
update_command-AllAgree m AppCommand.clipboard_watch =
    toggle_clipboard_watch-AllAgree m m.runtime.hook_session
update_command-AllAgree m AppCommand.background_toggle = (tt, tt)
update_command-AllAgree m AppCommand.border_toggle = (tt, tt)
update_command-AllAgree m AppCommand.magnetic_mode = (refl, tt)
update_command-AllAgree m AppCommand.settings = (tt, tt)
update_command-AllAgree m AppCommand.translate = (tt, tt)
update_command-AllAgree m AppCommand.backlog = (tt, tt)
update_command-AllAgree m AppCommand.file_trans = (tt, tt)
update_command-AllAgree m AppCommand.text_size_up = (tt, tt)
update_command-AllAgree m AppCommand.text_size_down = (tt, tt)
update_command-AllAgree m AppCommand.hook_find = (tt, tt)
update_command-AllAgree m AppCommand.hook_stop = (tt, tt)
update_command-AllAgree m AppCommand.exit = (tt, tt)

abbrev is_save : Effect → Bool
is_save Effect.save_config = true
is_save _ = false

abbrev pub saves : List Effect → Bool
saves [] = false
saves (e ∷ es) = is_save e || saves es

-- The actions whose changes of the settings are to be kept on the disk.
abbrev pub is_lasting : AppAction → Bool
is_lasting (AppAction.command c) = false
is_lasting (AppAction.preview_settings draft) = false
is_lasting _ = true

save_hook_profile-saves :
    (m : AppModel) (session : Option HookSessionInfo) (name : Text) (code : Option Text)
    → saves (save_hook_profile m session name code).1 ≡ false
    → (save_hook_profile m session name code).0.config ≡ m.config
unfolding save_hook_profile
save_hook_profile-saves m none name code h = refl
save_hook_profile-saves m (some session) name code h = ground arith

route_set-saves :
    (m : AppModel) (changed : Bool) (c : Config)
    → saves (route_set m (changed, c)).1 ≡ false
    → (route_set m (changed, c)).0.config ≡ m.config
unfolding route_set
route_set-saves m false c h = refl
route_set-saves m true c h = ground arith

set_hook_merge_window-saves :
    (m : AppModel) (window : ℕ)
    → saves (set_hook_merge_window m window).1 ≡ false
    → (set_hook_merge_window m window).0.config ≡ m.config
set_hook_merge_window-saves m window h =
    elim (Bool-cases (m.config.hook.merge_window_ms == window)) [
      | inl same ↦ ap (λ r. r.0.config) (window_kept m window same)
      | inr new ↦ ground (arith, sym (ap (λ r. saves r.1) (window_changed m window new)), h)
    ]

-- No change of the settings that is to last is forgotten: without a request to save them, they are
-- as they were.
pub update-saves :
    (m : AppModel) (a : AppAction)
    → is_lasting a ≡ true
    → saves (update m a).1 ≡ false
    → (update m a).0.config ≡ m.config
unfolding update
update-saves m (AppAction.command c) lasting h = cc
update-saves m (AppAction.preview_settings draft) lasting h = cc
update-saves m (AppAction.commit_settings draft) lasting h = ground arith
update-saves m AppAction.clear_backlog lasting h = refl
update-saves m AppAction.clear_translation_cache lasting h = refl
update-saves m (AppAction.set_translation_route route selection) lasting h = route_set-saves m _ _ h
update-saves m (AppAction.save_hook_profile name code) lasting h =
    save_hook_profile-saves m m.runtime.hook_session name code h
update-saves m (AppAction.set_hook_merge_window window) lasting h =
    set_hook_merge_window-saves m _ h
update-saves m AppAction.settings_dialog_closed lasting h = refl
update-saves m (AppAction.translate_dialog_closed session) lasting h = refl
update-saves m (AppAction.file_trans_dialog_closed session) lasting h = refl
update-saves m (AppAction.update_check_settled none) lasting h = refl
update-saves m (AppAction.update_check_settled (some t)) lasting h = ground arith
update-saves m AppAction.request_update_check lasting h = refl
update-saves m AppAction.request_update_apply lasting h = refl

-- ===== src/AppState/Valid.antt =====
-- src/app/state.rs: what holds of the state of the application after any sequence of actions.
use anemone_rs.Base.{
  ℕ, ℤ, pos, negsuc, suc, zero, ◌≤◌, Bool, true, false, Option, none, some, List, [], ◌∷◌, ◌≡◌,
  refl, sym, subst, arith, int_lt, IntWithin, ◌==◌, length, Text, Bool-cases, inl, inr,
}
use anemone_rs.Backlog.Push
use anemone_rs.HookText.Merger
use anemone_rs.HookText.Merger.Released.{window_ms-set_window_ms}
use anemone_rs.Config.App.{
  Config, toggle_window_visible, toggle_click_through, toggle_background_visible,
  toggle_border_visible,
}
use anemone_rs.Config.Limits.{clamp_u32}
use anemone_rs.Config.Hook.{
  HookConfig, save_profile, max_saved_profiles, min_merge_window_ms, max_merge_window_ms,
}
use anemone_rs.Config.Hook.Laws.{length-drain_excess}
use anemone_rs.Config.Translation.{TranslationConfig}
use anemone_rs.AppState.Model.{AppModel, AppCommand, AppAction, HookSessionInfo, Effect}
use anemone_rs.AppState.Reducer.{
  succ_i32, pred_i32, min_i32, max_i32, set_all_text_sizes, toggle_clipboard_watch, update_command,
  keep_background, capture, restore, save_hook_profile, set_hook_merge_window, route_set, update,
  run,
}

abbrev TextSize : ℤ → Type 0
TextSize = IntWithin (pos 6) (pos 100)

-- The sizes of the texts are those that can be set.
pub record SizesWithin (c : Config) : Type 0 where
  pub name_size : TextSize c.name_style.size
  pub original_size : TextSize c.original_style.size
  pub translation_size : TextSize c.translation_style.size

-- The settings of the hook are within their limits, and the merger has their window.
pub record HookWithin (window_ms : ℕ) (hook : HookConfig) : Type 0 where
  pub in_step : window_ms ≡ hook.merge_window_ms
  pub window_low : min_merge_window_ms ≤ hook.merge_window_ms
  pub window_high : hook.merge_window_ms ≤ max_merge_window_ms
  pub profiles : length hook.saved_profiles ≤ max_saved_profiles

-- The window of the merger is the one of the settings, which is within its limits, as are the sizes
-- of the texts and the number of profiles; and the history is valid.
pub record IsValid (m : AppModel) : Type 0 where
  pub sizes : SizesWithin m.config
  pub hook : HookWithin m.runtime.hook_merger.window_ms m.config.hook
  pub history : Push.IsValid m.backlog

-- A draft that is applied has sizes that can be set.
abbrev pub Allowed : AppAction → Type 0
Allowed (AppAction.preview_settings draft) = SizesWithin draft
Allowed (AppAction.commit_settings draft) = SizesWithin draft
Allowed _ = Unit

abbrev pub AllAllowed : List AppAction → Type 0
AllAllowed [] = Unit
AllAllowed (a ∷ rest) = Allowed a × AllAllowed rest

TextSize-succ : (s : ℤ) → TextSize s → TextSize (min_i32 (succ_i32 s) (pos 100))
unfolding min_i32 succ_i32 int_lt
TextSize-succ (pos n) w = ground arith
TextSize-succ (negsuc n) w = ground arith

TextSize-pred : (s : ℤ) → TextSize s → TextSize (max_i32 (pred_i32 s) (pos 6))
unfolding max_i32 pred_i32 int_lt
TextSize-pred (pos zero) w = ground arith
TextSize-pred (pos (suc n)) w = ground arith
TextSize-pred (negsuc n) w = ground arith

-- A change of the settings that leaves the hook alone.
with_config-IsValid :
    (m : AppModel) (c : Config)
    → IsValid m
    → SizesWithin c
    → c.hook ≡ m.config.hook
    → IsValid (record m { config = c })
with_config-IsValid m c v sizes same = record {
  sizes = sizes;
  hook = subst (HookWithin m.runtime.hook_merger.window_ms) (sym same) v.hook;
  history = v.history;
}

set_all_text_sizes-IsValid :
    (m : AppModel) (size : ℤ)
    → IsValid m
    → TextSize size
    → IsValid (record m { config = set_all_text_sizes m.config size })
unfolding set_all_text_sizes
set_all_text_sizes-IsValid m size v fits =
    with_config-IsValid m (set_all_text_sizes m.config size) v
      (record { name_size = fits; original_size = fits; translation_size = fits }) refl

same_sizes :
    (c d : Config)
    → d.name_style ≡ c.name_style
    → d.original_style ≡ c.original_style
    → d.translation_style ≡ c.translation_style
    → SizesWithin c
    → SizesWithin d
same_sizes c d n o t v = record {
  name_size = subst (λ s. TextSize s.size) (sym n) v.name_size;
  original_size = subst (λ s. TextSize s.size) (sym o) v.original_size;
  translation_size = subst (λ s. TextSize s.size) (sym t) v.translation_size;
}

-- A command that changes neither the sizes nor the hook.
kept-IsValid :
    (m : AppModel) (c : Config)
    → IsValid m
    → c.name_style ≡ m.config.name_style
    → c.original_style ≡ m.config.original_style
    → c.translation_style ≡ m.config.translation_style
    → c.hook ≡ m.config.hook
    → IsValid (record m { config = c })
kept-IsValid m c v n o t h = with_config-IsValid m c v (same_sizes m.config c n o t v.sizes) h

toggle_clipboard_watch-IsValid :
    (m : AppModel) (session : Option HookSessionInfo)
    → IsValid m
    → IsValid (toggle_clipboard_watch m session).0
unfolding toggle_clipboard_watch
toggle_clipboard_watch-IsValid m none v = kept-IsValid m _ v refl refl refl refl
toggle_clipboard_watch-IsValid m (some session) v = v

update_command-IsValid :
    (m : AppModel) (c : AppCommand) → IsValid m → IsValid (update_command m c).0
unfolding update_command toggle_window_visible toggle_click_through toggle_background_visible
    toggle_border_visible
update_command-IsValid m AppCommand.window_show v = kept-IsValid m _ v refl refl refl refl
update_command-IsValid m AppCommand.click_through v = kept-IsValid m _ v refl refl refl refl
update_command-IsValid m AppCommand.clipboard_watch v =
    toggle_clipboard_watch-IsValid m m.runtime.hook_session v
update_command-IsValid m AppCommand.background_toggle v = kept-IsValid m _ v refl refl refl refl
update_command-IsValid m AppCommand.border_toggle v = kept-IsValid m _ v refl refl refl refl
update_command-IsValid m AppCommand.magnetic_mode v = kept-IsValid m _ v refl refl refl refl
update_command-IsValid m AppCommand.settings v = v
update_command-IsValid m AppCommand.translate v = v
update_command-IsValid m AppCommand.backlog v = v
update_command-IsValid m AppCommand.file_trans v = v
update_command-IsValid m AppCommand.hook_find v = v
update_command-IsValid m AppCommand.hook_stop v = v
update_command-IsValid m AppCommand.text_size_up v =
    set_all_text_sizes-IsValid m _ v (TextSize-succ _ v.sizes.translation_size)
update_command-IsValid m AppCommand.text_size_down v =
    set_all_text_sizes-IsValid m _ v (TextSize-pred _ v.sizes.translation_size)
update_command-IsValid m AppCommand.exit v = v

-- A draft brings its sizes, and keeps the hook.
keep_background-IsValid :
    (m : AppModel) (draft : Config)
    → IsValid m
    → SizesWithin draft
    → IsValid (record m { config = keep_background m.config draft })
unfolding keep_background restore capture
keep_background-IsValid m draft v sizes =
    with_config-IsValid m (keep_background m.config draft) v
      (record {
        name_size = sizes.name_size;
        original_size = sizes.original_size;
        translation_size = sizes.translation_size;
      })
      refl

clamp_u32-within :
    (low high value : ℕ)
    → low ≤ high
    → (low ≤ clamp_u32 low high value) × (clamp_u32 low high value ≤ high)
unfolding clamp_u32
clamp_u32-within low high value h = ground arith

pub window_kept :
    (m : AppModel) (window : ℕ)
    → (m.config.hook.merge_window_ms == window) ≡ true
    → set_hook_merge_window m window ≡ (m, [])
unfolding set_hook_merge_window
window_kept m window h = rw (set_hook_merge_window, h) refl

pub set_window : AppModel → ℕ → AppModel
set_window m window = record m {
  config = record m.config { hook = record m.config.hook { merge_window_ms = window } };
  runtime = record m.runtime { hook_merger = Merger.set_window_ms m.runtime.hook_merger window };
}

pub window_changed :
    (m : AppModel) (window : ℕ)
    → (m.config.hook.merge_window_ms == window) ≡ false
    → set_hook_merge_window m window ≡ (set_window m window, Effect.save_config ∷ [])
unfolding set_hook_merge_window set_window
window_changed m window h = rw (set_hook_merge_window, h) refl

set_hook_merge_window-IsValid :
    (m : AppModel) (window : ℕ)
    → IsValid m
    → min_merge_window_ms ≤ window
    → window ≤ max_merge_window_ms
    → IsValid (set_hook_merge_window m window).0
unfolding set_hook_merge_window set_window
set_hook_merge_window-IsValid m window v low high =
    elim (Bool-cases (m.config.hook.merge_window_ms == window)) [
      | inl same ↦ subst (λ r. IsValid r.0) (sym (window_kept m window same)) v
      | inr new ↦
          subst (λ r. IsValid r.0) (sym (window_changed m window new))
            (record {
              sizes = same_sizes m.config (set_window m window).config refl refl refl v.sizes;
              hook = record {
                in_step = window_ms-set_window_ms m.runtime.hook_merger window;
                window_low = low;
                window_high = high;
                profiles = v.hook.profiles;
              };
              history = v.history;
            })
    ]

save_hook_profile-IsValid :
    (m : AppModel) (session : Option HookSessionInfo) (name : Text) (code : Option Text)
    → IsValid m
    → IsValid (save_hook_profile m session name code).0
unfolding save_hook_profile save_profile
save_hook_profile-IsValid m none name code v = v
save_hook_profile-IsValid m (some session) name code v = record {
  sizes = same_sizes m.config _ refl refl refl v.sizes;
  hook = record {
    in_step = v.hook.in_step;
    window_low = v.hook.window_low;
    window_high = v.hook.window_high;
    profiles = length-drain_excess _;
  };
  history = v.history;
}

route_set-IsValid :
    (m : AppModel) (changed : Bool) (translation : TranslationConfig)
    → IsValid m
    → IsValid (route_set m (changed, record m.config { translation = translation })).0
unfolding route_set
route_set-IsValid m true translation v = kept-IsValid m _ v refl refl refl refl
route_set-IsValid m false translation v = v

update-IsValid : (m : AppModel) (a : AppAction) → IsValid m → Allowed a → IsValid (update m a).0
unfolding update
update-IsValid m (AppAction.command c) v ok = update_command-IsValid m c v
update-IsValid m (AppAction.preview_settings draft) v ok =
    let w = keep_background-IsValid m draft v ok in
    kept-IsValid (record m { config = keep_background m.config draft }) _ w refl refl refl refl
update-IsValid m (AppAction.commit_settings draft) v ok = keep_background-IsValid m draft v ok
update-IsValid m AppAction.clear_backlog v ok = record {
  sizes = v.sizes;
  hook = v.hook;
  history = Push.clear-IsValid m.backlog;
}
update-IsValid m AppAction.clear_translation_cache v ok = v
update-IsValid m (AppAction.set_translation_route route selection) v ok = route_set-IsValid m _ _ v
update-IsValid m (AppAction.save_hook_profile name code) v ok =
    save_hook_profile-IsValid m m.runtime.hook_session name code v
update-IsValid m (AppAction.set_hook_merge_window window) v ok =
    let (low, high) =
      clamp_u32-within min_merge_window_ms max_merge_window_ms window (omega arith) in
    set_hook_merge_window-IsValid m _ v low high
update-IsValid m AppAction.settings_dialog_closed v ok = v
update-IsValid m (AppAction.translate_dialog_closed session) v ok = v
update-IsValid m (AppAction.file_trans_dialog_closed session) v ok = v
update-IsValid m (AppAction.update_check_settled none) v ok = v
update-IsValid m (AppAction.update_check_settled (some t)) v ok =
    kept-IsValid m _ v refl refl refl refl
update-IsValid m AppAction.request_update_check v ok = v
update-IsValid m AppAction.request_update_apply v ok = v

-- The state stays valid over any sequence of actions whose drafts have sizes that can be set.
pub run-IsValid :
    (m : AppModel) (actions : List AppAction)
    → IsValid m
    → AllAllowed actions
    → IsValid (run m actions).0
unfolding run
run-IsValid m [] v ok = v
run-IsValid m (a ∷ rest) v ok = run-IsValid (update m a).0 rest (update-IsValid m a v ok.0) ok.1

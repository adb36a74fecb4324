-- ===== src/AppState/Tests.antt =====
-- Runs of src/app/state.rs, action.rs and hook_text.rs at concrete states, with the theorems there.
use anemone_rs.Base.{
  ℕ, ◌+◌, ◌≤◌, pos, Bool, true, false, none, some, List, [], ◌∷◌, ◌++◌, ◌≡◌, refl, inl, inr, ◌⊎◌,
  Text, int_lt, arith, length,
}
use anemone_rs.Backlog
use anemone_rs.Backlog.Push.{new-IsValid}
use anemone_rs.HookText.Merger
use anemone_rs.HookText.Merger.Released.{window_ms-new}
use anemone_rs.Config.App.{Config, default_config}
use anemone_rs.Config.Limits.{clamp_u32}
use anemone_rs.AppState.Model.{
  PendingTranslation, QueuedHookText, AppState, AppModel, AppCommand, AppAction,
}
use anemone_rs.AppState.Reducer.{
  update, run, update_command, save_hook_profile, set_hook_merge_window, set_all_text_sizes,
  min_i32, max_i32, succ_i32, pred_i32,
}
use anemone_rs.AppState.Preview.{preview_all, commit-preview_all}
use anemone_rs.AppState.Valid.{IsValid, run-IsValid}
use anemone_rs.AppState.Effects.{update-saves}
use anemone_rs.AppState.Actions.{process_actions, process, next_action, latest, process_actions-run}
use anemone_rs.AppState.Pending.{
  correlate_all, correlate_translation, settled, first_answer, correlate_all-settled,
}
use anemone_rs.AppState.HookQueue.{
  queue_all, queue_hook_text, join_pieces, take_queued_hook_text, queue_all-conserved,
}

program : Unit {0}
unfolding int_lt clamp_u32 update run update_command save_hook_profile set_hook_merge_window
    set_all_text_sizes min_i32 max_i32 succ_i32 pred_i32 preview_all process_actions process
    next_action latest correlate_all correlate_translation first_answer queue_all queue_hook_text
    join_pieces take_queued_hook_text
program = tt

abbrev base : Config
base = default_config (λ s. s) (λ n. n + 65)

abbrev quiet : AppState
quiet = record {
  client_size = record { width = pos 844; height = pos 200 };
  resizing = false;
  pending_resize = none;
  original_text = [];
  translated_text = [];
  overlay_notice = none;
  pending_translation = none;
  clipboard_debounce = record { pending = none };
  hook_session = none;
  hook_merger = Merger.new 100;
  hook_text_queue = [];
}

abbrev start : AppModel
start = record { config = base; backlog = Backlog.new; runtime = quiet }

abbrev hidden : Config
hidden = record base { border_visible = false }

-- Two steps up from the size 22.
two_sizes_up :
    (run start (
      AppAction.command AppCommand.text_size_up
      ∷ AppAction.command AppCommand.text_size_up
      ∷ [])).0.config.name_style.size
    ≡ pos 24
unfolding program
two_sizes_up = refl

-- Without a session a profile has no game to belong to.
profile_without_session : update start (AppAction.save_hook_profile [] none) ≡ (start, [])
unfolding program
profile_without_session = refl

commit-preview_all_example :
    update (preview_all start (hidden ∷ base ∷ [])) (AppAction.commit_settings hidden)
    ≡ update start (AppAction.commit_settings hidden)
commit-preview_all_example = commit-preview_all start (hidden ∷ base ∷ []) hidden

abbrev two_actions : List AppAction
two_actions = AppAction.preview_settings hidden ∷ AppAction.command AppCommand.text_size_up ∷ []

run-IsValid_example : IsValid (run start two_actions).0
unfolding program
run-IsValid_example =
    run-IsValid start two_actions
      (record {
        sizes = record {
          name_size = (refl, refl);
          original_size = (refl, refl);
          translation_size = (refl, refl);
        };
        hook = record {
          in_step = window_ms-new 100;
          window_low = omega arith;
          window_high = omega arith;
          profiles = omega arith;
        };
        history = new-IsValid;
      })
      (
        record {
          name_size = (refl, refl);
          original_size = (refl, refl);
          translation_size = (refl, refl);
        },
        (tt, tt),
      )

update-saves_example : (update start (AppAction.set_hook_merge_window 7)).0.config ≡ start.config
unfolding program
update-saves_example = update-saves start (AppAction.set_hook_merge_window 7) refl refl

abbrev previews : List AppAction
previews = AppAction.preview_settings hidden ∷ AppAction.preview_settings base ∷ []

process_actions-run_example :
    ((process_actions start previews).1 ≡ [])
    × ((process_actions start previews).0.0 ≡ (run start previews).0)
process_actions-run_example = process_actions-run start previews (omega arith)

abbrev request : PendingTranslation
request = record {
  req_id = 7;
  original = 65 ∷ [];
  cache_key = record { engine_id = []; source_lang = []; target_lang = []; original = 65 ∷ [] };
  requested_at = 0;
}

-- A stale answer, the answer, and a late one.
abbrev answers : List (ℕ × (Text ⊎ Text))
answers = (6, inr (66 ∷ [])) ∷ (7, inr (67 ∷ [])) ∷ (7, inl []) ∷ []

correlate_all-settled_example :
    correlate_all (some request) answers ≡ settled request (first_answer request answers)
correlate_all-settled_example = correlate_all-settled request answers

abbrev sentence : ℕ → Bool → QueuedHookText
sentence c full = record { text = c ∷ []; full_string = full }

-- Whole sentences get lines of their own.
sentences_are_joined :
    take_queued_hook_text (sentence 65 false ∷ sentence 66 false ∷ sentence 67 true ∷ [])
    ≡ (some (65 ∷ 66 ∷ 10 ∷ 67 ∷ []), [])
unfolding program
sentences_are_joined = refl

queue_all-conserved_example :
    ((queue_all [] (sentence 65 true ∷ [])).0 ++ (queue_all [] (sentence 65 true ∷ [])).1
      ≡ sentence 65 true ∷ [])
    × (length (queue_all [] (sentence 65 true ∷ [])).1 ≤ 8)
queue_all-conserved_example = queue_all-conserved [] (sentence 65 true ∷ []) (omega arith)

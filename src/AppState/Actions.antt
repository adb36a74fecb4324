-- ===== src/AppState/Actions.antt =====
-- src/app/action.rs: the queue of actions, in which previews that follow one another become one. What
-- the window does with the effects between two actions is left out.
use anemone_rs.Base.{
  ℕ, zero, suc, ◌≤◌, Option, none, some, List, [], ◌∷◌, ◌++◌, ◌-◌, ◌⊎◌, ◌≡◌, refl, ap, sym, subst,
  ◌∙◌, arith, length, inl, inr,
}
use anemone_rs.Config.App.{Config}
use anemone_rs.AppState.Model.{AppModel, AppAction}
use anemone_rs.AppState.Reducer.{Reduced, update, run}
use anemone_rs.AppState.Preview.{update-preview_preview}

abbrev pub action_batch_size : ℕ
action_batch_size = 32

abbrev pub as_preview : AppAction → Option Config
as_preview (AppAction.preview_settings draft) = some draft
as_preview _ = none

abbrev pub send : List AppAction → AppAction → List AppAction
send queue a = queue ++ a ∷ []

-- A preview takes the place of one that waits at the back.
unfoldable pub preview_settings : List AppAction → Config → List AppAction
preview_settings [] draft = AppAction.preview_settings draft ∷ []
preview_settings (a ∷ []) draft = elim (as_preview a) [
  | some waiting ↦ AppAction.preview_settings draft ∷ []
  | none ↦ a ∷ AppAction.preview_settings draft ∷ []
]
preview_settings (a ∷ b ∷ queue) draft = a ∷ preview_settings (b ∷ queue) draft

-- The inner loop of `process_actions`: the draft of the last preview in a row.
unfoldable pub latest : Config → List AppAction → Config × List AppAction
latest draft [] = (draft, [])
latest draft (a ∷ queue) = elim (as_preview a) [
  | some next ↦ latest next queue
  | none ↦ (draft, a ∷ queue)
]

unfoldable pub next_action : AppAction → List AppAction → AppAction × List AppAction
next_action a queue = elim (as_preview a) [
  | some draft ↦ let (last, rest) = latest draft queue in (AppAction.preview_settings last, rest)
  | none ↦ (a, queue)
]

-- The loop of `process_actions`, with the turns that are left.
unfoldable pub process : ℕ → AppModel → List AppAction → Reduced × List AppAction
process zero m queue = ((m, []), queue)
process (suc n) m [] = ((m, []), [])
process (suc n) m (a ∷ queue) =
    let (next, rest) = next_action a queue in
    let (m1, effects) = update m next in
    let ((m2, later), left) = process n m1 rest in ((m2, effects ++ later), left)

unfoldable pub process_actions : AppModel → List AppAction → Reduced × List AppAction
process_actions m queue = process action_batch_size m queue

preview_or_not :
    (a : AppAction)
    → (as_preview a ≡ none) ⊎ ((draft : Config) × (a ≡ AppAction.preview_settings draft))
preview_or_not (AppAction.command c) = inl refl
preview_or_not (AppAction.preview_settings draft) = inr (draft, refl)
preview_or_not (AppAction.commit_settings draft) = inl refl
preview_or_not AppAction.clear_backlog = inl refl
preview_or_not AppAction.clear_translation_cache = inl refl
preview_or_not (AppAction.set_translation_route route selection) = inl refl
preview_or_not (AppAction.save_hook_profile name code) = inl refl
preview_or_not (AppAction.set_hook_merge_window window) = inl refl
preview_or_not AppAction.settings_dialog_closed = inl refl
preview_or_not (AppAction.translate_dialog_closed session) = inl refl
preview_or_not (AppAction.file_trans_dialog_closed session) = inl refl
preview_or_not (AppAction.update_check_settled check) = inl refl
preview_or_not AppAction.request_update_check = inl refl
preview_or_not AppAction.request_update_apply = inl refl

-- The state after the last preview in a row and the actions that are left.
run-latest :
    (m : AppModel) (draft : Config) (queue : List AppAction)
    → (run
        (update m (AppAction.preview_settings (latest draft queue).0)).0
        (latest draft queue).1).0
      ≡ (run (update m (AppAction.preview_settings draft)).0 queue).0
unfolding latest run
run-latest m draft [] = refl
run-latest m draft (a ∷ queue) = elim (preview_or_not a) [
  | inl other ↦
      let e : latest draft (a ∷ queue) ≡ (draft, a ∷ queue) = rw (latest, other) refl in
      ap (λ r. (run (update m (AppAction.preview_settings r.0)).0 r.1).0) e
  | inr again ↦
      subst
        (λ b.
          (run (update m (AppAction.preview_settings (latest draft (b ∷ queue)).0)).0
            (latest draft (b ∷ queue)).1).0
          ≡ (run (update m (AppAction.preview_settings draft)).0 (b ∷ queue)).0)
        (sym again.1)
        (run-latest m again.0 queue
          ∙ ap (λ r. (run r.0 queue).0) (sym (update-preview_preview m draft again.0)))
]

run-next_action :
    (m : AppModel) (a : AppAction) (queue : List AppAction)
    → (run (update m (next_action a queue).0).0 (next_action a queue).1).0 ≡ (run m (a ∷ queue)).0
unfolding next_action run
run-next_action m a queue = elim (preview_or_not a) [
  | inl other ↦
      let e : next_action a queue ≡ (a, queue) = rw (next_action, other) refl in
      ap (λ r. (run (update m r.0).0 r.1).0) e
  | inr again ↦
      subst
        (λ b.
          (run (update m (next_action b queue).0).0 (next_action b queue).1).0
          ≡ (run m (b ∷ queue)).0)
        (sym again.1) (run-latest m again.0 queue)
]

-- A batch that joins previews, followed by what it left in the queue, gives the state that the
-- queued actions give one by one.
pub run-process :
    (n : ℕ) (m : AppModel) (queue : List AppAction)
    → (run (process n m queue).0.0 (process n m queue).1).0 ≡ (run m queue).0
unfolding process
run-process zero m queue = refl
run-process (suc n) m [] = refl
run-process (suc n) m (a ∷ queue) =
    run-process n (update m (next_action a queue).0).0 (next_action a queue).1
    ∙ run-next_action m a queue

length-latest :
    (draft : Config) (queue : List AppAction) → length (latest draft queue).1 ≤ length queue
unfolding latest
length-latest draft [] = omega arith
length-latest draft (a ∷ queue) = elim (preview_or_not a) [
  | inl other ↦
      let e : latest draft (a ∷ queue) ≡ (draft, a ∷ queue) = rw (latest, other) refl in
      omega (arith, ap (λ r. length r.1) e)
  | inr again ↦
      subst (λ b. length (latest draft (b ∷ queue)).1 ≤ suc (length queue)) (sym again.1)
        (omega (arith, length-latest again.0 queue))
]

length-next_action :
    (a : AppAction) (queue : List AppAction) → length (next_action a queue).1 ≤ length queue
unfolding next_action
length-next_action a queue = elim (preview_or_not a) [
  | inl other ↦
      let e : next_action a queue ≡ (a, queue) = rw (next_action, other) refl in
      omega (arith, ap (λ r. length r.1) e)
  | inr again ↦
      subst (λ b. length (next_action b queue).1 ≤ length queue) (sym again.1)
        (length-latest again.0 queue)
]

-- Each turn of a batch takes at least one action.
length-process :
    (n : ℕ) (m : AppModel) (queue : List AppAction)
    → length (process n m queue).1 ≤ length queue - n
unfolding process
length-process zero m queue = omega arith
length-process (suc n) m [] = omega arith
length-process (suc n) m (a ∷ queue) = omega (
  arith,
  length-process n (update m (next_action a queue).0).0 (next_action a queue).1,
  length-next_action a queue,
)

run-append :
    (m : AppModel) (xs ys : List AppAction) → (run m (xs ++ ys)).0 ≡ (run (run m xs).0 ys).0
unfolding run
run-append m [] ys = refl
run-append m (x ∷ xs) ys = run-append (update m x).0 xs ys

-- A preview that takes the place of the one at the back of the queue leads to the state that it
-- leads to behind it.
pub run-preview_settings :
    (m : AppModel) (queue : List AppAction) (draft : Config)
    → (run m (preview_settings queue draft)).0
      ≡ (run m (send queue (AppAction.preview_settings draft))).0
unfolding preview_settings run
run-preview_settings m [] draft = refl
run-preview_settings m (a ∷ b ∷ queue) draft = run-preview_settings (update m a).0 (b ∷ queue) draft
run-preview_settings m (a ∷ []) draft = elim (preview_or_not a) [
  | inl other ↦
      let e : preview_settings (a ∷ []) draft ≡ a ∷ AppAction.preview_settings draft ∷ [] =
        rw (preview_settings, other) refl in
      ap (λ q. (run m q).0) e
  | inr again ↦
      subst
        (λ b.
          (run m (preview_settings (b ∷ []) draft)).0
          ≡ (run m (b ∷ AppAction.preview_settings draft ∷ [])).0)
        (sym again.1) (ap (λ r. r.0) (sym (update-preview_preview m again.0 draft)))
]

run_none : (m : AppModel) (queue : List AppAction) → queue ≡ [] → (run m queue).0 ≡ m
unfolding run
run_none m [] h = refl
run_none m (a ∷ queue) h = cc

empty_length : (queue : List AppAction) → length queue ≤ 0 → queue ≡ []
empty_length [] h = refl
empty_length (a ∷ queue) h = ground arith

-- A batch finishes a queue of at most 32 actions, with the state that they give one by one.
pub process_actions-run :
    (m : AppModel) (queue : List AppAction)
    → length queue ≤ action_batch_size
    → ((process_actions m queue).1 ≡ []) × ((process_actions m queue).0.0 ≡ (run m queue).0)
unfolding process_actions
process_actions-run m queue h =
    let left = empty_length (process 32 m queue).1 (omega (arith, length-process 32 m queue)) in
    (left, sym (run_none _ _ left) ∙ run-process 32 m queue)

-- ===== src/AppState/Preview.antt =====
-- src/app/state.rs: previews of the settings leave no trace in the settings that are committed.
use anemone_rs.Base.{List, [], ◌∷◌, ◌≡◌, refl, ◌∙◌}
use anemone_rs.Config.App.{Config}
use anemone_rs.AppState.Model.{AppModel, AppAction}
use anemone_rs.AppState.Reducer.{update, keep_background, capture, restore}

-- A later preview replaces an earlier one.
pub update-preview_preview :
    (m : AppModel) (d1 d2 : Config)
    → update (update m (AppAction.preview_settings d1)).0 (AppAction.preview_settings d2)
      ≡ update m (AppAction.preview_settings d2)
unfolding update keep_background capture restore
update-preview_preview m d1 d2 = refl

update-preview_commit :
    (m : AppModel) (d1 d2 : Config)
    → update (update m (AppAction.preview_settings d1)).0 (AppAction.commit_settings d2)
      ≡ update m (AppAction.commit_settings d2)
unfolding update keep_background capture restore
update-preview_commit m d1 d2 = refl

unfoldable pub preview_all : AppModel → List Config → AppModel
preview_all m [] = m
preview_all m (d ∷ ds) = preview_all (update m (AppAction.preview_settings d)).0 ds

-- However often the settings are previewed, a commit gives the state and the effects, with the new
-- registration of the hotkeys when they changed, that it gives without the previews.
pub commit-preview_all :
    (m : AppModel) (drafts : List Config) (draft : Config)
    → update (preview_all m drafts) (AppAction.commit_settings draft)
      ≡ update m (AppAction.commit_settings draft)
unfolding preview_all
commit-preview_all m [] draft = refl
commit-preview_all m (d ∷ ds) draft =
    commit-preview_all (update m (AppAction.preview_settings d)).0 ds draft
    ∙ update-preview_commit m d draft

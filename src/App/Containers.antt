-- ===== src/App/Containers.antt =====
-- The operations on projects and features, of internal/app/project.go and internal/app/service.go.
use next_now_x.Prelude.{
  Str, [], Option, some, none, Bool, true, false, if◌then◌else◌, Result, ok, err, ◌>>=◌, ◌>>◌,
}
use next_now_x.Strings.Space.{trim_space}
use next_now_x.Domain.Models.{
  Project, Feature, FeatureStatus, ProjectUpdate, FeatureUpdate, Error, new_error, invalid_title,
  invalid_status,
}
use next_now_x.App.Repository.{Repository, Written, checked}
use next_now_x.App.Archive.{
  archived_feature_flag_only, archived_project_flag_only, guard_project, with_read_only,
  guard_feature, resolve_project, resolve_feature, resolve_project_assignment, is_empty,
}
use next_now_x.App.Overrides.{apply_prompt_overrides, apply_label_overrides}

-- `if value != nil { field = *value }`.
abbrev pub or_kept {ℓ} : {A : Type ℓ} → Option A → A → A
or_kept none kept = kept
or_kept (some value) kept = value

-- An update of overrides that may be missing.
abbrev apply_if {ℓ κ} :
    {A : Type ℓ} {B : Type κ} → (A → B → Result Error B) → Option A → B → Result Error B
apply_if apply none current = ok current
apply_if apply (some update) current = apply update current

abbrev pub trimmed : Option Str → Option Str
trimmed none = none
trimmed (some value) = some (trim_space value)

-- The text that is not in the list of `oneOf`. The empty status of a request changes nothing.
abbrev pub is_known_status : FeatureStatus → Bool
is_known_status (FeatureStatus.other _) = false
is_known_status _ = true

abbrev status_or : Option FeatureStatus → FeatureStatus → FeatureStatus
status_or none kept = kept
status_or (some (FeatureStatus.other [])) kept = kept
status_or (some status) kept = status

unfoldable pub titled_project : Project → Result Error Project
titled_project project =
    if is_empty project.title then err (new_error invalid_title) else ok project

-- The fields of `UpdateProject`, and the test of the title.
unfoldable pub project_fields : ProjectUpdate → Project → Result Error Project
unfolding apply_prompt_overrides apply_label_overrides trim_space titled_project
project_fields update project = do
  prompts ← apply_if apply_prompt_overrides update.prompt_overrides project.prompt_overrides
  labels ← apply_if apply_label_overrides update.task_label_overrides project.task_label_overrides
  titled_project (record project {
    title = or_kept (trimmed update.title) project.title;
    description = or_kept update.description project.description;
    prompt_overrides = prompts;
    task_label_overrides = labels;
    archived = or_kept update.archived project.archived;
  })

unfoldable pub known_feature : Feature → Result Error Feature
known_feature feature =
    if is_known_status feature.status then ok feature else err (new_error invalid_status)

-- The fields of `UpdateFeature` after the project, and the test of the status.
unfoldable pub feature_fields : FeatureUpdate → Feature → Result Error Feature
unfolding apply_prompt_overrides apply_label_overrides trim_space known_feature
feature_fields update feature = do
  prompts ← apply_if apply_prompt_overrides update.prompt_overrides feature.prompt_overrides
  labels ← apply_if apply_label_overrides update.task_label_overrides feature.task_label_overrides
  known_feature (record feature {
    title = or_kept (trimmed update.title) feature.title;
    description = or_kept update.description feature.description;
    prompt_overrides = prompts;
    task_label_overrides = labels;
    status = status_or update.status feature.status;
    archived = or_kept update.archived feature.archived;
  })

module _ {S : Type 0} (repo : Repository S) where
  -- A feature that is written comes back with its derived flag, read from the new state.
  abbrev pub finish_feature : Written S Feature → Written S Feature
  finish_feature (s, err e) = (s, err e)
  finish_feature (s, ok feature) = (s, with_read_only repo s feature)

  unfoldable pub create_project : Str → Str → S → Written S Project
  unfolding trim_space
  create_project title description s =
      if is_empty (trim_space title)
      then (s, err (new_error invalid_title))
      else repo.create_project (trim_space title) (trim_space description) s

  unfoldable pub project_update_tests : Str → ProjectUpdate → S → Result Error Project
  unfolding project_fields resolve_project guard_project archived_project_flag_only
  project_update_tests id update s = do
    project ← resolve_project repo s id
    if archived_project_flag_only update then ok tt else guard_project project
    project_fields update project

  unfoldable pub update_project : Str → ProjectUpdate → S → Written S Project
  unfolding project_update_tests
  update_project id update s =
      checked s (project_update_tests id update s) (λ project. repo.update_project project)

  unfoldable pub delete_project : Str → Bool → S → Written S (Unit {0})
  unfolding resolve_project
  delete_project id cascade s =
      checked s (resolve_project repo s id) (λ project. repo.delete_project project.id cascade)

  unfoldable pub create_feature : Str → Str → Str → S → Written S Feature
  unfolding trim_space resolve_project_assignment with_read_only
  create_feature title description project_id s =
      if is_empty (trim_space title)
      then (s, err (new_error invalid_title))
      else checked s (resolve_project_assignment repo s (trim_space project_id)) (λ project s'.
        finish_feature (repo.create_feature (trim_space title) (trim_space description) project s'))

  unfoldable pub assigned : Option Str → Feature → S → Result Error Feature
  unfolding trim_space resolve_project_assignment
  assigned none feature s = ok feature
  assigned (some project_id) feature s = do
    project ← resolve_project_assignment repo s (trim_space project_id)
    ok (record feature { project_id = project })

  unfoldable pub feature_update_tests : Str → FeatureUpdate → S → Result Error Feature
  unfolding feature_fields assigned resolve_feature guard_feature archived_feature_flag_only
  feature_update_tests id update s = do
    feature ← resolve_feature repo s id
    if archived_feature_flag_only update then ok tt else guard_feature repo s feature
    moved ← assigned update.project_id feature s
    feature_fields update moved

  unfoldable pub update_feature : Str → FeatureUpdate → S → Written S Feature
  unfolding feature_update_tests with_read_only
  update_feature id update s =
      checked s (feature_update_tests id update s)
        (λ feature s'. finish_feature (repo.update_feature feature s'))

  unfoldable pub delete_feature : Str → Bool → S → Written S (Unit {0})
  unfolding resolve_feature
  delete_feature id cascade s =
      checked s (resolve_feature repo s id) (λ feature. repo.delete_feature feature.id cascade)

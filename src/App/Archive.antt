-- ===== src/App/Archive.antt =====
-- internal/app/archive.go: the guards that keep what is archived from being written, with
-- `ResolveProject` of project.go and `ResolveFeature` of service.go.
use next_now_x.Prelude.{
  Str, [], ◌∷◌, Option, some, none, Bool, true, false, if◌then◌else◌, Result, ok, err, ◌>>=◌, ◌>>◌,
}
use next_now_x.Domain.Models.{
  Project, Feature, Task, Document, ProjectUpdate, FeatureUpdate, Error, new_error,
  archived_read_only, invalid_parent,
}
use next_now_x.App.Repository.{Repository}

abbrev is_none {ℓ} : {A : Type ℓ} → Option A → Bool
is_none none = true
is_none (some _) = false

abbrev pub is_empty : Str → Bool
is_empty [] = true
is_empty (_ ∷ _) = false

-- `archivedReadOnly`.
abbrev pub read_only_error : Error
read_only_error = new_error archived_read_only

-- `archivedFeatureFlagOnly`: the flag is set, and the update without it is the zero value.
unfoldable pub archived_feature_flag_only : FeatureUpdate → Bool
archived_feature_flag_only u =
    if is_none u.archived
    then false
    else if is_none u.title
    then if is_none u.description
      then if is_none u.status
        then if is_none u.project_id
          then if is_none u.prompt_overrides then is_none u.task_label_overrides else false
          else false
        else false
      else false
    else false

-- `archivedProjectFlagOnly`.
unfoldable pub archived_project_flag_only : ProjectUpdate → Bool
archived_project_flag_only u =
    if is_none u.archived
    then false
    else if is_none u.title
    then if is_none u.description
      then if is_none u.prompt_overrides then is_none u.task_label_overrides else false
      else false
    else false

-- `guardProject`.
unfoldable pub guard_project : Project → Result Error (Unit {0})
guard_project project = if project.archived then err read_only_error else ok tt

module _ {S : Type 0} (repo : Repository S) (s : S) where
  unfoldable pub feature_read_only : Feature → Result Error Bool
  feature_read_only feature =
      if feature.archived
      then ok true
      else (repo.get_project feature.project_id s >>= λ project. ok project.archived)

  unfoldable pub with_read_only : Feature → Result Error Feature
  unfolding feature_read_only
  with_read_only feature = do
    read_only ← feature_read_only feature
    ok (record feature { read_only = read_only })

  unfoldable pub guard_feature : Feature → Result Error (Unit {0})
  unfolding feature_read_only
  guard_feature feature = do
    read_only ← feature_read_only feature
    if read_only then err read_only_error else ok tt

  unfoldable pub resolve_project : Str → Result Error Project
  resolve_project id = repo.get_project id s

  unfoldable pub resolve_feature : Str → Result Error Feature
  unfolding with_read_only
  resolve_feature id = do feature ← repo.get_feature id s; with_read_only feature

  unfoldable pub guard_task : Task → Result Error (Unit {0})
  unfolding resolve_feature guard_feature
  guard_task task = do feature ← resolve_feature task.feature_id; guard_feature feature

  unfoldable pub guard_task_id : Str → Result Error (Unit {0})
  unfolding guard_task
  guard_task_id id = do task ← repo.get_task id s; guard_task task

  unfoldable pub guard_parent : Str → Str → Str → Result Error (Unit {0})
  unfolding guard_task_id guard_project guard_feature resolve_feature
  guard_parent (c ∷ project) feature task = do p ← repo.get_project (c ∷ project) s; guard_project p
  guard_parent [] (c ∷ feature) task = do f ← resolve_feature (c ∷ feature); guard_feature f
  guard_parent [] [] (c ∷ task) = guard_task_id (c ∷ task)
  guard_parent [] [] [] = ok tt

  -- `guardDocument`.
  unfoldable pub guard_document : Document → Result Error (Unit {0})
  unfolding guard_parent
  guard_document document = guard_parent document.project_id document.feature_id document.task_id

  -- `resolveProjectAssignment`.
  unfoldable pub resolve_project_assignment : Str → Result Error Str
  unfolding guard_project resolve_project
  resolve_project_assignment [] = err (new_error invalid_parent)
  resolve_project_assignment (c ∷ requested) = do
    project ← resolve_project (c ∷ requested)
    guard_project project
    ok project.id

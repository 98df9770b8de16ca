-- ===== src/App/Barrier/Unarchive.antt =====
-- internal/app/archive.go with `UpdateFeature`, `UpdateProject` and `CreateFeature`: updates of the
-- flag `archived` alone, and features for a project that is archived.
use next_now_x.Prelude.{◌≡◌, refl, Str, [], ◌∷◌, some, none, Bool, true, false, ok, err}
use next_now_x.Domain.Models.{Project, Feature, FeatureUpdate, ProjectUpdate}
use next_now_x.App.Repository.{Repository}
use next_now_x.App.Archive.{
  read_only_error, archived_feature_flag_only, archived_project_flag_only, feature_read_only,
  with_read_only, resolve_feature, resolve_project, guard_project, resolve_project_assignment,
  is_empty,
}
use next_now_x.App.Containers.{
  update_feature, feature_update_tests, feature_fields, known_feature, assigned, finish_feature,
  is_known_status, create_feature, update_project, project_update_tests, project_fields,
  titled_project,
}
use next_now_x.Strings.Space.{trim_space}

-- The updates that set the flag and nothing else.
abbrev pub feature_flag : Bool → FeatureUpdate
feature_flag archived = record {
  title = none;
  description = none;
  status = none;
  archived = some archived;
  project_id = none;
  prompt_overrides = none;
  task_label_overrides = none;
}

abbrev project_flag : Bool → ProjectUpdate
project_flag archived = record {
  title = none;
  description = none;
  archived = some archived;
  prompt_overrides = none;
  task_label_overrides = none;
}

module _ {S : Type 0} (repo : Repository S) (s : S) where
  -- An update of the flag alone passes, whether the feature is read-only or not: the repository is
  -- given the feature with that flag, and nothing else of it has changed but the derived flag.
  pub update_feature-flag :
      (id : Str) (f : Feature) (read_only archived : Bool)
      → repo.get_feature id s ≡ ok f
      → feature_read_only repo s f ≡ ok read_only
      → is_known_status f.status ≡ true
      → update_feature repo id (feature_flag archived) s
        ≡ finish_feature repo
            (repo.update_feature (record f { read_only = read_only; archived = archived }) s)
  unfolding update_feature feature_update_tests feature_fields known_feature assigned
      resolve_feature with_read_only archived_feature_flag_only
  update_feature-flag id f read_only archived h k e = rw (h, k, e) refl

  -- An update of the flag alone passes, whether the project is archived or not: the repository is
  -- given the project with that flag, and nothing else of it has changed.
  update_project-flag :
      (id : Str) (p : Project) (archived : Bool)
      → repo.get_project id s ≡ ok p
      → is_empty p.title ≡ false
      → update_project repo id (project_flag archived) s
        ≡ repo.update_project (record p { archived = archived }) s
  unfolding update_project project_update_tests project_fields titled_project resolve_project
      archived_project_flag_only
  update_project-flag id p archived h e = rw (h, e) refl

  assignment-archived :
      (p : Project) (id : Str)
      → is_empty id ≡ false
      → repo.get_project id s ≡ ok p
      → p.archived ≡ true
      → resolve_project_assignment repo s id ≡ err read_only_error
  unfolding resolve_project_assignment resolve_project guard_project
  assignment-archived p [] k h a = cc
  assignment-archived p (c ∷ id) k h a = rw (h, a) refl

  -- No feature is created in a project that is archived: the error is `archived_read_only` and
  -- nothing is written.
  pub create_feature-archived :
      (title description id : Str) (p : Project)
      → is_empty (trim_space title) ≡ false
      → is_empty (trim_space id) ≡ false
      → repo.get_project (trim_space id) s ≡ ok p
      → p.archived ≡ true
      → create_feature repo title description id s ≡ (s, err read_only_error)
  unfolding create_feature
  create_feature-archived title description id p e k h a =
      rw (e, assignment-archived p (trim_space id) k h a) refl

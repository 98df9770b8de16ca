-- ===== src/App/Barrier.antt =====
-- internal/app/archive.go: the writes to what is archived, here features, projects and tasks.
pub mod Unarchive
pub mod Parents
pub mod Additions
use next_now_x.Prelude.{
  arith, ◌≡◌, refl, ◌⊎◌, inl, inr, Str, Option, none, some, Bool, true, false, if◌then◌else◌,
  Bool-cases, ok, err,
}
use next_now_x.Domain.Models.{
  Project, Feature, Task, Document, ProjectUpdate, FeatureUpdate, TaskStatus, FeatureStatus,
  PromptTemplateOverridesUpdate, TaskLabelOverridesUpdate,
}
use next_now_x.App.Repository.{Repository}
use next_now_x.App.Archive.{
  read_only_error, archived_feature_flag_only, archived_project_flag_only, guard_project,
  feature_read_only, with_read_only, guard_feature, resolve_project, resolve_feature, guard_task,
  guard_task_id,
}
use next_now_x.App.Barrier.Unarchive.{feature_flag, update_feature-flag}
use next_now_x.App.Containers.{
  update_project, project_update_tests, update_feature, feature_update_tests, finish_feature,
  is_known_status,
}
use next_now_x.App.Tasks.{
  create_task, update_task, delete_task, upsert_implementation_plan, delete_implementation_plan,
  add_dependency, remove_dependency, detach_pull_request,
}

-- The updates of a feature that set a field beside the flag `archived`, or do not set the flag.
pub data SetsMore (u : FeatureUpdate) : Type 0 where
  no_flag : u.archived ≡ none → SetsMore u
  of_title : (title : Str) → u.title ≡ some title → SetsMore u
  of_description : (description : Str) → u.description ≡ some description → SetsMore u
  of_status : (status : FeatureStatus) → u.status ≡ some status → SetsMore u
  of_project : (id : Str) → u.project_id ≡ some id → SetsMore u
  of_prompts :
      (prompts : PromptTemplateOverridesUpdate) → u.prompt_overrides ≡ some prompts → SetsMore u
  of_labels :
      (labels : TaskLabelOverridesUpdate) → u.task_label_overrides ≡ some labels → SetsMore u

SetsMore-flag_only : (u : FeatureUpdate) → SetsMore u → archived_feature_flag_only u ≡ false
unfolding archived_feature_flag_only
SetsMore-flag_only u (no_flag e) = rw e refl
SetsMore-flag_only u (of_title t e) = ground arith
SetsMore-flag_only u (of_description t e) = ground arith
SetsMore-flag_only u (of_status t e) = ground arith
SetsMore-flag_only u (of_project t e) = ground arith
SetsMore-flag_only u (of_prompts t e) = ground arith
SetsMore-flag_only u (of_labels t e) = ground arith

module _ {S : Type 0} (repo : Repository S) (s : S) where
  -- A feature that is archived, or whose project is.
  pub record IsFrozen (id : Str) (f : Feature) : Type 0 where
    pub found : repo.get_feature id s ≡ ok f
    pub frozen :
        (f.archived ≡ true)
        ⊎ ((p : Project) × (repo.get_project f.project_id s ≡ ok p) × (p.archived ≡ true))

  -- A task of such a feature.
  pub record IsFrozenTask (id : Str) (t : Task) (f : Feature) : Type 0 where
    pub found : repo.get_task id s ≡ ok t
    pub feature : IsFrozen t.feature_id f

  feature_read_only_lem :
      (id : Str) (f : Feature) → IsFrozen id f → feature_read_only repo s f ≡ ok true
  unfolding feature_read_only
  feature_read_only_lem id f h = elim h.frozen [
    | inl e ↦ rw e refl
    | inr (p, k, a) ↦ elim (Bool-cases f.archived) [ inl e ↦ rw e refl | inr e ↦ rw (e, k, a) refl ]
  ]

  -- The derived flag does not count.
  marked_read_only :
      (f : Feature)
      → feature_read_only repo s (record f { read_only = true }) ≡ feature_read_only repo s f
  unfolding feature_read_only
  marked_read_only f = refl

  pub resolve_feature_lem :
      (id : Str) (f : Feature)
      → IsFrozen id f
      → resolve_feature repo s id ≡ ok (record f { read_only = true })
  unfolding resolve_feature with_read_only
  resolve_feature_lem id f h = rw (h.found, feature_read_only_lem id f h) refl

  pub guard_feature_lem :
      (id : Str) (f : Feature)
      → IsFrozen id f
      → guard_feature repo s (record f { read_only = true }) ≡ err read_only_error
  unfolding guard_feature
  guard_feature_lem id f h = rw (marked_read_only f, feature_read_only_lem id f h) refl

  guard_task_lem :
      (id : Str) (t : Task) (f : Feature)
      → IsFrozenTask id t f
      → guard_task repo s t ≡ err read_only_error
  unfolding guard_task
  guard_task_lem id t f h =
      rw (resolve_feature_lem t.feature_id f h.feature) (guard_feature_lem t.feature_id f h.feature)

  pub guard_task_id_lem :
      (id : Str) (t : Task) (f : Feature)
      → IsFrozenTask id t f
      → guard_task_id repo s id ≡ err read_only_error
  unfolding guard_task_id
  guard_task_id_lem id t f h = rw h.found (guard_task_lem id t f h)

  -- A feature that is archived, or whose project is, refuses every update that sets another field
  -- than the flag `archived` or does not set the flag: the error is `archived_read_only` and nothing
  -- is written. An update that sets the flag alone passes, where the status of the feature is known:
  -- the repository is given the feature with that flag, and the rest of it as it was found but for
  -- the derived flag `read_only`.
  pub update_feature-frozen :
      (id : Str) (f : Feature) (update : FeatureUpdate) (archived : Bool)
      → IsFrozen id f
      → SetsMore update
      → is_known_status f.status ≡ true
      → (update_feature repo id update s ≡ (s, err read_only_error))
        × (update_feature repo id (feature_flag archived) s
            ≡ finish_feature repo
                (repo.update_feature (record f { read_only = true; archived = archived }) s))
  unfolding update_feature feature_update_tests
  update_feature-frozen id f update archived h more k = (
    rw (resolve_feature_lem id f h, SetsMore-flag_only update more, guard_feature_lem id f h) refl,
    update_feature-flag repo s id f true archived h.found (feature_read_only_lem id f h) k,
  )

  -- A task whose feature is archived, or whose feature's project is, is neither changed nor deleted,
  -- gets and loses no plan, is made the blocker of no other task, is taken as the blocker from none,
  -- keeps its pull request, and its feature gets no further task: each operation ends with
  -- `archived_read_only` and writes nothing.
  pub task_writes-frozen :
      (id : Str) (t : Task) (f : Feature)
      → IsFrozenTask id t f
      → (scheme_of : Str → Option Str) (title scope : Option Str) (status : Option TaskStatus)
        (assignee : Option Str) (cascade : Bool) (plan : Document)
        (other new_title new_scope new_assignee : Str)
      → (create_task repo t.feature_id new_title new_scope new_assignee s
          ≡ (s, err read_only_error))
        × (update_task repo id title scope status assignee s ≡ (s, err read_only_error))
        × (delete_task repo id cascade s ≡ (s, err read_only_error))
        × (upsert_implementation_plan repo scheme_of id plan s ≡ (s, err read_only_error))
        × (delete_implementation_plan repo id s ≡ (s, err read_only_error))
        × (add_dependency repo id other s ≡ (s, err read_only_error))
        × (remove_dependency repo id other s ≡ (s, err read_only_error))
        × (detach_pull_request repo id s ≡ (s, err read_only_error))
  unfolding create_task update_task delete_task upsert_implementation_plan
      delete_implementation_plan add_dependency remove_dependency detach_pull_request
  task_writes-frozen id t f h scheme_of title scope status assignee cascade plan other new_title
        new_scope new_assignee =
      let g = guard_task_id_lem id t f h in
      (
        rw
            (
              resolve_feature_lem t.feature_id f h.feature,
              guard_feature_lem t.feature_id f h.feature,
            )
            refl,
        rw (h.found, guard_task_lem id t f h) refl,
        rw g refl,
        rw g refl,
        rw g refl,
        rw g refl,
        rw g refl,
        rw g refl,
      )

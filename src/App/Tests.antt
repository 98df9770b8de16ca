-- ===== src/App/Tests.antt =====
-- The theorems on internal/app and internal/prompt at concrete inputs.
use next_now_x.Prelude.{
  sym, ◌∙◌, ◌≡◌, ◌↔◌, ◌≤◌, refl, inl, inr, Str, codes, Option, none, [], ◌∷◌, true, false, In, All,
  length, ok, err,
}
use next_now_x.Domain.Models.{Feature, DocumentParent}
use next_now_x.Domain.Graph.Derive.{derive}
use next_now_x.Strings.Space.{trim_space}
use next_now_x.Strings.Utf8.{valid_string}
use next_now_x.Prompt.{placeholders, validate_template, validate_template_iff}
use next_now_x.App.Fixtures.{
  a_project, a_feature, a_document, the_task, a_snapshot, a_repository, a_feature_update,
}
use next_now_x.App.Archive.{read_only_error, feature_read_only}
use next_now_x.App.Containers.{update_feature, finish_feature}
use next_now_x.App.Tasks.{
  create_task, update_task, delete_task, upsert_implementation_plan, delete_implementation_plan,
  add_dependency, remove_dependency, detach_pull_request,
}
use next_now_x.App.Documents.{validate_document_source}
use next_now_x.App.Documents.Sources.{IsSource, validate_document_source-IsSource}
use next_now_x.App.Snapshots.{derive_snapshot, finish}
use next_now_x.App.Snapshots.Counts.{Counts, tasks_of, derive_snapshot-Counts}
use next_now_x.App.Snapshots.ReadOnly.{IsKeyed, feature_read_only-finish}
use next_now_x.App.Barrier.Unarchive.{feature_flag}
use next_now_x.App.Barrier.{
  IsFrozen, IsFrozenTask, of_title, update_feature-frozen, task_writes-frozen,
}

frozen_feature : IsFrozen a_repository 7 (codes "f1") a_feature
frozen_feature = record { found = refl; frozen = inr (a_project, refl, refl) }

frozen_task : IsFrozenTask a_repository 7 (codes "t1") the_task a_feature
frozen_task = record { found = refl; feature = frozen_feature }

update_feature-frozen_example :
    (update_feature a_repository (codes "f1") a_feature_update 7 ≡ (7, err read_only_error))
    × (update_feature a_repository (codes "f1") (feature_flag false) 7
        ≡ finish_feature a_repository (
            a_repository.update_feature
              (record a_feature { read_only = true; archived = false })
              7))
update_feature-frozen_example =
    update_feature-frozen a_repository 7 (codes "f1") a_feature a_feature_update false
      frozen_feature (of_title _ refl) refl

abbrev no_scheme : Str → Option Str
no_scheme s = none

task_writes-frozen_example :
    (create_task a_repository (codes "f1") (codes "a") (codes "b") (codes "c") 7
      ≡ (7, err read_only_error))
    × (update_task a_repository (codes "t1") none none none none 7 ≡ (7, err read_only_error))
    × (delete_task a_repository (codes "t1") true 7 ≡ (7, err read_only_error))
    × (upsert_implementation_plan a_repository no_scheme (codes "t1") a_document 7
        ≡ (7, err read_only_error))
    × (delete_implementation_plan a_repository (codes "t1") 7 ≡ (7, err read_only_error))
    × (add_dependency a_repository (codes "t1") (codes "t2") 7 ≡ (7, err read_only_error))
    × (remove_dependency a_repository (codes "t1") (codes "t2") 7 ≡ (7, err read_only_error))
    × (detach_pull_request a_repository (codes "t1") 7 ≡ (7, err read_only_error))
task_writes-frozen_example =
    task_writes-frozen a_repository 7 (codes "t1") the_task a_feature frozen_task no_scheme none
      none none none true a_document (codes "t2") (codes "a") (codes "b") (codes "c")

abbrev the_parent : DocumentParent
the_parent = record { project_id = []; feature_id = []; task_id = codes "t1" }

validate_document_source-IsSource_example :
    (a_document.kind ≡ a_document.kind) × IsSource no_scheme a_document.kind a_document
unfolding validate_document_source trim_space valid_string
validate_document_source-IsSource_example =
    validate_document_source-IsSource no_scheme a_document a_document true refl

derive_snapshot-Counts_example :
    (g : Feature) × In g (derive_snapshot a_snapshot).features
    × Counts
        (tasks_of a_feature.id
          (derive a_snapshot.tasks a_snapshot.dependencies a_snapshot.pull_requests))
        a_feature
        g
derive_snapshot-Counts_example = derive_snapshot-Counts a_snapshot a_feature (refl, tt) (inl refl)

one_project-IsKeyed : IsKeyed (a_project ∷ [])
one_project-IsKeyed p q (inl e) (inl e') h = sym e ∙ e'
one_project-IsKeyed p q (inl e) (inr m) h = absurd m
one_project-IsKeyed p q (inr m) k h = absurd m

feature_read_only-finish_example :
    feature_read_only a_repository 7 a_feature ≡ ok (finish (a_project ∷ []) a_feature).read_only
feature_read_only-finish_example =
    feature_read_only-finish a_repository 7 (a_project ∷ []) a_feature a_project one_project-IsKeyed
      (inl refl) refl refl

validate_template_iff_example :
    (validate_template (codes "Do {{ task_id }}") (codes "task_id" ∷ []) (codes "task_id") ≡ ok tt)
    ↔ ((length (codes "Do {{ task_id }}") ≤ 8192)
        × All (λ name. In name (codes "task_id" ∷ [])) (placeholders (codes "Do {{ task_id }}"))
        × In (codes "task_id") (placeholders (codes "Do {{ task_id }}")))
validate_template_iff_example =
    validate_template_iff (codes "Do {{ task_id }}") (codes "task_id" ∷ []) (codes "task_id")

placeholders_run :
    placeholders (codes "{{{a}} {{ b }} {{c}x}} {{}}") ≡ codes "a" ∷ codes "b" ∷ [] ∷ []
unfolding placeholders trim_space
placeholders_run = refl

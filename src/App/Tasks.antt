-- ===== src/App/Tasks.antt =====
-- The operations on tasks, plans, dependencies and pull requests, of internal/app/service.go.
use next_now_x.Prelude.{
  Str, [], Option, some, none, Bool, true, false, if◌then◌else◌, Result, ok, err, ◌>>=◌, ◌>>◌,
}
use next_now_x.Strings.Space.{trim_space}
use next_now_x.Domain.Models.{
  Task, TaskStatus, Document, Dependency, Error, new_error, invalid_title, invalid_status,
}
use next_now_x.App.Repository.{Repository, Written, checked}
use next_now_x.App.Archive.{guard_task, guard_task_id, guard_feature, resolve_feature, is_empty}
use next_now_x.App.Containers.{or_kept, trimmed}
use next_now_x.App.Documents.{validate_document_source}

abbrev is_known_status : TaskStatus → Bool
is_known_status (TaskStatus.other _) = false
is_known_status _ = true

abbrev status_or : Option TaskStatus → TaskStatus → TaskStatus
status_or none kept = kept
status_or (some (TaskStatus.other [])) kept = kept
status_or (some status) kept = status

valid_task : Task → Result Error Task
valid_task task =
    if is_empty task.title
    then err (new_error invalid_title)
    else if is_known_status task.status
    then ok task
    else err (new_error invalid_status)

module _ {S : Type 0} (repo : Repository S) where
  abbrev create_task_tests : Str → Str → S → Result Error Str
  create_task_tests feature_id title s = do
    feature ← resolve_feature repo s feature_id
    guard_feature repo s feature
    if is_empty title then err (new_error invalid_title) else ok feature.id

  unfoldable pub create_task : Str → Str → Str → Str → S → Written S Task
  unfolding trim_space resolve_feature guard_feature
  create_task feature_id title scope assignee s =
      checked s (create_task_tests feature_id (trim_space title) s)
        (λ id. repo.create_task id (trim_space title) (trim_space scope) (trim_space assignee))

  task_fields : Option Str → Option Str → Option TaskStatus → Option Str → Task → Result Error Task
  unfolding trim_space valid_task
  task_fields title scope status assignee task = valid_task (record task {
    title = or_kept (trimmed title) task.title;
    scope = or_kept scope task.scope;
    status = status_or status task.status;
    assignee = or_kept assignee task.assignee;
  })

  abbrev update_task_tests :
      Str → Option Str → Option Str → Option TaskStatus → Option Str → S → Result Error Task
  update_task_tests id title scope status assignee s = do
    task ← repo.get_task id s
    guard_task repo s task
    task_fields title scope status assignee task

  unfoldable pub update_task :
      Str → Option Str → Option Str → Option TaskStatus → Option Str → S → Written S Task
  unfolding guard_task task_fields
  update_task id title scope status assignee s =
      checked s (update_task_tests id title scope status assignee s) (λ task. repo.update_task task)

  -- The operations that are guarded by a task and have no other test.
  abbrev guarded : {A : Type 0} → Str → (S → Written S A) → S → Written S A
  guarded task_id write s = checked s (guard_task_id repo s task_id) (λ _. write)

  unfoldable pub delete_task : Str → Bool → S → Written S (Unit {0})
  unfolding guard_task_id
  delete_task id cascade = guarded id (repo.delete_task id cascade)

  unfoldable pub get_implementation_plan : Str → S → Result Error Document
  get_implementation_plan task_id s = do
    task ← repo.get_task task_id s
    repo.get_implementation_plan task_id s

  abbrev as_plan : Str → Document → Document
  as_plan task_id document = record document {
    task_id = task_id;
    project_id = [];
    feature_id = [];
    is_implementation_plan = true;
  }

  module _ (scheme_of : Str → Option Str) where
    abbrev plan_tests : Str → Document → S → Result Error Document
    plan_tests task_id document s = do
      guard_task_id repo s task_id
      validate_document_source scheme_of (as_plan task_id document) true

    unfoldable pub upsert_implementation_plan : Str → Document → S → Written S Document
    unfolding guard_task_id validate_document_source
    upsert_implementation_plan task_id document s =
        checked s (plan_tests task_id document s)
          (λ valid. repo.upsert_implementation_plan task_id valid)

  unfoldable pub delete_implementation_plan : Str → S → Written S (Unit {0})
  unfolding guard_task_id
  delete_implementation_plan task_id = guarded task_id (repo.delete_implementation_plan task_id)

  unfoldable pub add_dependency : Str → Str → S → Written S Dependency
  unfolding guard_task_id
  add_dependency blocker blocked = guarded blocker (repo.add_dependency blocker blocked)

  unfoldable pub remove_dependency : Str → Str → S → Written S (Unit {0})
  unfolding guard_task_id
  remove_dependency blocker blocked = guarded blocker (repo.remove_dependency blocker blocked)

  unfoldable pub detach_pull_request : Str → S → Written S (Unit {0})
  unfolding guard_task_id
  detach_pull_request task_id = guarded task_id (repo.delete_pull_request task_id)

-- ===== src/App/Repository.antt =====
-- `Repository` of internal/app/service.go, lines 24 to 73, which internal/store implements: `S` is
-- what is stored. A read fails or answers by the state; a write gives the new state, and an answer
-- or an error. `Validate` is not used by the operations that are modelled.
use next_now_x.Prelude.{Str, Bool, Option, Result, ok, err}
use next_now_x.Domain.Models.{
  Project, Feature, Task, Dependency, PullRequest, Document, DocumentParent, DocumentKind, Snapshot,
  Error,
}

-- What a write gives back.
abbrev pub Written : Type 0 → Type 0 → Type 0
Written S A = S × Result Error A

pub record Repository (S : Type 0) : Type 0 where
  pub create_project : (title description : Str) → S → Written S Project
  pub update_project : Project → S → Written S Project
  pub get_project : Str → S → Result Error Project
  pub delete_project : Str → (cascade : Bool) → S → Written S (Unit {0})
  pub create_feature : (title description project_id : Str) → S → Written S Feature
  pub update_feature : Feature → S → Written S Feature
  pub get_feature : Str → S → Result Error Feature
  pub delete_feature : Str → (cascade : Bool) → S → Written S (Unit {0})
  pub create_task : (feature_id title scope assignee : Str) → S → Written S Task
  pub get_task : Str → S → Result Error Task
  pub update_task : Task → S → Written S Task
  pub delete_task : Str → (cascade : Bool) → S → Written S (Unit {0})
  pub get_implementation_plan : (task_id : Str) → S → Result Error Document
  pub upsert_implementation_plan : (task_id : Str) → Document → S → Written S Document
  pub delete_implementation_plan : (task_id : Str) → S → Written S (Unit {0})
  pub add_dependency : (blocker blocked : Str) → S → Written S Dependency
  pub remove_dependency : (blocker blocked : Str) → S → Written S (Unit {0})
  pub upsert_pull_request : PullRequest → S → Written S PullRequest
  pub delete_pull_request : (task_id : Str) → S → Written S (Unit {0})
  pub create_document :
      DocumentParent
      → DocumentKind
      → (title locator content : Str) → (is_implementation_plan : Bool) → S
      → Written S Document
  pub get_document : Str → S → Result Error Document
  pub update_document :
      Str
      → (title : Option Str) → (source : Option Document) → (is_implementation_plan : Option Bool)
      → S
      → Written S Document
  pub delete_document : Str → S → Written S (Unit {0})
  pub snapshot : S → Result Error Snapshot

-- The tests of an operation, which only read, and then its write: an error of the tests leaves the
-- state as it is.
abbrev pub checked : {A B S : Type 0} → S → Result Error A → (A → S → Written S B) → Written S B
checked s (err e) write = (s, err e)
checked s (ok a) write = write a s

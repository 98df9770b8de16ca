-- ===== src/App/Documents.antt =====
-- The operations on documents, of internal/app/service.go. What `net/url` finds as
-- the scheme of a text is an argument, with `none` for an error of `url.Parse`; so is the file that
-- `os.Open` reads.
pub mod Sources
use next_now_x.Prelude.{
  ℕ, Str, codes, str_eq, [], ◌∷◌, Option, some, none, Bool, true, false, not, ◌&&◌, ◌||◌, ◌==◌, ltb,
  length, if◌then◌else◌, Result, ok, err, ◌>>=◌, ◌>>◌,
}
use next_now_x.Strings.Space.{trim_space}
use next_now_x.Strings.Utf8.{valid_string}
use next_now_x.Domain.Models.{
  DocumentKind, Document, DocumentParent, count, Error, new_error, DomainErrorCode, error_code,
  invalid_document_kind, invalid_document, invalid_implementation_plan, document_not_text,
  document_too_large, implementation_plan_too_large, invalid_document_url, invalid_parent,
  duplicate_implementation_plan, document_read_failed, not_found,
}
use next_now_x.App.Repository.{Repository, Written, checked}
use next_now_x.App.Archive.{
  guard_project, guard_feature, guard_task_id, guard_document, resolve_project, resolve_feature,
  is_empty,
}
use next_now_x.App.Containers.{or_kept, trimmed}

abbrev pub max_document_content_bytes : ℕ
max_document_content_bytes = 1048576

abbrev plan_or : Bool → DomainErrorCode → DomainErrorCode → DomainErrorCode
plan_or plan_command for_plan otherwise = if plan_command then for_plan else otherwise

markdown_source : Document → Bool → Result Error Document
unfolding valid_string trim_space
markdown_source document plan_command =
    if is_empty (trim_space document.content)
    then err (new_error (plan_or plan_command invalid_implementation_plan invalid_document))
    else if not (valid_string document.content)
    then err (new_error document_not_text)
    else if ltb max_document_content_bytes (length document.content)
    then err (new_error (plan_or plan_command implementation_plan_too_large document_too_large))
    else ok (record document { locator = [] })

abbrev pub is_web : Option Str → Bool
is_web none = false
is_web (some scheme) = str_eq scheme (codes "https") || str_eq scheme (codes "http")

module _ (scheme_of : Str → Option Str) where
  located_source : Document → Str → Bool → Result Error Document
  unfolding str_eq
  located_source document locator is_url =
      if is_empty locator
      then err (new_error invalid_document)
      else if is_url && not (is_web (scheme_of locator))
      then err (new_error invalid_document_url)
      else ok (record document { locator = locator; content = [] })

  source_of_kind : DocumentKind → Document → Bool → Result Error Document
  unfolding located_source markdown_source trim_space
  source_of_kind DocumentKind.url document plan_command =
      located_source document (trim_space document.locator) true
  source_of_kind DocumentKind.local_file document plan_command =
      located_source document (trim_space document.locator) false
  source_of_kind DocumentKind.markdown document plan_command = markdown_source document plan_command
  source_of_kind (DocumentKind.other _) document plan_command =
      err (new_error invalid_document_kind)

  -- `validateDocumentSource`: the document that it leaves behind, or its error.
  unfoldable pub validate_document_source : Document → Bool → Result Error Document
  unfolding source_of_kind
  validate_document_source document plan_command =
      source_of_kind document.kind document plan_command

module _ {S : Type 0} (repo : Repository S) where
  -- The test for a second plan of a task.
  no_plan : Str → S → Result Error (Unit {0})
  unfolding error_code
  no_plan task_id s = elim (repo.get_implementation_plan task_id s) [
    | ok _ ↦ err (new_error duplicate_implementation_plan)
    | err e ↦ elim (error_code e) [ not_found ↦ ok tt | _ ↦ err e ]
  ]

  abbrev parent_of : Str → Str → Str → DocumentParent
  parent_of project feature task = record {
    project_id = project;
    feature_id = feature;
    task_id = task;
  }

  unfoldable pub resolve_parent : Str → Str → Str → Bool → S → Result Error DocumentParent
  unfolding guard_project guard_feature guard_task_id resolve_project resolve_feature no_plan
  resolve_parent (c ∷ project) feature task is_plan s = do
    p ← resolve_project repo s (c ∷ project)
    guard_project p
    ok (parent_of p.id [] [])
  resolve_parent [] (c ∷ feature) task is_plan s = do
    f ← resolve_feature repo s (c ∷ feature)
    guard_feature repo s f
    ok (parent_of [] f.id [])
  resolve_parent [] [] task is_plan s = do
    guard_task_id repo s task
    if is_plan then no_plan task s else ok tt
    ok (parent_of [] [] task)

  -- `resolveDocumentParent`.
  unfoldable pub resolve_document_parent : DocumentParent → Bool → S → Result Error DocumentParent
  unfolding resolve_parent
  resolve_document_parent parent is_plan s =
      resolve_parent parent.project_id parent.feature_id parent.task_id is_plan s

  module _ (scheme_of : Str → Option Str) where
    -- `document` has the fields of the request, with the title trimmed.
    abbrev pub add_document_tests :
        DocumentParent → Document → S → Result Error (DocumentParent × Document)
    add_document_tests parent document s = do
      if count parent == 1 then ok tt else err (new_error invalid_parent)
      valid ← validate_document_source scheme_of document false
      if document.is_implementation_plan && is_empty parent.task_id
          then err (new_error invalid_parent)
          else ok tt
      resolved ← resolve_document_parent parent document.is_implementation_plan s
      ok (resolved, valid)

    abbrev pub requested : DocumentParent → DocumentKind → Str → Str → Str → Bool → Document
    requested parent kind title locator content is_plan = record {
      id = [];
      project_id = parent.project_id;
      feature_id = parent.feature_id;
      task_id = parent.task_id;
      kind = kind;
      title = trim_space title;
      locator = locator;
      content = content;
      is_implementation_plan = is_plan;
      created_at = 0;
      updated_at = 0;
    }

    unfoldable pub add_document :
        DocumentParent → DocumentKind → Str → Str → Str → Bool → S → Written S Document
    unfolding trim_space count validate_document_source resolve_document_parent
    add_document parent kind title locator content is_plan s =
        checked s
          (add_document_tests parent (requested parent kind title locator content is_plan) s)
          (λ found.
            repo.create_document found.0 found.1.kind found.1.title found.1.locator found.1.content
              is_plan)

    abbrev with_source : Option Document → Document → Document
    with_source none document = document
    with_source (some source) document = record document {
      kind = source.kind;
      locator = source.locator;
      content = source.content;
    }

    abbrev updated : Option Str → Option Document → Option Bool → Document → Document
    updated title source is_plan document = record (with_source source document) {
      title = or_kept (trimmed title) document.title;
      is_implementation_plan = or_kept is_plan document.is_implementation_plan;
    }

    abbrev update_document_tests :
        Str → Option Str → Option Document → Option Bool → S → Result Error Document
    update_document_tests id title source is_plan s = do
      document ← repo.get_document id s
      guard_document repo s document
      if or_kept is_plan document.is_implementation_plan && is_empty document.task_id
          then err (new_error invalid_parent)
          else ok tt
      validate_document_source scheme_of (updated title source is_plan document) false

    -- What is given to the repository, if the request has it: the title and the source as validated.
    abbrev if_given {ℓ κ} : {A : Type ℓ} {B : Type κ} → Option A → B → Option B
    if_given none value = none
    if_given (some _) value = some value

    abbrev source_only : Document → Document
    source_only document = record {
      id = [];
      project_id = [];
      feature_id = [];
      task_id = [];
      kind = document.kind;
      title = [];
      locator = document.locator;
      content = document.content;
      is_implementation_plan = false;
      created_at = 0;
      updated_at = 0;
    }

    unfoldable pub update_document :
        Str → Option Str → Option Document → Option Bool → S → Written S Document
    unfolding trim_space guard_document validate_document_source
    update_document id title source is_plan s =
        checked s (update_document_tests id title source is_plan s) (λ valid.
          repo.update_document id (if_given title valid.title) (if_given source (source_only valid))
            is_plan)

  abbrev delete_document_tests : Str → S → Result Error (Unit {0})
  delete_document_tests id s = do document ← repo.get_document id s; guard_document repo s document

  unfoldable pub delete_document : Str → S → Written S (Unit {0})
  unfolding guard_document
  delete_document id s = checked s (delete_document_tests id s) (λ _. repo.delete_document id)

  -- `file` is what opening and reading the file at a locator gives, cut by the reader to one byte
  -- more than the limit.
  read_file : (Str → Option Str) → Str → Result Error Str
  unfolding valid_string
  read_file file locator = elim (file locator) [
    | none ↦ err (new_error document_read_failed)
    | some content ↦
        if ltb max_document_content_bytes (length content)
        then err (new_error document_too_large)
        else if not (valid_string content)
        then err (new_error document_not_text)
        else ok content
  ]

  content_of : (Str → Option Str) → Document → DocumentKind → Result Error Str
  unfolding read_file
  content_of file document DocumentKind.markdown = ok document.content
  content_of file document DocumentKind.local_file = read_file file document.locator
  content_of file document _ = err (new_error invalid_document_kind)

  unfoldable read_document_content : (Str → Option Str) → Str → S → Result Error Str
  unfolding content_of
  read_document_content file id s = do
    document ← repo.get_document id s
    content_of file document document.kind

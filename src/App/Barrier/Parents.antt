-- ===== src/App/Barrier/Parents.antt =====
-- internal/app/archive.go: the writes to the documents of what is archived.
use next_now_x.Prelude.{◌≡◌, refl, Str, [], ◌∷◌, Option, Bool, true, false, ok, err}
use next_now_x.Domain.Models.{Project, Feature, Task, Document}
use next_now_x.App.Repository.{Repository}
use next_now_x.App.Archive.{read_only_error, guard_project, guard_document, guard_parent, is_empty}
use next_now_x.App.Documents.{update_document, delete_document}
use next_now_x.App.Barrier.{
  IsFrozen, IsFrozenTask, guard_task_id_lem, resolve_feature_lem, guard_feature_lem,
}

module _ {S : Type 0} (repo : Repository S) (s : S) where
  -- The owner by which a document is read-only: the first of the three that is set.
  pub data IsFrozenOwner : Str → Str → Str → Type 0 where
    by_project :
        {project feature task : Str} (p : Project)
        → is_empty project ≡ false
        → repo.get_project project s ≡ ok p
        → p.archived ≡ true
        → IsFrozenOwner project feature task
    by_feature :
        {feature task : Str} (f : Feature)
        → is_empty feature ≡ false
        → IsFrozen repo s feature f
        → IsFrozenOwner [] feature task
    by_task :
        {task : Str} (t : Task) (f : Feature)
        → is_empty task ≡ false
        → IsFrozenTask repo s task t f
        → IsFrozenOwner [] [] task

  guard_parent_lem :
      (project feature task : Str)
      → IsFrozenOwner project feature task
      → guard_parent repo s project feature task ≡ err read_only_error
  unfolding guard_parent guard_project
  guard_parent_lem [] feature task (by_project p e h a) = cc
  guard_parent_lem (c ∷ project) feature task (by_project p e h a) = rw (h, a) refl
  guard_parent_lem [] [] task (by_feature f e h) = cc
  guard_parent_lem [] (c ∷ feature) task (by_feature f e h) =
      rw (resolve_feature_lem repo s (c ∷ feature) f h) (guard_feature_lem repo s (c ∷ feature) f h)
  guard_parent_lem [] [] [] (by_task t f e h) = cc
  guard_parent_lem [] [] (c ∷ task) (by_task t f e h) = guard_task_id_lem repo s (c ∷ task) t f h

  guard_document_lem :
      (d : Document)
      → IsFrozenOwner d.project_id d.feature_id d.task_id
      → guard_document repo s d ≡ err read_only_error
  unfolding guard_document
  guard_document_lem d h = guard_parent_lem d.project_id d.feature_id d.task_id h

  -- A document whose project is archived, or whose feature or task is read-only, is neither changed
  -- nor deleted: both operations end with `archived_read_only` and write nothing.
  pub document_writes-frozen :
      (id : Str) (d : Document)
      → repo.get_document id s ≡ ok d
      → IsFrozenOwner d.project_id d.feature_id d.task_id
      → (scheme_of : Str → Option Str) (title : Option Str) (source : Option Document)
        (is_plan : Option Bool)
      → (update_document repo scheme_of id title source is_plan s ≡ (s, err read_only_error))
        × (delete_document repo id s ≡ (s, err read_only_error))
  unfolding update_document delete_document
  document_writes-frozen id d h k scheme_of title source is_plan =
      let g = guard_document_lem d k in (rw (h, g) refl, rw (h, g) refl)

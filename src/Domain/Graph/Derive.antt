-- ===== src/Domain/Graph/Derive.antt =====
-- `Derive` of internal/domain/graph.go, lines 96 to 163: what a task shows, and what it waits for.
pub mod Blockers
pub mod Idempotent
use next_now_x.Prelude.{
  ◌++◌, Str, codes, Option, some, none, List, [], ◌∷◌, Bool, true, false, map, foldl, if◌then◌else◌,
  lookup_str, list_at, append_at,
}
use next_now_x.Domain.Models.{
  Task, Dependency, PullRequest, BlockedReasonCode, dependency_data_incomplete, waiting_for_blocker,
}
use next_now_x.Domain.Status.{
  block_labels_for, is_task_finished, display_state_for, is_satisfied, is_ready_candidate,
}

-- `BlockedReasonText`; `none` is the empty code.
unfoldable pub blocked_reason_text : Option BlockedReasonCode → Str → Str
blocked_reason_text none title = []
blocked_reason_text (some dependency_data_incomplete) title = codes "dependency data is incomplete"
blocked_reason_text (some waiting_for_blocker) title = codes "waiting for " ++ title

-- The three maps that `Derive` builds first.
pub record Index : Type 0 where
  pub pr_by_task : List (Str × PullRequest)
  pub blockers : List (Str × List Str)
  pub task_by_id : List (Str × Task)

abbrev add_pr : List (Str × PullRequest) → PullRequest → List (Str × PullRequest)
add_pr m pr = (pr.task_id, pr) ∷ m

abbrev add_dependency : List (Str × List Str) → Dependency → List (Str × List Str)
add_dependency m dep = append_at dep.blocked_task_id dep.blocker_task_id m

abbrev add_task : List (Str × Task) → Task → List (Str × Task)
add_task m task = (task.id, task) ∷ m

unfoldable pub index : List Task → List Dependency → List PullRequest → Index
index tasks deps prs = record {
  pr_by_task = foldl add_pr [] prs;
  blockers = foldl add_dependency [] deps;
  task_by_id = foldl add_task [] tasks;
}

-- `len(ids) > 0`.
abbrev pub is_any : List Str → Bool
is_any [] = false
is_any (_ ∷ _) = true

module _ (ix : Index) where
  abbrev pub pr_of : Str → Option PullRequest
  pr_of id = lookup_str id ix.pr_by_task

  -- `ok && IsSatisfied(blocker, prByTask[blockerID])`.
  pub is_resolved : Str → Bool
  is_resolved id = elim (lookup_str id ix.task_by_id) [
    | none ↦ false
    | some blocker ↦ is_satisfied blocker (pr_of id)
  ]

  -- The reason for an unresolved blocker, and the task that it names.
  abbrev pub reason_for : Str → BlockedReasonCode × Str
  reason_for id = elim (lookup_str id ix.task_by_id) [
    | none ↦ (dependency_data_incomplete, [])
    | some _ ↦ (waiting_for_blocker, id)
  ]

  -- An unresolved blocker: only the first one sets the code.
  abbrev pub mark : Task → Str → Task
  mark t id = record t {
    ready = false;
    pending_blocker_task_ids = t.pending_blocker_task_ids ++ id ∷ [];
    blocked_code = elim t.blocked_code [ some c ↦ some c | none ↦ some (reason_for id).0 ];
    blocker_task_id = elim t.blocked_code [ some _ ↦ t.blocker_task_id | none ↦ (reason_for id).1 ];
  }

  -- The body of the loop over the blockers.
  pub visit : Task → Str → Task
  visit t id = if is_resolved id then t else mark t id

  abbrev title_of : Str → Str
  title_of id = elim (lookup_str id ix.task_by_id) [ none ↦ [] | some task ↦ task.title ]

  -- What follows the loop.
  abbrev pub conclude : Task → Task
  conclude t = record t {
    blocked_reason = blocked_reason_text t.blocked_code (title_of t.blocker_task_id);
    block_labels = block_labels_for (pr_of t.id) (is_any t.pending_blocker_task_ids);
  }

  -- Every derived field of `task` is written anew.
  abbrev pub reset : Task → Task
  reset task = record task {
    ready = false;
    blocked_reason = [];
    blocked_code = none;
    blocker_task_id = [];
    pending_blocker_task_ids = [];
    block_labels = [];
    display_state = display_state_for task (pr_of task.id);
  }

  -- The task just before the loop over its blockers.
  abbrev pub opened : Task → Task
  opened task = record (reset task) {
    ready = is_ready_candidate (display_state_for task (pr_of task.id));
  }

  -- One round of the loop over the tasks.
  pub derive_task : Task → Task
  derive_task task =
      if is_task_finished (reset task).display_state
      then reset task
      else conclude (foldl visit (opened task) (list_at task.id ix.blockers))

-- `Derive`.
unfoldable pub derive : List Task → List Dependency → List PullRequest → List Task
unfolding index derive_task visit is_resolved
derive tasks deps prs = map (derive_task (index tasks deps prs)) tasks

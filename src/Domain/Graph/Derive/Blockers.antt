-- ===== src/Domain/Graph/Derive/Blockers.antt =====
-- `Derive` of internal/domain/graph.go against its specification: which blockers a task waits for.
use next_now_x.Prelude.{
  ◌≡◌, ◌↔◌, refl, sym, ◌∙◌, ap, ◌++◌, Str, str_eq, Option, some, none, List, [], ◌∷◌, Bool, true,
  false, not, map, foldl, keep, lookup_str, list_at, append_at, list_at-append_at, Bool-cases, inl,
  inr, All, arith,
}
use mathlib.Core.List.{append-nil, append_assoc}
use next_now_x.Domain.Models.{Task, Dependency, PullRequest, BlockedReasonCode}
use next_now_x.Domain.Status.{
  is_task_finished, display_state_for, is_ready_candidate, block_labels_for,
}
use next_now_x.Domain.Status.Agreement.{is_ready_candidate-not_finished}
use next_now_x.Domain.Graph.Derive.{
  Index, index, pr_of, is_resolved, reason_for, mark, visit, conclude, reset, opened, derive_task,
  is_any,
}

-- The tasks that the dependencies name as blockers of `id`, in the order of the dependencies.
abbrev pub blockers_of : List Dependency → Str → List Str
blockers_of deps id = map (λ d. d.blocker_task_id) (keep (λ d. str_eq d.blocked_task_id id) deps)

list_at-foldl :
    (id : Str) (deps : List Dependency) (m : List (Str × List Str))
    → list_at id (foldl (λ m d. append_at d.blocked_task_id d.blocker_task_id m) m deps)
      ≡ list_at id m ++ blockers_of deps id
unfolding keep
list_at-foldl id [] m = sym (append-nil (list_at id m))
list_at-foldl id (d ∷ deps) m =
    list_at-foldl id deps (append_at d.blocked_task_id d.blocker_task_id m)
    ∙ elim (Bool-cases (str_eq d.blocked_task_id id)) [
      | inl e ↦ simp (list_at-append_at, e, append_assoc)
      | inr e ↦ simp (list_at-append_at, e)
    ]

-- The map of blockers holds, for each task, what the dependencies say.
index-blockers :
    (tasks : List Task) (deps : List Dependency) (prs : List PullRequest) (id : Str)
    → list_at id (index tasks deps prs).blockers ≡ blockers_of deps id
unfolding index list_at lookup_str
index-blockers tasks deps prs id = list_at-foldl id deps []

module _ (ix : Index) where
  -- The blockers that the loop does not skip.
  abbrev pub pending : List Str → List Str
  pending = keep (λ id. not (is_resolved ix id))

  visit-eq_mark :
      (t : Task) (ids : List Str) → foldl (visit ix) t ids ≡ foldl (mark ix) t (pending ids)
  unfolding visit keep
  visit-eq_mark t [] = refl
  visit-eq_mark t (id ∷ ids) = elim (Bool-cases (is_resolved ix id)) [
    | inl e ↦ simp e (visit-eq_mark t ids)
    | inr e ↦ simp e (visit-eq_mark (mark ix t id) ids)
  ]

  abbrev first_code : Option BlockedReasonCode → List Str → Option BlockedReasonCode
  first_code (some c) ids = some c
  first_code none [] = none
  first_code none (id ∷ _) = some (reason_for ix id).0

  abbrev first_blocker : Task → List Str → Str
  first_blocker t [] = t.blocker_task_id
  first_blocker t (id ∷ _) = elim t.blocked_code [
    | some _ ↦ t.blocker_task_id
    | none ↦ (reason_for ix id).1
  ]

  abbrev ready_still : Bool → List Str → Bool
  ready_still r [] = r
  ready_still r (_ ∷ _) = false

  -- The loop as one update of the task.
  abbrev pub marked : Task → List Str → Task
  marked t ids = record t {
    ready = ready_still t.ready ids;
    pending_blocker_task_ids = t.pending_blocker_task_ids ++ ids;
    blocked_code = first_code t.blocked_code ids;
    blocker_task_id = first_blocker t ids;
  }

  mark-eq_marked : (t : Task) (ids : List Str) → foldl (mark ix) t ids ≡ marked t ids
  mark-eq_marked t [] = ground (arith, append-nil t.pending_blocker_task_ids)
  mark-eq_marked t (id ∷ []) = ground arith
  mark-eq_marked t (id ∷ next ∷ ids) =
      mark-eq_marked (mark ix t id) (next ∷ ids)
      ∙ ground (arith, append_assoc t.pending_blocker_task_ids (id ∷ []) (next ∷ ids))

  abbrev pub waited_on : Task → List Str
  waited_on task = pending (list_at task.id ix.blockers)

  pub derive_task-unfinished :
      (task : Task)
      → is_task_finished (display_state_for task (pr_of ix task.id)) ≡ false
      → derive_task ix task ≡ conclude ix (marked (opened ix task) (waited_on task))
  unfolding derive_task
  derive_task-unfinished task e = simp e (
      ap (conclude ix) (
        visit-eq_mark (opened ix task) (list_at task.id ix.blockers)
        ∙ mark-eq_marked (opened ix task) (waited_on task)))

  ready_still_iff :
      (b : Bool) (ids : List Str)
      → (ready_still b (pending ids) ≡ true)
        ↔ ((b ≡ true) × All (λ id. is_resolved ix id ≡ true) ids)
  unfolding keep
  ready_still_iff b [] = (λ h. (h, tt), λ h. h.0)
  ready_still_iff b (id ∷ ids) = elim (Bool-cases (is_resolved ix id)) [
    | inl e ↦ ground (arith, ready_still_iff b ids)
    | inr e ↦ ground arith
  ]

  -- What an unfinished task with the unresolved blockers `ids` reports.
  pub record Reports (task t : Task) (ids : List Str) : Type 0 where
    pub all_pending : t.pending_blocker_task_ids ≡ ids
    pub code : t.blocked_code ≡ first_code none ids
    pub blocker : t.blocker_task_id ≡ first_blocker (reset ix task) ids
    pub labels : t.block_labels ≡ block_labels_for (pr_of ix task.id) (is_any ids)

-- An unfinished task lists exactly its unresolved blockers, in the order of the dependencies; its
-- code and the task that it names are those of the first of them, and its labels are computed from
-- its pull request and from whether there is one.
pub derive_task-Reports :
    (tasks : List Task) (deps : List Dependency) (prs : List PullRequest) (task : Task)
    → is_task_finished (display_state_for task (pr_of (index tasks deps prs) task.id)) ≡ false
    → Reports
        (index tasks deps prs)
        task
        (derive_task (index tasks deps prs) task)
        (pending (index tasks deps prs) (blockers_of deps task.id))
derive_task-Reports tasks deps prs task e =
    rw (derive_task-unfinished (index tasks deps prs) task e, index-blockers tasks deps prs task.id)
      (record { all_pending = refl; code = refl; blocker = refl; labels = refl })

-- A finished task reports nothing of what hinders it.
pub derive_task-finished :
    (ix : Index) (task : Task)
    → is_task_finished (display_state_for task (pr_of ix task.id)) ≡ true
    → derive_task ix task ≡ reset ix task
unfolding derive_task
derive_task-finished ix task e = simp e

-- A task is ready exactly if its work has not started and every blocker that the dependencies name is
-- a known task that is resolved.
pub derive_task-ready :
    (tasks : List Task) (deps : List Dependency) (prs : List PullRequest) (task : Task)
    → ((derive_task (index tasks deps prs) task).ready ≡ true) ↔ (
        (is_ready_candidate (display_state_for task (pr_of (index tasks deps prs) task.id)) ≡ true)
        × All (λ id. is_resolved (index tasks deps prs) id ≡ true) (blockers_of deps task.id))
derive_task-ready tasks deps prs task =
    let ix = index tasks deps prs in
    elim (Bool-cases (is_task_finished (display_state_for task (pr_of ix task.id)))) [
      | inl e ↦ rw (derive_task-finished ix task e) (
        λ h. cc,
        λ h. cc (is_ready_candidate-not_finished (display_state_for task (pr_of ix task.id)) e),
      )
      | inr e ↦
          rw (derive_task-unfinished ix task e, index-blockers tasks deps prs task.id)
            (ready_still_iff ix _ (blockers_of deps task.id))
    ]

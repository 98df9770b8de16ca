-- ===== src/Domain/Status/Agreement.antt =====
-- internal/domain/status.go: the derived states against one another and against `is_satisfied`.
use next_now_x.Prelude.{ℕ, ◌≤◌, ◌≡◌, ◌≢◌, ◌↔◌, ◌⊎◌, Option, some, none, true, false, arith}
use next_now_x.Domain.Models.{
  FeatureStatus, TaskStatus, TaskDisplayState, PullRequestDisplayState, Task, PullRequest,
}
use next_now_x.Domain.Status.{
  pr_display_state, task_display_state_from_pr, is_task_finished, feature_display_status,
  display_state_for, is_satisfied, is_ready_candidate,
}

-- A task that is shown as finished resolves the dependencies that wait for it.
pub is_task_finished-is_satisfied :
    (task : Task) (pr : Option PullRequest)
    → is_task_finished (display_state_for task pr) ≡ true
    → is_satisfied task pr ≡ true
unfolding is_task_finished display_state_for task_display_state_from_pr is_satisfied
is_task_finished-is_satisfied task none h = ground arith
is_task_finished-is_satisfied task (some pr) h = ground arith

-- Work that has not started, and so may become ready, is exactly work with no pull request whose
-- stored status is neither in progress nor one of the two final ones.
pub is_ready_candidate_iff :
    (task : Task) (pr : Option PullRequest)
    → (is_ready_candidate (display_state_for task pr) ≡ true) ↔ (
        (pr ≡ none)
        × (task.status ≢ TaskStatus.in_progress)
        × (task.status ≢ TaskStatus.completed)
        × (task.status ≢ TaskStatus.closed))
unfolding is_ready_candidate display_state_for task_display_state_from_pr
is_ready_candidate_iff task none = ground arith
is_ready_candidate_iff task (some pr) = ground arith

-- A task that may become ready does not resolve the dependencies of others.
pub is_ready_candidate-not_satisfied :
    (task : Task) (pr : Option PullRequest)
    → is_ready_candidate (display_state_for task pr) ≡ true
    → is_satisfied task pr ≡ false
unfolding is_ready_candidate display_state_for task_display_state_from_pr is_satisfied
is_ready_candidate-not_satisfied task none h = ground arith
is_ready_candidate-not_satisfied task (some pr) h = ground arith

-- A pull request and the task state derived from it agree on being merged and on being closed.
pub pr_display_state-agrees :
    (pr : Option PullRequest)
    → ((pr_display_state pr ≡ PullRequestDisplayState.merged)
        ↔ (task_display_state_from_pr pr ≡ TaskDisplayState.merged))
      × ((pr_display_state pr ≡ PullRequestDisplayState.closed)
          ↔ (task_display_state_from_pr pr ≡ TaskDisplayState.closed))
unfolding pr_display_state task_display_state_from_pr
pr_display_state-agrees none = ground arith
pr_display_state-agrees (some pr) = ground arith

-- A feature is shown as completed exactly if it is stored so, or if it is automatic, has a task, and
-- all of its tasks are finished. No feature is shown as automatic.
pub feature_display_status_lem :
    (stored : FeatureStatus) (tasks finished : ℕ)
    → ((feature_display_status stored tasks finished ≡ FeatureStatus.completed) ↔ (
        (stored ≡ FeatureStatus.completed)
        ⊎ (stored ≡ FeatureStatus.auto) × (1 ≤ tasks) × (finished ≡ tasks)))
      × (feature_display_status stored tasks finished ≢ FeatureStatus.auto)
unfolding feature_display_status
feature_display_status_lem stored tasks finished = ground arith

pub is_ready_candidate-not_finished :
    (display : TaskDisplayState)
    → is_task_finished display ≡ true
    → is_ready_candidate display ≡ false
unfolding is_ready_candidate is_task_finished
is_ready_candidate-not_finished display h = ground arith

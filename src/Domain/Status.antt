-- ===== src/Domain/Status.antt =====
-- internal/domain/status.go: what is shown of a pull request, a task and a feature. A `*PullRequest`
-- that may be nil is an `Option`.
pub mod Agreement
pub mod Blocking
use next_now_x.Prelude.{
  ℕ, ◌++◌, Option, some, none, List, [], ◌∷◌, Bool, true, false, not, ◌&&◌, ◌||◌, if◌then◌else◌,
  ltb, leb, ◌==◌,
}
use next_now_x.Domain.Models.{
  FeatureStatus, TaskStatus, TaskDisplayState, TaskBlockLabel, PullRequestState, ReviewState,
  Mergeability, CheckState, PullRequestDisplayState, is_feature_status, is_task_status,
  is_display_state, is_pr_state, is_review_state, is_mergeability, is_check_state, Task,
  PullRequest,
}

pr_display_state_of : PullRequest → PullRequestDisplayState
pr_display_state_of pr =
    if is_pr_state PullRequestState.merged pr.state
    then PullRequestDisplayState.merged
    else if is_pr_state PullRequestState.closed pr.state
    then PullRequestDisplayState.closed
    else if pr.draft
    then PullRequestDisplayState.draft
    else if is_mergeability Mergeability.conflicting pr.mergeability
    then PullRequestDisplayState.conflict
    else if is_review_state ReviewState.changes_requested pr.review_state
    then PullRequestDisplayState.changes_requested
    else if is_review_state ReviewState.approved pr.review_state
    then PullRequestDisplayState.approved
    else if is_review_state ReviewState.required pr.review_state
    then PullRequestDisplayState.review_waiting
    else if is_pr_state PullRequestState.opened pr.state
    then PullRequestDisplayState.opened
    else PullRequestDisplayState.unknown

-- `PRDisplayState`.
pub pr_display_state : Option PullRequest → PullRequestDisplayState
unfolding pr_display_state_of
pr_display_state none = PullRequestDisplayState.unknown
pr_display_state (some pr) = pr_display_state_of pr

-- `respondedAfterReview`: `t.After(u)` is `u < t`.
unfoldable responded_after_review : PullRequest → Bool
responded_after_review pr = elim pr.changes_requested_at [
  | none ↦ false
  | some requested ↦ elim pr.last_pushed_at [ none ↦ false | some pushed ↦ ltb requested pushed ]
]

-- `taskDisplayStateFromPR`.
unfoldable pub task_display_state_from_pr : Option PullRequest → TaskDisplayState
unfolding responded_after_review
task_display_state_from_pr none = TaskDisplayState.unknown
task_display_state_from_pr (some pr) =
    if is_pr_state PullRequestState.merged pr.state
    then TaskDisplayState.merged
    else if is_pr_state PullRequestState.closed pr.state
    then TaskDisplayState.closed
    else if is_review_state ReviewState.approved pr.review_state
    then TaskDisplayState.approved
    else if pr.review_request_pending || responded_after_review pr
    then TaskDisplayState.in_review
    else if is_pr_state PullRequestState.opened pr.state
    then TaskDisplayState.implemented
    else TaskDisplayState.unknown

abbrev when_pr : (PullRequest → Bool) → Option PullRequest → Bool
when_pr test none = false
when_pr test (some pr) = test pr

abbrev label_if : Bool → TaskBlockLabel → List TaskBlockLabel
label_if b label = if b then label ∷ [] else []

-- `blockLabelsFor`: each `append` of the code, in its order.
pub block_labels_for : Option PullRequest → Bool → List TaskBlockLabel
block_labels_for pr dependency_unresolved =
    label_if dependency_unresolved TaskBlockLabel.dependency_unresolved
    ++ (label_if (when_pr (λ p. is_mergeability Mergeability.conflicting p.mergeability) pr)
          TaskBlockLabel.conflict
        ++ (label_if
              (when_pr (λ p. is_review_state ReviewState.changes_requested p.review_state) pr)
              TaskBlockLabel.changes_requested
            ++ label_if (when_pr (λ p. is_check_state CheckState.failure p.check_state) pr)
                TaskBlockLabel.ci_failed))

-- `IsTaskFinished`.
unfoldable pub is_task_finished : TaskDisplayState → Bool
is_task_finished display =
    is_display_state TaskDisplayState.completed display
    || (is_display_state TaskDisplayState.closed display
        || is_display_state TaskDisplayState.merged display)

-- `FeatureDisplayStatus`.
unfoldable pub feature_display_status : FeatureStatus → ℕ → ℕ → FeatureStatus
feature_display_status stored task_count finished_count =
    if not (is_feature_status FeatureStatus.auto stored)
    then stored
    else if leb 1 task_count && finished_count == task_count
    then FeatureStatus.completed
    else FeatureStatus.active

-- `displayStateFor`.
unfoldable pub display_state_for : Task → Option PullRequest → TaskDisplayState
display_state_for task pr =
    if is_task_status TaskStatus.completed task.status
    then TaskDisplayState.completed
    else if is_task_status TaskStatus.closed task.status
    then TaskDisplayState.closed
    else elim pr [
      | some p ↦ task_display_state_from_pr (some p)
      | none ↦
          if is_task_status TaskStatus.in_progress task.status
          then TaskDisplayState.in_progress
          else if task.has_implementation_plan
          then TaskDisplayState.designed
          else if is_task_status TaskStatus.designing task.status
          then TaskDisplayState.designing
          else TaskDisplayState.not_started
    ]

-- `IsSatisfied`.
unfoldable pub is_satisfied : Task → Option PullRequest → Bool
is_satisfied task pr =
    if is_task_status TaskStatus.completed task.status
      || is_task_status TaskStatus.closed task.status
    then true
    else when_pr
        (λ p.
          is_pr_state PullRequestState.opened p.state
          || (is_pr_state PullRequestState.closed p.state
              || is_pr_state PullRequestState.merged p.state))
        pr

-- `isReadyCandidate`.
pub is_ready_candidate : TaskDisplayState → Bool
is_ready_candidate display =
    is_display_state TaskDisplayState.not_started display
    || (is_display_state TaskDisplayState.designing display
        || is_display_state TaskDisplayState.designed display)

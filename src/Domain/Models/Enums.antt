-- ===== src/Domain/Models/Enums.antt =====
-- internal/domain/models.go, lines 5 to 138. A Go type that is a string with named constants is a
-- data type of those constants. Where a request can carry any text, and the code tests it later,
-- `other` is a text outside the constants; the columns of the remaining types have a CHECK in the
-- schema. `state == PullRequestStateMerged` is `is_pr_state merged state`, an equality of tags.
use next_now_x.Prelude.{ℕ, Str, Bool, ◌==◌}

pub data FeatureStatus : Type 0 where
  auto active paused completed cancelled : FeatureStatus
  other : Str → FeatureStatus

pub data TaskStatus : Type 0 where
  not_started designing in_progress completed closed : TaskStatus
  other : Str → TaskStatus

pub data TaskDisplayState : Type 0 where
  not_started designing designed in_progress implemented : TaskDisplayState
  in_review approved merged completed closed unknown : TaskDisplayState

pub data TaskBlockLabel : Type 0 where
  dependency_unresolved conflict changes_requested ci_failed : TaskBlockLabel

-- `PullRequestStateOpen` is `opened`, since `open` is a reserved word.
pub data PullRequestState : Type 0 where
  opened closed merged unknown : PullRequestState

pub data ReviewState : Type 0 where
  none required approved changes_requested unknown : ReviewState

pub data Mergeability : Type 0 where
  mergeable conflicting unknown : Mergeability

pub data CheckState : Type 0 where
  unknown none pending success failure : CheckState

pub data PullRequestDisplayState : Type 0 where
  merged closed draft conflict changes_requested : PullRequestDisplayState
  approved review_waiting opened unknown : PullRequestDisplayState

pub data DocumentKind : Type 0 where
  url local_file markdown : DocumentKind
  other : Str → DocumentKind

-- `BlockedCode` is the empty string where a task waits for nothing: an `Option` of this.
pub data BlockedReasonCode : Type 0 where
  dependency_data_incomplete waiting_for_blocker : BlockedReasonCode

abbrev feature_status_tag : FeatureStatus → ℕ
feature_status_tag auto = 0
feature_status_tag active = 1
feature_status_tag paused = 2
feature_status_tag completed = 3
feature_status_tag cancelled = 4
feature_status_tag (other _) = 5

abbrev task_status_tag : TaskStatus → ℕ
task_status_tag not_started = 0
task_status_tag designing = 1
task_status_tag in_progress = 2
task_status_tag completed = 3
task_status_tag closed = 4
task_status_tag (other _) = 5

abbrev display_state_tag : TaskDisplayState → ℕ
display_state_tag not_started = 0
display_state_tag designing = 1
display_state_tag designed = 2
display_state_tag in_progress = 3
display_state_tag implemented = 4
display_state_tag in_review = 5
display_state_tag approved = 6
display_state_tag merged = 7
display_state_tag completed = 8
display_state_tag closed = 9
display_state_tag unknown = 10

abbrev block_label_tag : TaskBlockLabel → ℕ
block_label_tag dependency_unresolved = 0
block_label_tag conflict = 1
block_label_tag changes_requested = 2
block_label_tag ci_failed = 3

abbrev pr_state_tag : PullRequestState → ℕ
pr_state_tag opened = 0
pr_state_tag closed = 1
pr_state_tag merged = 2
pr_state_tag unknown = 3

abbrev review_state_tag : ReviewState → ℕ
review_state_tag none = 0
review_state_tag required = 1
review_state_tag approved = 2
review_state_tag changes_requested = 3
review_state_tag unknown = 4

abbrev mergeability_tag : Mergeability → ℕ
mergeability_tag mergeable = 0
mergeability_tag conflicting = 1
mergeability_tag unknown = 2

abbrev check_state_tag : CheckState → ℕ
check_state_tag unknown = 0
check_state_tag none = 1
check_state_tag pending = 2
check_state_tag success = 3
check_state_tag failure = 4

abbrev document_kind_tag : DocumentKind → ℕ
document_kind_tag url = 0
document_kind_tag local_file = 1
document_kind_tag markdown = 2
document_kind_tag (other _) = 3

-- Equality with a constant: the first argument is one of the named constants.
abbrev pub is_feature_status : FeatureStatus → FeatureStatus → Bool
is_feature_status c s = feature_status_tag s == feature_status_tag c

abbrev pub is_task_status : TaskStatus → TaskStatus → Bool
is_task_status c s = task_status_tag s == task_status_tag c

abbrev pub is_display_state : TaskDisplayState → TaskDisplayState → Bool
is_display_state c s = display_state_tag s == display_state_tag c

abbrev pub is_block_label : TaskBlockLabel → TaskBlockLabel → Bool
is_block_label c s = block_label_tag s == block_label_tag c

abbrev pub is_pr_state : PullRequestState → PullRequestState → Bool
is_pr_state c s = pr_state_tag s == pr_state_tag c

abbrev pub is_review_state : ReviewState → ReviewState → Bool
is_review_state c s = review_state_tag s == review_state_tag c

abbrev pub is_mergeability : Mergeability → Mergeability → Bool
is_mergeability c s = mergeability_tag s == mergeability_tag c

abbrev pub is_check_state : CheckState → CheckState → Bool
is_check_state c s = check_state_tag s == check_state_tag c

abbrev is_document_kind : DocumentKind → DocumentKind → Bool
is_document_kind c s = document_kind_tag s == document_kind_tag c

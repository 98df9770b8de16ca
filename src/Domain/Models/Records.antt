-- ===== src/Domain/Models/Records.antt =====
-- internal/domain/models.go, lines 115 to 330, and the label types of task_labels.go. A `time.Time`
-- is a number of nanoseconds, a pointer that may be nil is an `Option`, and a map with string keys
-- is the list of its entries.
use next_now_x.Prelude.{ℕ, suc, Str, Bool, true, false, Option, List, [], ◌∷◌, if◌then◌else◌}
use next_now_x.Domain.Models.Enums.{
  FeatureStatus, TaskStatus, TaskDisplayState, TaskBlockLabel, PullRequestState, ReviewState,
  Mergeability, CheckState, PullRequestDisplayState, DocumentKind, BlockedReasonCode,
}

abbrev pub Time : Type 0
Time = ℕ

-- Empty fields mean that the scope sets nothing.
pub record TaskLabelOverride : Type 0 where
  pub text : Str
  pub color : Str

abbrev pub TaskLabelOverrides : Type 0
TaskLabelOverrides = List (Str × TaskLabelOverride)

pub record TaskLabelOverrideUpdate : Type 0 where
  pub text : Option Str
  pub color : Option Str

abbrev pub TaskLabelOverridesUpdate : Type 0
TaskLabelOverridesUpdate = List (Str × TaskLabelOverrideUpdate)

pub record TaskLabelAppearance : Type 0 where
  pub text : Str
  pub color : Str
  pub text_overridden : Bool
  pub color_overridden : Bool

abbrev pub TaskLabelAppearances : Type 0
TaskLabelAppearances = List (Str × TaskLabelAppearance)

-- The empty text inherits.
pub record PromptTemplateOverrides : Type 0 where
  pub design : Str
  pub implementation : Str
  pub batch : Str
  pub batch_design : Str

pub record PromptTemplateOverridesUpdate : Type 0 where
  pub design : Option Str
  pub implementation : Option Str
  pub batch : Option Str
  pub batch_design : Option Str

pub record Project : Type 0 where
  pub id : Str
  pub storage_id : Str
  pub title : Str
  pub description : Str
  pub archived : Bool
  pub prompt_overrides : PromptTemplateOverrides
  pub task_label_overrides : TaskLabelOverrides
  pub created_at : Time
  pub updated_at : Time

pub record ProjectUpdate : Type 0 where
  pub title : Option Str
  pub description : Option Str
  pub archived : Option Bool
  pub prompt_overrides : Option PromptTemplateOverridesUpdate
  pub task_label_overrides : Option TaskLabelOverridesUpdate

pub record FeatureUpdate : Type 0 where
  pub title : Option Str
  pub description : Option Str
  pub status : Option FeatureStatus
  pub archived : Option Bool
  pub project_id : Option Str
  pub prompt_overrides : Option PromptTemplateOverridesUpdate
  pub task_label_overrides : Option TaskLabelOverridesUpdate

pub record Feature : Type 0 where
  pub id : Str
  pub storage_id : Str
  pub project_id : Str
  pub title : Str
  pub description : Str
  pub prompt_overrides : PromptTemplateOverrides
  pub task_label_overrides : TaskLabelOverrides
  pub task_label_appearances : TaskLabelAppearances
  pub status : FeatureStatus
  pub read_only : Bool
  pub display_status : FeatureStatus
  pub archived : Bool
  pub created_at : Time
  pub updated_at : Time
  pub task_count : ℕ
  pub ready_count : ℕ
  pub review_waiting_count : ℕ
  pub conflict_count : ℕ
  pub merged_count : ℕ
  pub finished_count : ℕ

pub record Task : Type 0 where
  pub id : Str
  pub storage_id : Str
  pub feature_id : Str
  pub storage_feature_id : Str
  pub title : Str
  pub scope : Str
  pub status : TaskStatus
  pub assignee : Str
  pub has_implementation_plan : Bool
  pub created_at : Time
  pub updated_at : Time
  pub ready : Bool
  pub display_state : TaskDisplayState
  pub blocked_reason : Str
  pub blocked_code : Option BlockedReasonCode
  pub blocker_task_id : Str
  pub pending_blocker_task_ids : List Str
  pub block_labels : List TaskBlockLabel

pub record Dependency : Type 0 where
  pub blocker_task_id : Str
  pub blocked_task_id : Str
  pub created_at : Time

pub record PullRequest : Type 0 where
  pub task_id : Str
  pub host : Str
  pub owner : Str
  pub repository : Str
  pub number : ℕ
  pub url : Str
  pub node_id : Str
  pub author : Str
  pub assignees : List Str
  pub state : PullRequestState
  pub draft : Bool
  pub review_state : ReviewState
  pub mergeability : Mergeability
  pub github_updated_at : Option Time
  pub last_synced_at : Option Time
  pub sync_error : Str
  pub stale : Bool
  pub display_state : PullRequestDisplayState
  pub review_request_pending : Bool
  pub changes_requested_at : Option Time
  pub last_pushed_at : Option Time
  pub check_state : CheckState

-- The one owner of a document: exactly one field is set.
pub record DocumentParent : Type 0 where
  pub project_id : Str
  pub feature_id : Str
  pub task_id : Str

pub record Document : Type 0 where
  pub id : Str
  pub project_id : Str
  pub feature_id : Str
  pub task_id : Str
  pub kind : DocumentKind
  pub title : Str
  pub locator : Str
  pub content : Str
  pub is_implementation_plan : Bool
  pub created_at : Time
  pub updated_at : Time

pub record Snapshot : Type 0 where
  pub projects : List Project
  pub features : List Feature
  pub tasks : List Task
  pub dependencies : List Dependency
  pub pull_requests : List PullRequest
  pub documents : List Document
  pub ready_tasks : List Task
  pub review_waiting_tasks : List Task
  pub conflict_tasks : List Task
  pub stale_tasks : List Task

abbrev is_set : Str → Bool
is_set [] = false
is_set (_ ∷ _) = true

-- `DocumentParent.Count`: the loop over the three fields.
count_set : List Str → ℕ
count_set [] = 0
count_set (s ∷ rest) = let n = count_set rest in if is_set s then suc n else n

unfoldable pub count : DocumentParent → ℕ
unfolding count_set
count p = count_set (p.project_id ∷ p.feature_id ∷ p.task_id ∷ [])

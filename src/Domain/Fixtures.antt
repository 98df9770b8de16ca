-- ===== src/Domain/Fixtures.antt =====
-- Tasks, pull requests and dependencies for the tests.
use next_now_x.Prelude.{Str, codes, none, List, [], ◌∷◌, false}
use next_now_x.Domain.Models.{
  TaskStatus, TaskDisplayState, PullRequestState, ReviewState, Mergeability, CheckState,
  PullRequestDisplayState, Task, Dependency, PullRequest,
}

abbrev pub a_task : Str → TaskStatus → Task
a_task id status = record {
  id = id;
  storage_id = id;
  feature_id = codes "f1";
  storage_feature_id = codes "f1";
  title = id;
  scope = [];
  status = status;
  assignee = [];
  has_implementation_plan = false;
  created_at = 0;
  updated_at = 0;
  ready = false;
  display_state = TaskDisplayState.unknown;
  blocked_reason = [];
  blocked_code = none;
  blocker_task_id = [];
  pending_blocker_task_ids = [];
  block_labels = [];
}

abbrev pub a_dependency : Str → Str → Dependency
a_dependency blocker blocked = record {
  blocker_task_id = blocker;
  blocked_task_id = blocked;
  created_at = 0;
}

abbrev pub a_pull_request : Str → PullRequestState → PullRequest
a_pull_request task state = record {
  task_id = task;
  host = codes "github.com";
  owner = codes "o";
  repository = codes "r";
  number = 1;
  url = codes "https://github.com/o/r/pull/1";
  node_id = [];
  author = [];
  assignees = [];
  state = state;
  draft = false;
  review_state = ReviewState.changes_requested;
  mergeability = Mergeability.conflicting;
  github_updated_at = none;
  last_synced_at = none;
  sync_error = [];
  stale = false;
  display_state = PullRequestDisplayState.unknown;
  review_request_pending = false;
  changes_requested_at = none;
  last_pushed_at = none;
  check_state = CheckState.failure;
}

-- Three tasks in a row: `t1` blocks `t2`, which blocks `t3`. The first one has a pull request.
abbrev pub three_tasks : List Task
three_tasks =
    a_task (codes "t1") TaskStatus.not_started
    ∷ a_task (codes "t2") TaskStatus.not_started
    ∷ a_task (codes "t3") TaskStatus.designing
    ∷ []

abbrev pub chain : List Dependency
chain = a_dependency (codes "t1") (codes "t2") ∷ a_dependency (codes "t2") (codes "t3") ∷ []

abbrev pub one_pull_request : List PullRequest
one_pull_request = a_pull_request (codes "t1") PullRequestState.merged ∷ []

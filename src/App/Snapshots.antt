-- ===== src/App/Snapshots.antt =====
-- `Snapshot` and `deriveSnapshot` of internal/app/service.go. `Snapshot` names no
-- config store: `global` is what `Load` gives.
pub mod Counts
pub mod ReadOnly
use next_now_x.Prelude.{
  ℕ, suc, Str, str_eq, List, [], ◌∷◌, ◌++◌, some, none, Bool, true, false, ◌||◌, if◌then◌else◌, map,
  foldl, keep, lookup_str, Result, ok, ◌>>=◌,
}
use next_now_x.Domain.Models.{
  Project, Feature, Task, PullRequest, Snapshot, TaskDisplayState, TaskBlockLabel, is_display_state,
  is_block_label, TaskLabelOverrides, Error,
}
use next_now_x.Domain.Status.{is_task_finished, feature_display_status}
use next_now_x.Domain.Graph.Derive.{derive}
use next_now_x.Domain.Labels.Resolve.{resolve}
use next_now_x.App.Repository.{Repository}
use next_now_x.App.Archive.{is_empty}

abbrev pub is_in_review : Task → Bool
is_in_review task = is_display_state TaskDisplayState.in_review task.display_state

abbrev pub is_merged : Task → Bool
is_merged task = is_display_state TaskDisplayState.merged task.display_state

abbrev has_conflict : List TaskBlockLabel → Bool
has_conflict [] = false
has_conflict (label ∷ labels) = is_block_label TaskBlockLabel.conflict label || has_conflict labels

abbrev pub is_in_conflict : Task → Bool
is_in_conflict task = has_conflict task.block_labels

pub is_done : Task → Bool
unfolding is_task_finished
is_done task = is_task_finished task.display_state

abbrev is_stale : PullRequest → Bool
is_stale pr = if pr.stale then true else if is_empty pr.sync_error then false else true

abbrev next_if : Bool → ℕ → ℕ
next_if b n = if b then suc n else n

-- The body of the loop that counts, for the feature of the task.
pub counted : Task → Feature → Feature
unfolding is_done
counted task f = record f {
  task_count = suc f.task_count;
  ready_count = next_if task.ready f.ready_count;
  review_waiting_count = next_if (is_in_review task) f.review_waiting_count;
  conflict_count = next_if (is_in_conflict task) f.conflict_count;
  merged_count = next_if (is_merged task) f.merged_count;
  finished_count = next_if (is_done task) f.finished_count;
}

abbrev pub has_feature : Str → List Feature → Bool
has_feature id [] = false
has_feature id (f ∷ features) = str_eq f.id id || has_feature id features

-- `featureIndex` holds the place of the last feature with an identifier.
pub count_task : List Feature → Task → List Feature
unfolding counted str_eq
count_task [] task = []
count_task (f ∷ features) task =
    let rest = count_task features task in
    if has_feature task.feature_id features
    then f ∷ rest
    else if str_eq f.id task.feature_id
    then counted task f ∷ rest
    else f ∷ rest

-- `archivedProjects[id]`, where a later project overrides.
abbrev pub archived_at : Str → List Project → Bool
archived_at id projects =
    elim (lookup_str id (foldl (λ m (p : Project). (p.id, p.archived) ∷ m) [] projects)) [
      | none ↦ false
      | some archived ↦ archived
    ]

-- The overrides of the first project with the identifier.
abbrev overrides_at : Str → List Project → TaskLabelOverrides
overrides_at id projects =
    elim (lookup_str id (map (λ (p : Project). (p.id, p.task_label_overrides)) projects)) [
      | none ↦ []
      | some overrides ↦ overrides
    ]

abbrev appearing : TaskLabelOverrides → List Project → Feature → Feature
appearing global projects f = record f {
  task_label_appearances =
      resolve global (overrides_at f.project_id projects) f.task_label_overrides;
}

-- The last loop over the features.
pub finish : List Project → Feature → Feature
unfolding lookup_str feature_display_status resolve
finish projects f = appearing [] projects (record f {
  display_status = feature_display_status f.status f.task_count f.finished_count;
  read_only = f.archived || archived_at f.project_id projects;
})

-- The tasks of the pull requests that are stale or failed.
abbrev stale_tasks_of : List Task → List PullRequest → List Task
stale_tasks_of tasks [] = []
stale_tasks_of tasks (pr ∷ prs) =
    let rest = stale_tasks_of tasks prs in
    if is_stale pr
    then elim (lookup_str pr.task_id (foldl (λ m (t : Task). (t.id, t) ∷ m) [] tasks)) [
      | none ↦ rest
      | some task ↦ task ∷ rest
    ]
    else rest

abbrev pub counted_features : List Feature → List Task → List Feature
counted_features features tasks = foldl count_task features tasks

abbrev with_tasks : Snapshot → List Task → Snapshot
with_tasks s tasks = record s {
  tasks = tasks;
  ready_tasks = s.ready_tasks ++ keep (λ (t : Task). t.ready) tasks;
  review_waiting_tasks = s.review_waiting_tasks ++ keep is_in_review tasks;
  conflict_tasks = s.conflict_tasks ++ keep is_in_conflict tasks;
  stale_tasks = s.stale_tasks ++ stale_tasks_of tasks s.pull_requests;
  features = map (finish s.projects) (counted_features s.features tasks);
}

-- `deriveSnapshot`.
pub derive_snapshot : Snapshot → Snapshot
unfolding derive keep lookup_str count_task finish
derive_snapshot s = with_tasks s (derive s.tasks s.dependencies s.pull_requests)

module _ {S : Type 0} (repo : Repository S) (global : Result Error TaskLabelOverrides) where
  -- `Snapshot`.
  unfoldable pub snapshot : S → Result Error Snapshot
  unfolding derive_snapshot resolve lookup_str
  snapshot s = do
    stored ← repo.snapshot s
    labels ← global
    ok (record (derive_snapshot stored) {
      features =
          map (appearing labels (derive_snapshot stored).projects)
            (derive_snapshot stored).features;
    })

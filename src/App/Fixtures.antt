-- ===== src/App/Fixtures.antt =====
-- A repository for the tests: one project, which is archived, with one feature, one task and one
-- document. What is stored is the number of writes.
use next_now_x.Prelude.{ℕ, ◌+◌, codes, some, none, [], ◌∷◌, true, false, ok, err}
use next_now_x.Domain.Models.{
  Project, Feature, FeatureStatus, FeatureUpdate, ProjectUpdate, Task, TaskStatus, Document,
  DocumentKind, Snapshot, foreign,
}
use next_now_x.Domain.Fixtures.{a_task, three_tasks, chain, one_pull_request}
use next_now_x.App.Repository.{Repository}

abbrev pub a_project : Project
a_project = record {
  id = codes "P-1";
  storage_id = [];
  title = codes "site";
  description = [];
  archived = true;
  prompt_overrides = record { design = []; implementation = []; batch = []; batch_design = [] };
  task_label_overrides = [];
  created_at = 0;
  updated_at = 0;
}

abbrev pub a_feature : Feature
a_feature = record {
  id = codes "f1";
  storage_id = [];
  project_id = codes "P-1";
  title = codes "login";
  description = [];
  prompt_overrides = record { design = []; implementation = []; batch = []; batch_design = [] };
  task_label_overrides = [];
  task_label_appearances = [];
  status = FeatureStatus.auto;
  read_only = false;
  display_status = FeatureStatus.auto;
  archived = false;
  created_at = 0;
  updated_at = 0;
  task_count = 0;
  ready_count = 0;
  review_waiting_count = 0;
  conflict_count = 0;
  merged_count = 0;
  finished_count = 0;
}

abbrev pub a_document : Document
a_document = record {
  id = codes "D-1";
  project_id = [];
  feature_id = [];
  task_id = codes "t1";
  kind = DocumentKind.markdown;
  title = [];
  locator = [];
  content = codes "plan";
  is_implementation_plan = true;
  created_at = 0;
  updated_at = 0;
}

abbrev pub the_task : Task
the_task = a_task (codes "t1") TaskStatus.not_started

abbrev pub a_snapshot : Snapshot
a_snapshot = record {
  projects = a_project ∷ [];
  features = a_feature ∷ [];
  tasks = three_tasks;
  dependencies = chain;
  pull_requests = one_pull_request;
  documents = [];
  ready_tasks = [];
  review_waiting_tasks = [];
  conflict_tasks = [];
  stale_tasks = [];
}

abbrev pub a_repository : Repository ℕ
a_repository = record {
  create_project = λ title description s. (s + 1, ok a_project);
  update_project = λ project s. (s + 1, ok project);
  get_project = λ id s. ok a_project;
  delete_project = λ id cascade s. (s + 1, ok tt);
  create_feature = λ title description project s. (s + 1, ok a_feature);
  update_feature = λ feature s. (s + 1, ok feature);
  get_feature = λ id s. ok a_feature;
  delete_feature = λ id cascade s. (s + 1, ok tt);
  create_task = λ feature title scope assignee s. (s + 1, ok the_task);
  get_task = λ id s. ok the_task;
  update_task = λ task s. (s + 1, ok task);
  delete_task = λ id cascade s. (s + 1, ok tt);
  get_implementation_plan = λ id s. ok a_document;
  upsert_implementation_plan = λ id document s. (s + 1, ok document);
  delete_implementation_plan = λ id s. (s + 1, ok tt);
  add_dependency = λ blocker blocked s. (s + 1, err foreign);
  remove_dependency = λ blocker blocked s. (s + 1, ok tt);
  upsert_pull_request = λ pr s. (s + 1, ok pr);
  delete_pull_request = λ id s. (s + 1, ok tt);
  create_document = λ parent kind title locator content is_plan s. (s + 1, ok a_document);
  get_document = λ id s. ok a_document;
  update_document = λ id title source is_plan s. (s + 1, ok a_document);
  delete_document = λ id s. (s + 1, ok tt);
  snapshot = λ s. ok a_snapshot;
}

abbrev pub a_feature_update : FeatureUpdate
a_feature_update = record {
  title = some (codes "sign in");
  description = none;
  status = none;
  archived = some false;
  project_id = none;
  prompt_overrides = none;
  task_label_overrides = none;
}

abbrev pub a_project_update : ProjectUpdate
a_project_update = record {
  title = none;
  description = some [];
  archived = some false;
  prompt_overrides = none;
  task_label_overrides = none;
}

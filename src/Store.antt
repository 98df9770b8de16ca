-- ===== src/Store.antt =====
-- `AddDependency` and `RemoveDependency` of internal/store/repository.go, over the tables that they
-- use. The queries of internal/store/queries.sql are functions on the lists of rows, and a failing
-- database is not modelled: a transaction that is not committed leaves the tables as they were.
pub mod Local
pub mod Acyclic
pub mod Changes
pub mod Validity
mod Tests
use next_now_x.Prelude.{
  ℕ, Str, str_eq, List, [], ◌∷◌, ◌++◌, Option, some, none, Bool, true, false, not, ◌&&◌, ◌||◌, keep,
  map, foldl, lookup_str, if◌then◌else◌, Result, ok, err, ◌>>=◌, ◌>>◌,
}
use next_now_x.Domain.Models.{
  Time, Task, TaskStatus, TaskDisplayState, Dependency, Error, domain_error, new_error, not_found,
  cross_feature_dependency, duplicate_dependency, DomainErrorCode,
}
use next_now_x.Domain.Graph.Cycle.{Outcome, cycle, no_cycle, out_of_fuel, cycle_path}

-- The columns of `tasks` that the two operations read.
pub record TaskRow : Type 0 where
  pub id : Str
  pub public_id : Str
  pub feature_id : Str

pub record DependencyRow : Type 0 where
  pub blocker_task_id : Str
  pub blocked_task_id : Str
  pub created_at : Time

pub record Tables : Type 0 where
  pub tasks : List TaskRow
  pub dependencies : List DependencyRow

-- `GetTaskByPublicID`, and `mapNotFound`.
pub find_task : Str → List TaskRow → Result Error TaskRow
unfolding str_eq
find_task id [] = err (new_error not_found)
find_task id (row ∷ rows) =
    let rest = find_task id rows in if str_eq row.public_id id then ok row else rest

-- `ListTasksByFeature`.
abbrev pub tasks_by_feature : Str → List TaskRow → List TaskRow
tasks_by_feature feature = keep (λ (row : TaskRow). str_eq row.feature_id feature)

-- `publicTaskIDs`.
abbrev pub add_id : List (Str × Str) → TaskRow → List (Str × Str)
add_id m row = (row.id, row.public_id) ∷ m

abbrev pub public_task_ids : List TaskRow → List (Str × Str)
public_task_ids rows = foldl add_id [] rows

-- A missing key reads as the empty text.
abbrev pub id_at : Str → List (Str × Str) → Str
id_at id m = elim (lookup_str id m) [ none ↦ [] | some public ↦ public ]

-- Whether the join of `ListDependenciesByFeature` has the row for the feature.
pub in_feature : Str → List TaskRow → DependencyRow → Bool
unfolding str_eq
in_feature feature [] row = false
in_feature feature (t ∷ tasks) row =
    (str_eq t.id row.blocker_task_id && str_eq t.feature_id feature) || in_feature feature tasks row

abbrev pub dependencies_by_feature : Str → Tables → List DependencyRow
dependencies_by_feature feature db = keep (in_feature feature db.tasks) db.dependencies

-- `domainDependency`.
abbrev pub domain_dependency : List (Str × Str) → DependencyRow → Dependency
domain_dependency ids row = record {
  blocker_task_id = id_at row.blocker_task_id ids;
  blocked_task_id = id_at row.blocked_task_id ids;
  created_at = row.created_at;
}

pub is_row : Str → Str → DependencyRow → Bool
unfolding str_eq
is_row blocker blocked row =
    str_eq row.blocker_task_id blocker && str_eq row.blocked_task_id blocked

has_row : Str → Str → List DependencyRow → Bool
unfolding is_row
has_row blocker blocked [] = false
has_row blocker blocked (row ∷ rows) = is_row blocker blocked row || has_row blocker blocked rows

-- The error for a cycle carries its path.
abbrev pub no_path : Outcome → Result Error (Unit {0})
no_path (cycle path) = err (domain_error DomainErrorCode.cycle path)
no_path no_cycle = ok tt
no_path out_of_fuel = ok tt

-- The identifiers of the tasks and the dependencies of the feature, as the search sees them.
abbrev pub local_ids : Str → Tables → List (Str × Str)
local_ids feature db = public_task_ids (tasks_by_feature feature db.tasks)

abbrev pub local_dependencies : Str → Tables → List Dependency
local_dependencies feature db =
    map (domain_dependency (local_ids feature db)) (dependencies_by_feature feature db)

-- `CyclePath` reads of the tasks only how many there are.
pub dependency_tests : TaskRow → TaskRow → Tables → Result Error (Unit {0})
unfolding has_row in_feature cycle_path keep lookup_str str_eq
dependency_tests blocker blocked db = do
  if str_eq blocker.feature_id blocked.feature_id
      then ok tt
      else err (new_error cross_feature_dependency)
  if has_row blocker.id blocked.id (dependencies_by_feature blocker.feature_id db)
      then err (new_error duplicate_dependency)
      else ok tt
  no_path
      (cycle_path [] (local_dependencies blocker.feature_id db) blocker.public_id blocked.public_id)

abbrev pub with_row : TaskRow → TaskRow → Time → Tables → Tables
with_row blocker blocked now db = record db {
  dependencies =
      db.dependencies
      ++ record { blocker_task_id = blocker.id; blocked_task_id = blocked.id; created_at = now }
        ∷ [];
}

abbrev pub added :
    TaskRow → TaskRow → Time → Tables → Result Error (Unit {0}) → Tables × Result Error (Unit {0})
added blocker blocked now db (err e) = (db, err e)
added blocker blocked now db (ok _) = (with_row blocker blocked now db, ok tt)

-- `AddDependency` with both tasks found; the value that it returns is the new row's.
pub add_row : Time → TaskRow → TaskRow → Tables → Tables × Result Error (Unit {0})
unfolding dependency_tests
add_row now blocker blocked db = added blocker blocked now db (dependency_tests blocker blocked db)

abbrev pub add_second :
    Time → TaskRow → Tables → Result Error TaskRow → Tables × Result Error (Unit {0})
add_second now t db (err e) = (db, err e)
add_second now t db (ok u) = add_row now t u db

abbrev pub add_first : Time → Str → Tables → Result Error TaskRow → Tables × Result Error (Unit {0})
add_first now blocked db (err e) = (db, err e)
add_first now blocked db (ok t) = add_second now t db (find_task blocked db.tasks)

-- `AddDependency`.
pub add_dependency : Time → Str → Str → Tables → Tables × Result Error (Unit {0})
unfolding find_task add_row
add_dependency now blocker blocked db = add_first now blocked db (find_task blocker db.tasks)

-- The rows that `RemoveDependency` deletes, and its test that there is one.
pub remove_row : TaskRow → TaskRow → Tables → Tables × Result Error (Unit {0})
unfolding has_row is_row keep
remove_row blocker blocked db =
    if has_row blocker.id blocked.id db.dependencies
    then (
      record db {
        dependencies = keep (λ row. not (is_row blocker.id blocked.id row)) db.dependencies;
      },
      ok tt,
    )
    else (db, err (new_error not_found))

abbrev pub remove_second :
    TaskRow → Tables → Result Error TaskRow → Tables × Result Error (Unit {0})
remove_second t db (err e) = (db, err e)
remove_second t db (ok u) = remove_row t u db

abbrev pub remove_first : Str → Tables → Result Error TaskRow → Tables × Result Error (Unit {0})
remove_first blocked db (err e) = (db, err e)
remove_first blocked db (ok t) = remove_second t db (find_task blocked db.tasks)

-- `RemoveDependency`.
pub remove_dependency : Str → Str → Tables → Tables × Result Error (Unit {0})
unfolding find_task remove_row
remove_dependency blocker blocked db = remove_first blocked db (find_task blocker db.tasks)

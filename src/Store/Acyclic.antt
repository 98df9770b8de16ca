-- ===== src/Store/Acyclic.antt =====
-- `AddDependency` of internal/store/repository.go, which looks for a cycle in one feature only,
-- against the whole table.
use next_now_x.Prelude.{
  ℕ, ◌≡◌, ◌≢◌, inl, inr, refl, sym, ap, ◌∙◌, subst, Str, str_eq, str_eq_iff, List, [], ◌∷◌, ◌++◌,
  true, false, map, In, In-append, Bool-cases, Result, ok, err, arith,
}
use next_now_x.Domain.Models.{
  Dependency, Error, new_error, cross_feature_dependency, duplicate_dependency,
}
use next_now_x.Domain.Graph.Cycle.{Outcome, cycle, no_cycle, out_of_fuel, cycle_path}
use next_now_x.Domain.Graph.Cycle.Walks.{IsAcyclic, IsAcyclic-extended}
use next_now_x.Domain.Graph.Cycle.Correct.{cycle_path-ne-out_of_fuel}
use next_now_x.Store.{
  TaskRow, DependencyRow, Tables, find_task, dependencies_by_feature, local_dependencies,
  dependency_tests, with_row, added, add_row, add_dependency, no_path, has_row, add_first,
  add_second,
}
use next_now_x.Store.Local.{edge_of, graph, IsLocal, Inv, apart}

no_path_lem : (o : Outcome) → o ≢ out_of_fuel → no_path o ≡ ok tt → o ≡ no_cycle
no_path_lem (cycle path) n h = cc
no_path_lem no_cycle n h = refl
no_path_lem out_of_fuel n h = absurd (n refl)

tests-passed :
    (blocker blocked : TaskRow) (db : Tables)
    → str_eq blocker.feature_id blocked.feature_id ≡ true
    → has_row blocker.id blocked.id (dependencies_by_feature blocker.feature_id db) ≡ false
    → dependency_tests blocker blocked db
      ≡ no_path (
          cycle_path []
            (local_dependencies blocker.feature_id db)
            blocker.public_id
            blocked.public_id)
unfolding dependency_tests
tests-passed blocker blocked db e f = rw (e, f) refl

tests-crossing :
    (blocker blocked : TaskRow) (db : Tables)
    → str_eq blocker.feature_id blocked.feature_id ≡ false
    → dependency_tests blocker blocked db ≡ err (new_error cross_feature_dependency)
unfolding dependency_tests
tests-crossing blocker blocked db e = rw e refl

tests-duplicate :
    (blocker blocked : TaskRow) (db : Tables)
    → str_eq blocker.feature_id blocked.feature_id ≡ true
    → has_row blocker.id blocked.id (dependencies_by_feature blocker.feature_id db) ≡ true
    → dependency_tests blocker blocked db ≡ err (new_error duplicate_dependency)
unfolding dependency_tests
tests-duplicate blocker blocked db e f = rw (e, f) refl

not_ok : (e : Error) → ◌≢◌ {A = Result Error (Unit {0})} (err e) (ok tt)
not_ok e h = cc

tests_lem :
    (blocker blocked : TaskRow) (db : Tables)
    → dependency_tests blocker blocked db ≡ ok tt
    → (blocker.feature_id ≡ blocked.feature_id)
      × (cycle_path []
            (local_dependencies blocker.feature_id db)
            blocker.public_id
            blocked.public_id
          ≡ no_cycle)
tests_lem blocker blocked db h = elim (Bool-cases (str_eq blocker.feature_id blocked.feature_id)) [
  | inr e ↦
      absurd (
        not_ok (new_error cross_feature_dependency) (sym (tests-crossing blocker blocked db e) ∙ h))
  | inl e ↦
      elim (Bool-cases
        (has_row blocker.id blocked.id (dependencies_by_feature blocker.feature_id db))) [
          | inl f ↦ absurd (
              not_ok (new_error duplicate_dependency)
                (sym (tests-duplicate blocker blocked db e f) ∙ h))
          | inr f ↦ (
            (str_eq_iff blocker.feature_id blocked.feature_id).0 e,
            no_path_lem
                (cycle_path [] (local_dependencies blocker.feature_id db) blocker.public_id
                  blocked.public_id)
                (cycle_path-ne-out_of_fuel [] (local_dependencies blocker.feature_id db)
                  blocker.public_id blocked.public_id)
                (sym (tests-passed blocker blocked db e f) ∙ h),
          )
        ]
]

map-append_edge :
    (rows : List DependencyRow) (row : DependencyRow)
    → map edge_of (rows ++ row ∷ []) ≡ map edge_of rows ++ edge_of row ∷ []
map-append_edge [] row = refl
map-append_edge (r ∷ rows) row =
    ap (λ (ds : List Dependency). edge_of r ∷ ds) (map-append_edge rows row)

IsLocal-after :
    (now : ℕ) (blocker blocked : TaskRow) (db : Tables) (row : DependencyRow)
    → IsLocal db row
    → IsLocal (with_row blocker blocked now db) row
IsLocal-after now blocker blocked db row l = record {
  blocker = l.blocker;
  blocked = l.blocked;
  blocker_listed = l.blocker_listed;
  blocked_listed = l.blocked_listed;
  from = l.from;
  to = l.to;
  same_feature = l.same_feature;
}

with_row-Inv :
    (now : ℕ) (blocker blocked : TaskRow) (db : Tables)
    → Inv db
    → In blocker db.tasks
    → In blocked db.tasks
    → dependency_tests blocker blocked db ≡ ok tt
    → Inv (with_row blocker blocked now db)
with_row-Inv now blocker blocked db v i j h =
    let (same, none_found) = tests_lem blocker blocked db h in
    let row : DependencyRow = record {
      blocker_task_id = blocker.id;
      blocked_task_id = blocked.id;
      created_at = now;
    } in
    record {
      keyed = v.keyed;
      local = λ r m. elim ((In-append r db.dependencies (row ∷ [])).0 m) [
        | inl old ↦ IsLocal-after now blocker blocked db r (v.local r old)
        | inr (inl e) ↦ subst (IsLocal (with_row blocker blocked now db)) e (record {
          blocker = blocker;
          blocked = blocked;
          blocker_listed = i;
          blocked_listed = j;
          from = refl;
          to = refl;
          same_feature = same;
        })
        | inr (inr none_left) ↦ absurd none_left
      ];
      acyclic = subst IsAcyclic (sym (map-append_edge db.dependencies row)) (
          IsAcyclic-extended (graph db) (edge_of row) v.acyclic (
            apart db v blocker.feature_id blocker blocked (record { listed = i; member = refl })
              (record { listed = j; member = sym same }) none_found));
    }

added-Inv :
    (now : ℕ) (blocker blocked : TaskRow) (db : Tables) (r : Result Error (Unit {0}))
    → dependency_tests blocker blocked db ≡ r
    → Inv db
    → In blocker db.tasks
    → In blocked db.tasks
    → Inv (added blocker blocked now db r).0
added-Inv now blocker blocked db (err e) h v i j = v
added-Inv now blocker blocked db (ok tt) h v i j = with_row-Inv now blocker blocked db v i j h

find_task-In : (id : Str) (rows : List TaskRow) (t : TaskRow) → find_task id rows ≡ ok t → In t rows
unfolding find_task
find_task-In id [] t h = cc
find_task-In id (row ∷ rows) t h = elim (Bool-cases (str_eq row.public_id id)) [
  | inl e ↦ inl (ground (arith, e, h))
  | inr e ↦ inr (find_task-In id rows t (ground (arith, e, h)))
]

add_row-Inv :
    (now : ℕ) (blocker blocked : TaskRow) (db : Tables)
    → Inv db
    → In blocker db.tasks
    → In blocked db.tasks
    → Inv (add_row now blocker blocked db).0
unfolding add_row
add_row-Inv now blocker blocked db v i j =
    added-Inv now blocker blocked db (dependency_tests blocker blocked db) refl v i j

second :
    (now : ℕ) (t : TaskRow) (blocked : Str) (db : Tables) (r : Result Error TaskRow)
    → find_task blocked db.tasks ≡ r
    → Inv db
    → In t db.tasks
    → Inv (add_second now t db r).0
second now t blocked db (err e) h v i = v
second now t blocked db (ok u) h v i =
    add_row-Inv now t u db v i (find_task-In blocked db.tasks u h)

first :
    (now : ℕ) (blocker blocked : Str) (db : Tables) (r : Result Error TaskRow)
    → find_task blocker db.tasks ≡ r
    → Inv db
    → Inv (add_first now blocked db r).0
first now blocker blocked db (err e) h v = v
first now blocker blocked db (ok t) h v =
    second now t blocked db (find_task blocked db.tasks) refl v (find_task-In blocker db.tasks t h)

-- From tables whose rows have keys of their own, whose dependencies stay within a feature, and in
-- which no task waits for itself, `AddDependency` leaves such tables, whether it ends with an error
-- or with a new row: a search for a cycle among the dependencies of the one feature is enough.
pub add_dependency-Inv :
    (now : ℕ) (blocker blocked : Str) (db : Tables)
    → Inv db
    → Inv (add_dependency now blocker blocked db).0
unfolding add_dependency
add_dependency-Inv now blocker blocked db v =
    first now blocker blocked db (find_task blocker db.tasks) refl v

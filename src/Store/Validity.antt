-- ===== src/Store/Validity.antt =====
-- `Validate` of internal/store/repository.go, as far as it tests the dependencies of a snapshot: the
-- topological order of all tasks, by the identifiers that are shown.
use next_now_x.Prelude.{
  ◌≡◌, refl, sym, ap, subst, ◌∙◌, inl, inr, Str, List, [], ◌∷◌, map, occ, In, In-occ, Distinct,
  In-map_cases, In-map_of_In, Bool-cases, Result, ok, err, ℕ, arith,
}
use next_now_x.Domain.Models.{Task, Dependency, Error}
use next_now_x.Domain.Graph.Cycle.Walks.{Reach, here, step, Edge, IsAcyclic}
use next_now_x.Domain.Graph.Order.{Ordering, in_order, keys_of, topological_order}
use next_now_x.Domain.Graph.Order.Start.{ids_of, IsKnown, In-keys}
use next_now_x.Domain.Graph.Order.Correct.{once_keys}
use next_now_x.Domain.Graph.Order.Outcome.{topological_order_iff}
use next_now_x.Store.{
  TaskRow, DependencyRow, Tables, public_task_ids, id_at, domain_dependency, added, add_row,
  add_second, add_first, add_dependency, dependency_tests, find_task, has_row, remove_row,
  remove_second, remove_first, remove_dependency,
}
use next_now_x.Store.Local.{edge_of, graph, Inv, id_at-public}
use next_now_x.Store.Changes.{Change, adding, removing, change, change_all, change_all-Inv}

-- `domainTask`, where the other columns are those of the task that is given.
abbrev pub domain_task : (TaskRow → Task) → TaskRow → Task
domain_task others row = record (others row) {
  id = row.public_id;
  storage_id = row.id;
  storage_feature_id = row.feature_id;
}

-- The tasks and the dependencies of `Snapshot`.
abbrev pub snapshot_tasks : (TaskRow → Task) → Tables → List Task
snapshot_tasks others db = map (domain_task others) db.tasks

abbrev pub snapshot_dependencies : Tables → List Dependency
snapshot_dependencies db = map (domain_dependency (public_task_ids db.tasks)) db.dependencies

-- The test that `Validate` makes of the snapshot.
unfoldable pub order_snapshot : (TaskRow → Task) → Tables → Ordering
unfolding topological_order
order_snapshot others db = topological_order (snapshot_tasks others db) (snapshot_dependencies db)

-- `tasks_public_id_idx`: no identifier is shown for two tasks.
abbrev pub public_ids : List TaskRow → List Str
public_ids rows = map (λ (t : TaskRow). t.public_id) rows

same_row :
    (rows : List TaskRow) (t u : TaskRow)
    → Distinct (public_ids rows)
    → In t rows
    → In u rows
    → t.public_id ≡ u.public_id
    → t ≡ u
same_row [] t u d i j e = absurd i
same_row (x ∷ rows) t u d (inl f) (inl g) e = sym f ∙ g
same_row (x ∷ rows) t u d (inl f) (inr j) e = absurd (
    d.0 (
      subst (λ p. In p (public_ids rows)) (sym (ap (λ (t : TaskRow). t.public_id) f ∙ e))
        (In-map_of_In (λ (t : TaskRow). t.public_id) u rows j)))
same_row (x ∷ rows) t u d (inr i) (inl g) e = absurd (
    d.0 (
      subst (λ p. In p (public_ids rows)) (sym (ap (λ (t : TaskRow). t.public_id) g ∙ sym e))
        (In-map_of_In (λ (t : TaskRow). t.public_id) t rows i)))
same_row (x ∷ rows) t u d (inr i) (inr j) e = same_row rows t u d.1 i j e

ids_of-snapshot :
    (others : TaskRow → Task) (rows : List TaskRow)
    → ids_of (map (domain_task others) rows) ≡ public_ids rows
ids_of-snapshot others [] = refl
ids_of-snapshot others (t ∷ rows) = ap (λ ids. t.public_id ∷ ids) (ids_of-snapshot others rows)

module _ (db : Tables) (v : Inv db)
    (named : (t u : TaskRow)
      → In t db.tasks
      → In u db.tasks
      → t.public_id ≡ u.public_id
      → t ≡ u) where
  public_lem : (t : TaskRow) → In t db.tasks → id_at t.id (public_task_ids db.tasks) ≡ t.public_id
  public_lem t i = id_at-public t db.tasks (λ u j e. v.keyed u t j i e) i

  -- A dependency of the snapshot is one of the table.
  record IsJoin (p q : Str) : Type 0 where
    blocker : TaskRow
    blocked : TaskRow
    blocker_listed : In blocker db.tasks
    blocked_listed : In blocked db.tasks
    from : blocker.public_id ≡ p
    to : blocked.public_id ≡ q
    edge : Edge (graph db) blocker.id blocked.id

  row-IsJoin :
      (row : DependencyRow)
      → In row db.dependencies
      → IsJoin
          (id_at row.blocker_task_id (public_task_ids db.tasks))
          (id_at row.blocked_task_id (public_task_ids db.tasks))
  row-IsJoin row i =
      let l = v.local row i in
      record {
        blocker = l.blocker;
        blocked = l.blocked;
        blocker_listed = l.blocker_listed;
        blocked_listed = l.blocked_listed;
        from =
            sym (public_lem l.blocker l.blocker_listed)
            ∙ ap (λ (id : Str). id_at id (public_task_ids db.tasks)) l.from;
        to =
            sym (public_lem l.blocked l.blocked_listed)
            ∙ ap (λ (id : Str). id_at id (public_task_ids db.tasks)) l.to;
        edge = record {
          dep = edge_of row;
          listed = In-map_of_In edge_of row db.dependencies i;
          from = sym l.from;
          to = sym l.to;
        };
      }

  Edge-IsJoin : (p q : Str) → Edge (snapshot_dependencies db) p q → IsJoin p q
  Edge-IsJoin p q e =
      let (row, listed, same) =
        In-map_cases (domain_dependency (public_task_ids db.tasks)) e.dep db.dependencies
          e.listed in
      let j = row-IsJoin row listed in
      record {
        blocker = j.blocker;
        blocked = j.blocked;
        blocker_listed = j.blocker_listed;
        blocked_listed = j.blocked_listed;
        from = j.from ∙ ap (λ (d : Dependency). d.blocker_task_id) same ∙ e.from;
        to = j.to ∙ ap (λ (d : Dependency). d.blocked_task_id) same ∙ e.to;
        edge = j.edge;
      }

  record Arrived (t : TaskRow) (q : Str) : Type 0 where
    row : TaskRow
    listed : In row db.tasks
    at : row.public_id ≡ q
    path : Reach (graph db) t.id row.id

  Reach-Arrived :
      (t : TaskRow) (q : Str)
      → In t db.tasks
      → Reach (snapshot_dependencies db) t.public_id q
      → Arrived t q
  Reach-Arrived t _ i here = record { row = t; listed = i; at = refl; path = here }
  Reach-Arrived t q i (step {v = p} r e) =
      let a = Reach-Arrived t p i r in
      let j = Edge-IsJoin p q e in
      let same = named a.row j.blocker a.listed j.blocker_listed (a.at ∙ sym j.from) in
      record {
        row = j.blocked;
        listed = j.blocked_listed;
        at = j.to;
        path = step (subst (λ (x : TaskRow). Reach (graph db) t.id x.id) same a.path) j.edge;
      }

  snapshot-IsAcyclic : IsAcyclic (snapshot_dependencies db)
  snapshot-IsAcyclic p q e r =
      let j = Edge-IsJoin p q e in
      let a =
        Reach-Arrived j.blocked p j.blocked_listed
          (subst (λ x. Reach (snapshot_dependencies db) x p) (sym j.to) r) in
      let same = named a.row j.blocker a.listed j.blocker_listed (a.at ∙ sym j.from) in
      v.acyclic j.blocker.id j.blocked.id j.edge
        (subst (λ (x : TaskRow). Reach (graph db) j.blocked.id x.id) same a.path)

  module _ (others : TaskRow → Task) where
    listed-known :
        (t : TaskRow) → In t db.tasks → occ t.public_id (keys_of (snapshot_tasks others db)) ≡ 1
    listed-known t i = omega (
      arith,
      once_keys (snapshot_tasks others db) t.public_id,
      In-occ t.public_id (keys_of (snapshot_tasks others db)) (
          (In-keys (snapshot_tasks others db) [] t.public_id).1 (
            inr (
              In-map_of_In (λ (x : Task). x.id) (domain_task others t) (snapshot_tasks others db)
                (In-map_of_In (domain_task others) t db.tasks i)))),
    )

    snapshot-IsKnown :
        (rows : List DependencyRow)
        → ((row : DependencyRow) → In row rows → In row db.dependencies)
        → IsKnown
            (keys_of (snapshot_tasks others db))
            (map (domain_dependency (public_task_ids db.tasks)) rows)
    snapshot-IsKnown [] h = tt
    snapshot-IsKnown (row ∷ rows) h =
        let j = row-IsJoin row (h row (inl refl)) in
        let keys = keys_of (snapshot_tasks others db) in
        (
          subst (λ p. occ p keys ≡ 1) j.from (listed-known j.blocker j.blocker_listed),
          subst (λ p. occ p keys ≡ 1) j.to (listed-known j.blocked j.blocked_listed),
          snapshot-IsKnown rows (λ r i. h r (inr i)),
        )

-- In valid tables the snapshot has an order.
order_snapshot_lem :
    (others : TaskRow → Task) (db : Tables)
    → Inv db
    → Distinct (public_ids db.tasks)
    → (order : List Str) × (order_snapshot others db ≡ in_order order)
unfolding order_snapshot
order_snapshot_lem others db v d =
    let named = λ (t : TaskRow) (u : TaskRow). same_row db.tasks t u d in
    (topological_order_iff (snapshot_tasks others db) (snapshot_dependencies db)
        (subst Distinct (sym (ids_of-snapshot others db.tasks)) d)
        (snapshot-IsKnown db v named others db.dependencies (λ row i. i))).1
      (snapshot-IsAcyclic db v named)

added-tasks :
    (now : ℕ) (t u : TaskRow) (db : Tables) (r : Result Error (Unit {0}))
    → (added t u now db r).0.tasks ≡ db.tasks
added-tasks now t u db (err e) = refl
added-tasks now t u db (ok _) = refl

add_second-tasks :
    (now : ℕ) (t : TaskRow) (db : Tables) (r : Result Error TaskRow)
    → (add_second now t db r).0.tasks ≡ db.tasks
unfolding add_row
add_second-tasks now t db (err e) = refl
add_second-tasks now t db (ok u) = added-tasks now t u db (dependency_tests t u db)

add_first-tasks :
    (now : ℕ) (blocked : Str) (db : Tables) (r : Result Error TaskRow)
    → (add_first now blocked db r).0.tasks ≡ db.tasks
add_first-tasks now blocked db (err e) = refl
add_first-tasks now blocked db (ok t) = add_second-tasks now t db (find_task blocked db.tasks)

remove_row-tasks : (t u : TaskRow) (db : Tables) → (remove_row t u db).0.tasks ≡ db.tasks
unfolding remove_row
remove_row-tasks t u db = elim (Bool-cases (has_row t.id u.id db.dependencies)) [
  | inl e ↦ rw e refl
  | inr e ↦ rw e refl
]

remove_second-tasks :
    (t : TaskRow) (db : Tables) (r : Result Error TaskRow)
    → (remove_second t db r).0.tasks ≡ db.tasks
remove_second-tasks t db (err e) = refl
remove_second-tasks t db (ok u) = remove_row-tasks t u db

remove_first-tasks :
    (blocked : Str) (db : Tables) (r : Result Error TaskRow)
    → (remove_first blocked db r).0.tasks ≡ db.tasks
remove_first-tasks blocked db (err e) = refl
remove_first-tasks blocked db (ok t) = remove_second-tasks t db (find_task blocked db.tasks)

change_all-tasks : (cs : List Change) (db : Tables) → (change_all cs db).tasks ≡ db.tasks
unfolding change_all change add_dependency remove_dependency
change_all-tasks [] db = refl
change_all-tasks (adding now blocker blocked ∷ cs) db =
    change_all-tasks cs _ ∙ add_first-tasks now blocked db (find_task blocker db.tasks)
change_all-tasks (removing blocker blocked ∷ cs) db =
    change_all-tasks cs _ ∙ remove_first-tasks blocked db (find_task blocker db.tasks)

-- From valid tables, in which no identifier is shown for two tasks, any sequence of calls of
-- `AddDependency` and `RemoveDependency` leaves tables for whose snapshot `TopologicalOrder` finds an
-- order, so that `Validate` reports neither a cycle nor an unknown end of a dependency.
pub change_all-order_snapshot :
    (cs : List Change) (others : TaskRow → Task) (db : Tables)
    → Inv db
    → Distinct (public_ids db.tasks)
    → (order : List Str) × (order_snapshot others (change_all cs db) ≡ in_order order)
change_all-order_snapshot cs others db v d =
    order_snapshot_lem others (change_all cs db) (change_all-Inv cs db v)
      (subst (λ (rows : List TaskRow). Distinct (public_ids rows)) (sym (change_all-tasks cs db)) d)

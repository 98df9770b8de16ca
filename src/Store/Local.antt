-- ===== src/Store/Local.antt =====
-- `AddDependency` of internal/store/repository.go: the dependencies of a feature against those of the
-- whole table.
use next_now_x.Prelude.{
  ◌≡◌, ◌⊎◌, inl, inr, refl, sym, ap, ◌∙◌, subst, Str, str_eq, str_eq_iff, List, [], ◌∷◌, Option,
  some, none, true, false, map, foldl, lookup_str, In, In-keep, In-map_of_In, In-map_cases,
  Bool-cases, arith,
}
use next_now_x.Domain.Models.{Dependency}
use next_now_x.Domain.Graph.Cycle.{no_cycle, cycle_path}
use next_now_x.Domain.Graph.Cycle.Walks.{Reach, here, step, Edge, IsAcyclic}
use next_now_x.Domain.Graph.Cycle.Correct.{cycle_path_iff}
use next_now_x.Store.{
  TaskRow, DependencyRow, Tables, tasks_by_feature, add_id, public_task_ids, id_at, in_feature,
  dependencies_by_feature, domain_dependency, local_ids, local_dependencies,
}

-- The graph of the whole table, on the identifiers of its rows.
abbrev pub edge_of : DependencyRow → Dependency
edge_of row = record {
  blocker_task_id = row.blocker_task_id;
  blocked_task_id = row.blocked_task_id;
  created_at = row.created_at;
}

abbrev pub graph : Tables → List Dependency
graph db = map edge_of db.dependencies

-- The tasks that a row joins, which are of one feature.
pub record IsLocal (db : Tables) (row : DependencyRow) : Type 0 where
  pub blocker : TaskRow
  pub blocked : TaskRow
  pub blocker_listed : In blocker db.tasks
  pub blocked_listed : In blocked db.tasks
  pub from : blocker.id ≡ row.blocker_task_id
  pub to : blocked.id ≡ row.blocked_task_id
  pub same_feature : blocker.feature_id ≡ blocked.feature_id

-- The keys of the schema hold, dependencies stay within a feature, and no task waits for itself.
pub record Inv (db : Tables) : Type 0 where
  pub keyed : (t u : TaskRow) → In t db.tasks → In u db.tasks → t.id ≡ u.id → t ≡ u
  pub local : (row : DependencyRow) → In row db.dependencies → IsLocal db row
  pub acyclic : IsAcyclic (graph db)

lookup_str-added :
    (t : TaskRow) (rows : List TaskRow) (m : List (Str × Str))
    → ((u : TaskRow) → In u rows → u.id ≡ t.id → u ≡ t)
    → (lookup_str t.id m ≡ some t.public_id) ⊎ In t rows
    → lookup_str t.id (foldl add_id m rows) ≡ some t.public_id
lookup_str-added t [] m same (inl h) = h
lookup_str-added t [] m same (inr i) = absurd i
lookup_str-added t (u ∷ rows) m same h =
    lookup_str-added t rows (add_id m u) (λ r i. same r (inr i))
      (first (Bool-cases (str_eq u.id t.id)) h)
  where
    first :
        (str_eq u.id t.id ≡ true) ⊎ (str_eq u.id t.id ≡ false)
        → (lookup_str t.id m ≡ some t.public_id) ⊎ In t (u ∷ rows)
        → (lookup_str t.id (add_id m u) ≡ some t.public_id) ⊎ In t rows
    first (inl e) h = inl (
        unfold lookup_str in
        (rw e (
          ap (λ (r : TaskRow). some r.public_id) (same u (inl refl) ((str_eq_iff u.id t.id).0 e)))))
    first (inr e) (inl h) = inl (unfold lookup_str in (rw e h))
    first (inr e) (inr (inl i)) =
        absurd (ground (arith, e, str_eq_iff u.id t.id, ap (λ (r : TaskRow). r.id) i))
    first (inr e) (inr (inr i)) = inr i

pub id_at-public :
    (t : TaskRow) (rows : List TaskRow)
    → ((u : TaskRow) → In u rows → u.id ≡ t.id → u ≡ t)
    → In t rows
    → id_at t.id (public_task_ids rows) ≡ t.public_id
id_at-public t rows same i =
    ap (λ (o : Option Str). elim o [ none ↦ [] | some public ↦ public ])
      (lookup_str-added t rows [] same (inr i))

in_feature-of_In :
    (feature : Str) (t : TaskRow) (tasks : List TaskRow) (row : DependencyRow)
    → In t tasks
    → t.id ≡ row.blocker_task_id
    → t.feature_id ≡ feature
    → in_feature feature tasks row ≡ true
unfolding in_feature
in_feature-of_In feature t [] row i e f = absurd i
in_feature-of_In feature t (u ∷ tasks) row (inl h) e f =
    rw
      (
        (str_eq_iff u.id row.blocker_task_id).1 (ap (λ (r : TaskRow). r.id) h ∙ e),
        (str_eq_iff u.feature_id feature).1 (ap (λ (r : TaskRow). r.feature_id) h ∙ f),
      )
      refl
in_feature-of_In feature t (u ∷ tasks) row (inr i) e f =
    ground (arith, in_feature-of_In feature t tasks row i e f)

module _ (db : Tables) (v : Inv db) (feature : Str) where
  -- A task of the feature.
  pub record IsMember (t : TaskRow) : Type 0 where
    pub listed : In t db.tasks
    pub member : t.feature_id ≡ feature

  same_id :
      (t : TaskRow)
      → IsMember t
      → (u : TaskRow) → In u (tasks_by_feature feature db.tasks)
      → u.id ≡ t.id
      → u ≡ t
  same_id t h u i e =
      v.keyed u t ((In-keep (λ (r : TaskRow). str_eq r.feature_id feature) u db.tasks).0 i).0
        h.listed e

  public_id_lem : (t : TaskRow) → IsMember t → id_at t.id (local_ids feature db) ≡ t.public_id
  public_id_lem t h = id_at-public t (tasks_by_feature feature db.tasks) (same_id t h) (
      (In-keep (λ (r : TaskRow). str_eq r.feature_id feature) t db.tasks).1
        (h.listed, (str_eq_iff t.feature_id feature).1 h.member))

  local-Edge :
      (row : DependencyRow) (t u : TaskRow)
      → In row db.dependencies
      → IsMember t
      → IsMember u
      → t.id ≡ row.blocker_task_id
      → u.id ≡ row.blocked_task_id
      → Edge (local_dependencies feature db) t.public_id u.public_id
  local-Edge row t u i h k e f = record {
    dep = domain_dependency (local_ids feature db) row;
    listed =
        In-map_of_In (domain_dependency (local_ids feature db)) row
          (dependencies_by_feature feature db)
          ((In-keep (in_feature feature db.tasks) row db.dependencies).1
            (i, in_feature-of_In feature t db.tasks row h.listed e h.member));
    from = ap (λ (id : Str). id_at id (local_ids feature db)) (sym e) ∙ public_id_lem t h;
    to = ap (λ (id : Str). id_at id (local_ids feature db)) (sym f) ∙ public_id_lem u k;
  }

  -- A task that is reached, as the search sees it.
  record Reached (t : TaskRow) (w : Str) : Type 0 where
    row : TaskRow
    member : IsMember row
    at : row.id ≡ w
    path : Reach (local_dependencies feature db) t.public_id row.public_id

  Reach-Reached : (t : TaskRow) (w : Str) → IsMember t → Reach (graph db) t.id w → Reached t w
  Reach-Reached t w h here = record { row = t; member = h; at = refl; path = here }
  Reach-Reached t w h (step {v = u} p e) =
      let r = Reach-Reached t u h p in
      let (row, listed, same) = In-map_cases edge_of e.dep db.dependencies e.listed in
      let l = v.local row listed in
      let from : r.row.id ≡ row.blocker_task_id =
        r.at ∙ sym e.from ∙ ap (λ (d : Dependency). d.blocker_task_id) (sym same) in
      let at : l.blocker ≡ r.row =
        v.keyed l.blocker r.row l.blocker_listed r.member.listed (l.from ∙ sym from) in
      let member : IsMember l.blocked = record {
        listed = l.blocked_listed;
        member = sym l.same_feature ∙ ap (λ (x : TaskRow). x.feature_id) at ∙ r.member.member;
      } in
      record {
        row = l.blocked;
        member = member;
        at = l.to ∙ ap (λ (d : Dependency). d.blocked_task_id) same ∙ e.to;
        path = step r.path (local-Edge row r.row l.blocked listed r.member member from l.to);
      }

  -- No path in the feature, no path in the table.
  pub apart :
      (blocker blocked : TaskRow)
      → IsMember blocker
      → IsMember blocked
      → cycle_path [] (local_dependencies feature db) blocker.public_id blocked.public_id ≡ no_cycle
      → ¬ (Reach (graph db) blocked.id blocker.id)
  apart blocker blocked h k e p =
      let r = Reach-Reached blocked blocker.id k p in
      let same = v.keyed r.row blocker r.member.listed h.listed r.at in
      (cycle_path_iff [] (local_dependencies feature db) blocker.public_id blocked.public_id).0 e (
        subst (λ (x : TaskRow). Reach (local_dependencies feature db) blocked.public_id x.public_id)
          same r.path)

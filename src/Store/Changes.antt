-- ===== src/Store/Changes.antt =====
-- `AddDependency` and `RemoveDependency` of internal/store/repository.go in any sequence.
use next_now_x.Prelude.{
  ℕ, Str, List, [], ◌∷◌, Bool, not, keep, In, In-keep, In-map_of_In, In-map_cases, Bool-cases, inl,
  inr, subst, Result, ok, err,
}
use next_now_x.Domain.Models.{Error}
use next_now_x.Domain.Graph.Cycle.Walks.{Reach, here, step, Edge}
use next_now_x.Store.{
  TaskRow, DependencyRow, Tables, find_task, is_row, has_row, remove_row, remove_first,
  remove_second, remove_dependency, add_dependency,
}
use next_now_x.Store.Local.{edge_of, graph, Inv}
use next_now_x.Store.Acyclic.{add_dependency-Inv}

module _ (p : DependencyRow → Bool) (db : Tables) where
  abbrev kept : Tables
  kept = record db { dependencies = keep p db.dependencies }

  Edge-kept : (u v : Str) → Edge (graph kept) u v → Edge (graph db) u v
  Edge-kept u v e =
      let (row, listed, same) = In-map_cases edge_of e.dep kept.dependencies e.listed in
      record {
        dep = e.dep;
        listed =
            subst (λ d. In d (graph db)) same
              (In-map_of_In edge_of row db.dependencies
                ((In-keep p row db.dependencies).0 listed).0);
        from = e.from;
        to = e.to;
      }

  Reach-kept : (u v : Str) → Reach (graph kept) u v → Reach (graph db) u v
  Reach-kept u v here = here
  Reach-kept u v (step {v = w} q e) = step (Reach-kept u w q) (Edge-kept w v e)

  kept-Inv : Inv db → Inv kept
  kept-Inv v = record {
    keyed = v.keyed;
    local = λ row m.
        let l = v.local row ((In-keep p row db.dependencies).0 m).0 in
        record {
          blocker = l.blocker;
          blocked = l.blocked;
          blocker_listed = l.blocker_listed;
          blocked_listed = l.blocked_listed;
          from = l.from;
          to = l.to;
          same_feature = l.same_feature;
        };
    acyclic = λ u w e q. v.acyclic u w (Edge-kept u w e) (Reach-kept w u q);
  }

remove_row-Inv :
    (blocker blocked : TaskRow) (db : Tables) → Inv db → Inv (remove_row blocker blocked db).0
unfolding remove_row
remove_row-Inv blocker blocked db v =
    elim (Bool-cases (has_row blocker.id blocked.id db.dependencies)) [
      | inl e ↦ rw e (kept-Inv (λ row. not (is_row blocker.id blocked.id row)) db v)
      | inr e ↦ rw e v
    ]

remove_second-Inv :
    (t : TaskRow) (db : Tables) (r : Result Error TaskRow) → Inv db → Inv (remove_second t db r).0
remove_second-Inv t db (err e) v = v
remove_second-Inv t db (ok u) v = remove_row-Inv t u db v

remove_first-Inv :
    (blocked : Str) (db : Tables) (r : Result Error TaskRow)
    → Inv db
    → Inv (remove_first blocked db r).0
remove_first-Inv blocked db (err e) v = v
remove_first-Inv blocked db (ok t) v = remove_second-Inv t db (find_task blocked db.tasks) v

remove_dependency-Inv :
    (blocker blocked : Str) (db : Tables) → Inv db → Inv (remove_dependency blocker blocked db).0
unfolding remove_dependency
remove_dependency-Inv blocker blocked db v =
    remove_first-Inv blocked db (find_task blocker db.tasks) v

-- A call of one of the two operations.
pub data Change : Type 0 where
  adding : (now : ℕ) (blocker blocked : Str) → Change
  removing : (blocker blocked : Str) → Change

unfoldable pub change : Change → Tables → Tables
change (adding now blocker blocked) db = (add_dependency now blocker blocked db).0
change (removing blocker blocked) db = (remove_dependency blocker blocked db).0

unfoldable pub change_all : List Change → Tables → Tables
unfolding change
change_all [] db = db
change_all (c ∷ cs) db = change_all cs (change c db)

change-Inv : (c : Change) (db : Tables) → Inv db → Inv (change c db)
unfolding change
change-Inv (adding now blocker blocked) db v = add_dependency-Inv now blocker blocked db v
change-Inv (removing blocker blocked) db v = remove_dependency-Inv blocker blocked db v

-- From tables whose rows have keys of their own, whose dependencies stay within a feature, and in
-- which no task waits for itself, any sequence of calls of `AddDependency` and `RemoveDependency`,
-- the refused ones included, leaves such tables.
pub change_all-Inv : (cs : List Change) (db : Tables) → Inv db → Inv (change_all cs db)
unfolding change_all
change_all-Inv [] db v = v
change_all-Inv (c ∷ cs) db v = change_all-Inv cs (change c db) (change-Inv c db v)

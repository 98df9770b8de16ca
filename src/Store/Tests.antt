-- ===== src/Store/Tests.antt =====
-- `AddDependency` of internal/store/repository.go at concrete tables.
use next_now_x.Prelude.{
  List, Str, Distinct, ◌≡◌, refl, sym, ◌∙◌, ap, inl, inr, str_eq, str_eq_iff, codes, In, lookup_str,
  list_at, append_at, sort_strings, has_str, keep, [], ◌∷◌, true, false, err,
}
use next_now_x.Domain.Models.{TaskStatus, DomainErrorCode, domain_error}
use next_now_x.Domain.Graph.Cycle.{cycle_path}
use next_now_x.Store.{TaskRow, Tables, add_dependency}
use next_now_x.Store.Local.{Inv}
use next_now_x.Store.Acyclic.{add_dependency-Inv}
use next_now_x.Domain.Graph.Order.{in_order}
use next_now_x.Domain.Fixtures.{a_task}
use next_now_x.Store.Validity.{public_ids, order_snapshot, change_all-order_snapshot}
use next_now_x.Store.Changes.{Change, adding, removing, change_all, change_all-Inv}

abbrev first_row : TaskRow
first_row = record { id = codes "a"; public_id = codes "T-1"; feature_id = codes "f" }

abbrev second_row : TaskRow
second_row = record { id = codes "b"; public_id = codes "T-2"; feature_id = codes "f" }

abbrev no_dependencies : Tables
no_dependencies = record { tasks = first_row ∷ second_row ∷ []; dependencies = [] }

different : (x : TaskRow) → first_row ≡ x → (y : TaskRow) → second_row ≡ y → ¬ (x.id ≡ y.id)
different x e y f h =
    let ids : codes "a" ≡ codes "b" =
      ap (λ (r : TaskRow). r.id) e ∙ h ∙ sym (ap (λ (r : TaskRow). r.id) f) in
    let same : false ≡ true = unfold str_eq in ((str_eq_iff (codes "a") (codes "b")).1 ids) in cc

no_dependencies-Inv : Inv no_dependencies
no_dependencies-Inv = record {
  keyed = keyed;
  local = λ row m. absurd m;
  acyclic = λ u v e p. e.listed;
}
  where
    keyed :
        (t u : TaskRow)
        → In t no_dependencies.tasks
        → In u no_dependencies.tasks
        → t.id ≡ u.id
        → t ≡ u
    keyed t u (inl e) (inl f) h = sym e ∙ f
    keyed t u (inl e) (inr (inl f)) h = absurd (different t e u f h)
    keyed t u (inr (inl e)) (inl f) h = absurd (different u f t e (sym h))
    keyed t u (inr (inl e)) (inr (inl f)) h = sym e ∙ f
    keyed t u (inl e) (inr (inr m)) h = absurd m
    keyed t u (inr (inl e)) (inr (inr m)) h = absurd m
    keyed t u (inr (inr m)) k h = absurd m

abbrev one_dependency : Tables
one_dependency = (add_dependency 5 (codes "T-1") (codes "T-2") no_dependencies).0

one_dependency-Inv : Inv one_dependency
one_dependency-Inv =
    add_dependency-Inv 5 (codes "T-1") (codes "T-2") no_dependencies no_dependencies-Inv

-- The way back is refused, with the path.
back_refused :
    (add_dependency 6 (codes "T-2") (codes "T-1") one_dependency).1
    ≡ err (domain_error DomainErrorCode.cycle (codes "T-1" ∷ codes "T-2" ∷ codes "T-1" ∷ []))
unfolding add_dependency cycle_path str_eq lookup_str list_at append_at sort_strings has_str keep
back_refused = refl

abbrev changes : List Change
changes =
    adding 5 (codes "T-1") (codes "T-2")
    ∷ removing (codes "T-1") (codes "T-2")
    ∷ adding 6 (codes "T-2") (codes "T-1")
    ∷ []

change_all-Inv_example : Inv (change_all changes no_dependencies)
change_all-Inv_example = change_all-Inv changes no_dependencies no_dependencies-Inv

ids_once : Distinct (public_ids no_dependencies.tasks)
ids_once = (apart, (λ m. absurd m, tt))
  where
    apart : ¬ In (codes "T-1") (codes "T-2" ∷ [])
    apart (inl e) =
        let same : false ≡ true = unfold str_eq in ((str_eq_iff (codes "T-2") (codes "T-1")).1 e) in
        cc
    apart (inr m) = absurd m

change_all-order_snapshot_example :
    (order : List Str) × (order_snapshot
        (λ row. a_task (codes "") TaskStatus.not_started)
        (change_all changes no_dependencies)
      ≡ in_order order)
change_all-order_snapshot_example =
    change_all-order_snapshot changes (λ row. a_task (codes "") TaskStatus.not_started)
      no_dependencies no_dependencies-Inv ids_once

-- ===== src/Domain/Graph/Cycle/Adjacency.antt =====
-- `CyclePath` of internal/domain/graph.go: the adjacency map against the dependencies.
use mathlib.Core.List.{append-nil, append_assoc}
use next_now_x.Prelude.{
  ◌≡◌, refl, sym, ap, subst, ◌∙◌, ◌↔◌, ◌++◌, inl, inr, Str, str_eq, str_eq_iff, lookup_str-map,
  List, [], ◌∷◌, map, foldl, keep, lookup_str, list_at, list_at-append_at, sort_strings,
  In-sort_strings, Bool-cases, In, In-keep, In-map_of_In, In-map_cases, arith,
}
use next_now_x.Domain.Models.{Dependency}
use next_now_x.Domain.Graph.Cycle.{add_edge, adjacency}
use next_now_x.Domain.Graph.Cycle.Walks.{Edge}

-- The targets of the dependencies of a blocker, in their order.
abbrev targets_of : List Dependency → Str → List Str
targets_of deps u = map (λ d. d.blocked_task_id) (keep (λ d. str_eq d.blocker_task_id u) deps)

list_at-foldl :
    (u : Str) (deps : List Dependency) (m : List (Str × List Str))
    → list_at u (foldl add_edge m deps) ≡ list_at u m ++ targets_of deps u
unfolding keep
list_at-foldl u [] m = sym (append-nil (list_at u m))
list_at-foldl u (d ∷ deps) m =
    list_at-foldl u deps (add_edge m d) ∙ elim (Bool-cases (str_eq d.blocker_task_id u)) [
      | inl e ↦ simp (list_at-append_at, e, append_assoc)
      | inr e ↦ simp (list_at-append_at, e)
    ]

list_at-map :
    (f : List Str → List Str) (k : Str) (m : List (Str × List Str))
    → f [] ≡ []
    → list_at k (map (λ e. (e.0, f e.1)) m) ≡ f (list_at k m)
unfolding list_at
list_at-map f k m e = ground (arith, lookup_str-map f k m)

list_at-adjacency :
    (deps : List Dependency) (u : Str)
    → list_at u (adjacency deps) ≡ sort_strings (targets_of deps u)
unfolding adjacency sort_strings list_at lookup_str
list_at-adjacency deps u =
    list_at-map sort_strings u (foldl add_edge [] deps) refl
    ∙ ap sort_strings (list_at-foldl u deps [])

-- The adjacency map holds the dependencies.
pub In-adjacency :
    (deps : List Dependency) (u v : Str) → In v (list_at u (adjacency deps)) ↔ Edge deps u v
In-adjacency deps u v = (to_edge, of_edge)
  where
    to_edge : In v (list_at u (adjacency deps)) → Edge deps u v
    to_edge h =
        let (d, m, e) =
          In-map_cases (λ (d : Dependency). d.blocked_task_id) v
            (keep (λ d. str_eq d.blocker_task_id u) deps)
            ((In-sort_strings v (targets_of deps u)).0 (rw (list_at-adjacency deps u) at h)) in
        let (listed, from) = (In-keep (λ d. str_eq d.blocker_task_id u) d deps).0 m in
        record { dep = d; listed = listed; from = (str_eq_iff d.blocker_task_id u).0 from; to = e }

    of_edge : Edge deps u v → In v (list_at u (adjacency deps))
    of_edge e = rw (list_at-adjacency deps u) (
        (In-sort_strings v (targets_of deps u)).1 (
          subst (λ w. In w (targets_of deps u)) e.to
            (In-map_of_In (λ (d : Dependency). d.blocked_task_id) e.dep
              (keep (λ d. str_eq d.blocker_task_id u) deps)
              ((In-keep (λ d. str_eq d.blocker_task_id u) e.dep deps).1
                (e.listed, (str_eq_iff e.dep.blocker_task_id u).1 e.from)))))

-- ===== src/Domain/Graph/Order/Outcome.antt =====
-- `TopologicalOrder` of internal/domain/graph.go: what it returns, on every branch.
use next_now_x.Prelude.{
  ◌≡◌, refl, sym, subst, ◌↔◌, inl, inr, ◌≤◌, Str, str_eq, str_eq_iff, List, [], ◌∷◌, foldl, ◌==◌,
  occ, In-occ, occ-In, In, Distinct, length, length-map, length-le_of_occ, Bool-cases, Option,
  lookup_str, Result, arith,
}
use next_now_x.Domain.Models.{Task, Dependency}
use next_now_x.Domain.Graph.Cycle.Walks.{IsAcyclic}
use next_now_x.Domain.Graph.Order.{
  Degrees, Ordering, in_order, contains_cycle, keys_of, zero_degree, concluded, after_counting,
  topological_order,
}
use next_now_x.Domain.Graph.Order.Loop.{Finished}
use next_now_x.Domain.Graph.Order.Start.{
  ids_of, IsKnown, IsCounted, all_known, one_unknown, IsUnknown, occ-keys, degree_of-zero_degree,
  In-keys, length-keys-le, count_dependencies-IsCounted,
}
use next_now_x.Domain.Graph.Order.Correct.{
  once_keys, kahn_lem, IsTopological, fewer, all_placed, all_placed-IsTopological,
  acyclic-all_placed, IsTopological-IsAcyclic,
}

-- What an answer says of the tasks and the dependencies.
pub data IsAnswer (tasks : List Task) (deps : List Dependency) : Ordering → Type 0 where
  sorted :
      (order : List Str)
      → IsKnown (keys_of tasks) deps
      → IsTopological tasks deps order
      → IsAnswer tasks deps (in_order order)
  cyclic : IsKnown (keys_of tasks) deps → ¬ IsAcyclic deps → IsAnswer tasks deps contains_cycle
  unknown : (e : Ordering) → IsUnknown e → ¬ IsKnown (keys_of tasks) deps → IsAnswer tasks deps e

occ-le_one : (a : Str) (xs : List Str) → Distinct xs → occ a xs ≤ 1
occ-le_one a [] h = omega arith
occ-le_one a (x ∷ xs) h = elim (Bool-cases (str_eq x a)) [
  | inl e ↦
      let absent : ¬ In a xs = subst (λ a. ¬ In a xs) ((str_eq_iff x a).0 e) h.0 in
      ground (arith, e, absent, occ-In a xs)
  | inr e ↦ ground (arith, e, occ-le_one a xs h.1)
]

-- Tasks with identifiers of their own are as many as the keys.
length-keys-ge :
    (tasks : List Task) → Distinct (ids_of tasks) → length tasks ≤ length (keys_of tasks)
length-keys-ge tasks d = omega (
  arith,
  length-map (λ (t : Task). t.id) tasks,
  length-le_of_occ (ids_of tasks) (keys_of tasks) (λ a. at_most a),
)
  where
    at_most : (a : Str) → occ a (ids_of tasks) ≤ occ a (keys_of tasks)
    at_most a = elim (Bool-cases (occ a (ids_of tasks) == 0)) [
      | inl e ↦ ground (arith, e)
      | inr e ↦
          let m = occ-In a (ids_of tasks) (ground (arith, e)) in
          omega (
            arith,
            occ-le_one a (ids_of tasks) d,
            In-occ a (keys_of tasks) ((In-keys tasks [] a).1 (inr m)),
          )
    ]

module _ (tasks : List Task) (deps : List Dependency) (d : Distinct (ids_of tasks)) where
  concluded-IsAnswer :
      IsKnown (keys_of tasks) deps
      → (o : Option (List Str)) → Finished deps (keys_of tasks) (once_keys tasks) o
      → IsAnswer tasks deps (concluded tasks o)
  concluded-IsAnswer known o f =
      subst (λ o. IsAnswer tasks deps (concluded tasks o)) (sym f.found)
        (elim (Bool-cases (length f.order == length tasks)) [
          | inl e ↦ rw e (
              sorted f.order known (
                all_placed-IsTopological tasks deps known o f
                  (all_placed tasks deps known o f (ground (arith, e)))))
          | inr e ↦ rw e (
              cyclic known (λ acyclic. ground (
                arith,
                e,
                length-keys-ge tasks d,
                length-keys-le tasks [],
                length-le_of_occ f.order (keys_of tasks) (fewer tasks deps known o f),
                length-le_of_occ (keys_of tasks) f.order
                    (λ v. omega (arith, acyclic-all_placed tasks deps known o f acyclic v)),
              )))
        ])

  after_counting-IsAnswer :
      (r : Result Ordering Degrees)
      → IsCounted (keys_of tasks) deps (foldl zero_degree [] tasks) r
      → IsAnswer tasks deps (after_counting tasks deps r)
  after_counting-IsAnswer _ (all_known m known degrees) = concluded-IsAnswer known _ (
      kahn_lem tasks deps m known (λ v.
        omega
          (arith, degrees v, degree_of-zero_degree tasks [] (λ v. unfold lookup_str in refl) v)))
  after_counting-IsAnswer _ (one_unknown e u apart) = unknown e u apart

  -- For tasks with identifiers of their own there is an answer, and never for want of fuel. It is an
  -- order, which has every task once and each behind those that block it, or else the error for a
  -- cycle, where the dependencies have one, or the error for an end of a dependency that is no task.
  pub topological_order-IsAnswer : IsAnswer tasks deps (topological_order tasks deps)
  unfolding topological_order
  topological_order-IsAnswer = after_counting-IsAnswer _ (
      count_dependencies-IsCounted (keys_of tasks) deps (foldl zero_degree [] tasks)
        (occ-keys tasks [] [] (λ v. refl)))

  found_order :
      IsKnown (keys_of tasks) deps
      → (o : Ordering) → IsAnswer tasks deps o
      → ((order : List Str) × (o ≡ in_order order)) ↔ IsAcyclic deps
  found_order known _ (sorted order _ t) =
      (λ _. IsTopological-IsAcyclic tasks deps order t, λ _. (order, refl))
  found_order known _ (cyclic _ apart) = (λ h. cc, λ acyclic. absurd (apart acyclic))
  found_order known _ (unknown e u apart) = absurd (apart known)

  -- If the dependencies are between tasks, there is an order exactly if no task waits for itself.
  pub topological_order_iff :
      IsKnown (keys_of tasks) deps
      → ((order : List Str) × (topological_order tasks deps ≡ in_order order)) ↔ IsAcyclic deps
  topological_order_iff known = found_order known _ topological_order-IsAnswer

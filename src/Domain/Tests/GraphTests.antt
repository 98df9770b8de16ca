-- ===== src/Domain/Tests/GraphTests.antt =====
-- Runs of the definitions of internal/domain/graph.go, and the theorems at concrete inputs.
use next_now_x.Prelude.{
  lookup_str, ◌≡◌, ◌≢◌, ◌↔◌, refl, codes, Str, List, [], str_eq, list_at, append_at, sort_strings,
  has_str, ◌∷◌, ◌++◌, true, false, All, In, Distinct, has_str_iff, sym, ◌∙◌, str_leb,
}
use next_now_x.Domain.Models.{TaskStatus, Task}
use next_now_x.Domain.Fixtures.{a_task, a_dependency, three_tasks, chain, one_pull_request}
use next_now_x.Domain.Status.{is_task_finished, display_state_for, is_ready_candidate}
use next_now_x.Domain.Graph.Order.{
  in_order, contains_cycle, keys_of, add_key, release_all, topological_order,
}
use next_now_x.Domain.Graph.Order.Start.{ids_of, IsKnown}
use next_now_x.Domain.Graph.Order.Outcome.{
  IsAnswer, topological_order-IsAnswer, topological_order_iff,
}
use next_now_x.Domain.Graph.Derive.{Index, index, pr_of, is_resolved, derive_task, derive}
use next_now_x.Domain.Graph.Derive.Blockers.{
  blockers_of, pending, Reports, derive_task-Reports, derive_task-ready,
}
use next_now_x.Domain.Graph.Derive.Idempotent.{derive-idempotent}
use next_now_x.Domain.Graph.Cycle.{cycle, no_cycle, out_of_fuel, cycle_path}
use next_now_x.Domain.Graph.Cycle.Walks.{Reach, IsWalk, IsAcyclic}
use next_now_x.Domain.Graph.Cycle.Correct.{
  cycle_path-ne-out_of_fuel, cycle_path-IsWalk, cycle_path_iff, cycle_path-IsAcyclic,
}

cycle_path-ne-out_of_fuel_example :
    cycle_path three_tasks chain (codes "t3") (codes "t1") ≢ out_of_fuel
cycle_path-ne-out_of_fuel_example =
    cycle_path-ne-out_of_fuel three_tasks chain (codes "t3") (codes "t1")

abbrev back : List Str
back = codes "t1" ∷ codes "t2" ∷ codes "t3" ∷ codes "t1" ∷ []

chain_cycle : cycle_path three_tasks chain (codes "t3") (codes "t1") ≡ cycle back
unfolding cycle_path str_eq list_at append_at sort_strings has_str
chain_cycle = refl

cycle_path-IsWalk_example :
    (w : List Str) × (back ≡ w ++ codes "t1" ∷ []) × IsWalk chain (codes "t1") w (codes "t3")
cycle_path-IsWalk_example =
    cycle_path-IsWalk three_tasks chain (codes "t3") (codes "t1") back chain_cycle

cycle_path_iff_example :
    (cycle_path three_tasks chain (codes "t1") (codes "t3") ≡ no_cycle)
    ↔ (¬ (Reach chain (codes "t3") (codes "t1")))
cycle_path_iff_example = cycle_path_iff three_tasks chain (codes "t1") (codes "t3")

IsAcyclic-nil : IsAcyclic []
IsAcyclic-nil u v e r = e.listed

first_dependency : cycle_path three_tasks [] (codes "t1") (codes "t2") ≡ no_cycle
unfolding cycle_path str_eq list_at
first_dependency = refl

cycle_path-IsAcyclic_example : IsAcyclic ([] ++ a_dependency (codes "t1") (codes "t2") ∷ [])
cycle_path-IsAcyclic_example =
    cycle_path-IsAcyclic three_tasks [] (a_dependency (codes "t1") (codes "t2")) IsAcyclic-nil
      first_dependency

abbrev maps : Index
maps = index three_tasks chain one_pull_request

abbrev last_task : Task
last_task = a_task (codes "t3") TaskStatus.designing

last_task_unfinished :
    is_task_finished (display_state_for last_task (pr_of maps last_task.id)) ≡ false
unfolding is_task_finished display_state_for index lookup_str str_eq
last_task_unfinished = refl

derive_task-Reports_example :
    Reports maps last_task
      (derive_task maps last_task)
      (pending maps (blockers_of chain last_task.id))
derive_task-Reports_example =
    derive_task-Reports three_tasks chain one_pull_request last_task last_task_unfinished

derive_task-ready_example : ((derive_task maps last_task).ready ≡ true) ↔ (
    (is_ready_candidate (display_state_for last_task (pr_of maps last_task.id)) ≡ true)
    × All (λ id. is_resolved maps id ≡ true) (blockers_of chain last_task.id))
derive_task-ready_example = derive_task-ready three_tasks chain one_pull_request last_task

derive-idempotent_example :
    derive (derive three_tasks chain one_pull_request) chain one_pull_request
    ≡ derive three_tasks chain one_pull_request
derive-idempotent_example = derive-idempotent three_tasks chain one_pull_request

absent : (k : Str) (m : List Str) → has_str k m ≡ false → ¬ In k m
absent k m e h =
    let found : has_str k m ≡ true = (has_str_iff k m).1 h in
    let bad : true ≡ false = sym found ∙ e in cc

three_tasks-Distinct : Distinct (ids_of three_tasks)
unfolding has_str str_eq
three_tasks-Distinct = (
  absent (codes "t1") (codes "t2" ∷ codes "t3" ∷ []) refl,
  (absent (codes "t2") (codes "t3" ∷ []) refl, (absent (codes "t3") [] refl, tt)),
)

chain-IsKnown : IsKnown (keys_of three_tasks) chain
unfolding add_key str_eq has_str
chain-IsKnown = (refl, refl, (refl, refl, tt))

topological_order-IsAnswer_example :
    IsAnswer three_tasks chain (topological_order three_tasks chain)
topological_order-IsAnswer_example =
    topological_order-IsAnswer three_tasks chain three_tasks-Distinct

topological_order_iff_example :
    ((order : List Str) × (topological_order three_tasks chain ≡ in_order order)) ↔ IsAcyclic chain
topological_order_iff_example =
    topological_order_iff three_tasks chain three_tasks-Distinct chain-IsKnown

topological_order_test :
    topological_order three_tasks chain ≡ in_order (codes "t1" ∷ codes "t2" ∷ codes "t3" ∷ [])
unfolding topological_order release_all sort_strings lookup_str str_eq has_str list_at str_leb
    append_at
topological_order_test = refl

topological_order-cycle :
    topological_order three_tasks (chain ++ a_dependency (codes "t3") (codes "t2") ∷ [])
    ≡ contains_cycle
unfolding topological_order release_all sort_strings lookup_str str_eq has_str list_at str_leb
    append_at
topological_order-cycle = refl

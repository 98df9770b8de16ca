-- ===== src/Domain/Graph/Order.antt =====
-- `TopologicalOrder` of internal/domain/graph.go, lines 54 to 94: the tasks whose blockers are all in
-- the order are taken from a sorted queue, one after the other.
pub mod Counts
pub mod Loop
pub mod Start
pub mod Edges
pub mod Correct
pub mod Outcome
use next_now_x.Prelude.{
  ℕ, zero, suc, ◌-◌, ◌+◌, ◌++◌, Str, str_eq, Option, some, none, List, [], ◌∷◌, Bool, true, false,
  foldl, keep, if◌then◌else◌, ◌==◌, lookup_str, has_str, list_at, sort_strings, length, not, Result,
  ok, err,
}
use next_now_x.Domain.Models.{Task, Dependency}
use next_now_x.Domain.Graph.Cycle.{add_edge}

-- `map[string]int`, of which the newest entry of a key stands first; a missing key reads as 0.
abbrev pub Degrees : Type 0
Degrees = List (Str × ℕ)

abbrev pub or_zero : Option ℕ → ℕ
or_zero none = 0
or_zero (some n) = n

abbrev pub degree_of : Degrees → Str → ℕ
degree_of m v = or_zero (lookup_str v m)

-- `_, ok := indegree[id]`.
abbrev pub is_key : Str → Degrees → Bool
is_key v [] = false
is_key v ((k, n) ∷ m) = if str_eq k v then true else is_key v m

abbrev pub zero_degree : Degrees → Task → Degrees
zero_degree m task = (task.id, 0) ∷ m

abbrev pub increased : Degrees → Dependency → Degrees
increased m dep = (dep.blocked_task_id, suc (degree_of m dep.blocked_task_id)) ∷ m

-- What `TopologicalOrder` returns; `out_of_fuel` does not happen.
pub data Ordering : Type 0 where
  in_order : (order : List Str) → Ordering
  unknown_blocker unknown_blocked : (id : Str) → Ordering
  contains_cycle out_of_fuel : Ordering

-- The variables that the inner loop changes.
pub record Round : Type 0 where
  pub queue : List Str
  pub degrees : Degrees

-- The body of the inner loop. The count is above zero whenever it is decreased.
unfoldable pub release : Round → Str → Round
unfolding lookup_str sort_strings
release s next =
    let n = degree_of s.degrees next - 1 in
    record {
      degrees = (next, n) ∷ s.degrees;
      queue = if n == 0 then sort_strings (s.queue ++ next ∷ []) else s.queue;
    }

-- The inner loop, for the task that leaves the queue.
unfoldable pub release_all : List (Str × List Str) → Str → List Str → Degrees → Round
unfolding release list_at
release_all adj id queue degrees =
    foldl release (record { queue = queue; degrees = degrees }) (list_at id adj)

-- The outer loop; `none` if the fuel runs out.
unfoldable pub kahn :
    ℕ → List (Str × List Str) → (queue order : List Str) → Degrees → Option (List Str)
unfolding release_all
kahn fuel adj [] order degrees = some order
kahn zero adj (id ∷ queue) order degrees = none
kahn (suc fuel) adj (id ∷ queue) order degrees =
    let s = release_all adj id queue degrees in kahn fuel adj s.queue (order ++ id ∷ []) s.degrees

-- The keys of the map, each once.
unfoldable pub add_key : List Str → Task → List Str
unfolding has_str
add_key ids task = if has_str task.id ids then ids else task.id ∷ ids

abbrev pub keys_of : List Task → List Str
keys_of tasks = foldl add_key [] tasks

-- The test of the loop over the dependencies, and the counts that it leaves.
unfoldable pub count_dependencies : List Dependency → Degrees → Result Ordering Degrees
unfolding lookup_str str_eq
count_dependencies [] m = ok m
count_dependencies (dep ∷ deps) m =
    let rest = count_dependencies deps (increased m dep) in
    if not (is_key dep.blocker_task_id m)
    then err (unknown_blocker dep.blocker_task_id)
    else if not (is_key dep.blocked_task_id m)
    then err (unknown_blocked dep.blocked_task_id)
    else rest

-- The queue at the start.
unfoldable pub first_queue : List Task → Degrees → List Str
unfolding lookup_str sort_strings keep add_key
first_queue tasks m = sort_strings (keep (λ id. degree_of m id == 0) (keys_of tasks))

abbrev pub concluded : List Task → Option (List Str) → Ordering
concluded tasks none = out_of_fuel
concluded tasks (some order) =
    if length order == length tasks then in_order order else contains_cycle

abbrev pub after_counting : List Task → List Dependency → Result Ordering Degrees → Ordering
after_counting tasks deps (err e) = e
after_counting tasks deps (ok m) =
    concluded tasks (kahn (length tasks) (foldl add_edge [] deps) (first_queue tasks m) [] m)

-- `TopologicalOrder`. A task leaves the queue once, so that fuel for each is enough.
unfoldable pub topological_order : List Task → List Dependency → Ordering
unfolding kahn first_queue count_dependencies
topological_order tasks deps =
    after_counting tasks deps (count_dependencies deps (foldl zero_degree [] tasks))

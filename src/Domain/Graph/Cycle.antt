-- ===== src/Domain/Graph/Cycle.antt =====
-- `CyclePath` of internal/domain/graph.go, lines 8 to 52: a depth-first search for the blocker from
-- the task that it is to block.
pub mod Walks
pub mod Adjacency
pub mod Steps
pub mod Forest
pub mod Invariant
pub mod Correct
use mathlib.Core.List.{reverse}
use next_now_x.Prelude.{
  ℕ, zero, suc, ◌+◌, ◌++◌, Str, str_eq, Option, some, none, List, [], ◌∷◌, Bool, true, false, map,
  foldl, if◌then◌else◌, lookup_str, has_str, list_at, append_at, sort_strings, length,
}
use next_now_x.Domain.Models.{Task, Dependency}

abbrev pub add_edge : List (Str × List Str) → Dependency → List (Str × List Str)
add_edge m dep = append_at dep.blocker_task_id dep.blocked_task_id m

-- The adjacency map, each of its slices sorted.
pub adjacency : List Dependency → List (Str × List Str)
adjacency deps = map (λ e. (e.0, sort_strings e.1)) (foldl add_edge [] deps)

-- The variables of the search. `stack` has its top first, and `visited` the newest vertex.
pub record Search : Type 0 where
  pub parent : List (Str × Str)
  pub visited : List Str
  pub stack : List Str

-- The body of the inner loop, at the vertex `next[i]`.
pub offer : Str → Search → Str → Search
offer node s v =
    if has_str v s.visited
    then s
    else record { parent = (v, node) ∷ s.parent; visited = v ∷ s.visited; stack = v ∷ s.stack }

-- The inner loop runs from the last element of `next` to the first.
pub expand : List (Str × List Str) → Str → Search → Search
expand adj node s = foldl (offer node) s (reverse (list_at node adj))

-- `parent[current]`: a missing key reads as the empty string.
abbrev pub parent_of : List (Str × Str) → Str → Str
parent_of parent v = elim (lookup_str v parent) [ none ↦ [] | some p ↦ p ]

abbrev pub prepend : Str → Option (List Str) → Option (List Str)
prepend current none = none
prepend current (some path) = some (current ∷ path)

-- The loop that collects the path from `current` back to `blocked`; `none` if the fuel runs out.
pub walk_back : ℕ → List (Str × Str) → Str → Str → Option (List Str)
walk_back zero parent blocked current = none
walk_back (suc fuel) parent blocked current = elim (str_eq current blocked) [
  | true ↦ some (current ∷ [])
  | false ↦ prepend current (walk_back fuel parent blocked (parent_of parent current))
]

-- `no_cycle` is the nil result.
pub data Outcome : Type 0 where
  cycle : (path : List Str) → Outcome
  no_cycle out_of_fuel : Outcome

-- The path found, reversed and closed. A vertex has at most one entry in `parent`.
pub report : Search → Str → Str → Outcome
report s blocked node = elim (walk_back (suc (length s.parent)) s.parent blocked node) [
  | none ↦ out_of_fuel
  | some path ↦ cycle (reverse path ++ blocked ∷ [])
]

-- The outer loop.
pub search : ℕ → List (Str × List Str) → Str → Str → Search → Outcome
search zero adj blocker blocked s = out_of_fuel
search (suc fuel) adj blocker blocked s = elim s.stack [
  | [] ↦ no_cycle
  | node ∷ rest ↦ elim (str_eq node blocker) [
    | true ↦ report s blocked node
    | false ↦ search fuel adj blocker blocked (expand adj node (record s { stack = rest }))
  ]
]

abbrev pub start : Str → Search
start blocked = record { parent = []; visited = blocked ∷ []; stack = blocked ∷ [] }

-- `CyclePath`. A vertex enters the stack once, and only as the target of a dependency.
unfoldable pub cycle_path : List Task → List Dependency → Str → Str → Outcome
unfolding adjacency offer expand walk_back report search
cycle_path tasks deps blocker blocked =
    if str_eq blocker blocked
    then cycle (blocker ∷ blocker ∷ [])
    else search (length deps + 2) (adjacency deps) blocker blocked (start blocked)

-- ===== src/Domain/Graph/Cycle/Invariant.antt =====
-- `CyclePath` of internal/domain/graph.go: the invariant of the outer loop, and what it gives.
use mathlib.Core.List.{reverse}
use next_now_x.Prelude.{
  ◌≡◌, refl, sym, ap, subst, ℕ, zero, suc, ◌<◌, ◌++◌, ◌⊎◌, inl, inr, Str, str_eq, str_eq_iff, List,
  [], ◌∷◌, true, false, length, list_at, In-reverse, All-of_In, List-cases, Bool-cases, In, arith,
}
use next_now_x.Domain.Models.{Dependency}
use next_now_x.Domain.Graph.Cycle.{
  Search, adjacency, expand, Outcome, cycle, no_cycle, out_of_fuel, report, search,
}
use next_now_x.Domain.Graph.Cycle.Walks.{Edge, Reach, here, step, IsWalk}
use next_now_x.Domain.Graph.Cycle.Adjacency.{In-adjacency}
use next_now_x.Domain.Graph.Cycle.Steps.{IsSound, work, Loops, offers-Loops}
use next_now_x.Domain.Graph.Cycle.Forest.{walk_back-Found}

module _ (deps : List Dependency) (blocker blocked : Str) where
  -- Between two rounds of the outer loop.
  pub record Inv (s : Search) : Type 0 where
    pub sound : IsSound deps blocked s
    pub begun : In blocked s.visited
    pub closed : (u w : Str) → In u s.visited → Edge deps u w → In u s.stack ⊎ In w s.visited
    pub unmet : In blocker s.visited → In blocker s.stack

  -- What the search may return: a walk that the new dependency closes, or no way to the blocker.
  abbrev pub Answers : Outcome → Type 0
  Answers (cycle path) = (w : List Str) × (path ≡ w ++ blocked ∷ []) × IsWalk deps blocked w blocker
  Answers no_cycle = ¬ (Reach deps blocked blocker)
  Answers out_of_fuel = ⊥

  Inv-expand :
      (s : Search) (node : Str) (rest : List Str)
      → s.stack ≡ node ∷ rest
      → str_eq node blocker ≡ false
      → Inv s
      → Inv (expand (adjacency deps) node (record s { stack = rest }))
        × (work deps blocked (expand (adjacency deps) node (record s { stack = rest }))
            < work deps blocked s)
  unfolding expand
  Inv-expand s node rest e miss h = (
    record {
      sound = loops.sound;
      begun = loops.grows.kept blocked h.begun;
      closed = closed';
      unmet = unmet';
    },
    omega (arith, ap length e, loops.less),
  )
    where
      s' : Search
      s' = record s { stack = rest }

      on_stack : (v : Str) → In v s.stack → (node ≡ v) ⊎ In v rest
      on_stack v m = subst (In v) e m

      vs : List Str
      vs = reverse (list_at node (adjacency deps))

      sound' : IsSound deps blocked s'
      sound' = record {
        forest = h.sound.forest;
        same = h.sound.same;
        queued = λ v m. h.sound.queued v (subst (In v) (sym e) (inr m));
        reached = h.sound.reached;
      }

      node_seen : In node s.visited
      node_seen = h.sound.queued node (subst (In node) (sym e) (inl refl))

      loops : Loops deps blocked node s' (expand (adjacency deps) node s') vs
      loops = offers-Loops deps blocked node vs s' sound' node_seen (
          All-of_In vs (λ v m.
            (In-adjacency deps node v).0 ((In-reverse v (list_at node (adjacency deps))).0 m)))

      target : (w : Str) → Edge deps node w → In w vs
      target w d = (In-reverse w (list_at node (adjacency deps))).1 ((In-adjacency deps node w).1 d)

      next : Search
      next = expand (adjacency deps) node s'

      closed' :
          (u w : Str) → In u next.visited → Edge deps u w → In u next.stack ⊎ In w next.visited
      closed' u w m d = elim (loops.grows.fresh u m) [
        | inr waits ↦ inl waits
        | inl old ↦ elim (h.closed u w old d) [
          | inr seen ↦ inr (loops.grows.kept w seen)
          | inl waits ↦ elim (on_stack u waits) [
            | inl top ↦
                inr (loops.grows.added w (target w (subst (λ x. Edge deps x w) (sym top) d)))
            | inr below ↦ inl (loops.grows.kept_stack u below)
          ]
        ]
      ]

      unmet' : In blocker next.visited → In blocker next.stack
      unmet' m = elim (loops.grows.fresh blocker m) [
        | inr waits ↦ waits
        | inl old ↦ elim (on_stack blocker (h.unmet old)) [
          | inl top ↦ ground (arith, str_eq_iff node blocker)
          | inr below ↦ loops.grows.kept_stack blocker below
        ]
      ]

  -- With an empty stack the seen vertices are closed under the dependencies.
  complete : (s : Search) → Inv s → s.stack ≡ [] → {v : Str} → Reach deps blocked v → In v s.visited
  complete s h e here = h.begun
  complete s h e (step {v} {w} p d) = elim (h.closed v w (complete s h e p) d) [
    | inl waits ↦ absurd (subst (In v) e waits)
    | inr seen ↦ seen
  ]

  report-Answers :
      (s : Search) (node : Str)
      → IsSound deps blocked s
      → In node s.visited
      → str_eq node blocker ≡ true
      → Answers (report s blocked node)
  unfolding report
  report-Answers s node h seen hit =
      let found =
        walk_back-Found deps blocked s.parent (suc (length s.parent)) node h.forest
          (subst (In node) h.same seen) (omega arith) in
      rw (found.returned, report)
        (
          reverse found.path,
          refl,
          subst (IsWalk deps blocked (reverse found.path)) ((str_eq_iff node blocker).0 hit)
              found.walk,
        )

  -- With more fuel than work the search answers.
  pub search-Answers :
      (fuel : ℕ) (s : Search)
      → Inv s
      → work deps blocked s < fuel
      → Answers (search fuel (adjacency deps) blocker blocked s)
  unfolding search
  search-Answers zero s h less = absurd (omega arith)
  search-Answers (suc fuel) s h less = elim (List-cases s.stack) [
    | inl empty ↦
        rw (empty, search) (λ p. absurd (subst (In blocker) empty (h.unmet (complete s h empty p))))
    | inr (node, rest, e) ↦ elim (Bool-cases (str_eq node blocker)) [
      | inl hit ↦
          rw (e, search)
            (rw (hit, search)
              (report-Answers s node h.sound
                (h.sound.queued node (subst (In node) (sym e) (inl refl))) hit))
      | inr miss ↦
          let (kept, fewer) = Inv-expand s node rest e miss h in
          rw (e, search)
            (rw (miss, search)
              (search-Answers fuel (expand (adjacency deps) node (record s { stack = rest })) kept
                (omega arith)))
    ]
  ]

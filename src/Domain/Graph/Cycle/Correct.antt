-- ===== src/Domain/Graph/Cycle/Correct.antt =====
-- `CyclePath` of internal/domain/graph.go: its result against the walks along the
-- dependencies.
use next_now_x.Prelude.{
  ◌≡◌, ◌≢◌, ◌↔◌, refl, ap, subst, ◌+◌, ◌++◌, inl, inr, Str, str_eq, str_eq_iff, List, [], ◌∷◌,
  length, length-keep-le, has_str, not, Bool-cases, arith,
}
use next_now_x.Domain.Models.{Task, Dependency}
use next_now_x.Domain.Graph.Cycle.{Outcome, cycle, no_cycle, out_of_fuel, start, cycle_path}
use next_now_x.Domain.Graph.Cycle.Walks.{
  Reach, here, IsWalk, IsWalk-Reach, IsAcyclic, IsAcyclic-extended,
}
use next_now_x.Domain.Graph.Cycle.Invariant.{Inv, Answers, search-Answers}

module _ (tasks : List Task) (deps : List Dependency) (blocker blocked : Str) where
  start-Inv : Inv deps blocker blocked (start blocked)
  start-Inv = record {
    sound = record {
      forest = tt;
      same = refl;
      queued = λ v m. m;
      reached = λ v. elim [ inl e ↦ subst (Reach deps blocked) e here | inr h ↦ absurd h ];
    };
    begun = inl refl;
    closed = λ u w m d. inl m;
    unmet = λ m. m;
  }

  cycle_path-Answers : Answers deps blocker blocked (cycle_path tasks deps blocker blocked)
  unfolding cycle_path
  cycle_path-Answers = elim (Bool-cases (str_eq blocker blocked)) [
    | inl e ↦
        let same = (str_eq_iff blocker blocked).0 e in
        rw e (blocker ∷ [], ap (λ (b : Str). blocker ∷ b ∷ []) same, (same, refl))
    | inr e ↦ rw e (
        search-Answers deps blocker blocked (length deps + 2) (start blocked) start-Inv (
          omega (arith, length-keep-le (λ d. not (has_str d.blocked_task_id (blocked ∷ []))) deps)))
  ]

  -- The fuel, two more rounds than there are dependencies, is always enough.
  pub cycle_path-ne-out_of_fuel : cycle_path tasks deps blocker blocked ≢ out_of_fuel
  cycle_path-ne-out_of_fuel e = subst (Answers deps blocker blocked) e cycle_path-Answers

  -- A path that is returned is closed: it runs along the dependencies from the task that is to be
  -- blocked to its blocker, and from there back by the new dependency.
  pub cycle_path-IsWalk :
      (path : List Str)
      → cycle_path tasks deps blocker blocked ≡ cycle path
      → (w : List Str) × (path ≡ w ++ blocked ∷ []) × IsWalk deps blocked w blocker
  cycle_path-IsWalk path e = subst (Answers deps blocker blocked) e cycle_path-Answers

  -- No path is returned exactly if the blocker does not wait for the task that it is to block.
  pub cycle_path_iff :
      (cycle_path tasks deps blocker blocked ≡ no_cycle) ↔ (¬ (Reach deps blocked blocker))
  cycle_path_iff = (
    λ e. subst (Answers deps blocker blocked) e cycle_path-Answers,
    from_answer (cycle_path tasks deps blocker blocked) cycle_path-Answers,
  )
    where
      from_answer :
          (r : Outcome)
          → Answers deps blocker blocked r
          → ¬ (Reach deps blocked blocker)
          → r ≡ no_cycle
      from_answer (cycle path) (w, closed, walk) apart =
          absurd (apart (IsWalk-Reach deps blocked blocked blocker w here walk))
      from_answer no_cycle a apart = refl
      from_answer out_of_fuel a apart = absurd a

-- Adding a dependency for which no path is returned keeps the graph free of cycles.
pub cycle_path-IsAcyclic :
    (tasks : List Task) (deps : List Dependency) (new : Dependency)
    → IsAcyclic deps
    → cycle_path tasks deps new.blocker_task_id new.blocked_task_id ≡ no_cycle
    → IsAcyclic (deps ++ new ∷ [])
cycle_path-IsAcyclic tasks deps new acyclic e =
    IsAcyclic-extended deps new acyclic
      ((cycle_path_iff tasks deps new.blocker_task_id new.blocked_task_id).0 e)

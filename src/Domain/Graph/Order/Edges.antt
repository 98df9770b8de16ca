-- ===== src/Domain/Graph/Order/Edges.antt =====
-- `TopologicalOrder` of internal/domain/graph.go: the counts against the dependencies.
use next_now_x.Prelude.{
  ◌≡◌, refl, sym, subst, inl, inr, ◌≤◌, Str, str_eq, str_eq_iff, str_eq_refl, List, [], ◌∷◌, ◌&&◌,
  ◌==◌, occ, occ-In, In, Bool-cases, arith,
}
use next_now_x.Domain.Models.{Dependency}
use next_now_x.Domain.Graph.Cycle.Walks.{Edge}
use next_now_x.Domain.Graph.Order.Counts.{waiting, between}
use next_now_x.Domain.Graph.Order.Start.{IsKnown}

waiting-In :
    (deps : List Dependency) (order : List Str) (e : Dependency)
    → In e deps
    → waiting deps order e.blocked_task_id ≡ 0
    → 1 ≤ occ e.blocker_task_id order
waiting-In [] order e m h = absurd m
waiting-In (d ∷ deps) order e (inr m) h = waiting-In deps order e m (ground (arith, h))
waiting-In (d ∷ deps) order e (inl same) h =
    subst
      (λ (e : Dependency).
        waiting (d ∷ deps) order e.blocked_task_id ≡ 0 → 1 ≤ occ e.blocker_task_id order)
      same (λ h. ground (arith, h, str_eq_refl d.blocked_task_id)) h

pub waiting-Edge :
    (deps : List Dependency) (order : List Str) (u v : Str)
    → Edge deps u v
    → waiting deps order v ≡ 0
    → In u order
waiting-Edge deps order u v e h =
    subst (λ u. In u order) e.from
      (occ-In e.dep.blocker_task_id order
        (waiting-In deps order e.dep e.listed (subst (λ v. waiting deps order v ≡ 0) (sym e.to) h)))

later : {u v : Str} (d : Dependency) (deps : List Dependency) → Edge deps u v → Edge (d ∷ deps) u v
later d deps e = record { dep = e.dep; listed = inr e.listed; from = e.from; to = e.to }

pub Edge-waiting :
    (deps : List Dependency) (order : List Str) (v : Str)
    → 1 ≤ waiting deps order v
    → (u : Str) × Edge deps u v × (occ u order ≡ 0)
Edge-waiting [] order v h = absurd (omega (arith, h))
Edge-waiting (d ∷ deps) order v h =
    elim (Bool-cases (str_eq d.blocked_task_id v && (occ d.blocker_task_id order == 0))) [
      | inl e ↦ (
        d.blocker_task_id,
        record {
          dep = d;
          listed = inl refl;
          from = refl;
          to = (str_eq_iff d.blocked_task_id v).0 (ground (arith, e));
        },
        ground (arith, e),
      )
      | inr e ↦
          let (u, edge, absent) = Edge-waiting deps order v (ground (arith, h, e)) in
          (u, later d deps edge, absent)
    ]

pub between-Edge : (deps : List Dependency) (u v : Str) → 1 ≤ between deps u v → Edge deps u v
between-Edge [] u v h = absurd (omega (arith, h))
between-Edge (d ∷ deps) u v h =
    elim (Bool-cases (str_eq d.blocker_task_id u && str_eq d.blocked_task_id v)) [
      | inl e ↦ record {
        dep = d;
        listed = inl refl;
        from = (str_eq_iff d.blocker_task_id u).0 (ground (arith, e));
        to = (str_eq_iff d.blocked_task_id v).0 (ground (arith, e));
      }
      | inr e ↦ later d deps (between-Edge deps u v (ground (arith, h, e)))
    ]

IsKnown-In :
    (keys : List Str) (deps : List Dependency) (e : Dependency)
    → IsKnown keys deps
    → In e deps
    → (occ e.blocker_task_id keys ≡ 1) × (occ e.blocked_task_id keys ≡ 1)
IsKnown-In keys [] e k m = absurd m
IsKnown-In keys (d ∷ deps) e k (inr m) = IsKnown-In keys deps e k.2 m
IsKnown-In keys (d ∷ deps) e k (inl same) =
    subst (λ (e : Dependency). (occ e.blocker_task_id keys ≡ 1) × (occ e.blocked_task_id keys ≡ 1))
      same (k.0, k.1)

pub IsKnown-Edge :
    (keys : List Str) (deps : List Dependency) (u v : Str)
    → IsKnown keys deps
    → Edge deps u v
    → (occ u keys ≡ 1) × (occ v keys ≡ 1)
IsKnown-Edge keys deps u v k e =
    let (from, to) = IsKnown-In keys deps e.dep k e.listed in
    (subst (λ u. occ u keys ≡ 1) e.from from, subst (λ v. occ v keys ≡ 1) e.to to)

-- ===== src/Domain/Graph/Order/Correct.antt =====
-- `TopologicalOrder` of internal/domain/graph.go: what it returns.
use next_now_x.Prelude.{
  ◌≡◌, refl, ap, subst, ◌∙◌, ◌↔◌, inl, inr, ℕ, zero, suc, ◌+◌, ◌≤◌, ◌<◌, ◌++◌, Str, str_eq_refl,
  List, [], ◌∷◌, foldl, ◌==◌, occ, occ-append, In-occ, occ-In, occ-cons-le, position, position-lt,
  position-append, In, length, length-le_of_occ, Bool-cases, Option, arith,
}
use next_now_x.Domain.Models.{Task, Dependency}
use next_now_x.Domain.Graph.Cycle.{add_edge}
use next_now_x.Domain.Graph.Cycle.Walks.{Edge, Reach, here, step, IsAcyclic, Reach-trans}
use next_now_x.Domain.Graph.Order.{degree_of, Degrees, keys_of, kahn, first_queue}
use next_now_x.Domain.Graph.Order.Counts.{waiting}
use next_now_x.Domain.Graph.Order.Edges.{waiting-Edge, Edge-waiting, between-Edge, IsKnown-Edge}
use next_now_x.Domain.Graph.Order.Loop.{Finished, kahn-Finished}
use next_now_x.Domain.Graph.Order.Start.{
  ids_of, IsKnown, occ-keys, In-keys, length-keys-le, first_queue-Holds,
}

pub once_keys : (tasks : List Task) (v : Str) → occ v (keys_of tasks) ≤ 1
once_keys tasks v = ground (arith, occ-keys tasks [] [] (λ v. refl) v)

-- The loop from the counts that are there at the start.
pub kahn_lem :
    (tasks : List Task) (deps : List Dependency) (m : Degrees)
    → IsKnown (keys_of tasks) deps
    → ((v : Str) → degree_of m v ≡ waiting deps [] v)
    → Finished deps
        (keys_of tasks)
        (once_keys tasks)
        (kahn (length tasks) (foldl add_edge [] deps) (first_queue tasks m) [] m)
kahn_lem tasks deps m known degrees =
    kahn-Finished deps (keys_of tasks) (once_keys tasks)
      (λ u v b. (IsKnown-Edge (keys_of tasks) deps u v known (between-Edge deps u v b)).1)
      (length tasks) (first_queue tasks m) [] m (length-keys-le tasks [])
      (first_queue-Holds tasks deps m (once_keys tasks) degrees) (λ v h. absurd h)

-- The list has every task once, and a task stands behind each of those that block it.
pub record IsTopological (tasks : List Task) (deps : List Dependency) (order : List Str)
    : Type 0 where
  pub once : (v : Str) → occ v order ≤ 1
  pub same : (v : Str) → In v order ↔ In v (ids_of tasks)
  pub behind :
      (u v : Str)
      → Edge deps u v
      → (before after : List Str) × (order ≡ before ++ v ∷ after) × In u before

module _ (tasks : List Task) (deps : List Dependency) (known : IsKnown (keys_of tasks) deps)
    (o : Option (List Str)) (f : Finished deps (keys_of tasks) (once_keys tasks) o) where
  pub fewer : (v : Str) → occ v f.order ≤ occ v (keys_of tasks)
  fewer v = ground (arith, f.whole v)

  -- An order of full length has every task.
  pub all_placed : length tasks ≤ length f.order → (v : Str) → occ v f.order ≡ occ v (keys_of tasks)
  all_placed full v = elim (Bool-cases (occ v f.order == occ v (keys_of tasks))) [
    | inl e ↦ ground (arith, e)
    | inr e ↦ absurd (
        omega (
          arith,
          full,
          length-keys-le tasks [],
          length-le_of_occ (v ∷ f.order) (keys_of tasks)
              (occ-cons-le v f.order (keys_of tasks) (ground (arith, e, fewer v)) fewer),
        ))
  ]

  pub all_placed-IsTopological :
      ((v : Str) → occ v f.order ≡ occ v (keys_of tasks)) → IsTopological tasks deps f.order
  all_placed-IsTopological all = record {
    once = λ v. ground (arith, all v, once_keys tasks v);
    same = λ v. (
      λ m.
          elim ((In-keys tasks [] v).0
            (occ-In v (keys_of tasks) (omega (arith, all v, In-occ v f.order m)))) [
              | inl none_left ↦ absurd none_left
              | inr h ↦ h
            ],
      λ m.
          occ-In v f.order
            (omega (arith, all v, In-occ v (keys_of tasks) ((In-keys tasks [] v).1 (inr m)))),
    );
    behind = λ u v e.
        let v_placed =
          occ-In v f.order
            (omega (arith, all v, (IsKnown-Edge (keys_of tasks) deps u v known e).1)) in
        let b = f.in_order v v_placed in
        (b.before, b.after, b.split, waiting-Edge deps b.before u v e b.idle);
  }

  Reach-back :
      (u x : Str) (path : List Str)
      → Edge deps u x
      → ((y : Str) → In y (x ∷ path) → Reach deps x y)
      → (y : Str) → In y (u ∷ x ∷ path)
      → Reach deps u y
  Reach-back u x path edge reach y (inl e) = subst (Reach deps u) e here
  Reach-back u x path edge reach y (inr m) = Reach-trans deps (step here edge) (reach y m)

  -- Going back along the dependencies of tasks that are not placed does not end.
  descent :
      IsAcyclic deps
      → (n : ℕ) (x : Str) (path : List Str) → ((y : Str) → In y (x ∷ path) → Reach deps x y)
      → ((y : Str) → occ y (x ∷ path) ≤ occ y (keys_of tasks))
      → occ x f.order ≡ 0
      → ¬ (length (keys_of tasks) ≤ length path + n)
  descent acyclic zero x path reach few missing enough =
      omega (arith, enough, length-le_of_occ (x ∷ path) (keys_of tasks) few)
  descent acyclic (suc n) x path reach few missing enough =
      let waits : 1 ≤ waiting deps f.order x =
        ground (arith, f.whole x, missing, few x, str_eq_refl x) in
      let (u, edge, absent) = Edge-waiting deps f.order x waits in
      elim (Bool-cases (occ u (x ∷ path) == 0)) [
        | inl e ↦
            descent acyclic n u (x ∷ path) (Reach-back u x path edge reach)
              (occ-cons-le u (x ∷ path) (keys_of tasks)
                (ground (arith, e, (IsKnown-Edge (keys_of tasks) deps u x known edge).0)) few)
              absent (omega (arith, enough))
        | inr e ↦ acyclic u x edge (reach u (occ-In u (x ∷ path) (ground (arith, e))))
      ]

  pub acyclic-all_placed : IsAcyclic deps → (v : Str) → occ v f.order ≡ occ v (keys_of tasks)
  acyclic-all_placed acyclic v = elim (Bool-cases (occ v f.order == occ v (keys_of tasks))) [
    | inl e ↦ ground (arith, e)
    | inr e ↦
        let missing : occ v f.order ≡ 0 = ground (arith, e, fewer v, once_keys tasks v) in
        let alone : (y : Str) → occ y (v ∷ []) ≤ occ y (keys_of tasks) =
          occ-cons-le v [] (keys_of tasks) (ground (arith, e, fewer v)) (λ a. omega arith) in
        absurd (
          descent acyclic (length (keys_of tasks)) v []
            (λ y m. elim m [ inl same ↦ subst (Reach deps v) same here | inr n ↦ absurd n ]) alone
            missing (omega arith))
  ]

-- Behind its blockers a task has a later place, so that no walk comes back.
pub IsTopological-IsAcyclic :
    (tasks : List Task) (deps : List Dependency) (order : List Str)
    → IsTopological tasks deps order
    → IsAcyclic deps
IsTopological-IsAcyclic tasks deps order t u v e r = omega (arith, rises u v e, stays v u r)
  where
    rises : (u v : Str) → Edge deps u v → position u order < position v order
    rises u v e =
        let (before, after, split, m) = t.behind u v e in
        let first : occ v before ≡ 0 =
          let all = t.once v in
          let parts = ap (occ v) split ∙ occ-append v before (v ∷ after) in
          ground (arith, all, parts, str_eq_refl v) in
        let lower = position-lt u before (v ∷ after) m in
        let higher = position-append v before after first in rw split (omega (arith, lower, higher))

    stays : (u v : Str) → Reach deps u v → position u order ≤ position v order
    stays u _ here = omega arith
    stays u _ (step {v} {w} r e) = omega (arith, stays u v r, rises v w e)

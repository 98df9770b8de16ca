-- ===== src/Domain/Graph/Order/Counts.antt =====
-- How many blockers of a task are not in the order yet.
use next_now_x.Prelude.{
  ◌≡◌, refl, sym, subst, ◌∙◌, inl, inr, ℕ, ◌+◌, ◌++◌, Str, str_eq, str_eq_iff, List, [], ◌∷◌, true,
  false, ◌&&◌, foldl, if◌then◌else◌, ◌==◌, lookup_str, list_at, list_at-append_at, occ, occ-append,
  Bool-cases, arith,
}
use next_now_x.Domain.Models.{Dependency}
use next_now_x.Domain.Graph.Cycle.{add_edge}

-- The dependencies of `v` whose blocker is not in `order`.
abbrev pub waiting : List Dependency → List Str → Str → ℕ
waiting [] order v = 0
waiting (d ∷ deps) order v =
    (if str_eq d.blocked_task_id v && (occ d.blocker_task_id order == 0) then 1 else 0)
    + waiting deps order v

abbrev pub between : List Dependency → Str → Str → ℕ
between [] u v = 0
between (d ∷ deps) u v =
    (if str_eq d.blocker_task_id u && str_eq d.blocked_task_id v then 1 else 0) + between deps u v

occ-list_at :
    (u v : Str) (deps : List Dependency) (m : List (Str × List Str))
    → occ v (list_at u (foldl add_edge m deps)) ≡ occ v (list_at u m) + between deps u v
occ-list_at u v [] m = omega arith
occ-list_at u v (d ∷ deps) m =
    occ-list_at u v deps (add_edge m d) ∙ elim (Bool-cases (str_eq d.blocker_task_id u)) [
      | inl e ↦
          simp (list_at-append_at, e)
            (ground (arith, occ-append v (list_at u m) (d.blocked_task_id ∷ [])))
      | inr e ↦ simp (list_at-append_at, e) (omega arith)
    ]

differs : (a b : Str) → str_eq a b ≡ false → str_eq b a ≡ false
differs a b e = elim (Bool-cases (str_eq b a)) [
  | inl f ↦ let same : str_eq a b ≡ true = (str_eq_iff a b).1 (sym ((str_eq_iff b a).0 f)) in cc
  | inr f ↦ f
]

-- A task that comes into the order takes a dependency from each of those that it blocks.
pub waiting-snoc :
    (deps : List Dependency) (order : List Str) (u v : Str)
    → occ u order ≡ 0
    → waiting deps order v ≡ waiting deps (order ++ u ∷ []) v + between deps u v
waiting-snoc [] order u v h = refl
waiting-snoc (d ∷ deps) order u v h =
    let rest = waiting-snoc deps order u v h in
    let grown = occ-append d.blocker_task_id order (u ∷ []) in
    elim (Bool-cases (str_eq d.blocker_task_id u)) [
      | inl e ↦
          let same = (str_eq_iff d.blocker_task_id u).0 e in
          let absent : occ d.blocker_task_id order ≡ 0 =
            subst (λ b. occ b order ≡ 0) (sym same) h in
          let found : str_eq u d.blocker_task_id ≡ true =
            (str_eq_iff u d.blocker_task_id).1 (sym same) in
          ground (arith, rest, grown, absent, found, e)
      | inr e ↦ ground (arith, rest, grown, e, differs d.blocker_task_id u e)
    ]

pub occ-targets :
    (deps : List Dependency) (u v : Str)
    → occ v (list_at u (foldl add_edge [] deps)) ≡ between deps u v
unfolding list_at lookup_str
occ-targets deps u v = occ-list_at u v deps [] ∙ omega arith

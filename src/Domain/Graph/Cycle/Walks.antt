-- ===== src/Domain/Graph/Cycle/Walks.antt =====
-- Walks along the dependencies, and what one more dependency adds to them.
use next_now_x.Prelude.{
  ◌≡◌, refl, sym, ap, subst, ◌∙◌, ◌++◌, ◌⊎◌, inl, inr, Str, List, [], ◌∷◌, In, In-append,
}
use mathlib.Core.Path.{subst₂}
use next_now_x.Domain.Models.{Dependency}

-- A dependency by which `u` blocks `v`.
pub record Edge (deps : List Dependency) (u v : Str) : Type 0 where
  pub dep : Dependency
  pub listed : In dep deps
  pub from : dep.blocker_task_id ≡ u
  pub to : dep.blocked_task_id ≡ v

-- `v` waits for `u`, directly or through others, or is `u`.
pub data Reach (deps : List Dependency) (u : Str) : Str → Type 0 where
  here : Reach deps u u
  step : {v w : Str} → Reach deps u v → Edge deps v w → Reach deps u w

-- The list of the vertices of a walk from `u` to `v`, both named.
abbrev pub IsWalk : List Dependency → Str → List Str → Str → Type 0
IsWalk deps u [] v = ⊥
IsWalk deps u (x ∷ []) v = (x ≡ u) × (x ≡ v)
IsWalk deps u (x ∷ y ∷ path) v = (x ≡ u) × Edge deps x y × IsWalk deps y (y ∷ path) v

-- No task waits for itself.
abbrev pub IsAcyclic : List Dependency → Type 0
IsAcyclic deps = (u v : Str) → Edge deps u v → ¬ (Reach deps v u)

module _ (deps : List Dependency) where
  pub Reach-trans : {u v w : Str} → Reach deps u v → Reach deps v w → Reach deps u w
  Reach-trans p here = p
  Reach-trans p (step q e) = step (Reach-trans p q) e

  pub IsWalk-snoc :
      (u v w : Str) (path : List Str)
      → IsWalk deps u path v
      → Edge deps v w
      → IsWalk deps u (path ++ w ∷ []) w
  IsWalk-snoc u v w [] h e = absurd h
  IsWalk-snoc u v w (x ∷ []) h e = (h.0, subst (λ y. Edge deps y w) (sym h.1) e, (refl, refl))
  IsWalk-snoc u v w (x ∷ y ∷ path) h e = (h.0, h.1, IsWalk-snoc y v w (y ∷ path) h.2 e)

  pub IsWalk-Reach :
      (s u v : Str) (path : List Str) → Reach deps s u → IsWalk deps u path v → Reach deps s v
  IsWalk-Reach s u v [] r h = absurd h
  IsWalk-Reach s u v (x ∷ []) r h = subst (Reach deps s) (sym h.0 ∙ h.1) r
  IsWalk-Reach s u v (x ∷ y ∷ path) r h =
      IsWalk-Reach s y v (y ∷ path) (step (subst (Reach deps s) (sym h.0) r) h.1) h.2

module _ (deps : List Dependency) (new : Dependency) where
  abbrev extended : List Dependency
  extended = deps ++ new ∷ []

  Edge-extended :
      {u v : Str}
      → Edge extended u v
      → Edge deps u v ⊎ (new.blocker_task_id ≡ u) × (new.blocked_task_id ≡ v)
  Edge-extended e = elim ((In-append e.dep deps (new ∷ [])).0 e.listed) [
    | inl old ↦ inl (record { dep = e.dep; listed = old; from = e.from; to = e.to })
    | inr (inl is_new) ↦
        inr (ap (λ d. d.blocker_task_id) is_new ∙ e.from, ap (λ d. d.blocked_task_id) is_new ∙ e.to)
    | inr (inr none_left) ↦ absurd none_left
  ]

  -- A walk that uses the new dependency reaches its blocker and goes on from the task it blocks.
  Reach-extended :
      {u v : Str}
      → Reach extended u v
      → Reach deps u v ⊎ Reach deps u new.blocker_task_id × Reach deps new.blocked_task_id v
  Reach-extended here = inl here
  Reach-extended {u} (step {v} {w} p e) = extend (Reach-extended p) (Edge-extended e)
    where
      extend :
          (Reach deps u v ⊎ Reach deps u new.blocker_task_id × Reach deps new.blocked_task_id v)
          → (Edge deps v w ⊎ (new.blocker_task_id ≡ v) × (new.blocked_task_id ≡ w))
          → Reach deps u w ⊎ Reach deps u new.blocker_task_id × Reach deps new.blocked_task_id w
      extend (inl p') (inl old) = inl (step p' old)
      extend (inr (p', q)) (inl old) = inr (p', step q old)
      extend (inl p') (inr (at_v, at_w)) =
          inr (subst (Reach deps u) (sym at_v) p', subst (Reach deps new.blocked_task_id) at_w here)
      extend (inr (p', q)) (inr (at_v, at_w)) =
          inr (p', subst (Reach deps new.blocked_task_id) at_w here)

  -- Where the blocked task does not lead to the blocker, the new dependency closes no cycle.
  pub IsAcyclic-extended :
      IsAcyclic deps → ¬ (Reach deps new.blocked_task_id new.blocker_task_id) → IsAcyclic extended
  IsAcyclic-extended acyclic apart u v e p = refute (Edge-extended e) (Reach-extended p)
    where
      refute :
          (Edge deps u v ⊎ (new.blocker_task_id ≡ u) × (new.blocked_task_id ≡ v))
          → (Reach deps v u ⊎ Reach deps v new.blocker_task_id × Reach deps new.blocked_task_id u)
          → ⊥
      refute (inl old) (inl back) = acyclic u v old back
      refute (inl old) (inr (p', q)) = apart (Reach-trans deps (step q old) p')
      refute (inr (at_u, at_v)) (inl back) = apart (subst₂ (Reach deps) (sym at_v) (sym at_u) back)
      refute (inr (at_u, at_v)) (inr (p', q)) =
          apart (subst (Reach deps new.blocked_task_id) (sym at_u) q)

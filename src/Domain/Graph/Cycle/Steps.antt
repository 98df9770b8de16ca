-- ===== src/Domain/Graph/Cycle/Steps.antt =====
-- `CyclePath` of internal/domain/graph.go: what one round of the search does.
use next_now_x.Prelude.{
  ◌≡◌, ap, subst, ℕ, suc, ◌+◌, ◌≤◌, ◌++◌, ◌⊎◌, inl, inr, Str, str_eq_refl, List, [], ◌∷◌, false,
  not, map, foldl, keep, has_str, has_str_iff, length, Bool-cases, In, All, length-keep_lt, arith,
}
use next_now_x.Domain.Models.{Dependency}
use next_now_x.Domain.Graph.Cycle.{Search, offer}
use next_now_x.Domain.Graph.Cycle.Walks.{Edge, Reach, step}

-- The vertices that a search has seen, the newest first.
abbrev pub vertices : Str → List (Str × Str) → List Str
vertices blocked parent = map (λ e. e.0) parent ++ blocked ∷ []

module _ (deps : List Dependency) (blocked : Str) where
  -- Each vertex has an older one as its parent, along a dependency.
  abbrev pub IsForest : List (Str × Str) → Type 0
  IsForest [] = Unit
  IsForest ((v, p) ∷ rest) =
      In p (vertices blocked rest)
      × Edge deps p v
      × (has_str v (vertices blocked rest) ≡ false)
      × IsForest rest

  pub record IsSound (s : Search) : Type 0 where
    pub forest : IsForest s.parent
    pub same : s.visited ≡ vertices blocked s.parent
    pub queued : (v : Str) → In v s.stack → In v s.visited
    pub reached : (v : Str) → In v s.visited → Reach deps blocked v

  -- The dependencies that still lead to an unseen vertex, and the vertices that wait.
  abbrev unseen : List Str → ℕ
  unseen visited = length (keep (λ d. not (has_str d.blocked_task_id visited)) deps)

  abbrev pub work : Search → ℕ
  work s = unseen s.visited + length s.stack

  module _ (node : Str) where
    offer-IsSound :
        (s : Search) (v : Str)
        → IsSound s
        → In node s.visited
        → Edge deps node v
        → IsSound (offer node s v)
    unfolding offer
    offer-IsSound s v h at e = elim (Bool-cases (has_str v s.visited)) [
      | inl old ↦ rw (old) h
      | inr new ↦ rw (new) (record {
        forest = (
          subst (In node) h.same at,
          e,
          (subst (λ vs. has_str v vs ≡ false) h.same new),
          h.forest,
        );
        same = ap (λ vs. v ∷ vs) h.same;
        queued = λ w. elim [ inl q ↦ inl q | inr q ↦ inr (h.queued w q) ];
        reached = λ w. elim [
          | inl q ↦ subst (Reach deps blocked) q (step (h.reached node at) e)
          | inr q ↦ h.reached w q
        ];
      })
    ]

    offer-work : (s : Search) (v : Str) → Edge deps node v → work (offer node s v) ≤ work s
    unfolding offer has_str
    offer-work s v e = elim (Bool-cases (has_str v s.visited)) [
      | inl old ↦ rw (old) (omega arith)
      | inr new ↦ rw (new) (omega (arith, drop new))
    ]
      where
        drop : has_str v s.visited ≡ false → suc (unseen (v ∷ s.visited)) ≤ unseen s.visited
        drop new =
            length-keep_lt (λ d. not (has_str d.blocked_task_id s.visited))
              (λ d. not (has_str d.blocked_task_id (v ∷ s.visited))) e.dep deps
              (λ d h. ground arith) e.listed (rw (e.to, new)) (rw (e.to, str_eq_refl v))

    -- What the inner loop adds: it has seen `vs`, and what it saw first waits on the stack.
    pub record Grows (s t : Search) (vs : List Str) : Type 0 where
      pub kept : (w : Str) → In w s.visited → In w t.visited
      pub kept_stack : (w : Str) → In w s.stack → In w t.stack
      pub added : (w : Str) → In w vs → In w t.visited
      pub fresh : (w : Str) → In w t.visited → In w s.visited ⊎ In w t.stack

    offer-Grows : (s : Search) (v : Str) → Grows s (offer node s v) (v ∷ [])
    unfolding offer
    offer-Grows s v = elim (Bool-cases (has_str v s.visited)) [
      | inl old ↦ rw old (record {
        kept = λ w m. m;
        kept_stack = λ w m. m;
        added = λ w. elim [
          | inl e ↦ subst (λ x. In x s.visited) e ((has_str_iff v s.visited).0 old)
          | inr h ↦ absurd h
        ];
        fresh = λ w m. inl m;
      })
      | inr new ↦ rw new (record {
        kept = λ w m. inr m;
        kept_stack = λ w m. inr m;
        added = λ w. elim [ inl e ↦ inl e | inr h ↦ absurd h ];
        fresh = λ w. elim [ inl e ↦ inr (inl e) | inr m ↦ inl m ];
      })
    ]

    Grows-trans :
        {s t u : Search} (v : Str) (vs : List Str)
        → Grows s t (v ∷ [])
        → Grows t u vs
        → Grows s u (v ∷ vs)
    Grows-trans v vs g h = record {
      kept = λ w m. h.kept w (g.kept w m);
      kept_stack = λ w m. h.kept_stack w (g.kept_stack w m);
      added = λ w. elim [ inl e ↦ h.kept w (g.added w (inl e)) | inr m ↦ h.added w m ];
      fresh = λ w m. elim (h.fresh w m) [
        | inl old ↦ elim (g.fresh w old) [ inl older ↦ inl older | inr q ↦ inr (h.kept_stack w q) ]
        | inr q ↦ inr q
      ];
    }

    -- The inner loop over `vs`, the targets of dependencies of `node`.
    pub record Loops (s t : Search) (vs : List Str) : Type 0 where
      pub sound : IsSound t
      pub less : work t ≤ work s
      pub grows : Grows s t vs

    pub offers-Loops :
        (vs : List Str) (s : Search)
        → IsSound s
        → In node s.visited
        → All (λ v. Edge deps node v) vs
        → Loops s (foldl (offer node) s vs) vs
    offers-Loops [] s h at es = record {
      sound = h;
      less = omega arith;
      grows = record {
        kept = λ w m. m;
        kept_stack = λ w m. m;
        added = λ w m. absurd m;
        fresh = λ w m. inl m;
      };
    }
    offers-Loops (v ∷ vs) s h at es =
        let first = offer-Grows s v in
        let rest =
          offers-Loops vs (offer node s v) (offer-IsSound s v h at es.0) (first.kept node at)
            es.1 in
        record {
          sound = rest.sound;
          less = omega (arith, offer-work s v es.0, rest.less);
          grows = Grows-trans v vs first rest.grows;
        }

-- ===== src/Domain/Graph/Order/Loop.antt =====
-- `TopologicalOrder` of internal/domain/graph.go: what the loop keeps.
use mathlib.Core.List.{append_assoc}
use next_now_x.Prelude.{
  ◌≡◌, refl, ap, subst, ◌∙◌, inl, inr, ℕ, zero, suc, ◌+◌, ◌-◌, ◌≤◌, ◌++◌, Str, str_eq, str_eq_iff,
  str_eq_refl, List, [], ◌∷◌, foldl, if◌then◌else◌, ◌==◌, lookup_str, list_at, sort_strings, occ,
  occ-append, occ-sort_strings, In, length-append, In-append, length, length-le_of_occ, Bool-cases,
  Option, some, arith,
}
use next_now_x.Domain.Models.{Dependency}
use next_now_x.Domain.Graph.Cycle.{add_edge}
use next_now_x.Domain.Graph.Order.{Degrees, degree_of, Round, release, release_all, kahn}
use next_now_x.Domain.Graph.Order.Counts.{waiting, between, waiting-snoc, occ-targets}

pub degree_of-cons :
    (m : Degrees) (k v : Str) (n : ℕ)
    → degree_of ((k, n) ∷ m) v ≡ (if str_eq k v then n else degree_of m v)
unfolding lookup_str
degree_of-cons m k v n = ground arith

-- The queue after a count that is now `n`.
occ-queued :
    (v next : Str) (n : ℕ) (queue : List Str)
    → occ v (if n == 0 then sort_strings (queue ++ next ∷ []) else queue)
      ≡ occ v queue + (if n == 0 then (if str_eq next v then 1 else 0) else 0)
occ-queued v next n queue =
    ground (arith, occ-sort_strings v (queue ++ next ∷ []), occ-append v queue (next ∷ []))

module _ (deps : List Dependency) (keys : List Str) (once : (v : Str) → occ v keys ≤ 1) where
  -- The counts are those of the blockers that are not in the order, and of the edges from its last
  -- task that are not met yet; in the order or the queue are the tasks that wait for none.
  pub record Holds (order queue rest : List Str) (m : Degrees) : Type 0 where
    pub degrees : (v : Str) → degree_of m v ≡ waiting deps order v + occ v rest
    pub placed :
        (v : Str) → occ v order + occ v queue ≡ (if degree_of m v == 0 then occ v keys else 0)

  release-Holds :
      (order rest : List Str) (s : Round) (next : Str)
      → occ next keys ≡ 1
      → Holds order s.queue (next ∷ rest) s.degrees
      → Holds order (release s next).queue rest (release s next).degrees
  unfolding release
  release-Holds order rest s next known h = record { degrees = degrees; placed = placed }
    where
      above : 1 ≤ degree_of s.degrees next
      above = ground (arith, h.degrees next, str_eq_refl next)

      at_next : degree_of s.degrees next - 1 ≡ waiting deps order next + occ next rest
      at_next = ground (arith, h.degrees next, str_eq_refl next)

      degrees :
          (v : Str)
          → degree_of ((next, degree_of s.degrees next - 1) ∷ s.degrees) v
            ≡ waiting deps order v + occ v rest
      degrees v = degree_of-cons s.degrees next v _ ∙ elim (Bool-cases (str_eq next v)) [
        | inl e ↦ rw e (
            subst (λ v. degree_of s.degrees next - 1 ≡ waiting deps order v + occ v rest)
              ((str_eq_iff next v).0 e) at_next)
        | inr e ↦ rw e (ground (arith, h.degrees v, e))
      ]

      placed_next :
          occ next order + (occ next s.queue + (if degree_of s.degrees next - 1 == 0 then 1 else 0))
          ≡ (if degree_of s.degrees next - 1 == 0 then occ next keys else 0)
      placed_next = ground (arith, h.placed next, above, known)

      placed :
          (v : Str)
          → occ v order
              + occ v (
                  if degree_of s.degrees next - 1 == 0
                  then sort_strings (s.queue ++ next ∷ [])
                  else s.queue)
            ≡ (if degree_of ((next, degree_of s.degrees next - 1) ∷ s.degrees) v == 0
                then occ v keys
                else 0)
      placed v =
          rw
            (
              degree_of-cons s.degrees next v (degree_of s.degrees next - 1),
              occ-queued v next (degree_of s.degrees next - 1) s.queue,
            )
            (elim (Bool-cases (str_eq next v)) [
              | inl e ↦ rw e (
                  subst
                    (λ v.
                      occ v order
                        + (occ v s.queue + (if degree_of s.degrees next - 1 == 0 then 1 else 0))
                      ≡ (if degree_of s.degrees next - 1 == 0 then occ v keys else 0))
                    ((str_eq_iff next v).0 e) placed_next)
              | inr e ↦ rw e (ground (arith, h.placed v))
            ])

  foldl-Holds :
      (order rest : List Str) (s : Round)
      → ((v : Str) → 1 ≤ occ v rest → occ v keys ≡ 1)
      → Holds order s.queue rest s.degrees
      → Holds order (foldl release s rest).queue [] (foldl release s rest).degrees
  foldl-Holds order [] s known h = h
  foldl-Holds order (next ∷ rest) s known h =
      foldl-Holds order rest (release s next) (λ v m. known v (omega (arith, m)))
        (release-Holds order rest s next (known next (ground (arith, str_eq_refl next))) h)

  -- The blockers of a task stand before it.
  pub record IsBehind (order : List Str) (v : Str) : Type 0 where
    pub before : List Str
    pub after : List Str
    pub split : order ≡ before ++ v ∷ after
    pub idle : waiting deps before v ≡ 0

  abbrev pub IsOrder : List Str → Type 0
  IsOrder order = (v : Str) → In v order → IsBehind order v

  IsOrder-snoc :
      (order : List Str) (id : Str)
      → waiting deps order id ≡ 0
      → IsOrder order
      → IsOrder (order ++ id ∷ [])
  IsOrder-snoc order id idle h v m = elim ((In-append v order (id ∷ [])).0 m) [
    | inl m ↦
        let b = h v m in
        record {
          before = b.before;
          after = b.after ++ id ∷ [];
          split = ap (λ o. o ++ id ∷ []) b.split ∙ append_assoc b.before (v ∷ b.after) (id ∷ []);
          idle = b.idle;
        }
    | inr (inl e) ↦
        subst (IsBehind (order ++ id ∷ [])) e
          (record { before = order; after = []; split = refl; idle = idle })
    | inr (inr m) ↦ absurd m
  ]

  record Taken (order queue : List Str) (m : Degrees) (id : Str) : Type 0 where
    fresh : occ id order ≡ 0
    idle : waiting deps order id ≡ 0

  head-Taken :
      (order queue : List Str) (m : Degrees) (id : Str)
      → Holds order (id ∷ queue) [] m
      → Taken order queue m id
  head-Taken order queue m id h = record { fresh = fresh; idle = idle }
    where
      fresh : occ id order ≡ 0
      fresh = ground (arith, h.placed id, once id, str_eq_refl id)

      idle : waiting deps order id ≡ 0
      idle = ground (arith, h.placed id, h.degrees id, str_eq_refl id)

  round-Holds :
      (order queue : List Str) (m : Degrees) (id : Str)
      → Holds order (id ∷ queue) [] m
      → Holds (order ++ id ∷ []) queue (list_at id (foldl add_edge [] deps)) m
  round-Holds order queue m id h = record {
    degrees = λ v. omega (
      arith,
      h.degrees v,
      waiting-snoc deps order id v (head-Taken order queue m id h).fresh,
      occ-targets deps id v,
    );
    placed = λ v. omega (arith, h.placed v, occ-append v order (id ∷ []));
  }

  -- What the loop returns: the tasks that wait for none, in order.
  pub record Finished (o : Option (List Str)) : Type 0 where
    pub order : List Str
    pub found : o ≡ some order
    pub whole : (v : Str) → occ v order ≡ (if waiting deps order v == 0 then occ v keys else 0)
    pub in_order : IsOrder order

  pub kahn-Finished :
      ((u v : Str) → 1 ≤ between deps u v → occ v keys ≡ 1)
      → (fuel : ℕ) (queue order : List Str) (m : Degrees) → length keys ≤ length order + fuel
      → Holds order queue [] m
      → IsOrder order
      → Finished (kahn fuel (foldl add_edge [] deps) queue order m)
  unfolding kahn release_all
  kahn-Finished known fuel [] order m enough h b = record {
    order = order;
    found = refl;
    whole = λ v. ground (arith, h.placed v, h.degrees v);
    in_order = b;
  }
  kahn-Finished known zero (id ∷ queue) order m enough h b = absurd (
      omega (
        arith,
        enough,
        length-append order (id ∷ queue),
        length-le_of_occ (order ++ id ∷ queue) keys
            (λ v. ground (arith, h.placed v, occ-append v order (id ∷ queue))),
      ))
  kahn-Finished known (suc fuel) (id ∷ queue) order m enough h b =
      let taken = head-Taken order queue m id h in
      let next = list_at id (foldl add_edge [] deps) in
      kahn-Finished known fuel _ (order ++ id ∷ []) _
        (omega (arith, enough, length-append order (id ∷ [])))
        (foldl-Holds (order ++ id ∷ []) next (record { queue = queue; degrees = m })
          (λ v e. known id v (omega (arith, e, occ-targets deps id v)))
          (round-Holds order queue m id h))
        (IsOrder-snoc order id taken.idle b)

-- ===== src/Domain/Graph/Derive/Idempotent.antt =====
-- `Derive` of internal/domain/graph.go applied to its own result.

use next_now_x.Prelude.{
  ◌≡◌, refl, ◌∙◌, ap, Str, Option, List, [], ◌∷◌, map, foldl, lookup_str, list_at, lookup_str-map,
  Bool-cases, Option-cases, inl, inr, arith, if◌then◌else◌,
}
use mathlib.Core.Path.{ap₂, fun_ext}
use next_now_x.Domain.Models.{Task, Dependency, PullRequest}
use next_now_x.Domain.Status.{is_task_finished, display_state_for, is_satisfied, is_ready_candidate}
use next_now_x.Domain.Graph.Derive.{
  Index, index, pr_of, is_resolved, reason_for, visit, title_of, conclude, reset, opened,
  derive_task, derive, add_task, blocked_reason_text,
}
use next_now_x.Domain.Graph.Derive.Blockers.{
  derive_task-unfinished, derive_task-finished, marked, waited_on,
}

-- What the derivation reads of a task.
record Keeps (t u : Task) : Type 0 where
  id : t.id ≡ u.id
  title : t.title ≡ u.title
  satisfied : (pr : Option PullRequest) → is_satisfied t pr ≡ is_satisfied u pr

module _ (ix : Index) where
  Keeps-derive_task : (t : Task) → Keeps (derive_task ix t) t
  unfolding is_satisfied
  Keeps-derive_task t = elim (Bool-cases (is_task_finished (display_state_for t (pr_of ix t.id)))) [
    | inl e ↦
        rw (derive_task-finished ix t e)
          (record { id = refl; title = refl; satisfied = λ pr. refl })
    | inr e ↦
        rw (derive_task-unfinished ix t e)
          (record { id = refl; title = refl; satisfied = λ pr. refl })
  ]

  -- The derivation begins by forgetting what an earlier one wrote.
  reset-conclude :
      (t : Task) (ids : List Str)
      → reset ix (conclude ix (marked ix (opened ix t) ids)) ≡ reset ix t
  unfolding display_state_for
  reset-conclude t ids = refl

  reset-reset : (t : Task) → reset ix (reset ix t) ≡ reset ix t
  unfolding display_state_for
  reset-reset t = refl

  reset-derive_task : (t : Task) → reset ix (derive_task ix t) ≡ reset ix t
  reset-derive_task t = elim (Bool-cases (is_task_finished (display_state_for t (pr_of ix t.id)))) [
    | inl e ↦ ap (reset ix) (derive_task-finished ix t e) ∙ reset-reset t
    | inr e ↦ ap (reset ix) (derive_task-unfinished ix t e) ∙ reset-conclude t (waited_on ix t)
  ]

  -- One round reads of the task only what `reset` leaves.
  abbrev derive_reset : Task → Task
  derive_reset t =
      if is_task_finished t.display_state
      then t
      else conclude ix (
          foldl (visit ix) (record t { ready = is_ready_candidate t.display_state })
            (list_at t.id ix.blockers))

  derive_task-derive_task : (t : Task) → derive_task ix (derive_task ix t) ≡ derive_task ix t
  unfolding derive_task
  derive_task-derive_task t = ap derive_reset (reset-derive_task t)

  module _ (f : Task → Task) (keeps : (t : Task) → Keeps (f t) t) where
    abbrev renewed : Index
    renewed = record ix { task_by_id = map (λ e. (e.0, f e.1)) ix.task_by_id }

    is_resolved-renewed : (id : Str) → is_resolved renewed id ≡ is_resolved ix id
    unfolding is_resolved
    is_resolved-renewed id = elim (Option-cases (lookup_str id ix.task_by_id)) [
      | inl e ↦ ground (arith, lookup_str-map f id ix.task_by_id)
      | inr (t, e) ↦
          ground (arith, lookup_str-map f id ix.task_by_id, (keeps t).satisfied (pr_of ix id))
    ]

    reason_for-renewed : (id : Str) → reason_for renewed id ≡ reason_for ix id
    reason_for-renewed id = ground (arith, lookup_str-map f id ix.task_by_id)

    title_of-renewed : (id : Str) → title_of renewed id ≡ title_of ix id
    title_of-renewed id = elim (Option-cases (lookup_str id ix.task_by_id)) [
      | inl e ↦ ground (arith, lookup_str-map f id ix.task_by_id)
      | inr (t, e) ↦ ground (arith, lookup_str-map f id ix.task_by_id, (keeps t).title)
    ]

    visit-renewed : (t : Task) (id : Str) → visit renewed t id ≡ visit ix t id
    unfolding visit
    visit-renewed t id = ground (arith, is_resolved-renewed id, reason_for-renewed id)

    conclude-renewed : (t : Task) → conclude renewed t ≡ conclude ix t
    conclude-renewed t =
        ap
          (λ (title : Str). record (conclude ix t) {
            blocked_reason = blocked_reason_text t.blocked_code title;
          })
          (title_of-renewed t.blocker_task_id)

    derive_task-renewed : (t : Task) → derive_task renewed t ≡ derive_task ix t
    unfolding derive_task
    derive_task-renewed t =
        ap₂
          (λ (c : Task → Task) (v : Task → Str → Task).
            if is_task_finished (reset ix t).display_state
            then reset ix t
            else c (foldl v (opened ix t) (list_at t.id ix.blockers)))
          (fun_ext conclude-renewed) (fun_ext (λ u. fun_ext (visit-renewed u)))

foldl-add_task :
    (f : Task → Task)
    → ((t : Task) → Keeps (f t) t)
    → (ts : List Task) (m : List (Str × Task))
    → foldl add_task (map (λ e. (e.0, f e.1)) m) (map f ts)
      ≡ map (λ e. (e.0, f e.1)) (foldl add_task m ts)
foldl-add_task f keeps [] m = refl
foldl-add_task f keeps (t ∷ ts) m =
    ap (λ (id : Str). foldl add_task ((id, f t) ∷ map (λ e. (e.0, f e.1)) m) (map f ts))
      ((keeps t).id)
    ∙ foldl-add_task f keeps ts (add_task m t)

-- Deriving a second time, from the derived tasks, changes nothing.
pub derive-idempotent :
    (tasks : List Task) (deps : List Dependency) (prs : List PullRequest)
    → derive (derive tasks deps prs) deps prs ≡ derive tasks deps prs
unfolding derive index
derive-idempotent tasks deps prs =
    ap
      (λ (m : List (Str × Task)).
        map (derive_task (record ix { task_by_id = m })) (map (derive_task ix) tasks))
      (foldl-add_task (derive_task ix) (Keeps-derive_task ix) tasks [])
    ∙ map-derive_task tasks
  where
    ix : Index
    ix = index tasks deps prs

    again :
        (t : Task)
        → derive_task (renewed ix (derive_task ix) (Keeps-derive_task ix)) (derive_task ix t)
          ≡ derive_task ix t
    again t =
        derive_task-renewed ix (derive_task ix) (Keeps-derive_task ix) (derive_task ix t)
        ∙ derive_task-derive_task ix t

    map-derive_task :
        (ts : List Task)
        → map
            (derive_task (renewed ix (derive_task ix) (Keeps-derive_task ix)))
            (map (derive_task ix) ts)
          ≡ map (derive_task ix) ts
    map-derive_task [] = refl
    map-derive_task (t ∷ ts) =
        ap₂ (λ (u : Task) (us : List Task). u ∷ us) (again t) (map-derive_task ts)

-- ===== src/Domain/Graph/Order/Start.antt =====
-- `TopologicalOrder` of internal/domain/graph.go: what stands in the maps and in the queue before the
-- loop.
use next_now_x.Prelude.{
  ◌≡◌, ap, subst, ◌∙◌, ◌↔◌, ◌⊎◌, inl, inr, suc, ◌+◌, ◌≤◌, Str, str_eq, str_eq_iff, List, [], ◌∷◌,
  Bool, foldl, map, keep, if◌then◌else◌, ◌==◌, has_str, has_str_iff, occ, occ-sort_strings, In-occ,
  occ-In, In, length, Bool-cases, Result, ok, err, arith,
}
use next_now_x.Domain.Models.{Task, Dependency}
use next_now_x.Domain.Graph.Order.{
  Degrees, degree_of, is_key, zero_degree, increased, Ordering, unknown_blocker, unknown_blocked,
  add_key, keys_of, count_dependencies, first_queue,
}
use next_now_x.Domain.Graph.Order.Counts.{waiting}
use next_now_x.Domain.Graph.Order.Loop.{degree_of-cons, Holds}

abbrev pub ids_of : List Task → List Str
ids_of tasks = map (λ (t : Task). t.id) tasks

-- Both ends of a dependency are tasks.
abbrev pub IsKnown : List Str → List Dependency → Type 0
IsKnown keys [] = Unit
IsKnown keys (d ∷ deps) =
    (occ d.blocker_task_id keys ≡ 1) × (occ d.blocked_task_id keys ≡ 1) × IsKnown keys deps

-- A set of keys counts a key once.
occ-add_key :
    (ids : List Str) (t : Task) (v : Str)
    → ((v : Str) → occ v ids ≤ 1)
    → occ v (add_key ids t) ≡ (if str_eq t.id v then 1 else occ v ids)
unfolding add_key
occ-add_key ids t v once =
    let at_id : occ t.id ids ≡ (if has_str t.id ids then 1 else 0) =
      ground (arith, once t.id, In-occ t.id ids, occ-In t.id ids, has_str_iff t.id ids) in
    elim (Bool-cases (str_eq t.id v)) [
      | inl e ↦
          let at_v =
            subst (λ v. occ v ids ≡ (if has_str t.id ids then 1 else 0)) ((str_eq_iff t.id v).0 e)
              at_id in
          rw e (ground (arith, at_v, e))
      | inr e ↦ rw e (ground (arith, e))
    ]

-- The keys that are collected are those of the map.
pub occ-keys :
    (tasks : List Task) (ids : List Str) (m : Degrees)
    → ((v : Str) → occ v ids ≡ (if is_key v m then 1 else 0))
    → (v : Str)
    → occ v (foldl add_key ids tasks) ≡ (if is_key v (foldl zero_degree m tasks) then 1 else 0)
occ-keys [] ids m h v = h v
occ-keys (t ∷ tasks) ids m h v =
    occ-keys tasks (add_key ids t) (zero_degree m t)
      (λ v. ground (arith, occ-add_key ids t v (λ v. ground (arith, h v)), h v)) v

pub degree_of-zero_degree :
    (tasks : List Task) (m : Degrees)
    → ((v : Str) → degree_of m v ≡ 0)
    → (v : Str) → degree_of (foldl zero_degree m tasks) v ≡ 0
degree_of-zero_degree [] m h v = h v
degree_of-zero_degree (t ∷ tasks) m h v =
    degree_of-zero_degree tasks (zero_degree m t)
      (λ v. ground (arith, degree_of-cons m t.id v 0, h v)) v

In-add_key : (ids : List Str) (t : Task) (v : Str) → In v (add_key ids t) ↔ (In v ids ⊎ (t.id ≡ v))
unfolding add_key
In-add_key ids t v = elim (Bool-cases (has_str t.id ids)) [
  | inl e ↦ rw e (
    λ h. inl h,
    elim [ inl h ↦ h | inr same ↦ subst (λ v. In v ids) same ((has_str_iff t.id ids).0 e) ],
  )
  | inr e ↦
      rw e
        (elim [ inl same ↦ inr same | inr h ↦ inl h ], elim [ inl h ↦ inr h | inr same ↦ inl same ])
]

pub In-keys :
    (tasks : List Task) (ids : List Str) (v : Str)
    → In v (foldl add_key ids tasks) ↔ (In v ids ⊎ In v (ids_of tasks))
In-keys [] ids v = ground arith
In-keys (t ∷ tasks) ids v =
    ground (arith, In-keys tasks (add_key ids t) v, has_str_iff t.id ids, In-add_key ids t v)

pub length-keys-le :
    (tasks : List Task) (ids : List Str)
    → length (foldl add_key ids tasks) ≤ length ids + length tasks
unfolding add_key
length-keys-le [] ids = omega arith
length-keys-le (t ∷ tasks) ids = ground (arith, length-keys-le tasks (add_key ids t))

-- The errors of the loop over the dependencies.
pub data IsUnknown : Ordering → Type 0 where
  blocker_unknown : (id : Str) → IsUnknown (unknown_blocker id)
  blocked_unknown : (id : Str) → IsUnknown (unknown_blocked id)

-- Every dependency is counted at the task that it blocks, if both of its ends are keys.
pub data IsCounted (keys : List Str) (deps : List Dependency) (m : Degrees)
    : Result Ordering Degrees → Type 0 where
  all_known :
      (n : Degrees)
      → IsKnown keys deps
      → ((v : Str) → degree_of n v ≡ degree_of m v + waiting deps [] v)
      → IsCounted keys deps m (ok n)
  one_unknown : (e : Ordering) → IsUnknown e → ¬ IsKnown keys deps → IsCounted keys deps m (err e)

abbrev pub HasKeys : List Str → Degrees → Type 0
HasKeys keys m = (v : Str) → occ v keys ≡ (if is_key v m then 1 else 0)

increased-HasKeys :
    (keys : List Str) (m : Degrees) (d : Dependency)
    → occ d.blocked_task_id keys ≡ 1
    → HasKeys keys m
    → HasKeys keys (increased m d)
increased-HasKeys keys m d known h v = elim (Bool-cases (str_eq d.blocked_task_id v)) [
  | inl e ↦ rw e (subst (λ v. occ v keys ≡ 1) ((str_eq_iff d.blocked_task_id v).0 e) known)
  | inr e ↦ rw e (h v)
]

degree_of-increased :
    (m : Degrees) (d : Dependency) (v : Str)
    → degree_of (increased m d) v ≡ degree_of m v + (if str_eq d.blocked_task_id v then 1 else 0)
degree_of-increased m d v = elim (Bool-cases (str_eq d.blocked_task_id v)) [
  | inl e ↦
      let same = (str_eq_iff d.blocked_task_id v).0 e in
      degree_of-cons m d.blocked_task_id v _
      ∙ rw e (ap (λ v. suc (degree_of m v)) same ∙ omega arith)
  | inr e ↦ degree_of-cons m d.blocked_task_id v _ ∙ rw e (omega arith)
]

pub count_dependencies-IsCounted :
    (keys : List Str) (deps : List Dependency) (m : Degrees)
    → HasKeys keys m
    → IsCounted keys deps m (count_dependencies deps m)
unfolding count_dependencies
count_dependencies-IsCounted keys [] m h = all_known m tt (λ v. omega arith)
count_dependencies-IsCounted keys (d ∷ deps) m h = elim (Bool-cases (is_key d.blocker_task_id m)) [
  | inl e ↦ elim (Bool-cases (is_key d.blocked_task_id m)) [
    | inl f ↦
        let from : occ d.blocker_task_id keys ≡ 1 = ground (arith, h d.blocker_task_id, e) in
        let to : occ d.blocked_task_id keys ≡ 1 = ground (arith, h d.blocked_task_id, f) in
        rw (e, f)
          (extended from to (count_dependencies deps (increased m d)) (
            count_dependencies-IsCounted keys deps (increased m d)
              (increased-HasKeys keys m d to h)))
    | inr f ↦
        rw (e, f)
          (one_unknown _ (blocked_unknown d.blocked_task_id)
            (λ k. ground (arith, h d.blocked_task_id, f, k)))
  ]
  | inr e ↦ rw e (
      one_unknown _ (blocker_unknown d.blocker_task_id)
        (λ k. ground (arith, h d.blocker_task_id, e, k)))
]
  where
    extended :
        occ d.blocker_task_id keys ≡ 1
        → occ d.blocked_task_id keys ≡ 1
        → (r : Result Ordering Degrees) → IsCounted keys deps (increased m d) r
        → IsCounted keys (d ∷ deps) m r
    extended from to _ (all_known n k degrees) =
        all_known n (from, to, k) (λ v. ground (arith, degrees v, degree_of-increased m d v))
    extended from to _ (one_unknown e u apart) = one_unknown e u (λ k. apart k.2)

occ-keep :
    (p : Str → Bool) (v : Str) (xs : List Str) → occ v (keep p xs) ≡ (if p v then occ v xs else 0)
unfolding keep
occ-keep p v [] = ground arith
occ-keep p v (x ∷ xs) = elim (Bool-cases (str_eq x v)) [
  | inl e ↦
      let same = ap p ((str_eq_iff x v).0 e) in rw (same, e) (ground (arith, occ-keep p v xs, e))
  | inr e ↦ ground (arith, occ-keep p v xs, e)
]

-- At the start the loop has what it keeps.
pub first_queue-Holds :
    (tasks : List Task) (deps : List Dependency) (m : Degrees)
    (once : (v : Str) → occ v (keys_of tasks) ≤ 1)
    → ((v : Str) → degree_of m v ≡ waiting deps [] v)
    → Holds deps (keys_of tasks) once [] (first_queue tasks m) [] m
unfolding first_queue
first_queue-Holds tasks deps m once h = record {
  degrees = λ v. omega (arith, h v);
  placed = λ v. ground (
    arith,
    occ-sort_strings v (keep (λ id. degree_of m id == 0) (keys_of tasks)),
    occ-keep (λ id. degree_of m id == 0) v (keys_of tasks),
  );
}

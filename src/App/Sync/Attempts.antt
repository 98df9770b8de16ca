-- ===== src/App/Sync/Attempts.antt =====
-- internal/app/github_sync.go: which pull requests an attempt with one candidate answers for.
use next_now_x.Prelude.{
  ◌≡◌, refl, sym, ap, subst, ◌∙◌, ◌⊎◌, inl, inr, ℕ, zero, suc, ◌+◌, ◌≤◌, Str, str_eq, List, [], ◌∷◌,
  ◌++◌, Bool, true, false, ◌||◌, Bool-cases, Option, none, some, Result, ok, err, lookup_str,
  length, In, arith,
}
use next_now_x.Domain.Models.{PullRequest}
use next_now_x.App.Sync.{
  SyncError, Candidate, Batch, Attempt, has_key, take, unresolved_index, work_after_failure,
}
use next_now_x.App.Sync.Keys.{
  has_key-append, In-take, In-take_drop, In-work_after_failure, take-take,
}
use next_now_x.App.Sync.Checking.{Ran, through, halted, check_items-Ran}
use next_now_x.App.Sync.Candidates.{
  GitHub, Checks, split_errors, split_entry, check_items, no_attempt, resolved, ended, probe_first,
  fetched, probed, opened, attempt_candidate,
}

-- A task with an entry in one of the three maps.
pub data Found (id : Str) (s p : List (Str × PullRequest)) (f : List (Str × SyncError))
    : Type 0 where
  in_successes : has_key id s ≡ true → Found id s p f
  in_partials : has_key id p ≡ true → Found id s p f
  in_failures : has_key id f ≡ true → Found id s p f

-- The batch has the pull request, a part of it, or its error.
pub data IsAnswered (batch : Batch) (v : PullRequest) : Type 0 where
  whole : has_key v.task_id batch.pull_requests ≡ true → IsAnswered batch v
  part : has_key v.task_id batch.partial_pull_requests ≡ true → IsAnswered batch v
  refused : has_key v.task_id batch.errors ≡ true → IsAnswered batch v

abbrev pub IsFound : Attempt → PullRequest → Type 0
IsFound a v = Found v.task_id a.successes a.partials a.failures

-- Everything of the work is found, except what is left after the failure.
abbrev pub Tells : List PullRequest → Attempt → Type 0
Tells work a =
    (v : PullRequest)
    → In v work
    → IsFound a v
      ⊎ (In v (work_after_failure work a.failed_at) × ((e : SyncError) × (a.error ≡ some e)))

abbrev has_answer : Batch → PullRequest → Bool
has_answer batch v =
    has_key v.task_id batch.pull_requests
    || (has_key v.task_id batch.partial_pull_requests || has_key v.task_id batch.errors)

has_answer-IsAnswered :
    (batch : Batch) (v : PullRequest) → has_answer batch v ≡ true → IsAnswered batch v
has_answer-IsAnswered batch v h = elim (Bool-cases (has_key v.task_id batch.pull_requests)) [
  | inl e ↦ whole e
  | inr e ↦ elim (Bool-cases (has_key v.task_id batch.partial_pull_requests)) [
    | inl f ↦ part f
    | inr f ↦ refused (ground arith)
  ]
]

has_key-split :
    (errors : List (Str × SyncError)) (m : List (Str × PullRequest)) (k : Str)
    → has_key k m ≡ true
    → (has_key k (split_errors errors m false) ≡ true)
      ⊎ (has_key k (split_errors errors m true) ≡ true)
has_key-split errors [] k h = absurd cc
has_key-split errors ((j, v) ∷ m) k h =
    by_entry (lookup_str j errors) (split_errors errors m false) (split_errors errors m true)
      (elim (Bool-cases (str_eq j k)) [
        | inl e ↦ inl e
        | inr e ↦ inr (has_key-split errors m k (rw e at h))
      ])
  where
    by_entry :
        (o : Option SyncError) (a b : List (Str × PullRequest))
        → (str_eq j k ≡ true) ⊎ ((has_key k a ≡ true) ⊎ (has_key k b ≡ true))
        → (has_key k (split_entry o false (j, v) a) ≡ true)
          ⊎ (has_key k (split_entry o true (j, v) b) ≡ true)
    by_entry none a b h = ground arith
    by_entry (some e) a b h = ground arith

unresolved_index-le :
    (vs : List PullRequest) (batch : Batch) → unresolved_index vs batch ≤ length vs
unfolding unresolved_index
unresolved_index-le [] batch = omega arith
unresolved_index-le (v ∷ vs) batch = ground (arith, unresolved_index-le vs batch)

length-take : (n : ℕ) (vs : List PullRequest) → n ≤ length vs → length (take n vs) ≡ n
length-take zero vs h = refl
length-take (suc n) [] h = absurd (omega (arith, h))
length-take (suc n) (v ∷ vs) h = ap suc (length-take n vs (omega arith))

unresolved_index-IsAnswered :
    (batch : Batch) (v : PullRequest) (vs : List PullRequest)
    → In v (take (unresolved_index vs batch) vs)
    → IsAnswered batch v
unfolding unresolved_index
unresolved_index-IsAnswered batch v [] h = absurd h
unresolved_index-IsAnswered batch v (x ∷ vs) h = elim (Bool-cases (has_answer batch x)) [
  | inl e ↦ by_in e (rw e at h) (unresolved_index-IsAnswered batch v vs)
  | inr e ↦ absurd (rw e at h)
]
  where
    by_in :
        has_answer batch x ≡ true
        → (x ≡ v) ⊎ In v (take (unresolved_index vs batch) vs)
        → (In v (take (unresolved_index vs batch) vs) → IsAnswered batch v)
        → IsAnswered batch v
    by_in e (inl m) rest = subst (λ v. IsAnswered batch v) m (has_answer-IsAnswered batch x e)
    by_in e (inr m) rest = rest m

-- A batch without an error answers for everything that it was asked for.
abbrev pub Answers : List PullRequest → Batch × Option SyncError → Type 0
Answers values (batch, none) = (v : PullRequest) → In v values → IsAnswered batch v
Answers values (batch, some _) = Unit

module _ {W : Type 0} (g : GitHub W) where
  -- What a batch and the failures of the loop give.
  abbrev gathered : Batch → Checks W → Attempt
  gathered batch checks = record (no_attempt g) {
    successes = split_errors batch.errors batch.pull_requests false;
    partials = batch.partial_pull_requests ++ split_errors batch.errors batch.pull_requests true;
    failures = checks.failures;
  }

  gathered-IsFound :
      (batch : Batch) (checks : Checks W) (v : PullRequest)
      → IsAnswered batch v
      → (has_key v.task_id batch.errors ≡ true → has_key v.task_id checks.failures ≡ true)
      → IsFound (gathered batch checks) v
  gathered-IsFound batch checks v (whole h) f =
      elim (has_key-split batch.errors batch.pull_requests v.task_id h) [
        | inl m ↦ in_successes m
        | inr m ↦ in_partials (rw has_key-append (ground arith))
      ]
  gathered-IsFound batch checks v (part h) f = in_partials (rw (has_key-append, h) refl)
  gathered-IsFound batch checks v (refused h) f = in_failures (f h)

  -- An attempt that fails at a place, where everything before it is found.
  failed-Tells :
      (values : List PullRequest) (a : Attempt) (n : ℕ) (e : SyncError)
      → ((v : PullRequest) → In v (take n values) → IsFound a v)
      → Tells values (record a { failed_at = some n; error = some e })
  failed-Tells values a n e found v m = elim (In-take_drop v n values m) [
    | inl m ↦ inl (found v m)
    | inr m ↦ inr (In-work_after_failure v n values m, (e, refl))
  ]

  at_place :
      {o : Option (ℕ × SyncError)} (k : ℕ) (e : SyncError) → o ≡ some (0 + k, e) → o ≡ some (k, e)
  at_place k e s = s ∙ ap (λ i. some (i, e)) (omega arith)

  ended-Tells :
      (values : List PullRequest) (batch : Batch) (o : Option SyncError) (checks : Checks W)
      → Answers values (batch, o)
      → Ran g batch (resolved g values batch o) 0 checks
      → Tells values (ended g (resolved g values batch o) o (gathered batch checks) checks.stopped)
  ended-Tells values batch none checks answers (through s all) =
      rw s (λ v m. inl (gathered-IsFound batch checks v (answers v m) (all v m)))
  ended-Tells values batch none checks answers (halted k e s l all) = rw (at_place k e s) (
      failed-Tells values (gathered batch checks) k e
        (λ v m. gathered-IsFound batch checks v (answers v (In-take v k values m)) (all v m)))
  ended-Tells values batch (some e) checks answers (through s all) =
      let u = unresolved_index values batch in
      let n = length (take u values) in
      rw s (
        failed-Tells values (gathered batch checks) n e (λ v m.
          let m' : In v (take u values) =
            subst (λ n. In v (take n values))
              (length-take u values (unresolved_index-le values batch)) m in
          gathered-IsFound batch checks v (unresolved_index-IsAnswered batch v values m')
            (all v m')))
  ended-Tells values batch (some e) checks answers (halted k e' s l all) =
      let u = unresolved_index values batch in
      let before : k ≤ u =
        omega (arith, l, length-take u values (unresolved_index-le values batch)) in
      rw (at_place k e' s) (
        failed-Tells values (gathered batch checks) k e' (λ v m.
          let m' : In v (take k (take u values)) =
            subst (λ vs. In v vs) (sym (take-take k u values before)) m in
          gathered-IsFound batch checks v
            (unresolved_index-IsAnswered batch v values (In-take v k _ m')) (all v m')))

  fetched-Tells :
      (candidate : Candidate) (values : List PullRequest) (probe : Bool) (batch : Batch)
      (o : Option SyncError) (w : W)
      → Answers values (batch, o)
      → Tells values (fetched g candidate values probe ((batch, o), w)).0
  unfolding fetched
  fetched-Tells candidate values probe batch o w answers =
      let tried = resolved g values batch o in
      let start : Checks W = record { probed = probe; failures = []; stopped = none; world = w } in
      ended-Tells values batch o (check_items g candidate batch tried 0 start) answers
        (check_items-Ran g candidate batch tried 0 start refl).0

  -- What an attempt tells; a credential that does not open tells nothing.
  abbrev pub TellsIfOpen : List PullRequest → Result SyncError Attempt → Type 0
  TellsIfOpen work (err e) = Unit
  TellsIfOpen work (ok a) = Tells work a

  pub first-Tells :
      (work : List PullRequest) (e : SyncError)
      → Tells work (record (no_attempt g) { failed_at = some 0; error = some e })
  first-Tells work e = failed-Tells work (no_attempt g) 0 e (λ v m. absurd m)

  module _
      (complete : (c : Candidate) (vs : List PullRequest) (w : W)
        → Answers vs (g.fetch_batch c vs w).0) where
    probed-Tells :
        (candidate : Candidate) (work : List PullRequest) (answer : Option SyncError × W)
        → Tells work (probed g candidate work answer).0
    unfolding probed
    probed-Tells candidate work (some e, w) = first-Tells work e
    probed-Tells candidate work (none, w) =
        fetched-Tells candidate work true _ _ _ (complete candidate work w)

    opened-Tells :
        (candidate : Candidate) (work : List PullRequest) (probe : Bool)
        (answer : Option SyncError × W)
        → TellsIfOpen work (opened g candidate work probe answer).0
    unfolding opened
    opened-Tells candidate work probe (some e, w) = tt
    opened-Tells candidate work true (none, w) =
        probed-Tells candidate work (probe_first g candidate work w)
    opened-Tells candidate work false (none, w) =
        fetched-Tells candidate work false _ _ _ (complete candidate work w)

    pub attempt_candidate-Tells :
        (candidate : Candidate) (work : List PullRequest) (probe : Bool) (w : W)
        → TellsIfOpen work (attempt_candidate g candidate work probe w).0
    unfolding attempt_candidate
    attempt_candidate-Tells candidate work probe w =
        opened-Tells candidate work probe (g.open_provider candidate w)

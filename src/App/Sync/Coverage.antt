-- ===== src/App/Sync/Coverage.antt =====
-- internal/app/github_sync.go: `syncRepository` leaves no pull request without an outcome.
use next_now_x.Prelude.{
  ◌≡◌, refl, ◌⊎◌, inl, inr, ℕ, Str, List, [], ◌∷◌, Bool, true, false, if◌then◌else◌, Bool-cases,
  Option, none, some, Result, ok, err, In, arith,
}
use next_now_x.Domain.Models.{PullRequest}
use next_now_x.App.Sync.{
  SyncError, Candidate, Attempt, SyncResult, RepositoryKey, has_key, is_fallback_class,
  work_after_failure, merge_candidate_attempt, add_remaining_failures, candidate_by_id,
}
use next_now_x.App.Sync.Keys.{
  In-work_after_failure, has_key-append, has_key-map, add_remaining-keeps, add_remaining-has,
  add_unavailable-keeps, add_unavailable-has,
}
use next_now_x.App.Sync.Attempts.{
  Found, in_successes, in_partials, in_failures, IsFound, Tells, TellsIfOpen, Answers, first-Tells,
  attempt_candidate-Tells,
}
use next_now_x.App.Sync.Candidates.{GitHub, attempt_candidate}
use next_now_x.App.Sync.Repositories.{
  Next, judged, tried, try_candidates, give_up, as_attempt, forget, with_cached, from_cache,
  try_cached_repository, no_results, go_on_with, with_candidates, sync_repository, unavailable,
}

-- The pull request has an outcome: what GitHub gave, a part of it, or an error.
abbrev pub HasOutcome : SyncResult → PullRequest → Type 0
HasOutcome r v = Found v.task_id r.successes r.partials r.failures

merged-old :
    (r : SyncResult) (a : Attempt) (v : PullRequest)
    → HasOutcome r v
    → HasOutcome (merge_candidate_attempt r a) v
merged-old r a v (in_successes h) = in_successes (rw has_key-append (ground arith))
merged-old r a v (in_partials h) = in_partials (rw has_key-append (ground arith))
merged-old r a v (in_failures h) = in_failures (rw has_key-append (ground arith))

merged-new :
    (r : SyncResult) (a : Attempt) (v : PullRequest)
    → IsFound a v
    → HasOutcome (merge_candidate_attempt r a) v
merged-new r a v (in_successes h) = in_successes (rw (has_key-append, h) refl)
merged-new r a v (in_partials h) = in_partials (rw (has_key-append, h) refl)
merged-new r a v (in_failures h) = in_failures (rw (has_key-append, h) refl)

with_failures :
    (r : SyncResult) (v : PullRequest) (m : List (Str × SyncError))
    → HasOutcome r v
    → (has_key v.task_id r.failures ≡ true → has_key v.task_id m ≡ true)
    → HasOutcome (record r { failures = m }) v
with_failures r v m (in_successes h) f = in_successes h
with_failures r v m (in_partials h) f = in_partials h
with_failures r v m (in_failures h) f = in_failures (f h)

in_both : {A : Type 0} (P : A → Type 0) (b : Bool) {x y : A} → P x → P y → P (if b then x else y)
in_both P true p q = p
in_both P false p q = q

abbrev Waits : PullRequest → Option (List PullRequest) → Type 0
Waits v none = ⊥
Waits v (some work) = In v work

module _ {W : Type 0} (g : GitHub W) where
  -- After a round the pull request has an outcome, or is in the work that goes on.
  abbrev Goes : PullRequest → Next g → Type 0
  Goes v ((r, next), w) = HasOutcome r v ⊎ Waits v next

  -- A failure that ends the run: what is left has the error.
  pub ending-Goes :
      (r : SyncResult) (v : PullRequest) (work : List PullRequest) (n : Option ℕ) (e : SyncError)
      → HasOutcome r v ⊎ In v (work_after_failure work n)
      → HasOutcome (record r { failures = add_remaining_failures r.failures work n e }) v
  ending-Goes r v work n e (inl h) =
      with_failures r v _ h (add_remaining-keeps v.task_id r.failures work n e)
  ending-Goes r v work n e (inr h) = in_failures (add_remaining-has r.failures v work n e h)

  judged-Goes :
      (c : Candidate) (work : List PullRequest) (r : SyncResult) (a : Attempt)
      (o : Option SyncError) (w : W) (v : PullRequest)
      → HasOutcome r v
        ⊎ (In v (work_after_failure work a.failed_at) × ((e : SyncError) × (o ≡ some e)))
      → Goes v (judged g c work r a o w)
  unfolding judged
  judged-Goes c work r a none w v (inl (in_successes h)) = inl (in_successes h)
  judged-Goes c work r a none w v (inl (in_partials h)) = inl (in_partials h)
  judged-Goes c work r a none w v (inl (in_failures h)) = inl (in_failures h)
  judged-Goes c work r a none w v (inr (m, (e, h))) = cc
  judged-Goes c work r a (some e) w v h = elim (Bool-cases (is_fallback_class e.class)) [
    | inl f ↦ rw f (elim h [ inl h ↦ inl h | inr h ↦ inr h.0 ])
    | inr f ↦
        rw f (inl (ending-Goes r v work a.failed_at e (elim h [ inl h ↦ inl h | inr h ↦ inr h.0 ])))
  ]

  merged-Goes :
      (c : Candidate) (work : List PullRequest) (r : SyncResult) (a : Attempt) (w : W)
      (v : PullRequest)
      → Tells work a
      → HasOutcome r v ⊎ In v work
      → Goes v (judged g c work (merge_candidate_attempt r a) a a.error w)
  merged-Goes c work r a w v tells (inl h) =
      judged-Goes c work _ a a.error w v (inl (merged-old r a v h))
  merged-Goes c work r a w v tells (inr m) = elim (tells v m) [
    | inl h ↦ judged-Goes c work _ a a.error w v (inl (merged-new r a v h))
    | inr h ↦ judged-Goes c work _ a a.error w v (inr h)
  ]

  tried-Goes :
      (c : Candidate) (work : List PullRequest) (r : SyncResult)
      (answer : Result SyncError Attempt × W) (v : PullRequest)
      → TellsIfOpen g work answer.0
      → HasOutcome r v ⊎ In v work
      → Goes v (tried g c work r answer)
  unfolding tried
  tried-Goes c work r (ok a, w) v tells h = merged-Goes c work r a w v tells h
  tried-Goes c work r (err e, w) v tells h = elim (Bool-cases (is_fallback_class e.class)) [
    | inl f ↦ rw f h
    | inr f ↦ rw f (
        inl (
          ending-Goes r v work (some 0) e
            (elim h [ inl h ↦ inl h | inr m ↦ inr (In-work_after_failure v 0 work m) ])))
  ]

  pub give_up-HasOutcome :
      (host : Str) (work : List PullRequest) (r : SyncResult) (v : PullRequest)
      → HasOutcome r v ⊎ In v work
      → HasOutcome (give_up g host work r) v
  give_up-HasOutcome host work r v (inl h) =
      with_failures r v _ h (add_unavailable-keeps v.task_id (unavailable g host) work r.failures)
  give_up-HasOutcome host work r v (inr h) =
      in_failures (add_unavailable-has (unavailable g host) v work r.failures h)

  -- The loop goes on with what is left, or is over.
  continued :
      (v : PullRequest) (next : Next g) (rest : List PullRequest → SyncResult → W → SyncResult × W)
      → ((work : List PullRequest) (r : SyncResult) (w : W)
          → HasOutcome r v ⊎ In v work
          → HasOutcome (rest work r w).0 v)
      → Goes v next
      → HasOutcome (go_on_with g rest next).0 v
  continued v ((r, none), w) rest f (inl h) = h
  continued v ((r, none), w) rest f (inr m) = absurd m
  continued v ((r, some work), w) rest f h = f work r w h

  module _
      (complete : (c : Candidate) (vs : List PullRequest) (w : W)
        → Answers vs (g.fetch_batch c vs w).0) where
    try_candidates-HasOutcome :
        (v : PullRequest) (host : Str) (cs : List Candidate) (work : List PullRequest)
        (r : SyncResult) (w : W)
        → HasOutcome r v ⊎ In v work
        → HasOutcome (try_candidates g host cs work r w).0 v
    unfolding try_candidates
    try_candidates-HasOutcome v host [] [] r w (inl h) = h
    try_candidates-HasOutcome v host (c ∷ cs) [] r w (inl h) = h
    try_candidates-HasOutcome v host [] [] r w (inr m) = absurd m
    try_candidates-HasOutcome v host (c ∷ cs) [] r w (inr m) = absurd m
    try_candidates-HasOutcome v host [] (x ∷ xs) r w h = give_up-HasOutcome host (x ∷ xs) r v h
    try_candidates-HasOutcome v host (c ∷ cs) (x ∷ xs) r w h =
        let answer = attempt_candidate g c (x ∷ xs) true w in
        continued v (tried g c (x ∷ xs) r answer) (try_candidates g host cs)
          (try_candidates-HasOutcome v host cs)
          (tried-Goes c (x ∷ xs) r answer v (attempt_candidate-Tells g complete c (x ∷ xs) true w)
            h)

    as_attempt-Tells :
        (work : List PullRequest) (answer : Result SyncError Attempt)
        → TellsIfOpen g work answer
        → Tells work (as_attempt g answer)
    as_attempt-Tells work (ok a) tells = tells
    as_attempt-Tells work (err e) tells = first-Tells g work e

    forget-Goes :
        (key : RepositoryKey) (v : PullRequest) (next : Next g)
        → Goes v next
        → Goes v (forget g key next)
    forget-Goes key v ((r, none), w) h = h
    forget-Goes key v ((r, some work), w) h = h

    with_cached-Goes :
        (key : RepositoryKey) (work : List PullRequest) (r : SyncResult) (o : Option Candidate)
        (w : W) (v : PullRequest)
        → HasOutcome r v ⊎ In v work
        → Goes v (with_cached g key work r o w)
    unfolding with_cached
    with_cached-Goes key work r none w v h = h
    with_cached-Goes key work r (some c) w v h =
        let answer = attempt_candidate g c work false w in
        let tells =
          as_attempt-Tells work answer.0 (attempt_candidate-Tells g complete c work false w) in
        forget-Goes key v _ (merged-Goes c work r (as_attempt g answer.0) answer.1 v tells h)

    -- An outcome for the pull request, or the error of the cache, which ends the run.
    abbrev pub Settles :
        RepositoryKey → W → PullRequest → Result SyncError (SyncResult × W) → Type 0
    Settles key w v (ok (r, w')) = HasOutcome r v
    Settles key w v (err e) = g.get_cached key w ≡ err e

    abbrev GoesOn : RepositoryKey → W → PullRequest → Result SyncError (Next g) → Type 0
    GoesOn key w v (ok next) = Goes v next
    GoesOn key w v (err e) = g.get_cached key w ≡ err e

    from_cache-GoesOn :
        (key : RepositoryKey) (work : List PullRequest) (cs : List Candidate) (r : SyncResult)
        (w : W) (v : PullRequest) (o : Result SyncError (Option Str))
        → g.get_cached key w ≡ o
        → In v work
        → GoesOn key w v (from_cache g key work cs r w o)
    unfolding from_cache
    from_cache-GoesOn key work cs r w v (err e) h m = h
    from_cache-GoesOn key work cs r w v (ok none) h m = inr m
    from_cache-GoesOn key work cs r w v (ok (some id)) h m =
        with_cached-Goes key work r (candidate_by_id cs id) w v (inr m)

    try_cached_repository-GoesOn :
        (key : RepositoryKey) (work : List PullRequest) (cs : List Candidate) (r : SyncResult)
        (w : W) (v : PullRequest)
        → In v work
        → GoesOn key w v (try_cached_repository g key work cs r w)
    unfolding try_cached_repository
    try_cached_repository-GoesOn key work cs r w v m =
        from_cache-GoesOn key work cs r w v (g.get_cached key w) refl m

    with_cache-Settles :
        (key : RepositoryKey) (cs : List Candidate) (w : W) (v : PullRequest)
        (o : Result SyncError (Next g))
        → GoesOn key w v o
        → Settles key w v (elim o [
          | err e ↦ err e
          | ok next ↦ ok (go_on_with g (try_candidates g key.host cs) next)
        ])
    with_cache-Settles key cs w v (err e) h = h
    with_cache-Settles key cs w v (ok next) h =
        continued v next (try_candidates g key.host cs) (try_candidates-HasOutcome v key.host cs) h

    with_candidates-Settles :
        (key : RepositoryKey) (values : List PullRequest) (cs : List Candidate) (w : W)
        (v : PullRequest)
        → In v values
        → Settles key w v (with_candidates g key values cs w)
    unfolding with_candidates
    with_candidates-Settles key values [] w v m = in_failures (has_key-map _ v values m)
    with_candidates-Settles key values (c ∷ cs) w v m =
        let cached = try_cached_repository-GoesOn key values (c ∷ cs) (no_results g) w v m in
        in_both (Settles key w v) g.has_cache (with_cache-Settles key (c ∷ cs) w v _ cached)
          (try_candidates-HasOutcome v key.host (c ∷ cs) values (no_results g) w (inr m))

    -- If a batch without an error answers for everything that it was asked for, every pull request of a
    -- repository ends with an outcome: what GitHub gave, a part of it, or an error, whichever
    -- candidates there are and however they fail. Only an error of the cache ends a run without one.
    pub sync_repository-Settles :
        (key : RepositoryKey) (values : List PullRequest) (w : W) (v : PullRequest)
        → In v values
        → Settles key w v (sync_repository g key values w)
    unfolding sync_repository
    sync_repository-Settles key values w v m =
        with_candidates-Settles key values (g.candidates key.host w) w v m

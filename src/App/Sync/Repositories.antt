-- ===== src/App/Sync/Repositories.antt =====
-- internal/app/github_sync.go: `syncRepository`, with the credential that is cached for a repository.
use next_now_x.Prelude.{
  Str, List, [], ◌∷◌, true, false, if◌then◌else◌, Option, none, some, Result, ok, err, map,
}
use next_now_x.Domain.Models.{PullRequest}
use next_now_x.App.Sync.{
  SyncError, RepositoryKey, Candidate, SyncResult, Attempt, is_fallback_class, is_unauthorized,
  other, work_after_failure, add_remaining_failures, add_unavailable_failures,
  merge_candidate_attempt, candidate_by_id,
}
use next_now_x.App.Sync.Candidates.{GitHub, no_attempt, attempt_candidate}

module _ {W : Type 0} (g : GitHub W) where
  abbrev pub marked : Candidate → SyncError → W → W
  marked candidate e w = if is_unauthorized e.class then g.mark_unauthorized candidate.id w else w

  -- What an attempt leaves: the result so far, and the work that goes on, `none` if it is over.
  abbrev pub Next : Type 0
  Next = (SyncResult × Option (List PullRequest)) × W

  unfoldable pub judged :
      Candidate → List PullRequest → SyncResult → Attempt → Option SyncError → W → Next
  judged candidate work r a none w = ((record r { auth_id = candidate.id }, none), w)
  judged candidate work r a (some e) w =
      if is_fallback_class e.class
      then ((r, some (work_after_failure work a.failed_at)), marked candidate e w)
      else (
        (record r { failures = add_remaining_failures r.failures work a.failed_at e }, none),
        marked candidate e w,
      )

  -- One round of the loop of `syncRepository`.
  unfoldable pub tried :
      Candidate → List PullRequest → SyncResult → Result SyncError Attempt × W → Next
  unfolding judged
  tried candidate work r (err e, w) =
      if is_fallback_class e.class then ((r, some work), marked candidate e w) else (
        (record r { failures = add_remaining_failures r.failures work (some 0) e }, none),
        marked candidate e w,
      )
  tried candidate work r (ok a, w) = judged candidate work (merge_candidate_attempt r a) a a.error w

  -- The error of `addUnavailableFailures`.
  abbrev pub unavailable : Str → SyncError
  unavailable host = record { class = other; text = g.no_usable_method host }

  abbrev pub give_up : Str → List PullRequest → SyncResult → SyncResult
  give_up host work r = record r {
    failures = add_unavailable_failures r.failures work (unavailable host);
  }

  -- What is left goes on, unless the round was the last one.
  abbrev pub go_on_with :
      (List PullRequest → SyncResult → W → SyncResult × W) → Next → SyncResult × W
  go_on_with rest ((r, none), w) = (r, w)
  go_on_with rest ((r, some work), w) = rest work r w

  -- The loop of `syncRepository`.
  unfoldable pub try_candidates :
      Str → List Candidate → List PullRequest → SyncResult → W → SyncResult × W
  unfolding tried attempt_candidate
  try_candidates host cs [] r w = (r, w)
  try_candidates host [] (v ∷ vs) r w = (give_up host (v ∷ vs) r, w)
  try_candidates host (c ∷ cs) (v ∷ vs) r w =
      go_on_with (try_candidates host cs)
        (tried c (v ∷ vs) r (attempt_candidate g c (v ∷ vs) true w))

  -- A cached credential that does not open counts as an attempt that fails at the first one.
  abbrev pub as_attempt : Result SyncError Attempt → Attempt
  as_attempt (ok a) = a
  as_attempt (err e) = record (no_attempt g) { failed_at = some 0; error = some e }

  abbrev pub forget : RepositoryKey → Next → Next
  forget key (x, w) = elim x.1 [ none ↦ (x, w) | some _ ↦ (x, g.delete_cached key w) ]

  -- `tryCachedRepository`, from the test for the cached candidate on.
  unfoldable pub with_cached :
      RepositoryKey → List PullRequest → SyncResult → Option Candidate → W → Next
  unfolding attempt_candidate judged
  with_cached key work r none w = ((r, some work), g.delete_cached key w)
  with_cached key work r (some c) w =
      let (answer, w') = attempt_candidate g c work false w in
      let a = as_attempt answer in
      forget key (judged c work (merge_candidate_attempt r a) a a.error w')

  -- `tryCachedRepository`, from the answer of the cache on.
  unfoldable pub from_cache :
      RepositoryKey
      → List PullRequest
      → List Candidate
      → SyncResult
      → W
      → Result SyncError (Option Str)
      → Result SyncError Next
  unfolding with_cached
  from_cache key work candidates r w (err e) = err e
  from_cache key work candidates r w (ok none) = ok ((r, some work), w)
  from_cache key work candidates r w (ok (some id)) =
      ok (with_cached key work r (candidate_by_id candidates id) w)

  -- `tryCachedRepository`.
  unfoldable pub try_cached_repository :
      RepositoryKey → List PullRequest → List Candidate → SyncResult → W → Result SyncError Next
  unfolding from_cache
  try_cached_repository key work candidates r w =
      from_cache key work candidates r w (g.get_cached key w)

  abbrev pub no_results : SyncResult
  no_results = record { successes = []; partials = []; failures = []; auth_id = [] }

  -- `syncRepository`, from the test for candidates on.
  unfoldable pub with_candidates :
      RepositoryKey → List PullRequest → List Candidate → W → Result SyncError (SyncResult × W)
  unfolding try_candidates try_cached_repository
  with_candidates key values [] w =
      let e : SyncError = record { class = other; text = g.no_method key.host } in
      ok (record no_results { failures = map (λ (v : PullRequest). (v.task_id, e)) values }, w)
  with_candidates key values (c ∷ cs) w =
      if g.has_cache
      then elim (try_cached_repository key values (c ∷ cs) no_results w) [
        | err e ↦ err e
        | ok next ↦ ok (go_on_with (try_candidates key.host (c ∷ cs)) next)
      ]
      else ok (try_candidates key.host (c ∷ cs) values no_results w)

  -- `syncRepository`.
  unfoldable pub sync_repository :
      RepositoryKey → List PullRequest → W → Result SyncError (SyncResult × W)
  unfolding with_candidates
  sync_repository key values w = with_candidates key values (g.candidates key.host w) w

-- ===== src/App/Sync/Candidates.antt =====
-- internal/app/github_sync.go: `attemptCandidate`, an attempt with one credential. `W` is all that
-- changes outside: GitHub, the credentials that were refused, and the cache.
use next_now_x.Prelude.{
  ℕ, suc, Str, ◌++◌, List, [], ◌∷◌, Bool, true, false, not, ◌&&◌, if◌then◌else◌, Option, none, some,
  Result, ok, err, lookup_str,
}
use next_now_x.Domain.Models.{PullRequest}
use next_now_x.App.Sync.{
  length, SyncError, RepositoryKey, Candidate, Batch, Attempt, is_fallback_class, is_not_found,
  unresolved_index, take, missing,
}

-- The resolver, its providers, and the cache of the repository, `none` where there is none.
pub record GitHub (W : Type 0) : Type 0 where
  pub candidates : Str → W → List Candidate
  pub open_provider : Candidate → W → Option SyncError × W
  pub probe : Candidate → (owner repository : Str) → W → Option SyncError × W
  pub fetch_batch : Candidate → List PullRequest → W → (Batch × Option SyncError) × W
  pub mark_unauthorized : Str → W → W
  pub has_cache : Bool
  pub get_cached : RepositoryKey → W → Result SyncError (Option Str)
  pub upsert_cached : RepositoryKey → Str → W → Option SyncError × W
  pub delete_cached : RepositoryKey → W → W
  pub no_method : Str → Str
  pub no_usable_method : Str → Str

-- An entry of a batch, where those with an error are asked for, or the others.
abbrev pub split_entry :
    Option SyncError
    → Bool
    → Str × PullRequest
    → List (Str × PullRequest)
    → List (Str × PullRequest)
split_entry none true entry rest = rest
split_entry none false entry rest = entry ∷ rest
split_entry (some _) true entry rest = entry ∷ rest
split_entry (some _) false entry rest = rest

abbrev pub split_errors :
    List (Str × SyncError) → List (Str × PullRequest) → Bool → List (Str × PullRequest)
split_errors errors [] failed = []
split_errors errors ((id, v) ∷ m) failed =
    split_entry (lookup_str id errors) failed (id, v) (split_errors errors m failed)

-- What the loop over the pull requests that the batch resolved has so far.
pub record Checks (W : Type 0) : Type 0 where
  pub probed : Bool
  pub failures : List (Str × SyncError)
  pub stopped : Option (ℕ × SyncError)
  pub world : W

module _ {W : Type 0} (g : GitHub W) where
  -- The tests of an error after the probe, if there was one.
  unfoldable pub judge : PullRequest → ℕ → SyncError → Checks W → Checks W
  judge pr index e c =
      if is_not_found e.class && c.probed
      then record c { failures = (pr.task_id, missing pr) ∷ c.failures }
      else if is_fallback_class e.class
      then record c { stopped = some (index, e) }
      else record c { failures = (pr.task_id, e) ∷ c.failures }

  -- The probe has answered.
  unfoldable pub after_probe : PullRequest → ℕ → Option SyncError × W → Checks W → Checks W
  after_probe pr index (none, w) c = record c {
    probed = true;
    failures = (pr.task_id, missing pr) ∷ c.failures;
    world = w;
  }
  after_probe pr index (some e, w) c = judge pr index e (record c { world = w })

  -- The body of the loop, for a pull request with an error.
  unfoldable pub check_error : Candidate → PullRequest → ℕ → SyncError → Checks W → Checks W
  unfolding judge after_probe
  check_error candidate pr index e c =
      if is_not_found e.class && not c.probed
      then after_probe pr index (g.probe candidate pr.owner pr.repository c.world) c
      else judge pr index e c

  -- An item of the loop, which is passed over unless it has an error.
  unfoldable pub check_item : Candidate → Batch → PullRequest → ℕ → Checks W → Checks W
  unfolding check_error lookup_str
  check_item candidate batch pr index c = elim (lookup_str pr.task_id batch.errors) [
    | none ↦ c
    | some e ↦ check_error candidate pr index e c
  ]

  abbrev pub unless_stopped : Option (ℕ × SyncError) → Checks W → Checks W → Checks W
  unless_stopped none c rest = rest
  unless_stopped (some _) c rest = c

  -- The loop, which an error of a fallback class ends.
  unfoldable pub check_items : Candidate → Batch → List PullRequest → ℕ → Checks W → Checks W
  unfolding check_item
  check_items candidate batch [] index c = c
  check_items candidate batch (pr ∷ prs) index c =
      unless_stopped c.stopped c
        (check_items candidate batch prs (suc index) (check_item candidate batch pr index c))

  abbrev pub no_attempt : Attempt
  no_attempt = record {
    successes = [];
    partials = [];
    failures = [];
    failed_at = none;
    error = none;
  }

  abbrev pub resolved : List PullRequest → Batch → Option SyncError → List PullRequest
  resolved values batch none = values
  resolved values batch (some _) = take (unresolved_index values batch) values

  abbrev pub ended :
      List PullRequest → Option SyncError → Attempt → Option (ℕ × SyncError) → Attempt
  ended values batch_error a (some (index, e)) = record a { failed_at = some index; error = some e }
  ended values none a none = a
  ended values (some e) a none = record a { failed_at = some (length values); error = some e }

  -- `attemptCandidate`, from the answer of `FetchBatch` on.
  unfoldable pub fetched :
      Candidate → List PullRequest → Bool → (Batch × Option SyncError) × W → Attempt × W
  unfolding check_items lookup_str unresolved_index
  fetched candidate values probe ((batch, batch_error), w) =
      let tried = resolved values batch batch_error in
      let start : Checks W = record { probed = probe; failures = []; stopped = none; world = w } in
      let checks = check_items candidate batch tried 0 start in
      (
        ended tried batch_error
            (record no_attempt {
              successes = split_errors batch.errors batch.pull_requests false;
              partials =
                  batch.partial_pull_requests ++ split_errors batch.errors batch.pull_requests true;
              failures = checks.failures;
            })
            checks.stopped,
        checks.world,
      )

  -- The probe of the first pull request; there is one wherever the code probes.
  abbrev pub probe_first : Candidate → List PullRequest → W → Option SyncError × W
  probe_first candidate [] w = (none, w)
  probe_first candidate (v ∷ vs) w = g.probe candidate v.owner v.repository w

  -- `attemptCandidate`, from the answer of the probe on.
  unfoldable pub probed : Candidate → List PullRequest → Option SyncError × W → Attempt × W
  unfolding fetched
  probed candidate values (some e, w) =
      (record no_attempt { failed_at = some 0; error = some e }, w)
  probed candidate values (none, w) =
      fetched candidate values true (g.fetch_batch candidate values w)

  -- `attemptCandidate`, from the answer of `Open` on.
  unfoldable pub opened :
      Candidate → List PullRequest → Bool → Option SyncError × W → Result SyncError Attempt × W
  unfolding fetched probed
  opened candidate values probe (some e, w) = (err e, w)
  opened candidate values true (none, w) =
      let (a, w') = probed candidate values (probe_first candidate values w) in (ok a, w')
  opened candidate values false (none, w) =
      let (a, w') = fetched candidate values false (g.fetch_batch candidate values w) in (ok a, w')

  -- `attemptCandidate`.
  unfoldable pub attempt_candidate :
      Candidate → List PullRequest → Bool → W → Result SyncError Attempt × W
  unfolding opened
  attempt_candidate candidate values probe w =
      opened candidate values probe (g.open_provider candidate w)

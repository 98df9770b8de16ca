-- ===== src/App/Sync/Persist.antt =====
-- internal/app/github_sync.go: `persistSyncResult`, which stores what a synchronisation found.
pub mod Accounting
use next_now_x.Prelude.{
  ◌≡◌, refl, sym, ap, subst, ℕ, ◌+◌, List, [], ◌∷◌, ◌++◌, Bool, true, false, Option, none, some,
  Result, ok, err, lookup_str, arith,
}
use next_now_x.Domain.Models.{PullRequest, Time, Error}
use next_now_x.App.Repository.{Repository}
use next_now_x.App.Sync.{SyncResult, sync_failure_value}

-- How a pull request is counted; one that is closed or merged already is not counted.
pub data Verdict : Type 0 where
  updated failed settled : Verdict

abbrev failed_if : Bool → Verdict
failed_if true = failed
failed_if false = settled

abbrev or_current : PullRequest → Option PullRequest → PullRequest
or_current current none = current
or_current current (some partial) = partial

abbrev judged : PullRequest × Bool → PullRequest × Verdict
judged (value, attention) = (value, failed_if attention)

-- What is stored for a pull request whose answer is among the successes or not, and how it is
-- counted.
outcome_for : SyncResult → Time → PullRequest → Option PullRequest → PullRequest × Verdict
unfolding lookup_str sync_failure_value
outcome_for r now current (some value) = (value, updated)
outcome_for r now current none = judged (
    sync_failure_value current (or_current current (lookup_str current.task_id r.partials))
      (lookup_str current.task_id r.failures) now)

outcome : SyncResult → Time → PullRequest → PullRequest × Verdict
unfolding lookup_str outcome_for
outcome r now current = outcome_for r now current (lookup_str current.task_id r.successes)

abbrev pub one_updated : Verdict → ℕ
one_updated updated = 1
one_updated failed = 0
one_updated settled = 0

abbrev pub one_failed : Verdict → ℕ
one_failed updated = 0
one_failed failed = 1
one_failed settled = 0

-- The counts of a run so far, and the error that ended it.
pub record Report : Type 0 where
  pub succeeded : ℕ
  pub failures : ℕ
  pub error : Option Error

module _ {S : Type 0} (repository : Repository S) (now : Time) (r : SyncResult) where
  abbrev written : ℕ → ℕ → S → Result Error PullRequest → S × Report → S × Report
  written a b s (err e) rest = (s, record { succeeded = a; failures = b; error = some e })
  written a b s (ok _) rest = rest

  -- `persistSyncResult`.
  unfoldable pub persist_sync_result : List PullRequest → ℕ → ℕ → S → S × Report
  unfolding outcome
  persist_sync_result [] a b s = (s, record { succeeded = a; failures = b; error = none })
  persist_sync_result (v ∷ vs) a b s =
      let (value, verdict) = outcome r now v in
      let (s', answer) = repository.upsert_pull_request value s in
      written a b s' answer
        (persist_sync_result vs (a + one_updated verdict) (b + one_failed verdict) s')

-- ===== src/App/Sync/Persist/Accounting.antt =====
-- internal/app/github_sync.go: what `persistSyncResult` owes to each pull request of a group, in the
-- words of the comment on it.
use next_now_x.Prelude.{
  ◌≡◌, ◌≢◌, ◌⊎◌, inl, inr, refl, ap, Str, codes, ℕ, ◌+◌, List, [], ◌∷◌, ◌++◌, true, not,
  if◌then◌else◌, Option, none, some, Result, ok, err, lookup_str, arith,
}
use next_now_x.Domain.Models.{PullRequest, PullRequestState, Time, Error}
use next_now_x.App.Repository.{Repository}
use next_now_x.App.Sync.{
  SyncError, SyncResult, sync_failure_value, known_state, terminal_pull_request_state, or_no_result,
}
use next_now_x.App.Sync.Persist.{
  Verdict, updated, failed, settled, failed_if, or_current, judged, outcome, outcome_for,
  one_updated, one_failed, Report, written, persist_sync_result,
}

-- The state to store: the one that is known, or else the one that was stored.
data StateOf (known stored : PullRequestState) : PullRequestState → Type 0 where
  own : known ≢ PullRequestState.unknown → StateOf known stored known
  kept : known ≡ PullRequestState.unknown → StateOf known stored stored

known_state-StateOf : (a b : PullRequestState) → StateOf a b (known_state a b)
known_state-StateOf PullRequestState.opened b = own (λ e. cc)
known_state-StateOf PullRequestState.closed b = own (λ e. cc)
known_state-StateOf PullRequestState.merged b = own (λ e. cc)
known_state-StateOf PullRequestState.unknown b = kept refl

module _ (now : Time) (r : SyncResult) where
  -- What is known without an answer: what GitHub gave in part, or else what was stored.
  data Known (current : PullRequest) : PullRequest → Type 0 where
    in_part :
        (value : PullRequest)
        → lookup_str current.task_id r.partials ≡ some value
        → Known current value
    as_stored : lookup_str current.task_id r.partials ≡ none → Known current current

  data Reason (id : Str) : Str → Type 0 where
    given : (e : SyncError) → lookup_str id r.failures ≡ some e → Reason id e.text
    without :
        lookup_str id r.failures ≡ none
        → Reason id (codes "GitHub synchronization did not produce a result")

  -- What is known, as it is stored: stale, and attempted now.
  abbrev stale_value : PullRequest → PullRequest → PullRequestState → Str → PullRequest
  stale_value current known state text = record known {
    task_id = current.task_id;
    last_synced_at = some now;
    stale = true;
    state = state;
    sync_error = text;
  }

  -- What is to be stored for a pull request, and how it is to be counted.
  data Owed (current : PullRequest) : PullRequest → Verdict → Type 0 where
    fetched :
        (value : PullRequest)
        → lookup_str current.task_id r.successes ≡ some value
        → Owed current value updated
    final :
        (known : PullRequest) (state : PullRequestState)
        → lookup_str current.task_id r.successes ≡ none
        → Known current known
        → StateOf known.state current.state state
        → (state ≡ PullRequestState.closed) ⊎ (state ≡ PullRequestState.merged)
        → Owed current (stale_value current known state []) settled
    unanswered :
        (known : PullRequest) (state : PullRequestState) (text : Str)
        → lookup_str current.task_id r.successes ≡ none
        → Known current known
        → StateOf known.state current.state state
        → (state ≡ PullRequestState.opened) ⊎ (state ≡ PullRequestState.unknown)
        → Reason current.task_id text
        → Owed current (stale_value current known state text) failed

  or_no_result-Reason :
      (id : Str) (f : Option SyncError)
      → lookup_str id r.failures ≡ f
      → Reason id (or_no_result f).text
  or_no_result-Reason id none e = without e
  or_no_result-Reason id (some f) e = given f e

  or_current-Known :
      (current : PullRequest) (p : Option PullRequest)
      → lookup_str current.task_id r.partials ≡ p
      → Known current (or_current current p)
  or_current-Known current none e = as_stored e
  or_current-Known current (some p) e = in_part p e

  stale_value-Owed :
      (current known : PullRequest) (state : PullRequestState) (text : Str)
      → lookup_str current.task_id r.successes ≡ none
      → Known current known
      → StateOf known.state current.state state
      → Reason current.task_id text
      → Owed current
          (stale_value current known state (if terminal_pull_request_state state then [] else text))
          (failed_if (not (terminal_pull_request_state state)))
  stale_value-Owed current known PullRequestState.opened text n k s c =
      unanswered known _ text n k s (inl refl) c
  stale_value-Owed current known PullRequestState.closed text n k s c =
      final known _ n k s (inl refl)
  stale_value-Owed current known PullRequestState.merged text n k s c =
      final known _ n k s (inr refl)
  stale_value-Owed current known PullRequestState.unknown text n k s c =
      unanswered known _ text n k s (inr refl) c

  sync_failure_value-Owed :
      (current known : PullRequest)
      → lookup_str current.task_id r.successes ≡ none
      → Known current known
      → let (value, verdict) =
          judged (sync_failure_value current known (lookup_str current.task_id r.failures) now) in
        Owed current value verdict
  unfolding sync_failure_value
  sync_failure_value-Owed current known n k =
      stale_value-Owed current known (known_state known.state current.state) _ n k
        (known_state-StateOf known.state current.state)
        (or_no_result-Reason current.task_id (lookup_str current.task_id r.failures) refl)

  outcome_for-Owed :
      (current : PullRequest) (o : Option PullRequest)
      → lookup_str current.task_id r.successes ≡ o
      → Owed current (outcome_for r now current o).0 (outcome_for r now current o).1
  unfolding outcome_for
  outcome_for-Owed current (some value) e = fetched value e
  outcome_for-Owed current none e =
      sync_failure_value-Owed current _ e
        (or_current-Known current (lookup_str current.task_id r.partials) refl)

  outcome-Owed :
      (current : PullRequest) → Owed current (outcome r now current).0 (outcome r now current).1
  unfolding outcome
  outcome-Owed current = outcome_for-Owed current (lookup_str current.task_id r.successes) refl

  -- The values and verdicts of these pull requests, one by one.
  abbrev AreOwed : List PullRequest → List (PullRequest × Verdict) → Type 0
  AreOwed [] [] = Unit
  AreOwed (v ∷ vs) ((value, verdict) ∷ es) = Owed v value verdict × AreOwed vs es
  AreOwed _ _ = ⊥

  abbrev count : (Verdict → ℕ) → List (PullRequest × Verdict) → ℕ
  count f [] = 0
  count f ((_, verdict) ∷ es) = f verdict + count f es

  module _ {S : Type 0} (repository : Repository S) where
    -- The values are written one after the other, each with success.
    abbrev AreWritten : List (PullRequest × Verdict) → S → S → Type 0
    AreWritten [] s t = t ≡ s
    AreWritten ((value, _) ∷ es) s t =
        (s' : S) × (u : PullRequest) × (repository.upsert_pull_request value s ≡ (s', ok u))
        × AreWritten es s' t

    -- The end of a run: nothing is left, or the write that ended it.
    abbrev Ends : List PullRequest → S → S × Report → Type 0
    Ends [] s (s', report) = (s' ≡ s) × (report.error ≡ none)
    Ends (v ∷ rest) s (s', report) =
        (value : PullRequest) × (verdict : Verdict) × (e : Error) × Owed v value verdict
        × (repository.upsert_pull_request value s ≡ (s', err e))
        × (report.error ≡ some e)

    -- The pull requests that were stored, with what and how counted, and how the run ended.
    pub Accounts : List PullRequest → ℕ → ℕ → S → S × Report → Type 0
    Accounts vs a b s out =
        (done rest : List PullRequest) × (entries : List (PullRequest × Verdict)) × (t : S) × (vs
          ≡ done ++ rest)
        × AreOwed done entries
        × AreWritten entries s t
        × (out.1.succeeded ≡ a + count one_updated entries)
        × (out.1.failures ≡ b + count one_failed entries)
        × Ends rest t out

    written-Accounts :
        (v : PullRequest) (vs : List PullRequest) (a b : ℕ) (s s' : S) (value : PullRequest)
        (verdict : Verdict) (answer : Result Error PullRequest) (out : S × Report)
        → Owed v value verdict
        → repository.upsert_pull_request value s ≡ (s', answer)
        → Accounts vs (a + one_updated verdict) (b + one_failed verdict) s' out
        → Accounts (v ∷ vs) a b s (written repository now r a b s' answer out)
    unfolding Accounts
    written-Accounts v vs a b s s' value verdict (err e) out o wrote _ = (
      [],
      v ∷ vs,
      [],
      s,
      refl,
      tt,
      refl,
      omega arith,
      omega arith,
      (value, verdict, e, o, wrote, refl),
    )
    written-Accounts v vs a b s s' value verdict (ok u) out o wrote
          (done, rest, es, t, e, owed, all, more, less, ends) =
        (
          v ∷ done,
          rest,
          (value, verdict) ∷ es,
          t,
          ap (λ us. v ∷ us) e,
          (o, owed),
          (s', u, wrote, all),
          omega arith,
          omega arith,
          ends,
        )

    -- A run stores a first part of the group, one by one and each write with success. It stores what
    -- GitHub gave, counted as updated; else what is known (a partial answer, or what was stored, with
    -- the stored state where none is known) as stale and attempted now: without an error and not
    -- counted where it is closed or merged, and otherwise with the text of the failure, or that there
    -- was no result, counted as failed. The counts of the run grow by those of that part, and it ends
    -- with everything stored and no error, or at the first write that fails, with its error.
    pub persist-Accounts :
        (vs : List PullRequest) (a b : ℕ) (s : S)
        → Accounts vs a b s (persist_sync_result repository now r vs a b s)
    unfolding persist_sync_result Accounts
    persist-Accounts [] a b s =
        ([], [], [], s, refl, tt, refl, omega arith, omega arith, (refl, refl))
    persist-Accounts (v ∷ vs) a b s =
        written-Accounts v vs a b s _ _ _ _ _ (outcome-Owed v) refl (persist-Accounts vs _ _ _)

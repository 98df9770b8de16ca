-- ===== src/App/Sync.antt =====
-- internal/app/github_sync.go: the synchronisation of pull requests with GitHub, over what
-- internal/github answers. The maps by task are lists whose newest entry of a key stands first.
pub mod Candidates
pub mod Repositories
pub mod Batches
pub mod Hosts
pub mod Runs
mod Keys
mod Checking
mod Attempts
mod Coverage
mod Fetching
mod HostCoverage
pub mod Persist
mod Tests
use next_now_x.Prelude.{
  ℕ, zero, suc, Str, codes, ◌++◌, str_eq, List, [], ◌∷◌, Bool, true, false, not, ◌&&◌, ◌||◌,
  if◌then◌else◌, ltb, Option, none, some, Result, length, lookup_str, keep,
}
use next_now_x.Domain.Models.{PullRequest, PullRequestState, Time}
use next_now_x.Strings.Space.{trim_space}
use next_now_x.Strings.Case.{to_lower}
use next_now_x.Strings.Decimal.{format_nat}

-- `ErrorClass` of internal/github/errors.go.
pub data ErrorClass : Type 0 where
  auth_unavailable unauthorized permission not_found rate_limit transient other : ErrorClass

-- An error by what `ClassOf` and `Error` give.
pub record SyncError : Type 0 where
  pub class : ErrorClass
  pub text : Str

pub record RepositoryKey : Type 0 where
  pub host : Str
  pub owner : Str
  pub repository : Str

pub record Candidate : Type 0 where
  pub id : Str
  pub host : Str

-- `BatchResult`.
pub record Batch : Type 0 where
  pub pull_requests : List (Str × PullRequest)
  pub partial_pull_requests : List (Str × PullRequest)
  pub errors : List (Str × SyncError)

-- `repositorySyncResult`.
pub record SyncResult : Type 0 where
  pub successes : List (Str × PullRequest)
  pub partials : List (Str × PullRequest)
  pub failures : List (Str × SyncError)
  pub auth_id : Str

-- `candidateAttempt`; the class of the error is that of `error`, and -1 is `none`.
pub record Attempt : Type 0 where
  pub successes : List (Str × PullRequest)
  pub partials : List (Str × PullRequest)
  pub failures : List (Str × SyncError)
  pub failed_at : Option ℕ
  pub error : Option SyncError

-- `isFallbackClass`.
abbrev pub is_fallback_class : ErrorClass → Bool
is_fallback_class auth_unavailable = true
is_fallback_class unauthorized = true
is_fallback_class permission = true
is_fallback_class not_found = true
is_fallback_class rate_limit = false
is_fallback_class transient = false
is_fallback_class other = false

abbrev pub is_unauthorized : ErrorClass → Bool
is_unauthorized unauthorized = true
is_unauthorized _ = false

abbrev pub is_not_found : ErrorClass → Bool
is_not_found not_found = true
is_not_found _ = false

-- `terminalPullRequestState`.
abbrev pub terminal_pull_request_state : PullRequestState → Bool
terminal_pull_request_state PullRequestState.closed = true
terminal_pull_request_state PullRequestState.merged = true
terminal_pull_request_state _ = false

-- The state that is known; the empty text, which is no named state, is treated as `unknown` is.
abbrev pub known_state : PullRequestState → PullRequestState → PullRequestState
known_state PullRequestState.unknown current = current
known_state state current = state

abbrev pub no_result : SyncError
no_result = record { class = other; text = codes "GitHub synchronization did not produce a result" }

abbrev pub or_no_result : Option SyncError → SyncError
or_no_result none = no_result
or_no_result (some e) = e

-- `syncFailureValue`.
unfoldable pub sync_failure_value :
    PullRequest → PullRequest → Option SyncError → Time → PullRequest × Bool
sync_failure_value current partial failure attempted_at =
    let state = known_state partial.state current.state in
    let settled = terminal_pull_request_state state in
    (
      record partial {
        task_id = current.task_id;
        last_synced_at = some attempted_at;
        stale = true;
        state = state;
        sync_error = if settled then [] else (or_no_result failure).text;
      },
      not settled,
    )

abbrev pub has_key {ℓ} : {V : Type ℓ} → Str → List (Str × V) → Bool
has_key k [] = false
has_key k ((j, _) ∷ m) = str_eq j k || has_key k m

-- `unresolvedIndex`.
unfoldable pub unresolved_index : List PullRequest → Batch → ℕ
unfolding str_eq
unresolved_index [] batch = 0
unresolved_index (v ∷ vs) batch =
    let later = suc (unresolved_index vs batch) in
    if has_key v.task_id batch.pull_requests
      || (has_key v.task_id batch.partial_pull_requests || has_key v.task_id batch.errors)
    then later
    else 0

abbrev pub drop : ℕ → List PullRequest → List PullRequest
drop zero vs = vs
drop (suc n) [] = []
drop (suc n) (v ∷ vs) = drop n vs

abbrev pub take : ℕ → List PullRequest → List PullRequest
take zero vs = []
take (suc n) [] = []
take (suc n) (v ∷ vs) = v ∷ take n vs

-- `workAfterFailure`.
abbrev pub work_after_failure : List PullRequest → Option ℕ → List PullRequest
work_after_failure work none = []
work_after_failure work (some n) = if ltb n (length work) then drop n work else []

abbrev pub put_all : SyncError → List PullRequest → List (Str × SyncError) → List (Str × SyncError)
put_all e [] m = m
put_all e (v ∷ vs) m = put_all e vs ((v.task_id, e) ∷ m)

-- `addRemainingFailures`.
abbrev pub add_remaining_failures :
    List (Str × SyncError) → List PullRequest → Option ℕ → SyncError → List (Str × SyncError)
add_remaining_failures m values none e = put_all e values m
add_remaining_failures m values (some n) e =
    put_all e (if ltb n (length values) then drop n values else values) m

-- `addUnavailableFailures`; `e` is the error that names the host.
abbrev pub add_unavailable_failures :
    List (Str × SyncError) → List PullRequest → SyncError → List (Str × SyncError)
add_unavailable_failures m [] e = m
add_unavailable_failures m (v ∷ vs) e =
    add_unavailable_failures (if has_key v.task_id m then m else (v.task_id, e) ∷ m) vs e

-- `mergeCandidateAttempt`.
abbrev pub merge_candidate_attempt : SyncResult → Attempt → SyncResult
merge_candidate_attempt r a = record r {
  successes = a.successes ++ r.successes;
  partials = a.partials ++ r.partials;
  failures = a.failures ++ r.failures;
}

-- `candidateByID`.
abbrev pub candidate_by_id : List Candidate → Str → Option Candidate
candidate_by_id [] id = none
candidate_by_id (c ∷ cs) id = if str_eq c.id id then some c else candidate_by_id cs id

-- The error of a pull request that GitHub does not have.
abbrev pub missing : PullRequest → SyncError
missing pr = record {
  class = other;
  text =
      codes "pull request "
      ++ pr.owner
      ++ codes "/"
      ++ pr.repository
      ++ codes "#"
      ++ format_nat pr.number
      ++ codes " was not found";
}

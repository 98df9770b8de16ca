-- ===== src/App/Sync/Tests.antt =====
-- The theorems on the synchronisation at concrete inputs.
use next_now_x.Prelude.{
  ◌≡◌, ◌↔◌, false, refl, inl, ℕ, ◌+◌, Str, codes, str_eq, List, [], ◌∷◌, ◌++◌, map, ltb,
  if◌then◌else◌, none, some, Result, ok, err, true, lookup_str,
}
use next_now_x.Domain.Models.{PullRequest, PullRequestState, foreign}
use next_now_x.Domain.Fixtures.{one_pull_request, a_pull_request}
use next_now_x.App.Fixtures.{a_repository}
use next_now_x.App.Repository.{Repository}
use next_now_x.App.Sync.{SyncResult, SyncError, ErrorClass, RepositoryKey}
use next_now_x.App.Sync.Hosts.{host_results}
use next_now_x.App.Sync.HostCoverage.{HostSettles, host_results-HostSettles}
use next_now_x.App.Sync.Runs.{
  Row, Event, Spaced, Recorded, acquires, starts, takes, holder, complete, happen_all, takes-Spaced,
  complete-Recorded,
}
use next_now_x.App.Sync.Keys.{has_key-map}
use next_now_x.App.Sync.Attempts.{Answers, refused}
use next_now_x.App.Sync.Coverage.{Settles, sync_repository-Settles}
use next_now_x.App.Sync.Batches.{Requests, empty_batch, fetch_batch, fetch_chunks, fetch_rest_batch}
use next_now_x.App.Sync.Fetching.{fetch_batch-Answers}
use next_now_x.App.Sync.Candidates.{GitHub, attempt_candidate, opened, probed, fetched, check_items}
use next_now_x.App.Sync.Repositories.{sync_repository, with_cached, try_candidates, tried, judged}
use next_now_x.App.Sync.Persist.{persist_sync_result}
use next_now_x.App.Sync.Persist.Accounting.{Accounts, persist-Accounts}

-- The second write fails.
abbrev full_repository : Repository ℕ
full_repository = record a_repository {
  upsert_pull_request = λ pr s. if ltb s 1 then (s + 1, ok pr) else (s, err foreign);
}

abbrev nothing_found : SyncResult
nothing_found = record { successes = []; partials = []; failures = []; auth_id = [] }

persist-Accounts_example :
    Accounts 7 nothing_found full_repository (one_pull_request ++ one_pull_request) 0 0 0 (
      persist_sync_result full_repository 7 nothing_found
        (one_pull_request ++ one_pull_request)
        0
        0
        0)
persist-Accounts_example =
    persist-Accounts 7 nothing_found full_repository (one_pull_request ++ one_pull_request) 0 0 0

abbrev HasAuth : Str → Result SyncError (SyncResult × ℕ) → Type 0
HasAuth id (ok (r, w)) = r.auth_id ≡ id
HasAuth id (err e) = ⊥

abbrev some_error : SyncError
some_error = record { class = ErrorClass.unauthorized; text = codes "401" }

abbrev the_pull_request : PullRequest
the_pull_request = a_pull_request (codes "t1") PullRequestState.opened

abbrev two_pull_requests : List PullRequest
two_pull_requests = the_pull_request ∷ a_pull_request (codes "t2") PullRequestState.opened ∷ []

-- GraphQL answers with an error for each.
abbrev refusing : Requests ℕ
refusing = record {
  fetch_chunk = λ vs w. (
    (record empty_batch { errors = map (λ (v : PullRequest). (v.task_id, some_error)) vs }, none),
    w + 1,
  );
  fetch = λ v w. ((v, none), w);
  status_code = λ e. 401;
}

-- GraphQL fails, REST answers.
abbrev rest_only : Requests ℕ
rest_only = record {
  fetch_chunk = λ vs w. ((empty_batch, some some_error), w + 1);
  fetch = λ v w. ((v, none), w + 1);
  status_code = λ e. 502;
}

-- Two credentials, of which the first does not open.
abbrev a_github : GitHub ℕ
a_github = record {
  candidates = λ host w.
      record { id = codes "env"; host = host } ∷ record { id = codes "cli"; host = host } ∷ [];
  open_provider = λ c w. (if str_eq c.id (codes "env") then some some_error else none, w);
  probe = λ c owner repository w. (none, w);
  fetch_batch = λ c vs w. fetch_batch rest_only vs w;
  mark_unauthorized = λ id w. w + 100;
  has_cache = true;
  get_cached = λ key w. ok (some (codes "env"));
  upsert_cached = λ key id w. (none, w);
  delete_cached = λ key w. w;
  no_method = λ host. [];
  no_usable_method = λ host. [];
}

abbrev a_key : RepositoryKey
a_key = record { host = codes "github.com"; owner = codes "o"; repository = codes "r" }

fetch_batch-Answers_example : Answers two_pull_requests (fetch_batch refusing two_pull_requests 0).0
fetch_batch-Answers_example =
    fetch_batch-Answers refusing (λ vs w v m. refused (has_key-map some_error v vs m))
      two_pull_requests 0

sync_repository-Settles_example :
    Settles a_github
      (λ c vs w. fetch_batch-Answers rest_only (λ us u. tt) vs w)
      a_key
      0
      the_pull_request
      (sync_repository a_github a_key two_pull_requests 0)
sync_repository-Settles_example =
    sync_repository-Settles a_github (λ c vs w. fetch_batch-Answers rest_only (λ us u. tt) vs w)
      a_key two_pull_requests 0 the_pull_request (inl refl)

host_results-HostSettles_example :
    HostSettles a_github the_pull_request
      (host_results a_github (codes "github.com") ((a_key, two_pull_requests) ∷ []) 0)
host_results-HostSettles_example =
    host_results-HostSettles a_github (codes "github.com") ((a_key, two_pull_requests) ∷ []) 0
      the_pull_request (inl refl)

-- The second credential gives what the first did not.
sync_repository_test : HasAuth (codes "cli") (sync_repository a_github a_key two_pull_requests 0)
unfolding sync_repository with_cached try_candidates tried attempt_candidate opened probed fetched
    judged check_items fetch_batch fetch_chunks fetch_rest_batch str_eq lookup_str
sync_repository_test = refl

abbrev new_row : Row
new_row = record {
  run_id = [];
  last_attempt = none;
  last_completed = none;
  succeeded = 0;
  failed = 0;
  run_error = [];
}

-- A run by itself, one that is asked for while it works, and one that comes too early.
abbrev some_events : List Event
some_events =
    acquires (codes "a") 1000 300 ∷ starts (codes "b") 1100 ∷ acquires (codes "c") 1200 300 ∷ []

takes-Spaced_example : Spaced none (takes some_events new_row)
takes-Spaced_example = takes-Spaced some_events new_row

complete-Recorded_example :
    (((complete (codes "a") 1300 3 0 [] (happen_all some_events new_row)).1 ≡ true)
      ↔ (holder [] (takes some_events new_row) ≡ codes "a"))
    × Recorded 1300 3 0 []
        (happen_all some_events new_row)
        (complete (codes "a") 1300 3 0 [] (happen_all some_events new_row))
complete-Recorded_example = complete-Recorded some_events new_row (codes "a") 1300 3 0 []

-- The run that was overtaken does not record its results.
complete_test : (complete (codes "a") 1300 3 0 [] (happen_all some_events new_row)).1 ≡ false
unfolding complete happen_all str_eq
complete_test = refl

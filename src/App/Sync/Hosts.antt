-- ===== src/App/Sync/Hosts.antt =====
-- internal/app/github_sync.go: `syncHostBatch`, which asks for the pull requests of all repositories
-- of a host at once, and the credentials that the cache has for them.
use next_now_x.Prelude.{
  Str, List, [], ◌∷◌, ◌++◌, Bool, true, false, if◌then◌else◌, Option, none, some, Result, ok, err,
  lookup_str,
}
use next_now_x.Domain.Models.{PullRequest}
use next_now_x.App.Sync.{
  SyncError, RepositoryKey, Candidate, Batch, SyncResult, is_fallback_class, no_result,
  add_remaining_failures, add_unavailable_failures,
}
use next_now_x.App.Sync.Candidates.{GitHub}
use next_now_x.App.Sync.Repositories.{marked, unavailable, no_results}

-- The repositories of a host, each with its pull requests.
abbrev pub Groups : Type 0
Groups = List (RepositoryKey × List PullRequest)

-- `work` and `keyByTask`, of which the newest entry of a task stands first.
abbrev pub work_of : Groups → List PullRequest
work_of [] = []
work_of ((key, values) ∷ groups) = values ++ work_of groups

abbrev pub put_keys :
    RepositoryKey → List PullRequest → List (Str × RepositoryKey) → List (Str × RepositoryKey)
put_keys key [] m = m
put_keys key (v ∷ vs) m = put_keys key vs ((v.task_id, key) ∷ m)

abbrev pub keys_by_task : Groups → List (Str × RepositoryKey) → List (Str × RepositoryKey)
keys_by_task [] m = m
keys_by_task ((key, values) ∷ groups) m = keys_by_task groups (put_keys key values m)

-- A missing key reads as the empty one.
abbrev pub or_no_key : Option RepositoryKey → RepositoryKey
or_no_key none = record { host = []; owner = []; repository = [] }
or_no_key (some key) = key

-- What a batch has for a pull request.
pub record Item : Type 0 where
  pub updated : Option PullRequest
  pub partial : Option PullRequest
  pub error : Option SyncError

-- The result so far, and what is left for the next candidate.
pub record Sorting : Type 0 where
  pub result : SyncResult
  pub next : List PullRequest

abbrev pub put_partial : Str → Option PullRequest → SyncResult → SyncResult
put_partial id none r = r
put_partial id (some v) r = record r { partials = (id, v) ∷ r.partials }

-- A pull request that the batch has with an error counts as a partial one.
abbrev pub partial_of : Item → Option PullRequest
partial_of item = elim item.error [ none ↦ none | some _ ↦ item.updated ]

-- Without an error of its own, a pull request has one only if the batch has none.
abbrev pub item_error : Option SyncError → Option SyncError → Option SyncError
item_error (some e) batch_error = some e
item_error none none = some no_result
item_error none (some _) = none

abbrev pub sorted : PullRequest → Option SyncError → Sorting → Sorting
sorted v none st = record st { next = st.next ++ v ∷ [] }
sorted v (some e) st =
    if is_fallback_class e.class
    then record st { next = st.next ++ v ∷ [] }
    else record st { result = record st.result { failures = (v.task_id, e) ∷ st.result.failures } }

-- A pull request that did not succeed.
unfoldable pub unsettled : PullRequest → Option SyncError → Item → Sorting → Sorting
unsettled v batch_error item st = sorted v (item_error item.error batch_error) (record st {
  result = put_partial v.task_id item.partial (put_partial v.task_id (partial_of item) st.result);
})

module _ {W : Type 0} (g : GitHub W) where
  -- `UpsertGitHubRepositoryAuthCache`, where there is a cache.
  abbrev pub cache_candidate : RepositoryKey → Candidate → W → Option SyncError × W
  cache_candidate key c w = if g.has_cache then g.upsert_cached key c.id w else (none, w)

  abbrev pub succeeded :
      PullRequest → PullRequest → Sorting → Option SyncError × W → Result SyncError Sorting × W
  succeeded v value st (some e, w) = (err e, w)
  succeeded v value st (none, w) = (
    ok (record st {
      result = record st.result { successes = (v.task_id, value) ∷ st.result.successes };
    }),
    w,
  )

  -- The body of the loop over the work, by the error and the value that the batch has.
  unfoldable pub sort_by :
      Candidate
      → (Str → RepositoryKey)
      → PullRequest
      → Option SyncError
      → Item
      → Sorting
      → W
      → (error : Option SyncError) → (updated : Option PullRequest) → Result SyncError Sorting × W
  unfolding unsettled
  sort_by c key_of v batch_error item st w none (some value) =
      succeeded v value st (cache_candidate (key_of v.task_id) c w)
  sort_by c key_of v batch_error item st w none none = (ok (unsettled v batch_error item st), w)
  sort_by c key_of v batch_error item st w (some _) _ = (ok (unsettled v batch_error item st), w)

  abbrev pub sort_item :
      Candidate
      → (Str → RepositoryKey)
      → PullRequest
      → Option SyncError
      → Item
      → Sorting
      → W
      → Result SyncError Sorting × W
  sort_item c key_of v batch_error item st w =
      sort_by c key_of v batch_error item st w item.error item.updated

  abbrev pub item_of : Batch → PullRequest → Item
  item_of batch v = record {
    updated = lookup_str v.task_id batch.pull_requests;
    partial = lookup_str v.task_id batch.partial_pull_requests;
    error = lookup_str v.task_id batch.errors;
  }

  abbrev pub and_then {ℓ} :
      {A : Type 0} {B : Type ℓ}
      → Result SyncError A × W
      → (A → W → Result SyncError B × W)
      → Result SyncError B × W
  and_then (err e, w) f = (err e, w)
  and_then (ok a, w) f = f a w

  unfoldable pub sort_items :
      Candidate
      → (Str → RepositoryKey)
      → Batch × Option SyncError
      → List PullRequest
      → Sorting
      → W
      → Result SyncError Sorting × W
  unfolding sort_by lookup_str
  sort_items c key_of answer [] st w = (ok st, w)
  sort_items c key_of (batch, batch_error) (v ∷ vs) st w =
      and_then (sort_item c key_of v batch_error (item_of batch v) st w)
        (sort_items c key_of (batch, batch_error) vs)

  -- After the loop over the work: the work that goes on, and the result.
  abbrev pub after_batch : Candidate → Option SyncError → Sorting → W → Sorting × W
  after_batch c none st w = (st, w)
  after_batch c (some e) st w = if is_fallback_class e.class then (st, marked g c e w) else (
    record {
      result = record st.result {
        failures = add_remaining_failures st.result.failures st.next (some 0) e;
      };
      next = [];
    },
    marked g c e w,
  )

  abbrev pub asked :
      Candidate
      → (Str → RepositoryKey)
      → List PullRequest
      → SyncResult
      → (Batch × Option SyncError) × W
      → Result SyncError Sorting × W
  asked c key_of work r (answer, w) =
      and_then (sort_items c key_of answer work (record { result = r; next = [] }) w)
        (λ st w. let (st', w') = after_batch c answer.1 st w in (ok st', w'))

  -- One round of the loop over the candidates.
  unfoldable pub ask :
      Candidate
      → (Str → RepositoryKey)
      → List PullRequest
      → SyncResult
      → Option SyncError × W
      → Result SyncError Sorting × W
  unfolding sort_items
  ask c key_of work r (none, w) = asked c key_of work r (g.fetch_batch c work w)
  ask c key_of work r (some e, w) = (
    ok (
        if is_fallback_class e.class then record { result = r; next = work } else record {
          result = record r { failures = add_remaining_failures r.failures work (some 0) e };
          next = [];
        }),
    marked g c e w,
  )

  -- The loop over the candidates, which no work ends.
  unfoldable pub ask_all :
      List Candidate
      → (Str → RepositoryKey)
      → List PullRequest
      → SyncResult
      → W
      → Result SyncError Sorting × W
  unfolding ask
  ask_all cs key_of [] r w = (ok (record { result = r; next = [] }), w)
  ask_all [] key_of (v ∷ vs) r w = (ok (record { result = r; next = v ∷ vs }), w)
  ask_all (c ∷ cs) key_of (v ∷ vs) r w =
      and_then (ask c key_of (v ∷ vs) r (g.open_provider c w))
        (λ st w. ask_all cs key_of st.next st.result w)

  -- What no candidate answered for.
  abbrev pub finish_host : Str → Result SyncError Sorting × W → Result SyncError SyncResult × W
  finish_host host (err e, w) = (err e, w)
  finish_host host (ok st, w) = (
    ok (record st.result {
      failures = add_unavailable_failures st.result.failures st.next (unavailable g host);
    }),
    w,
  )

  -- `syncHostBatch` up to what it stores, for groups of which the first has the host.
  unfoldable pub host_results : Str → Groups → W → Result SyncError SyncResult × W
  unfolding ask_all lookup_str
  host_results host groups w =
      let keys = keys_by_task groups [] in
      let key_of : Str → RepositoryKey = λ id. or_no_key (lookup_str id keys) in
      finish_host host (ask_all (g.candidates host w) key_of (work_of groups) (no_results g) w)

  -- `repositoriesHaveCachedAuth`.
  abbrev pub repositories_have_cached_auth : List RepositoryKey → W → Bool
  repositories_have_cached_auth [] w = false
  repositories_have_cached_auth (key ∷ keys) w =
      if g.has_cache
      then elim (g.get_cached key w) [
        | err _ ↦ true
        | ok (some _) ↦ true
        | ok none ↦ repositories_have_cached_auth keys w
      ]
      else false

-- ===== src/App/Sync/Batches.antt =====
-- internal/github/graphql.go: `FetchBatch`, which asks by GraphQL in chunks and by REST where the
-- host refuses that. How one chunk and one pull request are asked for are parameters.
use next_now_x.Prelude.{
  ℕ, zero, suc, Str, List, [], ◌∷◌, ◌++◌, if◌then◌else◌, leb, Option, none, some, length,
}
use next_now_x.Domain.Models.{PullRequest}
use next_now_x.App.Sync.{SyncError, Batch, take, drop}

-- The requests of a provider: a chunk by GraphQL, one pull request by REST, and the HTTP status of an
-- error.
pub record Requests (W : Type 0) : Type 0 where
  pub fetch_chunk : List PullRequest → W → (Batch × Option SyncError) × W
  pub fetch : PullRequest → W → (PullRequest × Option SyncError) × W
  pub status_code : SyncError → ℕ

-- `graphQLBatchSize`.
abbrev pub batch_size : ℕ
batch_size = 20

abbrev pub empty_batch : Batch
empty_batch = record { pull_requests = []; partial_pull_requests = []; errors = [] }

-- The loops that copy a chunk into the result.
abbrev pub merge_chunk : Batch → Batch → Batch
merge_chunk batch chunk = record {
  pull_requests = chunk.pull_requests ++ batch.pull_requests;
  partial_pull_requests = chunk.partial_pull_requests ++ batch.partial_pull_requests;
  errors = chunk.errors ++ batch.errors;
}

-- A pull request that was asked for by REST.
abbrev pub add_fetched : Str → PullRequest × Option SyncError → Batch → Batch
add_fetched id (v, none) batch = record batch { pull_requests = (id, v) ∷ batch.pull_requests }
add_fetched id (v, some e) batch = record batch {
  partial_pull_requests = (id, v) ∷ batch.partial_pull_requests;
  errors = (id, e) ∷ batch.errors;
}

module _ {W : Type 0} (q : Requests W) where
  -- `fetchRESTBatch`.
  unfoldable pub fetch_rest_batch : List PullRequest → Batch → W → (Batch × Option SyncError) × W
  fetch_rest_batch [] batch w = ((batch, none), w)
  fetch_rest_batch (v ∷ vs) batch w =
      let (answer, w') = q.fetch v w in fetch_rest_batch vs (add_fetched v.task_id answer batch) w'

  -- What follows the answer for a chunk: the next ones, REST for everything, or the end.
  abbrev pub after_chunk :
      List PullRequest
      → Batch
      → (Batch × Option SyncError) × W
      → (Batch → W → (Batch × Option SyncError) × W)
      → (Batch × Option SyncError) × W
  after_chunk current batch ((chunk, none), w) rest = rest (merge_chunk batch chunk) w
  after_chunk current batch ((chunk, some e), w) rest =
      if leb 400 (q.status_code e)
      then fetch_rest_batch current empty_batch w
      else ((batch, some e), w)

  -- The loop of `FetchBatch` over what is left of the pull requests, on fuel.
  unfoldable pub fetch_chunks :
      ℕ → List PullRequest → List PullRequest → Batch → W → (Batch × Option SyncError) × W
  unfolding fetch_rest_batch
  fetch_chunks fuel current [] batch w = ((batch, none), w)
  fetch_chunks zero current (v ∷ vs) batch w = ((batch, none), w)
  fetch_chunks (suc fuel) current (v ∷ vs) batch w =
      after_chunk current batch (q.fetch_chunk (take batch_size (v ∷ vs)) w)
        (fetch_chunks fuel current (drop batch_size (v ∷ vs)))

  -- `FetchBatch`. A round takes at least one pull request, so that fuel for each is enough.
  unfoldable pub fetch_batch : List PullRequest → W → (Batch × Option SyncError) × W
  unfolding fetch_chunks
  fetch_batch current w = fetch_chunks (length current) current current empty_batch w

-- ===== src/App/Sync/Fetching.antt =====
-- internal/github/graphql.go: a batch that `FetchBatch` returns without an error answers for
-- everything that it was asked for.
use next_now_x.Prelude.{
  refl, subst, ◌⊎◌, inl, inr, ℕ, zero, suc, ◌≤◌, Str, str_eq_refl, List, [], ◌∷◌, Bool-cases,
  Option, none, some, length, In, arith, leb,
}
use next_now_x.Domain.Models.{PullRequest}
use next_now_x.App.Sync.{SyncError, Batch, take, drop}
use next_now_x.App.Sync.Keys.{has_key-append, In-take_drop}
use next_now_x.App.Sync.Attempts.{IsAnswered, whole, part, refused, Answers}
use next_now_x.App.Sync.Batches.{
  Requests, batch_size, empty_batch, merge_chunk, add_fetched, fetch_rest_batch, after_chunk,
  fetch_chunks, fetch_batch,
}

-- The pull request is answered for, unless the batch has an error.
abbrev IsAnsweredBy : PullRequest → Batch × Option SyncError → Type 0
IsAnsweredBy v (batch, none) = IsAnswered batch v
IsAnsweredBy v (batch, some _) = Unit

length-drop-le : (n : ℕ) (vs : List PullRequest) → length (drop n vs) ≤ length vs
length-drop-le zero vs = omega arith
length-drop-le (suc n) [] = omega arith
length-drop-le (suc n) (v ∷ vs) = omega (arith, length-drop-le n vs)

merged-old :
    (batch chunk : Batch) (v : PullRequest)
    → IsAnswered batch v
    → IsAnswered (merge_chunk batch chunk) v
merged-old batch chunk v (whole h) = whole (rw has_key-append (ground arith))
merged-old batch chunk v (part h) = part (rw has_key-append (ground arith))
merged-old batch chunk v (refused h) = refused (rw has_key-append (ground arith))

merged-new :
    (batch chunk : Batch) (v : PullRequest)
    → IsAnswered chunk v
    → IsAnswered (merge_chunk batch chunk) v
merged-new batch chunk v (whole h) = whole (rw (has_key-append, h) refl)
merged-new batch chunk v (part h) = part (rw (has_key-append, h) refl)
merged-new batch chunk v (refused h) = refused (rw (has_key-append, h) refl)

added-old :
    (id : Str) (answer : PullRequest × Option SyncError) (batch : Batch) (v : PullRequest)
    → IsAnswered batch v
    → IsAnswered (add_fetched id answer batch) v
added-old id (u, none) batch v (whole h) = whole (ground arith)
added-old id (u, none) batch v (part h) = part h
added-old id (u, none) batch v (refused h) = refused h
added-old id (u, some e) batch v (whole h) = whole h
added-old id (u, some e) batch v (part h) = part (ground arith)
added-old id (u, some e) batch v (refused h) = refused (ground arith)

added-new :
    (answer : PullRequest × Option SyncError) (batch : Batch) (v : PullRequest)
    → IsAnswered (add_fetched v.task_id answer batch) v
added-new (u, none) batch v = whole (rw str_eq_refl refl)
added-new (u, some e) batch v = part (rw str_eq_refl refl)

module _ {W : Type 0} (q : Requests W) where
  fetch_rest_batch-IsAnswered :
      (v : PullRequest) (vs : List PullRequest) (batch : Batch) (w : W)
      → IsAnswered batch v ⊎ In v vs
      → IsAnsweredBy v (fetch_rest_batch q vs batch w).0
  unfolding fetch_rest_batch
  fetch_rest_batch-IsAnswered v [] batch w (inl h) = h
  fetch_rest_batch-IsAnswered v [] batch w (inr m) = absurd m
  fetch_rest_batch-IsAnswered v (x ∷ vs) batch w h = fetch_rest_batch-IsAnswered v vs _ _ (next h)
    where
      next :
          IsAnswered batch v ⊎ In v (x ∷ vs)
          → IsAnswered (add_fetched x.task_id (q.fetch x w).0 batch) v ⊎ In v vs
      next (inl h) = inl (added-old x.task_id _ batch v h)
      next (inr (inl m)) = inl (subst (IsAnswered _) m (added-new _ batch x))
      next (inr (inr m)) = inr m

  module _ (complete : (vs : List PullRequest) (w : W) → Answers vs (q.fetch_chunk vs w).0) where
    after_chunk-IsAnswered :
        (v : PullRequest) (current : List PullRequest) (batch : Batch) (vs : List PullRequest)
        (answer : (Batch × Option SyncError) × W)
        (rest : Batch → W → (Batch × Option SyncError) × W)
        → In v current
        → Answers (take batch_size vs) answer.0
        → ((batch : Batch) (w : W)
            → IsAnswered batch v ⊎ In v (drop batch_size vs)
            → IsAnsweredBy v (rest batch w).0)
        → IsAnswered batch v ⊎ In v vs
        → IsAnsweredBy v (after_chunk q current batch answer rest).0
    after_chunk-IsAnswered v current batch vs ((chunk, none), w) rest m all go (inl h) =
        go (merge_chunk batch chunk) w (inl (merged-old batch chunk v h))
    after_chunk-IsAnswered v current batch vs ((chunk, none), w) rest m all go (inr h) =
        elim (In-take_drop v batch_size vs h) [
          | inl h ↦ go (merge_chunk batch chunk) w (inl (merged-new batch chunk v (all v h)))
          | inr h ↦ go (merge_chunk batch chunk) w (inr h)
        ]
    after_chunk-IsAnswered v current batch vs ((chunk, some e), w) rest m all go h =
        elim (Bool-cases (leb 400 (q.status_code e))) [
          | inl f ↦ rw f (fetch_rest_batch-IsAnswered v current empty_batch w (inr m))
          | inr f ↦ rw f tt
        ]

    fetch_chunks-IsAnswered :
        (v : PullRequest) (fuel : ℕ) (current vs : List PullRequest) (batch : Batch) (w : W)
        → length vs ≤ fuel
        → In v current
        → IsAnswered batch v ⊎ In v vs
        → IsAnsweredBy v (fetch_chunks q fuel current vs batch w).0
    unfolding fetch_chunks
    fetch_chunks-IsAnswered v zero current [] batch w l m (inl h) = h
    fetch_chunks-IsAnswered v (suc fuel) current [] batch w l m (inl h) = h
    fetch_chunks-IsAnswered v zero current [] batch w l m (inr h) = absurd h
    fetch_chunks-IsAnswered v (suc fuel) current [] batch w l m (inr h) = absurd h
    fetch_chunks-IsAnswered v zero current (x ∷ vs) batch w l m h = absurd (omega (arith, l))
    fetch_chunks-IsAnswered v (suc fuel) current (x ∷ vs) batch w l m h =
        after_chunk-IsAnswered v current batch (x ∷ vs) _ (fetch_chunks q fuel current (drop 19 vs))
          m (complete (take batch_size (x ∷ vs)) w)
          (λ b u.
            fetch_chunks-IsAnswered v fuel current (drop 19 vs) b u
              (omega (arith, l, length-drop-le 19 vs)) m)
          h

    -- If a chunk without an error answers for everything that it was asked for, so does a batch, however
    -- many chunks it takes, also where it falls back on REST.
    pub fetch_batch-Answers :
        (current : List PullRequest) (w : W) → Answers current (fetch_batch q current w).0
    unfolding fetch_batch
    fetch_batch-Answers current w = all _ (λ v m.
        fetch_chunks-IsAnswered v (length current) current current empty_batch w (omega arith) m
          (inr m))
      where
        all :
            (o : Batch × Option SyncError)
            → ((v : PullRequest) → In v current → IsAnsweredBy v o)
            → Answers current o
        all (batch, none) f = f
        all (batch, some e) f = tt

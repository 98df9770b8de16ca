-- ===== src/App/Sync/HostCoverage.antt =====
-- internal/app/github_sync.go: `syncHostBatch` leaves no pull request without an outcome.
use next_now_x.Prelude.{
  ◌≡◌, refl, subst, ◌⊎◌, inl, inr, Str, str_eq_refl, List, [], ◌∷◌, ◌++◌, Bool, true, false,
  if◌then◌else◌, Bool-cases, Option, none, some, Result, ok, err, In, In-append, arith,
}
use next_now_x.Domain.Models.{PullRequest}
use next_now_x.App.Sync.{SyncError, RepositoryKey, Candidate, Batch, SyncResult, is_fallback_class}
use next_now_x.App.Sync.Keys.{In-work_after_failure}
use next_now_x.App.Sync.Attempts.{in_successes, in_partials, in_failures}
use next_now_x.App.Sync.Coverage.{HasOutcome, ending-Goes, give_up-HasOutcome}
use next_now_x.App.Sync.Candidates.{GitHub}
use next_now_x.App.Sync.Repositories.{no_results}
use next_now_x.App.Sync.Hosts.{
  Groups, work_of, Item, Sorting, put_partial, partial_of, item_error, sorted, unsettled,
  cache_candidate, succeeded, sort_by, sort_item, item_of, and_then, sort_items, after_batch, asked,
  ask, ask_all, finish_host, host_results,
}

-- The pull request has an outcome, or is left for the next candidate.
abbrev Held : PullRequest → Sorting → Type 0
Held v st = HasOutcome st.result v ⊎ In v st.next

put_partial-HasOutcome :
    (id : Str) (o : Option PullRequest) (r : SyncResult) (v : PullRequest)
    → HasOutcome r v
    → HasOutcome (put_partial id o r) v
put_partial-HasOutcome id none r v h = h
put_partial-HasOutcome id (some u) r v (in_successes h) = in_successes h
put_partial-HasOutcome id (some u) r v (in_partials h) = in_partials (ground arith)
put_partial-HasOutcome id (some u) r v (in_failures h) = in_failures h

failed-HasOutcome :
    (x : PullRequest) (e : SyncError) (r : SyncResult) (v : PullRequest)
    → HasOutcome r v
    → HasOutcome (record r { failures = (x.task_id, e) ∷ r.failures }) v
failed-HasOutcome x e r v (in_successes h) = in_successes h
failed-HasOutcome x e r v (in_partials h) = in_partials h
failed-HasOutcome x e r v (in_failures h) = in_failures (ground arith)

put_success-HasOutcome :
    (x value : PullRequest) (r : SyncResult) (v : PullRequest)
    → HasOutcome r v
    → HasOutcome (record r { successes = (x.task_id, value) ∷ r.successes }) v
put_success-HasOutcome x value r v (in_successes h) = in_successes (ground arith)
put_success-HasOutcome x value r v (in_partials h) = in_partials h
put_success-HasOutcome x value r v (in_failures h) = in_failures h

left-Held :
    (x : PullRequest) (st : Sorting) (v : PullRequest)
    → Held v st ⊎ (x ≡ v)
    → Held v (record st { next = st.next ++ x ∷ [] })
left-Held x st v (inl (inl h)) = inl h
left-Held x st v (inl (inr m)) = inr ((In-append v st.next (x ∷ [])).1 (inl m))
left-Held x st v (inr e) = inr ((In-append v st.next (x ∷ [])).1 (inr (inl e)))

abbrev with_failure : PullRequest → SyncError → Sorting → Sorting
with_failure x e st = record st {
  result = record st.result { failures = (x.task_id, e) ∷ st.result.failures };
}

sorted-Held :
    (x : PullRequest) (o : Option SyncError) (st : Sorting) (v : PullRequest)
    → Held v st ⊎ (x ≡ v)
    → Held v (sorted x o st)
sorted-Held x none st v h = left-Held x st v h
sorted-Held x (some e) st v h = elim (Bool-cases (is_fallback_class e.class)) [
  | inl f ↦ rw f (left-Held x st v h)
  | inr f ↦ rw f (by_failure h)
]
  where
    by_failure : Held v st ⊎ (x ≡ v) → Held v (with_failure x e st)
    by_failure (inl (inl h)) = inl (failed-HasOutcome x e st.result v h)
    by_failure (inl (inr m)) = inr m
    by_failure (inr h) =
        inl (subst (HasOutcome (with_failure x e st).result) h (in_failures (rw str_eq_refl refl)))

unsettled-Held :
    (x : PullRequest) (o : Option SyncError) (item : Item) (st : Sorting) (v : PullRequest)
    → Held v st ⊎ (x ≡ v)
    → Held v (unsettled x o item st)
unfolding unsettled
unsettled-Held x o item st v h = sorted-Held x (item_error item.error o) _ v (elim h [
  | inl (inl h) ↦ inl (
      inl (
        put_partial-HasOutcome x.task_id item.partial _ v
          (put_partial-HasOutcome x.task_id (partial_of item) st.result v h)))
  | inl (inr m) ↦ inl (inr m)
  | inr e ↦ inr e
])

module _ {W : Type 0} (g : GitHub W) where
  -- A write of the cache fails with this error.
  abbrev pub CacheFails : SyncError → Type 0
  CacheFails e =
      (key : RepositoryKey) × (id : Str) × (w : W) × ((g.upsert_cached key id w).0 ≡ some e)

  -- An error of the cache, which ends everything, or the pull request is held.
  abbrev IsHeld : PullRequest → Result SyncError Sorting × W → Type 0
  IsHeld v (ok st, w) = Held v st
  IsHeld v (err e, w) = CacheFails e

  succeeded-IsHeld :
      (x value : PullRequest) (st : Sorting) (answer : Option SyncError × W) (v : PullRequest)
      → ((e : SyncError) → answer.0 ≡ some e → CacheFails e)
      → Held v st ⊎ (x ≡ v)
      → IsHeld v (succeeded g x value st answer)
  succeeded-IsHeld x value st (some e, w) v fails h = fails e refl
  succeeded-IsHeld x value st (none, w) v fails (inl (inl h)) =
      inl (put_success-HasOutcome x value st.result v h)
  succeeded-IsHeld x value st (none, w) v fails (inl (inr m)) = inr m
  succeeded-IsHeld x value st (none, w) v fails (inr e) = inl (
      subst (HasOutcome (record st.result { successes = (x.task_id, value) ∷ st.result.successes }))
        e (in_successes (rw str_eq_refl refl)))

  cache_candidate-CacheFails :
      (key : RepositoryKey) (c : Candidate) (w : W) (e : SyncError)
      → (cache_candidate g key c w).0 ≡ some e
      → CacheFails e
  cache_candidate-CacheFails key c w e h = by_cache g.has_cache h
    where
      by_cache :
          (b : Bool)
          → (if b then g.upsert_cached key c.id w else (none, w)).0 ≡ some e
          → CacheFails e
      by_cache true h = (key, c.id, w, h)
      by_cache false h = cc

  sort_by-IsHeld :
      (c : Candidate) (key_of : Str → RepositoryKey) (x : PullRequest) (o : Option SyncError)
      (item : Item) (st : Sorting) (w : W) (error : Option SyncError) (updated : Option PullRequest)
      (v : PullRequest)
      → Held v st ⊎ (x ≡ v)
      → IsHeld v (sort_by g c key_of x o item st w error updated)
  unfolding sort_by
  sort_by-IsHeld c key_of x o item st w none none v h = unsettled-Held x o item st v h
  sort_by-IsHeld c key_of x o item st w none (some value) v h =
      succeeded-IsHeld x value st (cache_candidate g (key_of x.task_id) c w) v
        (cache_candidate-CacheFails (key_of x.task_id) c w) h
  sort_by-IsHeld c key_of x o item st w (some e) none v h = unsettled-Held x o item st v h
  sort_by-IsHeld c key_of x o item st w (some e) (some value) v h = unsettled-Held x o item st v h

  abbrev Reaches : PullRequest → List PullRequest → Result SyncError Sorting × W → Type 0
  Reaches v vs (ok st, w) = Held v st ⊎ In v vs
  Reaches v vs (err e, w) = CacheFails e

  held-Reaches :
      (v : PullRequest) (vs : List PullRequest) (o : Result SyncError Sorting × W)
      → IsHeld v o
      → Reaches v vs o
  held-Reaches v vs (ok st, w) h = inl h
  held-Reaches v vs (err e, w) h = h

  later-Reaches :
      (x v : PullRequest) (vs : List PullRequest) (o : Result SyncError Sorting × W)
      → IsHeld x o
      → In v vs
      → Reaches v vs o
  later-Reaches x v vs (ok st, w) h m = inr m
  later-Reaches x v vs (err e, w) h m = h

  and_then-IsHeld :
      (v : PullRequest) (vs : List PullRequest) (first : Result SyncError Sorting × W)
      (f : Sorting → W → Result SyncError Sorting × W)
      → ((st : Sorting) (w : W) → Held v st ⊎ In v vs → IsHeld v (f st w))
      → Reaches v vs first
      → IsHeld v (and_then g first f)
  and_then-IsHeld v vs (ok st, w) f go h = go st w h
  and_then-IsHeld v vs (err e, w) f go h = h

  sort_items-IsHeld :
      (c : Candidate) (key_of : Str → RepositoryKey) (answer : Batch × Option SyncError)
      (vs : List PullRequest) (st : Sorting) (w : W) (v : PullRequest)
      → Held v st ⊎ In v vs
      → IsHeld v (sort_items g c key_of answer vs st w)
  unfolding sort_items
  sort_items-IsHeld c key_of answer [] st w v (inl h) = h
  sort_items-IsHeld c key_of answer [] st w v (inr m) = absurd m
  sort_items-IsHeld c key_of (batch, o) (x ∷ vs) st w v h =
      let item = sort_by-IsHeld c key_of x o (item_of g batch x) st w _ _ in
      and_then-IsHeld v vs (sort_item g c key_of x o (item_of g batch x) st w) _
        (λ st w. sort_items-IsHeld c key_of (batch, o) vs st w v)
        (elim h [
          | inl h ↦ held-Reaches v vs _ (item v (inl h))
          | inr m ↦ elim m [
            | inl e ↦ held-Reaches v vs _ (item v (inr e))
            | inr m ↦ later-Reaches x v vs _ (item x (inr refl)) m
          ]
        ])

  after_batch-Held :
      (c : Candidate) (o : Option SyncError) (st : Sorting) (w : W) (v : PullRequest)
      → Held v st
      → Held v (after_batch g c o st w).0
  after_batch-Held c none st w v h = h
  after_batch-Held c (some e) st w v h = elim (Bool-cases (is_fallback_class e.class)) [
    | inl f ↦ rw f h
    | inr f ↦ rw f (
        inl (
          ending-Goes g st.result v st.next (some 0) e
            (elim h [ inl h ↦ inl h | inr m ↦ inr (In-work_after_failure v 0 st.next m) ])))
  ]

  asked-IsHeld :
      (c : Candidate) (key_of : Str → RepositoryKey) (work : List PullRequest) (r : SyncResult)
      (answer : (Batch × Option SyncError) × W) (v : PullRequest)
      → HasOutcome r v ⊎ In v work
      → IsHeld v (asked g c key_of work r answer)
  asked-IsHeld c key_of work r (answer, w) v h =
      let start : Sorting = record { result = r; next = [] } in
      and_then-IsHeld v [] (sort_items g c key_of answer work start w) _
        (λ st w h. after_batch-Held c answer.1 st w v (elim h [ inl h ↦ h | inr m ↦ absurd m ]))
        (held-Reaches v [] _ (
          sort_items-IsHeld c key_of answer work start w v
            (elim h [ inl h ↦ inl (inl h) | inr m ↦ inr m ])))

  ask-IsHeld :
      (c : Candidate) (key_of : Str → RepositoryKey) (work : List PullRequest) (r : SyncResult)
      (answer : Option SyncError × W) (v : PullRequest)
      → HasOutcome r v ⊎ In v work
      → IsHeld v (ask g c key_of work r answer)
  unfolding ask
  ask-IsHeld c key_of work r (none, w) v h =
      asked-IsHeld c key_of work r (g.fetch_batch c work w) v h
  ask-IsHeld c key_of work r (some e, w) v h = elim (Bool-cases (is_fallback_class e.class)) [
    | inl f ↦ rw f h
    | inr f ↦ rw f (
        inl (
          ending-Goes g r v work (some 0) e
            (elim h [ inl h ↦ inl h | inr m ↦ inr (In-work_after_failure v 0 work m) ])))
  ]

  ask_all-IsHeld :
      (cs : List Candidate) (key_of : Str → RepositoryKey) (work : List PullRequest)
      (r : SyncResult) (w : W) (v : PullRequest)
      → HasOutcome r v ⊎ In v work
      → IsHeld v (ask_all g cs key_of work r w)
  unfolding ask_all
  ask_all-IsHeld [] key_of [] r w v h = h
  ask_all-IsHeld (c ∷ cs) key_of [] r w v h = h
  ask_all-IsHeld [] key_of (x ∷ xs) r w v h = h
  ask_all-IsHeld (c ∷ cs) key_of (x ∷ xs) r w v h =
      and_then-IsHeld v [] (ask g c key_of (x ∷ xs) r (g.open_provider c w)) _
        (λ st w h.
          ask_all-IsHeld cs key_of st.next st.result w v (elim h [ inl h ↦ h | inr m ↦ absurd m ]))
        (held-Reaches v [] _ (ask-IsHeld c key_of (x ∷ xs) r (g.open_provider c w) v h))

  -- What a host leaves for a pull request.
  abbrev pub HostSettles : PullRequest → Result SyncError SyncResult × W → Type 0
  HostSettles v (ok r, w) = HasOutcome r v
  HostSettles v (err e, w) = CacheFails e

  finished :
      (host : Str) (v : PullRequest) (o : Result SyncError Sorting × W)
      → IsHeld v o
      → HostSettles v (finish_host g host o)
  finished host v (ok st, w) h = give_up-HasOutcome g host st.next st.result v h
  finished host v (err e, w) h = h

  -- Whatever the credentials and the batches do, every pull request of every repository of a host ends
  -- with an outcome, unless a write of the cache fails, whose error is then the
  -- one that is returned.
  pub host_results-HostSettles :
      (host : Str) (groups : Groups) (w : W) (v : PullRequest)
      → In v (work_of groups)
      → HostSettles v (host_results g host groups w)
  unfolding host_results
  host_results-HostSettles host groups w v m =
      finished host v _
        (ask_all-IsHeld (g.candidates host w) _ (work_of groups) (no_results g) w v (inr m))

-- ===== src/App/Sync/Checking.antt =====
-- internal/app/github_sync.go: what the loop of `attemptCandidate` over the errors of a batch leaves.
use next_now_x.Prelude.{
  ◌≡◌, refl, sym, ap, subst, ◌∙◌, inl, inr, ℕ, suc, ◌+◌, ◌<◌, Str, str_eq_refl, List, [], ◌∷◌, Bool,
  true, not, ◌&&◌, Bool-cases, Option, none, some, Option-cases, lookup_str, length, In, arith,
}
use next_now_x.Domain.Models.{PullRequest}
use next_now_x.App.Sync.{
  SyncError, Candidate, Batch, has_key, take, is_not_found, is_fallback_class, missing,
}
use next_now_x.App.Sync.Keys.{has_key-lookup_str}
use next_now_x.App.Sync.Candidates.{
  GitHub, Checks, unless_stopped, judge, after_probe, check_error, check_item, check_items,
}

module _ {W : Type 0} (g : GitHub W) where
  -- A pull request is checked: it has its failure, or the loop is stopped at it. What failed before
  -- stays.
  data Checked (id : Str) (index : ℕ) (d : Checks W) : Type 0 where
    went_on : d.stopped ≡ none → has_key id d.failures ≡ true → Checked id index d
    halted_at : (e : SyncError) → d.stopped ≡ some (index, e) → Checked id index d

  abbrev Keeps : Checks W → Checks W → Type 0
  Keeps c d = (k : Str) → has_key k c.failures ≡ true → has_key k d.failures ≡ true

  abbrev Step : PullRequest → ℕ → Checks W → Checks W → Type 0
  Step pr index c d = Checked pr.task_id index d × Keeps c d

  added :
      (pr : PullRequest) (index : ℕ) (e : SyncError) (p : Bool) (w : W) (c : Checks W)
      → c.stopped ≡ none
      → Step pr index c
          (record c { probed = p; failures = (pr.task_id, e) ∷ c.failures; world = w })
  added pr index e p w c h = (went_on h (rw str_eq_refl refl), λ k m. ground arith)

  judge-Step :
      (pr : PullRequest) (index : ℕ) (e : SyncError) (c : Checks W)
      → c.stopped ≡ none
      → Step pr index c (judge g pr index e c)
  unfolding judge
  judge-Step pr index e c h = elim (Bool-cases (is_not_found e.class && c.probed)) [
    | inl t ↦ rw t (added pr index (missing pr) c.probed c.world c h)
    | inr t ↦ rw t (elim (Bool-cases (is_fallback_class e.class)) [
      | inl f ↦ rw f (halted_at e refl, λ k m. m)
      | inr f ↦ rw f (added pr index e c.probed c.world c h)
    ])
  ]

  after_probe-Step :
      (pr : PullRequest) (index : ℕ) (answer : Option SyncError × W) (c : Checks W)
      → c.stopped ≡ none
      → Step pr index c (after_probe g pr index answer c)
  unfolding after_probe
  after_probe-Step pr index (none, w) c h = added pr index (missing pr) true w c h
  after_probe-Step pr index (some e, w) c h = judge-Step pr index e (record c { world = w }) h

  check_error-Step :
      (candidate : Candidate) (pr : PullRequest) (index : ℕ) (e : SyncError) (c : Checks W)
      → c.stopped ≡ none
      → Step pr index c (check_error g candidate pr index e c)
  unfolding check_error
  check_error-Step candidate pr index e c h =
      elim (Bool-cases (is_not_found e.class && not c.probed)) [
        | inl t ↦ rw t (after_probe-Step pr index _ c h)
        | inr t ↦ rw t (judge-Step pr index e c h)
      ]

  abbrev HasErrors : Batch → List PullRequest → Checks W → Type 0
  HasErrors batch prs d =
      (v : PullRequest)
      → In v prs
      → has_key v.task_id batch.errors ≡ true
      → has_key v.task_id d.failures ≡ true

  -- The loop: it went through, or stopped at one of the pull requests. Those that it passed have
  -- their failures.
  pub data Ran (batch : Batch) (prs : List PullRequest) (index : ℕ) (d : Checks W) : Type 0 where
    through : d.stopped ≡ none → HasErrors batch prs d → Ran batch prs index d
    halted :
        (k : ℕ)
        → (e : SyncError) → d.stopped ≡ some (index + k, e)
        → k < length prs
        → HasErrors batch (take k prs) d
        → Ran batch prs index d

  -- An item without an error leaves everything as it is.
  data Item (batch : Batch) (pr : PullRequest) (index : ℕ) (d : Checks W) : Type 0 where
    passed :
        d.stopped ≡ none
        → (has_key pr.task_id batch.errors ≡ true → has_key pr.task_id d.failures ≡ true)
        → Item batch pr index d
    stopped_at : (e : SyncError) → d.stopped ≡ some (index, e) → Item batch pr index d

  check_item-Item :
      (candidate : Candidate) (batch : Batch) (pr : PullRequest) (index : ℕ) (c : Checks W)
      → c.stopped ≡ none
      → Item batch pr index (check_item g candidate batch pr index c)
        × Keeps c (check_item g candidate batch pr index c)
  unfolding check_item
  check_item-Item candidate batch pr index c h =
      elim (Option-cases (lookup_str pr.task_id batch.errors)) [
        | inl n ↦
            rw (n, check_item)
              (
                passed h (λ m. let (e, s) = has_key-lookup_str pr.task_id batch.errors m in cc),
                λ k m. m,
              )
        | inr (e, s) ↦ rw (s, check_item) (by_step e (check_error-Step candidate pr index e c h))
      ]
    where
      by_step :
          (e : SyncError)
          → Step pr index c (check_error g candidate pr index e c)
          → Item batch pr index (check_error g candidate pr index e c)
            × Keeps c (check_error g candidate pr index e c)
      by_step e (went_on s f, keeps) = (passed s (λ _. f), keeps)
      by_step e (halted_at e' s, keeps) = (stopped_at e' s, keeps)

  check_items-stopped :
      (candidate : Candidate) (batch : Batch) (prs : List PullRequest) (index : ℕ) (c : Checks W)
      (x : ℕ × SyncError)
      → c.stopped ≡ some x
      → check_items g candidate batch prs index c ≡ c
  unfolding check_items
  check_items-stopped candidate batch [] index c x h = refl
  check_items-stopped candidate batch (pr ∷ prs) index c x h =
      let d = check_item g candidate batch pr index c in
      ap (λ o. unless_stopped g o c (check_items g candidate batch prs (suc index) d)) h

  pub check_items-Ran :
      (candidate : Candidate) (batch : Batch) (prs : List PullRequest) (index : ℕ) (c : Checks W)
      → c.stopped ≡ none
      → Ran batch prs index (check_items g candidate batch prs index c)
        × Keeps c (check_items g candidate batch prs index c)
  unfolding check_items
  check_items-Ran candidate batch [] index c h = (through h (λ v m. absurd m), λ k m. m)
  check_items-Ran candidate batch (pr ∷ prs) index c h =
      let rest = check_items-Ran candidate batch prs (suc index) in
      let d = check_item g candidate batch pr index c in
      let e = check_items g candidate batch prs (suc index) d in
      let same = ap (λ o. unless_stopped g o c e) h in
      subst (λ d. Ran batch (pr ∷ prs) index d × Keeps c d) (sym same)
        (by_item d (check_item-Item candidate batch pr index c h) rest)
    where
      also :
          (prs : List PullRequest) (d : Checks W)
          → HasErrors batch prs d
          → (has_key pr.task_id batch.errors ≡ true → has_key pr.task_id d.failures ≡ true)
          → HasErrors batch (pr ∷ prs) d
      also prs d all f v (inl m) =
          subst
            (λ (v : PullRequest).
              has_key v.task_id batch.errors ≡ true → has_key v.task_id d.failures ≡ true)
            m f
      also prs d all f v (inr m) = all v m

      extended :
          (d : Checks W)
          → Ran batch prs (suc index) d
          → (has_key pr.task_id batch.errors ≡ true → has_key pr.task_id d.failures ≡ true)
          → Ran batch (pr ∷ prs) index d
      extended d (through s all) f = through s (also prs d all f)
      extended d (halted k e s l all) f =
          halted (suc k) e (s ∙ ap (λ i. some (i, e)) (omega arith)) (omega arith)
            (also (take k prs) d all f)

      by_item :
          (d : Checks W)
          → Item batch pr index d × Keeps c d
          → ((c : Checks W)
              → c.stopped ≡ none
              → Ran batch prs (suc index) (check_items g candidate batch prs (suc index) c)
                × Keeps c (check_items g candidate batch prs (suc index) c))
          → Ran batch (pr ∷ prs) index (check_items g candidate batch prs (suc index) d)
            × Keeps c (check_items g candidate batch prs (suc index) d)
      by_item d (passed s f, keeps) rest =
          let (ran, more) = rest d s in
          (extended _ ran (λ m. more _ (f m)), λ k m. more k (keeps k m))
      by_item d (stopped_at e s, keeps) rest =
          rw (check_items-stopped candidate batch prs (suc index) d (index, e) s) (
            halted 0 e (s ∙ ap (λ i. some (i, e)) (omega arith)) (omega arith) (λ v m. absurd m),
            keeps,
          )

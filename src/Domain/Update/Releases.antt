-- ===== src/Domain/Update/Releases.antt =====
-- `NewerReleases` of internal/domain/update.go: which releases it gives, and in which order.
use next_now_x.Prelude.{
  ℕ, zero, suc, ◌≤◌, ◌≡◌, ◌↔◌, ◌⊎◌, inl, inr, Str, List, [], ◌∷◌, true, false, keep, length, In,
  All, In-keep, Bool-cases, arith,
}
use next_now_x.Domain.Update.{
  Semver, IsOrder, ReleaseNote, canonical_version, is_candidate, is_newer_release, insert_release,
  sort_releases, take, newer_releases, max_update_releases,
}

module _ (v : Semver) where
  In-insert_release :
      (a r : ReleaseNote) (ts : List ReleaseNote)
      → In a (insert_release v r ts) ↔ ((r ≡ a) ⊎ In a ts)
  unfolding insert_release
  In-insert_release a r [] = ground arith
  In-insert_release a r (t ∷ ts) = ground (arith, In-insert_release a r ts)

  pub In-sort_releases :
      (a : ReleaseNote) (rs : List ReleaseNote) → In a (sort_releases v rs) ↔ In a rs
  unfolding sort_releases
  In-sort_releases a [] = (λ h. h, λ h. h)
  In-sort_releases a (r ∷ rs) =
      ground (arith, In-insert_release a r (sort_releases v rs), In-sort_releases a rs)

  In-take : (a : ReleaseNote) (n : ℕ) (rs : List ReleaseNote) → In a (take n rs) → In a rs
  In-take a zero rs h = absurd h
  In-take a (suc n) [] h = h
  In-take a (suc n) (r ∷ rs) (inl e) = inl e
  In-take a (suc n) (r ∷ rs) (inr h) = inr (In-take a n rs h)

  length-take : (n : ℕ) (rs : List ReleaseNote) → length (take n rs) ≤ n
  length-take zero rs = omega arith
  length-take (suc n) [] = omega arith
  length-take (suc n) (r ∷ rs) = omega (arith, length-take n rs)

  -- No release is newer than one that stands before it.
  abbrev pub IsDescending : List ReleaseNote → Type 0
  IsDescending [] = Unit
  IsDescending (r ∷ rs) = All (λ t. is_newer_release v t r ≡ false) rs × IsDescending rs

  -- Every release that is given is one of the candidates, and has the version of a release, which is
  -- newer than the current version if that is the version of a release.
  pub newer_releases-In :
      (current : Str) (candidates : List ReleaseNote) (r : ReleaseNote)
      → In r (newer_releases v current candidates)
      → In r candidates × (is_candidate v (canonical_version v current) r ≡ true)
  unfolding newer_releases
  newer_releases-In current candidates r m =
      let p = is_candidate v (canonical_version v current) in
      (In-keep p r candidates).0 (
        (In-sort_releases r (keep p candidates)).0
          (In-take r max_update_releases (sort_releases v (keep p candidates)) m))

  module _ (order : IsOrder v) where
    All-insert :
        (P : ReleaseNote → Type 0) (r : ReleaseNote) (ts : List ReleaseNote)
        → P r
        → All P ts
        → All P (insert_release v r ts)
    unfolding insert_release
    All-insert P r [] p h = (p, tt)
    All-insert P r (t ∷ ts) p h = elim (Bool-cases (is_newer_release v t r)) [
      | inl e ↦ rw e (h.0, All-insert P r ts p h.1)
      | inr e ↦ rw e (p, h)
    ]

    All-older :
        (r t : ReleaseNote) (ts : List ReleaseNote)
        → is_newer_release v t r ≡ false
        → All (λ u. is_newer_release v u t ≡ false) ts
        → All (λ u. is_newer_release v u r ≡ false) ts
    All-older r t [] e h = tt
    All-older r t (u ∷ ts) e h = (
      order.trans (canonical_version v r.version) (canonical_version v t.version)
          (canonical_version v u.version) e h.0,
      All-older r t ts e h.1,
    )

    insert-IsDescending :
        (r : ReleaseNote) (ts : List ReleaseNote)
        → IsDescending ts
        → IsDescending (insert_release v r ts)
    unfolding insert_release
    insert-IsDescending r [] d = (tt, tt)
    insert-IsDescending r (t ∷ ts) d = elim (Bool-cases (is_newer_release v t r)) [
      | inl e ↦ rw e (
        All-insert (λ u. is_newer_release v u t ≡ false) r ts
            (order.asym (canonical_version v t.version) (canonical_version v r.version) e) d.0,
        insert-IsDescending r ts d.1,
      )
      | inr e ↦ rw e ((e, All-older r t ts e d.0), d)
    ]

    pub sort-IsDescending : (rs : List ReleaseNote) → IsDescending (sort_releases v rs)
    unfolding sort_releases
    sort-IsDescending [] = tt
    sort-IsDescending (r ∷ rs) = insert-IsDescending r (sort_releases v rs) (sort-IsDescending rs)

    All-take :
        (P : ReleaseNote → Type 0) (n : ℕ) (rs : List ReleaseNote) → All P rs → All P (take n rs)
    All-take P zero rs h = tt
    All-take P (suc n) [] h = tt
    All-take P (suc n) (r ∷ rs) h = (h.0, All-take P n rs h.1)

    take-IsDescending : (n : ℕ) (rs : List ReleaseNote) → IsDescending rs → IsDescending (take n rs)
    take-IsDescending zero rs d = tt
    take-IsDescending (suc n) [] d = tt
    take-IsDescending (suc n) (r ∷ rs) d =
        (All-take (λ t. is_newer_release v t r ≡ false) n rs d.0, take-IsDescending n rs d.1)

    -- If `Compare` orders the versions, the releases stand from the newest on, and at most 20 are
    -- given.
    pub newer_releases-IsDescending :
        (current : Str) (candidates : List ReleaseNote)
        → IsDescending (newer_releases v current candidates)
          × (length (newer_releases v current candidates) ≤ 20)
    unfolding newer_releases
    newer_releases-IsDescending current candidates =
        let rs = sort_releases v (keep (is_candidate v (canonical_version v current)) candidates) in
        (
          take-IsDescending max_update_releases rs
              (sort-IsDescending (keep (is_candidate v (canonical_version v current)) candidates)),
          length-take max_update_releases rs,
        )

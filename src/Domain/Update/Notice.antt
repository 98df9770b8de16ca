-- ===== src/Domain/Update/Notice.antt =====
-- `NewUpdateStatus` of internal/domain/update.go: what is announced.
use next_now_x.Prelude.{
  ◌≡◌, inl, inr, refl, subst, Str, List, [], ◌∷◌, true, false, keep, In, All, In-keep, Bool-cases,
}
use next_now_x.Domain.Update.{
  Semver, IsOrder, ReleaseNote, UpdateStatusInput, UpdateDisabledReason, canonical_version,
  is_candidate, is_newer_release, sort_releases, take, newer_releases, max_update_releases,
  should_notify_update, enabled_status, status_for, new_update_status, is_empty,
}
use next_now_x.Domain.Update.Releases.{In-sort_releases, IsDescending, sort-IsDescending}

module _ (v : Semver) (order : IsOrder v) where
  irreflexive : (a : Str) → v.is_newer a a ≡ false
  irreflexive a = elim (Bool-cases (v.is_newer a a)) [ inl e ↦ order.asym a a e | inr e ↦ e ]

  -- The head of a list that descends.
  latest_of : List ReleaseNote → Str
  latest_of [] = []
  latest_of (r ∷ rs) = r.version

  All-In :
      (P : ReleaseNote → Type 0) (r : ReleaseNote) (rs : List ReleaseNote)
      → All P rs
      → In r rs
      → P r
  All-In P r [] h m = absurd m
  All-In P r (t ∷ rs) h (inl e) = subst P e h.0
  All-In P r (t ∷ rs) h (inr m) = All-In P r rs h.1 m

  head_newest :
      (r t : ReleaseNote) (rs : List ReleaseNote)
      → IsDescending v (t ∷ rs)
      → In r (t ∷ rs)
      → is_newer_release v r t ≡ false
  head_newest r t rs d (inl e) =
      subst (λ (x : ReleaseNote). is_newer_release v x t ≡ false) e
        (irreflexive (canonical_version v t.version))
  head_newest r t rs d (inr m) = All-In (λ u. is_newer_release v u t ≡ false) r rs d.0 m

  -- What is announced of the releases `rs`, whose 20 first ones are kept.
  announced :
      (input : UpdateStatusInput) (r : ReleaseNote) (rs : List ReleaseNote)
      → IsDescending v rs
      → In r rs
      → ((enabled_status v input (take max_update_releases rs)).update_available ≡ true)
        × (v.is_newer (canonical_version v r.version) (
              canonical_version v
                (enabled_status v input (take max_update_releases rs)).latest_version)
            ≡ false)
  unfolding enabled_status
  announced input r [] d m = absurd m
  announced input r (t ∷ rs) d m = (refl, head_newest r t rs d m)

  -- Where updates are enabled and a release is newer than the current version, an update is
  -- available, and no such release is newer than the one that is named as the latest, however many
  -- there are.
  pub new_update_status-latest :
      (input : UpdateStatusInput) (r : ReleaseNote)
      → input.disabled ≡ UpdateDisabledReason.enabled
      → In r input.releases
      → is_candidate v (canonical_version v input.current_version) r ≡ true
      → ((new_update_status v input).update_available ≡ true)
        × (v.is_newer
              (canonical_version v r.version)
              (canonical_version v (new_update_status v input).latest_version)
            ≡ false)
  unfolding new_update_status status_for newer_releases
  new_update_status-latest input r e m c =
      let p = is_candidate v (canonical_version v input.current_version) in
      let rs = sort_releases v (keep p input.releases) in
      rw e (
        announced input r rs (sort-IsDescending v order (keep p input.releases)) (
          (In-sort_releases v r (keep p input.releases)).1 ((In-keep p r input.releases).1 (m, c))))

  abbrev skipping : Str → UpdateStatusInput → UpdateStatusInput
  skipping skipped input = record input { skipped_version = skipped }

  enabled-skipped :
      (input : UpdateStatusInput) (skipped : Str) (rs : List ReleaseNote)
      → is_empty (canonical_version v skipped) ≡ false
      → v.is_newer
          (canonical_version v (enabled_status v input rs).latest_version)
          (canonical_version v skipped)
        ≡ false
      → ((enabled_status v (skipping skipped input) rs).should_notify ≡ false)
        × ((enabled_status v (skipping skipped input) rs).releases
            ≡ (enabled_status v input rs).releases)
  unfolding enabled_status should_notify_update
  enabled-skipped input skipped [] e n = (refl, refl)
  enabled-skipped input skipped (r ∷ rs) e n = (
    elim (Bool-cases (is_empty (canonical_version v r.version))) [
      | inl h ↦ rw h refl
      | inr h ↦ rw (h, e, n) refl
    ],
    refl,
  )

  status-skipped :
      (reason : UpdateDisabledReason) (input : UpdateStatusInput) (skipped : Str)
      → is_empty (canonical_version v skipped) ≡ false
      → v.is_newer
          (canonical_version v (status_for v reason input).latest_version)
          (canonical_version v skipped)
        ≡ false
      → ((status_for v reason (skipping skipped input)).should_notify ≡ false)
        × ((status_for v reason (skipping skipped input)).releases
            ≡ (status_for v reason input).releases)
  unfolding status_for
  status-skipped UpdateDisabledReason.enabled input skipped e n =
      enabled-skipped input skipped (newer_releases v input.current_version input.releases) e n
  status-skipped UpdateDisabledReason.development_build input skipped e n = (refl, refl)
  status-skipped UpdateDisabledReason.demo input skipped e n = (refl, refl)
  status-skipped UpdateDisabledReason.excluded_from_build input skipped e n = (refl, refl)

  -- A version that is skipped is not announced: with the latest version, or an equivalent or newer
  -- one, as the skipped version there is no notice, and the status shows the same releases.
  pub new_update_status-skipped :
      (input : UpdateStatusInput) (skipped : Str)
      → is_empty (canonical_version v skipped) ≡ false
      → v.is_newer
          (canonical_version v (new_update_status v input).latest_version)
          (canonical_version v skipped)
        ≡ false
      → ((new_update_status v (record input { skipped_version = skipped })).should_notify ≡ false)
        × ((new_update_status v (record input { skipped_version = skipped })).releases
            ≡ (new_update_status v input).releases)
  unfolding new_update_status
  new_update_status-skipped input skipped e n = status-skipped input.disabled input skipped e n

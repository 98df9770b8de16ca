-- ===== src/Domain/Update.antt =====
-- internal/domain/update.go: which releases are announced. `golang.org/x/mod/semver` is a parameter.
pub mod Releases
pub mod Notice
use next_now_x.Prelude.{
  ℕ, zero, suc, Str, codes, str_eq, List, [], ◌∷◌, ◌++◌, Option, some, none, Bool, true, false, not,
  ◌&&◌, ◌||◌, keep, if◌then◌else◌, ltb, ◌≡◌,
}
use mathlib.Core.List.{reverse}
use next_now_x.Strings.Space.{trim_space}
use next_now_x.Domain.Models.{Time}

-- `semver.Compare(a, b) > 0` is `is_newer a b`; the code uses no more of the sign.
pub record Semver : Type 0 where
  pub is_valid : Str → Bool
  pub canonical : Str → Str
  pub prerelease : Str → Str
  pub is_newer : Str → Str → Bool

-- `Compare` orders all versions, and equivalent ones may be spelled in different ways.
pub record IsOrder (v : Semver) : Type 0 where
  pub asym : (a b : Str) → v.is_newer a b ≡ true → v.is_newer b a ≡ false
  pub trans :
      (a b c : Str) → v.is_newer b a ≡ false → v.is_newer c b ≡ false → v.is_newer c a ≡ false

pub record ReleaseNote : Type 0 where
  pub version : Str
  pub published_at : Option Time
  pub body : Str
  pub url : Str

pub data UpdateDisabledReason : Type 0 where
  enabled development_build demo excluded_from_build : UpdateDisabledReason

pub record UpdateStatus : Type 0 where
  pub enabled : Bool
  pub disabled_reason : UpdateDisabledReason
  pub current_version : Str
  pub update_available : Bool
  pub should_notify : Bool
  pub latest_version : Str
  pub releases : List ReleaseNote
  pub last_checked_at : Option Time
  pub last_error : Str
  pub skipped_version : Str

pub record UpdateStatusInput : Type 0 where
  pub current_version : Str
  pub disabled : UpdateDisabledReason
  pub releases : List ReleaseNote
  pub skipped_version : Str
  pub last_checked_at : Option Time
  pub last_error : Str

abbrev pub is_empty : Str → Bool
is_empty [] = true
is_empty (_ ∷ _) = false

abbrev has_prefix : Str → Str → Bool
has_prefix [] s = true
has_prefix (p ∷ ps) [] = false
has_prefix (p ∷ ps) (c ∷ s) = str_eq (p ∷ []) (c ∷ []) && has_prefix ps s

-- `IsDevelopmentBuild`: `strings.HasSuffix`, on the reversed texts.
unfoldable is_development_build : Str → Bool
unfolding str_eq
is_development_build version = has_prefix (reverse (codes "-dev")) (reverse version)

-- `UpdateRestartRequired`.
unfoldable update_restart_required : Bool → Bool → Bool → Bool
update_restart_required supported installed running = running && (not supported || not installed)

abbrev pub max_update_releases : ℕ
max_update_releases = 20

abbrev pub take : ℕ → List ReleaseNote → List ReleaseNote
take zero rs = []
take (suc n) [] = []
take (suc n) (r ∷ rs) = r ∷ take n rs

module _ (v : Semver) where
  abbrev tagged : Str → Str
  tagged trimmed = if has_prefix (codes "v") trimmed then trimmed else b'v' ∷ trimmed

  abbrev release_or_none : Str → Str
  release_or_none tag =
      if not (v.is_valid tag)
      then []
      else if not (str_eq (v.canonical tag) tag)
      then []
      else if is_empty (v.prerelease tag)
      then tag
      else []

  trimmed_version : Str → Str
  unfolding str_eq
  trimmed_version [] = []
  trimmed_version (c ∷ s) = release_or_none (tagged (c ∷ s))

  -- `CanonicalVersion`.
  unfoldable pub canonical_version : Str → Str
  unfolding trimmed_version trim_space
  canonical_version value = trimmed_version (trim_space value)

  -- The tests of the loop over the candidates.
  unfoldable pub is_candidate : Str → ReleaseNote → Bool
  unfolding canonical_version
  is_candidate current_version r =
      if is_empty (canonical_version r.version)
      then false
      else if is_empty current_version
      then true
      else v.is_newer (canonical_version r.version) current_version

  abbrev pub is_newer_release : ReleaseNote → ReleaseNote → Bool
  is_newer_release a b = v.is_newer (canonical_version a.version) (canonical_version b.version)

  -- `slices.SortStableFunc`: insertion behind the newer ones only, which keeps the order of equals.
  pub insert_release : ReleaseNote → List ReleaseNote → List ReleaseNote
  insert_release r [] = r ∷ []
  insert_release r (t ∷ ts) =
      let rest = insert_release r ts in if is_newer_release t r then t ∷ rest else r ∷ t ∷ ts

  pub sort_releases : List ReleaseNote → List ReleaseNote
  unfolding insert_release
  sort_releases [] = []
  sort_releases (r ∷ rs) = insert_release r (sort_releases rs)

  -- `NewerReleases`.
  unfoldable pub newer_releases : Str → List ReleaseNote → List ReleaseNote
  unfolding keep is_candidate sort_releases canonical_version
  newer_releases current candidates =
      take max_update_releases
        (sort_releases (keep (is_candidate (canonical_version current)) candidates))

  -- `ShouldNotifyUpdate`.
  pub should_notify_update : Str → Str → Bool
  unfolding canonical_version
  should_notify_update latest skipped =
      if is_empty (canonical_version latest)
      then false
      else if is_empty (canonical_version skipped)
      then true
      else v.is_newer (canonical_version latest) (canonical_version skipped)

  abbrev disabled_status : UpdateStatusInput → UpdateStatus
  disabled_status input = record {
    enabled = false;
    disabled_reason = input.disabled;
    current_version = input.current_version;
    update_available = false;
    should_notify = false;
    latest_version = [];
    releases = [];
    last_checked_at = none;
    last_error = [];
    skipped_version = [];
  }

  abbrev quiet_status : UpdateStatusInput → List ReleaseNote → UpdateStatus
  quiet_status input releases = record {
    enabled = true;
    disabled_reason = UpdateDisabledReason.enabled;
    current_version = input.current_version;
    update_available = false;
    should_notify = false;
    latest_version = [];
    releases = releases;
    last_checked_at = input.last_checked_at;
    last_error = input.last_error;
    skipped_version = input.skipped_version;
  }

  unfoldable pub enabled_status : UpdateStatusInput → List ReleaseNote → UpdateStatus
  unfolding should_notify_update
  enabled_status input [] = quiet_status input []
  enabled_status input (r ∷ rs) = record (quiet_status input (r ∷ rs)) {
    update_available = true;
    latest_version = r.version;
    should_notify = should_notify_update r.version input.skipped_version;
  }

  unfoldable pub status_for : UpdateDisabledReason → UpdateStatusInput → UpdateStatus
  unfolding newer_releases enabled_status
  status_for UpdateDisabledReason.enabled input =
      enabled_status input (newer_releases input.current_version input.releases)
  status_for reason input = disabled_status input

  -- `NewUpdateStatus`.
  unfoldable pub new_update_status : UpdateStatusInput → UpdateStatus
  unfolding status_for
  new_update_status input = status_for input.disabled input

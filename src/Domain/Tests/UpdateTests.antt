-- ===== src/Domain/Tests/UpdateTests.antt =====
-- Runs of the definitions of internal/domain/update.go, and the theorems at concrete inputs. Versions
-- with numbers of one digit are ordered as texts are.
use next_now_x.Prelude.{
  ◌≡◌, refl, inl, inr, ◌⊎◌, Str, codes, str_eq, str_leb, str_leb_total, str_leb_trans, none, List,
  [], ◌∷◌, Bool, true, false, not, arith,
}
use next_now_x.Strings.Space.{trim_space}
use next_now_x.Domain.Update.{
  Semver, IsOrder, ReleaseNote, UpdateStatusInput, UpdateDisabledReason, canonical_version,
  is_candidate, newer_releases, new_update_status,
}
use next_now_x.Domain.Update.Notice.{new_update_status-latest}

abbrev texts : Semver
texts = record {
  is_valid = λ s. true;
  canonical = λ s. s;
  prerelease = λ s. [];
  is_newer = λ a b. not (str_leb a b);
}

texts-IsOrder : IsOrder texts
texts-IsOrder = record {
  asym = λ a b h. asym a b h (str_leb_total a b);
  trans = λ a b c h k. trans a b c h k;
}
  where
    asym :
        (a b : Str)
        → not (str_leb a b) ≡ true
        → (str_leb a b ≡ true) ⊎ (str_leb b a ≡ true)
        → not (str_leb b a) ≡ false
    asym a b h (inl e) = ground (arith, e, h)
    asym a b h (inr e) = rw e refl

    trans :
        (a b c : Str)
        → not (str_leb b a) ≡ false
        → not (str_leb c b) ≡ false
        → not (str_leb c a) ≡ false
    trans a b c h k = rw (str_leb_trans c b a (yes (str_leb c b) k) (yes (str_leb b a) h)) refl
      where
        yes : (b : Bool) → not b ≡ false → b ≡ true
        yes b h = ground arith

abbrev release : Str → ReleaseNote
release version = record { version = version; published_at = none; body = []; url = [] }

abbrev releases : List ReleaseNote
releases =
    release (codes "v1.2.0")
    ∷ release (codes "1.4.0")
    ∷ release (codes "v1.3.0")
    ∷ release (codes "v1.1.0")
    ∷ []

abbrev input : UpdateStatusInput
input = record {
  current_version = codes "v1.2.0";
  disabled = UpdateDisabledReason.enabled;
  releases = releases;
  skipped_version = [];
  last_checked_at = none;
  last_error = [];
}

newest_first :
    newer_releases texts (codes "v1.2.0") releases
    ≡ release (codes "1.4.0") ∷ release (codes "v1.3.0") ∷ []
unfolding newer_releases trim_space str_eq str_leb
newest_first = refl

new_update_status-latest_example :
    ((new_update_status texts input).update_available ≡ true)
    × (texts.is_newer
          (canonical_version texts (codes "v1.3.0"))
          (canonical_version texts (new_update_status texts input).latest_version)
        ≡ false)
unfolding is_candidate trim_space str_eq str_leb
new_update_status-latest_example =
    new_update_status-latest texts texts-IsOrder input (release (codes "v1.3.0")) refl
      (inr (inr (inl refl))) refl

-- ===== src/Config/Changes/Apply.antt =====
-- internal/config/config.go: the changes as one type, and what they leave behind.
use next_now_x.Prelude.{
  ◌≡◌, ◌≢◌, refl, Str, str_eq, List, [], Bool, true, false, Option, none, some, Result, ok, err,
  if◌then◌else◌, length, ◌==◌,
}
use next_now_x.Prelude.Int.{ℤ, ltb_ℤ}
use next_now_x.Domain.Models.{TaskLabelOverridesUpdate}
use next_now_x.Prompt.Templates.{Templates}
use next_now_x.Config.{
  TaskLabelOverrides, Failure, config, invalid, references, Host, AuthMethod, Config, Context,
  methods_of, minimum_auto_sync_interval_seconds,
}
use next_now_x.Config.Hosts.{github, normalize_host}
use next_now_x.Config.Port.{parse_server_port}
use next_now_x.Config.Normalize.{normalize}
use next_now_x.Config.Normalize.Normal.{IsNormal, normalize-IsNormal}
use next_now_x.Config.Changes

pub data Change : Type 0 where
  add_host : Host → Change
  update_host : Str → Host → Change
  remove_host : Str → Change
  add_auth_method : AuthMethod → Change
  update_auth_method : Str → AuthMethod → Change
  remove_auth_method : Str → Change
  reorder_auth_methods : List Str → Change
  set_prompts : Templates → Change
  set_language : Str → Change
  set_auto_sync_interval : ℤ → Change
  set_skipped_update_version : Str → Change
  set_server_port : Str → Change
  set_task_label_overrides : TaskLabelOverridesUpdate → Change

module _ (x : Context) where
  unfoldable pub apply : Change → Config → Changes.Outcome
  unfolding Changes.add_host Changes.update_host Changes.remove_host Changes.add_auth_method
      Changes.update_auth_method Changes.remove_auth_method Changes.reorder_auth_methods
      Changes.set_prompts Changes.set_language Changes.set_auto_sync_interval
      Changes.set_skipped_update_version Changes.set_server_port Changes.set_task_label_overrides
  apply (add_host h) c = Changes.add_host x h c
  apply (update_host existing h) c = Changes.update_host x existing h c
  apply (remove_host value) c = Changes.remove_host x value c
  apply (add_auth_method m) c = Changes.add_auth_method x m c
  apply (update_auth_method existing m) c = Changes.update_auth_method x existing m c
  apply (remove_auth_method id) c = Changes.remove_auth_method x id c
  apply (reorder_auth_methods ids) c = Changes.reorder_auth_methods x ids c
  apply (set_prompts t) c = Changes.set_prompts x t c
  apply (set_language value) c = Changes.set_language x value c
  apply (set_auto_sync_interval seconds) c = Changes.set_auto_sync_interval x seconds c
  apply (set_skipped_update_version value) c = Changes.set_skipped_update_version x value c
  apply (set_server_port value) c = Changes.set_server_port x value c
  apply (set_task_label_overrides update) c = Changes.set_task_label_overrides x update c

  -- An outcome with an error, or with settings that `Normalize` made.
  data Settled (o : Changes.Outcome) : Type 0 where
    failed : o.1 ≢ none → Settled o
    settled : (c : Config) → normalize x c ≡ ok o.0 → Settled o

  -- Where the settings are `d` on an error.
  normalized-Settled : (c d : Config) → Settled (Changes.outcome_of d (normalize x c))
  normalized-Settled c d = outcome-Settled (normalize x c) refl
    where
      outcome-Settled :
          (r : Result Failure Config) → normalize x c ≡ r → Settled (Changes.outcome_of d r)
      outcome-Settled (ok _) e = settled c e
      outcome-Settled (err _) h = failed (λ k. cc)

  in_place-Settled : (c : Config) → Settled (Changes.in_place x c)
  unfolding Changes.in_place
  in_place-Settled c = normalized-Settled c c

  failed-Settled : (c : Config) (e : Failure) → Settled (c, some e)
  failed-Settled c e = failed (λ k. cc)

  or_prompts-Settled :
      (p : Templates) (o : Changes.Outcome) → Settled o → Settled (Changes.or_prompts p o)
  or_prompts-Settled p (d, none) s = s
  or_prompts-Settled p (d, some e) s = failed-Settled _ e

  or_settings-Settled :
      (c : Config) (o : Changes.Outcome) → Settled o → Settled (Changes.or_settings c o)
  or_settings-Settled c (d, none) s = s
  or_settings-Settled c (d, some e) s = failed-Settled _ e

  or_skipped-Settled :
      (v : Str) (o : Changes.Outcome) → Settled o → Settled (Changes.or_skipped v o)
  or_skipped-Settled v (d, none) s = s
  or_skipped-Settled v (d, some e) s = failed-Settled _ e

  or_task_labels-Settled :
      (m : Option TaskLabelOverrides) (o : Changes.Outcome)
      → Settled o
      → Settled (Changes.or_task_labels m o)
  or_task_labels-Settled m (d, none) s = s
  or_task_labels-Settled m (d, some e) s = failed-Settled _ e

  removed-Settled : (c : Config) (o : Option (List Host)) → Settled (Changes.removed x c o)
  removed-Settled c none = failed-Settled c _
  removed-Settled c (some hosts) = in_place-Settled _

  changed_methods-Settled :
      (c : Config) (o : Option (List AuthMethod)) → Settled (Changes.changed_methods x c o)
  changed_methods-Settled c none = failed-Settled c _
  changed_methods-Settled c (some ms) = in_place-Settled _

  if-Settled :
      (b : Bool) (o p : Changes.Outcome) → Settled o → Settled p → Settled (if b then o else p)
  if-Settled true o p s t = s
  if-Settled false o p s t = t

  remove_known-Settled :
      (c : Config) (r : Result Failure Str) → Settled (Changes.remove_known x c r)
  remove_known-Settled c (err e) = failed-Settled c e
  remove_known-Settled c (ok host) =
      let left = Changes.replace_first (Changes.is_host host) [] c.github.hosts in
      if-Settled (str_eq host github) (c, some (config invalid)) _
        (failed-Settled c (config invalid))
        (if-Settled (Changes.uses_host host (methods_of c.github)) (c, some (config references))
          (Changes.removed x c left) (failed-Settled c (config references))
          (removed-Settled c left))

  update_found-Settled :
      (value : Host) (existing host : Str) (c : Config) (o : Option (List Host))
      → Settled (Changes.update_found x value existing host c o)
  update_found-Settled value existing host c none = failed-Settled c _
  update_found-Settled value existing host c (some hosts) = normalized-Settled _ c

  with_new_host-Settled :
      (value : Host) (existing : Str) (c : Config) (r : Result Failure Str)
      → Settled (Changes.with_new_host x value existing c r)
  with_new_host-Settled value existing c (err e) = failed-Settled c e
  with_new_host-Settled value existing c (ok host) = update_found-Settled value existing host c _

  found-Settled :
      (value : Host) (existing : Str) (c : Config) (o : Option Host)
      → Settled (Changes.update_if_found x value existing c o)
  found-Settled value existing c none = failed-Settled c _
  found-Settled value existing c (some _) = with_new_host-Settled value existing c _

  update_existing-Settled :
      (value : Host) (c : Config) (r : Result Failure Str)
      → Settled (Changes.update_existing x value c r)
  update_existing-Settled value c (err e) = failed-Settled c e
  update_existing-Settled value c (ok existing) = found-Settled value existing c _

  picked-Settled :
      (c : Config) (r : Result Failure (List AuthMethod)) → Settled (Changes.picked x c r)
  picked-Settled c (err e) = failed-Settled c e
  picked-Settled c (ok ms) = in_place-Settled _

  with_port-Settled : (c : Config) (r : Result Failure ℤ) → Settled (Changes.with_port x c r)
  with_port-Settled c (err e) = failed-Settled c e
  with_port-Settled c (ok p) = in_place-Settled _

  with_labels-Settled :
      (m : Option TaskLabelOverrides) (o : Changes.Outcome) → Settled (Changes.with_labels x m o)
  with_labels-Settled m (c, some e) = failed-Settled c e
  with_labels-Settled m (c, none) = or_task_labels-Settled m _ (in_place-Settled c)

  apply-Settled : (change : Change) (c : Config) → Settled (apply change c)
  unfolding apply
  apply-Settled (add_host h) c = in_place-Settled _
  apply-Settled (update_host existing h) c = update_existing-Settled h c _
  apply-Settled (remove_host value) c = remove_known-Settled c (normalize_host x.url value)
  apply-Settled (add_auth_method m) c = in_place-Settled _
  apply-Settled (update_auth_method existing m) c = changed_methods-Settled c _
  apply-Settled (remove_auth_method id) c = changed_methods-Settled c _
  apply-Settled (reorder_auth_methods ids) c =
      if-Settled (length ids == length (methods_of c.github)) _ _ (picked-Settled c _)
        (failed-Settled c (config invalid))
  apply-Settled (set_prompts t) c = or_prompts-Settled c.prompts _ (in_place-Settled _)
  apply-Settled (set_language value) c = or_settings-Settled c _ (in_place-Settled _)
  apply-Settled (set_auto_sync_interval seconds) c =
      if-Settled (ltb_ℤ seconds minimum_auto_sync_interval_seconds) _ _
        (failed-Settled c (config invalid)) (in_place-Settled _)
  apply-Settled (set_skipped_update_version value) c =
      or_skipped-Settled c.update.skipped_version _ (in_place-Settled _)
  apply-Settled (set_server_port value) c = with_port-Settled c (parse_server_port value)
  apply-Settled (set_task_label_overrides update) c = with_labels-Settled c.task_labels (
      Changes.put_updates c.task_labels update
        (Changes.with_task_labels c (some (Changes.labels_of c.task_labels))))

  -- Whatever the settings were, a change that reports no error leaves settings that are normal.
  pub apply-IsNormal :
      (change : Change) (c : Config) → (apply change c).1 ≡ none → IsNormal x (apply change c).0
  apply-IsNormal change c h = elim (apply-Settled change c) [
    | failed some_error ↦ absurd (some_error h)
    | settled d e ↦ normalize-IsNormal x d (apply change c).0 e
  ]

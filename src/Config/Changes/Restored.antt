-- ===== src/Config/Changes/Restored.antt =====
-- internal/config/config.go: the changes that restore what they have changed when they fail.
use next_now_x.Prelude.{
  ◌≡◌, refl, ap, subst, if◌then◌else◌, Str, List, [], ◌∷◌, Bool, true, false, Option, none, some,
  Result, ok, err,
}
use next_now_x.Domain.Models.{TaskLabelOverrides, TaskLabelOverrideUpdate, TaskLabelOverridesUpdate}
use next_now_x.Domain.Labels.Normal.{unknown_key}
use next_now_x.Prompt.Templates.{Templates, default_templates}
use next_now_x.Strings.Space.{trim_space}
use next_now_x.Strings.Case.{to_lower}
use next_now_x.Config.{Failure, Host, Config, Context, label, effective_language}
use next_now_x.Config.Normalize.{normalize, contains_task_label_key}
use next_now_x.Config.Changes
use next_now_x.Config.Changes.Apply.{
  Change, apply, update_host, set_prompts, set_language, set_skipped_update_version,
  set_task_label_overrides,
}

-- An outcome without an error, or with these settings.
data Left (c : Config) (o : Changes.Outcome) : Type 0 where
  done : o.1 ≡ none → Left c o
  same : o.0 ≡ c → Left c o

-- A round, or rounds, of the loop over the labels: on an error the labels are `previous`, and
-- nothing but the labels has changed in any case.
data Rounds (previous : Option TaskLabelOverrides) (c : Config) (o : Changes.Outcome) : Type 0 where
  went_on :
      (m : Option TaskLabelOverrides)
      → o ≡ (Changes.with_task_labels c m, none)
      → Rounds previous c o
  stopped : (e : Failure) → o ≡ (Changes.with_task_labels c previous, some e) → Rounds previous c o

put_entry-Rounds :
    (previous : Option TaskLabelOverrides) (k text : Str) (c : Config) (r : Result Failure Str)
    → Rounds previous c (Changes.put_entry previous k text c r)
put_entry-Rounds previous k text c (err e) = stopped e refl
put_entry-Rounds previous k text c (ok color) = went_on _ refl

put_color-Rounds :
    (previous : Option TaskLabelOverrides) (k : Str) (item : TaskLabelOverrideUpdate) (c : Config)
    (r : Result Failure Str)
    → Rounds previous c (Changes.put_color previous k item c r)
put_color-Rounds previous k item c (err e) = stopped e refl
put_color-Rounds previous k item c (ok text) = put_entry-Rounds previous k text c _

if-Rounds :
    (previous : Option TaskLabelOverrides) (c : Config) (b : Bool) (o p : Changes.Outcome)
    → Rounds previous c o
    → Rounds previous c p
    → Rounds previous c (if b then o else p)
if-Rounds previous c true o p g h = g
if-Rounds previous c false o p g h = h

put_update-Rounds :
    (previous : Option TaskLabelOverrides) (key : Str) (item : TaskLabelOverrideUpdate) (c : Config)
    → Rounds previous c (Changes.put_update previous key item c)
unfolding Changes.put_update
put_update-Rounds previous key item c =
    if-Rounds previous c (contains_task_label_key (to_lower (trim_space key))) _ _
      (put_color-Rounds previous _ item c _) (stopped (label (unknown_key key)) refl)

or_ended-Rounds :
    (previous : Option TaskLabelOverrides) (c : Config) (o later : Changes.Outcome)
    → Rounds previous c o
    → ((m : Option TaskLabelOverrides)
        → o.0 ≡ Changes.with_task_labels c m
        → Rounds previous (Changes.with_task_labels c m) later)
    → Rounds previous c (Changes.or_ended o later)
or_ended-Rounds previous c (d, some f) later (went_on m h) k = cc
or_ended-Rounds previous c (d, some f) later (stopped e h) k = stopped e h
or_ended-Rounds previous c (d, none) later (stopped e h) k = cc
or_ended-Rounds previous c (d, none) later (went_on m h) k = elim (k m (ap (λ o. o.0) h)) [
  | went_on n g ↦ went_on n g
  | stopped e g ↦ stopped e g
]

put_updates-Rounds :
    (previous : Option TaskLabelOverrides) (update : TaskLabelOverridesUpdate) (c : Config)
    → Rounds previous c (Changes.put_updates previous update c)
unfolding Changes.put_updates
put_updates-Rounds previous [] c = went_on c.task_labels refl
put_updates-Rounds previous ((key, item) ∷ rest) c =
    let round = Changes.put_update previous key item c in
    or_ended-Rounds previous c round _ (put_update-Rounds previous key item c) (λ m e.
      subst (λ d. Rounds previous d (Changes.put_updates previous rest round.0)) e
        (put_updates-Rounds previous rest round.0))

module _ (x : Context) where
  outcome_of-Left : (c : Config) (r : Result Failure Config) → Left c (Changes.outcome_of c r)
  outcome_of-Left c (ok d) = done refl
  outcome_of-Left c (err e) = same refl

  in_place-Left : (c : Config) → Left c (Changes.in_place x c)
  unfolding Changes.in_place
  in_place-Left c = outcome_of-Left c (normalize x c)

  -- Changes that `normalizeInPlace` refuses.
  or_prompts-Left :
      (c : Config) (t : Templates) (o : Changes.Outcome)
      → Left (record c { prompts = t }) o
      → Left c (Changes.or_prompts c.prompts o)
  or_prompts-Left c t (d, none) h = done refl
  or_prompts-Left c t (d, some e) (done h) = cc
  or_prompts-Left c t (d, some e) (same h) =
      same (ap {A = Config} (λ d'. record d' { prompts = c.prompts }) h)

  or_skipped-Left :
      (c : Config) (v : Str) (o : Changes.Outcome)
      → Left (record c { update = record { skipped_version = v } }) o
      → Left c (Changes.or_skipped c.update.skipped_version o)
  or_skipped-Left c v (d, none) h = done refl
  or_skipped-Left c v (d, some e) (done h) = cc
  or_skipped-Left c v (d, some e) (same h) = same (
      ap {A = Config}
        (λ d'. record d' { update = record { skipped_version = c.update.skipped_version } }) h)

  or_settings-Left : (c : Config) (o : Changes.Outcome) → Left c (Changes.or_settings c o)
  or_settings-Left c (d, none) = done refl
  or_settings-Left c (d, some e) = same refl

  or_task_labels-Left :
      (c : Config) (m : Option TaskLabelOverrides) (o : Changes.Outcome)
      → Left (Changes.with_task_labels c m) o
      → Left c (Changes.or_task_labels c.task_labels o)
  or_task_labels-Left c m (d, none) h = done refl
  or_task_labels-Left c m (d, some e) (done h) = cc
  or_task_labels-Left c m (d, some e) (same h) =
      same (ap (λ d'. Changes.with_task_labels d' c.task_labels) h)

  with_labels-Left :
      (c : Config) (m : Option TaskLabelOverrides) (o : Changes.Outcome)
      → Rounds c.task_labels (Changes.with_task_labels c m) o
      → Left c (Changes.with_labels x c.task_labels o)
  with_labels-Left c m (d, some e) (went_on n h) = cc
  with_labels-Left c m (d, some e) (stopped f h) = same (ap (λ o. o.0) h)
  with_labels-Left c m (d, none) (stopped f h) = cc
  with_labels-Left c m (d, none) (went_on n h) =
      or_task_labels-Left c n _
        (subst (λ d'. Left d' (Changes.in_place x d)) (ap (λ o. o.0) h) (in_place-Left d))

  with_new_host-Left :
      (value : Host) (existing : Str) (c : Config) (r : Result Failure Str)
      → Left c (Changes.with_new_host x value existing c r)
  with_new_host-Left value existing c (err e) = same refl
  with_new_host-Left value existing c (ok host) = update_found-Left (
      Changes.replace_first (Changes.is_host existing) (record value { host = host } ∷ [])
        c.github.hosts)
    where
      update_found-Left :
          (o : Option (List Host)) → Left c (Changes.update_found x value existing host c o)
      update_found-Left none = same refl
      update_found-Left (some hosts) = outcome_of-Left c (
          normalize x (record c {
            github = record c.github {
              hosts = hosts;
              auth_methods = Changes.renamed_all existing host c.github.auth_methods;
            };
          }))

  update_existing-Left :
      (value : Host) (c : Config) (r : Result Failure Str)
      → Left c (Changes.update_existing x value c r)
  update_existing-Left value c (err e) = same refl
  update_existing-Left value c (ok existing) = found-Left _
    where
      found-Left : (o : Option Host) → Left c (Changes.update_if_found x value existing c o)
      found-Left none = same refl
      found-Left (some _) = with_new_host-Left value existing c _

  -- The changes that restore what they changed.
  pub data PutsBack : Change → Type 0 where
    of_host : (existing : Str) (h : Host) → PutsBack (update_host existing h)
    of_prompts : (t : Templates) → PutsBack (set_prompts t)
    of_language : (value : Str) → PutsBack (set_language value)
    of_skipped : (value : Str) → PutsBack (set_skipped_update_version value)
    of_labels : (update : TaskLabelOverridesUpdate) → PutsBack (set_task_label_overrides update)

  apply-Left : {change : Change} (p : PutsBack change) (c : Config) → Left c (apply x change c)
  unfolding apply
  apply-Left (of_host existing h) c = update_existing-Left h c _
  apply-Left (of_prompts t) c = or_prompts-Left c t _ (in_place-Left _)
  apply-Left (of_language value) c = or_settings-Left c (
      Changes.in_place x (record c {
        language = value;
        prompts =
            Changes.unset_defaults c.prompts (default_templates (effective_language x c.language));
      }))
  apply-Left (of_skipped value) c = or_skipped-Left c value _ (in_place-Left _)
  apply-Left (of_labels update) c =
      with_labels-Left c _ _ (put_updates-Rounds c.task_labels update _)

  -- A change of a host, of the templates, of the language, of the skipped version or of the labels
  -- that reports an error leaves the settings exactly as they were: also where entries of the labels
  -- had been changed before the entry with the error, or the whole was refused by `Normalize`.
  pub apply-PutsBack :
      {change : Change} (p : PutsBack change) (c : Config) (e : Failure)
      → (apply x change c).1 ≡ some e
      → (apply x change c).0 ≡ c
  apply-PutsBack p c e h = elim (apply-Left p c) [ done none_left ↦ cc | same k ↦ k ]

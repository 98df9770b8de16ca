-- ===== src/Config/Changes.antt =====
-- internal/config/config.go, lines 634 to 972: the methods that read and change the settings. A method
-- on a pointer returns the settings as it leaves them, with its error.
pub mod Apply
pub mod Order
pub mod Restored
use next_now_x.Prelude.{
  ◌≡◌, refl, ◌++◌, ℕ, Str, codes, str_eq, List, [], ◌∷◌, Bool, true, false, not, ◌&&◌, ◌||◌, ◌==◌,
  if◌then◌else◌, Option, none, some, Result, ok, err, ◌>>=◌, ◌>>◌, has_str, map, keep, length,
  arith,
}
use next_now_x.Prelude.Int.{ℤ, pos, negsuc, ltb_ℤ}
use next_now_x.Strings.Space.{trim_space}
use next_now_x.Strings.Case.{to_lower}
use next_now_x.Domain.Models.{
  TaskLabelOverride, TaskLabelOverrides, TaskLabelOverrideUpdate, TaskLabelOverridesUpdate,
}
use next_now_x.Domain.Labels.Normal.{LabelError, unknown_key, normalize_text, normalize_color}
use next_now_x.Prompt.Templates.{Templates, default_templates}
use next_now_x.Config.{
  ErrorCode, invalid, not_found, references, Failure, config, label, Host, AuthMethod, GitHubConfig,
  Config, Context, inline, methods_of, minimum_auto_sync_interval_seconds, effective_language,
}
use next_now_x.Config.Port.{parse_server_port}
use next_now_x.Config.Hosts.{normalize_host, github}
use next_now_x.Config.Normalize.{normalize, require, contains_task_label_key, assign, is_unset}

abbrev pub Outcome : Type 0
Outcome = Config × Option Failure

abbrev with_hosts : Config → List Host → Config
with_hosts c hosts = record c { github = record c.github { hosts = hosts } }

abbrev with_methods : Config → List AuthMethod → Config
with_methods c ms = record c { github = record c.github { auth_methods = some ms } }

unfoldable pub find_host : Str → List Host → Option Host
unfolding str_eq
find_host key [] = none
find_host key (h ∷ hs) = let rest = find_host key hs in if str_eq h.host key then some h else rest

unfoldable pub find_method : Str → List AuthMethod → Option AuthMethod
unfolding str_eq
find_method id [] = none
find_method id (m ∷ ms) = let rest = find_method id ms in if str_eq m.id id then some m else rest

abbrev after {ℓ} : {A : Type ℓ} → A → Option (List A) → Option (List A)
after a none = none
after a (some rest) = some (a ∷ rest)

-- The first element that passes the test is replaced by `new`; `none` if no element passes.
abbrev replace_first {ℓ} : {A : Type ℓ} → (A → Bool) → List A → List A → Option (List A)
replace_first p new [] = none
replace_first p new (a ∷ rest) =
    let later = after a (replace_first p new rest) in if p a then some (new ++ rest) else later

abbrev is_host : Str → Host → Bool
is_host key h = str_eq h.host key

abbrev is_method : Str → AuthMethod → Bool
is_method id m = str_eq m.id id

-- `HostFor`, on the result of `NormalizeHost`.
unfoldable pub host_for : Result Failure Str → List Host → Option Host
unfolding find_host
host_for (ok key) hosts = find_host key hosts
host_for (err _) hosts = none

-- The host of the methods of a renamed host.
abbrev renamed : Str → Str → AuthMethod → AuthMethod
renamed existing host m = if str_eq m.host existing then record m { host = host } else m

abbrev renamed_all : Str → Str → Option (List AuthMethod) → Option (List AuthMethod)
renamed_all existing host none = none
renamed_all existing host (some ms) = some (map (renamed existing host) ms)

-- Whether a method uses the host.
unfoldable pub uses_host : Str → List AuthMethod → Bool
unfolding str_eq
uses_host host [] = false
uses_host host (m ∷ ms) = str_eq m.host host || uses_host host ms

-- The loop of `ReorderAuthMethods`. The map has the last method of an id; ids of settings that
-- `Normalize` accepted are distinct.
abbrev last_or : Str → AuthMethod → Option AuthMethod → Option AuthMethod
last_or id m (some n) = some n
last_or id m none = if str_eq m.id id then some m else none

last_method : Str → List AuthMethod → Option AuthMethod
unfolding str_eq
last_method id [] = none
last_method id (m ∷ ms) = last_or id m (last_method id ms)

abbrev known : Option AuthMethod → Result Failure AuthMethod
known none = err (config invalid)
known (some m) = ok m

unfoldable pub pick : List AuthMethod → List Str → List Str → Result Failure (List AuthMethod)
unfolding last_method has_str
pick ms seen [] = ok []
pick ms seen (id ∷ ids) = do
  m ← known (last_method id ms)
  require (not (has_str id seen))
  rest ← pick ms (id ∷ seen) ids
  ok (m ∷ rest)

abbrev or_unset : Str → Str → Str
or_unset value built_in = if str_eq value built_in then [] else value

-- The templates that are the built-in ones are emptied.
unfoldable pub unset_defaults : Templates → Templates → Templates
unfolding str_eq
unset_defaults t d = record {
  design_text = or_unset t.design_text d.design_text;
  implementation_text = or_unset t.implementation_text d.implementation_text;
  batch_text = or_unset t.batch_text d.batch_text;
  batch_design_text = or_unset t.batch_design_text d.batch_design_text;
}

abbrev label_at : Str → TaskLabelOverrides → TaskLabelOverride
label_at k [] = record { text = []; color = [] }
label_at k ((j, v) ∷ m) = if str_eq j k then v else label_at k m

-- `delete(m, k)`.
abbrev delete : Str → TaskLabelOverrides → TaskLabelOverrides
delete k m = keep (λ e. not (str_eq e.0 k)) m

abbrev of_text : (Str → Result LabelError Str) → Option Str → Str → Result Failure Str
of_text f none current = ok current
of_text f (some s) current = elim (f s) [ ok t ↦ ok t | err e ↦ err (label e) ]

abbrev labels_of : Option TaskLabelOverrides → TaskLabelOverrides
labels_of none = []
labels_of (some m) = m

abbrev outcome_of : Config → Result Failure Config → Outcome
outcome_of c (ok d) = (d, none)
outcome_of c (err e) = (c, some e)

abbrev with_task_labels : Config → Option TaskLabelOverrides → Config
with_task_labels c labels = record c { task_labels = labels }

-- The value of an entry once its color is read: the end of a round of `SetTaskLabelOverrides`.
abbrev put_entry : Option TaskLabelOverrides → Str → Str → Config → Result Failure Str → Outcome
put_entry previous k text c (err e) = (with_task_labels c previous, some e)
put_entry previous k text c (ok color) =
    let v : TaskLabelOverride = record { text = text; color = color } in
    let m = labels_of c.task_labels in
    (with_task_labels c (some (if is_unset v then delete k m else assign k v m)), none)

-- The same round once the text is read.
abbrev put_color :
    Option TaskLabelOverrides
    → Str
    → TaskLabelOverrideUpdate
    → Config
    → Result Failure Str
    → Outcome
put_color previous k item c (err e) = (with_task_labels c previous, some e)
put_color previous k item c (ok text) =
    put_entry previous k text c
      (of_text normalize_color item.color (label_at k (labels_of c.task_labels)).color)

-- The round of one entry. An error puts the labels back from before the loop.
put_update : Option TaskLabelOverrides → Str → TaskLabelOverrideUpdate → Config → Outcome
unfolding normalize_text normalize_color assign keep str_eq contains_task_label_key
put_update previous key item c =
    let k = to_lower (trim_space key) in
    if contains_task_label_key k
    then put_color previous k item c
        (of_text normalize_text item.text (label_at k (labels_of c.task_labels)).text)
    else (with_task_labels c previous, some (label (unknown_key key)))

-- An error ends the loop.
abbrev or_ended : Outcome → Outcome → Outcome
or_ended (c, some e) later = (c, some e)
or_ended (c, none) later = later

-- The loop of `SetTaskLabelOverrides`; the code meets the entries in any order.
put_updates : Option TaskLabelOverrides → TaskLabelOverridesUpdate → Config → Outcome
unfolding put_update
put_updates previous [] c = (c, none)
put_updates previous ((key, item) ∷ rest) c =
    let round = put_update previous key item c in or_ended round (put_updates previous rest round.0)

-- What the methods put back where `normalizeInPlace` reports an error.
abbrev or_prompts : Templates → Outcome → Outcome
or_prompts previous (c, none) = (c, none)
or_prompts previous (c, some e) = (record c { prompts = previous }, some e)

abbrev or_settings : Config → Outcome → Outcome
or_settings previous (c, none) = (c, none)
or_settings previous (c, some e) = (previous, some e)

abbrev or_skipped : Str → Outcome → Outcome
or_skipped previous (c, none) = (c, none)
or_skipped previous (c, some e) =
    (record c { update = record { skipped_version = previous } }, some e)

abbrev or_task_labels : Option TaskLabelOverrides → Outcome → Outcome
or_task_labels previous (c, none) = (c, none)
or_task_labels previous (c, some e) = (with_task_labels c previous, some e)

module _ (x : Context) where
  -- `normalizeInPlace`.
  unfoldable pub in_place : Config → Outcome
  unfolding normalize
  in_place c = outcome_of c (normalize x c)

  unfoldable pub find_host_for : Config → Str → Option Host
  find_host_for c value = host_for (normalize_host x.url value) c.github.hosts

  unfoldable pub auth_method : Config → Str → Option AuthMethod
  auth_method c id = find_method id (methods_of c.github)

  unfoldable pub add_host : Host → Config → Outcome
  add_host value c = in_place (with_hosts c (c.github.hosts ++ value ∷ []))

  abbrev update_found : Host → Str → Str → Config → Option (List Host) → Outcome
  update_found value existing host c none = (c, some (config not_found))
  update_found value existing host c (some hosts) = outcome_of c (
      normalize x (record c {
        github = record c.github {
          hosts = hosts;
          auth_methods = renamed_all existing host c.github.auth_methods;
        };
      }))

  abbrev with_new_host : Host → Str → Config → Result Failure Str → Outcome
  with_new_host value existing c (err e) = (c, some e)
  with_new_host value existing c (ok host) =
      update_found value existing host c
        (replace_first (is_host existing) (record value { host = host } ∷ []) c.github.hosts)

  -- A host that is not there is reported before the new host is looked at.
  abbrev update_if_found : Host → Str → Config → Option Host → Outcome
  update_if_found value existing c none = (c, some (config not_found))
  update_if_found value existing c (some _) =
      with_new_host value existing c (normalize_host x.url value.host)

  abbrev update_existing : Host → Config → Result Failure Str → Outcome
  update_existing value c (err e) = (c, some e)
  update_existing value c (ok existing) =
      update_if_found value existing c (find_host existing c.github.hosts)

  -- The change is made to a copy.
  unfoldable pub update_host : Str → Host → Config → Outcome
  unfolding normalize
  update_host existing value c = update_existing value c (normalize_host x.url existing)

  abbrev removed : Config → Option (List Host) → Outcome
  removed c none = (c, some (config not_found))
  removed c (some hosts) = in_place (with_hosts c hosts)

  abbrev remove_known : Config → Result Failure Str → Outcome
  remove_known c (err e) = (c, some e)
  remove_known c (ok host) =
      if str_eq host github
      then (c, some (config invalid))
      else if uses_host host (methods_of c.github)
      then (c, some (config references))
      else removed c (replace_first (is_host host) [] c.github.hosts)

  unfoldable pub remove_host : Str → Config → Outcome
  remove_host value c = remove_known c (normalize_host x.url value)

  unfoldable pub add_auth_method : AuthMethod → Config → Outcome
  add_auth_method value c = in_place (with_methods c (methods_of c.github ++ value ∷ []))

  abbrev changed_methods : Config → Option (List AuthMethod) → Outcome
  changed_methods c none = (c, some (config not_found))
  changed_methods c (some ms) = in_place (with_methods c ms)

  unfoldable pub update_auth_method : Str → AuthMethod → Config → Outcome
  update_auth_method existing value c =
      let new = if str_eq value.type inline then value else record value { token = [] } in
      changed_methods c (replace_first (is_method existing) (new ∷ []) (methods_of c.github))

  unfoldable pub remove_auth_method : Str → Config → Outcome
  remove_auth_method id c =
      changed_methods c (replace_first (is_method id) [] (methods_of c.github))

  abbrev picked : Config → Result Failure (List AuthMethod) → Outcome
  picked c (err e) = (c, some e)
  picked c (ok ms) = in_place (with_methods c ms)

  unfoldable pub reorder_auth_methods : List Str → Config → Outcome
  reorder_auth_methods ids c =
      if length ids == length (methods_of c.github)
      then picked c (pick (methods_of c.github) [] ids)
      else (c, some (config invalid))

  unfoldable pub set_prompts : Templates → Config → Outcome
  set_prompts templates c = or_prompts c.prompts (in_place (record c { prompts = templates }))

  unfoldable pub set_language : Str → Config → Outcome
  set_language value c =
      let defaults = default_templates (effective_language x c.language) in
      or_settings c
        (in_place (record c { language = value; prompts = unset_defaults c.prompts defaults }))

  unfoldable pub set_auto_sync_interval : ℤ → Config → Outcome
  set_auto_sync_interval seconds c =
      if ltb_ℤ seconds minimum_auto_sync_interval_seconds
      then (c, some (config invalid))
      else in_place (record c { github = record c.github { auto_sync_interval_seconds = seconds } })

  unfoldable pub set_skipped_update_version : Str → Config → Outcome
  set_skipped_update_version value c =
      or_skipped c.update.skipped_version
        (in_place (record c { update = record { skipped_version = value } }))

  abbrev with_port : Config → Result Failure ℤ → Outcome
  with_port c (err e) = (c, some e)
  with_port c (ok p) = in_place (record c { server = record { port = p } })

  unfoldable pub set_server_port : Str → Config → Outcome
  set_server_port value c = with_port c (parse_server_port value)

  abbrev with_labels : Option TaskLabelOverrides → Outcome → Outcome
  with_labels previous (c, some e) = (c, some e)
  with_labels previous (c, none) = or_task_labels previous (in_place c)

  -- The clone of the labels is their value before the loop.
  unfoldable pub set_task_label_overrides : TaskLabelOverridesUpdate → Config → Outcome
  unfolding put_updates
  set_task_label_overrides update c =
      let previous = c.task_labels in
      with_labels previous
        (put_updates previous update (with_task_labels c (some (labels_of previous))))

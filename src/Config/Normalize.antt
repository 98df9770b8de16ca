-- ===== src/Config/Normalize.antt =====
-- internal/config/config.go, lines 350 to 500: `Normalize`, which checks the settings and completes
-- them.
pub mod Loops
pub mod Parts
pub mod Normal
use next_now_x.Prelude.{
  ◌≡◌, refl, ℕ, Str, codes, str_eq, List, [], ◌∷◌, Bool, true, false, not, ◌&&◌, ◌||◌, ◌==◌,
  if◌then◌else◌, Option, none, some, Result, ok, err, ◌>>=◌, ◌>>◌, has_str, map, arith,
}
use next_now_x.Prelude.Int.{ℤ, pos, negsuc, ltb_ℤ}
use next_now_x.Strings.Space.{trim_space}
use next_now_x.Strings.Case.{to_lower}
use next_now_x.Domain.Models.{TaskLabelOverride, TaskLabelOverrides}
use next_now_x.Domain.Update.{canonical_version}
use next_now_x.Domain.Labels.Keys.{task_label_keys}
use next_now_x.Domain.Labels.Normal.{LabelError, unknown_key, normalize_override}
use next_now_x.Prompt.Language.{Language, language_text, language_auto_value, parse_language}
use next_now_x.Prompt.Templates
use next_now_x.Prompt.Templates.{Templates, Refusal}
use next_now_x.Config.{
  ErrorCode, invalid, Failure, config, label, Host, AuthMethod, GitHubConfig, Config, Context,
  default_host, current_version, default_auto_sync_interval_seconds,
  minimum_auto_sync_interval_seconds, effective_language,
}
use next_now_x.Config.Port.{parse_server_port, port_string}
use next_now_x.Config.Hosts.{normalize_host, normalize_host_config}
use next_now_x.Config.Methods.{is_auth_id, validate_auth_method}

abbrev refused {ℓ} : {A : Type ℓ} → Result Failure A
refused = err (config invalid)

abbrev pub require : Bool → Result Failure (Unit {0})
require true = ok tt
require false = refused

named_language : Option Language → Result Failure Str
named_language none = refused
named_language (some l) = ok (language_text l)

pub lowered_language : Str → Result Failure Str
unfolding named_language parse_language str_eq
lowered_language s =
    if str_eq s [] || str_eq s language_auto_value
    then ok language_auto_value
    else named_language (parse_language s)

-- `normalizeLanguage`.
unfoldable pub normalize_language : Str → Result Failure Str
unfolding lowered_language
normalize_language value = lowered_language (to_lower (trim_space value))

-- `containsTaskLabelKey`.
unfoldable pub contains_task_label_key : Str → Bool
unfolding task_label_keys has_str
contains_task_label_key key = has_str key task_label_keys

-- `result[key] = value`.
unfoldable pub assign : Str → TaskLabelOverride → TaskLabelOverrides → TaskLabelOverrides
unfolding str_eq
assign k v [] = (k, v) ∷ []
assign k v ((j, w) ∷ m) = if str_eq j k then (k, v) ∷ m else (j, w) ∷ assign k v m

abbrev pub is_unset : TaskLabelOverride → Bool
is_unset v = str_eq v.text [] && str_eq v.color []

abbrev pub of_label : Result LabelError TaskLabelOverride → Result Failure TaskLabelOverride
of_label (ok v) = ok v
of_label (err e) = err (label e)

place :
    Bool
    → Str
    → TaskLabelOverride
    → TaskLabelOverrides
    → Failure
    → Result Failure TaskLabelOverrides
unfolding assign
place true k v m e = ok (if is_unset v then m else assign k v m)
place false k v m e = err e

-- One entry of the map; the code meets the entries in any order.
put_label : Str → TaskLabelOverride → TaskLabelOverrides → Result Failure TaskLabelOverrides
unfolding contains_task_label_key place normalize_override
put_label key value m = do
  v ← of_label (normalize_override value)
  let k = to_lower (trim_space key)
  place (contains_task_label_key k) k v m (label (unknown_key key))

put_labels : TaskLabelOverrides → TaskLabelOverrides → Result Failure TaskLabelOverrides
unfolding put_label
put_labels [] m = ok m
put_labels ((key, value) ∷ rest) m = put_label key value m >>= λ m'. put_labels rest m'

-- `normalizeTaskLabelOverrides`.
unfoldable pub normalize_labels :
    Option TaskLabelOverrides → Result Failure (Option TaskLabelOverrides)
unfolding put_labels
normalize_labels none = ok none
normalize_labels (some values) = put_labels values [] >>= λ m. ok (some m)

abbrev pub of_prompts : Result Refusal Templates → Result Failure Templates
of_prompts (ok t) = ok t
of_prompts (err e) = refused

-- An empty slice gets the default host.
abbrev pub or_default_host : List Host → List Host
or_default_host [] = default_host ∷ []
or_default_host (h ∷ hs) = h ∷ hs

abbrev pub or_default_interval : ℤ → ℤ
or_default_interval (pos n) = if n == 0 then default_auto_sync_interval_seconds else pos n
or_default_interval (negsuc n) = negsuc n

abbrev pub is_current : ℤ → Bool
is_current (pos n) = n == 1
is_current (negsuc n) = false

abbrev pub host_keys : List Host → List Str
host_keys hosts = map (λ (h : Host). h.host) hosts

module _ (x : Context) where
  known_version : Str → Result Failure Str
  known_version [] = refused
  known_version (c ∷ s) = ok (c ∷ s)

  trimmed_version : Str → Result Failure Str
  unfolding known_version canonical_version
  trimmed_version [] = ok []
  trimmed_version (c ∷ s) = known_version (canonical_version x.semver (c ∷ s))

  -- `normalizeSkippedVersion`.
  unfoldable pub normalize_skipped_version : Str → Result Failure Str
  unfolding trimmed_version
  normalize_skipped_version value = trimmed_version (trim_space value)

  -- The loop over the hosts; `seen` are the keys of those before.
  unfoldable pub normalize_hosts : List Str → List Host → Result Failure (List Host)
  unfolding normalize_host_config has_str
  normalize_hosts seen [] = ok []
  normalize_hosts seen (value ∷ values) = do
    host ← normalize_host_config x.url value
    require (not (has_str host.host seen))
    rest ← normalize_hosts (host.host ∷ seen) values
    ok (host ∷ rest)

  -- The body of the loop over the methods.
  pub normalize_method : List Str → List Str → AuthMethod → Result Failure AuthMethod
  unfolding normalize_host has_str is_auth_id validate_auth_method
  normalize_method hosts seen value = do
    let id = trim_space value.id
    require (is_auth_id id)
    host ← normalize_host x.url value.host
    require (has_str host hosts)
    require (not (has_str id seen))
    let method = record value { id = id; host = host; type = to_lower (trim_space value.type) }
    validate_auth_method method
    ok (record method { token = trim_space value.token })

  pub normalize_methods : List Str → List Str → List AuthMethod → Result Failure (List AuthMethod)
  unfolding normalize_method
  normalize_methods hosts seen [] = ok []
  normalize_methods hosts seen (value ∷ values) = do
    method ← normalize_method hosts seen value
    rest ← normalize_methods hosts (method.id ∷ seen) values
    ok (method ∷ rest)

  unfoldable pub normalize_all_methods :
      List Str → Option (List AuthMethod) → Result Failure (Option (List AuthMethod))
  unfolding normalize_methods
  normalize_all_methods hosts none = ok none
  normalize_all_methods hosts (some ms) = normalize_methods hosts [] ms >>= λ ms'. ok (some ms')

  -- `Normalize`.
  unfoldable pub normalize : Config → Result Failure Config
  normalize c = do
    require (is_current c.version)
    language ← normalize_language c.language
    prompts ← of_prompts (Templates.normalize (effective_language x language) c.prompts)
    labels ← normalize_labels c.task_labels
    _ ← parse_server_port (port_string c.server.port)
    skipped ← normalize_skipped_version c.update.skipped_version
    let interval = or_default_interval c.github.auto_sync_interval_seconds
    require (not (ltb_ℤ interval minimum_auto_sync_interval_seconds))
    hosts ← normalize_hosts [] (or_default_host c.github.hosts)
    methods ← normalize_all_methods (host_keys hosts) c.github.auth_methods
    ok (record c {
      language = language;
      github = record {
        hosts = hosts;
        auth_methods = methods;
        auto_sync_interval_seconds = interval;
      };
      update = record { skipped_version = skipped };
      prompts = prompts;
      task_labels = labels;
    })

  -- `Validate`.
  unfoldable validate : Config → Result Failure (Unit {0})
  unfolding normalize
  validate c = normalize c >>= λ _. ok tt

-- ===== src/Config/Tests.antt =====
-- Runs of the definitions of internal/config/config.go, and the theorems at concrete inputs. URLs are
-- read as a host and a path behind `https://`.
use next_now_x.Prelude.{
  ◌≡◌, ◌≢◌, ◌↔◌, refl, ◌++◌, ◌==◌, Str, codes, str_eq, has_str, List, [], ◌∷◌, true, false, Option,
  none, some, ok, ◌>>=◌, In, if◌then◌else◌, arith,
}
use next_now_x.Prelude.Int.{pos}
use next_now_x.Strings.Space.{trim_space}
use next_now_x.Strings.Case.{to_lower}
use next_now_x.Strings.Utf8.{valid_string, any_of_runes, rune_count}
use next_now_x.Strings.Decimal.{format_nat}
use next_now_x.Domain.Update.{Semver}
use next_now_x.Domain.Models.{TaskLabelOverridesUpdate}
use next_now_x.Domain.Labels.Normal.{unknown_key}
use next_now_x.Prompt.Templates
use next_now_x.Config.{
  Url, Context, Config, AuthMethod, label, default, methods_of, environment, inline,
}
use next_now_x.Config.Port.{
  parse_server_port, port_string, marshal_port, unmarshal_port, IsPort,
  parse_server_port-port_string,
}
use next_now_x.Config.Normalize.{
  normalize, normalize_language, normalize_labels, normalize_skipped_version, normalize_hosts,
  normalize_all_methods,
}
use next_now_x.Config.Normalize.Normal.{IsNormal, normalize-IsNormal}
use next_now_x.Config.Normalize.Loops.{ids}
use next_now_x.Config.Changes
use next_now_x.Config.Changes.Apply.{
  apply, apply-IsNormal, reorder_auth_methods, set_task_label_overrides,
}
use next_now_x.Config.Changes.Restored.{apply-PutsBack, of_labels}
use next_now_x.Config.Changes.Order.{reorder_auth_methods-Ordered}
use next_now_x.Config.Public.{public, public-with_tokens, with_tokens, Alike}
use next_now_x.Config.Yaml.{marshal, decode}
use next_now_x.Config.Yaml.RoundTrip.{decode-marshal-normalize}

abbrev host_part : Str → Str
host_part [] = []
host_part (c ∷ s) = let rest = host_part s in if c == b'/' then [] else c ∷ rest

abbrev path_part : Str → Str
path_part [] = []
path_part (c ∷ s) = let rest = path_part s in if c == b'/' then c ∷ s else rest

abbrev after : Str → Str → Option Str
after [] s = some s
after (p ∷ ps) [] = none
after (p ∷ ps) (c ∷ s) = let rest = after ps s in if p == c then rest else none

abbrev split : Option Str → Option (Str × Str)
split none = none
split (some s) = some (host_part s, path_part s)

abbrev url : Url
url = record {
  Parsed = Str × Str;
  parse = λ s. split (after (codes "https://") s);
  scheme = λ p. codes "https";
  host = λ p. p.0;
  hostname = λ p. p.0;
  port = λ p. [];
  path = λ p. p.1;
  has_user = λ p. false;
  raw_query = λ p. [];
  fragment = λ p. [];
  add_slash = λ p. (p.0, p.1 ++ codes "/");
  string = λ p. codes "https://" ++ p.0 ++ p.1;
}

abbrev texts : Semver
texts = record {
  is_valid = λ s. true;
  canonical = λ s. s;
  prerelease = λ s. [];
  is_newer = λ a b. false;
}

abbrev x : Context
x = record { url = url; semver = texts; getenv = λ name. codes "en_US.UTF-8" }

abbrev method : Str → Str → Str → AuthMethod
method id type token = record {
  id = id;
  host = codes "github.com";
  type = type;
  account = [];
  service = [];
  variable = codes "GH_TOKEN";
  token = token;
  user = [];
}

abbrev two : List AuthMethod
two =
    method (codes "ci") environment [] ∷ method (codes "mine") inline (codes "ghp_0123456789") ∷ []

abbrev settings : Config
settings = record (default x) {
  github = record (default x).github { auth_methods = some two };
  server = record { port = pos 7331 };
}

parse_server_port-port_string_example :
    ((parse_server_port (port_string (pos 7331)) ≡ ok (pos 7331)) ↔ IsPort (pos 7331))
    × ((unmarshal_port (marshal_port (pos 7331)) ≡ ok (pos 7331)) ↔ IsPort (pos 7331))
parse_server_port-port_string_example = parse_server_port-port_string (pos 7331)

normal : normalize x settings ≡ ok settings
unfolding normalize normalize_language normalize_labels normalize_skipped_version normalize_hosts
    normalize_all_methods Templates.normalize parse_server_port port_string format_nat default
    trim_space to_lower str_eq has_str
normal = refl

settings-IsNormal : IsNormal x settings
settings-IsNormal = normalize-IsNormal x settings settings normal

swapped : List Str
swapped = codes "mine" ∷ codes "ci" ∷ []

reordered : (Changes.reorder_auth_methods x swapped settings).1 ≡ none
unfolding swapped Changes.reorder_auth_methods Changes.pick Changes.in_place normalize
    normalize_language normalize_labels normalize_skipped_version normalize_hosts
    normalize_all_methods Templates.normalize parse_server_port port_string format_nat default
    trim_space to_lower str_eq has_str
reordered = refl

apply-IsNormal_example : IsNormal x (apply x (reorder_auth_methods swapped) settings).0
apply-IsNormal_example = apply-IsNormal x (reorder_auth_methods swapped) settings applied
  where
    applied : (apply x (reorder_auth_methods swapped) settings).1 ≡ none
    applied = unfold apply in reordered

reorder_auth_methods-Ordered_example :
    (ids (methods_of (Changes.reorder_auth_methods x swapped settings).0.github) ≡ swapped)
    × ((k : Str) → In k swapped ↔ In k (ids (methods_of settings.github)))
reorder_auth_methods-Ordered_example =
    reorder_auth_methods-Ordered x swapped settings settings-IsNormal reordered

-- The second entry has no known key, and the first is taken back.
abbrev half_known : TaskLabelOverridesUpdate
half_known =
    (codes "status.merged", record { text = some (codes "Go"); color = none })
    ∷ (codes "steady", record { text = none; color = none })
    ∷ []

labels_refused :
    (Changes.set_task_label_overrides x half_known settings).1
    ≡ some (label (unknown_key (codes "steady")))
unfolding Changes.set_task_label_overrides default trim_space to_lower str_eq has_str valid_string
    any_of_runes rune_count
labels_refused = refl

apply-PutsBack_example : (apply x (set_task_label_overrides half_known) settings).0 ≡ settings
apply-PutsBack_example =
    apply-PutsBack x (of_labels half_known) settings (label (unknown_key (codes "steady"))) refused
  where
    refused :
        (apply x (set_task_label_overrides half_known) settings).1
        ≡ some (label (unknown_key (codes "steady")))
    refused = unfold apply in labels_refused

decode-marshal-normalize_example : (decode (marshal x settings) >>= normalize x) ≡ ok settings
decode-marshal-normalize_example = decode-marshal-normalize x settings normal no_labels
  where
    no_labels : settings.task_labels ≢ some []
    no_labels = λ e. unfold default in cc

other : Str
other = codes "ghp_abc6789"

public-with_tokens_example :
    public x (record settings {
      github = record settings.github { auth_methods = some (with_tokens two ([] ∷ other ∷ [])) };
    })
    ≡ public x settings
public-with_tokens_example =
    public-with_tokens x settings two ([] ∷ other ∷ []) refl (Alike.same refl, (alike, tt))
  where
    alike : Alike (codes "ghp_0123456789") other
    alike =
        unfold other in
        Alike.long (codes "ghp_") (codes "6789") (codes "012345") (codes "abc") refl refl
          (omega arith) (omega arith) refl refl

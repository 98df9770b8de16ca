-- ===== src/Config/Yaml.antt =====
-- internal/config/config.go: `MarshalYAML`, and the settings that YAML gives back. A value of YAML is
-- the record of its keys, `none` for a key that is left out.
pub mod RoundTrip
use next_now_x.Prelude.{
  ◌≡◌, ◌≢◌, inl, inr, refl, sym, ap, ◌∙◌, subst, Str, str_eq, str_eq_iff, List, [], ◌∷◌, Bool, true,
  false, not, ◌&&◌, ◌||◌, if◌then◌else◌, Option, none, some, Result, ok, err, ◌>>=◌, Bool-cases,
  arith,
}
use next_now_x.Prelude.Int.{ℤ}
use next_now_x.Strings.Space.{trim_space}
use next_now_x.Domain.Models.{TaskLabelOverrides}
use next_now_x.Prompt.Language.{Language, language_auto_value}
use next_now_x.Prompt.Templates
use next_now_x.Prompt.Templates.{Templates, default_templates, filled, or_default}
use next_now_x.Config.{Failure, Config, GitHubConfig, UpdateConfig, Context, effective_language}
use next_now_x.Config.Port.{Node, marshal_port, unmarshal_port, IsPort}
use next_now_x.Config.Normalize.{normalize}

pub record YamlConfig : Type 0 where
  pub version : ℤ
  pub language : Option Str
  pub github : GitHubConfig
  pub port : Node
  pub update : Option UpdateConfig
  pub prompts : Option Templates
  pub task_labels : Option TaskLabelOverrides

-- The text of a key with `omitempty`; a missing key is read as the empty text.
abbrev or_empty : Option Str → Str
or_empty none = []
or_empty (some s) = s

abbrev unless : Str → Str → Str
unless built_in value = if str_eq value built_in then [] else value

-- The templates that differ from the built-in ones.
own_templates : Templates → Templates → Templates
unfolding str_eq
own_templates d t = record {
  design_text = unless d.design_text t.design_text;
  implementation_text = unless d.implementation_text t.implementation_text;
  batch_text = unless d.batch_text t.batch_text;
  batch_design_text = unless d.batch_design_text t.batch_design_text;
}

abbrev is_unset : Templates → Bool
is_unset t =
    str_eq t.design_text []
    && (str_eq t.implementation_text []
        && (str_eq t.batch_text [] && str_eq t.batch_design_text []))

abbrev some_labels : Option TaskLabelOverrides → Option TaskLabelOverrides
some_labels none = none
some_labels (some []) = none
some_labels (some (e ∷ m)) = some (e ∷ m)

abbrev unset : Templates
unset = record {
  design_text = [];
  implementation_text = [];
  batch_text = [];
  batch_design_text = [];
}

abbrev or_unset : Option Templates → Templates
or_unset none = unset
or_unset (some t) = t

abbrev or_no_update : Option UpdateConfig → UpdateConfig
or_no_update none = record { skipped_version = [] }
or_no_update (some u) = u

-- `Unmarshal` into an empty `Config`.
unfoldable pub decode : YamlConfig → Result Failure Config
unfolding unmarshal_port
decode y = do
  port ← unmarshal_port y.port
  ok (record {
    version = y.version;
    language = or_empty y.language;
    github = y.github;
    server = record { port = port };
    update = or_no_update y.update;
    prompts = or_unset y.prompts;
    task_labels = y.task_labels;
  })

module _ (x : Context) where
  -- `MarshalYAML` of `Config`, with that of `GitHubConfig` and of the port.
  unfoldable pub marshal : Config → YamlConfig
  unfolding own_templates effective_language default_templates marshal_port str_eq
  marshal c =
      let own = own_templates (default_templates (effective_language x c.language)) c.prompts in
      record {
        version = c.version;
        language =
            if str_eq c.language [] || str_eq c.language language_auto_value
            then none
            else some c.language;
        github = c.github;
        port = marshal_port c.server.port;
        update = if str_eq c.update.skipped_version [] then none else some c.update;
        prompts = if is_unset own then none else some own;
        task_labels = some_labels c.task_labels;
      }

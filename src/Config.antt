-- ===== src/Config.antt =====
-- internal/config/config.go: the settings, and the parameters that stand for `net/url` and for the
-- environment.
pub mod Port
pub mod Hosts
pub mod Methods
pub mod Normalize
pub mod Changes
pub mod Public
pub mod Yaml
mod Tests
use next_now_x.Prelude.{ℕ, Str, codes, List, [], ◌∷◌, Bool, Option, none, some}
use next_now_x.Prelude.Int.{ℤ, pos}
use next_now_x.Domain.Models.{TaskLabelOverrides}
use next_now_x.Domain.Update.{Semver}
use next_now_x.Domain.Labels.Normal.{LabelError}
use next_now_x.Prompt.Language.{Language, language_auto_value, resolve_language_with}
use next_now_x.Prompt.Templates.{Templates, default_templates}

-- `AuthMethodType` is a text, which `validateAuthMethod` tests.
abbrev pub keychain : Str
keychain = codes "keychain"

abbrev pub environment : Str
environment = codes "environment"

abbrev pub inline : Str
inline = codes "inline"

abbrev pub gh_cli : Str
gh_cli = codes "gh_cli"

pub record Host : Type 0 where
  pub host : Str
  pub web_url : Str
  pub api_url : Str
  pub upload_url : Str
  pub graphql_url : Str

pub record AuthMethod : Type 0 where
  pub id : Str
  pub host : Str
  pub type : Str
  pub account : Str
  pub service : Str
  pub variable : Str
  pub token : Str
  pub user : Str

-- `auth_methods` is `none` where the slice is nil, which the code tells from an empty one.
pub record GitHubConfig : Type 0 where
  pub hosts : List Host
  pub auth_methods : Option (List AuthMethod)
  pub auto_sync_interval_seconds : ℤ

-- `ServerConfig`, whose port is an `int`.
pub record ServerConfig : Type 0 where
  pub port : ℤ

pub record UpdateConfig : Type 0 where
  pub skipped_version : Str

-- `task_labels` is `none` where the map is nil.
pub record Config : Type 0 where
  pub version : ℤ
  pub language : Str
  pub github : GitHubConfig
  pub server : ServerConfig
  pub update : UpdateConfig
  pub prompts : Templates
  pub task_labels : Option TaskLabelOverrides

pub data ErrorCode : Type 0 where
  invalid not_found references : ErrorCode

-- An `Error` of this package by its code, an error about a label, which has another type, or a nil
-- pointer that is read through.
pub data Failure : Type 0 where
  config : ErrorCode → Failure
  label : LabelError → Failure
  panic : Failure

-- `ErrorCodeOf`.
unfoldable error_code_of : Failure → ErrorCode
error_code_of (config code) = code
error_code_of (label _) = invalid
error_code_of panic = invalid

-- What `url.Parse` tells of a text, and `String` of the parsed URL. `add_slash` appends a slash to the
-- path.
pub record Url : Type 1 where
  pub Parsed : Type 0
  pub parse : Str → Option Parsed
  pub scheme : Parsed → Str
  pub host : Parsed → Str
  pub hostname : Parsed → Str
  pub port : Parsed → Str
  pub path : Parsed → Str
  pub has_user : Parsed → Bool
  pub raw_query : Parsed → Str
  pub fragment : Parsed → Str
  pub add_slash : Parsed → Parsed
  pub string : Parsed → Str

-- What the process has about it: the URL library, the versions and the environment variables.
pub record Context : Type 1 where
  pub url : Url
  pub semver : Semver
  pub getenv : Str → Str

abbrev pub current_version : ℤ
current_version = pos 1

abbrev pub default_auto_sync_interval_seconds : ℤ
default_auto_sync_interval_seconds = pos 3600

abbrev pub minimum_auto_sync_interval_seconds : ℤ
minimum_auto_sync_interval_seconds = pos 600

-- The methods that a loop over the slice meets.
abbrev pub or_none : Option (List AuthMethod) → List AuthMethod
or_none none = []
or_none (some ms) = ms

abbrev pub methods_of : GitHubConfig → List AuthMethod
methods_of g = or_none g.auth_methods

-- `DefaultHost`.
abbrev pub default_host : Host
default_host = record {
  host = codes "github.com";
  web_url = codes "https://github.com";
  api_url = codes "https://api.github.com/";
  upload_url = codes "https://uploads.github.com/";
  graphql_url = codes "https://api.github.com/graphql";
}

module _ (x : Context) where
  -- `EffectiveLanguage` of a setting.
  unfoldable pub effective_language : Str → Language
  unfolding resolve_language_with
  effective_language setting = resolve_language_with setting x.getenv

  -- `Default`.
  unfoldable pub default : Config
  unfolding effective_language default_templates
  default = record {
    version = current_version;
    language = language_auto_value;
    github = record {
      hosts = default_host ∷ [];
      auth_methods = none;
      auto_sync_interval_seconds = default_auto_sync_interval_seconds;
    };
    server = record { port = pos 0 };
    update = record { skipped_version = [] };
    prompts = default_templates (effective_language language_auto_value);
    task_labels = none;
  }

-- ===== src/Config/Normalize/Parts.antt =====
-- internal/config/config.go: where each part of the settings that `Normalize` returns comes from.
use next_now_x.Prelude.{◌≡◌, refl, subst, [], true, not, ok, bind-ok, check-ok}
use next_now_x.Prelude.Int.{ℤ, ltb_ℤ}
use next_now_x.Prompt.Templates
use next_now_x.Config.{Config, Context, minimum_auto_sync_interval_seconds, effective_language}
use next_now_x.Config.Port.{parse_server_port, port_string}
use next_now_x.Config.Normalize.{
  require, host_keys, normalize_language, normalize_labels, of_prompts, or_default_host,
  or_default_interval, is_current, normalize_skipped_version, normalize_hosts,
  normalize_all_methods, normalize,
}
use next_now_x.Config.Normalize.Loops.{require_lem}

pub record Parts (x : Context) (c d : Config) : Type 0 where
  pub version : is_current c.version ≡ true
  pub same_version : d.version ≡ c.version
  pub same_server : d.server ≡ c.server
  pub language : normalize_language c.language ≡ ok d.language
  pub prompts :
      of_prompts (Templates.normalize (effective_language x d.language) c.prompts) ≡ ok d.prompts
  pub labels : normalize_labels c.task_labels ≡ ok d.task_labels
  pub port : (q : ℤ) × (parse_server_port (port_string c.server.port) ≡ ok q)
  pub skipped : normalize_skipped_version x c.update.skipped_version ≡ ok d.update.skipped_version
  pub same_interval :
      d.github.auto_sync_interval_seconds ≡ or_default_interval c.github.auto_sync_interval_seconds
  pub interval :
      not (ltb_ℤ d.github.auto_sync_interval_seconds minimum_auto_sync_interval_seconds) ≡ true
  pub hosts : normalize_hosts x [] (or_default_host c.github.hosts) ≡ ok d.github.hosts
  pub methods :
      normalize_all_methods x (host_keys d.github.hosts) c.github.auth_methods
      ≡ ok d.github.auth_methods

pub normalize-Parts : (x : Context) (c d : Config) → normalize x c ≡ ok d → Parts x c d
unfolding normalize
normalize-Parts x c d h =
    let (v, h) = check-ok (require (is_current c.version)) _ h in
    let (language, l, h) = bind-ok (normalize_language c.language) _ h in
    let (prompts, p, h) =
      bind-ok (of_prompts (Templates.normalize (effective_language x language) c.prompts)) _ h in
    let (labels, k, h) = bind-ok (normalize_labels c.task_labels) _ h in
    let (port, q, h) = bind-ok (parse_server_port (port_string c.server.port)) _ h in
    let (skipped, s, h) = bind-ok (normalize_skipped_version x c.update.skipped_version) _ h in
    let interval = or_default_interval c.github.auto_sync_interval_seconds in
    let (i, h) = check-ok (require (not (ltb_ℤ interval minimum_auto_sync_interval_seconds))) _ h in
    let (hosts, a, h) = bind-ok (normalize_hosts x [] (or_default_host c.github.hosts)) _ h in
    let (methods, m, h) =
      bind-ok (normalize_all_methods x (host_keys hosts) c.github.auth_methods) _ h in
    let made : Config = record c {
      language = language;
      github = record {
        hosts = hosts;
        auth_methods = methods;
        auto_sync_interval_seconds = interval;
      };
      update = record { skipped_version = skipped };
      prompts = prompts;
      task_labels = labels;
    } in
    let same : made ≡ d = cc in
    subst (Parts x c) same (record {
      version = require_lem _ v;
      same_version = refl;
      same_server = refl;
      language = l;
      prompts = p;
      labels = k;
      port = (port, q);
      skipped = s;
      same_interval = refl;
      interval = require_lem _ i;
      hosts = a;
      methods = m;
    })

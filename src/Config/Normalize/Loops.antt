-- ===== src/Config/Normalize/Loops.antt =====
-- internal/config/config.go: what the loops of `Normalize` over the hosts and the methods let pass.
use next_now_x.Prelude.{
  ◌≡◌, inl, inr, refl, sym, ap, ◌∙◌, subst, Str, codes, List, [], ◌∷◌, Bool, true, false, not, ok,
  bind-ok, check-ok, has_str, has_str_iff, In, All, Distinct, arith,
}
use next_now_x.Strings.Space.{trim_space}
use next_now_x.Strings.Case.{to_lower}
use next_now_x.Config.{Host, AuthMethod, Context}
use next_now_x.Config.Hosts.{
  normalize_host, normalize_host_config, normalize_url, completed, check_web, check_origin, IsOwn,
}
use next_now_x.Config.Methods.{is_auth_id, validate_auth_method, validate_auth_method_trimmed}
use next_now_x.Config.Normalize.{
  require, host_keys, normalize_hosts, normalize_method, normalize_methods,
}

pub require_lem : (b : Bool) → require b ≡ ok tt → b ≡ true
require_lem true h = refl
require_lem false h = cc

-- A method that is accepted beside the hosts with these keys.
pub record IsMethod (hosts : List Str) (m : AuthMethod) : Type 0 where
  pub id : is_auth_id m.id ≡ true
  pub host : In m.host hosts
  pub fields : validate_auth_method m ≡ ok tt

abbrev pub ids : List AuthMethod → List Str
ids [] = []
ids (m ∷ ms) = m.id ∷ ids ms

pub not_In : (k : Str) (seen : List Str) → not (has_str k seen) ≡ true → ¬ In k seen
not_In k seen h m = ground (arith, has_str_iff k seen)

-- Nothing that was seen before stands among the keys.
abbrev pub New : List Str → List Str → Type 0
New seen ks = All (λ k. ¬ In k seen) ks

pub New-later : (k : Str) (seen ks : List Str) → New (k ∷ seen) ks → ¬ In k ks × New seen ks
New-later k seen [] n = (λ m. m, tt)
New-later k seen (j ∷ ks) n =
    let (absent, rest) = New-later k seen ks n.1 in
    (elim [ inl e ↦ n.0 (inl (sym e)) | inr m ↦ absent m ], (λ m. n.0 (inr m), rest))

abbrev pub trimmed : List Str → List Str
trimmed [] = []
trimmed (k ∷ ks) = trim_space k ∷ trimmed ks

module _ (x : Context) where
  pub normalize_host_config-IsOwn :
      (v h : Host) → normalize_host_config x.url v ≡ ok h → IsOwn x.url h
  unfolding normalize_host_config
  normalize_host_config-IsOwn v h e =
      let (host, _, e) = bind-ok (normalize_host x.url v.host) _ e in
      let (web, _, e) = bind-ok (normalize_url x.url (completed host v).web_url false) _ e in
      let (api, _, e) = bind-ok (normalize_url x.url (completed host v).api_url true) _ e in
      let (upload, _, e) = bind-ok (normalize_url x.url (completed host v).upload_url true) _ e in
      let (graphql, _, e) =
        bind-ok (normalize_url x.url (completed host v).graphql_url false) _ e in
      let (a, e) = check-ok (check_web x.url host web) _ e in
      let (b, e) = check-ok (check_origin x.url host (codes "api.github.com") api) _ e in
      let (c, e) = check-ok (check_origin x.url host (codes "uploads.github.com") upload) _ e in
      let (d, e) = check-ok (check_origin x.url host (codes "api.github.com") graphql) _ e in
      let made : Host = record {
        host = host;
        web_url = web;
        api_url = api;
        upload_url = upload;
        graphql_url = graphql;
      } in
      let same : made ≡ h = cc in
      subst (IsOwn x.url) same (record { web = a; api = b; upload = c; graphql = d })

  pub normalize_hosts-ok :
      (seen : List Str) (vs hs : List Host)
      → normalize_hosts x seen vs ≡ ok hs
      → All (IsOwn x.url) hs × New seen (host_keys hs) × Distinct (host_keys hs)
  unfolding normalize_hosts
  normalize_hosts-ok seen [] [] e = (tt, tt, tt)
  normalize_hosts-ok seen [] (h ∷ hs) e = cc
  normalize_hosts-ok seen (v ∷ vs) hs e =
      let (h, a, e) = bind-ok (normalize_host_config x.url v) _ e in
      let (r, e) = check-ok (require (not (has_str h.host seen))) _ e in
      let (rest, b, e) = bind-ok (normalize_hosts x (h.host ∷ seen) vs) _ e in
      let same : h ∷ rest ≡ hs = cc in
      let (own, new, distinct) = normalize_hosts-ok (h.host ∷ seen) vs rest b in
      let (absent, new') = New-later h.host seen (host_keys rest) new in
      let P : List Host → Type 0 =
        λ l. All (IsOwn x.url) l × New seen (host_keys l) × Distinct (host_keys l) in
      subst P same (
        (normalize_host_config-IsOwn v h a, own),
        (not_In h.host seen (require_lem _ r), new'),
        (absent, distinct),
      )

  pub normalize_method-ok :
      (hosts seen : List Str) (v m : AuthMethod)
      → normalize_method x hosts seen v ≡ ok m
      → IsMethod hosts m × (¬ In m.id seen)
  unfolding normalize_method
  normalize_method-ok hosts seen v m e =
      let id = trim_space v.id in
      let (good, e) = check-ok (require (is_auth_id id)) _ e in
      let (host, _, e) = bind-ok (normalize_host x.url v.host) _ e in
      let (known, e) = check-ok (require (has_str host hosts)) _ e in
      let (fresh, e) = check-ok (require (not (has_str id seen))) _ e in
      let made : AuthMethod = record v {
        id = id;
        host = host;
        type = to_lower (trim_space v.type);
      } in
      let (fields, e) = check-ok (validate_auth_method made) _ e in
      let same : record made { token = trim_space v.token } ≡ m = cc in
      let P : AuthMethod → Type 0 = λ n. IsMethod hosts n × (¬ In n.id seen) in
      subst P same (
        record {
          id = require_lem _ good;
          host = (has_str_iff host hosts).0 (require_lem _ known);
          fields = validate_auth_method_trimmed made ∙ fields;
        },
        not_In id seen (require_lem _ fresh),
      )

  pub normalize_methods-ok :
      (hosts seen : List Str) (vs ms : List AuthMethod)
      → normalize_methods x hosts seen vs ≡ ok ms
      → All (IsMethod hosts) ms × New seen (ids ms) × Distinct (ids ms)
  unfolding normalize_methods
  normalize_methods-ok hosts seen [] [] e = (tt, tt, tt)
  normalize_methods-ok hosts seen [] (m ∷ ms) e = cc
  normalize_methods-ok hosts seen (v ∷ vs) ms e =
      let (m, a, e) = bind-ok (normalize_method x hosts seen v) _ e in
      let (rest, b, e) = bind-ok (normalize_methods x hosts (m.id ∷ seen) vs) _ e in
      let same : m ∷ rest ≡ ms = cc in
      let (good, fresh) = normalize_method-ok hosts seen v m a in
      let (all, new, distinct) = normalize_methods-ok hosts (m.id ∷ seen) vs rest b in
      let (absent, new') = New-later m.id seen (ids rest) new in
      let P : List AuthMethod → Type 0 =
        λ l. All (IsMethod hosts) l × New seen (ids l) × Distinct (ids l) in
      subst P same ((good, all), (fresh, new'), (absent, distinct))

  normalize_method-id :
      (hosts seen : List Str) (v m : AuthMethod)
      → normalize_method x hosts seen v ≡ ok m
      → m.id ≡ trim_space v.id
  unfolding normalize_method
  normalize_method-id hosts seen v m e =
      let id = trim_space v.id in
      let (_, e) = check-ok (require (is_auth_id id)) _ e in
      let (host, _, e) = bind-ok (normalize_host x.url v.host) _ e in
      let (_, e) = check-ok (require (has_str host hosts)) _ e in
      let (_, e) = check-ok (require (not (has_str id seen))) _ e in
      let made : AuthMethod = record v {
        id = id;
        host = host;
        type = to_lower (trim_space v.type);
      } in
      let (_, e) = check-ok (validate_auth_method made) _ e in cc

  pub normalize_methods-ids :
      (hosts seen : List Str) (vs ms : List AuthMethod)
      → normalize_methods x hosts seen vs ≡ ok ms
      → ids ms ≡ trimmed (ids vs)
  unfolding normalize_methods
  normalize_methods-ids hosts seen [] [] e = refl
  normalize_methods-ids hosts seen [] (m ∷ ms) e = cc
  normalize_methods-ids hosts seen (v ∷ vs) ms e =
      let (m, a, e) = bind-ok (normalize_method x hosts seen v) _ e in
      let (rest, b, e) = bind-ok (normalize_methods x hosts (m.id ∷ seen) vs) _ e in
      let same : m ∷ rest ≡ ms = cc in
      let f = normalize_method-id hosts seen v m a in
      let g = normalize_methods-ids hosts (m.id ∷ seen) vs rest b in
      ap ids (sym same) ∙ (λ j. f j ∷ g j)

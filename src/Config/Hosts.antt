-- ===== src/Config/Hosts.antt =====
-- internal/config/config.go, lines 325 to 348 and 502 to 599: the hosts and their URLs.
use next_now_x.Prelude.{
  ◌≡◌, ◌++◌, ℕ, Str, codes, str_eq, List, [], ◌∷◌, Bool, true, false, not, ◌&&◌, ◌||◌, leb, ◌==◌,
  if◌then◌else◌, Option, none, some, Result, ok, err, ◌>>=◌, ◌>>◌, has_str,
}
use next_now_x.Prelude.Int.{ℤ, pos, negsuc}
use next_now_x.Strings.Space.{trim_space}
use next_now_x.Strings.Case.{to_lower}
use next_now_x.Strings.Decimal.{atoi}
use next_now_x.Config.{invalid, Failure, config, panic, Host, Url, default_host}

abbrev pub github : Str
github = codes "github.com"

abbrev https : Str
https = codes "https://"

abbrev any_of : ℕ → Str → Bool
any_of b [] = false
any_of b (c ∷ s) = b == c || any_of b s

-- `strings.ContainsAny`.
contains_any : Str → Str → Bool
contains_any chars [] = false
contains_any chars (b ∷ s) = any_of b chars || contains_any chars s

-- `strings.HasSuffix` of one character.
ends_in : ℕ → Str → Bool
ends_in c [] = false
ends_in c (b ∷ []) = b == c
ends_in c (b ∷ d ∷ s) = ends_in c (d ∷ s)

abbrev refused {ℓ} : {A : Type ℓ} → Result Failure A
refused = err (config invalid)

abbrev guard : Bool → Result Failure (Unit {0})
guard true = refused
guard false = ok tt

-- The test of a port that is not empty.
is_port : Option ℤ → Bool
is_port none = false
is_port (some (negsuc n)) = false
is_port (some (pos n)) = leb 1 n && leb n 65535

has_bad_port : Str → Bool
unfolding is_port atoi
has_bad_port [] = false
has_bad_port (c ∷ s) = not (is_port (atoi (c ∷ s)))

abbrev or_else : Str → Str → Str
or_else [] fallback = fallback
or_else (c ∷ s) fallback = c ∷ s

-- `oneOfHost`.
pub one_of_host : Str → List Str → Bool
unfolding has_str
one_of_host value allowed = has_str (to_lower value) allowed

-- The missing URLs of a host.
pub completed : Str → Host → Host
unfolding str_eq
completed host value =
    let rest = λ (s : Str). https ++ host ++ s in
    let is_github = str_eq host github in
    record {
      host = host;
      web_url = or_else value.web_url (if is_github then default_host.web_url else https ++ host);
      api_url =
          or_else value.api_url
            (if is_github then default_host.api_url else rest (codes "/api/v3/"));
      upload_url =
          or_else value.upload_url
            (if is_github then default_host.upload_url else rest (codes "/api/uploads/"));
      graphql_url =
          or_else value.graphql_url
            (if is_github then default_host.graphql_url else rest (codes "/api/graphql"));
    }

-- Whether the host of a URL of the API belongs to `host`; `own` is the one that GitHub.com has for
-- it beside its own.
pub stays : Str → Str → Str → Bool
unfolding str_eq one_of_host
stays host own actual =
    if str_eq host github
    then one_of_host actual (own ∷ github ∷ [])
    else str_eq (to_lower actual) host

module _ (u : Url) where
  open u use {parse, scheme, hostname, port, path, has_user, raw_query, fragment, add_slash, string}

  -- The tests of a host that `url.Parse` accepts behind `https://`.
  is_bad_host : u.Parsed → Bool
  unfolding ends_in has_bad_port str_eq
  is_bad_host p =
      str_eq (u.host p) []
      || (str_eq (hostname p) []
          || (not (str_eq (path p) [])
              || (not (str_eq (raw_query p) [])
                  || (not (str_eq (fragment p) [])
                      || (has_user p || (ends_in b':' (u.host p) || has_bad_port (port p)))))))

  parsed_host : Option u.Parsed → Result Failure Str
  unfolding is_bad_host
  parsed_host none = refused
  parsed_host (some p) = if is_bad_host p then refused else ok (to_lower (u.host p))

  trimmed_host : Str → Result Failure Str
  unfolding contains_any parsed_host str_eq
  trimmed_host value =
      if str_eq value [] || contains_any (codes "/?#@\t\r\n ") value
      then refused
      else parsed_host (parse (https ++ value))

  -- `NormalizeHost`.
  unfoldable pub normalize_host : Str → Result Failure Str
  unfolding trimmed_host
  normalize_host value = trimmed_host (trim_space value)

  is_bad_url : u.Parsed → Bool
  unfolding str_eq
  is_bad_url p =
      not (str_eq (scheme p) (codes "https"))
      || (str_eq (u.host p) []
          || (has_user p || (not (str_eq (raw_query p) []) || not (str_eq (fragment p) []))))

  parsed_url : Bool → Option u.Parsed → Result Failure Str
  unfolding is_bad_url ends_in
  parsed_url trailing_slash none = refused
  parsed_url trailing_slash (some p) =
      if is_bad_url p
      then refused
      else if trailing_slash && not (ends_in b'/' (path p))
      then ok (string (add_slash p))
      else ok (string p)

  -- `normalizeURL`.
  unfoldable pub normalize_url : Str → Bool → Result Failure Str
  unfolding parsed_url
  normalize_url value trailing_slash = parsed_url trailing_slash (parse (trim_space value))

  -- `url.Parse` of a URL that was normalized; the code reads the result without a test.
  pub host_of : Str → Result Failure Str
  host_of value = elim (parse value) [ none ↦ err panic | some p ↦ ok (u.host p) ]

  pub check_web : Str → Str → Result Failure (Unit {0})
  unfolding host_of str_eq
  check_web host url = host_of url >>= λ actual. guard (not (str_eq (to_lower actual) host))

  pub check_origin : Str → Str → Str → Result Failure (Unit {0})
  unfolding host_of stays
  check_origin host own url = host_of url >>= λ actual. guard (not (stays host own actual))

  -- `normalizeHostConfig`.
  unfoldable pub normalize_host_config : Host → Result Failure Host
  unfolding normalize_host completed normalize_url check_web check_origin
  normalize_host_config value = do
    host ← normalize_host value.host
    let full = completed host value
    web ← normalize_url full.web_url false
    api ← normalize_url full.api_url true
    upload ← normalize_url full.upload_url true
    graphql ← normalize_url full.graphql_url false
    check_web host web
    check_origin host (codes "api.github.com") api
    check_origin host (codes "uploads.github.com") upload
    check_origin host (codes "api.github.com") graphql
    ok (record {
      host = host;
      web_url = web;
      api_url = api;
      upload_url = upload;
      graphql_url = graphql;
    })

  -- The URLs of a host that is accepted, by the hosts that `url.Parse` reads in them.
  pub record IsOwn (h : Host) : Type 0 where
    pub web : check_web h.host h.web_url ≡ ok tt
    pub api : check_origin h.host (codes "api.github.com") h.api_url ≡ ok tt
    pub upload : check_origin h.host (codes "uploads.github.com") h.upload_url ≡ ok tt
    pub graphql : check_origin h.host (codes "api.github.com") h.graphql_url ≡ ok tt

-- ===== src/Config/Normalize/Normal.antt =====
-- internal/config/config.go: the settings that `Normalize` returns.
use next_now_x.Prelude.{
  ◌≡◌, inl, inr, refl, sym, ◌∙◌, subst, Str, str_eq, List, [], ◌∷◌, Bool, true, false, not, ◌||◌,
  Option, none, some, Result, ok, err, bind-ok, check-ok, has_str, In, All, Distinct, Bool-cases,
  arith, ◌≢◌,
}
use next_now_x.Prelude.Int.{ℤ, pos, negsuc, ◌≤ℤ◌, ltb_ℤ}
use next_now_x.Strings.Space.{trim_space}
use next_now_x.Strings.Case.{to_lower}
use next_now_x.Domain.Models.{TaskLabelOverride, TaskLabelOverrides}
use next_now_x.Domain.Labels.Normal.{unknown_key, normalize_override}
use next_now_x.Prompt.Language.{
  Language, english, japanese, language_text, language_auto_value, parse_language,
}
use next_now_x.Prompt.Templates.{Templates, Refusal}
use next_now_x.Prompt.Templates.Scopes.{IsAccepted, normalize-IsAccepted}
use next_now_x.Config.{
  label, Failure, or_none, default_host, Host, AuthMethod, Config, Context, methods_of,
  current_version, minimum_auto_sync_interval_seconds, effective_language,
}
use next_now_x.Config.Port.{IsPort, port_string-IsPort}
use next_now_x.Config.Hosts.{IsOwn, normalize_host_config}
use next_now_x.Config.Normalize.{
  is_unset, require, host_keys, normalize_language, lowered_language, named_language,
  contains_task_label_key, assign, place, put_label, put_labels, normalize_labels, of_label,
  of_prompts, or_default_host, is_current, normalize_hosts, normalize_all_methods,
  normalize_methods, normalize,
}
use next_now_x.Config.Normalize.Parts.{normalize-Parts}
use next_now_x.Config.Normalize.Loops.{IsMethod, ids, normalize_hosts-ok, normalize_methods-ok}

abbrev languages : List Str
languages = language_auto_value ∷ language_text english ∷ language_text japanese ∷ []

named_language-In : (o : Option Language) (l : Str) → named_language o ≡ ok l → In l languages
unfolding named_language
named_language-In none l h = cc
named_language-In (some english) l h = inr (inl cc)
named_language-In (some japanese) l h = inr (inr (inl cc))

lowered_language-In : (s l : Str) → lowered_language s ≡ ok l → In l languages
unfolding lowered_language
lowered_language-In s l h = elim (Bool-cases (str_eq s [] || str_eq s language_auto_value)) [
  | inl e ↦ inl (ground arith)
  | inr e ↦ named_language-In (parse_language s) l (ground arith)
]

normalize_language-In : (s l : Str) → normalize_language s ≡ ok l → In l languages
unfolding normalize_language
normalize_language-In s l h = lowered_language-In (to_lower (trim_space s)) l h

-- The keys of the labels.
abbrev KnownKeys : TaskLabelOverrides → Type 0
KnownKeys = All (λ (e : Str × TaskLabelOverride). contains_task_label_key e.0 ≡ true)

assign-KnownKeys :
    (k : Str) (v : TaskLabelOverride) (m : TaskLabelOverrides)
    → contains_task_label_key k ≡ true
    → KnownKeys m
    → KnownKeys (assign k v m)
unfolding assign
assign-KnownKeys k v [] h a = (h, tt)
assign-KnownKeys k v ((j, w) ∷ m) h a = elim (Bool-cases (str_eq j k)) [
  | inl e ↦ rw e (h, a.1)
  | inr e ↦ rw e (a.0, assign-KnownKeys k v m h a.1)
]

interval_lem :
    (z : ℤ)
    → not (ltb_ℤ z minimum_auto_sync_interval_seconds) ≡ true
    → minimum_auto_sync_interval_seconds ≤ℤ z
interval_lem z h = ground arith

place-KnownKeys :
    (b : Bool) (k : Str) (v : TaskLabelOverride) (m m' : TaskLabelOverrides) (e : Failure)
    → contains_task_label_key k ≡ b
    → place b k v m e ≡ ok m'
    → KnownKeys m
    → KnownKeys m'
unfolding place
place-KnownKeys true k v m m' e known h a = elim (Bool-cases (is_unset v)) [
  | inl f ↦ let same : m ≡ m' = ground arith in subst KnownKeys same a
  | inr f ↦
      let same : assign k v m ≡ m' = ground arith in
      subst KnownKeys same (assign-KnownKeys k v m known a)
]
place-KnownKeys false k v m m' e known h a = cc

put_label-KnownKeys :
    (key : Str) (value : TaskLabelOverride) (m m' : TaskLabelOverrides)
    → put_label key value m ≡ ok m'
    → KnownKeys m
    → KnownKeys m'
unfolding put_label
put_label-KnownKeys key value m m' h a =
    let (v, _, h) = bind-ok (of_label (normalize_override value)) _ h in
    place-KnownKeys (contains_task_label_key (to_lower (trim_space key)))
      (to_lower (trim_space key)) v m m' (label (unknown_key key)) refl h a

put_labels-KnownKeys :
    (values m m' : TaskLabelOverrides) → put_labels values m ≡ ok m' → KnownKeys m → KnownKeys m'
unfolding put_labels
put_labels-KnownKeys [] m m' h a = let e : m ≡ m' = cc in subst KnownKeys e a
put_labels-KnownKeys ((key, value) ∷ rest) m m' h a =
    let (n, e, h) = bind-ok (put_label key value m) _ h in
    put_labels-KnownKeys rest n m' h (put_label-KnownKeys key value m n e a)

abbrev entries : Option TaskLabelOverrides → TaskLabelOverrides
entries none = []
entries (some m) = m

normalize_labels-KnownKeys :
    (values o : Option TaskLabelOverrides) → normalize_labels values ≡ ok o → KnownKeys (entries o)
unfolding normalize_labels
normalize_labels-KnownKeys none o h =
    let e : none ≡ o = cc in subst (λ o. KnownKeys (entries o)) e tt
normalize_labels-KnownKeys (some values) o h =
    let (m, e, h) = bind-ok (put_labels values []) _ h in
    let f : some m ≡ o = cc in
    subst (λ o. KnownKeys (entries o)) f (put_labels-KnownKeys values [] m e tt)

of_prompts-ok : (r : Result Refusal Templates) (t : Templates) → of_prompts r ≡ ok t → r ≡ ok t
of_prompts-ok (ok t) t' h = cc
of_prompts-ok (err e) t' h = cc

version_lem : (z : ℤ) → is_current z ≡ true → z ≡ current_version
version_lem (pos n) h = ground arith
version_lem (negsuc n) h = cc

module _ (x : Context) where
  -- Settings that every part of the program may rely on.
  pub record IsNormal (c : Config) : Type 0 where
    pub version : c.version ≡ current_version
    pub language : In c.language languages
    pub prompts : IsAccepted c.prompts
    pub labels : KnownKeys (entries c.task_labels)
    pub port : IsPort c.server.port
    pub interval : minimum_auto_sync_interval_seconds ≤ℤ c.github.auto_sync_interval_seconds
    pub some_host : c.github.hosts ≢ []
    pub own_urls : All (IsOwn x.url) c.github.hosts
    pub host_once : Distinct (host_keys c.github.hosts)
    pub methods : All (IsMethod (host_keys c.github.hosts)) (methods_of c.github)
    pub id_once : Distinct (ids (methods_of c.github))

  cons_some : (v : Host) (vs hs : List Host) → normalize_hosts x [] (v ∷ vs) ≡ ok hs → hs ≢ []
  unfolding normalize_hosts
  cons_some v vs [] h =
      let (host, _, h) = bind-ok (normalize_host_config x.url v) _ h in
      let (_, h) = check-ok (require (not (has_str host.host []))) _ h in
      let (rest, _, h) = bind-ok (normalize_hosts x (host.host ∷ []) vs) _ h in λ e. cc
  cons_some v vs (h' ∷ hs) h = λ e. cc

  hosts_some : (vs hs : List Host) → normalize_hosts x [] (or_default_host vs) ≡ ok hs → hs ≢ []
  hosts_some [] hs h = cons_some default_host [] hs h
  hosts_some (v ∷ vs) hs h = cons_some v vs hs h

  methods-ok :
      (hosts : List Str) (o o' : Option (List AuthMethod))
      → normalize_all_methods x hosts o ≡ ok o'
      → All (IsMethod hosts) (or_none o') × Distinct (ids (or_none o'))
  unfolding normalize_all_methods
  methods-ok hosts none o' h =
      let e : none ≡ o' = cc in
      subst (λ o. All (IsMethod hosts) (or_none o) × Distinct (ids (or_none o))) e (tt, tt)
  methods-ok hosts (some vs) o' h =
      let (ms, a, h) = bind-ok (normalize_methods x hosts [] vs) _ h in
      let (all, _, distinct) = normalize_methods-ok x hosts [] vs ms a in
      let e : some ms ≡ o' = cc in
      subst (λ o. All (IsMethod hosts) (or_none o) × Distinct (ids (or_none o))) e (all, distinct)

  -- Settings that `Normalize` accepts are normal.
  pub normalize-IsNormal : (c d : Config) → normalize x c ≡ ok d → IsNormal d
  normalize-IsNormal c d h =
      let p = normalize-Parts x c d h in
      let (own, _, once) = normalize_hosts-ok x [] (or_default_host c.github.hosts) _ p.hosts in
      let (all, distinct) =
        methods-ok (host_keys d.github.hosts) c.github.auth_methods _ p.methods in
      record {
        version = p.same_version ∙ version_lem c.version p.version;
        language = normalize_language-In c.language d.language p.language;
        prompts =
            normalize-IsAccepted (effective_language x d.language) c.prompts d.prompts
              (of_prompts-ok _ d.prompts p.prompts);
        labels = normalize_labels-KnownKeys c.task_labels d.task_labels p.labels;
        port =
            subst (λ s. IsPort s.port) (sym p.same_server)
              (port_string-IsPort c.server.port p.port.0 p.port.1);
        interval = interval_lem d.github.auto_sync_interval_seconds p.interval;
        some_host = hosts_some c.github.hosts d.github.hosts p.hosts;
        own_urls = own;
        host_once = once;
        methods = all;
        id_once = distinct;
      }

-- ===== src/Config/Yaml/RoundTrip.antt =====
-- internal/config/config.go: settings that are written as YAML and read again.
use next_now_x.Strings.Case.{to_lower}
use next_now_x.Prelude.{
  ◌≡◌, ◌≢◌, inl, inr, refl, sym, ap, ◌∙◌, Str, str_eq, str_eq_iff, [], ◌∷◌, ◌||◌, if◌then◌else◌,
  Option, none, some, ok, ◌>>=◌, Bool-cases, arith,
}
use next_now_x.Strings.Space.{trim_space}
use next_now_x.Domain.Models.{TaskLabelOverrides}
use next_now_x.Prompt.Language.{language_auto_value}
use next_now_x.Prompt.Templates
use next_now_x.Prompt.Templates.{Templates, Refusal, default_templates, filled, or_default}
use next_now_x.Prompt.Templates.Scopes.{normalize-filled, or_default_empty, or_default_same}
use next_now_x.Config.{Config, UpdateConfig, Context, effective_language}
use next_now_x.Config.Port.{IsPort, parse_server_port-port_string}
use next_now_x.Config.Normalize.{normalize, normalize_language}
use next_now_x.Config.Normalize.Parts.{normalize-Parts}
use next_now_x.Config.Normalize.Normal.{normalize-IsNormal}
use next_now_x.Config.Yaml.{
  decode, marshal, own_templates, unless, is_unset, or_unset, or_empty, some_labels, or_no_update,
}

unless_lem : (d v : Str) → or_default d (unless d v) ≡ or_default d v
unless_lem d v = elim (Bool-cases (str_eq v d)) [
  | inl e ↦
      rw (e, unless)
        (or_default_empty d
          ∙ sym (or_default_same d)
          ∙ ap (or_default d) (sym ((str_eq_iff v d).0 e)))
  | inr e ↦ rw (e, unless) refl
]

filled-own_templates : (d t : Templates) → filled d (own_templates d t) ≡ filled d t
unfolding own_templates
filled-own_templates d t = cc (
  unless_lem d.design_text t.design_text,
  unless_lem d.implementation_text t.implementation_text,
  unless_lem d.batch_text t.batch_text,
  unless_lem d.batch_design_text t.batch_design_text,
)

-- Templates that are left out read as empty ones.
left_out : (t : Templates) → or_unset (if is_unset t then none else some t) ≡ t
left_out t = elim (Bool-cases (is_unset t)) [
  | inl e ↦ rw e (
      ground (
        arith,
        str_eq_iff t.design_text [],
        str_eq_iff t.implementation_text [],
        str_eq_iff t.batch_text [],
        str_eq_iff t.batch_design_text [],
      ))
  | inr e ↦ rw e refl
]

update_back :
    (u : UpdateConfig) → or_no_update (if str_eq u.skipped_version [] then none else some u) ≡ u
update_back u = ground (arith, str_eq_iff u.skipped_version [])

no_language : normalize_language [] ≡ normalize_language language_auto_value
unfolding normalize_language trim_space to_lower str_eq
no_language = refl

language_back :
    (l : Str)
    → normalize_language
        (or_empty (if str_eq l [] || str_eq l language_auto_value then none else some l))
      ≡ normalize_language l
language_back l = elim (Bool-cases (str_eq l [])) [
  | inl e ↦ rw e (ap normalize_language (sym ((str_eq_iff l []).0 e)))
  | inr e ↦ elim (Bool-cases (str_eq l language_auto_value)) [
    | inl f ↦
        rw (e, f)
          (no_language ∙ ap normalize_language (sym ((str_eq_iff l language_auto_value).0 f)))
    | inr f ↦ rw (e, f) refl
  ]
]

labels_back : (o : Option TaskLabelOverrides) → o ≢ some [] → some_labels o ≡ o
labels_back none h = refl
labels_back (some []) h = absurd (h refl)
labels_back (some (e ∷ m)) h = refl

module _ (x : Context) where
  -- What `decode` makes of the settings.
  abbrev read_back : Config → Config
  read_back c =
      let own = own_templates (default_templates (effective_language x c.language)) c.prompts in
      record c {
        language = or_empty (
            if str_eq c.language [] || str_eq c.language language_auto_value
            then none
            else some c.language);
        update = or_no_update (if str_eq c.update.skipped_version [] then none else some c.update);
        prompts = or_unset (if is_unset own then none else some own);
        task_labels = some_labels c.task_labels;
      }

  decode-marshal : (c : Config) → IsPort c.server.port → decode (marshal x c) ≡ ok (read_back c)
  unfolding decode marshal
  decode-marshal c p = rw ((parse_server_port-port_string c.server.port).1.1 p) refl

  -- `Normalize` sees of the language and the templates only what it makes of them.
  normalize_same :
      (c : Config) (l k : Str) (t : Templates)
      → normalize_language c.language ≡ ok l
      → normalize_language k ≡ ok l
      → Templates.normalize (effective_language x l) t
        ≡ Templates.normalize (effective_language x l) c.prompts
      → normalize x (record c { language = k; prompts = t }) ≡ normalize x c
  unfolding normalize
  normalize_same c l k t e f g = rw (e, f, g) refl

  templates_back :
      (c : Config)
      → Templates.normalize (effective_language x c.language) (
          or_unset (
            let own =
              own_templates (default_templates (effective_language x c.language)) c.prompts in
            if is_unset own then none else some own))
        ≡ Templates.normalize (effective_language x c.language) c.prompts
  templates_back c =
      let l = effective_language x c.language in
      let own = own_templates (default_templates l) c.prompts in
      ap (Templates.normalize l) (left_out own)
      ∙ normalize-filled l own c.prompts (filled-own_templates (default_templates l) c.prompts)

  -- Settings in normal form are the ones that are read after they are written: keys that are left out,
  -- of the automatic language, of the built-in templates and of the version that is not skipped, are
  -- filled in again. A map of labels that is there without an entry is read as no map.
  pub decode-marshal-normalize :
      (c : Config)
      → normalize x c ≡ ok c
      → c.task_labels ≢ some []
      → (decode (marshal x c) >>= normalize x) ≡ ok c
  decode-marshal-normalize c n h =
      let l = (normalize-Parts x c c n).language in
      let port = (normalize-IsNormal x c c n).port in
      let same : normalize x (read_back c) ≡ normalize x c =
        rw (update_back c.update, labels_back c.task_labels h)
          (normalize_same c c.language _ _ l (language_back c.language ∙ l) (templates_back c)) in
      ap (λ r. r >>= normalize x) (decode-marshal c port) ∙ same ∙ n

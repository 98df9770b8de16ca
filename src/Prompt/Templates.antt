-- ===== src/Prompt/Templates.antt =====
-- internal/prompt/prompt.go: the templates of the four kinds, their built-in texts, and how the
-- scopes are composed.
pub mod Scopes
use next_now_x.Prelude.{◌++◌, Str, codes, [], ◌∷◌, if◌then◌else◌, Result, ok, err, ◌>>=◌, ◌>>◌}
use next_now_x.Domain.Models.{PromptTemplateOverrides, Task}
use next_now_x.Strings.Space.{trim_space}
use next_now_x.Prompt.{
  Kind, design, implementation, batch, batch_design, TemplateError, validate_kind,
  validate_override,
}
use next_now_x.Prompt.Language.{Language, english, japanese}
use next_now_x.Prompt.Defaults

pub record Templates : Type 0 where
  pub design_text : Str
  pub implementation_text : Str
  pub batch_text : Str
  pub batch_design_text : Str

-- `Error`, whose message is the reason.
pub record Refusal : Type 0 where
  pub field : Str
  pub reason : TemplateError

-- `DefaultTemplates`.
unfoldable pub default_templates : Language → Templates
unfolding Defaults.english_design Defaults.english_implementation Defaults.english_batch
    Defaults.english_batch_design Defaults.japanese_design Defaults.japanese_implementation
    Defaults.japanese_batch Defaults.japanese_batch_design
default_templates english = record {
  design_text = Defaults.english_design;
  implementation_text = Defaults.english_implementation;
  batch_text = Defaults.english_batch;
  batch_design_text = Defaults.english_batch_design;
}
default_templates japanese = record {
  design_text = Defaults.japanese_design;
  implementation_text = Defaults.japanese_implementation;
  batch_text = Defaults.japanese_batch;
  batch_design_text = Defaults.japanese_batch_design;
}

-- `KindFor`.
unfoldable pub kind_for : Task → Kind
kind_for task = if task.has_implementation_plan then implementation else design

-- `Template`.
abbrev pub template : Templates → Kind → Str
template t implementation = t.implementation_text
template t batch = t.batch_text
template t batch_design = t.batch_design_text
template t design = t.design_text

abbrev pub override : PromptTemplateOverrides → Kind → Str
override o design = o.design
override o implementation = o.implementation
override o batch = o.batch
override o batch_design = o.batch_design

-- `*item.target = item.value`.
abbrev pub set_template : Kind → Str → Templates → Templates
set_template design value t = record t { design_text = value }
set_template implementation value t = record t { implementation_text = value }
set_template batch value t = record t { batch_text = value }
set_template batch_design value t = record t { batch_design_text = value }

-- `string(kind)`.
abbrev kind_text : Kind → Str
kind_text design = codes "design"
kind_text implementation = codes "implementation"
kind_text batch = codes "batch"
kind_text batch_design = codes "batch_design"

abbrev in_field : Str → Result TemplateError (Unit {0}) → Result Refusal (Unit {0})
in_field name (ok _) = ok tt
in_field name (err e) = err (record { field = name; reason = e })

-- `if trimmed == "" { value = fallback }`.
abbrev if_blank : Str → Str → Str → Str
if_blank [] fallback value = fallback
if_blank (_ ∷ _) fallback value = value

pub or_default : Str → Str → Str
or_default fallback value = if_blank (trim_space value) fallback value

abbrev pub filled : Templates → Templates → Templates
filled defaults t = record {
  design_text = or_default defaults.design_text t.design_text;
  implementation_text = or_default defaults.implementation_text t.implementation_text;
  batch_text = or_default defaults.batch_text t.batch_text;
  batch_design_text = or_default defaults.batch_design_text t.batch_design_text;
}

check_kind : Templates → Kind → Result Refusal (Unit {0})
unfolding validate_kind
check_kind t kind =
    in_field (codes "prompts." ++ kind_text kind) (validate_kind kind (template t kind))

-- The four validations of `Normalize`.
pub checked : Templates → Result Refusal Templates
unfolding check_kind
checked t = do
  check_kind t design
  check_kind t implementation
  check_kind t batch
  check_kind t batch_design
  ok t

-- `Normalize`.
unfoldable pub normalize : Language → Templates → Result Refusal Templates
unfolding or_default checked
normalize language t = checked (filled (default_templates language) t)

abbrev put :
    Str → Kind → Str → Templates → Result TemplateError (Unit {0}) → Result Refusal Templates
put scope kind value t (ok _) = ok (set_template kind value t)
put scope kind value t (err e) =
    err (record { field = scope ++ codes ".prompt_overrides." ++ kind_text kind; reason = e })

-- One round of the loop of `applyOverride`.
apply_kind : Str → Kind → Str → Templates → Result Refusal Templates
unfolding validate_override
apply_kind scope kind [] t = ok t
apply_kind scope kind (c ∷ s) t = put scope kind (c ∷ s) t (validate_override kind (c ∷ s))

-- `applyOverride`.
unfoldable pub apply_override : Str → PromptTemplateOverrides → Templates → Result Refusal Templates
unfolding apply_kind
apply_override scope o t = do
  a ← apply_kind scope design o.design t
  b ← apply_kind scope implementation o.implementation a
  c ← apply_kind scope batch o.batch b
  apply_kind scope batch_design o.batch_design c

-- `Resolve`.
unfoldable pub resolve :
    Language
    → Templates
    → PromptTemplateOverrides
    → PromptTemplateOverrides
    → Result Refusal Templates
unfolding normalize apply_override
resolve language global project feature = do
  base ← normalize language global
  t ← apply_override (codes "project") project base
  apply_override (codes "feature") feature t

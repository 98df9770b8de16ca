-- ===== src/Prompt/Tests.antt =====
-- Runs of the definitions of internal/prompt, and the theorems at concrete inputs.
use next_now_x.Prelude.{
  ◌≡◌, refl, Str, codes, str_eq, has_str, if◌then◌else◌, ok, some, none, [], ◌∷◌,
}
use next_now_x.Domain.Models.{PromptTemplateOverrides, Task, TaskStatus}
use next_now_x.Domain.Fixtures.{a_task}
use next_now_x.Strings.Space.{trim_space}
use next_now_x.Strings.Case.{to_lower}
use next_now_x.Prompt.{design, batch, validate_kind, supported_placeholders, required_placeholder}
use next_now_x.Prompt.Language.{resolve_language_with, japanese, english}
use next_now_x.Prompt.Templates.{
  Templates, default_templates, normalize, resolve, template, override,
}
use next_now_x.Prompt.Templates.Scopes.{
  IsAccepted, unset, first_set, normalize-normalize, normalize-unset, resolve_lem,
}
use next_now_x.Prompt.Render.{render, render_batch, task_kind, task_values, value_of}
use next_now_x.Prompt.Render.Pieces.{Renders, render-Renders}

-- A variable that names no language is passed over.
abbrev locale : Str → Str
locale name = if str_eq name (codes "LC_ALL") then codes "C" else codes "ja_JP.UTF-8"

passes_over_c : resolve_language_with (codes "auto") locale ≡ japanese
unfolding resolve_language_with trim_space to_lower str_eq
passes_over_c = refl

abbrev scope : PromptTemplateOverrides
scope = record {
  design = codes "Do {{ task_id }} of {{feature_id}}.";
  implementation = [];
  batch = codes "{{task_list}}";
  batch_design = [];
}

abbrev inherit : PromptTemplateOverrides
inherit = record { design = []; implementation = []; batch = []; batch_design = [] }

normalize-normalize_example :
    (normalize english (default_templates english) ≡ ok (default_templates english))
    × IsAccepted (default_templates english)
normalize-normalize_example =
    normalize-normalize english unset (default_templates english) (normalize-unset english)

abbrev composed : Templates
composed = record (default_templates english) {
  design_text = scope.design;
  batch_text = scope.batch;
}

resolve_example :
    (template composed design
      ≡ first_set
          (override inherit design)
          (first_set (override scope design) (template (default_templates english) design)))
    × (validate_kind design (template composed design) ≡ ok tt)
unfolding resolve default_templates trim_space has_str str_eq
resolve_example =
    resolve_lem english unset (default_templates english) composed scope inherit
      (normalize-unset english) refl design

-- What a title has of a placeholder is not replaced again.
abbrev task : Task
task = record (a_task (codes "NNX-1") TaskStatus.not_started) { title = codes "{{task_id}}" }

abbrev short : Templates
short = record {
  design_text = codes "{{task_title}} {{ task_id }} of {{feature_id}}: {{task_scope}} {{{";
  implementation_text = codes "{{task_id}}";
  batch_text = codes "All of {{feature_id}}: {{task_list}}";
  batch_design_text = codes "{{task_list}}";
}

render_design :
    render task none short english
    ≡ ok (design, codes "{{task_id}} NNX-1 of f1: (not specified) {{{")
unfolding render trim_space has_str str_eq normalize
render_design = refl

render-Renders_example :
    (t : Templates) × (normalize english short ≡ ok t)
    × (design ≡ task_kind none task)
    × Renders
        (value_of (task_values task))
        supported_placeholders
        required_placeholder
        (template t (task_kind none task))
        (codes "{{task_id}} NNX-1 of f1: (not specified) {{{")
render-Renders_example = render-Renders task none short english design _ render_design

render_tasks :
    render_batch (codes "f1") (task ∷ task ∷ []) (some design) short english
    ≡ ok (batch, codes "All of f1: - NNX-1: {{task_id}}\n- NNX-1: {{task_id}}")
unfolding render_batch trim_space has_str str_eq normalize
render_tasks = refl

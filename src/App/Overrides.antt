-- ===== src/App/Overrides.antt =====
-- `applyPromptOverrides` of internal/app/project.go and `applyTaskLabelOverrides` of
-- internal/app/task_labels.go: the partial updates that projects and features share.
use next_now_x.Prelude.{
  Str, str_eq, [], ◌∷◌, Option, some, none, ◌&&◌, not, if◌then◌else◌, keep, lookup_str, Result, ok,
  err, ◌>>=◌,
}
use next_now_x.Strings.Space.{trim_space}
use next_now_x.Strings.Case.{to_lower}
use next_now_x.Domain.Models.{
  PromptTemplateOverrides, PromptTemplateOverridesUpdate, TaskLabelOverride, TaskLabelOverrides,
  TaskLabelOverrideUpdate, TaskLabelOverridesUpdate, Error, new_error, invalid_prompt_template,
  invalid_task_label,
}
use next_now_x.Domain.Labels.Keys.{is_task_label_key}
use next_now_x.Domain.Labels.Normal.{LabelError, normalize_text, normalize_color}
use next_now_x.Prompt.{Kind, design, implementation, batch, batch_design, validate_override}
use next_now_x.App.Archive.{is_empty}

-- One round of the loop: the new value of the template.
apply_prompt : Kind → Option Str → Str → Result Error Str
unfolding validate_override
apply_prompt kind none current = ok current
apply_prompt kind (some value) current = elim (validate_override kind value) [
  | err _ ↦ err (new_error invalid_prompt_template)
  | ok _ ↦ ok value
]

unfoldable pub apply_prompt_overrides :
    PromptTemplateOverridesUpdate → PromptTemplateOverrides → Result Error PromptTemplateOverrides
unfolding apply_prompt
apply_prompt_overrides update current = do
  d ← apply_prompt design update.design current.design
  i ← apply_prompt implementation update.implementation current.implementation
  b ← apply_prompt batch update.batch current.batch
  bd ← apply_prompt batch_design update.batch_design current.batch_design
  ok (record { design = d; implementation = i; batch = b; batch_design = bd })

-- `delete(m, key)` and `m[key] = value` on a map that is a list of its entries.
abbrev delete_key : Str → TaskLabelOverrides → TaskLabelOverrides
delete_key key m = keep (λ e. not (str_eq e.0 key)) m

abbrev no_override : TaskLabelOverride
no_override = record { text = []; color = [] }

abbrev normal_or : (Str → Result LabelError Str) → Option Str → Str → Result Error Str
normal_or normalize none current = ok current
normal_or normalize (some value) current = elim (normalize value) [
  | err _ ↦ err (new_error invalid_task_label)
  | ok text ↦ ok text
]

abbrev store_label : Str → TaskLabelOverride → TaskLabelOverrides → TaskLabelOverrides
store_label key value m =
    if is_empty value.text && is_empty value.color
    then delete_key key m
    else (key, value) ∷ delete_key key m

-- One round of the loop.
apply_label : TaskLabelOverrides → Str × TaskLabelOverrideUpdate → Result Error TaskLabelOverrides
unfolding keep lookup_str is_task_label_key normalize_text normalize_color trim_space to_lower
apply_label current (key, item) =
    let normalized = to_lower (trim_space key) in
    let value : TaskLabelOverride = elim (lookup_str normalized current) [
      | none ↦ no_override
      | some v ↦ v
    ] in
    if not (is_task_label_key normalized) then err (new_error invalid_task_label) else do
      text ← normal_or normalize_text item.text value.text
      color ← normal_or normalize_color item.color value.color
      ok (store_label normalized (record { text = text; color = color }) current)

-- The loop, in the order in which the entries of the update are met.
unfoldable pub apply_label_overrides :
    TaskLabelOverridesUpdate → TaskLabelOverrides → Result Error TaskLabelOverrides
unfolding apply_label
apply_label_overrides [] current = ok current
apply_label_overrides (entry ∷ entries) current =
    apply_label current entry >>= λ next. apply_label_overrides entries next

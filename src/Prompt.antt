-- ===== src/Prompt.antt =====
-- internal/prompt/prompt.go: the kinds of templates and the validation of a template.
pub mod Language
pub mod Defaults
pub mod Templates
pub mod Render
mod Tests
use next_now_x.Prelude.{
  Option, some, none, In, All, has_str_iff, ◌≡◌, ◌↔◌, ◌≤◌, refl, arith, ℕ, ◌++◌, Str, codes, List,
  [], ◌∷◌, Bool, true, false, not, ◌==◌, ltb, has_str, length, if◌then◌else◌, Result, ok, err,
}
use next_now_x.Strings.Space.{trim_space}

-- `Kind`; its other texts reach no function that is modelled.
pub data Kind : Type 0 where
  design implementation batch batch_design : Kind

abbrev is_batch : Kind → Bool
is_batch design = false
is_batch implementation = false
is_batch batch = true
is_batch batch_design = true

abbrev required_placeholder : Str
required_placeholder = codes "task_id"

abbrev supported_placeholders : List Str
supported_placeholders =
    required_placeholder ∷ codes "feature_id" ∷ codes "task_title" ∷ codes "task_scope" ∷ []

abbrev batch_required_placeholder : Str
batch_required_placeholder = codes "task_list"

abbrev batch_supported_placeholders : List Str
batch_supported_placeholders = batch_required_placeholder ∷ codes "feature_id" ∷ []

-- Where the scanner for `\{\{([^{}]*)\}\}` stands: outside, behind one opening brace, inside with
-- the name so far, and behind one closing brace.
pub data Place : Type 0 where
  outside brace : Place
  inside closing : Str → Place

step_inside : Str → ℕ → Place
step_inside [] c =
    if c == b'{' then inside [] else if c == b'}' then closing [] else inside (c ∷ [])
step_inside (a ∷ s) c =
    if c == b'{' then brace else if c == b'}' then closing (a ∷ s) else inside ((a ∷ s) ++ c ∷ [])

scan_step : Place → ℕ → Place
unfolding step_inside
scan_step outside c = if c == b'{' then brace else outside
scan_step brace c = if c == b'{' then inside [] else outside
scan_step (inside s) c = step_inside s c
scan_step (closing s) c = if c == b'{' then brace else outside

-- The name of the placeholder that the next byte ends, if it ends one.
ended : Place → ℕ → Option Str
ended outside c = none
ended brace c = none
ended (inside s) c = none
ended (closing s) c = if c == b'}' then some (trim_space s) else none

scan : Place → Str → List Str
unfolding scan_step ended
scan p [] = []
scan p (c ∷ s) =
    let rest = scan (scan_step p c) s in elim (ended p c) [ none ↦ rest | some name ↦ name ∷ rest ]

-- The names of `placeholderPattern.FindAllString(value, -1)`, by `placeholderName`.
unfoldable pub placeholders : Str → List Str
unfolding scan
placeholders s = scan outside s

pub data TemplateError : Type 0 where
  too_long missing_required : TemplateError
  unsupported : Str → TemplateError

-- The loop over the matches.
check_names : List Str → List Str → Result TemplateError (Unit {0})
check_names supported [] = ok tt
check_names supported (name ∷ names) =
    let rest = check_names supported names in
    if not (has_str name supported) then err (unsupported name) else rest

-- `validateTemplate`.
unfoldable pub validate_template : Str → List Str → Str → Result TemplateError (Unit {0})
unfolding check_names placeholders
validate_template value supported required =
    if ltb 8192 (length value)
    then err too_long
    else elim (check_names supported (placeholders value)) [
      | err e ↦ err e
      | ok _ ↦ if has_str required (placeholders value) then ok tt else err missing_required
    ]

-- The vocabulary of the kind.
unfoldable pub validate_kind : Kind → Str → Result TemplateError (Unit {0})
unfolding validate_template
validate_kind kind value =
    if is_batch kind
    then validate_template value batch_supported_placeholders batch_required_placeholder
    else validate_template value supported_placeholders required_placeholder

-- `ValidateOverride`.
unfoldable pub validate_override : Kind → Str → Result TemplateError (Unit {0})
unfolding validate_kind
validate_override kind [] = ok tt
validate_override kind (c ∷ s) = validate_kind kind (c ∷ s)

check_names_iff :
    (supported names : List Str)
    → (check_names supported names ≡ ok tt) ↔ All (λ name. In name supported) names
unfolding check_names
check_names_iff supported [] = (λ h. tt, λ h. refl)
check_names_iff supported (name ∷ names) =
    ground (arith, has_str_iff name supported, check_names_iff supported names)

-- A template is accepted exactly if it has at most 8192 bytes, each of its placeholders is supported,
-- and the required one is among them.
pub validate_template_iff :
    (value : Str) (supported : List Str) (required : Str)
    → (validate_template value supported required ≡ ok tt) ↔ (
        (length value ≤ 8192)
        × All (λ name. In name supported) (placeholders value)
        × In required (placeholders value))
unfolding validate_template
validate_template_iff value supported required = ground (
  arith,
  check_names_iff supported (placeholders value),
  has_str_iff required (placeholders value),
)

-- ===== src/Prompt/Render.antt =====
-- internal/prompt/prompt.go: `Render` and `RenderBatch`, which put values in the place of the
-- placeholders of a template.
pub mod Pieces
use next_now_x.Prelude.{
  ◌≡◌, refl, ◌++◌, ℕ, Str, codes, List, [], ◌∷◌, Bool, true, false, ◌==◌, if◌then◌else◌, Option,
  none, some, Result, ok, err, ◌>>=◌, ◌>>◌, map, lookup_str, arith,
}
use next_now_x.Domain.Models.{Task}
use next_now_x.Strings.Space.{trim_space}
use next_now_x.Prompt.{
  Kind, design, implementation, batch, batch_design, Place, outside, brace, inside, closing,
  scan_step, ended,
}
use next_now_x.Prompt.Language.{Language}
use next_now_x.Prompt.Templates.{Templates, Refusal, normalize, template, kind_for}

-- The text read so far that may yet become a placeholder.
pending : Place → Str
pending outside = []
pending brace = b'{' ∷ []
pending (inside s) = b'{' ∷ b'{' ∷ s
pending (closing s) = b'{' ∷ b'{' ∷ s ++ b'}' ∷ []

kept_inside : Str → ℕ → Str
kept_inside [] c = if c == b'{' then b'{' ∷ [] else []
kept_inside (a ∷ s) c = if c == b'{' then b'{' ∷ b'{' ∷ a ∷ s else []

-- The text that the next byte shows to be outside of the placeholders.
kept : Place → ℕ → Str
unfolding kept_inside
kept outside c = if c == b'{' then [] else c ∷ []
kept brace c = if c == b'{' then [] else b'{' ∷ c ∷ []
kept (inside s) c = kept_inside s c
kept (closing s) c =
    if c == b'}'
    then []
    else if c == b'{'
    then b'{' ∷ b'{' ∷ s ++ b'}' ∷ []
    else b'{' ∷ b'{' ∷ s ++ b'}' ∷ c ∷ []

-- `ReplaceAllStringFunc` with a function on the name of the placeholder.
expand : (Str → Str) → Place → Str → Str
unfolding pending kept
expand value p [] = pending p
expand value p (c ∷ s) =
    let rest = expand value (scan_step p c) s in
    kept p c ++ elim (ended p c) [ none ↦ rest | some name ↦ value name ++ rest ]

unfoldable pub replace_placeholders : (Str → Str) → Str → Str
unfolding expand scan_step ended
replace_placeholders value s = expand value outside s

-- `values[name]`, where a missing key reads as the empty text.
abbrev pub value_of : List (Str × Str) → Str → Str
value_of values name = elim (lookup_str name values) [ none ↦ [] | some v ↦ v ]

abbrev unspecified_scope : Str
unspecified_scope = codes "(not specified)"

abbrev if_blank : Str → Str → Str
if_blank [] scope = unspecified_scope
if_blank (_ ∷ _) scope = scope

unfoldable pub described_scope : Str → Str
described_scope scope = if_blank (trim_space scope) scope

-- `strings.Join(lines, "\n")` of the lines.
join_lines : List Str → Str
join_lines [] = []
join_lines (l ∷ []) = l
join_lines (l ∷ m ∷ ls) = l ++ b'\n' ∷ join_lines (m ∷ ls)

unfoldable pub batch_task_list : List Task → Str
unfolding join_lines
batch_task_list tasks =
    join_lines (map (λ (t : Task). codes "- " ++ t.id ++ codes ": " ++ t.title) tasks)

-- The kind of `Render`; `none` stands for the texts that are no kind.
unfoldable pub task_kind : Option Kind → Task → Kind
unfolding kind_for
task_kind (some design) task = design
task_kind (some implementation) task = implementation
task_kind _ task = kind_for task

unfoldable pub batch_kind : Option Kind → Kind
batch_kind (some batch_design) = batch_design
batch_kind _ = batch

pub task_values : Task → List (Str × Str)
unfolding described_scope
task_values task =
    (codes "task_id", task.id)
    ∷ (codes "feature_id", task.feature_id)
    ∷ (codes "task_title", task.title)
    ∷ (codes "task_scope", described_scope task.scope)
    ∷ []

pub batch_values : Str → List Task → List (Str × Str)
unfolding batch_task_list
batch_values feature_id tasks =
    (codes "feature_id", feature_id) ∷ (codes "task_list", batch_task_list tasks) ∷ []

unfoldable pub render : Task → Option Kind → Templates → Language → Result Refusal (Kind × Str)
unfolding task_kind task_values replace_placeholders lookup_str
render task kind templates language = do
  normalized ← normalize language templates
  let k = task_kind kind task
  ok (k, replace_placeholders (value_of (task_values task)) (template normalized k))

unfoldable pub render_batch :
    Str → List Task → Option Kind → Templates → Language → Result Refusal (Kind × Str)
unfolding batch_kind batch_values replace_placeholders lookup_str
render_batch feature_id tasks kind templates language = do
  normalized ← normalize language templates
  let k = batch_kind kind
  ok (k, replace_placeholders (value_of (batch_values feature_id tasks)) (template normalized k))

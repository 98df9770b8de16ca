-- ===== src/Domain/Labels/Resolve.antt =====
-- internal/domain/task_labels.go, lines 150 to 204: the built-in appearances, and the overrides of the
-- global settings, the project and the feature over them.
pub mod Precedence
use next_now_x.Prelude.{
  Str, codes, str_eq, List, [], ◌∷◌, Bool, true, false, Option, some, none, map, foldl, lookup_str,
  ◌==◌, if◌then◌else◌,
}
use next_now_x.Domain.Models.{
  TaskLabelOverride, TaskLabelOverrides, TaskLabelAppearance, TaskLabelAppearances,
}
use next_now_x.Domain.Labels.Keys.{task_label_keys}

-- `result[key] = appearance`, for a map that is read and iterated over later: a key stands once.
pub put : Str → TaskLabelAppearance → TaskLabelAppearances → TaskLabelAppearances
put k v [] = (k, v) ∷ []
put k v ((j, w) ∷ m) = let rest = put k v m in if str_eq j k then (j, v) ∷ m else (j, w) ∷ rest

-- `value[strings.IndexByte(value, '.')+1:]`: all of a text with no dot.
after_first_dot : Str → Option Str
after_first_dot [] = none
after_first_dot (c ∷ s) = let rest = after_first_dot s in if c == b'.' then some s else rest

after_dot : Str → Str
unfolding after_first_dot
after_dot value = elim (after_first_dot value) [ none ↦ value | some s ↦ s ]

built_in_text : Str → TaskLabelAppearance
unfolding after_dot
built_in_text key = record {
  text = after_dot key;
  color = [];
  text_overridden = false;
  color_overridden = false;
}

-- The literal map `colors`.
colors : List (Str × Str)
colors =
    (codes "status.not_started", codes "#0c715a")
    ∷ (codes "status.designing", codes "#0b6a8f")
    ∷ (codes "status.designed", codes "#0b6a8f")
    ∷ (codes "status.in_progress", codes "#0c715a")
    ∷ (codes "status.implemented", codes "#0c715a")
    ∷ (codes "status.in_review", codes "#7b5100")
    ∷ (codes "status.approved", codes "#7b5100")
    ∷ (codes "status.completed", codes "#8250df")
    ∷ (codes "status.merged", codes "#8250df")
    ∷ (codes "status.closed", codes "#747d89")
    ∷ (codes "status.unknown", codes "#747d89")
    ∷ (codes "block.dependency_unresolved", codes "#7b5100")
    ∷ (codes "block.conflict", codes "#a9322f")
    ∷ (codes "block.changes_requested", codes "#a9322f")
    ∷ (codes "block.ci_failed", codes "#a9322f")
    ∷ (codes "block.unknown", codes "#a9322f")
    ∷ []

abbrev no_appearance : TaskLabelAppearance
no_appearance = record { text = []; color = []; text_overridden = false; color_overridden = false }

-- The loop over `colors`: a key that is missing reads as the zero appearance.
set_color : TaskLabelAppearances → Str × Str → TaskLabelAppearances
unfolding lookup_str put
set_color result (key, color) =
    let appearance : TaskLabelAppearance = elim (lookup_str key result) [
      | none ↦ no_appearance
      | some a ↦ a
    ] in
    put key (record appearance { color = color }) result

-- `BuiltInTaskLabelAppearances`.
unfoldable pub built_in : TaskLabelAppearances
unfolding set_color colors built_in_text task_label_keys put str_eq
built_in = foldl set_color (map (λ key. (key, built_in_text key)) task_label_keys) colors

abbrev is_empty : Str → Bool
is_empty [] = true
is_empty (_ ∷ _) = false

-- What one override changes of an appearance.
pub override : TaskLabelAppearance → TaskLabelOverride → TaskLabelAppearance
override a value = record {
  text = if is_empty value.text then a.text else value.text;
  color = if is_empty value.color then a.color else value.color;
  text_overridden = if is_empty value.text then a.text_overridden else true;
  color_overridden = if is_empty value.color then a.color_overridden else true;
}

-- The body of the inner loop: an unknown key is passed over.
pub apply_entry : TaskLabelAppearances → Str × TaskLabelOverride → TaskLabelAppearances
unfolding lookup_str put override
apply_entry result (key, value) = elim (lookup_str key result) [
  | none ↦ result
  | some a ↦ put key (override a value) result
]

-- `ResolveTaskLabelAppearances`.
unfoldable pub resolve :
    TaskLabelOverrides → TaskLabelOverrides → TaskLabelOverrides → TaskLabelAppearances
unfolding built_in apply_entry
resolve global project feature =
    foldl apply_entry (foldl apply_entry (foldl apply_entry built_in global) project) feature

-- ===== src/Domain/Labels/Keys.antt =====
-- internal/domain/task_labels.go, lines 12 to 55 and 206 to 246: the keys, and the keys of the states
-- and the block labels.
use next_now_x.Prelude.{
  ◌≡◌, refl, sym, ap, ◌∙◌, ◌++◌, Str, codes, str_eq, List, [], ◌∷◌, Bool, true, Option, some, none,
  map, has_str, sort_strings, if◌then◌else◌,
}
use next_now_x.Domain.Models.{TaskDisplayState, TaskBlockLabel, TaskLabelOverrides}

-- `string(state)` and `string(label)`.
unfoldable display_state_text : TaskDisplayState → Str
display_state_text TaskDisplayState.not_started = codes "not_started"
display_state_text TaskDisplayState.designing = codes "designing"
display_state_text TaskDisplayState.designed = codes "designed"
display_state_text TaskDisplayState.in_progress = codes "in_progress"
display_state_text TaskDisplayState.implemented = codes "implemented"
display_state_text TaskDisplayState.in_review = codes "in_review"
display_state_text TaskDisplayState.approved = codes "approved"
display_state_text TaskDisplayState.merged = codes "merged"
display_state_text TaskDisplayState.completed = codes "completed"
display_state_text TaskDisplayState.closed = codes "closed"
display_state_text TaskDisplayState.unknown = codes "unknown"

unfoldable block_label_text : TaskBlockLabel → Str
block_label_text TaskBlockLabel.dependency_unresolved = codes "dependency_unresolved"
block_label_text TaskBlockLabel.conflict = codes "conflict"
block_label_text TaskBlockLabel.changes_requested = codes "changes_requested"
block_label_text TaskBlockLabel.ci_failed = codes "ci_failed"

-- `taskLabelKeys`.
unfoldable pub task_label_keys : List Str
task_label_keys =
    codes "status.not_started"
    ∷ codes "status.designing"
    ∷ codes "status.designed"
    ∷ codes "status.in_progress"
    ∷ codes "status.implemented"
    ∷ codes "status.in_review"
    ∷ codes "status.approved"
    ∷ codes "status.completed"
    ∷ codes "status.merged"
    ∷ codes "status.closed"
    ∷ codes "status.unknown"
    ∷ codes "block.dependency_unresolved"
    ∷ codes "block.conflict"
    ∷ codes "block.changes_requested"
    ∷ codes "block.ci_failed"
    ∷ codes "block.unknown"
    ∷ []

unfoldable pub key_for_display_state : TaskDisplayState → Str
unfolding display_state_text
key_for_display_state TaskDisplayState.unknown = codes "status.unknown"
key_for_display_state state = codes "status." ++ display_state_text state

unfoldable pub key_for_block_label : TaskBlockLabel → Str
unfolding block_label_text
key_for_block_label label = codes "block." ++ block_label_text label

-- `SortedTaskLabelKeys`.
unfoldable sorted_task_label_keys : TaskLabelOverrides → List Str
unfolding sort_strings
sorted_task_label_keys values = sort_strings (map (λ e. e.0) values)

-- `isTaskLabelKey` of internal/app/task_labels.go.
unfoldable pub is_task_label_key : Str → Bool
unfolding task_label_keys has_str str_eq
is_task_label_key key = has_str key task_label_keys

-- The state or label that a key of a real state or label stands for.
pub data Shown : Type 0 where
  state : TaskDisplayState → Shown
  block : TaskBlockLabel → Shown

abbrev pub key_of : Shown → Str
key_of (state s) = key_for_display_state s
key_of (block l) = key_for_block_label l

-- Reads a key back.
shown_states : List Shown
shown_states =
    state TaskDisplayState.not_started
    ∷ state TaskDisplayState.designing
    ∷ state TaskDisplayState.designed
    ∷ state TaskDisplayState.in_progress
    ∷ state TaskDisplayState.implemented
    ∷ state TaskDisplayState.in_review
    ∷ state TaskDisplayState.approved
    ∷ state TaskDisplayState.merged
    ∷ state TaskDisplayState.completed
    ∷ state TaskDisplayState.closed
    ∷ state TaskDisplayState.unknown
    ∷ block TaskBlockLabel.dependency_unresolved
    ∷ block TaskBlockLabel.conflict
    ∷ block TaskBlockLabel.changes_requested
    ∷ block TaskBlockLabel.ci_failed
    ∷ []

find_shown : Str → List Shown → Option Shown
find_shown key [] = none
find_shown key (x ∷ xs) = if str_eq (key_of x) key then some x else find_shown key xs

find_shown-key_of : (x : Shown) → find_shown (key_of x) shown_states ≡ some x
unfolding find_shown shown_states str_eq key_for_display_state key_for_block_label
find_shown-key_of (state TaskDisplayState.not_started) = refl
find_shown-key_of (state TaskDisplayState.designing) = refl
find_shown-key_of (state _) = refl
find_shown-key_of (block TaskBlockLabel.dependency_unresolved) = refl
find_shown-key_of (block _) = refl

-- Every state and every block label has a key of the list.
key_of-is_task_label_key : (x : Shown) → is_task_label_key (key_of x) ≡ true
unfolding is_task_label_key key_for_display_state key_for_block_label
key_of-is_task_label_key (state TaskDisplayState.not_started) = refl
key_of-is_task_label_key (state TaskDisplayState.designing) = refl
key_of-is_task_label_key (state _) = refl
key_of-is_task_label_key (block TaskBlockLabel.dependency_unresolved) = refl
key_of-is_task_label_key (block _) = refl

-- Different states and block labels have different keys.
pub key_of-injective : (x y : Shown) → key_of x ≡ key_of y → x ≡ y
key_of-injective x y e =
    let found : some x ≡ some y =
      sym (find_shown-key_of x) ∙ ap (λ k. find_shown k shown_states) e ∙ find_shown-key_of y in
    cc

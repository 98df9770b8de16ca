-- ===== src/Domain/Labels/Normal.antt =====
-- internal/domain/task_labels.go, lines 84 to 148: validation and normal form of an override.
pub mod Idempotent
use next_now_x.Prelude.{
  ◌≡◌, ◌≢◌, ◌↔◌, refl, ap, sym, ◌∙◌, ◌⊎◌, inl, inr, ℕ, ◌≤◌, Str, codes, List, [], ◌∷◌, Bool, true,
  false, not, ◌&&◌, ◌||◌, leb, ltb, ◌==◌, if◌then◌else◌, Result, ok, err, ◌>>=◌, ◌>>◌, Bool-cases,
  arith,
}
use next_now_x.Domain.Models.{TaskLabelOverride, TaskLabelOverrides}
use next_now_x.Domain.Labels.Keys.{is_task_label_key}
use next_now_x.Strings.Space.{trim_space, trim_space-trim_space, within}
use next_now_x.Strings.Utf8.{valid_string, rune_count, any_of_runes, is_control}
use next_now_x.Strings.Case.{to_lower, lower_byte}

pub data LabelError : Type 0 where
  invalid_utf8 control_character too_long not_a_color : LabelError
  unknown_key : Str → LabelError

-- The loop's test: a newline, a carriage return or a control character.
is_refused : ℕ → Bool
unfolding is_control
is_refused r = r == 0x0a || (r == 0x0d || is_control r)

-- The tests of `NormalizeTaskLabelText` on text that is trimmed and not empty.
check_text : Str → Result LabelError Str
unfolding is_refused
check_text value =
    if not (valid_string value)
    then err invalid_utf8
    else if any_of_runes is_refused value
    then err control_character
    else if ltb 32 (rune_count value)
    then err too_long
    else ok value

trimmed_text : Str → Result LabelError Str
unfolding check_text
trimmed_text [] = ok []
trimmed_text (c ∷ s) = check_text (c ∷ s)

-- `NormalizeTaskLabelText`.
unfoldable pub normalize_text : Str → Result LabelError Str
unfolding trimmed_text
normalize_text value = trimmed_text (trim_space value)

is_hex : ℕ → Bool
is_hex b = within b'0' b'9' b || (within b'a' b'f' b || within b'A' b'F' b)

-- The pattern `^#[0-9a-fA-F]{6}$`.
is_color : Str → Bool
unfolding is_hex
is_color (h ∷ a ∷ b ∷ c ∷ d ∷ e ∷ f ∷ []) =
    h == b'#' && (is_hex a && (is_hex b && (is_hex c && (is_hex d && (is_hex e && is_hex f)))))
is_color _ = false

trimmed_color : Str → Result LabelError Str
trimmed_color [] = ok []
trimmed_color (c ∷ s) = if is_color (c ∷ s) then ok (to_lower (c ∷ s)) else err not_a_color

-- `NormalizeTaskLabelColor`.
unfoldable pub normalize_color : Str → Result LabelError Str
unfolding trimmed_color is_color
normalize_color value = trimmed_color (trim_space value)

-- `NormalizeTaskLabelOverride`.
unfoldable pub normalize_override : TaskLabelOverride → Result LabelError TaskLabelOverride
unfolding normalize_text normalize_color
normalize_override value = do
  text ← normalize_text value.text
  color ← normalize_color value.color
  ok (record { text = text; color = color })

-- `ValidateTaskLabelOverrides`. The code meets the entries of the map in any order, which decides
-- only which error is reported.
unfoldable validate_overrides : TaskLabelOverrides → Result LabelError (Unit {0})
unfolding normalize_override is_task_label_key
validate_overrides [] = ok tt
validate_overrides ((key, value) ∷ rest) =
    let others = validate_overrides rest in
    if is_task_label_key key
    then elim (normalize_override value) [ ok _ ↦ others | err e ↦ err e ]
    else err (unknown_key key)

-- ===== src/Domain/Tests/LabelTests.antt =====
-- Runs of the definitions of internal/domain/task_labels.go, and the theorems at concrete inputs.
use next_now_x.Prelude.{◌≡◌, ◌≤◌, refl, codes, some, [], ◌∷◌, false, ok, lookup_str}
use next_now_x.Domain.Models.{TaskLabelOverrides, TaskLabelAppearance}
use next_now_x.Domain.Labels.Normal.{normalize_text}
use next_now_x.Domain.Labels.Normal.Idempotent.{normalize_text-normal}
use next_now_x.Domain.Labels.Resolve.{built_in, resolve}
use next_now_x.Domain.Labels.Resolve.Precedence.{IsMap, Shows, resolve-Shows}
use next_now_x.Strings.Utf8.{rune_count, valid_string, any_of_runes}
use next_now_x.Strings.Space.{trim_space}

normalize_text-normal_example :
    (rune_count (codes "Doing") ≤ 32) × (normalize_text (codes "Doing") ≡ ok (codes "Doing"))
unfolding normalize_text trim_space valid_string any_of_runes rune_count
normalize_text-normal_example = normalize_text-normal (codes "  Doing ") (codes "Doing") refl

abbrev global : TaskLabelOverrides
global = (codes "status.merged", record { text = codes "Done"; color = [] }) ∷ []

abbrev feature : TaskLabelOverrides
feature = (codes "status.merged", record { text = []; color = codes "#000000" }) ∷ []

abbrev merged_appearance : TaskLabelAppearance
merged_appearance = record {
  text = codes "merged";
  color = codes "#8250df";
  text_overridden = false;
  color_overridden = false;
}

merged_built_in : lookup_str (codes "status.merged") built_in ≡ some merged_appearance
unfolding built_in lookup_str
merged_built_in = refl

maps : IsMap global × IsMap [] × IsMap feature
unfolding lookup_str
maps = ((refl, tt), tt, (refl, tt))

resolve-Shows_example :
    (r : TaskLabelAppearance) × (lookup_str (codes "status.merged") (resolve global [] feature)
      ≡ some r)
    × Shows global [] feature (codes "status.merged") merged_appearance merged_built_in maps r
resolve-Shows_example =
    resolve-Shows global [] feature (codes "status.merged") merged_appearance merged_built_in maps

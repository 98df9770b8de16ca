-- ===== src/Domain/Labels/Resolve/Precedence.antt =====
-- `ResolveTaskLabelAppearances` of internal/domain/task_labels.go: which scope decides a label.
use mathlib.Core.Option
use next_now_x.Prelude.{
  ◌≡◌, refl, ap, ◌∙◌, Str, str_eq, str_eq_iff, [], ◌∷◌, some, none, foldl, lookup_str,
  if◌then◌else◌, Option-cases, inl, inr, arith,
}
use next_now_x.Domain.Models.{
  TaskLabelOverride, TaskLabelOverrides, TaskLabelAppearance, TaskLabelAppearances,
}
use next_now_x.Domain.Labels.Resolve.{put, override, apply_entry, built_in, resolve}

-- A map of Go: no key stands twice.
abbrev pub IsMap : TaskLabelOverrides → Type 0
IsMap [] = Unit
IsMap ((k, v) ∷ m) = (lookup_str k m ≡ none) × IsMap m

-- The override of a scope, if it has one for the key.
abbrev override_by : TaskLabelOverrides → Str → TaskLabelAppearance → TaskLabelAppearance
override_by overrides key a = elim (lookup_str key overrides) [
  | none ↦ a
  | some value ↦ override a value
]

lookup_str-put :
    (j k : Str) (v : TaskLabelAppearance) (m : TaskLabelAppearances)
    → lookup_str j (put k v m) ≡ (if str_eq k j then some v else lookup_str j m)
unfolding lookup_str put
lookup_str-put j k v [] = refl
lookup_str-put j k v ((i, w) ∷ m) =
    ground (arith, str_eq_iff k j, str_eq_iff i k, str_eq_iff i j, lookup_str-put j k v m)

lookup_str-apply_entry :
    (j k : Str) (v : TaskLabelOverride) (m : TaskLabelAppearances)
    → lookup_str j (apply_entry m (k, v))
      ≡ (if str_eq k j then Option.map (λ a. override a v) (lookup_str j m) else lookup_str j m)
unfolding apply_entry
lookup_str-apply_entry j k v m = elim (Option-cases (lookup_str k m)) [
  | inl missing ↦ ground (arith, str_eq_iff k j)
  | inr (a, found) ↦ ground (arith, str_eq_iff k j, lookup_str-put j k (override a v) m)
]

lookup_str-foldl :
    (j : Str) (overrides : TaskLabelOverrides) (m : TaskLabelAppearances)
    → IsMap overrides
    → lookup_str j (foldl apply_entry m overrides)
      ≡ Option.map (override_by overrides j) (lookup_str j m)
unfolding lookup_str
lookup_str-foldl j [] m h = ground arith
lookup_str-foldl j ((k, v) ∷ rest) m h =
    lookup_str-foldl j rest (apply_entry m (k, v)) h.1
    ∙ ap (Option.map (override_by rest j)) (lookup_str-apply_entry j k v m)
    ∙ ground (arith, str_eq_iff k j, ap (λ i. lookup_str i rest))

-- The text or colour that a scope sets, where the empty one leaves it to the scope outside.
abbrev or_else : Str → Str → Str
or_else [] outer = outer
or_else (c ∷ s) outer = c ∷ s

abbrev text_in : TaskLabelOverrides → Str → Str
text_in overrides key = elim (lookup_str key overrides) [ none ↦ [] | some v ↦ v.text ]

abbrev color_in : TaskLabelOverrides → Str → Str
color_in overrides key = elim (lookup_str key overrides) [ none ↦ [] | some v ↦ v.color ]

override_by-fields :
    (overrides : TaskLabelOverrides) (key : Str) (a : TaskLabelAppearance)
    → ((override_by overrides key a).text ≡ or_else (text_in overrides key) a.text)
      × ((override_by overrides key a).color ≡ or_else (color_in overrides key) a.color)
unfolding override
override_by-fields overrides key a = ground arith

-- The appearance of a key `key` that is built in, when each scope is a map.
module _ (global project feature : TaskLabelOverrides) (key : Str) (a : TaskLabelAppearance)
    (known : lookup_str key built_in ≡ some a)
    (maps : IsMap global × IsMap project × IsMap feature) where
  -- What a label shows.
  pub record Shows (r : TaskLabelAppearance) : Type 0 where
    pub text :
        r.text
        ≡ or_else
            (text_in feature key)
            (or_else (text_in project key) (or_else (text_in global key) a.text))
    pub color :
        r.color
        ≡ or_else
            (color_in feature key)
            (or_else (color_in project key) (or_else (color_in global key) a.color))

  -- A known label has the text and the colour of the innermost scope that sets it: of the feature,
  -- else of the project, else of the global settings, else the built-in one.
  pub resolve-Shows :
      (r : TaskLabelAppearance) × (lookup_str key (resolve global project feature) ≡ some r)
      × Shows r
  unfolding resolve
  resolve-Shows =
      let g = override_by global key a in
      let p = override_by project key g in
      let (text_g, color_g) = override_by-fields global key a in
      let (text_p, color_p) = override_by-fields project key g in
      let (text_f, color_f) = override_by-fields feature key p in
      (
        override_by feature key p,
        lookup_str-foldl key feature (foldl apply_entry (foldl apply_entry built_in global) project)
              maps.2
            ∙ ap (Option.map (override_by feature key)) (
                lookup_str-foldl key project (foldl apply_entry built_in global) maps.1
                ∙ ap (Option.map (override_by project key)) (
                    lookup_str-foldl key global built_in maps.0
                    ∙ ap (Option.map (override_by global key)) known)),
        record { text = cc; color = cc },
      )

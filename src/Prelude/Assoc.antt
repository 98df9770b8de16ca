-- ===== src/Prelude/Assoc.antt =====
-- Go maps with string keys that are only written and read: the newest entry of a key stands first.
use mathlib.Core.Path.{◌≡◌, refl}
use mathlib.Core.Logic.{◌↔◌}
use mathlib.Core.Bool.{Bool, true, false, ◌||◌}
use mathlib.Core.Option
use mathlib.Core.Option.{Option, none, some}
use mathlib.Core.List.{List, [], ◌∷◌, ◌++◌, map}
use native.Mathlib.Omega.{arith}
use next_now_x.Prelude.Tests.{if◌then◌else◌}
use next_now_x.Prelude.Lists.{In}
use next_now_x.Prelude.Text.{Str, str_eq, str_eq_iff}

module _ {ℓ} {V : Type ℓ} where
  -- `v, ok := m[k]`.
  unfoldable pub lookup_str : Str → List (Str × V) → Option V
  lookup_str k [] = none
  lookup_str k ((j, v) ∷ m) = if str_eq j k then some v else lookup_str k m

-- `m[k]` of a `map[string]bool` used as a set, and `slices.Contains`.
unfoldable pub has_str : Str → List Str → Bool
has_str k [] = false
has_str k (j ∷ m) = str_eq j k || has_str k m

pub has_str_iff : (k : Str) (m : List Str) → (has_str k m ≡ true) ↔ In k m
unfolding has_str
has_str_iff k [] = (λ h. cc, λ h. absurd h)
has_str_iff k (j ∷ m) = ground (arith, has_str_iff k m, str_eq_iff j k)

-- `m[k]` of a map of slices, where a missing key reads as the empty slice.
unfoldable pub list_at {ℓ} : {V : Type ℓ} → Str → List (Str × List V) → List V
unfolding lookup_str
list_at k m = elim (lookup_str k m) [ none ↦ [] | some vs ↦ vs ]

-- `m[k] = append(m[k], v)`.
unfoldable pub append_at {ℓ} : {V : Type ℓ} → Str → V → List (Str × List V) → List (Str × List V)
append_at k v m = (k, list_at k m ++ v ∷ []) ∷ m

pub list_at-append_at {ℓ} :
    {V : Type ℓ} (j k : Str) (v : V) (m : List (Str × List V))
    → list_at j (append_at k v m) ≡ (if str_eq k j then list_at j m ++ v ∷ [] else list_at j m)
unfolding list_at append_at
list_at-append_at j k v m = ground (arith, str_eq_iff k j)

pub lookup_str-map {ℓ κ} :
    {V : Type ℓ} {W : Type κ} (f : V → W) (k : Str) (m : List (Str × V))
    → lookup_str k (map (λ e. (e.0, f e.1)) m) ≡ Option.map f (lookup_str k m)
unfolding lookup_str
lookup_str-map f k [] = refl
lookup_str-map f k ((j, v) ∷ m) = ground (arith, lookup_str-map f k m)

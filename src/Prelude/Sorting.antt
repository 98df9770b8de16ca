-- ===== src/Prelude/Sorting.antt =====
-- `sort.Strings`: insertion into a sorted list, which gives the one sorted list of the elements.
use mathlib.Core.Path.{◌≡◌}
use mathlib.Core.Logic.{◌↔◌, ◌⊎◌}
use mathlib.Core.List.{List, [], ◌∷◌}
use native.Mathlib.Omega.{arith}
use next_now_x.Prelude.Tests.{if◌then◌else◌}
use next_now_x.Prelude.Lists.{In}
use next_now_x.Prelude.Text.{Str, str_leb}

unfoldable pub insert_str : Str → List Str → List Str
insert_str s [] = s ∷ []
insert_str s (t ∷ ts) = let rest = insert_str s ts in if str_leb s t then s ∷ t ∷ ts else t ∷ rest

unfoldable pub sort_strings : List Str → List Str
unfolding insert_str
sort_strings [] = []
sort_strings (s ∷ ss) = insert_str s (sort_strings ss)

In-insert_str : (a s : Str) (ts : List Str) → In a (insert_str s ts) ↔ ((s ≡ a) ⊎ In a ts)
unfolding insert_str
In-insert_str a s [] = ground arith
In-insert_str a s (t ∷ ts) = ground (arith, In-insert_str a s ts)

pub In-sort_strings : (a : Str) (ss : List Str) → In a (sort_strings ss) ↔ In a ss
unfolding sort_strings
In-sort_strings a [] = (λ h. h, λ h. h)
In-sort_strings a (s ∷ ss) =
    ground (arith, In-insert_str a s (sort_strings ss), In-sort_strings a ss)

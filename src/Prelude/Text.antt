-- ===== src/Prelude/Text.antt =====
-- Go strings: sequences of bytes. The tests `==` and `<=` of Go compare them bytewise.
use Prim.Native.Nat.{ℕ}
use Prim.Native.Char.{code}
use Prim.Native.String.{String}
use mathlib.Core.Path.{◌≡◌, refl}
use mathlib.Core.Logic.{◌↔◌, ◌⊎◌, inl, inr}
use mathlib.Core.Bool.{Bool, true, false, ◌&&◌, ◌||◌}
use mathlib.Core.List.{List, [], ◌∷◌}
use native.Mathlib.Omega.{arith}
use next_now_x.Prelude.Tests.{◌==◌, ltb}

abbrev pub Str : Type 0
Str = List ℕ

-- The bytes of a literal, which is ASCII.
abbrev pub codes : String → Str
codes String.[] = []
codes (String.◌∷◌ c s) = code c ∷ codes s

unfoldable pub str_eq : Str → Str → Bool
str_eq [] [] = true
str_eq (a ∷ s) (b ∷ t) = a == b && str_eq s t
str_eq _ _ = false

pub str_eq_iff : (s t : Str) → (str_eq s t ≡ true) ↔ (s ≡ t)
unfolding str_eq
str_eq_iff [] [] = (λ _. refl, λ _. refl)
str_eq_iff [] (b ∷ t) = (λ h. cc, λ h. cc)
str_eq_iff (a ∷ s) [] = (λ h. cc, λ h. cc)
str_eq_iff (a ∷ s) (b ∷ t) = ground (arith, str_eq_iff s t)

pub str_eq_refl : (s : Str) → str_eq s s ≡ true
str_eq_refl s = (str_eq_iff s s).1 refl

-- `s <= t` of Go.
unfoldable pub str_leb : Str → Str → Bool
str_leb [] t = true
str_leb (a ∷ s) [] = false
str_leb (a ∷ s) (b ∷ t) = ltb a b || (a == b && str_leb s t)

pub str_leb_total : (s t : Str) → (str_leb s t ≡ true) ⊎ (str_leb t s ≡ true)
unfolding str_leb
str_leb_total [] t = inl refl
str_leb_total (a ∷ s) [] = inr refl
str_leb_total (a ∷ s) (b ∷ t) = ground (arith, str_leb_total s t)

pub str_leb_trans : (s t u : Str) → str_leb s t ≡ true → str_leb t u ≡ true → str_leb s u ≡ true
unfolding str_leb
str_leb_trans [] t u p q = refl
str_leb_trans (a ∷ s) [] u p q = cc
str_leb_trans (a ∷ s) (b ∷ t) [] p q = cc
str_leb_trans (a ∷ s) (b ∷ t) (c ∷ u) p q = ground (arith, str_leb_trans s t u)

pub str_leb_antisymm : (s t : Str) → str_leb s t ≡ true → str_leb t s ≡ true → s ≡ t
unfolding str_leb
str_leb_antisymm [] [] p q = refl
str_leb_antisymm [] (b ∷ t) p q = cc
str_leb_antisymm (a ∷ s) [] p q = cc
str_leb_antisymm (a ∷ s) (b ∷ t) p q = ground (arith, str_leb_antisymm s t)

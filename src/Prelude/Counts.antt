-- ===== src/Prelude/Counts.antt =====
-- How often a text stands in a list.
use Prim.Native.Nat.{ℕ, suc, ◌+◌, ◌≤◌}
use mathlib.Core.Path.{◌≡◌, refl, ap, subst, ◌∙◌}
use mathlib.Core.Logic.{inl, inr}
use mathlib.Core.List.{List, [], ◌∷◌, ◌++◌}
use native.Mathlib.Omega.{arith}
use next_now_x.Prelude.Tests.{if◌then◌else◌, Bool-cases}
use next_now_x.Prelude.Lists.{In, length}
use next_now_x.Prelude.Text.{Str, str_eq, str_eq_iff, str_eq_refl}
use next_now_x.Prelude.Sorting.{insert_str, sort_strings}

abbrev pub occ : Str → List Str → ℕ
occ a [] = 0
occ a (x ∷ xs) = (if str_eq x a then 1 else 0) + occ a xs

pub occ-append : (a : Str) (xs ys : List Str) → occ a (xs ++ ys) ≡ occ a xs + occ a ys
occ-append a [] ys = omega arith
occ-append a (x ∷ xs) ys = ground (arith, occ-append a xs ys)

occ-insert_str :
    (a s : Str) (ts : List Str) → occ a (insert_str s ts) ≡ (if str_eq s a then 1 else 0) + occ a ts
unfolding insert_str
occ-insert_str a s [] = refl
occ-insert_str a s (t ∷ ts) = ground (arith, occ-insert_str a s ts)

pub occ-sort_strings : (a : Str) (ss : List Str) → occ a (sort_strings ss) ≡ occ a ss
unfolding sort_strings
occ-sort_strings a [] = refl
occ-sort_strings a (s ∷ ss) =
    occ-insert_str a s (sort_strings ss) ∙ ground (arith, occ-sort_strings a ss)

pub In-occ : (a : Str) (xs : List Str) → In a xs → 1 ≤ occ a xs
In-occ a [] h = absurd h
In-occ a (x ∷ xs) (inl h) = ground (arith, str_eq_iff x a)
In-occ a (x ∷ xs) (inr h) = omega (arith, In-occ a xs h)

pub occ-In : (a : Str) (xs : List Str) → 1 ≤ occ a xs → In a xs
occ-In a [] h = absurd (omega (arith, h))
occ-In a (x ∷ xs) h = elim (Bool-cases (str_eq x a)) [
  | inl e ↦ inl ((str_eq_iff x a).0 e)
  | inr e ↦ inr (occ-In a xs (ground (arith, h, e)))
]

without : Str → List Str → List Str
without a [] = []
without a (x ∷ xs) = let rest = without a xs in if str_eq x a then xs else x ∷ rest

length-without : (a : Str) (xs : List Str) → 1 ≤ occ a xs → length xs ≡ suc (length (without a xs))
unfolding without
length-without a [] h = absurd (omega (arith, h))
length-without a (x ∷ xs) h = ground (arith, length-without a xs)

occ-without :
    (b a : Str) (xs : List Str)
    → 1 ≤ occ a xs
    → occ b xs ≡ (if str_eq a b then 1 else 0) + occ b (without a xs)
unfolding without
occ-without b a [] h = absurd (omega (arith, h))
occ-without b a (x ∷ xs) h = elim (Bool-cases (str_eq x a)) [
  | inl e ↦
      let same = (str_eq_iff x a).0 e in
      rw e (ap (λ y. (if str_eq y b then 1 else 0) + occ b xs) same)
  | inr e ↦
      let less : 1 ≤ occ a xs = ground (arith, h, e) in
      rw e (ground (arith, occ-without b a xs less))
]

-- A list that has no text more often than another is not longer.
pub length-le_of_occ :
    (xs ys : List Str) → ((a : Str) → occ a xs ≤ occ a ys) → length xs ≤ length ys
length-le_of_occ [] ys h = omega arith
length-le_of_occ (x ∷ xs) ys h =
    let some_x : 1 ≤ occ x ys = ground (arith, h x, str_eq_refl x) in
    let shorter =
      length-le_of_occ xs (without x ys) (λ a. omega (arith, h a, occ-without a x ys some_x)) in
    omega (arith, shorter, length-without x ys some_x)

-- One more element, where the other list has it more often.
pub occ-cons-le :
    (x : Str) (xs ys : List Str)
    → 1 + occ x xs ≤ occ x ys
    → ((a : Str) → occ a xs ≤ occ a ys)
    → (a : Str) → occ a (x ∷ xs) ≤ occ a ys
occ-cons-le x xs ys more h a = elim (Bool-cases (str_eq x a)) [
  | inl e ↦ rw e (subst (λ a. 1 + occ a xs ≤ occ a ys) ((str_eq_iff x a).0 e) more)
  | inr e ↦ rw e (omega (arith, h a))
]

-- Where a text stands first.
abbrev pub position : Str → List Str → ℕ
position v [] = 0
position v (x ∷ xs) = if str_eq x v then 0 else suc (position v xs)

pub position-lt : (v : Str) (xs ys : List Str) → In v xs → suc (position v (xs ++ ys)) ≤ length xs
position-lt v [] ys h = absurd h
position-lt v (x ∷ xs) ys h = elim (Bool-cases (str_eq x v)) [
  | inl e ↦ ground (arith, e)
  | inr e ↦ ground (arith, e, h, position-lt v xs ys, str_eq_iff x v)
]

pub position-append :
    (v : Str) (xs ys : List Str) → occ v xs ≡ 0 → position v (xs ++ v ∷ ys) ≡ length xs
position-append v [] ys h = rw str_eq_refl refl
position-append v (x ∷ xs) ys h = elim (Bool-cases (str_eq x v)) [
  | inl e ↦ absurd (ground (arith, e, h))
  | inr e ↦ rw e (ap suc (position-append v xs ys (ground (arith, e, h))))
]

-- ===== src/Prelude/Lists.antt =====
-- Lists measured by native numbers, and membership by recursion.
use Prim.Native.Nat.{ℕ, zero, suc, ◌+◌, ◌≤◌, ◌<◌}
use mathlib.Core.Path.{◌≡◌, refl, ap}
use mathlib.Core.Logic.{◌↔◌, ◌⊎◌, inl, inr}
use mathlib.Core.Bool.{Bool, true, false}
use mathlib.Core.Option.{Option, none, some}
use mathlib.Core.List.{List, [], ◌∷◌, ◌++◌, map, reverse, reverse-cons}
use native.Mathlib.Omega.{arith}
use next_now_x.Prelude.Tests.{if◌then◌else◌, ◌==◌}

module _ {ℓ} {A : Type ℓ} where
  abbrev pub length : List A → ℕ
  length [] = 0
  length (x ∷ xs) = suc (length xs)

  abbrev pub get_elem? : List A → ℕ → Option A
  get_elem? [] i = none
  get_elem? (x ∷ xs) zero = some x
  get_elem? (x ∷ xs) (suc i) = get_elem? xs i

  -- A write out of bounds changes nothing.
  abbrev pub set : List A → ℕ → A → List A
  set [] i v = []
  set (x ∷ xs) zero v = v ∷ xs
  set (x ∷ xs) (suc i) v = x ∷ set xs i v

  -- The elements that pass a Boolean test, in order.
  unfoldable pub keep : (A → Bool) → List A → List A
  keep p [] = []
  keep p (x ∷ xs) = let rest = keep p xs in if p x then x ∷ rest else rest

  abbrev pub All {κ} : (A → Type κ) → List A → Type κ
  All P [] = Unit
  All P (x ∷ xs) = P x × All P xs

  pub length-append : (xs ys : List A) → length (xs ++ ys) ≡ length xs + length ys
  length-append [] ys = omega arith
  length-append (x ∷ xs) ys = omega (arith, length-append xs ys)

  pub List-cases : (xs : List A) → (xs ≡ []) ⊎ ((x : A) × (rest : List A) × (xs ≡ x ∷ rest))
  List-cases [] = inl refl
  List-cases (x ∷ xs) = inr (x, xs, refl)

  pub length-set : (xs : List A) (i : ℕ) (v : A) → length (set xs i v) ≡ length xs
  length-set [] i v = refl
  length-set (x ∷ xs) zero v = refl
  length-set (x ∷ xs) (suc i) v = ap suc (length-set xs i v)

  pub get_elem?-set :
      (xs : List A) (i j : ℕ) (v : A)
      → i < length xs
      → get_elem? (set xs i v) j ≡ (if i == j then some v else get_elem? xs j)
  get_elem?-set [] i j v h = absurd (omega arith)
  get_elem?-set (x ∷ xs) zero zero v h = ground arith
  get_elem?-set (x ∷ xs) zero (suc j) v h = ground arith
  get_elem?-set (x ∷ xs) (suc i) zero v h = ground arith
  get_elem?-set (x ∷ xs) (suc i) (suc j) v h = ground (arith, get_elem?-set xs i j v)

  pub get_elem?-append :
      (xs : List A) (i : ℕ) (v : A)
      → get_elem? (xs ++ v ∷ []) i ≡ (if i == length xs then some v else get_elem? xs i)
  get_elem?-append [] zero v = ground arith
  get_elem?-append [] (suc i) v = ground arith
  get_elem?-append (x ∷ xs) zero v = ground arith
  get_elem?-append (x ∷ xs) (suc i) v = ground (arith, get_elem?-append xs i v)

  pub lt-length_of_get_elem? :
      (xs : List A) (i : ℕ) (v : A) → get_elem? xs i ≡ some v → i < length xs
  lt-length_of_get_elem? [] i v h = cc
  lt-length_of_get_elem? (x ∷ xs) zero v h = omega arith
  lt-length_of_get_elem? (x ∷ xs) (suc i) v h = omega (arith, lt-length_of_get_elem? xs i v h)

  pub length-keep-le : (p : A → Bool) (xs : List A) → length (keep p xs) ≤ length xs
  unfolding keep
  length-keep-le p [] = omega arith
  length-keep-le p (x ∷ xs) = ground (arith, length-keep-le p xs)

pub length-map {ℓ κ} :
    {A : Type ℓ} {B : Type κ} (f : A → B) (xs : List A) → length (map f xs) ≡ length xs
length-map f [] = refl
length-map f (x ∷ xs) = ap suc (length-map f xs)

module _ {A : Type 0} where
  -- Membership as a computed sum, which the tactics take apart.
  abbrev pub In : A → List A → Type 0
  In a [] = ⊥
  In a (x ∷ xs) = (x ≡ a) ⊎ In a xs

  -- No element stands twice.
  abbrev pub Distinct : List A → Type 0
  Distinct [] = Unit
  Distinct (x ∷ xs) = ¬ In x xs × Distinct xs

  pub In-append : (a : A) (xs ys : List A) → In a (xs ++ ys) ↔ (In a xs ⊎ In a ys)
  In-append a [] ys = (inr, elim [ inl h ↦ absurd h | inr h ↦ h ])
  In-append a (x ∷ xs) ys = ground (arith, In-append a xs ys)

  pub In-keep : (p : A → Bool) (a : A) (xs : List A) → In a (keep p xs) ↔ (In a xs × (p a ≡ true))
  unfolding keep
  In-keep p a [] = (λ h. absurd h, λ h. absurd h.0)
  In-keep p a (x ∷ xs) = ground (arith, In-keep p a xs)

  pub In-reverse : (a : A) (xs : List A) → In a (reverse xs) ↔ In a xs
  In-reverse a [] = (λ h. h, λ h. h)
  In-reverse a (x ∷ xs) =
      rw reverse-cons (ground (arith, In-append a (reverse xs) (x ∷ []), In-reverse a xs))

  pub All-of_In : {P : A → Type 0} (xs : List A) → ((x : A) → In x xs → P x) → All P xs
  All-of_In [] h = tt
  All-of_In (x ∷ xs) h = (h x (inl refl), All-of_In xs (λ y m. h y (inr m)))

  -- A stronger test keeps fewer elements.
  pub length-keep_mono :
      (p q : A → Bool) (xs : List A)
      → ((x : A) → q x ≡ true → p x ≡ true)
      → length (keep q xs) ≤ length (keep p xs)
  unfolding keep
  length-keep_mono p q [] h = omega arith
  length-keep_mono p q (x ∷ xs) h = ground (arith, h x, length-keep_mono p q xs h)

  pub length-keep_lt :
      (p q : A → Bool) (a : A) (xs : List A)
      → ((x : A) → q x ≡ true → p x ≡ true)
      → In a xs
      → p a ≡ true
      → q a ≡ false
      → suc (length (keep q xs)) ≤ length (keep p xs)
  unfolding keep
  length-keep_lt p q a [] h m yes_p no_q = absurd m
  length-keep_lt p q a (x ∷ xs) h (inl e) yes_p no_q =
      rw (e, yes_p, no_q) (omega (arith, length-keep_mono p q xs h))
  length-keep_lt p q a (x ∷ xs) h (inr m) yes_p no_q =
      ground (arith, h x, length-keep_lt p q a xs h m yes_p no_q)

module _ {A B : Type 0} where
  pub In-map_of_In : (f : A → B) (a : A) (xs : List A) → In a xs → In (f a) (map f xs)
  In-map_of_In f a [] h = absurd h
  In-map_of_In f a (x ∷ xs) (inl e) = inl (ap f e)
  In-map_of_In f a (x ∷ xs) (inr m) = inr (In-map_of_In f a xs m)

  pub In-map_cases :
      (f : A → B) (b : B) (xs : List A) → In b (map f xs) → (a : A) × In a xs × (f a ≡ b)
  In-map_cases f b [] h = absurd h
  In-map_cases f b (x ∷ xs) (inl e) = (x, inl refl, e)
  In-map_cases f b (x ∷ xs) (inr m) = let (a, m', e) = In-map_cases f b xs m in (a, inr m', e)

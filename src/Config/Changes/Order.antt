-- ===== src/Config/Changes/Order.antt =====
-- internal/config/config.go: `ReorderAuthMethods`.
use next_now_x.Prelude.{
  ◌≡◌, ◌≢◌, ◌↔◌, ◌⊎◌, inl, inr, refl, sym, ap, ◌∙◌, subst, suc, ◌≤◌, ◌==◌, Str, str_eq, str_eq_iff,
  List, [], ◌∷◌, not, if◌then◌else◌, Option, none, some, Result, ok, err, bind-ok, check-ok,
  has_str, In, All, Distinct, length, Bool-cases, arith,
}
use next_now_x.Strings.Space.{trim_space}
use next_now_x.Config.{Failure, config, invalid, AuthMethod, Config, Context, methods_of, or_none}
use next_now_x.Config.Methods.{trim_space-id}
use next_now_x.Config.Normalize.{
  host_keys, require, normalize, normalize_methods, normalize_all_methods,
}
use next_now_x.Config.Normalize.Parts.{normalize-Parts}
use next_now_x.Config.Normalize.Loops.{
  normalize_methods-ids, trimmed, ids, IsMethod, New, New-later, not_In, require_lem,
}
use next_now_x.Config.Normalize.Normal.{IsNormal}
use next_now_x.Config.Changes.{
  Outcome, outcome_of, in_place, picked, pick, known, last_or, last_method, reorder_auth_methods,
}

-- `ks` without its first `k`.
remove : Str → List Str → List Str
remove k [] = []
remove k (j ∷ ks) = if str_eq j k then ks else j ∷ remove k ks

length-remove : (k : Str) (ks : List Str) → In k ks → length ks ≡ suc (length (remove k ks))
unfolding remove
length-remove k [] h = absurd h
length-remove k (j ∷ ks) (inl e) = rw ((str_eq_iff j k).1 e) refl
length-remove k (j ∷ ks) (inr m) = elim (Bool-cases (str_eq j k)) [
  | inl e ↦ rw e refl
  | inr e ↦ rw e (ap suc (length-remove k ks m))
]

In-remove : (i k : Str) (ks : List Str) → In i ks → i ≢ k → In i (remove k ks)
unfolding remove
In-remove i k [] h n = absurd h
In-remove i k (j ∷ ks) (inl e) n = elim (Bool-cases (str_eq j k)) [
  | inl f ↦ absurd (n (sym e ∙ (str_eq_iff j k).0 f))
  | inr f ↦ rw f (inl e)
]
In-remove i k (j ∷ ks) (inr m) n = elim (Bool-cases (str_eq j k)) [
  | inl f ↦ rw f m
  | inr f ↦ rw f (inr (In-remove i k ks m n))
]

-- Distinct elements of a list that is no longer are all of its elements.
pub In_of_length :
    (xs ys : List Str) (k : Str)
    → Distinct xs
    → ((j : Str) → In j xs → In j ys)
    → length ys ≤ length xs
    → In k ys
    → In k xs
In_of_length [] [] k d sub l m = m
In_of_length [] (y ∷ ys) k d sub l m = absurd (omega arith)
In_of_length (x ∷ xs) ys k d sub l m = elim (Bool-cases (str_eq k x)) [
  | inl e ↦ inl (sym ((str_eq_iff k x).0 e))
  | inr e ↦ inr (
      In_of_length xs (remove x ys) k d.1
        (λ j i. In-remove j x ys (sub j (inr i)) (λ f. d.0 (subst (λ y. In y xs) f i)))
        (omega (arith, length-remove x ys (sub x (inl refl))))
        (In-remove k x ys m (λ f. cc (e, (str_eq_iff k x).1 f))))
]

last_or-ok :
    (k : Str) (n m : AuthMethod) (ms : List AuthMethod) (o : Option AuthMethod)
    → (o ≡ some m → (m.id ≡ k) × In k (ids ms))
    → last_or k n o ≡ some m
    → (m.id ≡ k) × ((n.id ≡ k) ⊎ In k (ids ms))
last_or-ok k n m ms (some m') later h = let (e, i) = later h in (e, inr i)
last_or-ok k n m ms none later h = elim (Bool-cases (str_eq n.id k)) [
  | inl e ↦
      let same : n ≡ m = ground arith in
      let key = (str_eq_iff n.id k).0 e in (subst (λ (a : AuthMethod). a.id ≡ k) same key, inl key)
  | inr e ↦ absurd (ground arith)
]

last_method-ok :
    (k : Str) (ms : List AuthMethod) (m : AuthMethod)
    → last_method k ms ≡ some m
    → (m.id ≡ k) × In k (ids ms)
unfolding last_method
last_method-ok k [] m h = cc
last_method-ok k (n ∷ ms) m h = last_or-ok k n m ms (last_method k ms) (last_method-ok k ms m) h

known-ok : (o : Option AuthMethod) (m : AuthMethod) → known o ≡ ok m → o ≡ some m
known-ok none m h = cc
known-ok (some n) m h = cc

pick-ok :
    (ms : List AuthMethod) (seen ks : List Str) (new : List AuthMethod)
    → pick ms seen ks ≡ ok new
    → (ids new ≡ ks) × All (λ k. In k (ids ms)) ks × New seen ks × Distinct ks
unfolding pick
pick-ok ms seen [] [] h = (refl, tt, tt, tt)
pick-ok ms seen [] (n ∷ new) h = cc
pick-ok ms seen (k ∷ ks) new h =
    let (m, a, h) = bind-ok (known (last_method k ms)) _ h in
    let (b, h) = check-ok (require (not (has_str k seen))) _ h in
    let (rest, c, h) = bind-ok (pick ms (k ∷ seen) ks) _ h in
    let (e, i) = last_method-ok k ms m (known-ok _ m a) in
    let (f, all, fresh, distinct) = pick-ok ms (k ∷ seen) ks rest c in
    let (absent, fresh') = New-later k seen ks fresh in
    let same : m ∷ rest ≡ new = cc in
    (
      ap ids (sym same) ∙ (λ j. e j ∷ f j),
      (i, all),
      (not_In k seen (require_lem _ b), fresh'),
      (absent, distinct),
    )

length-ids : (ms : List AuthMethod) → length (ids ms) ≡ length ms
length-ids [] = refl
length-ids (m ∷ ms) = ap suc (length-ids ms)

IsMethod-id :
    (hosts : List Str) (ms : List AuthMethod) (k : Str)
    → All (IsMethod hosts) ms
    → In k (ids ms)
    → trim_space k ≡ k
IsMethod-id hosts [] k a i = absurd i
IsMethod-id hosts (m ∷ ms) k a (inl e) = subst (λ s. trim_space s ≡ s) e (trim_space-id m.id a.0.id)
IsMethod-id hosts (m ∷ ms) k a (inr i) = IsMethod-id hosts ms k a.1 i

trimmed_fixed :
    (known ks : List Str)
    → ((k : Str) → In k known → trim_space k ≡ k)
    → All (λ k. In k known) ks
    → trimmed ks ≡ ks
trimmed_fixed known [] h a = refl
trimmed_fixed known (k ∷ ks) h a = λ j. h k a.0 j ∷ trimmed_fixed known ks h a.1 j

All-In : (known ks : List Str) (k : Str) → All (λ j. In j known) ks → In k ks → In k known
All-In known [] k a i = absurd i
All-In known (j ∷ ks) k a (inl e) = subst (λ s. In s known) e a.0
All-In known (j ∷ ks) k a (inr i) = All-In known ks k a.1 i

module _ (x : Context) where
  in_place-ok : (c : Config) → (in_place x c).1 ≡ none → normalize x c ≡ ok (in_place x c).0
  unfolding in_place
  in_place-ok c h = ok_lem (normalize x c) h
    where
      ok_lem : (r : Result Failure Config) → (outcome_of c r).1 ≡ none → r ≡ ok (outcome_of c r).0
      ok_lem (ok d) h = refl
      ok_lem (err e) h = cc

  all_methods-ids :
      (hosts : List Str) (new : List AuthMethod) (o : Option (List AuthMethod))
      → normalize_all_methods x hosts (some new) ≡ ok o
      → ids (or_none o) ≡ trimmed (ids new)
  unfolding normalize_all_methods
  all_methods-ids hosts new o h =
      let (ms, a, h) = bind-ok (normalize_methods x hosts [] new) _ h in
      let same : some ms ≡ o = cc in
      subst (λ o. ids (or_none o) ≡ trimmed (ids new)) same
        (normalize_methods-ids x hosts [] new ms a)

  -- The order and the set of the ids.
  abbrev Ordered : List Str → Config → Outcome → Type 0
  Ordered ks c o =
      (ids (methods_of o.0.github) ≡ ks) × ((k : Str) → In k ks ↔ In k (ids (methods_of c.github)))

  picked-Ordered :
      (c : Config) (ks : List Str) (r : Result Failure (List AuthMethod))
      → IsNormal x c
      → length ks ≡ length (methods_of c.github)
      → pick (methods_of c.github) [] ks ≡ r
      → (picked x c r).1 ≡ none
      → Ordered ks c (picked x c r)
  picked-Ordered c ks (err e) n l p h = cc
  picked-Ordered c ks (ok new) n l p h =
      let ms = methods_of c.github in
      let next : Config = record c { github = record c.github { auth_methods = some new } } in
      let parts = normalize-Parts x next (in_place x next).0 (in_place-ok next h) in
      let (e, all, _, distinct) = pick-ok ms [] ks new p in
      let fixed = λ (k : Str). IsMethod-id (host_keys c.github.hosts) ms k n.methods in
      (
        all_methods-ids _ new _ parts.methods ∙ ap trimmed e ∙ trimmed_fixed (ids ms) ks fixed all,
        λ k. (
          All-In (ids ms) ks k all,
          In_of_length ks (ids ms) k distinct (λ j. All-In (ids ms) ks j all)
              (omega (arith, length-ids ms)),
        ),
      )

  -- Where methods are reordered without an error, the settings have exactly the methods that they had,
  -- by their ids, and have them in the order that was asked for. The settings were normal before.
  pub reorder_auth_methods-Ordered :
      (ks : List Str) (c : Config)
      → IsNormal x c
      → (reorder_auth_methods x ks c).1 ≡ none
      → Ordered ks c (reorder_auth_methods x ks c)
  unfolding reorder_auth_methods
  reorder_auth_methods-Ordered ks c n h =
      elim (Bool-cases (length ks == length (methods_of c.github))) [
        | inl e ↦ rw e (
            picked-Ordered c ks (pick (methods_of c.github) [] ks) n (ground arith) refl
              (rw e at h))
        | inr e ↦ let bad : some (config invalid) ≡ none = rw e at h in cc
      ]

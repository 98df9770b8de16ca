-- ===== src/Domain/Graph/Cycle/Forest.antt =====
-- `CyclePath` of internal/domain/graph.go: the forest of the parents, and the walk back in it.
use mathlib.Core.List.{reverse, reverse-cons}
use next_now_x.Prelude.{
  ◌≡◌, refl, sym, ap, subst, ◌∙◌, ℕ, zero, suc, ◌<◌, inl, inr, Str, str_eq, str_eq_iff, List, [],
  ◌∷◌, true, false, lookup_str, has_str, has_str_iff, length, Bool-cases, In, some, none, arith,
}
use next_now_x.Domain.Models.{Dependency}
use next_now_x.Domain.Graph.Cycle.{parent_of, prepend, walk_back}
use next_now_x.Domain.Graph.Cycle.Walks.{Edge, IsWalk, IsWalk-snoc}
use next_now_x.Domain.Graph.Cycle.Steps.{vertices, IsForest}

module _ (deps : List Dependency) (blocked : Str) where
  blocked-vertices : (parent : List (Str × Str)) → In blocked (vertices blocked parent)
  blocked-vertices [] = inl refl
  blocked-vertices (e ∷ parent) = inr (blocked-vertices parent)

  parent_of-hit : (v p x : Str) (rest : List (Str × Str)) → v ≡ x → parent_of ((v, p) ∷ rest) x ≡ p
  unfolding lookup_str
  parent_of-hit v p x rest e = ground (arith, str_eq_iff v x)

  parent_of-miss :
      (v p x : Str) (rest : List (Str × Str))
      → str_eq v x ≡ false
      → parent_of ((v, p) ∷ rest) x ≡ parent_of rest x
  unfolding lookup_str
  parent_of-miss v p x rest e = ground arith

  apart : (v x : Str) (seen : List Str) → has_str v seen ≡ false → In x seen → str_eq v x ≡ false
  apart v x seen new m =
      ground
        (arith, str_eq_iff v x, has_str_iff v seen, λ (e : v ≡ x). subst (λ y. In y seen) (sym e) m)

  -- The parent of a vertex that was found is an older vertex.
  parent_of-older :
      (parent : List (Str × Str)) (x : Str)
      → IsForest deps blocked parent
      → In x (vertices blocked parent)
      → str_eq x blocked ≡ false
      → In (parent_of parent x) (vertices blocked parent)
  parent_of-older [] x f (inl e) away = ground (arith, str_eq_iff x blocked)
  parent_of-older [] x f (inr h) away = absurd h
  parent_of-older ((v, p) ∷ rest) x f (inl e') away =
      inr (subst (λ y. In y (vertices blocked rest)) (sym (parent_of-hit v p x rest e')) f.0)
  parent_of-older ((v, p) ∷ rest) x f (inr m) away = inr (
      subst (λ y. In y (vertices blocked rest))
        (sym (parent_of-miss v p x rest (apart v x (vertices blocked rest) f.2 m)))
        (parent_of-older rest x f.3 m away))

  walk_back-zero : (parent : List (Str × Str)) (x : Str) → walk_back zero parent blocked x ≡ none
  unfolding walk_back
  walk_back-zero parent x = refl

  walk_back-stop :
      (fuel : ℕ) (parent : List (Str × Str)) (x : Str)
      → str_eq x blocked ≡ true
      → walk_back (suc fuel) parent blocked x ≡ some (x ∷ [])
  unfolding walk_back
  walk_back-stop fuel parent x e = rw (e, walk_back)

  walk_back-go :
      (fuel : ℕ) (parent : List (Str × Str)) (x : Str)
      → str_eq x blocked ≡ false
      → walk_back (suc fuel) parent blocked x
        ≡ prepend x (walk_back fuel parent blocked (parent_of parent x))
  unfolding walk_back
  walk_back-go fuel parent x e = rw (e, walk_back)

  -- A vertex that is newer than all on the way changes nothing.
  walk_back-older :
      (v p : Str) (rest : List (Str × Str)) (fuel : ℕ) (x : Str)
      → IsForest deps blocked ((v, p) ∷ rest)
      → In x (vertices blocked rest)
      → walk_back fuel ((v, p) ∷ rest) blocked x ≡ walk_back fuel rest blocked x
  walk_back-older v p rest zero x f m =
      walk_back-zero ((v, p) ∷ rest) x ∙ sym (walk_back-zero rest x)
  walk_back-older v p rest (suc fuel) x f m = elim (Bool-cases (str_eq x blocked)) [
    | inl e ↦ walk_back-stop fuel ((v, p) ∷ rest) x e ∙ sym (walk_back-stop fuel rest x e)
    | inr e ↦
        walk_back-go fuel ((v, p) ∷ rest) x e
        ∙ ap (λ y. prepend x (walk_back fuel ((v, p) ∷ rest) blocked y))
            (parent_of-miss v p x rest (apart v x (vertices blocked rest) f.2 m))
        ∙ ap (prepend x)
            (walk_back-older v p rest fuel (parent_of rest x) f (parent_of-older rest x f.3 m e))
        ∙ sym (walk_back-go fuel rest x e)
  ]

  -- What the walk back from `x` finds: reversed, a walk from the start to `x`.
  pub record Found (fuel : ℕ) (parent : List (Str × Str)) (x : Str) : Type 0 where
    pub path : List Str
    pub returned : walk_back fuel parent blocked x ≡ some path
    pub walk : IsWalk deps blocked (reverse path) x

  -- One more round than there are parents is enough.
  pub walk_back-Found :
      (parent : List (Str × Str)) (fuel : ℕ) (x : Str)
      → IsForest deps blocked parent
      → In x (vertices blocked parent)
      → length parent < fuel
      → Found fuel parent x
  walk_back-Found [] zero x f m h = absurd (omega arith)
  walk_back-Found [] (suc fuel) x f (inr none_left) h = absurd none_left
  walk_back-Found [] (suc fuel) x f (inl e) h = record {
    path = x ∷ [];
    returned = walk_back-stop fuel [] x ((str_eq_iff x blocked).1 (sym e));
    walk = (sym e, refl);
  }
  walk_back-Found ((v, p) ∷ rest) zero x f m h = absurd (omega arith)
  walk_back-Found ((v, p) ∷ rest) (suc fuel) x f (inl e) h =
      let away = apart v blocked (vertices blocked rest) f.2 (blocked-vertices rest) in
      let before = walk_back-Found rest fuel p f.3 f.0 (omega arith) in
      record {
        path = x ∷ before.path;
        returned =
            walk_back-go fuel ((v, p) ∷ rest) x (subst (λ y. str_eq y blocked ≡ false) e away)
            ∙ ap (λ y. prepend x (walk_back fuel ((v, p) ∷ rest) blocked y))
                (parent_of-hit v p x rest e)
            ∙ ap (prepend x) (walk_back-older v p rest fuel p f f.0 ∙ before.returned);
        walk = rw reverse-cons (
            IsWalk-snoc deps blocked p x (reverse before.path) before.walk
              (subst (Edge deps p) e f.1));
      }
  walk_back-Found ((v, p) ∷ rest) (suc fuel) x f (inr m) h =
      let before = walk_back-Found rest (suc fuel) x f.3 m (omega arith) in
      record {
        path = before.path;
        returned = walk_back-older v p rest (suc fuel) x f m ∙ before.returned;
        walk = before.walk;
      }

-- ===== src/App/Snapshots/ReadOnly.antt =====
-- `deriveSnapshot` of internal/app/service.go and `featureReadOnly` of internal/app/archive.go: the
-- flag that clients read, and the one that the guards compute.
use next_now_x.Prelude.{
  ◌≡◌, ◌⊎◌, refl, ap, sym, ◌∙◌, Str, str_eq, str_eq_iff, str_eq_refl, List, [], ◌∷◌, Bool, true,
  false, ◌||◌, foldl, lookup_str, Option, some, none, In, Bool-cases, inl, inr, arith, ok,
}
use next_now_x.Domain.Models.{Project, Feature}
use next_now_x.App.Repository.{Repository}
use next_now_x.App.Archive.{feature_read_only}
use next_now_x.App.Snapshots.{archived_at, finish}

-- Projects with one identifier are the same.
abbrev pub IsKeyed : List Project → Type 0
IsKeyed projects = (p q : Project) → In p projects → In q projects → p.id ≡ q.id → p ≡ q

add_project : List (Str × Bool) → Project → List (Str × Bool)
add_project m p = (p.id, p.archived) ∷ m

-- What the map holds, if every entry for the key was the same.
lookup_str-foldl :
    (p : Project) (projects : List Project) (m : List (Str × Bool))
    → ((q : Project) → In q projects → q.id ≡ p.id → q.archived ≡ p.archived)
    → (lookup_str p.id m ≡ some p.archived)
    → lookup_str p.id (foldl add_project m projects) ≡ some p.archived
unfolding lookup_str add_project
lookup_str-foldl p [] m same h = h
lookup_str-foldl p (q ∷ projects) m same h =
    lookup_str-foldl p projects (add_project m q) (λ r i. same r (inr i))
      (added (Bool-cases (str_eq q.id p.id)))
  where
    added :
        (str_eq q.id p.id ≡ true) ⊎ (str_eq q.id p.id ≡ false)
        → lookup_str p.id (add_project m q) ≡ some p.archived
    added (inl e) = rw e (ap (λ b. some b) (same q (inl refl) ((str_eq_iff q.id p.id).0 e)))
    added (inr e) = rw e h

lookup_str-foldl_of_In :
    (p : Project) (projects : List Project) (m : List (Str × Bool))
    → ((q : Project) → In q projects → q.id ≡ p.id → q.archived ≡ p.archived)
    → In p projects
    → lookup_str p.id (foldl add_project m projects) ≡ some p.archived
lookup_str-foldl_of_In p [] m same i = absurd i
lookup_str-foldl_of_In p (q ∷ projects) m same (inr i) =
    lookup_str-foldl_of_In p projects (add_project m q) (λ r k. same r (inr k)) i
lookup_str-foldl_of_In p (q ∷ projects) m same (inl e) =
    lookup_str-foldl p projects (add_project m q) (λ r k. same r (inr k)) head
  where
    head : lookup_str p.id (add_project m q) ≡ some p.archived
    head =
        unfold lookup_str add_project in
        (rw (ap (λ (x : Project). x.id) e, str_eq_refl p.id)
          (ap (λ (x : Project). some x.archived) e))

finish-read_only :
    (f : Feature) (projects : List Project)
    → (finish projects f).read_only ≡ (f.archived || archived_at f.project_id projects)
unfolding finish
finish-read_only f projects = refl

archived_at-of_In :
    (p : Project) (projects : List Project)
    → IsKeyed projects
    → In p projects
    → archived_at p.id projects ≡ p.archived
unfolding add_project
archived_at-of_In p projects keyed i =
    ap (λ (o : Option Bool). elim o [ none ↦ false | some archived ↦ archived ])
      (lookup_str-foldl_of_In p projects []
        (λ q k e. ap (λ (x : Project). x.archived) (keyed q p k i e)) i)

-- Where the repository answers for a feature's project as the snapshot has it, and a project's
-- identifier is its own, the derived flag `read_only` of the feature is what the guards of the
-- writes compute for it.
pub feature_read_only-finish :
    {S : Type 0} (repo : Repository S) (s : S) (projects : List Project) (f : Feature) (p : Project)
    → IsKeyed projects
    → In p projects
    → p.id ≡ f.project_id
    → repo.get_project f.project_id s ≡ ok p
    → feature_read_only repo s f ≡ ok (finish projects f).read_only
unfolding feature_read_only
feature_read_only-finish repo s projects f p keyed i e h =
    let a : archived_at f.project_id projects ≡ p.archived =
      ap (λ (id : Str). archived_at id projects) (sym e) ∙ archived_at-of_In p projects keyed i in
    rw (finish-read_only f projects, a, h) (ground arith)

-- ===== src/App/Snapshots/Counts.antt =====
-- `deriveSnapshot` of internal/app/service.go: the counts of a feature.
use next_now_x.Prelude.{
  ◌+◌, ◌≡◌, refl, ap, ◌∙◌, Str, str_eq, str_eq_iff, List, [], ◌∷◌, true, false, ◌||◌, if◌then◌else◌,
  map, foldl, keep, length, In, Bool-cases, inl, inr, arith, In-map_of_In,
}
use next_now_x.Domain.Models.{Project, Feature, Task, Snapshot}
use next_now_x.Domain.Graph.Derive.{derive}
use next_now_x.App.Snapshots.{
  is_in_review, is_merged, is_in_conflict, is_done, counted, has_feature, count_task,
  counted_features, finish, derive_snapshot,
}

-- Different features have different identifiers.
abbrev IsDistinct : List Feature → Type 0
IsDistinct [] = Unit
IsDistinct (f ∷ features) = (has_feature f.id features ≡ false) × IsDistinct features

abbrev pub tasks_of : Str → List Task → List Task
tasks_of id tasks = keep (λ (t : Task). str_eq id t.feature_id) tasks

count_own : List Task → Feature → Feature
count_own tasks f = foldl (λ g t. counted t g) f (tasks_of f.id tasks)

count_one : Task → Feature → Feature
count_one t f = if str_eq f.id t.feature_id then counted t f else f

has_feature-absent :
    (id : Str) (t : Task) (features : List Feature)
    → has_feature id features ≡ false
    → str_eq id t.feature_id ≡ true
    → has_feature t.feature_id features ≡ false
has_feature-absent id t features h e = ground (arith, str_eq_iff id t.feature_id)

count_task-map :
    (t : Task) (features : List Feature)
    → IsDistinct features
    → count_task features t ≡ map (count_one t) features
unfolding count_task count_one
count_task-map t [] d = refl
count_task-map t (f ∷ features) d =
    ground (arith, count_task-map t features d.1, has_feature-absent f.id t features d.0)

count_one-id : (t : Task) (f : Feature) → (count_one t f).id ≡ f.id
unfolding count_one counted
count_one-id t f = ground arith

has_feature-map :
    (id : Str) (t : Task) (features : List Feature)
    → has_feature id (map (count_one t) features) ≡ has_feature id features
has_feature-map id t [] = refl
has_feature-map id t (f ∷ features) =
    rw (count_one-id t f) (ap (λ b. str_eq f.id id || b) (has_feature-map id t features))

IsDistinct-map :
    (t : Task) (features : List Feature)
    → IsDistinct features
    → IsDistinct (map (count_one t) features)
IsDistinct-map t [] d = tt
IsDistinct-map t (f ∷ features) d =
    (rw (count_one-id t f) (has_feature-map f.id t features ∙ d.0), IsDistinct-map t features d.1)

count_own-cons :
    (t : Task) (ts : List Task) (f : Feature) → count_own ts (count_one t f) ≡ count_own (t ∷ ts) f
unfolding count_own keep
count_own-cons t ts f = elim (Bool-cases (str_eq f.id t.feature_id)) [
  | inl e ↦ unfold count_one counted in (ground (arith, e))
  | inr e ↦ unfold count_one in (ground (arith, e))
]

map-map_own :
    (t : Task) (ts : List Task) (features : List Feature)
    → map (count_own ts) (map (count_one t) features) ≡ map (count_own (t ∷ ts)) features
map-map_own t ts [] = refl
map-map_own t ts (f ∷ features) = ground (arith, count_own-cons t ts f, map-map_own t ts features)

map_own_nil : (features : List Feature) → features ≡ map (count_own []) features
unfolding count_own keep
map_own_nil [] = refl
map_own_nil (f ∷ features) = ap (λ fs. f ∷ fs) (map_own_nil features)

counted_features_lem :
    (ts : List Task) (features : List Feature)
    → IsDistinct features
    → counted_features features ts ≡ map (count_own ts) features
counted_features_lem [] features d = map_own_nil features
counted_features_lem (t ∷ ts) features d =
    ap (λ fs. counted_features fs ts) (count_task-map t features d)
    ∙ counted_features_lem ts (map (count_one t) features) (IsDistinct-map t features d)
    ∙ map-map_own t ts features

-- What the tasks `ts` add to the counts of a feature.
pub record Counts (ts : List Task) (f g : Feature) : Type 0 where
  pub same_id : g.id ≡ f.id
  pub task_count : g.task_count ≡ f.task_count + length ts
  pub ready_count : g.ready_count ≡ f.ready_count + length (keep (λ (t : Task). t.ready) ts)
  pub review_waiting_count :
      g.review_waiting_count ≡ f.review_waiting_count + length (keep is_in_review ts)
  pub conflict_count : g.conflict_count ≡ f.conflict_count + length (keep is_in_conflict ts)
  pub merged_count : g.merged_count ≡ f.merged_count + length (keep is_merged ts)
  pub finished_count : g.finished_count ≡ f.finished_count + length (keep is_done ts)

foldl-Counts : (ts : List Task) (f : Feature) → Counts ts f (foldl (λ g t. counted t g) f ts)
unfolding keep counted
foldl-Counts [] f = record {
  same_id = refl;
  task_count = omega arith;
  ready_count = omega arith;
  review_waiting_count = omega arith;
  conflict_count = omega arith;
  merged_count = omega arith;
  finished_count = omega arith;
}
foldl-Counts (t ∷ ts) f =
    let c = foldl-Counts ts (counted t f) in
    record {
      same_id = c.same_id;
      task_count = omega (arith, c.task_count);
      ready_count = ground (arith, c.ready_count);
      review_waiting_count = ground (arith, c.review_waiting_count);
      conflict_count = ground (arith, c.conflict_count);
      merged_count = ground (arith, c.merged_count);
      finished_count = ground (arith, c.finished_count);
    }

finish-Counts :
    (projects : List Project) (ts : List Task) (f g : Feature)
    → Counts ts f g
    → Counts ts f (finish projects g)
unfolding finish
finish-Counts projects ts f g c = record {
  same_id = c.same_id;
  task_count = c.task_count;
  ready_count = c.ready_count;
  review_waiting_count = c.review_waiting_count;
  conflict_count = c.conflict_count;
  merged_count = c.merged_count;
  finished_count = c.finished_count;
}

-- If the features have different identifiers, every feature of the stored snapshot is in the derived
-- one, and its counts have grown by the numbers of its derived tasks: all, the ready ones, those in
-- review, those with a conflict, the merged ones and the finished ones.
pub derive_snapshot-Counts :
    (s : Snapshot) (f : Feature)
    → IsDistinct s.features
    → In f s.features
    → (g : Feature) × In g (derive_snapshot s).features
      × Counts (tasks_of f.id (derive s.tasks s.dependencies s.pull_requests)) f g
unfolding derive_snapshot
derive_snapshot-Counts s f d m =
    let tasks = derive s.tasks s.dependencies s.pull_requests in
    (
      finish s.projects (count_own tasks f),
      rw (counted_features_lem tasks s.features d) (
          In-map_of_In (finish s.projects) (count_own tasks f) (map (count_own tasks) s.features)
            (In-map_of_In (count_own tasks) f s.features m)),
      finish-Counts s.projects (tasks_of f.id tasks) f (count_own tasks f)
          (unfold count_own in (foldl-Counts (tasks_of f.id tasks) f)),
    )

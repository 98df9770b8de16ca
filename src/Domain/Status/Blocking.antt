-- ===== src/Domain/Status/Blocking.antt =====
-- internal/domain/status.go: the labels of `block_labels_for`.
use next_now_x.Prelude.{
  ℕ, suc, ◌≤◌, ◌≡◌, ◌↔◌, Option, some, none, List, [], ◌∷◌, Bool, true, false, In, arith,
}
use next_now_x.Domain.Models.{TaskBlockLabel, ReviewState, Mergeability, CheckState, PullRequest}
use next_now_x.Domain.Status.{block_labels_for}

-- Where the label says that the pull request `pr` hinders its task.
abbrev pub Hinders : TaskBlockLabel → Option PullRequest → Bool → Type 0
Hinders TaskBlockLabel.dependency_unresolved pr unresolved = unresolved ≡ true
Hinders label none unresolved = ⊥
Hinders TaskBlockLabel.conflict (some pr) unresolved = pr.mergeability ≡ Mergeability.conflicting
Hinders TaskBlockLabel.changes_requested (some pr) unresolved =
    pr.review_state ≡ ReviewState.changes_requested
Hinders TaskBlockLabel.ci_failed (some pr) unresolved = pr.check_state ≡ CheckState.failure

-- A label is given exactly if its condition holds.
pub block_labels_for_iff :
    (label : TaskBlockLabel) (pr : Option PullRequest) (unresolved : Bool)
    → In label (block_labels_for pr unresolved) ↔ Hinders label pr unresolved
unfolding block_labels_for
block_labels_for_iff TaskBlockLabel.dependency_unresolved none u = ground arith
block_labels_for_iff TaskBlockLabel.dependency_unresolved (some pr) u = ground arith
block_labels_for_iff TaskBlockLabel.conflict none u = ground arith
block_labels_for_iff TaskBlockLabel.conflict (some pr) u = ground arith
block_labels_for_iff TaskBlockLabel.changes_requested none u = ground arith
block_labels_for_iff TaskBlockLabel.changes_requested (some pr) u = ground arith
block_labels_for_iff TaskBlockLabel.ci_failed none u = ground arith
block_labels_for_iff TaskBlockLabel.ci_failed (some pr) u = ground arith

abbrev rank : TaskBlockLabel → ℕ
rank TaskBlockLabel.dependency_unresolved = 0
rank TaskBlockLabel.conflict = 1
rank TaskBlockLabel.changes_requested = 2
rank TaskBlockLabel.ci_failed = 3

-- Each label from the bound on, in the order of the constants, and none twice.
abbrev pub IsInOrder : ℕ → List TaskBlockLabel → Type 0
IsInOrder bound [] = Unit
IsInOrder bound (label ∷ labels) = (bound ≤ rank label) × IsInOrder (suc (rank label)) labels

-- The labels stand in the order of their declaration, and none is given twice.
pub block_labels_for-IsInOrder :
    (pr : Option PullRequest) (unresolved : Bool) → IsInOrder 0 (block_labels_for pr unresolved)
unfolding block_labels_for
block_labels_for-IsInOrder none true = omega arith
block_labels_for-IsInOrder none false = omega arith
block_labels_for-IsInOrder (some pr) u = ground arith

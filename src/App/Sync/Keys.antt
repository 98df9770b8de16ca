-- ===== src/App/Sync/Keys.antt =====
-- The maps by task of internal/app/github_sync.go: which keys they have after they are written.
use next_now_x.Prelude.{
  Bool-cases, ◌≡◌, refl, ap, subst, ◌⊎◌, inl, inr, ℕ, zero, suc, ◌<◌, ◌≤◌, Str, str_eq, str_eq_iff,
  str_eq_refl, List, [], ◌∷◌, ◌++◌, map, true, ◌||◌, if◌then◌else◌, ltb, Option, none, some,
  lookup_str, length, In, arith,
}
use next_now_x.Domain.Models.{PullRequest}
use next_now_x.App.Sync.{
  SyncError, has_key, put_all, drop, take, work_after_failure, add_remaining_failures,
  add_unavailable_failures,
}

module _ {ℓ} {V : Type ℓ} where
  pub has_key-append :
      (k : Str) (a b : List (Str × V)) → has_key k (a ++ b) ≡ (has_key k a || has_key k b)
  has_key-append k [] b = refl
  has_key-append k ((j, v) ∷ a) b = ground (arith, has_key-append k a b)

  pub has_key-lookup_str :
      (k : Str) (m : List (Str × V)) → has_key k m ≡ true → (v : V) × (lookup_str k m ≡ some v)
  unfolding lookup_str
  has_key-lookup_str k [] h = cc
  has_key-lookup_str k ((j, v) ∷ m) h = elim (Bool-cases (str_eq j k)) [
    | inl e ↦ rw e (v, refl)
    | inr e ↦ rw e (has_key-lookup_str k m (rw e at h))
  ]

same_key : {x v : PullRequest} → x ≡ v → str_eq x.task_id v.task_id ≡ true
same_key {x} h = subst (λ v. str_eq x.task_id v.task_id ≡ true) h (str_eq_refl x.task_id)

-- An entry for each of these.
pub has_key-map :
    (e : SyncError) (v : PullRequest) (vs : List PullRequest)
    → In v vs
    → has_key v.task_id (map (λ (v : PullRequest). (v.task_id, e)) vs) ≡ true
has_key-map e v [] h = absurd h
has_key-map e v (x ∷ vs) (inl h) = rw (same_key h) refl
has_key-map e v (x ∷ vs) (inr h) = ground (arith, has_key-map e v vs h)

pub put_all-keeps :
    (k : Str) (e : SyncError) (vs : List PullRequest) (m : List (Str × SyncError))
    → has_key k m ≡ true
    → has_key k (put_all e vs m) ≡ true
put_all-keeps k e [] m h = h
put_all-keeps k e (v ∷ vs) m h = put_all-keeps k e vs _ (ground arith)

pub put_all-has :
    (e : SyncError) (v : PullRequest) (vs : List PullRequest) (m : List (Str × SyncError))
    → In v vs
    → has_key v.task_id (put_all e vs m) ≡ true
put_all-has e v [] m h = absurd h
put_all-has e v (x ∷ vs) m (inl h) = put_all-keeps v.task_id e vs _ (rw (same_key h) refl)
put_all-has e v (x ∷ vs) m (inr h) = put_all-has e v vs _ h

pub add_unavailable-keeps :
    (k : Str) (e : SyncError) (vs : List PullRequest) (m : List (Str × SyncError))
    → has_key k m ≡ true
    → has_key k (add_unavailable_failures m vs e) ≡ true
add_unavailable-keeps k e [] m h = h
add_unavailable-keeps k e (v ∷ vs) m h = add_unavailable-keeps k e vs _ (ground arith)

unavailable-has :
    (e : SyncError) (v x : PullRequest) (m : List (Str × SyncError))
    → str_eq x.task_id v.task_id ≡ true
    → has_key v.task_id (if has_key x.task_id m then m else (x.task_id, e) ∷ m) ≡ true
unavailable-has e v x m h = elim (Bool-cases (has_key x.task_id m)) [
  | inl f ↦ rw f (subst (λ k. has_key k m ≡ true) ((str_eq_iff x.task_id v.task_id).0 h) f)
  | inr f ↦ rw (f, h) refl
]

pub add_unavailable-has :
    (e : SyncError) (v : PullRequest) (vs : List PullRequest) (m : List (Str × SyncError))
    → In v vs
    → has_key v.task_id (add_unavailable_failures m vs e) ≡ true
add_unavailable-has e v [] m h = absurd h
add_unavailable-has e v (x ∷ vs) m (inl h) =
    add_unavailable-keeps v.task_id e vs _ (unavailable-has e v x m (same_key h))
add_unavailable-has e v (x ∷ vs) m (inr h) = add_unavailable-has e v vs _ h

-- Positions in a list.
pub In-take_drop :
    (v : PullRequest) (n : ℕ) (vs : List PullRequest)
    → In v vs
    → In v (take n vs) ⊎ In v (drop n vs)
In-take_drop v zero vs h = inr h
In-take_drop v (suc n) [] h = absurd h
In-take_drop v (suc n) (x ∷ vs) h = ground (arith, In-take_drop v n vs)

pub In-take : (v : PullRequest) (n : ℕ) (vs : List PullRequest) → In v (take n vs) → In v vs
In-take v zero vs h = absurd h
In-take v (suc n) [] h = absurd h
In-take v (suc n) (x ∷ vs) h = ground (arith, In-take v n vs)

pub take-take : (m n : ℕ) (vs : List PullRequest) → m ≤ n → take m (take n vs) ≡ take m vs
take-take zero n vs h = refl
take-take (suc m) zero vs h = absurd (omega (arith, h))
take-take (suc m) (suc n) [] h = refl
take-take (suc m) (suc n) (x ∷ vs) h = ap (λ us. x ∷ us) (take-take m n vs (omega arith))

pub drop-lt-length :
    (v : PullRequest) (n : ℕ) (vs : List PullRequest) → In v (drop n vs) → n < length vs
drop-lt-length v zero [] h = absurd h
drop-lt-length v zero (x ∷ vs) h = omega arith
drop-lt-length v (suc n) [] h = absurd h
drop-lt-length v (suc n) (x ∷ vs) h = omega (arith, drop-lt-length v n vs h)

pub In-work_after_failure :
    (v : PullRequest) (n : ℕ) (vs : List PullRequest)
    → In v (drop n vs)
    → In v (work_after_failure vs (some n))
In-work_after_failure v n vs h = ground (arith, drop-lt-length v n vs h)

pub add_remaining-keeps :
    (k : Str) (m : List (Str × SyncError)) (vs : List PullRequest) (n : Option ℕ) (e : SyncError)
    → has_key k m ≡ true
    → has_key k (add_remaining_failures m vs n e) ≡ true
add_remaining-keeps k m vs none e h = put_all-keeps k e vs m h
add_remaining-keeps k m vs (some n) e h =
    put_all-keeps k e (if ltb n (length vs) then drop n vs else vs) m h

pub add_remaining-has :
    (m : List (Str × SyncError)) (v : PullRequest) (vs : List PullRequest) (n : Option ℕ)
    (e : SyncError)
    → In v (work_after_failure vs n)
    → has_key v.task_id (add_remaining_failures m vs n e) ≡ true
add_remaining-has m v vs none e h = absurd h
add_remaining-has m v vs (some n) e h = elim (Bool-cases (ltb n (length vs))) [
  | inl f ↦ rw f (put_all-has e v _ m (rw f at h))
  | inr f ↦ absurd (rw f at h)
]

-- ===== src/App/Sync/Runs.antt =====
-- The row of internal/store that the runs of the synchronisation share: the three updates of
-- queries.sql that internal/store/repository.go runs, and `saturatedSubtract` of
-- internal/app/github_auto_sync.go. An update of the row is one statement, so that concurrent runs
-- are a sequence of events.
use next_now_x.Prelude.{
  ◌≡◌, refl, sym, ◌∙◌, ◌↔◌, ℕ, ◌+◌, ◌-◌, ◌^◌, ◌≤◌, Str, str_eq, str_eq_iff, List, [], ◌∷◌, Bool,
  true, false, not, ◌&&◌, if◌then◌else◌, leb, Option, none, some, arith,
}
use next_now_x.Prelude.Int.{ℤ, pos, negsuc, ltb_ℤ}
use next_now_x.Domain.Models.{Time}

-- `github_sync_state`; the row with which it is created has nothing set.
pub record Row : Type 0 where
  pub run_id : Str
  pub last_attempt : Option Time
  pub last_completed : Option Time
  pub succeeded : ℕ
  pub failed : ℕ
  pub run_error : Str

-- The least `int64`.
abbrev pub min_int64 : ℤ
min_int64 = negsuc (2 ^ 63 - 1)

abbrev pub sub_ℤ : ℤ → ℕ → ℤ
sub_ℤ (pos n) amount = if leb amount n then pos (n - amount) else negsuc (amount - n - 1)
sub_ℤ (negsuc n) amount = negsuc (n + amount)

-- `saturatedSubtract` of an amount that is not negative, which an interval is.
unfoldable pub saturated_subtract : ℤ → ℕ → ℤ
saturated_subtract value amount =
    if ltb_ℤ value (pos 0) && ltb_ℤ (sub_ℤ value amount) min_int64
    then min_int64
    else sub_ℤ value amount

abbrev pub is_due : Option Time → ℤ → Bool
is_due none due_before = true
is_due (some at) due_before = not (ltb_ℤ due_before (pos at))

abbrev pub take_row : Str → Time → Row → Row
take_row id now row = record row { run_id = id; last_attempt = some now; run_error = [] }

abbrev pub take_if : Bool → Str → Time → Row → Row × Bool
take_if true id now row = (take_row id now row, true)
take_if false id now row = (row, false)

-- `AcquireGitHubAutoSync`, and whether it changed the row.
unfoldable pub acquire : Str → Time → ℤ → Row → Row × Bool
acquire id now due_before row = take_if (is_due row.last_attempt due_before) id now row

abbrev pub record_if : Bool → Time → (succeeded failed : ℕ) → Str → Row → Row × Bool
record_if true now succeeded failed error row = (
  record row {
    last_completed = some now;
    succeeded = succeeded;
    failed = failed;
    run_error = error;
  },
  true,
)
record_if false now succeeded failed error row = (row, false)

-- `CompleteGitHubSync`, and whether it changed the row.
unfoldable pub complete : Str → Time → (succeeded failed : ℕ) → Str → Row → Row × Bool
complete id now succeeded failed error row =
    record_if (str_eq row.run_id id) now succeeded failed error row

-- What runs do to the row: `SyncIfDue` acquires, `Sync` starts, and both complete.
pub data Event : Type 0 where
  acquires : (id : Str) → (now : Time) → (interval : ℕ) → Event
  starts : (id : Str) → (now : Time) → Event
  completes : (id : Str) → (now : Time) → (succeeded failed : ℕ) → (error : Str) → Event

unfoldable pub happen : Event → Row → Row × Bool
unfolding acquire complete saturated_subtract
happen (acquires id now interval) row = acquire id now (saturated_subtract (pos now) interval) row
happen (starts id now) row = (take_row id now row, true)
happen (completes id now succeeded failed error) row = complete id now succeeded failed error row

unfoldable pub happen_all : List Event → Row → Row
unfolding happen
happen_all [] row = row
happen_all (e ∷ es) row = happen_all es (happen e row).0

-- A run that took the row, with its interval if it runs by itself.
pub record Take : Type 0 where
  pub run_id : Str
  pub at : Time
  pub interval : Option ℕ

abbrev pub take_of : Event → Bool → List Take → List Take
take_of _ false log = log
take_of (acquires id now interval) true log =
    record { run_id = id; at = now; interval = some interval } ∷ log
take_of (starts id now) true log = record { run_id = id; at = now; interval = none } ∷ log
take_of (completes _ _ _ _ _) true log = log

-- The runs that took the row, in order.
unfoldable pub takes : List Event → Row → List Take
unfolding happen
takes [] row = []
takes (e ∷ es) row = let (row', took) = happen e row in take_of e took (takes es row')

-- A run by itself comes at least its interval after whatever took the row before.
abbrev pub IsAfter : Option Time → Take → Type 0
IsAfter (some last) t = elim t.interval [ none ↦ Unit | some interval ↦ last + interval ≤ t.at ]
IsAfter none t = Unit

abbrev pub Spaced : Option Time → List Take → Type 0
Spaced last [] = Unit
Spaced last (t ∷ log) = IsAfter last t × Spaced (some t.at) log

is_due-le :
    (last now interval : ℕ)
    → is_due (some last) (saturated_subtract (pos now) interval) ≡ true
    → last + interval ≤ now
unfolding saturated_subtract
is_due-le last now interval h = ground arith

due-IsAfter :
    (last : Option Time) (id : Str) (now interval : ℕ)
    → is_due last (saturated_subtract (pos now) interval) ≡ true
    → IsAfter last (record { run_id = id; at = now; interval = some interval })
due-IsAfter none id now interval h = tt
due-IsAfter (some last) id now interval h = is_due-le last now interval h

take_if-Spaced :
    (b : Bool) (id : Str) (now : Time) (interval : ℕ) (row : Row) (rest : Row → List Take)
    → ((row : Row) → Spaced row.last_attempt (rest row))
    → (b ≡ true
        → IsAfter row.last_attempt (record { run_id = id; at = now; interval = some interval }))
    → Spaced row.last_attempt (
        take_of (acquires id now interval) (take_if b id now row).1 (rest (take_if b id now row).0))
take_if-Spaced true id now interval row rest all h = (h refl, all (take_row id now row))
take_if-Spaced false id now interval row rest all h = all row

start-IsAfter :
    (last : Option Time) (id : Str) (now : Time)
    → IsAfter last (record { run_id = id; at = now; interval = none })
start-IsAfter none id now = tt
start-IsAfter (some last) id now = tt

record_if-Spaced :
    (b : Bool) (id : Str) (now : Time) (succeeded failed : ℕ) (error : Str) (row : Row)
    (rest : Row → List Take)
    → ((row : Row) → Spaced row.last_attempt (rest row))
    → Spaced row.last_attempt (
        take_of
          (completes id now succeeded failed error)
          (record_if b now succeeded failed error row).1
          (rest (record_if b now succeeded failed error row).0))
record_if-Spaced true id now succeeded failed error row rest all = all _
record_if-Spaced false id now succeeded failed error row rest all = all row

-- However the updates of concurrent runs are interleaved, a run by itself takes the row at least its
-- interval after the last run of any kind that took it.
pub takes-Spaced : (es : List Event) (row : Row) → Spaced row.last_attempt (takes es row)
unfolding takes acquire complete
takes-Spaced [] row = tt
takes-Spaced (acquires id now interval ∷ es) row =
    take_if-Spaced _ id now interval row (takes es) (takes-Spaced es)
      (due-IsAfter row.last_attempt id now interval)
takes-Spaced (starts id now ∷ es) row =
    (start-IsAfter row.last_attempt id now, takes-Spaced es (take_row id now row))
takes-Spaced (completes id now succeeded failed error ∷ es) row =
    record_if-Spaced _ id now succeeded failed error row (takes es) (takes-Spaced es)

-- The run that took the row last.
abbrev pub holder : Str → List Take → Str
holder id [] = id
holder id (t ∷ log) = holder t.run_id log

take_if-holder :
    (b : Bool) (id : Str) (now : Time) (interval : ℕ) (row : Row) (rest : Row → List Take)
    → holder (take_if b id now row).0.run_id (rest (take_if b id now row).0)
      ≡ holder row.run_id (
          take_of
            (acquires id now interval)
            (take_if b id now row).1
            (rest (take_if b id now row).0))
take_if-holder true id now interval row rest = refl
take_if-holder false id now interval row rest = refl

record_if-holder :
    (b : Bool) (id : Str) (now : Time) (succeeded failed : ℕ) (error : Str) (row : Row)
    (rest : Row → List Take)
    → holder
        (record_if b now succeeded failed error row).0.run_id
        (rest (record_if b now succeeded failed error row).0)
      ≡ holder row.run_id (
          take_of
            (completes id now succeeded failed error)
            (record_if b now succeeded failed error row).1
            (rest (record_if b now succeeded failed error row).0))
record_if-holder true id now succeeded failed error row rest = refl
record_if-holder false id now succeeded failed error row rest = refl

run_id-holder :
    (es : List Event) (row : Row) → (happen_all es row).run_id ≡ holder row.run_id (takes es row)
unfolding happen_all takes acquire complete
run_id-holder [] row = refl
run_id-holder (acquires id now interval ∷ es) row =
    run_id-holder es _ ∙ take_if-holder _ id now interval row (takes es)
run_id-holder (starts id now ∷ es) row = run_id-holder es (take_row id now row)
run_id-holder (completes id now succeeded failed error ∷ es) row =
    run_id-holder es _ ∙ record_if-holder _ id now succeeded failed error row (takes es)

-- What a run that completes leaves: its own results if it holds the row, or the row as it was.
abbrev pub Recorded : Time → (succeeded failed : ℕ) → Str → Row → Row × Bool → Type 0
Recorded now succeeded failed error row (row', true) =
    (row'.last_completed ≡ some now)
    × (row'.succeeded ≡ succeeded)
    × (row'.failed ≡ failed)
    × (row'.run_error ≡ error)
    × (row'.last_attempt ≡ row.last_attempt)
Recorded now succeeded failed error row (row', false) = row' ≡ row

record_if-Recorded :
    (b : Bool) (now : Time) (succeeded failed : ℕ) (error : Str) (row : Row)
    → ((record_if b now succeeded failed error row).1 ≡ b)
      × Recorded now succeeded failed error row (record_if b now succeeded failed error row)
record_if-Recorded true now succeeded failed error row = (refl, (refl, refl, refl, refl, refl))
record_if-Recorded false now succeeded failed error row = (refl, refl)

-- A run that completes records its results if no other run took the row after it, and is told so;
-- otherwise the row stays as it is, and it is told that too.
pub complete-Recorded :
    (es : List Event) (row : Row) (id : Str) (now : Time) (succeeded failed : ℕ) (error : Str)
    → (((complete id now succeeded failed error (happen_all es row)).1 ≡ true)
        ↔ (holder row.run_id (takes es row) ≡ id))
      × Recorded now succeeded failed error
          (happen_all es row)
          (complete id now succeeded failed error (happen_all es row))
unfolding complete
complete-Recorded es row id now succeeded failed error =
    let row' = happen_all es row in
    let (told, recorded) =
      record_if-Recorded (str_eq row'.run_id id) now succeeded failed error row' in
    let (of_eq, to_eq) = str_eq_iff row'.run_id id in
    let same = run_id-holder es row in
    ((λ h. sym same ∙ of_eq (sym told ∙ h), λ h. told ∙ to_eq (same ∙ h)), recorded)

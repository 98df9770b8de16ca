-- ===== src/Revision/Watcher/Counting.antt =====
-- `Watcher` of internal/revision/revision.go: the revision and the number of changes.
use next_now_x.Prelude.{
  IsOk, ℕ, ◌+◌, ◌^◌, ◌<◌, ◌≡◌, refl, sym, ◌∙◌, inl, inr, Option, some, none, List, [], ◌∷◌, map,
  Bool, true, false, ◌==◌, not, if◌then◌else◌, Bool-cases, arith, subst,
}
use next_now_x.Revision.Broadcaster.{has_subscribers}
use next_now_x.Revision.Watcher.{
  Reading, version, failed, Watcher, next, observe, tick, ticking, happen, happen_all,
}
use next_now_x.Revision.Watcher.Ticks.{
  IsLive, advance_lem, observe-IsLive, observe-same, Case, idle, unread, first, same, changed, case,
  tick-IsLive, tick-failed, tick-first, tick-same, tick-changed,
}

-- Whether a reading is a change, and the baseline after it; the baseline may not be known.
abbrev is_change : Option ℕ → Reading → Bool
is_change base (failed c) = false
is_change none (version value) = false
is_change (some u) (version value) = not (value == u)

abbrev rebased : Option ℕ → Reading → Option ℕ
rebased base (failed c) = base
rebased base (version value) = some value

-- The changes among readings.
abbrev pub changes : Option ℕ → List Reading → ℕ
changes base [] = 0
changes base (r ∷ rs) =
    let rest = changes (rebased base r) rs in if is_change base r then rest + 1 else rest

abbrev pub known : Watcher → Option ℕ
known w = if w.ok then some w.baseline else none

record Counted (r : Reading) (w : Watcher) : Type 0 where
  after : Watcher
  returned : tick r w ≡ some after
  live : IsLive after
  watched : has_subscribers after.broadcaster ≡ true
  based : known after ≡ rebased (known w) r
  revision : after.revision ≡ (if is_change (known w) r then next w.revision else w.revision)

watched_of :
    (w w' : Watcher)
    → w'.broadcaster.subscribers ≡ w.broadcaster.subscribers
    → has_subscribers w.broadcaster ≡ true
    → has_subscribers w'.broadcaster ≡ true
unfolding has_subscribers
watched_of w w' e h = ground (arith, e, h)

tick-Counted :
    (r : Reading) (w : Watcher) → IsLive w → has_subscribers w.broadcaster ≡ true → Counted r w
tick-Counted r w l s = by_case r (case r w)
  where
    live_of : (r : Reading) (w' : Watcher) → tick r w ≡ some w' → IsLive w'
    live_of r w' e = subst (IsOk IsLive) e (tick-IsLive r w l)

    by_case : (r : Reading) → Case r w → Counted r w
    by_case r (idle e) = absurd (ground (arith, e, s))
    by_case (failed c) (unread e) =
        let o = observe-same (failed c) w in
        let w' = observe (failed c) w in
        record {
          after = w';
          returned = tick-failed c w e;
          live = live_of (failed c) w' (tick-failed c w e);
          watched = watched_of w w' o.3 s;
          based = ground (arith, o.0, o.1);
          revision = ground (arith, o.2);
        }
    by_case (version value) (first e f) =
        let o = observe-same (version value) w in
        let w' = record (observe (version value) w) { baseline = value; ok = true } in
        record {
          after = w';
          returned = tick-first value w e f;
          live = live_of (version value) w' (tick-first value w e f);
          watched = watched_of w w' o.3 s;
          based = refl;
          revision = ground (arith, o.2, f);
        }
    by_case (version value) (same e f g) =
        let o = observe-same (version value) w in
        let w' = observe (version value) w in
        record {
          after = w';
          returned = tick-same value w e f g;
          live = live_of (version value) w' (tick-same value w e f g);
          watched = watched_of w w' o.3 s;
          based = ground (arith, o.0, o.1, f, g);
          revision = ground (arith, o.2, f, g);
        }
    by_case (version value) (changed e f g) =
        let v = observe (version value) w in
        let o = observe-same (version value) w in
        let d = advance_lem value v (observe-IsLive (version value) w l) in
        record {
          after = d.after;
          returned = tick-changed value w e f g ∙ d.returned;
          live = d.live;
          watched = watched_of w d.after (d.subscribers ∙ o.3) s;
          based = ground (arith, o.0, d.ok, d.baseline, f);
          revision = ground (arith, o.2, d.revision, f, g);
        }

tick_all :
    (r : Reading) (rs : List Reading) (w w' : Watcher)
    → tick r w ≡ some w'
    → happen_all (map ticking (r ∷ rs)) w ≡ happen_all (map ticking rs) w'
unfolding happen_all happen
tick_all r rs w w' h = rw (h, happen_all) refl

total :
    (r : Reading) (rs : List Reading) (w : Watcher) (t : Counted r w)
    → w.revision + changes (known w) (r ∷ rs) < 2 ^ 64
    → t.after.revision + changes (known t.after) rs ≡ w.revision + changes (known w) (r ∷ rs)
unfolding next
total r rs w t h = elim (Bool-cases (is_change (known w) r)) [
  | inl e ↦ ground (arith, t.based, t.revision, e)
  | inr e ↦ ground (arith, t.based, t.revision, e)
]

-- While there is a subscriber, readings that fail and readings that repeat the last successful one
-- leave the revision as it is, and every other one adds one, if the sum fits a `uint64`; the first
-- successful reading is no change where no baseline is known.
pub happen_all-changes :
    (rs : List Reading) (w : Watcher)
    → IsLive w
    → has_subscribers w.broadcaster ≡ true
    → w.revision + changes (known w) rs < 2 ^ 64
    → IsOk (λ w'. w'.revision ≡ w.revision + changes (known w) rs) (happen_all (map ticking rs) w)
happen_all-changes [] w l s h = unfold happen_all in (ground arith)
happen_all-changes (r ∷ rs) w l s h =
    let t = tick-Counted r w l s in
    let n = total r rs w t h in
    let ih = happen_all-changes rs t.after t.live t.watched (subst (λ m. m < 2 ^ 64) (sym n) h) in
    subst (λ m. IsOk (λ w'. w'.revision ≡ m) (happen_all (map ticking (r ∷ rs)) w)) n
      (subst (IsOk (λ w'. w'.revision ≡ t.after.revision + changes (known t.after) rs))
        (sym (tick_all r rs w t.after t.returned)) ih)

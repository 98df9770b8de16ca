-- ===== src/Revision/Watcher/Ticks.antt =====
-- `Watcher` of internal/revision/revision.go: what one tick does, and what holds between two events.
use next_now_x.Prelude.{
  IsOk, ℕ, ◌≡◌, ◌≢◌, refl, sym, ◌∙◌, ◌⊎◌, inl, inr, some, Bool, true, false, ◌==◌, if◌then◌else◌,
  get_elem?, Bool-cases, arith, subst,
}
use next_now_x.Revision.Broadcaster.{has_subscribers, set_watching}
use next_now_x.Revision.Broadcaster.Invariant.{Inv, is_channel, full}
use next_now_x.Revision.Broadcaster.Steps.{set_watching-Inv}
use next_now_x.Revision.Broadcaster.Delivery.{publish-Published, publish-Inv}
use next_now_x.Revision.Watcher.{
  Reading, version, failed, Watcher, read, next, advance, compare, observe, tick,
}

-- What holds between two events: the broadcaster is open, and the local revision is the one it has.
pub record IsLive (w : Watcher) : Type 0 where
  pub valid : Inv w.broadcaster
  pub still_open : w.broadcaster.closed ≡ false
  pub synced : w.broadcaster.current ≡ w.revision

-- The watcher after a change.
pub record Advanced (value : ℕ) (w : Watcher) : Type 0 where
  pub after : Watcher
  pub returned : advance value w ≡ some after
  pub live : IsLive after
  pub baseline : after.baseline ≡ value
  pub revision : after.revision ≡ next w.revision
  pub ok : after.ok ≡ w.ok
  pub reported : after.reported ≡ w.reported
  pub subscribers : after.broadcaster.subscribers ≡ w.broadcaster.subscribers
  pub channels :
      (a : ℕ)
      → get_elem? after.broadcaster.channels a ≡ (
          if is_channel a w.broadcaster.subscribers
          then some (full (next w.revision))
          else get_elem? w.broadcaster.channels a)

pub advance_lem : (value : ℕ) (w : Watcher) → IsLive w → Advanced value w
unfolding advance
advance_lem value w l =
    let v = next w.revision in
    let p = publish-Published v w.broadcaster l.still_open l.valid in
    let b = record w.broadcaster { current = v; channels = p.delivered.after } in
    record {
      after = record w { broadcaster = b; baseline = value; revision = v };
      returned = ground (arith, p.returned);
      live = record {
        valid = subst (IsOk Inv) p.returned (publish-Inv v w.broadcaster l.valid);
        still_open = l.still_open;
        synced = refl;
      };
      baseline = refl;
      revision = refl;
      ok = refl;
      reported = refl;
      subscribers = refl;
      channels = p.delivered.written;
    }

set_watching-IsLive :
    (value : Bool) (w : Watcher)
    → IsLive w
    → IsLive (record w { broadcaster = set_watching value w.broadcaster })
unfolding set_watching
set_watching-IsLive value w l = record {
  valid = unfold set_watching in set_watching-Inv value w.broadcaster l.valid;
  still_open = l.still_open;
  synced = l.synced;
}

pub observe-IsLive : (r : Reading) (w : Watcher) → IsLive w → IsLive (observe r w)
unfolding observe set_watching
observe-IsLive r w l = record {
  valid = set_watching-Inv (read r).1 w.broadcaster l.valid;
  still_open = l.still_open;
  synced = l.synced;
}

pub observe-same :
    (r : Reading) (w : Watcher)
    → ((observe r w).ok ≡ w.ok)
      × ((observe r w).baseline ≡ w.baseline)
      × ((observe r w).revision ≡ w.revision)
      × ((observe r w).broadcaster.subscribers ≡ w.broadcaster.subscribers)
      × ((observe r w).broadcaster.channels ≡ w.broadcaster.channels)
      × ((observe r w).broadcaster.current ≡ w.broadcaster.current)
unfolding observe set_watching
observe-same r w = (refl, refl, refl, refl, refl, refl)

tick-idle :
    (r : Reading) (w : Watcher)
    → has_subscribers w.broadcaster ≡ false
    → tick r w ≡ some (record w { broadcaster = set_watching true w.broadcaster; ok = false })
unfolding tick
tick-idle r w e = ground (arith, e)

pub tick-failed :
    (c : Bool) (w : Watcher)
    → has_subscribers w.broadcaster ≡ true
    → tick (failed c) w ≡ some (observe (failed c) w)
unfolding tick read
tick-failed c w e = ground (arith, e)

pub tick-first :
    (value : ℕ) (w : Watcher)
    → has_subscribers w.broadcaster ≡ true
    → w.ok ≡ false
    → tick (version value) w
      ≡ some (record (observe (version value) w) { baseline = value; ok = true })
unfolding tick read compare observe
tick-first value w e f = ground (arith, e, f)

pub tick-same :
    (value : ℕ) (w : Watcher)
    → has_subscribers w.broadcaster ≡ true
    → w.ok ≡ true
    → value ≡ w.baseline
    → tick (version value) w ≡ some (observe (version value) w)
unfolding tick read compare observe
tick-same value w e f g = ground (arith, e, f, g)

pub tick-changed :
    (value : ℕ) (w : Watcher)
    → has_subscribers w.broadcaster ≡ true
    → w.ok ≡ true
    → value ≢ w.baseline
    → tick (version value) w ≡ advance value (observe (version value) w)
unfolding tick read compare observe
tick-changed value w e f g = ground (arith, e, f, g)

-- The tests of one tick.
pub data Case : Reading → Watcher → Type 0 where
  idle : {r : Reading} {w : Watcher} → has_subscribers w.broadcaster ≡ false → Case r w
  unread : {c : Bool} {w : Watcher} → has_subscribers w.broadcaster ≡ true → Case (failed c) w
  first :
      {value : ℕ} {w : Watcher}
      → has_subscribers w.broadcaster ≡ true
      → w.ok ≡ false
      → Case (version value) w
  same :
      {value : ℕ} {w : Watcher}
      → has_subscribers w.broadcaster ≡ true
      → w.ok ≡ true
      → value ≡ w.baseline
      → Case (version value) w
  changed :
      {value : ℕ} {w : Watcher}
      → has_subscribers w.broadcaster ≡ true
      → w.ok ≡ true
      → value ≢ w.baseline
      → Case (version value) w

pub case : (r : Reading) (w : Watcher) → Case r w
case r w = elim (Bool-cases (has_subscribers w.broadcaster)) [
  | inr e ↦ idle e
  | inl e ↦ read_case r e
]
  where
    value_case :
        (value : ℕ)
        → has_subscribers w.broadcaster ≡ true
        → w.ok ≡ true
        → ((value == w.baseline) ≡ true) ⊎ ((value == w.baseline) ≡ false)
        → Case (version value) w
    value_case value e f (inl h) = same e f (ground (arith, h))
    value_case value e f (inr h) = changed e f (ground (arith, h))

    read_case : (r : Reading) → has_subscribers w.broadcaster ≡ true → Case r w
    read_case (failed c) e = unread e
    read_case (version value) e = elim (Bool-cases w.ok) [
      | inl f ↦ value_case value e f (Bool-cases (value == w.baseline))
      | inr f ↦ first e f
    ]

pub tick-IsLive : (r : Reading) (w : Watcher) → IsLive w → IsOk IsLive (tick r w)
tick-IsLive r w l = by_case r (case r w)
  where
    by_case : (r : Reading) → Case r w → IsOk IsLive (tick r w)
    by_case r (idle e) = subst (IsOk IsLive) (sym (tick-idle r w e)) (watched l)
      where
        watched :
            IsLive w
            → IsLive (record w { broadcaster = set_watching true w.broadcaster; ok = false })
        watched l =
            let h = set_watching-IsLive true w l in
            record { valid = h.valid; still_open = h.still_open; synced = h.synced }
    by_case (failed c) (unread e) =
        subst (IsOk IsLive) (sym (tick-failed c w e)) (observe-IsLive (failed c) w l)
    by_case (version value) (first e f) =
        let h = observe-IsLive (version value) w l in
        subst (IsOk IsLive) (sym (tick-first value w e f))
          (record { valid = h.valid; still_open = h.still_open; synced = h.synced })
    by_case (version value) (same e f g) =
        subst (IsOk IsLive) (sym (tick-same value w e f g)) (observe-IsLive (version value) w l)
    by_case (version value) (changed e f g) =
        let a =
          advance_lem value (observe (version value) w) (observe-IsLive (version value) w l) in
        subst (IsOk IsLive) (sym (tick-changed value w e f g ∙ a.returned)) a.live

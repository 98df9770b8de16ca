-- ===== src/Revision/Watcher/Events.antt =====
-- `Watcher` of internal/revision/revision.go: ticks and subscribers in any order, and what a tick
-- leaves in the channels.
use next_now_x.Prelude.{
  IsOk, ℕ, ◌≡◌, ◌≢◌, refl, sym, ◌∙◌, inl, inr, some, List, [], ◌∷◌, true, if◌then◌else◌, get_elem?,
  Option-cases, arith, subst,
}
use next_now_x.Revision.Broadcaster.{
  Broadcaster, new_broadcaster, has_subscribers, set_watching, subscribe, unsubscribe, close,
  receive,
}
use next_now_x.Revision.Broadcaster.Invariant.{is_channel, full}
use next_now_x.Revision.Broadcaster.Steps.{subscribe-Inv, unsubscribe-Inv, receive-Inv}
use next_now_x.Revision.Broadcaster.Delivery.{close-Shut}
use next_now_x.Revision.Watcher.{
  Reading, version, Watcher, start, next, observe, tick, Event, ticking, subscribing, cancelling,
  receiving, happen, happen_all, run,
}
use next_now_x.Revision.Watcher.Ticks.{
  IsLive, advance_lem, observe-IsLive, tick-changed, tick-IsLive,
}

subscribe-same :
    (b : Broadcaster) → ((subscribe b).0.current ≡ b.current) × ((subscribe b).0.closed ≡ b.closed)
unfolding subscribe
subscribe-same b = (ground arith, ground arith)

receive-same :
    (a : ℕ) (b : Broadcaster)
    → ((receive a b).current ≡ b.current) × ((receive a b).closed ≡ b.closed)
unfolding receive
receive-same a b = (ground arith, ground arith)

happen-IsLive : (e : Event) (w : Watcher) → IsLive w → IsOk IsLive (happen e w)
unfolding happen
happen-IsLive (ticking r) w l = tick-IsLive r w l
happen-IsLive subscribing w l =
    let s = subscribe-same w.broadcaster in
    record {
      valid = subscribe-Inv w.broadcaster l.valid;
      still_open = s.1 ∙ l.still_open;
      synced = s.0 ∙ l.synced;
    }
happen-IsLive (cancelling id) w l = record {
  valid = unsubscribe-Inv id w.broadcaster l.valid;
  still_open = unfold unsubscribe in l.still_open;
  synced = unfold unsubscribe in l.synced;
}
happen-IsLive (receiving a) w l =
    let s = receive-same a w.broadcaster in
    record {
      valid = receive-Inv a w.broadcaster l.valid;
      still_open = s.1 ∙ l.still_open;
      synced = s.0 ∙ l.synced;
    }

happen_all-step :
    (e : Event) (es : List Event) (w w' : Watcher)
    → happen e w ≡ some w'
    → happen_all (e ∷ es) w ≡ happen_all es w'
unfolding happen_all
happen_all-step e es w w' h = rw (h, happen_all) refl

happen_all_lem : (es : List Event) (w : Watcher) → IsLive w → IsOk IsLive (happen_all es w)
unfolding happen_all
happen_all_lem [] w l = l
happen_all_lem (e ∷ es) w l = elim (Option-cases (happen e w)) [
  | inl h ↦ absurd (subst (IsOk IsLive) h (happen-IsLive e w l))
  | inr (w', h) ↦
      subst (IsOk IsLive) (sym (happen_all-step e es w w' h))
        (happen_all_lem es w' (subst (IsOk IsLive) h (happen-IsLive e w l)))
]

start-IsLive : (r : Reading) → IsLive (start r)
unfolding start set_watching new_broadcaster
start-IsLive r = record {
  valid = record { fresh = tt; descending = tt; shut = inl refl };
  still_open = refl;
  synced = refl;
}

-- Whatever the first reading is, and whatever ticks, subscriptions, cancellations and receives
-- follow, in any order: `Run` does not panic, the broadcaster stays open with its invariant, and its
-- current revision is the local variable of the loop.
pub happen_all-IsLive : (r : Reading) (es : List Event) → IsOk IsLive (happen_all es (start r))
happen_all-IsLive r es = happen_all_lem es (start r) (start-IsLive r)

run-close :
    (r : Reading) (es : List Event) (w : Watcher)
    → happen_all es (start r) ≡ some w
    → run r es ≡ close w.broadcaster
unfolding run
run-close r es w h = rw (h, run) refl

-- `Run` ends without a panic, and leaves a broadcaster that is closed and has no subscribers.
pub run_lem :
    (r : Reading) (es : List Event)
    → IsOk (λ b. (b.closed ≡ true) × (b.subscribers ≡ [])) (run r es)
run_lem r es = elim (Option-cases (happen_all es (start r))) [
  | inl h ↦ absurd (subst (IsOk IsLive) h (happen_all-IsLive r es))
  | inr (w, h) ↦
      let l = subst (IsOk IsLive) h (happen_all-IsLive r es) in
      let c = close-Shut w.broadcaster l.still_open l.valid in
      rw (run-close r es w h ∙ c.returned, IsOk) (refl, refl)
]

-- With a subscriber and a baseline, a successful reading that differs from the baseline, larger or
-- smaller, puts the next revision alone into the channel of every subscriber and makes it the
-- current one; the reading is the new baseline.
pub tick-channels :
    (value a : ℕ) (w : Watcher)
    → IsLive w
    → has_subscribers w.broadcaster ≡ true
    → w.ok ≡ true
    → value ≢ w.baseline
    → IsOk
        (λ w'.
          (w'.baseline ≡ value)
          × (w'.broadcaster.current ≡ next w.revision)
          × (w'.broadcaster.subscribers ≡ w.broadcaster.subscribers)
          × (get_elem? w'.broadcaster.channels a ≡ (
              if is_channel a w.broadcaster.subscribers
              then some (full (next w.revision))
              else get_elem? w.broadcaster.channels a)))
        (tick (version value) w)
unfolding observe set_watching
tick-channels value a w l e f g =
    let v = observe (version value) w in
    let d = advance_lem value v (observe-IsLive (version value) w l) in
    rw (tick-changed value w e f g ∙ d.returned, IsOk)
      (d.baseline, d.live.synced ∙ d.revision, d.subscribers, d.channels a)

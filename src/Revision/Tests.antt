-- ===== src/Revision/Tests.antt =====
-- Runs of the definitions of internal/revision/revision.go, and the theorems at concrete inputs.
use next_now_x.Prelude.{
  IsOk, ◌≡◌, refl, inl, inr, some, none, List, [], ◌∷◌, map, true, false, arith,
}
use next_now_x.Revision.Broadcaster.{
  Subscriber, Broadcaster, new_broadcaster, has_subscribers, subscribe, publish,
}
use next_now_x.Revision.Broadcaster.Invariant.{Inv, full}
use next_now_x.Revision.Broadcaster.Reach.{
  Call, subscribing, publishing, closing, perform, run_all, run_all-Inv,
}
use next_now_x.Revision.Watcher.{Reading, version, failed, Watcher, start, ticking, happen_all, run}
use next_now_x.Revision.Watcher.{Event}
use next_now_x.Revision.Watcher.Ticks.{IsLive}
use next_now_x.Revision.Watcher.Events.{happen_all-IsLive, run_lem}
use next_now_x.Revision.Watcher.Counting.{happen_all-changes}

abbrev calls : List Call
calls = subscribing ∷ publishing 2 ∷ publishing 3 ∷ subscribing ∷ []

abbrev first_subscriber : Subscriber
first_subscriber = record { id = 0; channel = 0 }

-- The first subscriber has not read yet, the second one came after the last change.
abbrev two_subscribers : Broadcaster
two_subscribers = record {
  current = 3;
  closed = false;
  watching = true;
  subscribers = record { id = 1; channel = 1 } ∷ first_subscriber ∷ [];
  next_id = 2;
  channels = full 3 ∷ record { buffer = none; closed = false } ∷ [];
}

calls-run : run_all calls new_broadcaster ≡ some two_subscribers
unfolding run_all perform new_broadcaster subscribe publish
calls-run = refl

two_subscribers-Inv : Inv two_subscribers
two_subscribers-Inv = record {
  fresh = (
    record {
      channel = record { buffer = none; closed = false };
      found = refl;
      still_open = refl;
      newest = inl refl;
    },
    (record { channel = full 3; found = refl; still_open = refl; newest = inr refl }, tt),
  );
  descending = omega arith;
  shut = inl refl;
}

run_all-Inv_example : IsOk Inv (run_all (subscribing ∷ closing ∷ publishing 2 ∷ []) new_broadcaster)
run_all-Inv_example = run_all-Inv (subscribing ∷ closing ∷ publishing 2 ∷ [])

abbrev events : List Event
events = Event.subscribing ∷ ticking (version 5) ∷ ticking (failed false) ∷ ticking (version 6) ∷ []

happen_all-IsLive_example : IsOk IsLive (happen_all events (start (version 5)))
happen_all-IsLive_example = happen_all-IsLive (version 5) events

run_example : IsOk (λ b. (b.closed ≡ true) × (b.subscribers ≡ [])) (run (version 5) events)
run_example = run_lem (version 5) events

abbrev watching_two : Watcher
watching_two = record {
  broadcaster = two_subscribers;
  baseline = 7;
  ok = true;
  revision = 3;
  reported = 0;
}

watching_two-IsLive : IsLive watching_two
watching_two-IsLive = record { valid = two_subscribers-Inv; still_open = refl; synced = refl }

watching_two-watched : has_subscribers two_subscribers ≡ true
unfolding has_subscribers
watching_two-watched = refl

abbrev readings : List Reading
readings = version 7 ∷ failed false ∷ version 9 ∷ version 9 ∷ version 1 ∷ []

happen_all-changes_example :
    IsOk (λ w'. w'.revision ≡ 5) (happen_all (map ticking readings) watching_two)
happen_all-changes_example =
    happen_all-changes readings watching_two watching_two-IsLive watching_two-watched (omega arith)

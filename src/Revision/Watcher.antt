-- ===== src/Revision/Watcher.antt =====
-- `Watcher` of internal/revision/revision.go, lines 109 to 182: the loop of `Run` as a function of one
-- tick. The reader is not part of the program: what `DataVersion` answers is an argument.
pub mod Ticks
pub mod Events
pub mod Counting
use next_now_x.Prelude.{
  ℕ, ◌+◌, ◌*◌, ◌^◌, ◌%◌, Option, some, none, List, [], ◌∷◌, Bool, true, false, not, ◌==◌,
  if◌then◌else◌,
}
use next_now_x.Revision.Broadcaster.{
  Broadcaster, new_broadcaster, has_subscribers, set_watching, subscribe, unsubscribe, publish,
  close, receive,
}

-- `failed cancelled` is an error of the reader, `cancelled` whether the context has ended.
pub data Reading : Type 0 where
  version : ℕ → Reading
  failed : Bool → Reading

-- The local variables of `Run`, with the number of errors given to `onError`.
pub record Watcher : Type 0 where
  pub broadcaster : Broadcaster
  pub baseline : ℕ
  pub ok : Bool
  pub revision : ℕ
  pub reported : ℕ

pub read : Reading → ℕ × Bool
read (version value) = (value, true)
read (failed cancelled) = (0, false)

unfoldable pub report : Reading → ℕ → ℕ
report (version value) reported = reported
report (failed cancelled) reported = if cancelled then reported else reported + 1

-- What `Run` does before its loop.
pub start : Reading → Watcher
start r = record {
  broadcaster = set_watching (read r).1 new_broadcaster;
  baseline = (read r).0;
  ok = (read r).1;
  revision = 1;
  reported = report r 0;
}

-- `revision++` on a `uint64`.
pub next : ℕ → ℕ
next revision = (revision + 1) % 2 ^ 64

pub advance : ℕ → Watcher → Option Watcher
unfolding next
advance value w = elim (publish (next w.revision) w.broadcaster) [
  | none ↦ none
  | some b ↦ some (record w { broadcaster = b; baseline = value; revision = next w.revision })
]

-- The rest of the loop's body, after a successful reading.
pub compare : ℕ → Watcher → Option Watcher
unfolding advance
compare value w =
    if not w.ok
    then some (record w { baseline = value; ok = true })
    else if value == w.baseline
    then some w
    else advance value w

-- The reading, and `setWatching`.
pub observe : Reading → Watcher → Watcher
observe r w = record w {
  broadcaster = set_watching (read r).1 w.broadcaster;
  reported = report r w.reported;
}

-- The loop's body on a tick.
pub tick : Reading → Watcher → Option Watcher
unfolding compare observe
tick r w =
    if not (has_subscribers w.broadcaster)
    then some (record w { broadcaster = set_watching true w.broadcaster; ok = false })
    else if not (read r).1
    then some (observe r w)
    else compare (read r).0 (observe r w)

-- A tick, or what a subscriber does between two ticks.
pub data Event : Type 0 where
  ticking : Reading → Event
  subscribing : Event
  cancelling receiving : ℕ → Event

pub happen : Event → Watcher → Option Watcher
happen (ticking r) w = tick r w
happen subscribing w = some (record w { broadcaster = (subscribe w.broadcaster).0 })
happen (cancelling id) w = some (record w { broadcaster = unsubscribe id w.broadcaster })
happen (receiving a) w = some (record w { broadcaster = receive a w.broadcaster })

pub happen_all : List Event → Watcher → Option Watcher
happen_all [] w = some w
happen_all (e ∷ es) w = elim (happen e w) [ none ↦ none | some w' ↦ happen_all es w' ]

-- `Run` up to the end of its context, and the `Close` it defers.
pub run : Reading → List Event → Option Broadcaster
run r es = elim (happen_all es (start r)) [ none ↦ none | some w ↦ close w.broadcaster ]

-- ===== src/Revision/Broadcaster/Reach.antt =====
-- `Broadcaster` of internal/revision/revision.go: any sequence of calls by the watcher and by
-- subscribers. The lock orders the calls, so an interleaving of goroutines is a list.
use mathlib.Core.Option
use next_now_x.Prelude.{
  IsOk, ℕ, ◌≡◌, ◌≢◌, refl, inl, inr, sym, Option, some, none, List, [], ◌∷◌, Bool, true, false,
  if◌then◌else◌, get_elem?, In, Option-cases, ◌↔◌, ◌==◌, arith, subst, Bool-cases,
}
use next_now_x.Revision.Broadcaster.{
  Subscriber, Broadcaster, new_broadcaster, set_watching, subscribe, remove, unsubscribe, publish,
  close, receive,
}
use next_now_x.Revision.Broadcaster.Invariant.{Inv, is_channel, full, shut_channel}
use next_now_x.Revision.Broadcaster.Steps.{
  subscribe-Inv, unsubscribe-Inv, set_watching-Inv, receive-Inv,
}
use next_now_x.Revision.Broadcaster.Delivery.{publish-Published, publish-Inv, close-Shut, close-Inv}

-- A call of one of the methods, or a receive by a subscriber.
pub data Call : Type 0 where
  subscribing : Call
  cancelling : ℕ → Call
  watching_set : Bool → Call
  publishing : ℕ → Call
  closing : Call
  receiving : ℕ → Call

unfoldable pub perform : Call → Broadcaster → Option Broadcaster
perform subscribing b = some (subscribe b).0
perform (cancelling id) b = some (unsubscribe id b)
perform (watching_set value) b = some (set_watching value b)
perform (publishing value) b = publish value b
perform closing b = close b
perform (receiving address) b = some (receive address b)

unfoldable pub run_all : List Call → Broadcaster → Option Broadcaster
run_all [] b = some b
run_all (call ∷ calls) b = elim (perform call b) [ none ↦ none | some b' ↦ run_all calls b' ]

new_broadcaster-Inv : Inv new_broadcaster
unfolding new_broadcaster
new_broadcaster-Inv = record { fresh = tt; descending = tt; shut = inl refl }

perform-Inv : (call : Call) (b : Broadcaster) → Inv b → IsOk Inv (perform call b)
unfolding perform
perform-Inv subscribing b v = subscribe-Inv b v
perform-Inv (cancelling id) b v = unsubscribe-Inv id b v
perform-Inv (watching_set value) b v = set_watching-Inv value b v
perform-Inv (publishing value) b v = publish-Inv value b v
perform-Inv closing b v = close-Inv b v
perform-Inv (receiving address) b v = receive-Inv address b v

run_all-step :
    (call : Call) (calls : List Call) (b b' : Broadcaster)
    → perform call b ≡ some b'
    → run_all (call ∷ calls) b ≡ run_all calls b'
unfolding run_all
run_all-step call calls b b' e = rw (e, run_all) refl

run_all_lem : (calls : List Call) (b : Broadcaster) → Inv b → IsOk Inv (run_all calls b)
unfolding run_all
run_all_lem [] b v = v
run_all_lem (call ∷ calls) b v = elim (Option-cases (perform call b)) [
  | inl e ↦ absurd (subst (IsOk Inv) e (perform-Inv call b v))
  | inr (b', e) ↦
      subst (IsOk Inv) (sym (run_all-step call calls b b' e))
        (run_all_lem calls b' (subst (IsOk Inv) e (perform-Inv call b v)))
]

-- From a new broadcaster, no sequence of calls, with the receives of subscribers anywhere between
-- them, panics (no send to a closed channel, no channel closed twice), and the state it leaves has
-- the invariant `Inv`: the subscribers have channels of their own, which are open and hold nothing
-- or the current revision, and a closed broadcaster has no subscribers.
pub run_all-Inv : (calls : List Call) → IsOk Inv (run_all calls new_broadcaster)
run_all-Inv calls = run_all_lem calls new_broadcaster new_broadcaster-Inv

-- On a broadcaster with the invariant that is not closed, `publish` succeeds whatever waits in the
-- channels: the value becomes the current one, the channel of each subscriber holds it alone, and
-- every other channel is as it was.
pub publish_lem :
    (value a : ℕ) (b : Broadcaster)
    → Inv b
    → b.closed ≡ false
    → IsOk
        (λ b'.
          (b'.current ≡ value)
          × (b'.subscribers ≡ b.subscribers)
          × (get_elem? b'.channels a
              ≡ (if is_channel a b.subscribers then some (full value) else get_elem? b.channels a)))
        (publish value b)
publish_lem value a b v e =
    let p = publish-Published value b e v in
    rw (p.returned, IsOk) (refl, refl, p.delivered.written a)

-- On a broadcaster with the invariant that is not closed, `Close` succeeds: no subscriber is left,
-- the channel of each is closed, with what waits in it still there, and every other channel is as
-- it was.
pub close_lem :
    (a : ℕ) (b : Broadcaster)
    → Inv b
    → b.closed ≡ false
    → IsOk
        (λ b'.
          (b'.current ≡ b.current)
          × (b'.closed ≡ true)
          × (b'.subscribers ≡ [])
          × (get_elem? b'.channels a ≡ (
              if is_channel a b.subscribers
              then Option.map shut_channel (get_elem? b.channels a)
              else get_elem? b.channels a)))
        (close b)
close_lem a b v e =
    let p = close-Shut b e v in rw (p.returned, IsOk) (refl, refl, refl, p.after.written a)

-- A broadcaster that is closed stays as it is when it is closed again or when a value is published.
closed_lem :
    (value : ℕ) (b : Broadcaster)
    → b.closed ≡ true
    → (close b ≡ some b) × (publish value b ≡ some b)
unfolding close publish
closed_lem value b e = (ground arith, ground arith)

In-remove :
    (id : ℕ) (s : Subscriber) (ss : List Subscriber) → In s (remove id ss) ↔ (In s ss × (s.id ≢ id))
unfolding remove
In-remove id s [] = ground arith
In-remove id s (t ∷ ss) = elim (Bool-cases (t.id == id)) [
  | inl e ↦ rw e ground (arith, In-remove id s ss)
  | inr e ↦ rw e ground (arith, In-remove id s ss)
]

-- `cancel` ends the subscription with its identifier and no other, so that a second `cancel` does
-- nothing.
pub unsubscribe-In :
    (id : ℕ) (s : Subscriber) (b : Broadcaster)
    → In s (unsubscribe id b).subscribers ↔ (In s b.subscribers × (s.id ≢ id))
unfolding unsubscribe
unsubscribe-In id s b = In-remove id s b.subscribers

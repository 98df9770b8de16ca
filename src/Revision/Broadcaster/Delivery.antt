-- ===== src/Revision/Broadcaster/Delivery.antt =====
-- `Broadcaster` of internal/revision/revision.go: what `publish` and `Close` leave behind.

use next_now_x.Prelude.{
  IsOk, ℕ, ◌≡◌, refl, sym, inl, inr, some, List, [], ◌∷◌, true, false, if◌then◌else◌, length,
  get_elem?, All, Bool-cases, arith, subst,
}
use next_now_x.Revision.Broadcaster.{Channel, Subscriber, Broadcaster, publish, close}
use next_now_x.Revision.Broadcaster.Invariant.{
  IsFresh, Inv, is_channel, full, IsOpen, Delivered, deliver_all_lem, Closed, close_all_lem,
}

All-IsOpen :
    (current : ℕ) (channels : List Channel) (ss : List Subscriber)
    → All (IsFresh current channels) ss
    → All (IsOpen channels) ss
All-IsOpen current channels [] h = tt
All-IsOpen current channels (s ∷ ss) h = (
  record { channel = h.0.channel; found = h.0.found; still_open = h.0.still_open },
  All-IsOpen current channels ss h.1,
)

-- All subscribers, where the channels of `all` were written.
delivered-IsFresh :
    (value : ℕ) (channels after : List Channel) (all ss : List Subscriber)
    → ((a : ℕ)
        → get_elem? after a
          ≡ (if is_channel a all then some (full value) else get_elem? channels a))
    → ((a : ℕ) → is_channel a ss ≡ true → is_channel a all ≡ true)
    → All (IsFresh value after) ss
delivered-IsFresh value channels after all [] w h = tt
delivered-IsFresh value channels after all (s ∷ ss) w h = (
  record {
    channel = full value;
    found = ground (arith, w s.channel, h s.channel);
    still_open = refl;
    newest = inr refl;
  },
  delivered-IsFresh value channels after all ss w (λ a m. ground (arith, h a)),
)

publish-shut : (value : ℕ) (b : Broadcaster) → b.closed ≡ true → publish value b ≡ some b
unfolding publish
publish-shut value b e = ground arith

-- What `publish` leaves behind, if the broadcaster is not closed.
pub record Published (value : ℕ) (b : Broadcaster) : Type 0 where
  pub delivered : Delivered value b.channels b.subscribers
  pub returned : publish value b ≡ some (record b { current = value; channels = delivered.after })

pub publish-Published : (value : ℕ) (b : Broadcaster) → b.closed ≡ false → Inv b → Published value b
unfolding publish
publish-Published value b e v =
    let d =
      deliver_all_lem value b.channels b.subscribers
        (All-IsOpen b.current b.channels b.subscribers v.fresh) in
    record { delivered = d; returned = ground (arith, d.returned) }

pub publish-Inv : (value : ℕ) (b : Broadcaster) → Inv b → IsOk Inv (publish value b)
publish-Inv value b v = elim (Bool-cases b.closed) [
  | inl e ↦ subst (IsOk Inv) (sym (publish-shut value b e)) v
  | inr e ↦
      let p = publish-Published value b e v in
      subst (IsOk Inv) (sym p.returned) (record {
        fresh =
            delivered-IsFresh value b.channels p.delivered.after b.subscribers b.subscribers
              p.delivered.written (λ a m. m);
        descending = rw p.delivered.size v.descending;
        shut = inl e;
      })
]

close-shut : (b : Broadcaster) → b.closed ≡ true → close b ≡ some b
unfolding close
close-shut b e = ground arith

-- What `Close` leaves behind, if the broadcaster was not closed.
pub record Shut (b : Broadcaster) : Type 0 where
  pub after : Closed b.channels b.subscribers
  pub returned :
      close b ≡ some (record b { closed = true; channels = after.after; subscribers = [] })

pub close-Shut : (b : Broadcaster) → b.closed ≡ false → Inv b → Shut b
unfolding close
close-Shut b e v =
    let c =
      close_all_lem b.next_id (length b.channels) b.channels b.subscribers v.descending
        (All-IsOpen b.current b.channels b.subscribers v.fresh) in
    record { after = c; returned = ground (arith, c.returned) }

pub close-Inv : (b : Broadcaster) → Inv b → IsOk Inv (close b)
close-Inv b v = elim (Bool-cases b.closed) [
  | inl e ↦ subst (IsOk Inv) (sym (close-shut b e)) v
  | inr e ↦
      subst (IsOk Inv) (sym (close-Shut b e v).returned)
        (record { fresh = tt; descending = tt; shut = inr refl })
]

-- ===== src/Revision/Broadcaster/Steps.antt =====
-- `Broadcaster` of internal/revision/revision.go: the invariant under every method but `publish` and
-- `Close`.

use next_now_x.Prelude.{
  ℕ, ◌+◌, ◌≤◌, ◌≡◌, refl, sym, inl, inr, some, none, List, [], ◌∷◌, ◌++◌, Bool, true, false, ◌==◌,
  length, length-append, get_elem?, set, length-set, get_elem?-set, get_elem?-append,
  lt-length_of_get_elem?, All, Bool-cases, Option-cases, arith, subst,
}
use next_now_x.Revision.Broadcaster.{
  Channel, Subscriber, Broadcaster, set_watching, subscribe, remove, unsubscribe, drain, receive,
}
use next_now_x.Revision.Broadcaster.Invariant.{IsFresh, IsDescending, Inv}

IsDescending-mono :
    (ids ids' addresses addresses' : ℕ) (ss : List Subscriber)
    → ids ≤ ids'
    → addresses ≤ addresses'
    → IsDescending ids addresses ss
    → IsDescending ids' addresses' ss
IsDescending-mono ids ids' addresses addresses' [] h k d = tt
IsDescending-mono ids ids' addresses addresses' (s ∷ ss) h k d =
    (omega (arith, d.0), omega (arith, d.1), d.2)

All-IsFresh-append :
    (current : ℕ) (channels : List Channel) (c : Channel) (ss : List Subscriber)
    → All (IsFresh current channels) ss
    → All (IsFresh current (channels ++ c ∷ [])) ss
All-IsFresh-append current channels c [] h = tt
All-IsFresh-append current channels c (s ∷ ss) h = (
  record {
    channel = h.0.channel;
    found = ground (
      arith,
      get_elem?-append channels s.channel c,
      lt-length_of_get_elem? channels s.channel h.0.channel h.0.found,
      h.0.found,
    );
    still_open = h.0.still_open;
    newest = h.0.newest;
  },
  All-IsFresh-append current channels c ss h.1,
)

abbrev opened : Bool → Channel
opened shut = record { buffer = none; closed = shut }

abbrev joined : Broadcaster → Broadcaster
joined b = record b {
  channels = b.channels ++ opened false ∷ [];
  subscribers = record { id = b.next_id; channel = length b.channels } ∷ b.subscribers;
  next_id = b.next_id + 1;
}

subscribe-shut :
    (b : Broadcaster)
    → b.closed ≡ true
    → (subscribe b).0 ≡ record b { channels = b.channels ++ opened true ∷ [] }
unfolding subscribe
subscribe-shut b e = ground arith

subscribe-joined : (b : Broadcaster) → b.closed ≡ false → (subscribe b).0 ≡ joined b
unfolding subscribe
subscribe-joined b e = ground arith

joined-Inv : (b : Broadcaster) → b.closed ≡ false → Inv b → Inv (joined b)
joined-Inv b e v = record {
  fresh = (
    record {
      channel = opened false;
      found = ground (arith, get_elem?-append b.channels (length b.channels) (opened false));
      still_open = refl;
      newest = inl refl;
    },
    All-IsFresh-append b.current b.channels (opened false) b.subscribers v.fresh,
  );
  descending =
      (omega arith, omega (arith, length-append b.channels (opened false ∷ [])), v.descending);
  shut = inl e;
}

pub subscribe-Inv : (b : Broadcaster) → Inv b → Inv (subscribe b).0
subscribe-Inv b v = elim (Bool-cases b.closed) [
  | inl e ↦ subst Inv (sym (subscribe-shut b e)) (record {
    fresh = All-IsFresh-append b.current b.channels (opened true) b.subscribers v.fresh;
    descending =
        IsDescending-mono b.next_id b.next_id (length b.channels)
          (length (b.channels ++ opened true ∷ [])) b.subscribers (omega arith)
          (omega (arith, length-append b.channels (opened true ∷ []))) v.descending;
    shut = v.shut;
  })
  | inr e ↦ subst Inv (sym (subscribe-joined b e)) (joined-Inv b e v)
]

All-remove :
    (P : Subscriber → Type 0) (id : ℕ) (ss : List Subscriber) → All P ss → All P (remove id ss)
unfolding remove
All-remove P id [] h = tt
All-remove P id (s ∷ ss) h = elim (Bool-cases (s.id == id)) [
  | inl e ↦ rw e (All-remove P id ss h.1)
  | inr e ↦ rw e (h.0, All-remove P id ss h.1)
]

IsDescending-remove :
    (id ids addresses : ℕ) (ss : List Subscriber)
    → IsDescending ids addresses ss
    → IsDescending ids addresses (remove id ss)
unfolding remove
IsDescending-remove id ids addresses [] d = tt
IsDescending-remove id ids addresses (s ∷ ss) d = elim (Bool-cases (s.id == id)) [
  | inl e ↦ rw e (
      IsDescending-mono s.id ids s.channel addresses (remove id ss) (omega (arith, d.0))
        (omega (arith, d.1)) (IsDescending-remove id s.id s.channel ss d.2))
  | inr e ↦ rw e (d.0, d.1, IsDescending-remove id s.id s.channel ss d.2)
]

pub unsubscribe-Inv : (id : ℕ) (b : Broadcaster) → Inv b → Inv (unsubscribe id b)
unfolding unsubscribe remove
unsubscribe-Inv id b v = record {
  fresh = All-remove (IsFresh b.current b.channels) id b.subscribers v.fresh;
  descending = IsDescending-remove id b.next_id (length b.channels) b.subscribers v.descending;
  shut = elim v.shut [ inl e ↦ inl e | inr e ↦ inr (rw e) ];
}

pub set_watching-Inv : (value : Bool) (b : Broadcaster) → Inv b → Inv (set_watching value b)
unfolding set_watching
set_watching-Inv value b v = record { fresh = v.fresh; descending = v.descending; shut = v.shut }

All-IsFresh-drain :
    (current a : ℕ) (channels : List Channel) (c : Channel) (ss : List Subscriber)
    → get_elem? channels a ≡ some c
    → All (IsFresh current channels) ss
    → All (IsFresh current (set channels a (drain c))) ss
unfolding drain
All-IsFresh-drain current a channels c [] e h = tt
All-IsFresh-drain current a channels c (s ∷ ss) e h =
    (drained, All-IsFresh-drain current a channels c ss e h.1)
  where
    f : IsFresh current channels s
    f = h.0

    drained : IsFresh current (set channels a (drain c)) s
    drained = elim (Bool-cases (a == s.channel)) [
      | inl same ↦ record {
        channel = record f.channel { buffer = none };
        found = ground (
          arith,
          f.found,
          get_elem?-set channels a s.channel (record c { buffer = none }),
          lt-length_of_get_elem? channels a c e,
        );
        still_open = f.still_open;
        newest = inl refl;
      }
      | inr other ↦ record {
        channel = f.channel;
        found = ground (
          arith,
          f.found,
          get_elem?-set channels a s.channel (record c { buffer = none }),
          lt-length_of_get_elem? channels a c e,
        );
        still_open = f.still_open;
        newest = f.newest;
      }
    ]

receive-none : (a : ℕ) (b : Broadcaster) → get_elem? b.channels a ≡ none → receive a b ≡ b
unfolding receive
receive-none a b e = ground arith

receive-some :
    (a : ℕ) (b : Broadcaster) (c : Channel)
    → get_elem? b.channels a ≡ some c
    → receive a b ≡ record b { channels = set b.channels a (drain c) }
unfolding receive
receive-some a b c e = ground arith

pub receive-Inv : (a : ℕ) (b : Broadcaster) → Inv b → Inv (receive a b)
receive-Inv a b v = elim (Option-cases (get_elem? b.channels a)) [
  | inl e ↦ subst Inv (sym (receive-none a b e)) v
  | inr (c, e) ↦ subst Inv (sym (receive-some a b c e)) (record {
    fresh = All-IsFresh-drain b.current a b.channels c b.subscribers e v.fresh;
    descending = rw (length-set b.channels a (drain c)) v.descending;
    shut = v.shut;
  })
]

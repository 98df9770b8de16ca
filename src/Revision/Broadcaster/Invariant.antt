-- ===== src/Revision/Broadcaster/Invariant.antt =====
-- `Broadcaster` of internal/revision/revision.go: what holds between two methods, and the loops over
-- the subscribers.
use next_now_x.Prelude.{
  ℕ, ◌<◌, ◌≤◌, ◌≡◌, refl, ◌∙◌, ◌⊎◌, inl, inr, some, none, List, [], ◌∷◌, Bool, true, false, ◌==◌,
  ◌||◌, if◌then◌else◌, length, get_elem?, set, length-set, get_elem?-set, lt-length_of_get_elem?,
  All, Bool-cases, arith,
}
use mathlib.Core.Option
use next_now_x.Revision.Broadcaster.{
  Channel, Subscriber, Broadcaster, drain, send, deliver, deliver_all, close_channel, close_all,
}

-- The channel at an address is open, and what waits in it is the value `current`.
pub record IsFresh (current : ℕ) (channels : List Channel) (s : Subscriber) : Type 0 where
  pub channel : Channel
  pub found : get_elem? channels s.channel ≡ some channel
  pub still_open : channel.closed ≡ false
  pub newest : (channel.buffer ≡ none) ⊎ (channel.buffer ≡ some current)

-- Later subscribers have larger identifiers and younger channels.
abbrev pub IsDescending : ℕ → ℕ → List Subscriber → Type 0
IsDescending ids addresses [] = Unit
IsDescending ids addresses (s ∷ ss) =
    (s.id < ids) × (s.channel < addresses) × IsDescending s.id s.channel ss

pub record Inv (b : Broadcaster) : Type 0 where
  pub fresh : All (IsFresh b.current b.channels) b.subscribers
  pub descending : IsDescending b.next_id (length b.channels) b.subscribers
  pub shut : (b.closed ≡ false) ⊎ (b.subscribers ≡ [])

abbrev pub is_channel : ℕ → List Subscriber → Bool
is_channel a [] = false
is_channel a (s ∷ ss) = s.channel == a || is_channel a ss

abbrev pub full : ℕ → Channel
full value = record { buffer = some value; closed = false }

-- A write to another channel, or of a new value to all, leaves the channel open.
pub record IsOpen (channels : List Channel) (s : Subscriber) : Type 0 where
  pub channel : Channel
  pub found : get_elem? channels s.channel ≡ some channel
  pub still_open : channel.closed ≡ false

deliver_open :
    (value : ℕ) (channels : List Channel) (s : Subscriber)
    → IsOpen channels s
    → deliver value channels s.channel ≡ some (set channels s.channel (full value))
unfolding deliver send drain
deliver_open value channels s h = ground arith

set-IsOpen :
    (value a : ℕ) (channels : List Channel) (ss : List Subscriber)
    → a < length channels
    → All (IsOpen channels) ss
    → All (IsOpen (set channels a (full value))) ss
set-IsOpen value a channels [] h os = tt
set-IsOpen value a channels (s ∷ ss) h os = (
  elim (Bool-cases (a == s.channel)) [
    | inl e ↦ record {
      channel = full value;
      found = ground (arith, get_elem?-set channels a s.channel (full value));
      still_open = refl;
    }
    | inr e ↦ record {
      channel = os.0.channel;
      found = ground (arith, os.0.found, get_elem?-set channels a s.channel (full value));
      still_open = os.0.still_open;
    }
  ],
  set-IsOpen value a channels ss h os.1,
)

-- The channels after `publish`.
pub record Delivered (value : ℕ) (channels : List Channel) (ss : List Subscriber) : Type 0 where
  pub after : List Channel
  pub returned : deliver_all value channels ss ≡ some after
  pub size : length after ≡ length channels
  pub written :
      (a : ℕ)
      → get_elem? after a ≡ (if is_channel a ss then some (full value) else get_elem? channels a)

pub deliver_all_lem :
    (value : ℕ) (channels : List Channel) (ss : List Subscriber)
    → All (IsOpen channels) ss
    → Delivered value channels ss
unfolding deliver_all
deliver_all_lem value channels [] os = record {
  after = channels;
  returned = refl;
  size = refl;
  written = λ a. refl;
}
deliver_all_lem value channels (s ∷ ss) os =
    let inside = lt-length_of_get_elem? channels s.channel os.0.channel os.0.found in
    let rest =
      deliver_all_lem value (set channels s.channel (full value)) ss
        (set-IsOpen value s.channel channels ss inside os.1) in
    record {
      after = rest.after;
      returned = rw (deliver_open value channels s os.0, deliver_all) rest.returned;
      size = rest.size ∙ length-set channels s.channel (full value);
      written =
          λ a. ground (arith, rest.written a, get_elem?-set channels s.channel a (full value));
    }

abbrev pub shut_channel : Channel → Channel
shut_channel c = record c { closed = true }

-- A write to an older address than those of the subscribers.
set-IsOpen_above :
    (c : Channel) (a ids addresses : ℕ) (channels : List Channel) (ss : List Subscriber)
    → addresses ≤ a
    → a < length channels
    → IsDescending ids addresses ss
    → All (IsOpen channels) ss
    → All (IsOpen (set channels a c)) ss
set-IsOpen_above c a ids addresses channels [] h inside d os = tt
set-IsOpen_above c a ids addresses channels (s ∷ ss) h inside d os = (
  record {
    channel = os.0.channel;
    found = ground (arith, os.0.found, get_elem?-set channels a s.channel c, d.1);
    still_open = os.0.still_open;
  },
  set-IsOpen_above c a s.id s.channel channels ss (omega (arith, d.1)) inside d.2 os.1,
)

-- The channels after `Close`.
pub record Closed (channels : List Channel) (ss : List Subscriber) : Type 0 where
  pub after : List Channel
  pub returned : close_all channels ss ≡ some after
  pub size : length after ≡ length channels
  pub written :
      (a : ℕ)
      → get_elem? after a ≡ (
          if is_channel a ss
          then Option.map shut_channel (get_elem? channels a)
          else get_elem? channels a)

close_open :
    (channels : List Channel) (s : Subscriber) (o : IsOpen channels s)
    → close_channel channels s.channel ≡ some (set channels s.channel (shut_channel o.channel))
unfolding close_channel
close_open channels s o = ground (arith, o.found, o.still_open)

not_among :
    (ids addresses a : ℕ) (ss : List Subscriber)
    → IsDescending ids addresses ss
    → addresses ≤ a
    → is_channel a ss ≡ false
not_among ids addresses a [] d h = refl
not_among ids addresses a (s ∷ ss) d h = ground (arith, not_among s.id s.channel a ss d.2, d.1)

pub close_all_lem :
    (ids addresses : ℕ) (channels : List Channel) (ss : List Subscriber)
    → IsDescending ids addresses ss
    → All (IsOpen channels) ss
    → Closed channels ss
unfolding close_all
close_all_lem ids addresses channels [] d os = record {
  after = channels;
  returned = refl;
  size = refl;
  written = λ a. refl;
}
close_all_lem ids addresses channels (s ∷ ss) d os =
    let o = os.0 in
    let inside = lt-length_of_get_elem? channels s.channel o.channel o.found in
    let c = shut_channel o.channel in
    let rest =
      close_all_lem s.id s.channel (set channels s.channel c) ss d.2
        (set-IsOpen_above c s.channel s.id s.channel channels ss (omega arith) inside d.2 os.1) in
    record {
      after = rest.after;
      returned = rw (close_open channels s o, close_all) rest.returned;
      size = rest.size ∙ length-set channels s.channel c;
      written = λ a. ground (
        arith,
        rest.written a,
        get_elem?-set channels s.channel a c,
        not_among s.id s.channel s.channel ss d.2,
        o.found,
      );
    }

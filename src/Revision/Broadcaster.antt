-- ===== src/Revision/Broadcaster.antt =====
-- `Broadcaster` of internal/revision/revision.go, lines 16 to 107. The lock makes each method one
-- step. A channel is an address in `channels`, since the subscriber and the map share it; `none` is
-- the panic of a send to a closed channel or of a second `close`.
pub mod Invariant
pub mod Steps
pub mod Delivery
pub mod Reach
use next_now_x.Prelude.{
  ℕ, zero, suc, ◌+◌, ◌++◌, Option, some, none, List, [], ◌∷◌, Bool, true, false, not, ◌==◌,
  if◌then◌else◌, length, get_elem?, set,
}

-- A channel of capacity one.
pub record Channel : Type 0 where
  pub buffer : Option ℕ
  pub closed : Bool

-- An entry of the map from the identifiers of subscribers to their channels.
pub record Subscriber : Type 0 where
  pub id : ℕ
  pub channel : ℕ

-- The newest subscriber stands first.
pub record Broadcaster : Type 0 where
  pub current : ℕ
  pub closed : Bool
  pub watching : Bool
  pub subscribers : List Subscriber
  pub next_id : ℕ
  pub channels : List Channel

unfoldable pub new_broadcaster : Broadcaster
new_broadcaster = record {
  current = 1;
  closed = false;
  watching = true;
  subscribers = [];
  next_id = 0;
  channels = [];
}

unfoldable pub has_subscribers : Broadcaster → Bool
has_subscribers b = elim b.subscribers [ [] ↦ false | _ ∷ _ ↦ true ]

unfoldable pub set_watching : Bool → Broadcaster → Broadcaster
set_watching value b = record b { watching = value }

-- What `Subscribe` returns: the revision, the channel, and the subscription that `cancel` ends, which
-- is none if the broadcaster is closed.
pub record Subscription : Type 0 where
  pub revision : ℕ
  pub updates : ℕ
  pub cancels : Option ℕ

unfoldable pub subscribe : Broadcaster → Broadcaster × Subscription
subscribe b =
    let address = length b.channels in
    if b.closed
    then (
      record b { channels = b.channels ++ record { buffer = none; closed = true } ∷ [] },
      record { revision = b.current; updates = address; cancels = none },
    )
    else (
      record b {
        channels = b.channels ++ record { buffer = none; closed = false } ∷ [];
        subscribers = record { id = b.next_id; channel = address } ∷ b.subscribers;
        next_id = b.next_id + 1;
      },
      record { revision = b.current; updates = address; cancels = some b.next_id },
    )

-- `delete(b.subscribers, id)`.
remove : ℕ → List Subscriber → List Subscriber
remove id [] = []
remove id (s ∷ ss) = let rest = remove id ss in if s.id == id then rest else s ∷ rest

unfoldable pub unsubscribe : ℕ → Broadcaster → Broadcaster
unfolding remove
unsubscribe id b = record b { subscribers = remove id b.subscribers }

-- The two `select` statements of `publish`: take what waits, then send if there is room.
drain : Channel → Channel
drain c = record c { buffer = none }

send : ℕ → Channel → Option Channel
send value c =
    if c.closed
    then none
    else some (elim c.buffer [ none ↦ record c { buffer = some value } | some _ ↦ c ])

deliver : ℕ → List Channel → ℕ → Option (List Channel)
unfolding drain send
deliver value channels address = elim (get_elem? channels address) [
  | none ↦ none
  | some c ↦ elim (send value (drain c)) [ none ↦ none | some c' ↦ some (set channels address c') ]
]

-- The loop of `publish`.
pub deliver_all : ℕ → List Channel → List Subscriber → Option (List Channel)
deliver_all value channels [] = some channels
deliver_all value channels (s ∷ ss) = elim (deliver value channels s.channel) [
  | none ↦ none
  | some channels' ↦ deliver_all value channels' ss
]

unfoldable pub publish : ℕ → Broadcaster → Option Broadcaster
unfolding deliver deliver_all
publish value b = if b.closed then some b else elim (deliver_all value b.channels b.subscribers) [
  | none ↦ none
  | some channels ↦ some (record b { current = value; channels = channels })
]

close_channel : List Channel → ℕ → Option (List Channel)
close_channel channels address = elim (get_elem? channels address) [
  | none ↦ none
  | some c ↦ if c.closed then none else some (set channels address (record c { closed = true }))
]

-- The loop of `Close`.
pub close_all : List Channel → List Subscriber → Option (List Channel)
close_all channels [] = some channels
close_all channels (s ∷ ss) = elim (close_channel channels s.channel) [
  | none ↦ none
  | some channels' ↦ close_all channels' ss
]

pub close : Broadcaster → Option Broadcaster
unfolding close_channel close_all
close b = if b.closed then some b else elim (close_all b.channels b.subscribers) [
  | none ↦ none
  | some channels ↦ some (record b { closed = true; channels = channels; subscribers = [] })
]

-- A subscriber takes what waits in its channel.
unfoldable pub receive : ℕ → Broadcaster → Broadcaster
unfolding drain
receive address b = elim (get_elem? b.channels address) [
  | none ↦ b
  | some c ↦ record b { channels = set b.channels address (drain c) }
]

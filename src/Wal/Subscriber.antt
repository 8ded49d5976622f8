-- ===== src/Wal/Subscriber.antt =====
-- internal/wal/wal.go: a subscriber, which is a queue and a goroutine that takes the events from it
-- and sends them on a channel.
use grael.Prelude.{ℕ, Bool, true, false, Option, none, some, List, [], ◌∷◌, ◌++◌}
use grael.Runtime.{Event}

-- `in_hand` is the event between `next` and its sending, `sent` what went through the channel, and
-- `finished` that the goroutine has returned.
pub record Subscriber : Type 0 where
  pub id : ℕ
  pub pending : List Event
  pub closed : Bool
  pub in_hand : Option Event
  pub sent : List Event
  pub finished : Bool

abbrev pub new_subscriber : ℕ → List Event → Subscriber
new_subscriber id pending = record {
  id = id;
  pending = pending;
  closed = false;
  in_hand = none;
  sent = [];
  finished = false;
}

unfoldable pub enqueue : Event → Subscriber → Subscriber
enqueue event sub = elim sub.closed [
  | true ↦ sub
  | false ↦ record sub { pending = sub.pending ++ event ∷ [] }
]

unfoldable pub close : Subscriber → Subscriber
close sub = record sub { closed = true }

-- `next`: none while it waits; an empty queue that is closed ends the goroutine.
unfoldable pub next : Subscriber → Option Subscriber
next sub = elim sub.pending [
  | event ∷ events ↦ some (record sub { pending = events; in_hand = some event })
  | [] ↦ elim sub.closed [ true ↦ some (record sub { finished = true }) | false ↦ none ]
]

-- The `select` of `run`: the event is sent, or the goroutine returns because the channel is closed.
unfoldable pub send : Event → Subscriber → Subscriber
send event sub = record sub { in_hand = none; sent = sub.sent ++ event ∷ [] }

unfoldable pub give_up : Subscriber → Option Subscriber
give_up sub = elim sub.closed [
  | true ↦ some (record sub { in_hand = none; finished = true })
  | false ↦ none
]

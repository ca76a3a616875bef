-- ===== src/Jobs/Broker.antt =====
-- broker.go: the events of a job, handed to those who follow it. A channel is the list of the events
-- that wait in it; a subscription is in the broker's map exactly while it is not done.
pub mod Delivery
use agent_fox.Table.{update_where}
use agent_fox.Jobs.Rows.{Event}
use agent_fox.Prelude.{
  ℕ, String, Bool, true, List, [], ◌++◌, ◌==◌, if◌then◌else◌, ◌∷◌, false, ◌&&◌, ltb, not, String_Eq,
  length,
}

abbrev pub subscriber_buffer : ℕ
subscriber_buffer = 256

-- Subscription. `received` is what the subscriber has read from C.
pub record Subscription : Type 0 where
  pub job_id : String
  pub channel : List Event
  pub received : List Event
  pub slow : Bool
  pub done : Bool

pub record Broker : Type 0 where
  pub closed : Bool
  pub subs : List Subscription

-- Subscribe: the subscription that a broker makes.
unfoldable pub subscription : Bool → String → Subscription
subscription closed job = record {
  job_id = job;
  channel = [];
  received = [];
  slow = false;
  done = closed;
}

unfoldable pub subscribe : String → Broker → Broker
subscribe job b = record b { subs = b.subs ++ subscription b.closed job ∷ [] }

-- dropLocked
abbrev pub drop_locked : Subscription → Subscription
drop_locked s = record s { done = true }

-- The send of Publish, which never waits.
abbrev pub follows : Event → Subscription → Bool
follows e s = s.job_id == e.job_id && not s.done

unfoldable pub offer : Event → Subscription → Subscription
offer e s =
    if ltb (length s.channel) subscriber_buffer
    then record s { channel = s.channel ++ e ∷ [] }
    else record (drop_locked s) { slow = true }

-- Publish
unfoldable pub publish : Event → Broker → Broker
publish e b = if b.closed then b else record b { subs = update_where (follows e) (offer e) b.subs }

-- Close
unfoldable pub close : Broker → Broker
close b = record { closed = true; subs = update_where (λ s. not s.done) drop_locked b.subs }

-- What befalls one subscription of an open broker: an event is published, the subscriber reads from
-- C, or the subscription is cancelled.
pub data Turn : Type 0 where
  publishes : Event → Turn
  reads cancels : Turn

-- A read of C: what waits in a closed channel is still read.
unfoldable pub read : Subscription → Subscription
read s = elim s.channel [
  | [] ↦ s
  | e ∷ rest ↦ record s { channel = rest; received = s.received ++ e ∷ [] }
]

unfoldable pub turn : Subscription → Turn → Subscription
unfolding offer read
turn s (publishes e) = if follows e s then offer e s else s
turn s reads = read s
turn s cancels = drop_locked s

unfoldable pub turns : Subscription → List Turn → Subscription
unfolding turn
turns s [] = s
turns s (a ∷ as_) = turns (turn s a) as_

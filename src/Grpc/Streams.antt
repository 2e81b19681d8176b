-- ===== src/Grpc/Streams.antt =====
-- pkg/grpc/server.go: who is subscribed to which events, and how an event reaches them.
-- A stream is a number, which also names its channel and its context; `cancelled` lists the contexts
-- that were cancelled. No code sets the field `conn` of an active connection, so it is left out.
-- `BroadcastEvent` holds the lock only while it reads the subscribers, not while it sends.
pub mod Validity
pub mod Gone
pub mod Delivery
pub mod Sessions
pub mod Refinement
mod Tests
use event_pool.Prelude.{
  ℕ, List, [], ◌∷◌, ◌++◌, Bool, true, false, Option, none, some, if◌then◌else◌, ltb, nat_eq, length,
  remove, Dict, lookup, insert, delete, nat_Eq, text_Eq,
}
use event_pool.Text.{Text, bytes, to_lower}
use event_pool.Text.Decimal.{print_nat}

-- `pb.Event`
pub record Event : Type 0 where
  pub block_number : ℕ
  pub tx_hash : Text
  pub content : Text

pub record Channel : Type 0 where
  pub buffer : List Event
  pub closed : Bool

-- The fields behind the lock, and the channels that they point to.
pub record Server : Type 0 where
  pub subscribers : Dict Text (List ℕ)
  pub active_conns : Dict Text ℕ
  pub channels : Dict ℕ Channel
  pub cancelled : List ℕ

abbrev pub channel_size : ℕ
channel_size = 100

-- The key of `StreamEvents` and `BroadcastEvent`.
unfoldable pub subscription_key : ℕ → Text → Text → Text
unfolding to_lower print_nat
subscription_key chain_id address event =
    to_lower (print_nat chain_id ++ (bytes "/" ++ (address ++ (bytes "/" ++ event))))

-- A key that is missing reads as no subscribers.
abbrev pub or_nil : Option (List ℕ) → List ℕ
or_nil none = []
or_nil (some subs) = subs

abbrev pub subscribers_of : Text → Server → List ℕ
subscribers_of key s = or_nil (lookup key s.subscribers)

abbrev cancel_old : Option ℕ → List ℕ → List ℕ
cancel_old none cancelled = cancelled
cancel_old (some old) cancelled = old ∷ cancelled

-- The channel and the locked part of `StreamEvents`: an older connection of the token is cancelled.
unfoldable pub register_stream : Text → Text → ℕ → Server → Server
register_stream key token stream s = record {
  subscribers = insert key (subscribers_of key s ++ stream ∷ []) s.subscribers;
  active_conns = insert token stream s.active_conns;
  channels = insert stream (record { buffer = []; closed = false }) s.channels;
  cancelled = cancel_old (lookup token s.active_conns) s.cancelled;
}

unfoldable pub close_channel : ℕ → Dict ℕ Channel → Dict ℕ Channel
close_channel stream channels = elim (lookup stream channels) [
  | none ↦ channels
  | some ch ↦ insert stream (record ch { closed = true }) channels
]

abbrev last_or : List ℕ → ℕ → ℕ
last_or [] d = d
last_or (m ∷ ms) d = last_or ms m

-- `append(subs[:i], subs[i+1:]...)` moves the later subscribers down in the same array. This is what a
-- slice of the array that was taken before, at its old length, reads from then on.
unfoldable pub remove_in_place : ℕ → List ℕ → List ℕ
remove_in_place n [] = []
remove_in_place n (m ∷ ms) =
    if nat_eq m n then ms ++ last_or ms m ∷ [] else m ∷ remove_in_place n ms

-- The deferred clean-up of `StreamEvents`.
unfoldable pub cleanup_stream : Text → Text → ℕ → Server → Server
unfolding close_channel
cleanup_stream key token stream s = record {
  subscribers = insert key (remove stream (subscribers_of key s)) s.subscribers;
  active_conns = elim (lookup token s.active_conns) [
    | none ↦ s.active_conns
    | some conn ↦ if nat_eq conn stream then delete token s.active_conns else s.active_conns
  ];
  channels = close_channel stream s.channels;
  cancelled = stream ∷ s.cancelled;
}

-- `select { case ch <- event: default: }`: a full channel is passed over, and a send on a closed
-- channel panics, also where the select has a default; `none` is the panic.
unfoldable pub send_event : Event → ℕ → Dict ℕ Channel → Option (Dict ℕ Channel)
send_event event stream channels = elim (lookup stream channels) [
  | none ↦ some channels
  | some ch ↦
      if ch.closed
      then none
      else if ltb (length ch.buffer) channel_size
      then some (insert stream (record ch { buffer = ch.buffer ++ event ∷ [] }) channels)
      else some channels
]

-- The loop of `BroadcastEvent` over the subscribers that it read under the lock.
unfoldable pub send_all : Event → List ℕ → Dict ℕ Channel → Option (Dict ℕ Channel)
unfolding send_event
send_all event [] channels = some channels
send_all event (stream ∷ streams) channels = elim (send_event event stream channels) [
  | none ↦ none
  | some channels' ↦ send_all event streams channels'
]

-- `BroadcastEvent` with nothing between the read of the subscribers and the last send.
unfoldable pub broadcast_event : ℕ → Text → Text → Event → Server → Option Server
unfolding subscription_key send_all
broadcast_event chain_id address event_name event s =
    elim (send_all event (subscribers_of (subscription_key chain_id address event_name) s)
      s.channels) [ none ↦ none | some channels ↦ some (record s { channels = channels }) ]

-- ===== src/Pipeline.antt =====
-- How the parts pass an event on: the broadcasts of internal/monitor/monitor.go, the channels of
-- pkg/grpc/server.go, and the loop that sends to a client.
pub mod Batch
mod Tests
use event_pool.Prelude.{ℕ, List, [], ◌∷◌, false, Option, none, some, map}
use event_pool.Monitor.Poll.{Broadcast}
use event_pool.Grpc.Streams.{Event, Server, broadcast_event}
use event_pool.Grpc.Forward.{Turn, receives}

-- The `pb.Event` that `processEvent` makes.
abbrev pub event_of : Broadcast → Event
event_of b = record { block_number = b.block_number; tx_hash = b.tx_hash; content = b.content }

-- The broadcasts of a batch, one after the other, with no handler in between.
unfoldable pub broadcast_all : List Broadcast → Server → Option Server
unfolding broadcast_event
broadcast_all [] s = some s
broadcast_all (b ∷ bs) s = elim (broadcast_event b.chain_id b.address b.event_name (event_of b) s) [
  | none ↦ none
  | some s' ↦ broadcast_all bs s'
]

-- The turns of a handler that takes events from its channel, where no call fails.
abbrev pub takes : List Event → List Turn
takes [] = []
takes (event ∷ events) = receives event false false false ∷ takes events

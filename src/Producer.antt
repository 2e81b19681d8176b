-- ===== src/Producer.antt =====
-- pkg/eventproducer/eventproducer.go: the channel between the contracts' logs and Redis.
-- The goroutines that publish, the one that handles and the one that stops run beside one another: a
-- schedule is the order in which their channel operations happen. JSON and Redis are inputs.
pub mod Queue
pub mod Closing
mod Tests
use event_pool.Prelude.{
  Outcome, went, blocks, panics, ℕ, List, [], ◌∷◌, ◌++◌, Bool, true, false, not, ◌&&◌, Option, none,
  some, if◌then◌else◌, ltb, length,
}
use event_pool.Text.{Text, bytes, to_lower}
use event_pool.Text.Decimal.{print_nat}
use event_pool.Ethereum.Decoder.{AbiLibrary}
use event_pool.Ethereum.Client.{EventTable, Payload}

-- What is published to a channel of Redis.
abbrev pub Message : Type 0
Message = Text × Text

-- The channel's size.
abbrev pub producer_size : ℕ
producer_size = 100

module _ (lib : AbiLibrary) (table : EventTable) (marshal : Payload lib table → Option Text) where
  -- The events in the channel, what was sent to Redis, and whether the goroutine has left its loop.
  pub record RunnerEventProducer : Type 0 where
    pub buffer : List (Payload lib table)
    pub closed : Bool
    pub messages : List Message
    pub ended : Bool

  unfoldable pub new_runner_event_producer : RunnerEventProducer
  new_runner_event_producer = record { buffer = []; closed = false; messages = []; ended = false }

  unfoldable pub channel_key : Payload lib table → Text
  unfolding to_lower print_nat
  channel_key evt = to_lower (
      bytes "event_log_"
      ++ (print_nat evt.chain_id
          ++ (bytes "_" ++ (evt.contract_address ++ (bytes "_" ++ evt.event_name)))))

  -- `handle`: an event that JSON or Redis refuses is logged and dropped.
  unfoldable pub handle : Payload lib table → Bool → List Message → List Message
  unfolding channel_key
  handle evt redis_fails messages = elim (marshal evt) [
    | none ↦ messages
    | some json ↦ if redis_fails then messages else messages ++ (channel_key evt, json) ∷ []
  ]

  -- A send on a closed channel panics, and one on a full channel waits.
  unfoldable pub publish : Payload lib table → RunnerEventProducer → Outcome RunnerEventProducer
  publish evt p =
      if p.closed
      then panics
      else if ltb (length p.buffer) producer_size
      then went (record p { buffer = p.buffer ++ evt ∷ [] })
      else blocks

  -- The second close of a channel panics.
  unfoldable pub stop : RunnerEventProducer → Outcome RunnerEventProducer
  stop p = if p.closed then panics else went (record p { closed = true })

  -- One turn of the loop in `Start`, with what Redis answers.
  unfoldable pub receive : Bool → RunnerEventProducer → Outcome RunnerEventProducer
  unfolding handle
  receive redis_fails p = elim p.buffer [
    | [] ↦ blocks
    | evt ∷ rest ↦
        if p.ended
        then blocks
        else went (record p { buffer = rest; messages = handle evt redis_fails p.messages })
  ]

  -- The loop ends when the channel is closed and empty.
  unfoldable pub leave : RunnerEventProducer → Outcome RunnerEventProducer
  leave p = elim p.buffer [
    | [] ↦ if p.closed && not p.ended then went (record p { ended = true }) else blocks
    | evt ∷ rest ↦ blocks
  ]

  pub data Act : Type 0 where
    publishes : Payload lib table → Act
    stops : Act
    receives : Bool → Act
    leaves : Act

  unfoldable pub act : Act → RunnerEventProducer → Outcome RunnerEventProducer
  unfolding publish stop receive leave
  act (publishes evt) p = publish evt p
  act stops p = stop p
  act (receives redis_fails) p = receive redis_fails p
  act leaves p = leave p

  -- A schedule goes on only behind an operation that happened.
  unfoldable pub run : List Act → RunnerEventProducer → Outcome RunnerEventProducer
  unfolding act
  run [] p = went p
  run (a ∷ acts) p = elim (act a p) [ went p' ↦ run acts p' | blocks ↦ blocks | panics ↦ panics ]

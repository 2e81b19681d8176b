-- ===== src/Listener.antt =====
-- internal/listener/listener.go: the backfill of one contract's past events, in chunks of blocks.
-- Block numbers are natural numbers: a negative start block is left out, and the latest block is
-- below 2^63. What the node answers, and where the context is found cancelled, is an input.
pub mod Coverage
pub mod Complete
mod Tests
use event_pool.Prelude.{
  ℕ, zero, suc, ◌+◌, ◌≡◌, List, [], ◌∷◌, ◌++◌, Bool, true, false, Option, none, some, if◌then◌else◌,
  ltb, take, Dict, insert, delete, text_Eq,
}
use event_pool.Text.{Text, bytes, to_lower}
use event_pool.Text.Decimal.{print_nat}
use event_pool.Ethereum.Log.{Log}

pub record EventListener : Type 0 where
  pub chain_id : ℕ
  pub contract : Text
  pub event_sig : Text
  pub start_block : ℕ

-- What a chunk meets: the context done before it, the node's answer, and the context done while
-- its events are sent, with the number of events that went out before.
pub record ChunkEnv : Type 0 where
  pub cancelled : Bool
  pub logs : Option (List Log)
  pub stopped_after : Option ℕ

pub data Outcome : Type 0 where
  done no_latest filter_failed cancelled out_of_fuel : Outcome

-- The cache shared with the status endpoint, the channel, whether it was closed, and the ranges of
-- blocks whose events were all sent.
pub record Run : Type 0 where
  pub cache : Dict Text ℕ
  pub sent : List Log
  pub closed : Bool
  pub ranges : List (ℕ × ℕ)

abbrev pub chunk_size : ℕ
chunk_size = 2000

unfoldable pub status_key : EventListener → Text
unfolding to_lower print_nat
status_key l = to_lower (
    bytes "backfill_status:"
    ++ (print_nat l.chain_id ++ (bytes "/" ++ (l.contract ++ (bytes "/" ++ l.event_sig)))))

unfoldable pub update_backfill_status : EventListener → ℕ → Run → Run
update_backfill_status l current r = record r { cache = insert (status_key l) current r.cache }

unfoldable pub clear_backfill_status : EventListener → Run → Run
clear_backfill_status l r = record r { cache = delete (status_key l) r.cache }

abbrev chunk_end : ℕ → ℕ → ℕ
chunk_end current end_block =
    if ltb end_block (current + chunk_size) then end_block else current + chunk_size

-- A round of the loop ends it, or leaves the next block.
pub data Round : Type 0 where
  stop : Outcome → Run → Round
  next : ℕ → Run → Round

abbrev after : Round → (ℕ → Run → Outcome × Run) → Outcome × Run
after (stop o r) rest = (o, r)
after (next n r) rest = rest n r

-- The select on the context, the query, and the loop that sends the events.
unfoldable pub backfill_chunk : EventListener → ChunkEnv → ℕ → ℕ → Run → Round
unfolding update_backfill_status
backfill_chunk l env current to_block r = elim env.cancelled [
  | true ↦ stop cancelled r
  | false ↦ elim env.logs [
    | none ↦ stop filter_failed r
    | some logs ↦ elim env.stopped_after [
      | some k ↦ stop cancelled (record r { sent = r.sent ++ take k logs })
      | none ↦ next (to_block + 1) (
          update_backfill_status l (to_block + 1)
            (record r { sent = r.sent ++ logs; ranges = r.ranges ++ (current, to_block) ∷ [] }))
    ]
  ]
]

unfoldable pub backfill_loop : EventListener → (ℕ → ChunkEnv) → ℕ → ℕ → ℕ → Run → Outcome × Run
unfolding backfill_chunk clear_backfill_status
backfill_loop l env zero current end_block r = (out_of_fuel, r)
backfill_loop l env (suc fuel) current end_block r = elim (ltb current end_block) [
  | false ↦ (done, clear_backfill_status l r)
  | true ↦
      after (backfill_chunk l (env current) current (chunk_end current end_block) r)
        λ n r'. backfill_loop l env fuel n end_block r'
]

-- Each round moves past its first block, so the latest block bounds the rounds.
unfoldable pub backfill : EventListener → Option ℕ → (ℕ → ChunkEnv) → Run → Outcome × Run
unfolding backfill_loop update_backfill_status
backfill l latest env r = elim latest [
  | none ↦ (no_latest, r)
  | some end_block ↦
      backfill_loop l env (end_block + 1) l.start_block end_block
        (update_backfill_status l l.start_block r)
]

abbrev close_on_done : Outcome → Run → Run
close_on_done done r = record r { closed = true }
close_on_done _ r = r

-- The channel is closed only behind a backfill that ran to its end.
unfoldable pub start : EventListener → Option ℕ → (ℕ → ChunkEnv) → Run → Outcome × Run
unfolding backfill
start l latest env r = let (o, r') = backfill l latest env r in (o, close_on_done o r')

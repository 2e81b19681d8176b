-- ===== src/Listener/Tests.antt =====
-- Runs of a backfill on a node that answers every query, and on one that fails.
use event_pool.Prelude.{
  ℕ, ◌+◌, ◌-◌, ◌%◌, ◌≡◌, refl, [], ◌∷◌, true, false, ◌&&◌, none, some, arith, ltb, leb, nat_eq,
  if◌then◌else◌, text_Eq,
}
use event_pool.Text.{bytes}
use event_pool.Ethereum.Log.{Log}
use event_pool.Listener.{
  EventListener, ChunkEnv, done, filter_failed, Run, status_key, start, backfill,
}
use event_pool.Ranges.{covered}
use event_pool.Listener.Coverage.{Stops, backfill-Stops}
use event_pool.Listener.Complete.{logs_in, start_complete}

abbrev transfers : EventListener
transfers = record {
  chain_id = 39;
  contract = bytes "0xA1";
  event_sig = bytes "0xDd";
  start_block = 10;
}

abbrev fresh : Run
fresh = record { cache = []; sent = []; closed = false; ranges = [] }

abbrev a_log : ℕ → Log
a_log n = record {
  block_number = n;
  tx_hash = bytes "0x1";
  block_hash = [];
  index = 0;
  topics = [];
  payload = [];
}

abbrev steady : ℕ → ChunkEnv
steady n = record { cancelled = false; logs = some (a_log n ∷ []); stopped_after = none }

-- The node fails behind block 2000.
abbrev failing : ℕ → ChunkEnv
failing n = record {
  cancelled = false;
  logs = if ltb n 2000 then some [] else none;
  stopped_after = none;
}

key : status_key transfers ≡ bytes "backfill_status:39/0xa1/0xdd"
unfolding status_key
key = refl

-- From block 10 to 2011 one chunk leaves the latest block out.
short : (start transfers (some 2011) steady fresh).1.ranges ≡ (10, 2010) ∷ []
unfolding start status_key
short = refl

whole : (start transfers (some 2012) steady fresh).1.ranges ≡ (10, 2010) ∷ (2011, 2012) ∷ []
unfolding start status_key
whole = refl

failed : (start transfers (some 5000) failing fresh).0 ≡ filter_failed
unfolding start status_key
failed = refl

backfill-Stops_example :
    let (o, r') = backfill transfers (some 5000) failing fresh in Stops transfers 10 5000 o r'
backfill-Stops_example = backfill-Stops transfers failing 5000 fresh refl

start_complete_example :
    let (o, r') = start transfers (some 2011) steady fresh in
    (o ≡ done)
    × (r'.closed ≡ true)
    × (r'.sent ≡ logs_in steady r'.ranges)
    × ((n : ℕ)
        → covered n r'.ranges
          ≡ (leb 10 n && ltb n (if nat_eq ((2011 - 10) % 2001) 0 then 2011 else 2011 + 1)))
start_complete_example =
    start_complete transfers steady 2011 fresh (λ n. (refl, (a_log n ∷ [], refl), refl))
      (omega arith) refl

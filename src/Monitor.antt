-- ===== src/Monitor.antt =====
-- internal/monitor/monitor.go: the maps behind the lock, and the calls that read and change them.
-- A context is a number; `goroutines` lists those started with `monitorContract`, by their context
-- and contract, and `cancelled` the contexts whose cancel function was called. `start_monitor` is a
-- `Start` in which no other call comes; Monitor/Threads has its sections one by one, with those of
-- `RegisterContract` and `checkForNewContracts`.
pub mod Poll
pub mod Threads
pub mod Progress
pub mod Complete
mod Tests
use event_pool.Prelude.{
  ℕ, zero, suc, ◌+◌, ◌^◌, List, [], ◌∷◌, ◌++◌, Bool, true, false, not, ◌&&◌, Option, none, some,
  if◌then◌else◌, ltb, length, Dict, lookup, insert, nat_Eq, text_Eq,
}
use event_pool.Text.{Text}
use event_pool.Ethereum.Log.{Contract}

pub record Monitor : Type 0 where
  pub running : Bool
  pub monitors : Dict Text ℕ
  pub last_blocks : Dict ℕ ℕ
  pub backfilling : Dict Text Bool
  pub ready_for_monitoring : Dict Text Bool
  pub goroutines : List (ℕ × Text)
  pub cancelled : List ℕ
  pub next_context : ℕ

pub data StartResult : Type 0 where
  started already_running no_contracts : StartResult

unfoldable pub new_monitor : Monitor
new_monitor = record {
  running = false;
  monitors = [];
  last_blocks = [];
  backfilling = [];
  ready_for_monitoring = [];
  goroutines = [];
  cancelled = [];
  next_context = 0;
}

-- The body of the loop of `Start`: ready, a context, its cancel function, `go`.
unfoldable pub launch : Text → Monitor → Monitor
launch id m = record m {
  ready_for_monitoring = insert id true m.ready_for_monitoring;
  monitors = insert id m.next_context m.monitors;
  goroutines = (m.next_context, id) ∷ m.goroutines;
  next_context = m.next_context + 1;
}

unfoldable pub launch_all : List Contract → Monitor → Monitor
unfolding launch
launch_all [] m = m
launch_all (c ∷ cs) m = launch_all cs (launch c.id m)

-- The first block of each chain whose client answers.
unfoldable pub initial_blocks : List (ℕ × Option ℕ) → Dict ℕ ℕ → Dict ℕ ℕ
initial_blocks [] blocks = blocks
initial_blocks ((chain, none) ∷ rest) blocks = initial_blocks rest blocks
initial_blocks ((chain, some n) ∷ rest) blocks = initial_blocks rest (insert chain n blocks)

-- `Start`, on what the database and each chain's client answer.
unfoldable pub start_monitor :
    Option (List Contract) → List (ℕ × Option ℕ) → Monitor → StartResult × Monitor
unfolding launch_all initial_blocks
start_monitor found latest m = if m.running then (already_running, m) else elim found [
  | none ↦ (no_contracts, record m { running = false })
  | some contracts ↦ (
    started,
    launch_all contracts
        (record m { running = true; last_blocks = initial_blocks latest m.last_blocks }),
  )
]

abbrev pub values : Dict Text ℕ → List ℕ
values [] = []
values ((k, v) ∷ d) = v ∷ values d

unfoldable pub stop_monitor : Monitor → Monitor
stop_monitor m = if not m.running then m else record m {
  cancelled = values m.monitors ++ m.cancelled;
  monitors = [];
  backfilling = [];
  ready_for_monitoring = [];
  running = false;
}

unfoldable pub is_running : Monitor → Bool
is_running m = m.running

unfoldable pub get_active_contract_count : Monitor → ℕ
get_active_contract_count m = length m.monitors

-- `int64(block)` of a block from 2^63 on is negative, so never the greater one.
unfoldable pub latest_of : Dict ℕ ℕ → ℕ → ℕ
latest_of [] latest = latest
latest_of ((chain, block) ∷ blocks) latest =
    latest_of blocks (if ltb block (2 ^ 63) && ltb latest block then block else latest)

unfoldable pub get_last_block : Monitor → ℕ
unfolding latest_of
get_last_block m = latest_of m.last_blocks 0

unfoldable pub mark_contract_backfilling : Text → Monitor → Monitor
mark_contract_backfilling id m = record m {
  backfilling = insert id true m.backfilling;
  ready_for_monitoring = insert id true m.ready_for_monitoring;
}

unfoldable pub mark_contract_backfill_complete : Text → Monitor → Monitor
mark_contract_backfill_complete id m = record m {
  backfilling = insert id false m.backfilling;
  ready_for_monitoring = insert id true m.ready_for_monitoring;
}

abbrev flag : Option Bool → Bool
flag none = false
flag (some b) = b

unfoldable pub is_contract_backfilling : Text → Monitor → Bool
is_contract_backfilling id m = flag (lookup id m.backfilling)

unfoldable pub is_contract_ready_for_monitoring : Text → Monitor → Bool
is_contract_ready_for_monitoring id m = flag (lookup id m.ready_for_monitoring)

-- `none` is the error of a chain that is not monitored.
unfoldable pub get_last_synced_block : ℕ → Monitor → Option ℕ
get_last_synced_block chain_id m = lookup chain_id m.last_blocks

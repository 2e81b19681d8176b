-- ===== src/Monitor/Tests.antt =====
-- Runs of the monitor on two contracts of one chain, with nodes that answer and that fail.
use event_pool.Prelude.{
  ℕ, ◌≤◌, ◌≡◌, refl, List, [], ◌∷◌, true, false, Option, none, some, arith, if◌then◌else◌, nat_eq,
  among, lookup, insert, text_eq, nat_Eq, length,
}
use event_pool.Text.{Text, bytes}
use event_pool.Ethereum.Log.{Log, Contract}
use event_pool.Ranges.{Consecutive, covered}
use event_pool.Monitor.{
  Monitor, new_monitor, stop_monitor, get_last_block, get_active_contract_count,
}
use event_pool.Monitor.Poll.{Env, Tick, poll}
use event_pool.Monitor.Progress.{poll_loses}
use event_pool.Monitor.Complete.{events_in, poll_complete, poll_shared}
use event_pool.Monitor.Threads.{starts, checks, Act, advances, calls, ticks, run, new_world}

abbrev contract : Text → Contract
contract id = record {
  id = id;
  chain_id = 39;
  address = bytes "0xA1";
  event_signature = bytes "0xDd";
  event_name = bytes "Transfer";
  start_block = 10;
  event_abi = [];
}

abbrev a_log : ℕ → Log
a_log n = record {
  block_number = n;
  tx_hash = bytes "0x1";
  block_hash = [];
  index = 0;
  topics = [];
  payload = [];
}

abbrev around : (ℕ → ℕ → Option (List Log)) → Env
around filter_logs = record {
  filter_logs = filter_logs;
  decode_event = λ signature log. some (bytes "{}");
  bytes_to_hex = λ payload. payload;
  find_contract = λ chain address signature. some (contract (bytes "a"));
  has_server = true;
}

abbrev steady : Env
steady = around (λ a b. some (a_log a ∷ []))

-- The query of block 11 fails.
abbrev failing : Env
failing = around (λ a b. if nat_eq a 11 then none else some (a_log a ∷ []))

poll_loses_example :
    (t : Tick) × (hi : ℕ) × (poll failing (contract (bytes "a")) 18 ((39, 10) ∷ []) ≡ some t)
    × (lookup 39 t.blocks ≡ some hi)
    × (16 ≤ hi)
    × ((n : ℕ) → n ≤ 15 → covered n t.ranges ≡ false)
unfolding lookup
poll_loses_example =
    poll_loses failing (contract (bytes "a")) 18 (omega arith) ((39, 10) ∷ []) 10 (a_log 16 ∷ [])
      refl (omega arith) refl refl

poll_complete_example :
    (t : Tick) × (poll steady (contract (bytes "a")) 18 ((39, 10) ∷ []) ≡ some t)
    × Consecutive 4 11 t.ranges 19
    × (t.events ≡ events_in steady (contract (bytes "a")) t.ranges)
    × (lookup 39 t.blocks ≡ some 18)
unfolding lookup
poll_complete_example =
    poll_complete steady (contract (bytes "a")) (λ a b. (a_log a ∷ [], refl)) 18 (omega arith)
      ((39, 10) ∷ []) 10 refl (omega arith)

poll_shared_example :
    (t : Tick) × (poll steady (contract (bytes "a")) 18 ((39, 10) ∷ []) ≡ some t)
    × (poll steady (contract (bytes "b")) 17 t.blocks
        ≡ some (record { blocks = t.blocks; events = []; ranges = [] }))
unfolding lookup
poll_shared_example =
    poll_shared steady steady (contract (bytes "a")) (contract (bytes "b"))
      (λ a b. (a_log a ∷ [], refl)) 18 17 10 ((39, 10) ∷ []) (omega arith) refl (omega arith) refl
      (omega arith)

-- A start, a check of two contracts beside it, and a tick.
abbrev acts : List Act
acts =
    calls 0 (starts 0 (some (contract (bytes "a") ∷ [])) ((39, some 10) ∷ []))
    ∷ advances 0
    ∷ advances 0
    ∷ calls 1 (checks 1 (some (contract (bytes "a") ∷ contract (bytes "b") ∷ [])))
    ∷ advances 0
    ∷ advances 1
    ∷ advances 1
    ∷ advances 0
    ∷ advances 1
    ∷ advances 1
    ∷ advances 1
    ∷ ticks steady (contract (bytes "a")) (some 18)
    ∷ []

abbrev ran : Monitor
ran = (run acts new_world).shared.monitor

-- The check asked for the contract before the start had registered it, which it is then twice.
counts : get_active_contract_count ran ≡ 1
unfolding get_active_contract_count run lookup new_world new_monitor insert text_eq
counts = refl

twice : length ran.goroutines ≡ 2
unfolding run lookup new_world new_monitor insert text_eq
twice = refl

reached : get_last_block ran ≡ 18
unfolding get_last_block run lookup new_world new_monitor insert text_eq
reached = refl

-- The first goroutine of the contract is lost.
stop_misses : among 0 (stop_monitor ran).cancelled ≡ false
unfolding stop_monitor run lookup new_world new_monitor insert text_eq
stop_misses = refl

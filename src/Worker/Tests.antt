-- ===== src/Worker/Tests.antt =====
-- A task that begins, and a loop over two events.
use event_pool.Prelude.{
  ℕ, zero, suc, ◌≡◌, refl, All, List, [], ◌∷◌, ◌++◌, Bool, true, false, Option, none, some, arith,
  lookup, insert, text_eq, text_Eq, nat_Eq, nat_eq, if◌then◌else◌,
}
use event_pool.Text.{Text, bytes}
use event_pool.Ethereum.Log.{Contract}
use event_pool.Ethereum.Decoder.{Decoder}
use event_pool.Ethereum.Decoder.Samples.{sample_library, transfer_event}
use event_pool.Ethereum.Client.{LogEnv, Query, RawLog, Progress, filter_logs, raw_logs}
use event_pool.Ethereum.Client.Samples.{sample_table}
use event_pool.Monitor.{Monitor, is_contract_backfilling, is_contract_ready_for_monitoring}
use event_pool.Monitor.Threads.{
  Thread, task_checks, task_readies, task_marks, task_begun, task_skipped, ended, World, Act,
  advances, calls, completes, checks, tasks, act, run,
}
use event_pool.Worker.{
  BackfillPayload, reached, begin_backfill, Backfill, Reach, here, next, fetches, sends, receives,
  take_log, new_backfill, saw_closed,
}
use event_pool.Worker.Begin.{tasks_race, task_marks_skips}
use event_pool.Worker.Loop.{IsKept, Reach-stores}

abbrev task : BackfillPayload
task = record {
  chain_id = 39;
  contract_addr = bytes "0xA1";
  event_sig = bytes "0xdd";
  start_block = 10;
}

abbrev row : Contract
row = record {
  id = bytes "a";
  chain_id = 39;
  event_name = bytes "Transfer";
  address = bytes "0xa1";
  event_signature = bytes "0xdd";
  start_block = 10;
  event_abi = [];
}

abbrev find_row : ℕ → Text → Text → Option Contract
find_row chain_id address event_sig = some row

abbrev any_client : ℕ → Bool
any_client chain_id = true

-- The task's thread, on a worker with a monitor.
begins : begin_backfill (some task) any_client find_row true 7 ≡ reached (task_checks 7 row)
unfolding begin_backfill
begins = refl

abbrev running : Monitor
running = record {
  running = true;
  monitors = [];
  last_blocks = [];
  backfilling = [];
  ready_for_monitoring = [];
  goroutines = [];
  cancelled = [];
  next_context = 4;
}

abbrev with_threads : (ℕ → Thread) → Monitor → World
with_threads threads m = record { shared = record { monitor = m; made = [] }; threads = threads }

-- The backfill ends, and the database is asked for new contracts.
abbrev later : List Act
later =
    advances 0
    ∷ completes (bytes "a")
    ∷ calls 1 (checks 3 (some (row ∷ [])))
    ∷ advances 1
    ∷ advances 1
    ∷ advances 1
    ∷ []

abbrev first_of : Thread → ℕ → Thread
first_of t zero = t
first_of t (suc k) = ended

abbrev one_task : World
one_task = with_threads (first_of (task_readies 7 row)) running

abbrev ready_monitor : Monitor
ready_monitor = record running { ready_for_monitoring = (bytes "a", true) ∷ [] }

abbrev two_tasks : World
two_tasks =
    with_threads (λ k. if nat_eq k 0 then task_checks 7 row else task_checks 8 row) ready_monitor

free : is_contract_backfilling (bytes "a") ready_monitor ≡ false
unfolding is_contract_backfilling lookup
free = refl

ready : is_contract_ready_for_monitoring (bytes "a") ready_monitor ≡ true
unfolding is_contract_ready_for_monitoring lookup text_eq
ready = refl

tasks_race_example :
    let u =
      run
        (advances 0 ∷ advances 1 ∷ advances 0 ∷ advances 1 ∷ advances 0 ∷ advances 1 ∷ [])
        two_tasks in
    (u.threads 0 ≡ task_begun row) × (u.threads 1 ≡ task_begun row)
tasks_race_example = tasks_race row two_tasks 7 8 refl refl free ready

abbrev marking : World
marking = with_threads (first_of (task_marks row)) ready_monitor

abbrev task_comes : List Act
task_comes = calls 1 (tasks 8 row) ∷ []

task_marks_skips_example :
    (act (advances 1) (run task_comes (act (advances 0) marking))).threads 1 ≡ task_skipped row
unfolding run act
task_marks_skips_example = task_marks_skips row marking 0 1 8 task_comes refl (refl, tt) refl

abbrev decoder : Decoder
decoder = (bytes "0xdd", transfer_event) ∷ []

abbrev query : Query
query = record { chain_id = 39; contract_address = bytes "0xA1"; event_signature = bytes "0xdd" }

abbrev log : RawLog sample_library sample_table
log = record {
  block_number = 12;
  tx_hash = bytes "0xF";
  block_hash = bytes "0xB";
  index = 0;
  topics = 1 ∷ 2 ∷ [];
  payload = bytes "ff";
}

abbrev served : LogEnv
served = record { find_fails = false; block_time = some 1000; create_fails = false }

abbrev logs : List (RawLog sample_library sample_table × LogEnv)
logs = (log, served) ∷ []

abbrev empty : Progress sample_library sample_table
empty = record { rows = []; published = []; timestamps = [] }

abbrev answers : List (List (RawLog sample_library sample_table × LogEnv))
answers = logs ∷ []

abbrev TaskLoop : Type 0
TaskLoop = Backfill sample_library sample_table decoder find_row query row

abbrev first : TaskLoop
unfolding new_backfill
first = new_backfill sample_library sample_table decoder find_row query row answers empty

abbrev fetched : Progress sample_library sample_table
unfolding filter_logs
fetched = elim (filter_logs sample_library sample_table decoder find_row query (some logs) empty) [
  | some (sent, p) ↦ p
  | none ↦ empty
]

abbrev second : TaskLoop
second = record first { chunks = []; pending = log ∷ []; progress = fetched }

abbrev third : TaskLoop
third = record second { pending = []; buffer = log ∷ [] }

abbrev last : TaskLoop
last = take_log sample_library sample_table decoder find_row query row (log, served) [] third

fetches_log :
    filter_logs sample_library sample_table decoder find_row query (some logs) empty
    ≡ some (some (log ∷ []), fetched)
unfolding filter_logs lookup text_eq insert
fetches_log = refl

to_last :
    Reach sample_library sample_table decoder find_row query row true
      (new_backfill sample_library sample_table decoder find_row query row answers empty)
      last
unfolding new_backfill take_log
to_last =
    next
      (next (next here (fetches logs [] (log ∷ []) fetched refl refl refl fetches_log))
        (sends log [] refl refl (omega arith)))
      (receives log served [] refl refl)

Reach-stores_example :
    (rest : List (RawLog sample_library sample_table)) × (raw_logs sample_library sample_table
          last.taken
        ++ rest
      ≡ log ∷ [])
    × All (IsKept sample_library sample_table decoder find_row query row last.progress) last.taken
    × (last.ending ≡ some saw_closed → raw_logs sample_library sample_table last.taken ≡ log ∷ [])
Reach-stores_example =
    Reach-stores sample_library sample_table decoder find_row query row true answers empty to_last

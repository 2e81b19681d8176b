-- ===== src/Monitor/Threads.antt =====
-- The calls of internal/monitor/monitor.go that release the lock between their reads and writes, and
-- the calls that `handleBackfill` of internal/worker/worker.go makes of the monitor before its
-- listener. Each call is a thread, one critical section is one step, and the threads interleave in any
-- order. A thread says where its call stands.
pub mod Newest
use event_pool.Prelude.{
  ℕ, ◌+◌, List, [], ◌∷◌, Bool, true, false, not, Option, none, some, if◌then◌else◌, nat_eq, lookup,
  insert, nat_Eq, text_Eq,
}
use event_pool.Text.{Text}
use event_pool.Ethereum.Log.{Contract}
use event_pool.Monitor.{
  Monitor, new_monitor, initial_blocks, stop_monitor, mark_contract_backfilling,
  mark_contract_backfill_complete, is_contract_backfilling, is_contract_ready_for_monitoring,
}
use event_pool.Monitor.Poll.{Env, tick}

-- The monitor, and for each goroutine the context that its own was made from, its own, and its contract.
pub record Shared : Type 0 where
  pub monitor : Monitor
  pub made : List (ℕ × ℕ × Text)

-- Before which critical section `RegisterContract` stands.
pub data Registering : Type 0 where
  at_running at_ready at_monitors : Registering

-- A context is a number. `registers` goes on with `after`. A task that is done with the monitor is
-- `task_begun`, one that found its contract being filled is `task_skipped`.
pub data Thread : Type 0 where
  start_called start_reads : ℕ → Option (List Contract) → List (ℕ × Option ℕ) → Thread
  start_loop : ℕ → List Contract → Thread
  check_called : ℕ → Option (List Contract) → Thread
  check_loop : ℕ → List Contract → Thread
  registers : ℕ → Contract → Registering → Thread → Thread
  task_checks task_readies : ℕ → Contract → Thread
  task_marks task_begun task_skipped : Contract → Thread
  ended : Thread

unfoldable pub set_ready : Text → Shared → Shared
set_ready id s = record s {
  monitor = record s.monitor {
    ready_for_monitoring = insert id true s.monitor.ready_for_monitoring;
  };
}

-- The cancel function of a new context, which the goroutine behind it runs under.
unfoldable pub set_monitor : ℕ → Text → Shared → Shared
set_monitor parent id s = record {
  monitor = record s.monitor {
    monitors = insert id s.monitor.next_context s.monitor.monitors;
    goroutines = (s.monitor.next_context, id) ∷ s.monitor.goroutines;
    next_context = s.monitor.next_context + 1;
  };
  made = (parent, s.monitor.next_context, id) ∷ s.made;
}

unfoldable pub register_contract : ℕ → Contract → Registering → Thread → Shared → Thread × Shared
unfolding set_ready set_monitor
register_contract ctx c at_running after s =
    if s.monitor.running then (registers ctx c at_ready after, s) else (after, s)
register_contract ctx c at_ready after s = (registers ctx c at_monitors after, set_ready c.id s)
register_contract ctx c at_monitors after s = (after, set_monitor ctx c.id s)

-- What `Start` reads, and its last blocks, which it writes without the lock, as one step. Its loop over the
-- contracts has the last two sections of `RegisterContract`.
unfoldable pub start_section :
    ℕ → Option (List Contract) → List (ℕ × Option ℕ) → Shared → Thread × Shared
unfolding initial_blocks
start_section ctx none latest s =
    (ended, record s { monitor = record s.monitor { running = false } })
start_section ctx (some cs) latest s = (
  start_loop ctx cs,
  record s {
    monitor = record s.monitor { last_blocks = initial_blocks latest s.monitor.last_blocks };
  },
)

-- The loop of a tick of `checkForNewContracts`, up to the call of `RegisterContract`.
unfoldable pub check_for_new_contracts : ℕ → List Contract → Shared → Thread
check_for_new_contracts ctx [] s = ended
check_for_new_contracts ctx (c ∷ cs) s = elim (lookup c.id s.monitor.monitors) [
  | some cancel ↦ check_loop ctx cs
  | none ↦ registers ctx c at_running (check_loop ctx cs)
]

-- The next section of a thread. A monitor that is not running, or a database that fails, ends a tick.
unfoldable pub advance : Thread → Shared → Thread × Shared
unfolding register_contract start_section check_for_new_contracts set_ready is_contract_backfilling
    is_contract_ready_for_monitoring mark_contract_backfilling
advance (start_called ctx found latest) s =
    if s.monitor.running
    then (ended, s)
    else (start_reads ctx found latest, record s { monitor = record s.monitor { running = true } })
advance (start_reads ctx found latest) s = start_section ctx found latest s
advance (start_loop ctx []) s = (ended, s)
advance (start_loop ctx (c ∷ cs)) s =
    (registers ctx c at_monitors (start_loop ctx cs), set_ready c.id s)
advance (check_called ctx found) s =
    if s.monitor.running
    then elim found [ none ↦ (ended, s) | some cs ↦ (check_loop ctx cs, s) ]
    else (ended, s)
advance (check_loop ctx cs) s = (check_for_new_contracts ctx cs s, s)
advance (registers ctx c r after) s = register_contract ctx c r after s
advance (task_checks ctx c) s =
    if is_contract_backfilling c.id s.monitor then (task_skipped c, s) else (task_readies ctx c, s)
advance (task_readies ctx c) s =
    if is_contract_ready_for_monitoring c.id s.monitor
    then (task_marks c, s)
    else (registers ctx c at_running (task_marks c), s)
advance (task_marks c) s =
    (task_begun c, record s { monitor = mark_contract_backfilling c.id s.monitor })
advance (task_begun c) s = (task_begun c, s)
advance (task_skipped c) s = (task_skipped c, s)
advance ended s = (ended, s)

pub record World : Type 0 where
  pub shared : Shared
  pub threads : ℕ → Thread

abbrev pub update : ℕ → Thread → (ℕ → Thread) → ℕ → Thread
update i t threads = λ k. if nat_eq i k then t else threads k

abbrev pub is_idle : Thread → Bool
is_idle ended = true
is_idle (task_begun c) = true
is_idle (task_skipped c) = true
is_idle _ = false

-- What a thread is called for: `Start`, a tick of the checker, a task of the queue.
pub data Call : Type 0 where
  starts : ℕ → Option (List Contract) → List (ℕ × Option ℕ) → Call
  checks : ℕ → Option (List Contract) → Call
  tasks : ℕ → Contract → Call

abbrev pub enter : Call → Thread
enter (starts ctx found latest) = start_called ctx found latest
enter (checks ctx found) = check_called ctx found
enter (tasks ctx c) = task_checks ctx c

-- One critical section, of whatever call. A thread takes a call when it is idle.
pub data Act : Type 0 where
  advances : ℕ → Act
  calls : ℕ → Call → Act
  stops : Act
  completes : Text → Act
  ticks : Env → Contract → Option ℕ → Act

abbrev pub after_tick : {A : Type 0} → Option (Monitor × A) → Monitor → Monitor
after_tick none m = m
after_tick (some (m', a)) m = m'

abbrev on_monitor : (Monitor → Monitor) → World → World
on_monitor f w = record w { shared = record w.shared { monitor = f w.shared.monitor } }

unfoldable pub act : Act → World → World
unfolding advance stop_monitor mark_contract_backfill_complete tick
act (advances i) w =
    let (t, s) = advance (w.threads i) w.shared in
    record { shared = s; threads = update i t w.threads }
act (calls i call) w =
    if is_idle (w.threads i) then record w { threads = update i (enter call) w.threads } else w
act stops w = on_monitor stop_monitor w
act (completes id) w = on_monitor (mark_contract_backfill_complete id) w
act (ticks env c latest) w = on_monitor (λ m. after_tick (tick env c latest m) m) w

unfoldable pub run : List Act → World → World
unfolding act
run [] w = w
run (a ∷ acts) w = run acts (act a w)

unfoldable pub new_world : World
unfolding new_monitor
new_world = record { shared = record { monitor = new_monitor; made = [] }; threads = λ i. ended }

-- ===== src/Worker.antt =====
-- internal/worker/worker.go: `handleBackfill`, from its task to the rows of the events.
-- Its loop, the listener behind the channel and the goroutine that closes `done` run beside one
-- another: each query of the listener, send, take_log, close and branch of the select is one step. What a step of the listener
-- sends stands in internal/listener/listener.go. The task's JSON, the clients and the database are
-- inputs; Start, Shutdown and EnqueueTask pass calls on to the queue and are left out.
pub mod Begin
pub mod Contexts
pub mod Loop
pub mod Stored
mod Tests
use event_pool.Prelude.{
  ℕ, ◌<◌, ◌≡◌, List, [], ◌∷◌, ◌++◌, Bool, true, false, not, ◌&&◌, Option, none, some, if◌then◌else◌,
  length,
}
use event_pool.Text.{Text, to_lower}
use event_pool.Ethereum.Log.{Contract}
use event_pool.Ethereum.Decoder.{AbiLibrary, Decoder, raw, decode_event}
use event_pool.Ethereum.Client.{
  EventTable, LogEnv, Query, RawLog, Progress, log_key, key_of, text_or, filter_logs,
}
use event_pool.Monitor.{Monitor, mark_contract_backfill_complete}
use event_pool.Monitor.Threads.{Thread, task_checks, task_begun}

pub record BackfillPayload : Type 0 where
  pub chain_id : ℕ
  pub contract_addr : Text
  pub event_sig : Text
  pub start_block : ℕ

-- How the lines before the monitor end: an error, or a thread, which goes on with Monitor/Threads.
pub data Beginning : Type 0 where
  bad_payload no_client no_contract : Beginning
  reached : Thread → Beginning

-- The task runs under the context `ctx`; a worker may have no monitor to ask.
unfoldable pub begin_backfill :
    Option BackfillPayload → (ℕ → Bool) → (ℕ → Text → Text → Option Contract) → Bool → ℕ → Beginning
unfolding to_lower
begin_backfill payload has_client find_contract has_monitor ctx = elim payload [
  | none ↦ bad_payload
  | some p ↦
      if not (has_client p.chain_id)
      then no_client
      else elim (find_contract p.chain_id (to_lower p.contract_addr) p.event_sig) [
        | none ↦ no_contract
        | some contract ↦
            reached (if has_monitor then task_checks ctx contract else task_begun contract)
      ]
]

-- What the goroutine behind the listener, or the cancelled loop, tells the monitor.
unfoldable pub end_backfill : Contract → Option Monitor → Option Monitor
unfolding mark_contract_backfill_complete
end_backfill contract none = none
end_backfill contract (some m) = some (mark_contract_backfill_complete contract.id m)

-- The body of the loop for one event: an event that is found under any contract is skipped, and an
-- error of the search counts as an event that is not there.
unfoldable pub store_event :
    (lib : AbiLibrary) (table : EventTable)
    → Decoder
    → Text
    → Contract
    → RawLog lib table × LogEnv
    → table.Rows
    → table.Rows
unfolding key_of decode_event
store_event lib table decoder event_sig contract (log, env) rows =
    let content =
      text_or lib table (raw lib log.payload)
        (decode_event lib decoder event_sig log.payload log.topics) in
    let key = key_of lib table contract log in
    if not env.find_fails && table.has_log (log_key key) rows
    then rows
    else if env.create_fails
    then rows
    else table.create key content rows

abbrev pub event_buffer : ℕ
event_buffer = 100

-- Which branch of the select returned.
pub data Ending : Type 0 where
  saw_cancelled saw_done saw_closed : Ending

module _ (lib : AbiLibrary) (table : EventTable) (decoder : Decoder)
    (find_contract : ℕ → Text → Text → Option Contract) (q : Query) (contract : Contract) where
  -- The answers of the node that the listener has still to ask for, what it has still to send, the
  -- channel, the two that are closed, the events received, what both sides have made of the table, and
  -- how the loop ended.
  pub record Backfill : Type 0 where
    pub chunks : List (List (RawLog lib table × LogEnv))
    pub pending : List (RawLog lib table)
    pub buffer : List (RawLog lib table)
    pub closed : Bool
    pub done : Bool
    pub taken : List (RawLog lib table × LogEnv)
    pub progress : Progress lib table
    pub ending : Option Ending

  unfoldable pub take_log :
      RawLog lib table × LogEnv → List (RawLog lib table) → Backfill → Backfill
  unfolding store_event
  take_log e rest s = record s {
    buffer = rest;
    taken = s.taken ++ e ∷ [];
    progress = record s.progress {
      rows = store_event lib table decoder q.event_signature contract e s.progress.rows;
    };
  }

  -- `FilterLogs` stores the logs of a chunk before the listener sends them. The listener closes the
  -- channel where its backfill `succeeds`, and returns anywhere if it does not.
  pub data Step (succeeds : Bool) (s : Backfill) : Backfill → Type 0 where
    fetches :
        (chunk : List (RawLog lib table × LogEnv)) (rest : List (List (RawLog lib table × LogEnv)))
        (sent : List (RawLog lib table)) (p : Progress lib table)
        → s.pending ≡ []
        → s.chunks ≡ chunk ∷ rest
        → s.done ≡ false
        → filter_logs lib table decoder find_contract q (some chunk) s.progress
          ≡ some (some sent, p)
        → Step succeeds s (record s { chunks = rest; pending = sent; progress = p })
    sends :
        (e : RawLog lib table) (rest : List (RawLog lib table))
        → s.pending ≡ e ∷ rest
        → s.done ≡ false
        → length s.buffer < event_buffer
        → Step succeeds s (record s { pending = rest; buffer = s.buffer ++ e ∷ [] })
    closes :
        s.pending ≡ []
        → s.chunks ≡ []
        → succeeds ≡ true
        → s.closed ≡ false
        → Step succeeds s (record s { closed = true })
    returns : s.closed ≡ succeeds → s.done ≡ false → Step succeeds s (record s { done = true })
    receives :
        (e : RawLog lib table) (env : LogEnv) (rest : List (RawLog lib table))
        → s.buffer ≡ e ∷ rest
        → s.ending ≡ none
        → Step succeeds s (take_log (e, env) rest s)
    sees_closed :
        s.buffer ≡ []
        → s.closed ≡ true
        → s.ending ≡ none
        → Step succeeds s (record s { ending = some saw_closed })
    sees_done :
        s.done ≡ true → s.ending ≡ none → Step succeeds s (record s { ending = some saw_done })
    sees_cancelled : s.ending ≡ none → Step succeeds s (record s { ending = some saw_cancelled })

  unfoldable pub new_backfill :
      List (List (RawLog lib table × LogEnv)) → Progress lib table → Backfill
  new_backfill chunks progress = record {
    chunks = chunks;
    pending = [];
    buffer = [];
    closed = false;
    done = false;
    taken = [];
    progress = progress;
    ending = none;
  }

  pub data Reach (succeeds : Bool) (s : Backfill) : Backfill → Type 0 where
    here : Reach succeeds s s
    next : {t u : Backfill} → Reach succeeds s t → Step succeeds t u → Reach succeeds s u

-- ===== src/Ethereum/Subscription/Tests.antt =====
-- Runs of the goroutine behind `SubscribeToLogs`.
use event_pool.Prelude.{◌≡◌, refl, [], ◌∷◌, true, false, none, some, went, blocks}
use event_pool.Text.{bytes}
use event_pool.Ethereum.Subscription.{
  Watch, new_watch, subscribe_to_logs, read_error, see_done, send_log,
}

subscribe_to_logs_refused : subscribe_to_logs false ≡ none
unfolding subscribe_to_logs
subscribe_to_logs_refused = refl

-- Nothing to read, and the context goes on.
read_error_waits : read_error new_watch ≡ blocks
unfolding read_error new_watch
read_error_waits = refl

abbrev cancelled_watch : Watch
unfolding new_watch
cancelled_watch = record new_watch { cancelled = true }

-- A late log waits for ever once the node is unsubscribed.
send_log_late :
    elim (see_done cancelled_watch) [ went w ↦ send_log (bytes "log") w | o ↦ o ] ≡ blocks
unfolding see_done send_log new_watch
send_log_late = refl

abbrev lost_watch : Watch
unfolding new_watch
lost_watch = record new_watch { errors = bytes "gone" ∷ []; ended = true }

-- The error is reported once, then nil.
read_error_lost :
    elim (read_error lost_watch) [ went w ↦ read_error w | o ↦ o ]
    ≡ went (record lost_watch { errors = []; reported = none ∷ some (bytes "gone") ∷ [] })
unfolding read_error new_watch
read_error_lost = refl

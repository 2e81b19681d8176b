-- ===== src/Ethereum/Subscription.antt =====
-- pkg/ethereum/client.go: `SubscribeToLogs`, with the goroutine behind it that reads the errors of the
-- subscription and waits for the context. The node's subscription is go-ethereum's: it delivers logs
-- until it is unsubscribed, holds its errors in a channel, and closes that channel where it ends.
pub mod Channel
mod Tests
use event_pool.Prelude.{
  List, [], ◌∷◌, ◌++◌, Bool, true, false, ◌&&◌, Option, none, some, Outcome, went, blocks, panics,
  if◌then◌else◌,
}
use event_pool.Text.{Text}

-- `errors` and `ended` are the channel of errors; `reported` is what the goroutine logs, `none` for the
-- nil that a closed channel gives; `delivered` is what was sent to the channel `logs`.
pub record Watch : Type 0 where
  pub errors : List Text
  pub ended : Bool
  pub cancelled : Bool
  pub subscribed : Bool
  pub is_open : Bool
  pub running : Bool
  pub reported : List (Option Text)
  pub delivered : List Text

unfoldable pub new_watch : Watch
new_watch = record {
  errors = [];
  ended = false;
  cancelled = false;
  subscribed = true;
  is_open = true;
  running = true;
  reported = [];
  delivered = [];
}

-- `none` where the node refuses.
unfoldable pub subscribe_to_logs : Bool → Option Watch
subscribe_to_logs accepts = if accepts then some new_watch else none

-- The first case of the `select`.
unfoldable pub read_error : Watch → Outcome Watch
read_error w =
    if w.running
    then elim w.errors [
      | e ∷ es ↦ went (record w { errors = es; reported = some e ∷ w.reported })
      | [] ↦ if w.ended then went (record w { reported = none ∷ w.reported }) else blocks
    ]
    else blocks

-- The second: unsubscribe, close the logs, return. To close a closed channel panics.
unfoldable pub see_done : Watch → Outcome Watch
see_done w =
    if w.running && w.cancelled
    then if w.is_open
      then went (record w { subscribed = false; ended = true; is_open = false; running = false })
      else panics
    else blocks

-- The node's send of a log, which panics where the channel is closed.
unfoldable pub send_log : Text → Watch → Outcome Watch
send_log log w =
    if w.subscribed
    then if w.is_open then went (record w { delivered = log ∷ w.delivered }) else panics
    else blocks

pub data WatchStep (w : Watch) : Outcome Watch → Type 0 where
  reads : WatchStep w (read_error w)
  sees : WatchStep w (see_done w)
  delivers : (log : Text) → WatchStep w (send_log log w)
  fails : (e : Text) → WatchStep w (went (record w { errors = w.errors ++ e ∷ [] }))
  loses : WatchStep w (went (record w { ended = true }))
  cancels : WatchStep w (went (record w { cancelled = true }))

pub data WatchReach : Outcome Watch → Type 0 where
  begins : WatchReach (went new_watch)
  next : {w : Watch} {o : Outcome Watch} → WatchReach (went w) → WatchStep w o → WatchReach o

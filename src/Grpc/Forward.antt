-- ===== src/Grpc/Forward.antt =====
-- pkg/grpc/server.go: the part of `StreamEvents` that hands the events of a stream's channel to its
-- client, and its clean-up. Redis is a parameter; each turn of the loop is an input, with the errors
-- that its calls meet. Times are seconds, and a total of bytes is below 2^63.
pub mod Bills
pub mod Receipts
mod Tests
use event_pool.Prelude.{
  ℕ, ◌+◌, List, [], ◌∷◌, ◌++◌, Bool, true, false, Option, none, some, if◌then◌else◌, nat_eq,
  text_eq, length, ◌≡◌,
}
use event_pool.Text.{Text, bytes}
use event_pool.Grpc.Auth.{Claims}
use event_pool.Grpc.Streams.{Event, Server, cleanup_stream}
use event_pool.Grpc.Scheduler.{SessionScheduler, schedule_session_receipt}

-- `INCRBY` and `EXPIREAT`, and what a counter holds while nothing expires: 0 where there is none.
pub record UsageStore : Type 1 where
  pub State : Type 0
  pub total : Text → State → ℕ
  pub incr_by : Text → ℕ → State → State
  pub expire_at : Text → ℕ → State → State
  pub total-incr_by :
      (k j : Text) (n : ℕ) (s : State)
      → total j (incr_by k n s) ≡ (if text_eq k j then total k s + n else total j s)
  pub total-expire_at : (k j : Text) (t : ℕ) (s : State) → total j (expire_at k t s) ≡ total j s

unfoldable pub usage_key : Text → Text
usage_key token = bytes "usage_bytes" ++ (bytes "_" ++ token)

-- A case of the select: the token expired, the context is done, or an event, with the calls that fail.
pub data Turn : Type 0 where
  timer_fires context_done : Turn
  receives : (event : Event) (incr_fails expire_fails send_fails : Bool) → Turn

-- How the handler ends; it waits for more where no turn is left.
pub data Ending : Type 0 where
  waiting clean unclean : Ending

module _ (redis : UsageStore) (token : Text) (claims : Claims) where
  open redis use {State, total, incr_by, expire_at}

  pub record Forwarded : Type 0 where
    pub usage : State
    pub sent : List Event

  -- The lines that count an event's bytes; the result of an increment that failed is 0.
  unfoldable pub count_bytes : Event → Bool → Bool → State → State
  unfolding usage_key
  count_bytes event incr_fails expire_fails s =
      let key = usage_key token in
      let count = length event.content in
      let s' = if incr_fails then s else incr_by key count s in
      let new_total = if incr_fails then 0 else total key s' in
      if nat_eq new_total count
      then (if expire_fails then s' else expire_at key (claims.expires_at + 600) s')
      else s'

  unfoldable pub forward_loop : List Turn → Forwarded → Ending × Forwarded
  unfolding count_bytes
  forward_loop [] f = (waiting, f)
  forward_loop (timer_fires ∷ turns) f = (clean, f)
  forward_loop (context_done ∷ turns) f = (clean, f)
  forward_loop (receives event incr_fails expire_fails send_fails ∷ turns) f =
      let usage' = count_bytes event incr_fails expire_fails f.usage in
      let rest = forward_loop turns (record { usage = usage'; sent = f.sent ++ event ∷ [] }) in
      if send_fails then (unclean, record f { usage = usage' }) else rest

-- `ReceiptSubmissionDelay`
abbrev pub receipt_submission_delay : ℕ
receipt_submission_delay = 300

-- The deferred clean-up of a handler that ended.
unfoldable pub end_stream :
    Text → Text → ℕ → Claims → ℕ → Ending → Server × SessionScheduler → Server × SessionScheduler
unfolding cleanup_stream schedule_session_receipt
end_stream key token stream claims now ending (server, scheduler) = (
  cleanup_stream key token stream server,
  elim ending [
    | clean ↦ scheduler
    | _ ↦ schedule_session_receipt token claims now receipt_submission_delay scheduler
  ],
)

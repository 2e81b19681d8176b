-- ===== src/Grpc/Forward/Receipts.antt =====
-- A stream that ends on an error leaves a receipt to be submitted.
use event_pool.Prelude.{IsDistinct, ℕ, ◌+◌, ◌<◌, ◌≤◌, ◌≡◌, refl}
use event_pool.Text.{Text}
use event_pool.Grpc.Auth.{Claims}
use event_pool.Grpc.Streams.{Server, subscribers_of}
use event_pool.Grpc.Streams.Gone.{IsGone, cleanup_stream-IsGone}
use event_pool.Grpc.Scheduler.{SessionScheduler, new_session_scheduler, run_due}
use event_pool.Grpc.Scheduler.Due.{count}
use event_pool.Grpc.Scheduler.Steps.{Reach}
use event_pool.Grpc.Scheduler.Submits.{is_for, schedule_session_receipt_submits}
use event_pool.Grpc.Forward.{clean, unclean, end_stream}

-- Whatever the scheduler was called for before: a handler that ends on an error leaves a receipt that
-- a round five minutes later or any time after submits, if nothing is called in between, and one that
-- ends otherwise leaves the scheduler as it was. Where the stream was once among the subscribers of its
-- key, it is none behind both, its channel is closed, its context cancelled, and its token does not
-- lead to its connection.
pub end_stream_submits :
    (key token : Text) (stream : ℕ) (claims : Claims) (now later : ℕ) (server : Server)
    {scheduler : SessionScheduler}
    → IsDistinct (subscribers_of key server)
    → Reach new_session_scheduler scheduler
    → now + 300 ≤ later
    → (count (is_for token (now + 300)) scheduler.submitted
        < count
            (is_for token (now + 300))
            (run_due later
              (end_stream key token stream claims now unclean (server, scheduler)).1).submitted)
      × IsGone key token stream server
          (end_stream key token stream claims now unclean (server, scheduler)).0
      × ((end_stream key token stream claims now clean (server, scheduler)).1 ≡ scheduler)
      × IsGone key token stream server
          (end_stream key token stream claims now clean (server, scheduler)).0
unfolding end_stream
end_stream_submits key token stream claims now later server once r h =
    let gone = cleanup_stream-IsGone key token stream server once in
    (schedule_session_receipt_submits token claims now 300 later r h, gone, refl, gone)

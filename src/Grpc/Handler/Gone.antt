-- ===== src/Grpc/Handler/Gone.antt =====
-- What a stream leaves when its handler ends, and when a signature's check panics.
use event_pool.Prelude.{ℕ, ◌≡◌, nat_Eq, text_Eq}
use event_pool.Text.{Text}
use event_pool.Grpc.Auth
use event_pool.Grpc.Auth.{KeyStore, Claims}
use event_pool.Grpc.Streams.{subscription_key, register_stream}
use event_pool.Grpc.Streams.Gone.{IsGone}
use event_pool.Grpc.Scheduler.{SessionScheduler, schedule_session_receipt}
use event_pool.Grpc.Forward.{UsageStore, Ending, waiting, clean, unclean, end_stream}
use event_pool.Grpc.Handler.{
  StreamRequest, StreamReply, refused, header_failed, looped, Shared, Streamed,
}

-- What is shared when the handler goes on behind its registration and the others' doing.
abbrev pub between : StreamRequest → Text → ℕ → (Shared → Shared) → Shared → Shared
between req token stream meanwhile shared = meanwhile (
  register_stream (subscription_key req.chain_id req.contract_address req.event_signature) token
      stream shared.0,
  shared.1,
)

-- The scheduler that a reply goes with.
abbrev pub receipt_of : StreamReply → Text → Claims → ℕ → SessionScheduler → SessionScheduler
receipt_of (looped clean) token claims now scheduler = scheduler
receipt_of (looped waiting) token claims now scheduler = scheduler
receipt_of (looped unclean) token claims now scheduler =
    schedule_session_receipt token claims now 300 scheduler
receipt_of header_failed token claims now scheduler =
    schedule_session_receipt token claims now 300 scheduler
receipt_of refused token claims now scheduler = scheduler

-- What is shared behind the loop.
abbrev behind : Text → Text → ℕ → Claims → ℕ → Shared → Ending → Shared
behind key token stream claims now mid ending =
    let ended = end_stream key token stream claims now ending mid in
    elim ending [ waiting ↦ mid | _ ↦ ended ]

module _ (keys : KeyStore) (usage : UsageStore) where
  -- What an end of a handler leaves of its stream and in the scheduler.
  abbrev pub Leaves : StreamRequest → Text → Claims → ℕ → ℕ → Shared → Streamed keys usage → Type 0
  Leaves req token claims stream now mid out =
      IsGone (subscription_key req.chain_id req.contract_address req.event_signature) token stream
        mid.0 out.shared.0
      × (out.shared.1 ≡ receipt_of out.reply token claims now mid.1)

-- ===== src/Grpc/Forward/Tests.antt =====
-- A stream of two events whose second send fails, over counters in an association list.
use event_pool.Prelude.{
  ℕ, ◌+◌, ◌<◌, ◌≡◌, refl, List, [], ◌∷◌, true, false, Option, none, some, arith, if◌then◌else◌,
  text_eq, Dict, lookup, insert, lookup-insert, text_Eq,
}
use event_pool.Text.{Text, bytes}
use event_pool.Grpc.Auth.{Claims}
use event_pool.Grpc.Streams.{Event}
use event_pool.Grpc.Scheduler.{new_session_scheduler, schedule_session_receipt, run_due}
use event_pool.Grpc.Scheduler.Due.{count}
use event_pool.Grpc.Scheduler.Steps.{Reach, here, next, schedules}
use event_pool.Grpc.Scheduler.Submits.{is_for}
use event_pool.Grpc.Scheduler
use event_pool.Grpc.Streams.{Server, subscribers_of}
use event_pool.Grpc.Streams.Gone.{IsGone}
use event_pool.Prelude.{IsDistinct}
use event_pool.Grpc.Forward.{
  UsageStore, usage_key, Turn, receives, context_done, clean, unclean, Forwarded, forward_loop,
  count_bytes, end_stream,
}
use event_pool.Grpc.Forward.Bills.{events_of, Bills, forward_loop-Bills}
use event_pool.Grpc.Forward.Receipts.{end_stream_submits}

abbrev or_zero : Option ℕ → ℕ
or_zero none = 0
or_zero (some n) = n

abbrev total_in : Text → Dict Text ℕ → ℕ
total_in key counters = or_zero (lookup key counters)

total_in-insert :
    (k j : Text) (n : ℕ) (counters : Dict Text ℕ)
    → total_in j (insert k (total_in k counters + n) counters)
      ≡ (if text_eq k j then total_in k counters + n else total_in j counters)
total_in-insert k j n counters =
    ground (arith, lookup-insert k j (total_in k counters + n) counters)

-- Counters that never expire.
abbrev counters : UsageStore
counters = record {
  State = Dict Text ℕ;
  total = total_in;
  incr_by = λ k n s. insert k (total_in k s + n) s;
  expire_at = λ k t s. s;
  total-incr_by = total_in-insert;
  total-expire_at = λ k j t s. refl;
}

abbrev alice : Claims
alice = record { address = bytes "0xa1"; expires_at = 900 }

abbrev an_event : Text → Event
an_event content = record { block_number = 7; tx_hash = bytes "0x1"; content = content }

abbrev turns : List Turn
turns =
    receives (an_event (bytes "{}")) false false false
    ∷ receives (an_event (bytes "{1}")) false true true
    ∷ context_done
    ∷ []

abbrev start : Forwarded counters (bytes "t") alice
start = record { usage = []; sent = [] }

forward_loop-Bills_example :
    Bills counters
      (bytes "t")
      alice
      (events_of turns)
      start
      (forward_loop counters (bytes "t") alice turns start)
forward_loop-Bills_example =
    forward_loop-Bills counters (bytes "t") alice turns start (refl, (refl, (tt, tt)))

-- Both events are counted, the first one is sent.
two_counted :
    total_in (usage_key (bytes "t")) (forward_loop counters (bytes "t") alice turns start).1.usage
    ≡ 5
unfolding forward_loop count_bytes usage_key lookup insert text_eq
two_counted = refl

one_scheduled :
    Reach new_session_scheduler
      (schedule_session_receipt (bytes "t") alice 100 300 new_session_scheduler)
one_scheduled = next here (schedules (bytes "t") alice 100 300)

abbrev scheduled : Scheduler.SessionScheduler
unfolding new_session_scheduler schedule_session_receipt
scheduled = schedule_session_receipt (bytes "t") alice 100 300 new_session_scheduler

-- One stream is open.
abbrev opened : Server
opened = record {
  subscribers = (bytes "k", 1 ∷ []) ∷ [];
  active_conns = (bytes "t", 1) ∷ [];
  channels = (1, record { buffer = []; closed = false }) ∷ [];
  cancelled = [];
}

opened-IsDistinct : IsDistinct (subscribers_of (bytes "k") opened)
unfolding lookup text_eq
opened-IsDistinct = (refl, tt)

end_stream_submits_example :
    (count (is_for (bytes "t") (200 + 300)) scheduled.submitted
      < count
          (is_for (bytes "t") (200 + 300))
          (run_due 600
            (end_stream
              (bytes "k")
              (bytes "t")
              1
              alice
              200
              unclean
              (opened, scheduled)).1).submitted)
    × IsGone
        (bytes "k")
        (bytes "t")
        1
        opened
        (end_stream (bytes "k") (bytes "t") 1 alice 200 unclean (opened, scheduled)).0
    × ((end_stream (bytes "k") (bytes "t") 1 alice 200 clean (opened, scheduled)).1 ≡ scheduled)
    × IsGone
        (bytes "k")
        (bytes "t")
        1
        opened
        (end_stream (bytes "k") (bytes "t") 1 alice 200 clean (opened, scheduled)).0
unfolding scheduled schedule_session_receipt
end_stream_submits_example =
    end_stream_submits (bytes "k") (bytes "t") 1 alice 200 600 opened opened-IsDistinct
      one_scheduled (omega arith)

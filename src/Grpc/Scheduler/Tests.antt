-- ===== src/Grpc/Scheduler/Tests.antt =====
-- The scheduler's theorems on three tokens.
use event_pool.Prelude.{
  ◌<◌, ◌≤◌, ◌⊎◌, inr, Bool, ◌+◌, ◌*◌, ◌≡◌, refl, true, false, not, ◌&&◌, some, arith, lookup,
  insert, delete, text_Eq, text_eq,
}
use event_pool.Text.{bytes}
use event_pool.Grpc.Auth.{Claims}
use event_pool.Grpc.Scheduler.{
  SessionJob, SessionScheduler, new_session_scheduler, schedule_session_receipt,
  cancel_session_receipt, run_due, process_expired, pop_job, expire_job,
}
use event_pool.Grpc.Scheduler.Due.{count, is_due, run_due-Expires}
use event_pool.Grpc.Scheduler.Steps.{Reach, here, next, schedules, expires}
use event_pool.Grpc.Scheduler.Cancelled.{times, cancel_session_receipt_holds}
use event_pool.Grpc.Scheduler.Timer.{
  Loop, new_loop, loop_round, LoopStep, LoopReach, begins, wakes, LoopReach-wakes,
}
use event_pool.Grpc.Scheduler.Timer
use event_pool.Grpc.Scheduler.Races.{scheduled_again, cancel_session_receipt_misses}

abbrev alice : Claims
alice = record { address = bytes "0xa1"; expires_at = 900 }

-- Two jobs, of which the second is due first.
abbrev two_jobs : SessionScheduler
two_jobs =
    schedule_session_receipt (bytes "u") alice 110 60
      (schedule_session_receipt (bytes "t") alice 100 300 new_session_scheduler)

abbrev two_jobs_reached : Reach new_session_scheduler two_jobs
two_jobs_reached =
    next (next here (schedules (bytes "t") alice 100 300)) (schedules (bytes "u") alice 110 60)

expires_two :
    (count (λ j. true) (run_due 200 two_jobs).submitted
      ≡ count (λ j. true) two_jobs.submitted
        + count (λ j. true && (is_due 200 j && not j.canceled)) two_jobs.jobs)
    × (count (λ j. true) (run_due 200 two_jobs).jobs
        ≡ count (λ j. true && not (is_due 200 j)) two_jobs.jobs)
expires_two = run_due-Expires 200 two_jobs (λ j. true)

two_jobs-job : lookup (bytes "t") two_jobs.job_map ≡ some 0
unfolding schedule_session_receipt new_session_scheduler lookup insert text_eq
two_jobs-job = refl

cancel_session_receipt_holds_example :
    ((cancel_session_receipt (bytes "t") two_jobs).0 ≡ true)
    × (times 0 (run_due 900 (cancel_session_receipt (bytes "t") two_jobs).1) ≡ times 0 two_jobs)
cancel_session_receipt_holds_example =
    cancel_session_receipt_holds (bytes "t") 0 two_jobs_reached two_jobs-job
      (next here (expires 900))

cancel_session_receipt_misses_example :
    (cancel_session_receipt
        (bytes "t")
        (run_due 420 (scheduled_again (bytes "t") alice 100 300 200 300))
      ≡ (false, run_due 420 (scheduled_again (bytes "t") alice 100 300 200 300)))
    × (times 1 (run_due 500 (run_due 420 (scheduled_again (bytes "t") alice 100 300 200 300))) ≡ 1)
cancel_session_receipt_misses_example =
    cancel_session_receipt_misses (bytes "t") alice 100 300 200 300 420 500 (omega arith)
      (omega arith) (omega arith)

-- Round by round: the first job due goes out, the other stays.
two_jobs-round : times 1 (run_due 200 two_jobs) + 10 * times 0 (run_due 200 two_jobs) ≡ 1
unfolding schedule_session_receipt new_session_scheduler lookup insert text_eq run_due
    process_expired pop_job expire_job delete
two_jobs-round = refl

-- The loop did its first round at 90, and a receipt was scheduled then for 400.
abbrev scheduled : Loop
scheduled = record {
  scheduler = schedule_session_receipt (bytes "t") alice 100 300 (loop_round 90 new_loop).scheduler;
  triggered = true;
  wakes_at = (loop_round 90 new_loop).wakes_at;
  stopped = false;
  ended = false;
}

scheduled_reached : LoopReach scheduled
unfolding new_loop loop_round
scheduled_reached =
    Timer.next (Timer.next begins (wakes 90 refl (inr (omega arith))))
      (Timer.schedules (bytes "t") alice 100 300)

one_due : 0 < count (is_due 400) scheduled.scheduler.jobs
unfolding schedule_session_receipt loop_round new_loop new_session_scheduler run_due process_expired
    lookup
one_due = omega arith

LoopReach-wakes_example :
    ((scheduled.triggered ≡ true) ⊎ (scheduled.wakes_at ≤ 400))
    × LoopStep scheduled (loop_round 400 scheduled)
    × ((test : SessionJob → Bool)
        → count test (loop_round 400 scheduled).scheduler.submitted
          ≡ count test scheduled.scheduler.submitted
            + count (λ j. test j && (is_due 400 j && not j.canceled)) scheduled.scheduler.jobs)
    × (count (is_due 400) (loop_round 400 scheduled).scheduler.jobs ≡ 0)
LoopReach-wakes_example = LoopReach-wakes 400 scheduled_reached refl one_due

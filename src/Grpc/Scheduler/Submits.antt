-- ===== src/Grpc/Scheduler/Submits.antt =====
-- A receipt that is scheduled is submitted, whatever the heap and the map were.
use event_pool.Prelude.{
  ℕ, ◌+◌, ◌≤◌, ◌<◌, ◌≡◌, refl, ap, inl, inr, Bool, true, not, ◌&&◌, arith, if◌then◌else◌, nat_eq,
  text_eq, text_eq_iff, Option-cases, lookup, text_Eq,
}
use event_pool.Text.{Text}
use event_pool.Grpc.Auth.{Claims}
use event_pool.Grpc.Scheduler.Due.{count, is_due, count-snoc, run_due-Expires}
use event_pool.Grpc.Scheduler.Steps.{Reach}
use event_pool.Grpc.Scheduler.{
  SessionJob, SessionScheduler, reschedule, schedule_session_receipt, run_due,
  new_session_scheduler,
}
use event_pool.Grpc.Scheduler.Live.{is_job, IsLive, added, count-update_job, Reach-IsLive}

-- A job of a token for a time.
abbrev pub is_for : Text → ℕ → SessionJob → Bool
is_for t at j = text_eq j.token t && nat_eq j.run_at at

abbrev goes_out : Text → ℕ → ℕ → SessionJob → Bool
goes_out t at now j = is_for t at j && (is_due now j && not j.canceled)

goes_out_rescheduled :
    (token : Text) (other : ℕ) (claims : Claims) (at later : ℕ) (j : SessionJob)
    → at ≤ later
    → is_job token other j ≡ true
    → goes_out token at later (if nat_eq j.id other then reschedule claims at j else j) ≡ true
goes_out_rescheduled token other claims at later j h q = ground arith

schedule-goes_out :
    (token : Text) (claims : Claims) (now delay later : ℕ) (s : SessionScheduler)
    → IsLive s
    → now + delay ≤ later
    → 1
      ≤ count
          (goes_out token (now + delay) later)
          (schedule_session_receipt token claims now delay s).jobs
unfolding schedule_session_receipt
schedule-goes_out token claims now delay later s v h =
    elim (Option-cases (lookup token s.job_map)) [
      | inl e ↦
          rw (e, schedule_session_receipt) ground
            (
              arith,
              count-snoc (goes_out token (now + delay) later) s.jobs
                  (added token claims (now + delay) s.next_id),
              text_eq_iff token token,
            )
      | inr (other, e) ↦
          rw (e, schedule_session_receipt)
            let changed =
                count-update_job (is_job token other) (goes_out token (now + delay) later) other
                  (reschedule claims (now + delay)) s.jobs
                  (λ j q. goes_out_rescheduled token other claims (now + delay) later j h q) in
              omega (arith, changed, v token other e)
    ]

schedule-submitted :
    (token : Text) (claims : Claims) (now delay : ℕ) (s : SessionScheduler)
    → (schedule_session_receipt token claims now delay s).submitted ≡ s.submitted
unfolding schedule_session_receipt
schedule-submitted token claims now delay s = elim (Option-cases (lookup token s.job_map)) [
  | inl e ↦ rw (e, schedule_session_receipt) refl
  | inr (other, e) ↦ rw (e, schedule_session_receipt) refl
]

-- Whatever was called before: a receipt that is scheduled is submitted by a round at its time or later,
-- if nothing is called in between: the jobs of the token for that time that were submitted are more by
-- one at least.
pub schedule_session_receipt_submits :
    (token : Text) (claims : Claims) (now delay later : ℕ) {s : SessionScheduler}
    → Reach new_session_scheduler s
    → now + delay ≤ later
    → count (is_for token (now + delay)) s.submitted
      < count
          (is_for token (now + delay))
          (run_due later (schedule_session_receipt token claims now delay s)).submitted
schedule_session_receipt_submits token claims now delay later {s} r h =
    let out = schedule-goes_out token claims now delay later s (Reach-IsLive r) h in
    let (sent, _) =
      run_due-Expires later (schedule_session_receipt token claims now delay s)
        (is_for token (now + delay)) in
    omega (
      arith,
      out,
      sent,
      ap (λ js. count (is_for token (now + delay)) js)
          (schedule-submitted token claims now delay s),
    )

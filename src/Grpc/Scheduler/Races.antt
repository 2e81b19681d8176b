-- ===== src/Grpc/Scheduler/Races.antt =====
-- The round that takes away the entry of a newer job.
use event_pool.Prelude.{
  ==_refl, ℕ, suc, ◌+◌, ◌≤◌, ◌<◌, ◌≡◌, refl, ap, ◌∙◌, List, [], ◌∷◌, true, false, some, arith, leb,
  lookup, insert, delete, text_Eq,
}
use event_pool.Text.{Text}
use event_pool.Grpc.Auth.{Claims}
use event_pool.Grpc.Scheduler.{
  SessionJob, SessionScheduler, update_job, schedule_session_receipt, cancel_session_receipt,
  pop_job, expire_job, process_expired, run_due, new_session_scheduler,
}
use event_pool.Grpc.Scheduler.Cancelled.{times}

-- A token whose receipt is scheduled, cancelled, and scheduled again.
abbrev pub scheduled_again : Text → Claims → ℕ → ℕ → ℕ → ℕ → SessionScheduler
scheduled_again token claims first delay second delay' =
    schedule_session_receipt token claims second delay'
      (cancel_session_receipt token
        (schedule_session_receipt token claims first delay new_session_scheduler)).1

abbrev first_job : Text → Claims → ℕ → SessionJob
first_job token claims at = record {
  id = 0;
  token = token;
  claims = claims;
  run_at = at;
  canceled = true;
}

abbrev second_job : Text → Claims → ℕ → SessionJob
second_job token claims at = record {
  id = 1;
  token = token;
  claims = claims;
  run_at = at;
  canceled = false;
}

abbrev waiting : Text → Claims → ℕ → ℕ → SessionScheduler
waiting token claims a b = record {
  jobs = first_job token claims a ∷ second_job token claims b ∷ [];
  job_map = (token, 1) ∷ [];
  next_id = 2;
  submitted = [];
}

-- What the map and the heap are behind the cancellation.
abbrev emptied : Text → Claims → ℕ → SessionScheduler
emptied token claims a = record {
  jobs = first_job token claims a ∷ [];
  job_map = [];
  next_id = 1;
  submitted = [];
}

cancel-first :
    (token : Text) (claims : Claims) (first delay : ℕ)
    → cancel_session_receipt token
        (schedule_session_receipt token claims first delay new_session_scheduler)
      ≡ (true, emptied token claims (first + delay))
unfolding schedule_session_receipt cancel_session_receipt new_session_scheduler lookup insert delete
    update_job
cancel-first token claims first delay =
    rw (==_refl token, cancel_session_receipt, ==_refl token, delete) refl

scheduled_again-eq :
    (token : Text) (claims : Claims) (first delay second delay' : ℕ)
    → scheduled_again token claims first delay second delay'
      ≡ waiting token claims (first + delay) (second + delay')
unfolding schedule_session_receipt lookup insert
scheduled_again-eq token claims first delay second delay' =
    rw (cancel-first token claims first delay) refl

abbrev settled : Text → Claims → ℕ → SessionScheduler
settled token claims b = record {
  jobs = second_job token claims b ∷ [];
  job_map = [];
  next_id = 2;
  submitted = [];
}

expire_job-first :
    (token : Text) (claims : Claims) (a b : ℕ)
    → expire_job
        (first_job token claims a)
        (second_job token claims b ∷ [])
        (waiting token claims a b)
      ≡ settled token claims b
unfolding expire_job delete
expire_job-first token claims a b = rw (==_refl token, expire_job) refl

process_expired-due :
    (fuel now : ℕ) (j : SessionJob) (rest : List SessionJob) (s : SessionScheduler)
    → pop_job s.jobs ≡ some (j, rest)
    → leb j.run_at now ≡ true
    → process_expired (suc fuel) now s ≡ process_expired fuel now (expire_job j rest s)
unfolding process_expired
process_expired-due fuel now j rest s e h = rw (e, h, process_expired) refl

process_expired-late :
    (fuel now : ℕ) (j : SessionJob) (rest : List SessionJob) (s : SessionScheduler)
    → pop_job s.jobs ≡ some (j, rest)
    → leb j.run_at now ≡ false
    → process_expired (suc fuel) now s ≡ s
unfolding process_expired
process_expired-late fuel now j rest s e h = rw (e, h, process_expired) refl

pop_job-waiting :
    (token : Text) (claims : Claims) (a b : ℕ)
    → leb a b ≡ true
    → pop_job (waiting token claims a b).jobs
      ≡ some (first_job token claims a, second_job token claims b ∷ [])
unfolding pop_job
pop_job-waiting token claims a b h = rw h refl

pop_job-settled :
    (token : Text) (claims : Claims) (b : ℕ)
    → pop_job (settled token claims b).jobs ≡ some (second_job token claims b, [])
unfolding pop_job
pop_job-settled token claims b = refl

run_due-waiting :
    (token : Text) (claims : Claims) (a b now : ℕ)
    → leb a now ≡ true
    → leb b now ≡ false
    → leb a b ≡ true
    → run_due now (waiting token claims a b) ≡ settled token claims b
unfolding run_due
run_due-waiting token claims a b now h h' h'' =
    process_expired-due 1 now _ _ (waiting token claims a b) (pop_job-waiting token claims a b h'')
      h
    ∙ (ap (process_expired 1 now) (expire_job-first token claims a b)
        ∙ process_expired-late 0 now _ _ (settled token claims b) (pop_job-settled token claims b)
            h')

run_due-settled :
    (token : Text) (claims : Claims) (b later : ℕ)
    → leb b later ≡ true
    → times 1 (run_due later (settled token claims b)) ≡ 1
unfolding run_due process_expired expire_job pop_job delete
run_due-settled token claims b later h = rw (h, run_due, process_expired) refl

cancel-settled :
    (token : Text) (claims : Claims) (b : ℕ)
    → cancel_session_receipt token (settled token claims b) ≡ (false, settled token claims b)
unfolding cancel_session_receipt lookup
cancel-settled token claims b = refl

-- A token is scheduled, cancelled, and scheduled again. Where the loop runs between the two times, it
-- takes the entry of the newer job away with the cancelled one: a cancellation then answers false, and
-- a round at the second time or later submits the newer job.
pub cancel_session_receipt_misses :
    (token : Text) (claims : Claims) (first delay second delay' now later : ℕ)
    → first + delay ≤ now
    → now < second + delay'
    → second + delay' ≤ later
    → (cancel_session_receipt token
          (run_due now (scheduled_again token claims first delay second delay'))
        ≡ (false, run_due now (scheduled_again token claims first delay second delay')))
      × (times 1
            (run_due later (run_due now (scheduled_again token claims first delay second delay')))
          ≡ 1)
cancel_session_receipt_misses token claims first delay second delay' now later h h' h'' =
    rw
      (
        scheduled_again-eq token claims first delay second delay',
        run_due-waiting token claims (first + delay) (second + delay') now (ground arith)
            (ground arith) (ground arith),
      )
      (
        cancel-settled token claims (second + delay'),
        run_due-settled token claims (second + delay') later (ground arith),
      )

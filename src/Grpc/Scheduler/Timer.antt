-- ===== src/Grpc/Scheduler/Timer.antt =====
-- The loop `run` with its timer and its trigger: it does not sleep past a job.
-- A round of the loop may come at any time from the one on that the timer shows, or once it is triggered.
use event_pool.Prelude.{
  ℕ, ◌+◌, ◌-◌, ◌≤◌, ◌<◌, ◌≡◌, refl, ap, ◌∙◌, ◌⊎◌, inl, inr, List, [], ◌∷◌, Bool, true, false, not,
  ◌&&◌, Option, none, some, arith, leb, ltb, Bool-cases, Option-cases, lookup, text_Eq,
}
use event_pool.Text.{Text}
use event_pool.Grpc.Auth.{Claims}
use event_pool.Grpc.Scheduler.{
  SessionJob, SessionScheduler, new_session_scheduler, update_job, cancel, schedule_session_receipt,
  cancel_session_receipt, pop_job, run_due,
}
use event_pool.Grpc.Scheduler.Due.{count, count_mono, is_due, IsPop, pop_job-IsPop, run_due-Expires}

-- `wakes_at` is the time that the timer was set to; `stopped` says that `shutdown` is closed, and `ended`
-- that the loop saw it.
pub record Loop : Type 0 where
  pub scheduler : SessionScheduler
  pub triggered : Bool
  pub wakes_at : ℕ
  pub stopped : Bool
  pub ended : Bool

-- The goroutine starts with a round.
unfoldable pub new_loop : Loop
unfolding new_session_scheduler
new_loop = record {
  scheduler = new_session_scheduler;
  triggered = false;
  wakes_at = 0;
  stopped = false;
  ended = false;
}

-- 24 hours where no job is left; a job that is late waits 0.
unfoldable pub wait_duration : ℕ → SessionScheduler → ℕ
unfolding pop_job
wait_duration now s = elim (pop_job s.jobs) [ none ↦ 86400 | some (j, rest) ↦ j.run_at - now ]

unfoldable pub loop_round : ℕ → Loop → Loop
unfolding run_due wait_duration
loop_round now l =
    let s = run_due now l.scheduler in
    record l { scheduler = s; triggered = false; wakes_at = now + wait_duration now s }

pub data LoopStep (l : Loop) : Loop → Type 0 where
  schedules :
      (token : Text) (claims : Claims) (now delay : ℕ)
      → LoopStep l (record l {
        scheduler = schedule_session_receipt token claims now delay l.scheduler;
        triggered = true;
      })
  cancels :
      (token : Text)
      → LoopStep l (record l { scheduler = (cancel_session_receipt token l.scheduler).1 })
  wakes :
      (now : ℕ)
      → l.ended ≡ false
      → (l.triggered ≡ true) ⊎ (l.wakes_at ≤ now)
      → LoopStep l (loop_round now l)
  closes : l.stopped ≡ false → LoopStep l (record l { stopped = true })
  ends : l.stopped ≡ true → LoopStep l (record l { ended = true })

pub data LoopReach : Loop → Type 0 where
  begins : LoopReach new_loop
  next : {l k : Loop} → LoopReach l → LoopStep l k → LoopReach k

-- Unless it is triggered, no job is before the time on the timer; and the loop ends only behind a stop.
record IsTimely (l : Loop) : Type 0 where
  timely : l.triggered ≡ false → count (λ j. ltb j.run_at l.wakes_at) l.scheduler.jobs ≡ 0
  going : l.ended ≡ true → l.stopped ≡ true

count-cancelled :
    (time id : ℕ) (js : List SessionJob)
    → count (λ j. ltb j.run_at time) (update_job id cancel js) ≡ count (λ j. ltb j.run_at time) js
unfolding update_job
count-cancelled time id [] = refl
count-cancelled time id (j ∷ js) = ground (arith, count-cancelled time id js)

cancel-jobs :
    (token : Text) (s : SessionScheduler) (time : ℕ)
    → count (λ j. ltb j.run_at time) (cancel_session_receipt token s).1.jobs
      ≡ count (λ j. ltb j.run_at time) s.jobs
unfolding cancel_session_receipt
cancel-jobs token s time = elim (Option-cases (lookup token s.job_map)) [
  | inl e ↦ rw (e, cancel_session_receipt) refl
  | inr (id, e) ↦ rw (e, cancel_session_receipt) (count-cancelled time id s.jobs)
]

count-never :
    (now : ℕ) (js : List SessionJob) → count (λ j. is_due now j && not (is_due now j)) js ≡ 0
count-never now [] = refl
count-never now (j ∷ js) = ground (arith, count-never now js)

-- Where no job is due, the timer is set to the first one, or to a time before none.
timer-timely :
    (now : ℕ) (js : List SessionJob) (r : Option (SessionJob × List SessionJob))
    → IsPop js r
    → count (is_due now) js ≡ 0
    → count
        (λ j.
          ltb j.run_at (now + elim r [ none ↦ 86400 | some (first, rest) ↦ first.run_at - now ]))
        js
      ≡ 0
timer-timely now js none empty h = rw empty refl
timer-timely now js (some (first, rest)) (counts, len, low) h =
    let later : leb first.run_at now ≡ false = ground (arith, counts (is_due now)) in
    let exact : now + (first.run_at - now) ≡ first.run_at = ground arith in
    ap (λ time. count (λ j. ltb j.run_at time) js) exact ∙ low

round-timely :
    (now : ℕ) (s : SessionScheduler)
    → count (λ j. ltb j.run_at (now + wait_duration now (run_due now s))) (run_due now s).jobs ≡ 0
unfolding wait_duration
round-timely now s =
    timer-timely now (run_due now s).jobs (pop_job (run_due now s).jobs)
      (pop_job-IsPop (run_due now s).jobs)
      ((run_due-Expires now s (is_due now)).1 ∙ count-never now s.jobs)

LoopStep-IsTimely : {l k : Loop} → LoopStep l k → IsTimely l → IsTimely k
unfolding loop_round
LoopStep-IsTimely (schedules token claims now delay) v = record {
  timely = λ e. cc;
  going = v.going;
}
LoopStep-IsTimely {l} (cancels token) v = record {
  timely = λ e. cancel-jobs token l.scheduler l.wakes_at ∙ v.timely e;
  going = v.going;
}
LoopStep-IsTimely {l} (wakes now on h) v = record {
  timely = λ e. round-timely now l.scheduler;
  going = v.going;
}
LoopStep-IsTimely (closes o) v = record { timely = v.timely; going = λ e. refl }
LoopStep-IsTimely (ends o) v = record { timely = v.timely; going = λ e. o }

LoopReach-IsTimely : {l : Loop} → LoopReach l → IsTimely l
unfolding new_loop new_session_scheduler
LoopReach-IsTimely begins = record { timely = λ e. refl; going = λ e. cc }
LoopReach-IsTimely (next r h) = LoopStep-IsTimely h (LoopReach-IsTimely r)

awakes :
    (l : Loop) (now : ℕ)
    → IsTimely l
    → 0 < count (is_due now) l.scheduler.jobs
    → (l.triggered ≡ true) ⊎ (l.wakes_at ≤ now)
awakes l now v due = elim (Bool-cases l.triggered) [
  | inl set ↦ inl set
  | inr unset ↦ elim (Bool-cases (leb l.wakes_at now)) [
    | inl past ↦ inr (ground arith)
    | inr asleep ↦
        let fewer =
          count_mono (is_due now) (λ j. ltb j.run_at l.wakes_at) l.scheduler.jobs
            (λ j e. ground arith) in
        absurd (omega (arith, fewer, v.timely unset, due))
  ]
]

-- Before a stop, whatever was scheduled and cancelled, and whenever the loop woke: as long as a job is due, the loop is
-- triggered or its timer has run out, so that it wakes; the round that it does then submits every job
-- that is due and not cancelled, and leaves none that is due.
pub LoopReach-wakes :
    {l : Loop} (now : ℕ)
    → LoopReach l
    → l.stopped ≡ false
    → 0 < count (is_due now) l.scheduler.jobs
    → ((l.triggered ≡ true) ⊎ (l.wakes_at ≤ now))
      × LoopStep l (loop_round now l)
      × ((test : SessionJob → Bool)
          → count test (loop_round now l).scheduler.submitted
            ≡ count test l.scheduler.submitted
              + count (λ j. test j && (is_due now j && not j.canceled)) l.scheduler.jobs)
      × (count (is_due now) (loop_round now l).scheduler.jobs ≡ 0)
unfolding loop_round
LoopReach-wakes {l} now r open_ due =
    let v = LoopReach-IsTimely r in
    let on : l.ended ≡ false = ground (arith, v.going) in
    let awake : (l.triggered ≡ true) ⊎ (l.wakes_at ≤ now) = awakes l now v due in
    (
      awake,
      wakes now on awake,
      λ test. (run_due-Expires now l.scheduler test).0,
      (run_due-Expires now l.scheduler (is_due now)).1 ∙ count-never now l.scheduler.jobs,
    )

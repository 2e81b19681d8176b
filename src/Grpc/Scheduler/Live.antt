-- ===== src/Grpc/Scheduler/Live.antt =====
-- Every entry of the scheduler's map has its job in the heap.
use event_pool.Prelude.{
  subst, ℕ, ◌+◌, ◌≤◌, ◌≡◌, refl, inl, inr, List, [], ◌∷◌, Bool, true, false, not, ◌&&◌, some, arith,
  if◌then◌else◌, nat_eq, nat_eq_iff, text_eq, text_eq_iff, length, Bool-cases, Option-cases, lookup,
  lookup-insert, lookup-delete, text_Eq,
}
use event_pool.Text.{Text}
use event_pool.Grpc.Auth.{Claims}
use event_pool.Grpc.Scheduler.Due.{count, count-snoc, IsPop, pop_job-IsPop}
use event_pool.Grpc.Scheduler.Steps.{
  Step, schedules, cancels, expires, Reach, here, next, IsOwned, process_expired_keeps,
  Reach-IsOwned, new_session_scheduler-IsOwned,
}
use event_pool.Grpc.Scheduler.{
  SessionJob, SessionScheduler, update_job, reschedule, cancel, schedule_session_receipt,
  cancel_session_receipt, pop_job, expire_job, run_due, new_session_scheduler,
}

-- A job of a token and a number that was not cancelled.
abbrev pub is_job : Text → ℕ → SessionJob → Bool
is_job t id j = text_eq j.token t && (nat_eq j.id id && not j.canceled)

-- Every entry of the map has its job in the heap.
abbrev pub IsLive : SessionScheduler → Type 0
IsLive s = (t : Text) (id : ℕ) → lookup t s.job_map ≡ some id → 1 ≤ count (is_job t id) s.jobs

pub count-update_job :
    (p q : SessionJob → Bool) (id : ℕ) (change : SessionJob → SessionJob) (js : List SessionJob)
    → ((j : SessionJob) → p j ≡ true → q (if nat_eq j.id id then change j else j) ≡ true)
    → count p js ≤ count q (update_job id change js)
unfolding update_job
count-update_job p q id change [] h = omega arith
count-update_job p q id change (j ∷ js) h =
    let tail = count-update_job p q id change js h in
    elim (Bool-cases (p j)) [
      | inl e ↦ rw (e, h j e) (omega (arith, tail))
      | inr e ↦ rw e (omega (arith, tail))
    ]

reschedule-IsLive :
    (t : Text) (id other : ℕ) (claims : Claims) (at : ℕ) (j : SessionJob)
    → is_job t id j ≡ true
    → is_job t id (if nat_eq j.id other then reschedule claims at j else j) ≡ true
reschedule-IsLive t id other claims at j h = elim (Bool-cases (nat_eq j.id other)) [
  | inl e ↦ rw e (ground arith)
  | inr e ↦ rw e h
]

expire_job-IsLive :
    (s : SessionScheduler) (j : SessionJob) (rest : List SessionJob)
    → IsPop s.jobs (some (j, rest))
    → IsLive s
    → IsLive (expire_job j rest s)
unfolding expire_job
expire_job-IsLive s j rest (counts, _, _) v t id e = elim (Bool-cases (text_eq j.token t)) [
  | inl same ↦ cc (rw (lookup-delete j.token t s.job_map, same) at e)
  | inr differ ↦
      let there = v t id (rw (lookup-delete j.token t s.job_map, differ) at e) in
      let gone : is_job t id j ≡ false = rw differ refl in
      let all = counts (is_job t id) in omega (arith, there, rw gone at all)
]

popped-IsLive :
    (j : SessionJob) (rest : List SessionJob) (s : SessionScheduler)
    → pop_job s.jobs ≡ some (j, rest)
    → IsLive s
    → IsLive (expire_job j rest s)
popped-IsLive j rest s e =
    expire_job-IsLive s j rest (subst (IsPop s.jobs) e (pop_job-IsPop s.jobs))

abbrev pub added : Text → Claims → ℕ → ℕ → SessionJob
added token claims at id = record {
  id = id;
  token = token;
  claims = claims;
  run_at = at;
  canceled = false;
}

schedule-IsLive :
    (token : Text) (claims : Claims) (now delay : ℕ) (s : SessionScheduler)
    → IsLive s
    → IsLive (schedule_session_receipt token claims now delay s)
unfolding schedule_session_receipt
schedule-IsLive token claims now delay s v = elim (Option-cases (lookup token s.job_map)) [
  | inl e ↦
      rw (e, schedule_session_receipt)
        λ t id h. ground (
          arith,
          lookup-insert token t s.next_id s.job_map,
          count-snoc (is_job t id) s.jobs (added token claims (now + delay) s.next_id),
          text_eq_iff token t,
          text_eq_iff t t,
          v t id,
        )
  | inr (other, e) ↦
      rw (e, schedule_session_receipt)
        λ t id h.
          let kept =
            count-update_job (is_job t id) (is_job t id) other (reschedule claims (now + delay))
              s.jobs (reschedule-IsLive t id other claims (now + delay)) in
          omega (arith, kept, v t id h)
]

-- A cancellation leaves the jobs of other numbers.
uncancelled :
    (t : Text) (id other : ℕ) (js : List SessionJob)
    → nat_eq id other ≡ false
    → count (is_job t id) js ≤ count (is_job t id) (update_job other cancel js)
uncancelled t id other js apart =
    count-update_job (is_job t id) (is_job t id) other cancel js
      λ j q. ground (arith, nat_eq_iff j.id id, nat_eq_iff j.id other, nat_eq_iff id other)

cancel-IsLive :
    (token : Text) (s : SessionScheduler)
    → IsOwned s
    → IsLive s
    → IsLive (cancel_session_receipt token s).1
unfolding cancel_session_receipt
cancel-IsLive token s o v = elim (Option-cases (lookup token s.job_map)) [
  | inl e ↦ rw (e, cancel_session_receipt) v
  | inr (other, e) ↦
      rw (e, cancel_session_receipt)
        λ t id h. elim (Bool-cases (text_eq token t)) [
          | inl same ↦ cc (rw (lookup-delete token t s.job_map, same) at h)
          | inr differ ↦
              let old = rw (lookup-delete token t s.job_map, differ) at h in
              let apart : nat_eq id other ≡ false =
                ground
                  (arith, o.owner token t id, e, old, text_eq_iff token t, nat_eq_iff id other) in
              omega (arith, uncancelled t id other s.jobs apart, v t id old)
        ]
]

Step-IsLive : {s t : SessionScheduler} → Step s t → IsOwned s → IsLive s → IsLive t
unfolding run_due
Step-IsLive {s} (schedules token claims now delay) o v = schedule-IsLive token claims now delay s v
Step-IsLive {s} (cancels token) o v = cancel-IsLive token s o v
Step-IsLive {s} (expires now) o v =
    process_expired_keeps IsLive now popped-IsLive (length s.jobs) s v

new_session_scheduler-IsLive : IsLive new_session_scheduler
unfolding new_session_scheduler lookup
new_session_scheduler-IsLive t id e = cc e

pub Reach-IsLive : {s : SessionScheduler} → Reach new_session_scheduler s → IsLive s
Reach-IsLive here = new_session_scheduler-IsLive
Reach-IsLive (next r st) =
    Step-IsLive st (Reach-IsOwned r new_session_scheduler-IsOwned) (Reach-IsLive r)

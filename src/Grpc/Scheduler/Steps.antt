-- ===== src/Grpc/Scheduler/Steps.antt =====
-- The calls of the scheduler as steps, and whose job an entry of the map is.
use event_pool.Prelude.{
  ℕ, zero, suc, ◌+◌, ◌<◌, ◌≡◌, inl, inr, List, some, arith, leb, text_eq_iff, length, Bool-cases,
  Option-cases, lookup, insert, delete, lookup-insert, lookup-delete, lookup-nil, text_Eq,
}
use event_pool.Text.{Text}
use event_pool.Grpc.Auth.{Claims}
use event_pool.Grpc.Scheduler.{
  SessionJob, SessionScheduler, schedule_session_receipt, cancel_session_receipt, pop_job,
  expire_job, process_expired, run_due, new_session_scheduler,
}

-- A call of the scheduler, or a round of its loop.
pub data Step (s : SessionScheduler) : SessionScheduler → Type 0 where
  schedules :
      (token : Text) (claims : Claims) (now delay : ℕ)
      → Step s (schedule_session_receipt token claims now delay s)
  cancels : (token : Text) → Step s (cancel_session_receipt token s).1
  expires : (now : ℕ) → Step s (run_due now s)

pub data Reach (s : SessionScheduler) : SessionScheduler → Type 0 where
  here : Reach s s
  next : {t u : SessionScheduler} → Reach s t → Step t u → Reach s u

-- An entry of the map is a job of an older number, and of one token.
pub record IsOwned (s : SessionScheduler) : Type 0 where
  pub below : (t : Text) (id : ℕ) → lookup t s.job_map ≡ some id → id < s.next_id
  pub owner :
      (t t' : Text) (id : ℕ) → lookup t s.job_map ≡ some id → lookup t' s.job_map ≡ some id → t ≡ t'

pub IsOwned-insert :
    (t : Text) (s : SessionScheduler) (jobs submitted : List SessionJob)
    → IsOwned s
    → IsOwned (record {
      jobs = jobs;
      job_map = insert t s.next_id s.job_map;
      next_id = s.next_id + 1;
      submitted = submitted;
    })
IsOwned-insert t s jobs submitted v = record {
  below = λ u id h. ground (arith, lookup-insert t u s.next_id s.job_map, v.below u id);
  owner = λ u u' id h h'. ground (
    arith,
    lookup-insert t u s.next_id s.job_map,
    lookup-insert t u' s.next_id s.job_map,
    v.below u id,
    v.below u' id,
    v.owner u u' id,
    text_eq_iff t u,
    text_eq_iff t u',
  );
}

pub IsOwned-delete :
    (t : Text) (s : SessionScheduler) (jobs submitted : List SessionJob)
    → IsOwned s
    → IsOwned (record {
      jobs = jobs;
      job_map = delete t s.job_map;
      next_id = s.next_id;
      submitted = submitted;
    })
IsOwned-delete t s jobs submitted v = record {
  below = λ u id h. ground (arith, lookup-delete t u s.job_map, v.below u id);
  owner = λ u u' id h h'.
      ground (arith, lookup-delete t u s.job_map, lookup-delete t u' s.job_map, v.owner u u' id);
}

-- What each job that a round takes out keeps, the round keeps.
pub process_expired_keeps :
    (P : SessionScheduler → Type 0) (now : ℕ)
    → ((j : SessionJob) (rest : List SessionJob) (s : SessionScheduler)
        → pop_job s.jobs ≡ some (j, rest)
        → P s
        → P (expire_job j rest s))
    → (fuel : ℕ) (s : SessionScheduler) → P s
    → P (process_expired fuel now s)
unfolding process_expired
process_expired_keeps P now keeps zero s v = v
process_expired_keeps P now keeps (suc fuel) s v = elim (Option-cases (pop_job s.jobs)) [
  | inl e ↦ rw (e, process_expired) v
  | inr ((j, rest), e) ↦
      let after =
        process_expired_keeps P now keeps fuel (expire_job j rest s) (keeps j rest s e v) in
      elim (Bool-cases (leb j.run_at now)) [
        | inr late ↦ rw (e, late, process_expired) v
        | inl due ↦ rw (e, due, process_expired) after
      ]
]

expire_job-IsOwned :
    (j : SessionJob) (rest : List SessionJob) (s : SessionScheduler)
    → IsOwned s
    → IsOwned (expire_job j rest s)
unfolding expire_job
expire_job-IsOwned j rest s v = IsOwned-delete j.token s rest _ v

Step-IsOwned : {s t : SessionScheduler} → Step s t → IsOwned s → IsOwned t
unfolding schedule_session_receipt cancel_session_receipt run_due
Step-IsOwned {s} (schedules token claims now delay) v =
    elim (Option-cases (lookup token s.job_map)) [
      | inl e ↦ rw (e, schedule_session_receipt) (IsOwned-insert token s _ s.submitted v)
      | inr (other, e) ↦
          rw (e, schedule_session_receipt) (record { below = v.below; owner = v.owner })
    ]
Step-IsOwned {s} (cancels token) v = elim (Option-cases (lookup token s.job_map)) [
  | inl e ↦ rw (e, cancel_session_receipt) v
  | inr (other, e) ↦ rw (e, cancel_session_receipt) (IsOwned-delete token s _ s.submitted v)
]
Step-IsOwned {s} (expires now) v =
    process_expired_keeps IsOwned now (λ j rest s' e. expire_job-IsOwned j rest s') (length s.jobs)
      s v

pub Reach-IsOwned : {s t : SessionScheduler} → Reach s t → IsOwned s → IsOwned t
Reach-IsOwned here v = v
Reach-IsOwned (next r st) v = Step-IsOwned st (Reach-IsOwned r v)

pub new_session_scheduler-IsOwned : IsOwned new_session_scheduler
unfolding new_session_scheduler
new_session_scheduler-IsOwned = record {
  below = λ t id h. absurd (ground (arith, lookup-nil {V = ℕ} t));
  owner = λ t t' id h h'. absurd (ground (arith, lookup-nil {V = ℕ} t));
}

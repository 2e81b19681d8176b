-- ===== src/Grpc/Scheduler.antt =====
-- pkg/grpc/session.go: jobs that submit a session's receipt after a delay, unless they are cancelled.
-- A job is known by a number in place of its pointer. `container/heap` is a bag whose root is a job
-- of least `runAt`; the job's index in it is left out. Any call of
-- `run_due`, at any time, is a round of the loop here; Timer says when the loop wakes for one.
pub mod Due
pub mod Steps
pub mod Cancelled
pub mod Races
pub mod Live
pub mod Submits
pub mod Timer
mod Tests
use event_pool.Prelude.{
  ℕ, zero, suc, ◌+◌, ◌≡◌, List, [], ◌∷◌, ◌++◌, map, Bool, true, false, not, ◌&&◌, Option, none,
  some, if◌then◌else◌, leb, nat_eq, length, Dict, lookup, insert, delete, text_Eq,
}
use event_pool.Text.{Text}
use event_pool.Grpc.Auth.{Claims}

pub record SessionJob : Type 0 where
  pub id : ℕ
  pub token : Text
  pub claims : Claims
  pub run_at : ℕ
  pub canceled : Bool

-- `submitted` lists the jobs that `submitFn` was called for.
pub record SessionScheduler : Type 0 where
  pub jobs : List SessionJob
  pub job_map : Dict Text ℕ
  pub next_id : ℕ
  pub submitted : List SessionJob

unfoldable pub new_session_scheduler : SessionScheduler
new_session_scheduler = record { jobs = []; job_map = []; next_id = 0; submitted = [] }

-- A write through the pointer of a job.
unfoldable pub update_job : ℕ → (SessionJob → SessionJob) → List SessionJob → List SessionJob
update_job id change [] = []
update_job id change (j ∷ js) = (if nat_eq j.id id then change j else j) ∷ update_job id change js

abbrev pub reschedule : Claims → ℕ → SessionJob → SessionJob
reschedule claims run_at j = record j { claims = claims; run_at = run_at; canceled = false }

abbrev pub cancel : SessionJob → SessionJob
cancel j = record j { canceled = true }

unfoldable pub schedule_session_receipt :
    Text → Claims → ℕ → ℕ → SessionScheduler → SessionScheduler
unfolding update_job
schedule_session_receipt token claims now delay s = elim (lookup token s.job_map) [
  | some id ↦ record s { jobs = update_job id (reschedule claims (now + delay)) s.jobs }
  | none ↦ record s {
    jobs =
        s.jobs
        ++ record {
          id = s.next_id;
          token = token;
          claims = claims;
          run_at = now + delay;
          canceled = false;
        }
          ∷ [];
    job_map = insert token s.next_id s.job_map;
    next_id = s.next_id + 1;
  }
]

unfoldable pub cancel_session_receipt : Text → SessionScheduler → Bool × SessionScheduler
unfolding update_job
cancel_session_receipt token s = elim (lookup token s.job_map) [
  | none ↦ (false, s)
  | some id ↦
      (true, record s { jobs = update_job id cancel s.jobs; job_map = delete token s.job_map })
]

-- The root of a bag with one job more.
abbrev pub with_job :
    SessionJob
    → List SessionJob
    → Option (SessionJob × List SessionJob)
    → Option (SessionJob × List SessionJob)
with_job j js none = some (j, js)
with_job j js (some (least, rest)) =
    if leb j.run_at least.run_at then some (j, js) else some (least, j ∷ rest)

-- `heap.Pop`: a job of least `runAt`, and the others.
unfoldable pub pop_job : List SessionJob → Option (SessionJob × List SessionJob)
pop_job [] = none
pop_job (j ∷ js) = with_job j js (pop_job js)

-- The round of the loop for a job that was popped: its entry goes, and it is submitted.
unfoldable pub expire_job : SessionJob → List SessionJob → SessionScheduler → SessionScheduler
expire_job j rest s = record s {
  jobs = rest;
  job_map = delete j.token s.job_map;
  submitted = if not j.canceled then s.submitted ++ j ∷ [] else s.submitted;
}

unfoldable pub process_expired : ℕ → ℕ → SessionScheduler → SessionScheduler
unfolding pop_job expire_job
process_expired zero now s = s
process_expired (suc fuel) now s = elim (pop_job s.jobs) [
  | none ↦ s
  | some (j, rest) ↦ elim (leb j.run_at now) [
    | false ↦ s
    | true ↦ process_expired fuel now (expire_job j rest s)
  ]
]

-- A round of `run` at a time; each round of the loop in it takes a job out.
unfoldable pub run_due : ℕ → SessionScheduler → SessionScheduler
unfolding process_expired
run_due now s = process_expired (length s.jobs) now s

-- ===== src/Grpc/Scheduler/Cancelled.antt =====
-- A cancelled job is gone for good.
use event_pool.Prelude.{
  subst, ℕ, ◌+◌, ◌<◌, ◌≡◌, refl, ap, ◌∙◌, sym, ◌≢◌, inl, inr, List, [], ◌∷◌, true, Option, none,
  some, arith, leb, nat_eq, nat_eq_iff, text_eq_iff, length, All, All-append, Option-cases, if_elim,
  lookup, lookup-insert, lookup-delete, text_Eq,
}
use event_pool.Text.{Text}
use event_pool.Grpc.Scheduler.Due.{count, count-snoc}
use event_pool.Grpc.Scheduler.{
  SessionJob, SessionScheduler, update_job, reschedule, cancel, schedule_session_receipt,
  cancel_session_receipt, with_job, pop_job, expire_job, run_due, new_session_scheduler,
}
use event_pool.Grpc.Scheduler.Steps.{
  process_expired_keeps, Step, schedules, cancels, expires, Reach, here, next, IsOwned,
  IsOwned-insert, IsOwned-delete, Reach-IsOwned, new_session_scheduler-IsOwned,
}

-- How often the job of a number was submitted.
abbrev pub times : ℕ → SessionScheduler → ℕ
times id s = count (λ j. nat_eq j.id id) s.submitted

abbrev IsDead : ℕ → SessionJob → Type 0
IsDead id j = j.id ≡ id → j.canceled ≡ true

-- The job of a number is cancelled for good: no entry leads to it.
record IsGone (id n : ℕ) (s : SessionScheduler) : Type 0 where
  owned : IsOwned s
  older : id < s.next_id
  unmapped : (t : Text) → lookup t s.job_map ≢ some id
  dead : All (IsDead id) s.jobs
  sent : times id s ≡ n

update_job-All :
    (P : SessionJob → Type 0) (id : ℕ) (change : SessionJob → SessionJob) (js : List SessionJob)
    → ((j : SessionJob) → j.id ≡ id → P j → P (change j))
    → All P js
    → All P (update_job id change js)
unfolding update_job
update_job-All P id change [] h v = tt
update_job-All P id change (j ∷ js) h v = (
  if_elim P (nat_eq j.id id) (λ e. h j ((nat_eq_iff j.id id).0 e) v.0) (λ e. v.0),
  update_job-All P id change js h v.1,
)

update_job-cancels : (id : ℕ) (js : List SessionJob) → All (IsDead id) (update_job id cancel js)
unfolding update_job
update_job-cancels id [] = tt
update_job-cancels id (j ∷ js) = (
  if_elim (IsDead id) (nat_eq j.id id) (λ e. λ q. refl)
      (λ e. λ q. ground (arith, nat_eq_iff j.id id)),
  update_job-cancels id js,
)

abbrev AllPop : (SessionJob → Type 0) → Option (SessionJob × List SessionJob) → Type 0
AllPop P none = Unit
AllPop P (some (j, rest)) = P j × All P rest

pop_job-All : (P : SessionJob → Type 0) (js : List SessionJob) → All P js → AllPop P (pop_job js)
unfolding pop_job
pop_job-All P [] v = tt
pop_job-All P (j ∷ js) (here_now, v) = joined (pop_job js) (pop_job-All P js v)
  where
    joined : (r : Option (SessionJob × List SessionJob)) → AllPop P r → AllPop P (with_job j js r)
    joined none h = (here_now, v)
    joined (some (least, rest)) (first, others) =
        if_elim (AllPop P) (leb j.run_at least.run_at) (λ e. (here_now, v))
          (λ e. (first, (here_now, others)))

expire_job-IsGone :
    (id n : ℕ) (j : SessionJob) (rest : List SessionJob) (s : SessionScheduler)
    → IsDead id j
    → All (IsDead id) rest
    → IsGone id n s
    → IsGone id n (expire_job j rest s)
unfolding expire_job
expire_job-IsGone id n j rest s dead others v = record {
  owned = IsOwned-delete j.token s rest _ v.owned;
  older = v.older;
  unmapped = λ t h. ground (arith, lookup-delete j.token t s.job_map, v.unmapped t);
  dead = others;
  sent = ground (arith, v.sent, count-snoc (λ k. nat_eq k.id id) s.submitted j, nat_eq_iff j.id id);
}

popped-IsGone :
    (id n : ℕ) (j : SessionJob) (rest : List SessionJob) (s : SessionScheduler)
    → pop_job s.jobs ≡ some (j, rest)
    → IsGone id n s
    → IsGone id n (expire_job j rest s)
popped-IsGone id n j rest s e v =
    let (dead, others) = subst (AllPop (IsDead id)) e (pop_job-All (IsDead id) s.jobs v.dead) in
    expire_job-IsGone id n j rest s dead others v

Step-IsGone : (id n : ℕ) {s t : SessionScheduler} → Step s t → IsGone id n s → IsGone id n t
unfolding schedule_session_receipt cancel_session_receipt run_due
Step-IsGone id n {s} (schedules token claims now delay) v =
    elim (Option-cases (lookup token s.job_map)) [
      | inl e ↦
          rw (e, schedule_session_receipt)
            (record {
              owned = IsOwned-insert token s _ s.submitted v.owned;
              older = ground (arith, v.older);
              unmapped = λ t h.
                  ground (arith, lookup-insert token t s.next_id s.job_map, v.unmapped t, v.older);
              dead =
                  All-append (IsDead id) s.jobs (_ ∷ []) v.dead
                    ((λ q. absurd (omega (arith, v.older, q))), tt);
              sent = v.sent;
            })
      | inr (other, e) ↦
          rw (e, schedule_session_receipt)
            (record {
              owned = record { below = v.owned.below; owner = v.owned.owner };
              older = v.older;
              unmapped = v.unmapped;
              dead =
                  update_job-All (IsDead id) other (reschedule claims (now + delay)) s.jobs
                    (λ j q d. λ q'. absurd (v.unmapped token (e ∙ ap some (sym q ∙ q')))) v.dead;
              sent = v.sent;
            })
    ]
Step-IsGone id n {s} (cancels token) v = elim (Option-cases (lookup token s.job_map)) [
  | inl e ↦ rw (e, cancel_session_receipt) v
  | inr (other, e) ↦
      rw (e, cancel_session_receipt)
        (record {
          owned = IsOwned-delete token s _ s.submitted v.owned;
          older = v.older;
          unmapped = λ t h. ground (arith, lookup-delete token t s.job_map, v.unmapped t);
          dead = update_job-All (IsDead id) other cancel s.jobs (λ j q d. λ q'. refl) v.dead;
          sent = v.sent;
        })
]
Step-IsGone id n {s} (expires now) v =
    process_expired_keeps (IsGone id n) now (popped-IsGone id n) (length s.jobs) s v

Reach-IsGone : (id n : ℕ) {s t : SessionScheduler} → Reach s t → IsGone id n s → IsGone id n t
Reach-IsGone id n here v = v
Reach-IsGone id n (next r st) v = Step-IsGone id n st (Reach-IsGone id n r v)

cancel_session_receipt-IsGone :
    (token : Text) (id : ℕ) (s : SessionScheduler)
    → IsOwned s
    → lookup token s.job_map ≡ some id
    → ((cancel_session_receipt token s).0 ≡ true)
      × IsGone id (times id s) (cancel_session_receipt token s).1
unfolding cancel_session_receipt
cancel_session_receipt-IsGone token id s v e =
    rw (e, cancel_session_receipt)
      (
        refl,
        record {
          owned = IsOwned-delete token s _ s.submitted v;
          older = v.below token id e;
          unmapped = λ t h.
              ground
                (arith, lookup-delete token t s.job_map, v.owner token t id e, text_eq_iff token t);
          dead = update_job-cancels id s.jobs;
          sent = refl;
        },
      )

-- Whatever was called before and is called after: where a token has a job on the map, a cancellation
-- of the token answers true, and the job is submitted no more from then on.
pub cancel_session_receipt_holds :
    (token : Text) (id : ℕ) {s t : SessionScheduler}
    → Reach new_session_scheduler s
    → lookup token s.job_map ≡ some id
    → Reach (cancel_session_receipt token s).1 t
    → ((cancel_session_receipt token s).0 ≡ true) × (times id t ≡ times id s)
cancel_session_receipt_holds token id {s} r e after =
    let (done, gone) =
      cancel_session_receipt-IsGone token id s (Reach-IsOwned r new_session_scheduler-IsOwned) e in
    (done, (Reach-IsGone id (times id s) after gone).sent)
